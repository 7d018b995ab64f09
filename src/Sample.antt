-- ===== src/Sample.antt =====
-- A small host, for the tests of the modules that read a snapshot.
use kernmux.Prelude.{ℕ, true, none, some, List, [], ◌∷◌}
use kernmux.Prelude.Text.{text}
use kernmux.Api.{Cpu, HostSnapshot, Instance, InstanceState, SnapshotHealth}

abbrev cpu : ℕ → Cpu
cpu id = record {
  logical_id = id;
  hardware_id = id;
  package_id = 0;
  core_id = id;
  thread_index = 0;
  numa_node = 0;
  online = true;
}

-- Instance 1: one CPU and 2048 bytes from 4096 on.
abbrev pub alpha : Instance
alpha = record {
  id = 1;
  name = text "alpha";
  generation = 7;
  state = InstanceState.ready;
  resources = record {
    cpu_hardware_ids = 4 ∷ [];
    memory_base = some 4096;
    memory_bytes = 2048;
    memory_region = none;
    device_ids = [];
  };
  image = record { present = true };
}

-- Instance 2: loaded, with 1024 bytes from 8192 on.
abbrev pub beta : Instance
beta = record {
  id = 2;
  name = text "beta";
  generation = 7;
  state = InstanceState.loaded;
  resources = record {
    cpu_hardware_ids = [];
    memory_base = some 8192;
    memory_bytes = 1024;
    memory_region = none;
    device_ids = [];
  };
  image = record { present = true };
}

-- Four CPUs, three of them in the pool, and one region of memory.
abbrev pub host_with : List Instance → HostSnapshot
host_with instances = record {
  generation = 7;
  health = SnapshotHealth.healthy;
  diagnostics = [];
  kernel = record { release = text "7.0.0-mk"; multikernel_enabled = true };
  capabilities = [];
  topology = record {
    architecture = text "x86_64";
    cpus = cpu 4 ∷ cpu 5 ∷ cpu 6 ∷ cpu 7 ∷ [];
    numa_nodes = [];
  };
  memory = record {
    total_bytes = 65536;
    host_reserved_bytes = 0;
    assignable_bytes = 8192;
    assigned_bytes = 3072;
  };
  resource_pool = record {
    cpu_hardware_ids = 4 ∷ 5 ∷ 6 ∷ [];
    available_cpu_hardware_ids = 5 ∷ 6 ∷ [];
    memory_regions = record { base = 4096; bytes = 8192; numa_node = 0 } ∷ [];
    devices = [];
    available_device_ids = [];
  };
  instances = instances;
  transactions = [];
  operations = [];
}

abbrev pub host : HostSnapshot
host = host_with (alpha ∷ beta ∷ [])
