-- ===== src/HostApi/Service/Sample.antt =====
-- A small host behind the API: its world is the snapshot that the inventory reads.
use kernmux.Prelude.{true, none, some, [], ◌∷◌, ok, err}
use kernmux.Prelude.Text.{text}
use kernmux.Api.{HostSnapshot}
use kernmux.Executor.{KerfRunner, KerfTermination, SnapshotRefresher, ℤ}
use kernmux.HostApi.{Method}
use kernmux.HostApi.Service.Consoles.{ConsoleProxy}
use kernmux.HostApi.Service.Types.{
  Circumstances, FileSystem, HostState, Json, LocalRequest, StorageBackend,
}
use kernmux.Images.{ImageStore, ImageStoreError}
use kernmux.Security.{PeerIdentity, ServiceLimits, nothing_held}

abbrev pub inventory : SnapshotRefresher HostSnapshot (Unit {0})
inventory = record { refresh_snapshot = λ w. (ok w, w) }

abbrev pub runner : KerfRunner HostSnapshot (Unit {0})
runner = record {
  run = λ invocation w.
      (ok (record { termination = KerfTermination.exited (ℤ.pos 0); stdout = []; stderr = [] }), w);
}

abbrev pub no_images : ImageStore HostSnapshot
no_images = record {
  list = λ w. (ok [], w);
  import_path = λ kind source id w. (err ImageStoreError.source_not_regular, w);
  import_os_image = λ source label architecture id w. (err ImageStoreError.source_not_regular, w);
  resolve = λ kind id w. (err ImageStoreError.not_found, w);
}

abbrev pub no_storage : StorageBackend HostSnapshot (Unit {0})
no_storage = record { observe = λ devices w. none; generation = λ inventory. 0 }

-- Bodies of lifecycle requests name generation 7; no other body is understood.
abbrev pub codec : Json (Unit {0})
codec = record {
  read_resource_pool = λ body. none;
  read_create = λ body. none;
  read_update = λ body. none;
  read_load = λ body. none;
  read_managed_load = λ body. none;
  read_import_image = λ body. none;
  read_import_os_image = λ body. none;
  read_lifecycle = λ body. some (record { expected_generation = 7 });
  read_stop = λ body. none;
  write = λ response. some [];
}

-- Every path is a link to one kernel.
abbrev pub links : FileSystem HostSnapshot
links = record {
  canonicalize = λ path w. some (text "/boot/vmlinuz-1");
  is_file = λ path w. some true;
  is_dir = λ path w. true;
}

abbrev pub consoles : ConsoleProxy HostSnapshot
consoles = record { attach = λ id w. (ok tt, w) }

abbrev pub limits : ServiceLimits
limits = record { connections = 4; mutations = 1; consoles = 1 }

abbrev pub idle : HostState
idle = record {
  scheduler = record {
    registry = record {
      state = record {
        next_operation = 1;
        next_sequence = 1;
        latest_generation = 0;
        operations = [];
        events = [];
      };
      operation_capacity = 8;
      event_capacity = 8;
    };
    workers = [];
  };
  limiter = record { shared = nothing_held; limits = limits };
  image_catalog = record { generation = 0; observed = none };
  compatibility_report = none;
  image_roots = text "/boot" ∷ [];
  tasks = [];
}

abbrev pub now : Circumstances
now = record { created_at = text "t0"; spawned = true; failed_at = text "t1" }

abbrev pub operator : PeerIdentity
operator = record { pid = 42; actor = record { uid = 1000; gid = 1000; label = none } }

abbrev pub stranger : PeerIdentity
stranger = record { pid = 43; actor = record { uid = 7; gid = 7; label = none } }

abbrev pub start_beta : LocalRequest
start_beta = record {
  method = Method.post;
  path = text "/1.0/instances/2/start";
  query = none;
  request_id = some (text "r-1");
  body = [];
}
