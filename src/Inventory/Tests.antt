-- ===== src/Inventory/Tests.antt =====
-- A small host as the probes report it, and a source that may fail.
use kernmux.Prelude.{
  ℕ, ◌<◌, ◌≡◌, ◌⊎◌, refl, true, [], ◌∷◌, map, Option, none, some, Result, ok, err, arith,
  wrapping_sum,
}
use kernmux.Prelude.Order.{bytes_ord, compare_bytes}
use kernmux.Prelude.TreeSet.{IsIncreasing}
use kernmux.Lifecycle.{InstanceRequest, LifecycleRequest}
use kernmux.Prelude.Text.{text}
use kernmux.Api.{HostSnapshot, SnapshotHealth}
use kernmux.Executor.{KerfRunner, LifecycleExecutionError, execute}
use kernmux.Inventory.Observations.{
  HostCapability, HostObservations, InstanceLifecycleState, MultikernelObservation,
  PciDeviceObservation,
}
use kernmux.Inventory.Assembly.{
  assemble_snapshot, collect_devices, insert_device, map_device, map_resource_pool,
  observed_devices,
}
use kernmux.Inventory.Service.{
  InventorySource, InventoryService, generation_relevant_state, inventory_refresher, new_service,
  next_snapshot, refresh, refreshed, stale_of, without_available,
}
use kernmux.Inventory.Devices.{find_device, last_reported, map_resource_pool-devices}
use kernmux.Inventory.Retention.{SameHost}
use kernmux.Inventory.Freshness.{execute-unobserved, generation_tells, refresh-health, refresh_all}

abbrev card : ℕ → PciDeviceObservation
card group = record {
  pool_name = text "net";
  pci_id = text "0000:00:02.0";
  vendor_id = none;
  device_id = none;
  iommu_group = some group;
  iommu_group_members = [];
}

-- The pool and an instance both report the card.
abbrev peers : MultikernelObservation
peers = record {
  pool = record {
    cpu_hardware_ids = 4 ∷ [];
    available_cpu_hardware_ids = [];
    memory_regions = record { base = 4096; bytes = 4096; numa_node = 0 } ∷ [];
    devices = card 1 ∷ [];
  };
  instances =
      record {
        id = 1;
        name = text "alpha";
        state = InstanceLifecycleState.ready;
        resources = record {
          cpu_hardware_ids = 4 ∷ [];
          memory_base = 4096;
          memory_bytes = 2048;
          devices = card 2 ∷ [];
        };
        image = record { present = true };
      }
      ∷ [];
  transactions = [];
}

abbrev observed : ℕ → HostObservations
observed available = record {
  linux = record {
    kernel_release = text "6.12";
    architecture = text "x86_64";
    capabilities = record { supported = HostCapability.multikernel ∷ [] };
    cpus = [];
    numa_nodes =
        record {
          id = 0;
          logical_cpu_ids = [];
          total_memory_bytes = 9;
          available_memory_bytes = available;
        }
        ∷ [];
    memory = record { total_bytes = 9; available_bytes = available };
  };
  multikernel = peers;
}

-- The source reports the free memory, or fails.
abbrev report : Option ℕ → Result HostObservations ℕ
report none = err 5
report (some available) = ok (observed available)

abbrev source : InventorySource (Option ℕ) ℕ
source = record { observe = λ w. (report w, w) }

abbrev snapshot_of : ℕ → HostSnapshot
snapshot_of available = assemble_snapshot 1 (observed available)

first_read :
    (refresh source (refresh_all source new_service (none ∷ []), some 7)).0 ≡ ok (snapshot_of 7)
unfolding refresh refreshed
first_read = refl

later_read :
    (refresh source (
      refresh_all source
          (refresh source (refresh_all source new_service (none ∷ []), some 7)).1.0
          (none ∷ []),
      some 3,
    )).0
    ≡ ok (snapshot_of 3)
unfolding refresh refreshed next_snapshot generation_relevant_state without_available
    assemble_snapshot map_resource_pool collect_devices insert_device text compare_bytes
    wrapping_sum
later_read = refl

generation_tells_example :
    let first : ℕ = 1 in (first < 1) ⊎ ((first ≡ 1) × (SameHost (snapshot_of 7) (snapshot_of 3)))
unfolding assemble_snapshot
generation_tells_example =
    generation_tells source (none ∷ []) (none ∷ []) (some 7) (some 3) (snapshot_of 7)
      (snapshot_of 3) first_read later_read (omega arith)

abbrev holding : InventoryService
holding = record { current = some (snapshot_of 7) }

failed_read : (refresh source (holding, none)).0 ≡ ok (stale_of (snapshot_of 7))
unfolding refresh refreshed
failed_read = refl

refresh-health_example :
    let r = stale_of (snapshot_of 7) in
    let failing : Option ℕ = none in
    ((r.health ≡ SnapshotHealth.healthy)
      × ((o : HostObservations) × ((source.observe failing).0 ≡ ok o)
          × (r ≡ assemble_snapshot r.generation o))
      × ((refresh source (holding, none)).1.0.current ≡ some r))
    ⊎ ((r.health ≡ SnapshotHealth.indeterminate)
        × ((e : ℕ) × ((source.observe failing).0 ≡ err e))
        × ((c : HostSnapshot) × (holding.current ≡ some c)
            × ((refresh source (holding, none)).1.0.current ≡ some c)
            × (r.generation ≡ c.generation)
            × (SameHost r c)))
refresh-health_example = refresh-health source holding none (stale_of (snapshot_of 7)) failed_read

abbrev runner : KerfRunner (InventoryService × Option ℕ) ℕ
runner = record { run = λ invocation w. (err 1, (w.0, some 4)) }

abbrev gone : InstanceRequest
gone = record { expected_generation = 7; id = 1 }

execute-unobserved_example :
    (x : LifecycleExecutionError ℕ) × (execute runner
        (inventory_refresher source)
        (LifecycleRequest.delete gone)
        (holding, none)
      ≡ (err x, (holding, none)))
execute-unobserved_example =
    execute-unobserved source runner (LifecycleRequest.delete gone) holding none none 5 refl

map_resource_pool-devices_example :
    IsIncreasing (map (λ d. d.pci_id) (map_resource_pool peers).devices)
    × (find_device (text "0000:00:02.0") (map_resource_pool peers).devices
        ≡ last_reported (text "0000:00:02.0") (observed_devices peers))
map_resource_pool-devices_example = map_resource_pool-devices peers (text "0000:00:02.0")

-- The card's report by the instance is the one that is listed.
listed : last_reported (text "0000:00:02.0") (observed_devices peers) ≡ some (map_device (card 2))
unfolding text compare_bytes
listed = refl
