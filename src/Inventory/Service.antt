-- ===== src/Inventory/Service.antt =====
-- InventoryService of inventory.rs, the source it reads, and its use as a SnapshotRefresher. The
-- source acts on a world.
use kernmux.Prelude.{
  Bool, true, false, [], ◌∷◌, map, Option, none, some, Result, ok, err, saturating_add,
  if◌then◌else◌,
}
use kernmux.Prelude.Text.{text}
use kernmux.Prelude.Equality.{equals}
use kernmux.Api.{Diagnostic, DiagnosticSeverity, HostSnapshot, NumaNode, SnapshotHealth}
use kernmux.Api.Equality.{host_snapshot_eq}
use kernmux.Executor.{SnapshotRefresher}
use kernmux.Inventory.Observations.{
  HostCapability, supports, HostObservations, LinuxHostObservation, MultikernelObservation,
}
use kernmux.Inventory.Assembly.{assemble_snapshot}

pub record InventorySource (W E : Type 0) : Type 0 where
  pub observe : W → Result HostObservations E × W

-- The last good snapshot.
pub record InventoryService : Type 0 where
  pub current : Option HostSnapshot

abbrev pub new_service : InventoryService
new_service = record { current = none }

unfoldable pub without_available : NumaNode → NumaNode
without_available node = record {
  id = node.id;
  logical_cpu_ids = node.logical_cpu_ids;
  total_memory_bytes = node.total_memory_bytes;
  available_memory_bytes = 0;
}

unfoldable pub generation_relevant_state : HostSnapshot → HostSnapshot
unfolding without_available
generation_relevant_state s = record s {
  topology = record s.topology { numa_nodes = map without_available s.topology.numa_nodes };
}

abbrev pub inventory_unavailable : Diagnostic
inventory_unavailable = record {
  code = text "inventory_unavailable";
  severity = DiagnosticSeverity.error;
  message = text "host inventory refresh did not complete";
  detail = none;
  redacted = true;
}

-- The retained snapshot after a refresh that did not complete.
unfoldable pub stale_of : HostSnapshot → HostSnapshot
stale_of s = record s {
  health = SnapshotHealth.indeterminate;
  diagnostics = inventory_unavailable ∷ [];
}

-- The snapshot of new observations, when one is retained.
unfoldable pub next_snapshot : HostSnapshot → HostObservations → HostSnapshot
unfolding assemble_snapshot generation_relevant_state
next_snapshot current observations =
    let same_generation = assemble_snapshot current.generation observations in
    if equals (generation_relevant_state same_generation) (generation_relevant_state current)
    then same_generation
    else assemble_snapshot (saturating_add current.generation 1) observations

unfoldable pub refreshed :
    {E : Type 0}
    → Option HostSnapshot
    → Result HostObservations E
    → Result HostSnapshot E × InventoryService
unfolding assemble_snapshot next_snapshot stale_of
refreshed (some current) (err error) = (ok (stale_of current), record { current = some current })
refreshed none (err error) = (err error, record { current = none })
refreshed (some current) (ok observations) =
    let snapshot = next_snapshot current observations in
    (ok snapshot, record { current = some snapshot })
refreshed none (ok observations) =
    let snapshot = assemble_snapshot 1 observations in
    (ok snapshot, record { current = some snapshot })

module _ {W E : Type 0} (source : InventorySource W E) where
  unfoldable pub refresh : InventoryService × W → Result HostSnapshot E × (InventoryService × W)
  unfolding refreshed
  refresh (service, w) =
      let (observations, w1) = source.observe w in
      let (result, after) = refreshed service.current observations in (result, (after, w1))

  -- The daemon's refresher: the service and what its source reads are one world.
  abbrev pub inventory_refresher : SnapshotRefresher (InventoryService × W) E
  inventory_refresher = record { refresh_snapshot = refresh }

-- Failure from one of the probes.
pub data FilesystemInventoryError (L M : Type 0) : Type 0 where
  linux : L → FilesystemInventoryError L M
  multikernel : M → FilesystemInventoryError L M

-- `MultikernelObservation::default()`.
abbrev pub no_multikernel : MultikernelObservation
no_multikernel = record {
  pool = record {
    cpu_hardware_ids = [];
    available_cpu_hardware_ids = [];
    memory_regions = [];
    devices = [];
  };
  instances = [];
  transactions = [];
}

module _ {W L M : Type 0} (linux_probe : W → Result LinuxHostObservation L)
    (multikernel_probe : W → Result MultikernelObservation M) where
  abbrev observe_multikernel :
      LinuxHostObservation → W → Bool → Result HostObservations (FilesystemInventoryError L M)
  observe_multikernel host w false = ok (record { linux = host; multikernel = no_multikernel })
  observe_multikernel host w true = elim (multikernel_probe w) [
    | err e ↦ err (FilesystemInventoryError.multikernel e)
    | ok peers ↦ ok (record { linux = host; multikernel = peers })
  ]

  -- FilesystemInventorySource: the Multikernel probe is read only where the kernel has one.
  unfoldable pub filesystem_source : InventorySource W (FilesystemInventoryError L M)
  filesystem_source = record {
    observe = λ w. (
      elim (linux_probe w) [
        | err e ↦ err (FilesystemInventoryError.linux e)
        | ok host ↦
            observe_multikernel host w (supports host.capabilities HostCapability.multikernel)
      ],
      w,
    );
  }
