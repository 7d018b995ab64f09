-- ===== src/Api/Host.antt =====
-- The host snapshot of v1.rs and what it is made of.
use kernmux.Prelude.{ℕ, ◌≡◌, ◌↔◌, Bool, Option, List, arith, ◌==◌, true, false}
use kernmux.Prelude.Text.{Text}
use kernmux.Api.Events.{Generation, InstanceId, Operation, Diagnostic}

-- Confidence in the freshness of an authoritative host snapshot.
pub data SnapshotHealth : Type 0 where
  healthy indeterminate unknown : SnapshotHealth

-- Identity and compatibility information for the running control kernel.
pub record KernelInfo : Type 0 where
  pub release : Text
  pub multikernel_enabled : Bool

-- Runtime capability advertised by the host service.
pub data Capability : Type 0 where
  multikernel instance_lifecycle dynamic_resources transaction_rollback console device_assignment
        shared_memory unknown :
      Capability

-- One logical CPU and the hardware identifiers needed for assignment.
pub record Cpu : Type 0 where
  pub logical_id : ℕ
  pub hardware_id : ℕ
  pub package_id : ℕ
  pub core_id : ℕ
  pub thread_index : ℕ
  pub numa_node : ℕ
  pub online : Bool

-- Memory and CPU membership of one NUMA node.
pub record NumaNode : Type 0 where
  pub id : ℕ
  pub logical_cpu_ids : List ℕ
  pub total_memory_bytes : ℕ
  pub available_memory_bytes : ℕ

-- CPU and NUMA topology used for placement and conflict validation.
pub record CpuTopology : Type 0 where
  pub architecture : Text
  pub cpus : List Cpu
  pub numa_nodes : List NumaNode

-- Host-wide memory totals and the assignable Multikernel pool.
pub record HostMemory : Type 0 where
  pub total_bytes : ℕ
  pub host_reserved_bytes : ℕ
  pub assignable_bytes : ℕ
  pub assigned_bytes : ℕ

-- One contiguous memory region delegated to the resource pool.
pub record MemoryRegion : Type 0 where
  pub base : ℕ
  pub bytes : ℕ
  pub numa_node : ℕ

-- One PCI device delegated to the Multikernel resource hierarchy.
pub record PciDevice : Type 0 where
  pub pci_id : Text
  pub pool_name : Text
  pub vendor_id : Option ℕ
  pub device_id : Option ℕ
  pub iommu_group : Option ℕ
  pub iommu_group_members : List Text

-- Resources delegated to peer kernels.
pub record ResourcePool : Type 0 where
  pub cpu_hardware_ids : List ℕ
  pub available_cpu_hardware_ids : List ℕ
  pub memory_regions : List MemoryRegion
  pub devices : List PciDevice
  pub available_device_ids : List Text

-- Lifecycle state observed from authoritative kernel state.
pub data InstanceState : Type 0 where
  absent ready loaded active unknown : InstanceState

-- Resources assigned to an instance.
pub record ResourceAllocation : Type 0 where
  pub cpu_hardware_ids : List ℕ
  pub memory_base : Option ℕ
  pub memory_bytes : ℕ
  pub memory_region : Option Text
  pub device_ids : List Text

-- Kernel image state authoritatively reported for an instance.
pub record KernelImage : Type 0 where
  pub present : Bool

-- One managed peer-kernel instance.
pub record Instance : Type 0 where
  pub id : InstanceId
  pub name : Text
  pub generation : Generation
  pub state : InstanceState
  pub resources : ResourceAllocation
  pub image : KernelImage

-- State of a resource transaction.
pub data TransactionState : Type 0 where
  planned applied rolled_back failed unknown : TransactionState

-- Result of an atomic resource transaction.
pub record Transaction : Type 0 where
  pub id : Text
  pub state : TransactionState
  pub generation_before : Option Generation
  pub generation_after : Option Generation
  pub diagnostics : List Diagnostic

-- Authoritative view of one Multikernel host.
pub record HostSnapshot : Type 0 where
  pub generation : Generation
  pub health : SnapshotHealth
  pub diagnostics : List Diagnostic
  pub kernel : KernelInfo
  pub capabilities : List Capability
  pub topology : CpuTopology
  pub memory : HostMemory
  pub resource_pool : ResourcePool
  pub instances : List Instance
  pub transactions : List Transaction
  pub operations : List Operation

abbrev instance_state_tag : InstanceState → ℕ
instance_state_tag InstanceState.absent = 0
instance_state_tag InstanceState.ready = 1
instance_state_tag InstanceState.loaded = 2
instance_state_tag InstanceState.active = 3
instance_state_tag InstanceState.unknown = 4

-- `==` on instance states.
unfoldable pub same_state : InstanceState → InstanceState → Bool
same_state a b = instance_state_tag a == instance_state_tag b

pub same_state_iff : (a b : InstanceState) → (same_state a b ≡ true) ↔ (a ≡ b)
unfolding same_state
same_state_iff a b = ground arith

-- `health == SnapshotHealth::Healthy`.
abbrev pub is_healthy : SnapshotHealth → Bool
is_healthy SnapshotHealth.healthy = true
is_healthy _ = false
