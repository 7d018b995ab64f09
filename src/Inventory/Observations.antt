-- ===== src/Inventory/Observations.antt =====
-- What the probes of the host report: crates/kernmux-core/src/host.rs and
-- crates/kernmux-core/src/multikernel.rs, and the pair of them in inventory.rs.
use kernmux.Prelude.{ℕ, Bool, Option, List, ◌==◌, any}
use kernmux.Prelude.Text.{Text}

-- Runtime feature discovered from Linux host interfaces.
pub data HostCapability : Type 0 where
  multikernel instance_lifecycle transactions dynamic_resources console shared_memory
        device_assignment :
      HostCapability

-- `Ord` of the capabilities, as derived.
abbrev capability_rank : HostCapability → ℕ
capability_rank HostCapability.multikernel = 0
capability_rank HostCapability.instance_lifecycle = 1
capability_rank HostCapability.transactions = 2
capability_rank HostCapability.dynamic_resources = 3
capability_rank HostCapability.console = 4
capability_rank HostCapability.shared_memory = 5
capability_rank HostCapability.device_assignment = 6

-- Host interfaces discovered at runtime: a set, read in its order.
pub record HostCapabilities : Type 0 where
  pub supported : List HostCapability

abbrev pub supports : HostCapabilities → HostCapability → Bool
supports c capability = any (λ s. capability_rank s == capability_rank capability) c.supported

pub record CpuObservation : Type 0 where
  pub logical_id : ℕ
  pub hardware_id : ℕ
  pub package_id : ℕ
  pub core_id : ℕ
  pub thread_index : ℕ
  pub numa_node : ℕ

pub record NumaNodeObservation : Type 0 where
  pub id : ℕ
  pub logical_cpu_ids : List ℕ
  pub total_memory_bytes : ℕ
  pub available_memory_bytes : ℕ

pub record HostMemoryObservation : Type 0 where
  pub total_bytes : ℕ
  pub available_bytes : ℕ

pub record LinuxHostObservation : Type 0 where
  pub kernel_release : Text
  pub architecture : Text
  pub capabilities : HostCapabilities
  pub cpus : List CpuObservation
  pub numa_nodes : List NumaNodeObservation
  pub memory : HostMemoryObservation

pub record PciDeviceObservation : Type 0 where
  pub pool_name : Text
  pub pci_id : Text
  pub vendor_id : Option ℕ
  pub device_id : Option ℕ
  pub iommu_group : Option ℕ
  pub iommu_group_members : List Text

pub record MemoryRegionObservation : Type 0 where
  pub base : ℕ
  pub bytes : ℕ
  pub numa_node : ℕ

pub record ResourcePoolObservation : Type 0 where
  pub cpu_hardware_ids : List ℕ
  pub available_cpu_hardware_ids : List ℕ
  pub memory_regions : List MemoryRegionObservation
  pub devices : List PciDeviceObservation

pub data InstanceLifecycleState : Type 0 where
  ready loaded active : InstanceLifecycleState

pub record InstanceResourceObservation : Type 0 where
  pub cpu_hardware_ids : List ℕ
  pub memory_base : ℕ
  pub memory_bytes : ℕ
  pub devices : List PciDeviceObservation

pub record KernelImageObservation : Type 0 where
  pub present : Bool

pub record InstanceObservation : Type 0 where
  pub id : ℕ
  pub name : Text
  pub state : InstanceLifecycleState
  pub resources : InstanceResourceObservation
  pub image : KernelImageObservation

pub data TransactionStatus : Type 0 where
  pending applied rolled_back failed : TransactionStatus

pub record TransactionObservation : Type 0 where
  pub id : ℕ
  pub status : TransactionStatus
  pub instance_path : Option Text
  pub resource_summary : Option Text

pub record MultikernelObservation : Type 0 where
  pub pool : ResourcePoolObservation
  pub instances : List InstanceObservation
  pub transactions : List TransactionObservation

-- A consistent pair of Linux and Multikernel observations.
pub record HostObservations : Type 0 where
  pub linux : LinuxHostObservation
  pub multikernel : MultikernelObservation
