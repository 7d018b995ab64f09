-- ===== src/Inventory/Assembly.antt =====
-- `assemble_snapshot` of inventory.rs: what was observed, as a snapshot of the contract.
use kernmux.Prelude.{
  true, List, [], ◌∷◌, ◌++◌, map, none, some, Ordering, saturating_add, wrapping_sum,
}
use kernmux.Prelude.Text.{Text, decimal}
use kernmux.Prelude.Order.{bytes_ord}
use kernmux.Api.{
  Capability, CpuTopology, Generation, HostSnapshot, Instance, InstanceState, PciDevice,
  ResourcePool, SnapshotHealth, Transaction, TransactionState,
}
use kernmux.Inventory.Observations.{
  HostCapability, supports, CpuObservation, NumaNodeObservation, LinuxHostObservation,
  PciDeviceObservation, MemoryRegionObservation, InstanceObservation, InstanceLifecycleState,
  TransactionObservation, TransactionStatus, MultikernelObservation, HostObservations,
}

abbrev map_capability : HostCapability → Capability
map_capability HostCapability.multikernel = Capability.multikernel
map_capability HostCapability.instance_lifecycle = Capability.instance_lifecycle
map_capability HostCapability.transactions = Capability.transaction_rollback
map_capability HostCapability.dynamic_resources = Capability.dynamic_resources
map_capability HostCapability.console = Capability.console
map_capability HostCapability.shared_memory = Capability.shared_memory
map_capability HostCapability.device_assignment = Capability.device_assignment

abbrev map_instance_state : InstanceLifecycleState → InstanceState
map_instance_state InstanceLifecycleState.ready = InstanceState.ready
map_instance_state InstanceLifecycleState.loaded = InstanceState.loaded
map_instance_state InstanceLifecycleState.active = InstanceState.active

abbrev map_transaction_state : TransactionStatus → TransactionState
map_transaction_state TransactionStatus.pending = TransactionState.planned
map_transaction_state TransactionStatus.applied = TransactionState.applied
map_transaction_state TransactionStatus.rolled_back = TransactionState.rolled_back
map_transaction_state TransactionStatus.failed = TransactionState.failed

abbrev map_topology : LinuxHostObservation → CpuTopology
map_topology observed = record {
  architecture = observed.architecture;
  cpus =
      map
        (λ (cpu : CpuObservation). record {
          logical_id = cpu.logical_id;
          hardware_id = cpu.hardware_id;
          package_id = cpu.package_id;
          core_id = cpu.core_id;
          thread_index = cpu.thread_index;
          numa_node = cpu.numa_node;
          online = true;
        })
        observed.cpus;
  numa_nodes =
      map
        (λ (node : NumaNodeObservation). record {
          id = node.id;
          logical_cpu_ids = node.logical_cpu_ids;
          total_memory_bytes = node.total_memory_bytes;
          available_memory_bytes = node.available_memory_bytes;
        })
        observed.numa_nodes;
}

abbrev pub pci_ids : List PciDeviceObservation → List Text
pci_ids = map (λ device. device.pci_id)

-- `BTreeMap::insert` by PCI id: an entry of the same id is replaced.
unfoldable pub insert_device :
    PciDeviceObservation → List PciDeviceObservation → List PciDeviceObservation
insert_device d [] = d ∷ []
insert_device d (x ∷ xs) = elim (bytes_ord.cmp d.pci_id x.pci_id) [
  | Ordering.lt ↦ d ∷ x ∷ xs
  | Ordering.eq ↦ d ∷ xs
  | Ordering.gt ↦ x ∷ insert_device d xs
]

-- `collect::<BTreeMap<_, _>>().into_values()`, on the entries read so far.
unfoldable pub collect_devices :
    List PciDeviceObservation → List PciDeviceObservation → List PciDeviceObservation
unfolding insert_device
collect_devices entries [] = entries
collect_devices entries (d ∷ ds) = collect_devices (insert_device d entries) ds

abbrev pub instance_devices : List InstanceObservation → List PciDeviceObservation
instance_devices [] = []
instance_devices (i ∷ instances) = i.resources.devices ++ instance_devices instances

-- The devices of the pool, then those of the instances.
abbrev pub observed_devices : MultikernelObservation → List PciDeviceObservation
observed_devices observed = observed.pool.devices ++ instance_devices observed.instances

abbrev pub map_device : PciDeviceObservation → PciDevice
map_device device = record {
  pci_id = device.pci_id;
  pool_name = device.pool_name;
  vendor_id = device.vendor_id;
  device_id = device.device_id;
  iommu_group = device.iommu_group;
  iommu_group_members = device.iommu_group_members;
}

unfoldable pub map_resource_pool : MultikernelObservation → ResourcePool
unfolding collect_devices
map_resource_pool observed = record {
  cpu_hardware_ids = observed.pool.cpu_hardware_ids;
  available_cpu_hardware_ids = observed.pool.available_cpu_hardware_ids;
  memory_regions =
      map
        (λ (region : MemoryRegionObservation). record {
          base = region.base;
          bytes = region.bytes;
          numa_node = region.numa_node;
        })
        observed.pool.memory_regions;
  devices = map map_device (collect_devices [] (observed_devices observed));
  available_device_ids = pci_ids observed.pool.devices;
}

abbrev map_instances : Generation → MultikernelObservation → List Instance
map_instances generation observed =
    map
      (λ (i : InstanceObservation). record {
        id = i.id;
        name = i.name;
        generation = generation;
        state = map_instance_state i.state;
        resources = record {
          cpu_hardware_ids = i.resources.cpu_hardware_ids;
          memory_base = some i.resources.memory_base;
          memory_bytes = i.resources.memory_bytes;
          memory_region = none;
          device_ids = pci_ids i.resources.devices;
        };
        image = record { present = i.image.present };
      })
      observed.instances

abbrev map_transactions : MultikernelObservation → List Transaction
map_transactions observed =
    map
      (λ (t : TransactionObservation). record {
        id = decimal t.id;
        state = map_transaction_state t.status;
        generation_before = none;
        generation_after = none;
        diagnostics = [];
      })
      observed.transactions

unfoldable pub assemble_snapshot : Generation → HostObservations → HostSnapshot
unfolding wrapping_sum map_resource_pool
assemble_snapshot generation observed =
    let pool_memory_bytes =
      wrapping_sum (map (λ region. region.bytes) observed.multikernel.pool.memory_regions) in
    let assigned_memory_bytes =
      wrapping_sum (map (λ i. i.resources.memory_bytes) observed.multikernel.instances) in
    record {
      generation = generation;
      health = SnapshotHealth.healthy;
      diagnostics = [];
      kernel = record {
        release = observed.linux.kernel_release;
        multikernel_enabled = supports observed.linux.capabilities HostCapability.multikernel;
      };
      capabilities = map map_capability observed.linux.capabilities.supported;
      topology = map_topology observed.linux;
      memory = record {
        total_bytes = saturating_add observed.linux.memory.total_bytes pool_memory_bytes;
        host_reserved_bytes = observed.linux.memory.total_bytes;
        assignable_bytes = pool_memory_bytes;
        assigned_bytes = assigned_memory_bytes;
      };
      resource_pool = map_resource_pool observed.multikernel;
      instances = map_instances generation observed.multikernel;
      transactions = map_transactions observed.multikernel;
      operations = [];
    }
