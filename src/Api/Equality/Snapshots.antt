-- ===== src/Api/Equality/Snapshots.antt =====
-- `==` of snapshots and of what they are made of.
use kernmux.Prelude.Text.{Text}
use kernmux.Prelude.{ℕ, Bool, List, Option, ◌≡◌, ◌↔◌, refl, true, arith, ◌==◌}
use kernmux.Prelude.Equality.{Eq, via, nat_eq, bool_eq, list_eq, option_eq, pair_eq}
use kernmux.Api.{
  Generation, InstanceId, Operation, Diagnostic, SnapshotHealth, KernelInfo, Capability, Cpu,
  NumaNode, CpuTopology, HostMemory, MemoryRegion, PciDevice, ResourcePool, InstanceState,
  ResourceAllocation, KernelImage, Instance, TransactionState, Transaction, HostSnapshot,
}
use kernmux.Api.Equality.Operations.{operation_eq, diagnostic_eq}

abbrev snapshot_health_number : SnapshotHealth → ℕ
snapshot_health_number SnapshotHealth.healthy = 0
snapshot_health_number SnapshotHealth.indeterminate = 1
snapshot_health_number SnapshotHealth.unknown = 2

pub snapshot_health_iff :
    (a b : SnapshotHealth)
    → ((snapshot_health_number a == snapshot_health_number b) ≡ true) ↔ (a ≡ b)
snapshot_health_iff a b = ground arith

instance abbrev pub snapshot_health_eq : Eq SnapshotHealth
snapshot_health_eq = record {
  eq = λ a b. snapshot_health_number a == snapshot_health_number b;
  eq_iff = snapshot_health_iff;
}

instance abbrev pub kernel_info_eq : Eq KernelInfo
kernel_info_eq =
    via {B = Text × (Bool)} (λ (x : KernelInfo). (x.release, x.multikernel_enabled))
      (λ p. record { release = p.0; multikernel_enabled = p.1 }) (λ x. refl)

abbrev capability_number : Capability → ℕ
capability_number Capability.multikernel = 0
capability_number Capability.instance_lifecycle = 1
capability_number Capability.dynamic_resources = 2
capability_number Capability.transaction_rollback = 3
capability_number Capability.console = 4
capability_number Capability.device_assignment = 5
capability_number Capability.shared_memory = 6
capability_number Capability.unknown = 7

pub capability_iff :
    (a b : Capability) → ((capability_number a == capability_number b) ≡ true) ↔ (a ≡ b)
capability_iff a b = ground arith

instance abbrev pub capability_eq : Eq Capability
capability_eq = record {
  eq = λ a b. capability_number a == capability_number b;
  eq_iff = capability_iff;
}

instance abbrev pub cpu_eq : Eq Cpu
cpu_eq =
    via {B = ℕ × (ℕ × (ℕ × (ℕ × (ℕ × (ℕ × (Bool))))))}
      (λ (x : Cpu). (
        x.logical_id,
        (x.hardware_id, (x.package_id, (x.core_id, (x.thread_index, (x.numa_node, x.online))))),
      ))
      (λ p. record {
        logical_id = p.0;
        hardware_id = p.1.0;
        package_id = p.1.1.0;
        core_id = p.1.1.1.0;
        thread_index = p.1.1.1.1.0;
        numa_node = p.1.1.1.1.1.0;
        online = p.1.1.1.1.1.1;
      })
      (λ x. refl)

instance abbrev pub numa_node_eq : Eq NumaNode
numa_node_eq =
    via {B = ℕ × (List ℕ × (ℕ × (ℕ)))}
      (λ (x : NumaNode).
        (x.id, (x.logical_cpu_ids, (x.total_memory_bytes, x.available_memory_bytes))))
      (λ p. record {
        id = p.0;
        logical_cpu_ids = p.1.0;
        total_memory_bytes = p.1.1.0;
        available_memory_bytes = p.1.1.1;
      })
      (λ x. refl)

instance abbrev pub cpu_topology_eq : Eq CpuTopology
cpu_topology_eq =
    via {B = Text × (List Cpu × (List NumaNode))}
      (λ (x : CpuTopology). (x.architecture, (x.cpus, x.numa_nodes)))
      (λ p. record { architecture = p.0; cpus = p.1.0; numa_nodes = p.1.1 }) (λ x. refl)

instance abbrev pub host_memory_eq : Eq HostMemory
host_memory_eq =
    via {B = ℕ × (ℕ × (ℕ × (ℕ)))}
      (λ (x : HostMemory).
        (x.total_bytes, (x.host_reserved_bytes, (x.assignable_bytes, x.assigned_bytes))))
      (λ p. record {
        total_bytes = p.0;
        host_reserved_bytes = p.1.0;
        assignable_bytes = p.1.1.0;
        assigned_bytes = p.1.1.1;
      })
      (λ x. refl)

instance abbrev pub memory_region_eq : Eq MemoryRegion
memory_region_eq =
    via {B = ℕ × (ℕ × (ℕ))} (λ (x : MemoryRegion). (x.base, (x.bytes, x.numa_node)))
      (λ p. record { base = p.0; bytes = p.1.0; numa_node = p.1.1 }) (λ x. refl)

instance abbrev pub pci_device_eq : Eq PciDevice
pci_device_eq =
    via {B = Text × (Text × (Option ℕ × (Option ℕ × (Option ℕ × (List Text)))))}
      (λ (x : PciDevice). (
        x.pci_id,
        (x.pool_name, (x.vendor_id, (x.device_id, (x.iommu_group, x.iommu_group_members)))),
      ))
      (λ p. record {
        pci_id = p.0;
        pool_name = p.1.0;
        vendor_id = p.1.1.0;
        device_id = p.1.1.1.0;
        iommu_group = p.1.1.1.1.0;
        iommu_group_members = p.1.1.1.1.1;
      })
      (λ x. refl)

instance abbrev pub resource_pool_eq : Eq ResourcePool
resource_pool_eq =
    via {B = List ℕ × (List ℕ × (List MemoryRegion × (List PciDevice × (List Text))))}
      (λ (x : ResourcePool). (
        x.cpu_hardware_ids,
        (x.available_cpu_hardware_ids, (x.memory_regions, (x.devices, x.available_device_ids))),
      ))
      (λ p. record {
        cpu_hardware_ids = p.0;
        available_cpu_hardware_ids = p.1.0;
        memory_regions = p.1.1.0;
        devices = p.1.1.1.0;
        available_device_ids = p.1.1.1.1;
      })
      (λ x. refl)

abbrev instance_state_number : InstanceState → ℕ
instance_state_number InstanceState.absent = 0
instance_state_number InstanceState.ready = 1
instance_state_number InstanceState.loaded = 2
instance_state_number InstanceState.active = 3
instance_state_number InstanceState.unknown = 4

pub instance_state_iff :
    (a b : InstanceState) → ((instance_state_number a == instance_state_number b) ≡ true) ↔ (a ≡ b)
instance_state_iff a b = ground arith

instance abbrev pub instance_state_eq : Eq InstanceState
instance_state_eq = record {
  eq = λ a b. instance_state_number a == instance_state_number b;
  eq_iff = instance_state_iff;
}

instance abbrev pub resource_allocation_eq : Eq ResourceAllocation
resource_allocation_eq =
    via {B = List ℕ × (Option ℕ × (ℕ × (Option Text × (List Text))))}
      (λ (x : ResourceAllocation).
        (x.cpu_hardware_ids, (x.memory_base, (x.memory_bytes, (x.memory_region, x.device_ids)))))
      (λ p. record {
        cpu_hardware_ids = p.0;
        memory_base = p.1.0;
        memory_bytes = p.1.1.0;
        memory_region = p.1.1.1.0;
        device_ids = p.1.1.1.1;
      })
      (λ x. refl)

instance abbrev pub kernel_image_eq : Eq KernelImage
kernel_image_eq =
    via {B = Bool} (λ (x : KernelImage). x.present) (λ p. record { present = p }) (λ x. refl)

instance abbrev pub instance_eq : Eq Instance
instance_eq =
    via
      {B = InstanceId
        × (Text × (Generation × (InstanceState × (ResourceAllocation × (KernelImage)))))}
      (λ (x : Instance). (x.id, (x.name, (x.generation, (x.state, (x.resources, x.image))))))
      (λ p. record {
        id = p.0;
        name = p.1.0;
        generation = p.1.1.0;
        state = p.1.1.1.0;
        resources = p.1.1.1.1.0;
        image = p.1.1.1.1.1;
      })
      (λ x. refl)

abbrev transaction_state_number : TransactionState → ℕ
transaction_state_number TransactionState.planned = 0
transaction_state_number TransactionState.applied = 1
transaction_state_number TransactionState.rolled_back = 2
transaction_state_number TransactionState.failed = 3
transaction_state_number TransactionState.unknown = 4

pub transaction_state_iff :
    (a b : TransactionState)
    → ((transaction_state_number a == transaction_state_number b) ≡ true) ↔ (a ≡ b)
transaction_state_iff a b = ground arith

instance abbrev pub transaction_state_eq : Eq TransactionState
transaction_state_eq = record {
  eq = λ a b. transaction_state_number a == transaction_state_number b;
  eq_iff = transaction_state_iff;
}

instance abbrev pub transaction_eq : Eq Transaction
transaction_eq =
    via
      {B = Text
        × (TransactionState × (Option Generation × (Option Generation × (List Diagnostic))))}
      (λ (x : Transaction).
        (x.id, (x.state, (x.generation_before, (x.generation_after, x.diagnostics)))))
      (λ p. record {
        id = p.0;
        state = p.1.0;
        generation_before = p.1.1.0;
        generation_after = p.1.1.1.0;
        diagnostics = p.1.1.1.1;
      })
      (λ x. refl)

instance abbrev pub host_snapshot_eq : Eq HostSnapshot
host_snapshot_eq =
    via
      {B = Generation
        × (SnapshotHealth
            × (List Diagnostic
                × (KernelInfo
                    × (List Capability
                        × (CpuTopology
                            × (HostMemory
                                × (ResourcePool
                                    × (List Instance
                                        × (List Transaction × (List Operation))))))))))}
      (λ (x : HostSnapshot). (
        x.generation,
        (
          x.health,
          (
            x.diagnostics,
            (
              x.kernel,
              (
                x.capabilities,
                (
                  x.topology,
                  (x.memory, (x.resource_pool, (x.instances, (x.transactions, x.operations)))),
                ),
              ),
            ),
          ),
        ),
      ))
      (λ p. record {
        generation = p.0;
        health = p.1.0;
        diagnostics = p.1.1.0;
        kernel = p.1.1.1.0;
        capabilities = p.1.1.1.1.0;
        topology = p.1.1.1.1.1.0;
        memory = p.1.1.1.1.1.1.0;
        resource_pool = p.1.1.1.1.1.1.1.0;
        instances = p.1.1.1.1.1.1.1.1.0;
        transactions = p.1.1.1.1.1.1.1.1.1.0;
        operations = p.1.1.1.1.1.1.1.1.1.1;
      })
      (λ x. refl)
