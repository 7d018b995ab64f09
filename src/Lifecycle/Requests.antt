-- ===== src/Lifecycle/Requests.antt =====
-- The requests, expected states and errors of lifecycle.rs.
use kernmux.Prelude.{ℕ, Bool, Option, List}
use kernmux.Prelude.Text.{Text}
use kernmux.Api.{ErrorCode, Generation, InstanceId, InstanceState}
use kernmux.Placement.{CpuPlacementError}

-- Common optimistic-concurrency fields for an instance mutation.
pub record InstanceRequest : Type 0 where
  pub expected_generation : Generation
  pub id : InstanceId

pub record CreateRequest : Type 0 where
  pub expected_generation : Generation
  pub id : InstanceId
  pub name : Text
  pub cpu_hardware_ids : List ℕ
  pub memory_bytes : ℕ

pub record UpdateRequest : Type 0 where
  pub instance_request : InstanceRequest
  pub cpu_hardware_ids : Option (List ℕ)
  pub memory_bytes : Option ℕ
  pub device_ids : Option (List Text)
  pub dry_run : Bool

pub record LoadRequest : Type 0 where
  pub instance_request : InstanceRequest
  pub kernel : Text
  pub initrd : Option Text
  pub cmdline : Option Text

pub record StopRequest : Type 0 where
  pub instance_request : InstanceRequest
  pub force : Bool

-- A lifecycle mutation accepted by the host service.
pub data LifecycleRequest : Type 0 where
  create : CreateRequest → LifecycleRequest
  update : UpdateRequest → LifecycleRequest
  load : LoadRequest → LifecycleRequest
  start : InstanceRequest → LifecycleRequest
  stop : StopRequest → LifecycleRequest
  unload : InstanceRequest → LifecycleRequest
  delete : InstanceRequest → LifecycleRequest

-- The fields of `ExpectedState::InstanceResources`.
pub record InstanceResources : Type 0 where
  pub id : InstanceId
  pub state : InstanceState
  pub name : Option Text
  pub cpu_hardware_ids : Option (List ℕ)
  pub memory_bytes : Option ℕ
  pub device_ids : Option (List Text)

-- Expected authoritative state after a planned mutation.
pub data ExpectedState : Type 0 where
  instance_state : InstanceId → InstanceState → ExpectedState
  instance_resources : InstanceResources → ExpectedState
  resource_pool : List ℕ → ℕ → ExpectedState
  absent : InstanceId → ExpectedState

-- Executable Kerf arguments and the state used to reconcile their result.
pub record KerfInvocation : Type 0 where
  pub arguments : List Text
  pub expected_state : ExpectedState
  pub mutates_kernel : Bool

pub data MemoryPlacementError : Type 0 where
  insufficient_available : ℕ → ℕ → MemoryPlacementError
  no_contiguous_pool_chunk : ℕ → MemoryPlacementError
  missing_instance_base : InstanceId → MemoryPlacementError
  leaves_pool_chunk : ℕ → ℕ → MemoryPlacementError
  overlaps_instance : Text → MemoryPlacementError
  address_overflow : MemoryPlacementError

pub data DevicePlacementError : Type 0 where
  empty_selection : DevicePlacementError
  invalid_pci_id : Text → DevicePlacementError
  duplicate : DevicePlacementError
  not_managed : Text → DevicePlacementError
  unavailable : Text → DevicePlacementError
  owned_by_peer : Text → Text → DevicePlacementError
  missing_iommu_group : Text → DevicePlacementError
  incomplete_iommu_group : Text → ℕ → List Text → DevicePlacementError

-- Stable category for a rejected lifecycle plan.
pub data LifecyclePlanError : Type 0 where
  stale_generation : Generation → Generation → LifecyclePlanError
  invalid_request : Text → LifecyclePlanError
  cpu_placement : CpuPlacementError → LifecyclePlanError
  memory_placement : MemoryPlacementError → LifecyclePlanError
  device_placement : DevicePlacementError → LifecyclePlanError
  not_found : LifecyclePlanError
  already_exists : LifecyclePlanError
  invalid_state : InstanceState → InstanceState → LifecyclePlanError

-- `DevicePlacementError::error_code` and `LifecyclePlanError::error_code`.
pub device_error_code : DevicePlacementError → ErrorCode
device_error_code DevicePlacementError.empty_selection = ErrorCode.invalid_request
device_error_code (DevicePlacementError.invalid_pci_id _) = ErrorCode.invalid_request
device_error_code DevicePlacementError.duplicate = ErrorCode.invalid_request
device_error_code (DevicePlacementError.not_managed _) = ErrorCode.conflict
device_error_code (DevicePlacementError.unavailable _) = ErrorCode.conflict
device_error_code (DevicePlacementError.owned_by_peer _ _) = ErrorCode.conflict
device_error_code (DevicePlacementError.missing_iommu_group _) = ErrorCode.conflict
device_error_code (DevicePlacementError.incomplete_iommu_group _ _ _) = ErrorCode.conflict

unfoldable pub error_code : LifecyclePlanError → ErrorCode
unfolding device_error_code
error_code (LifecyclePlanError.stale_generation _ _) = ErrorCode.precondition_failed
error_code (LifecyclePlanError.invalid_request _) = ErrorCode.invalid_request
error_code LifecyclePlanError.not_found = ErrorCode.not_found
error_code (LifecyclePlanError.device_placement e) = device_error_code e
error_code (LifecyclePlanError.cpu_placement _) = ErrorCode.conflict
error_code (LifecyclePlanError.memory_placement _) = ErrorCode.conflict
error_code LifecyclePlanError.already_exists = ErrorCode.conflict
error_code (LifecyclePlanError.invalid_state _ _) = ErrorCode.conflict
