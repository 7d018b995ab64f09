-- ===== src/ResourcePool/Transition.antt =====
-- The requests, outcomes and errors of resource_pool.rs, and the tests of a transition.
use kernmux.Prelude.{ℕ, Bool, not, ◌&&◌, ◌||◌, List, Option, ◌==◌}
use kernmux.Prelude.Order.{nat_ord}
use kernmux.Prelude.TreeSet.{same_list}
use kernmux.Api.{Diagnostic, ErrorCode, Generation, HostSnapshot, OperationState}
use kernmux.Placement.{CpuPlacementError}
use kernmux.Executor.{KerfRunResult}

-- Desired Multikernel CPU and memory pool.
pub record ResourcePoolRequest : Type 0 where
  pub expected_generation : Generation
  pub cpu_hardware_ids : List ℕ
  pub memory_bytes : ℕ

-- Exact before, requested, and observed resource-pool transition.
pub record ResourcePoolTransition : Type 0 where
  pub before_cpu_hardware_ids : List ℕ
  pub requested_cpu_hardware_ids : List ℕ
  pub observed_cpu_hardware_ids : List ℕ
  pub added_cpu_hardware_ids : List ℕ
  pub returned_cpu_hardware_ids : List ℕ
  pub before_memory_bytes : ℕ
  pub requested_memory_bytes : ℕ
  pub observed_memory_bytes : ℕ

unfoldable pub request_reached : ResourcePoolTransition → Bool
unfolding same_list
request_reached t =
    same_list t.requested_cpu_hardware_ids t.observed_cpu_hardware_ids
    && t.requested_memory_bytes == t.observed_memory_bytes

unfoldable pub partially_applied : ResourcePoolTransition → Bool
unfolding request_reached same_list
partially_applied t =
    not (request_reached t)
    && (not (same_list t.before_cpu_hardware_ids t.observed_cpu_hardware_ids)
        || not (t.before_memory_bytes == t.observed_memory_bytes))

-- Safest next action after resource-pool reconciliation.
pub data ResourcePoolRecovery : Type 0 where
  no_recovery refresh_required retry_request host_restart_required : ResourcePoolRecovery

-- Reconciled result of one resource-pool request.
pub record ResourcePoolOutcome : Type 0 where
  pub state : OperationState
  pub snapshot : HostSnapshot
  pub process : Option KerfRunResult
  pub transition : ResourcePoolTransition
  pub recovery : ResourcePoolRecovery
  pub diagnostics : List Diagnostic

-- Stable rejection before a pool request is attempted.
pub data ResourcePoolPlanError : Type 0 where
  snapshot_indeterminate : ResourcePoolPlanError
  stale_generation : Generation → Generation → ResourcePoolPlanError
  duplicate_cpu : ResourcePoolPlanError
  cpu_placement : CpuPlacementError → ResourcePoolPlanError
  assigned_resources_excluded : ResourcePoolPlanError

unfoldable pub plan_error_code : ResourcePoolPlanError → ErrorCode
plan_error_code ResourcePoolPlanError.snapshot_indeterminate = ErrorCode.backend_unavailable
plan_error_code (ResourcePoolPlanError.stale_generation _ _) = ErrorCode.precondition_failed
plan_error_code ResourcePoolPlanError.duplicate_cpu = ErrorCode.invalid_request
plan_error_code (ResourcePoolPlanError.cpu_placement _) = ErrorCode.invalid_request
plan_error_code ResourcePoolPlanError.assigned_resources_excluded = ErrorCode.conflict

-- Failure before a trustworthy pool outcome can be produced.
pub data ResourcePoolExecutionError (E : Type 0) : Type 0 where
  inventory : E → ResourcePoolExecutionError E
  plan_rejected : ResourcePoolPlanError → ResourcePoolExecutionError E

unfoldable pub pool_error_code : {E : Type 0} → ResourcePoolExecutionError E → ErrorCode
unfolding plan_error_code
pool_error_code (ResourcePoolExecutionError.inventory _) = ErrorCode.backend_unavailable
pool_error_code (ResourcePoolExecutionError.plan_rejected e) = plan_error_code e
