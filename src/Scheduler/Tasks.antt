-- ===== src/Scheduler/Tasks.antt =====
-- The results of tasks and the two tasks of scheduler.rs.
use kernmux.Prelude.{
  Bool, true, false, ◌||◌, List, [], ◌∷◌, Option, none, some, if◌then◌else◌, Result, ok, err,
}
use kernmux.Prelude.Text.{Text, text}
use kernmux.Prelude.Order.{bytes_ord}
use kernmux.Api.{ApiError, Diagnostic, DiagnosticSeverity, ErrorCode, Generation, OperationState}
use kernmux.Executor.{
  KerfRunner, LifecycleExecutionError, LifecycleOutcome, SnapshotRefresher, diagnostic, execute,
  execution_error_code,
}
use kernmux.Lifecycle.{LifecycleRequest}
use kernmux.ResourcePool.{
  ResourcePoolExecutionError, ResourcePoolOutcome, ResourcePoolRequest, pool_error_code,
}

-- Terminal result returned by one mutation worker.
pub record OperationTaskResult : Type 0 where
  pub state : OperationState
  pub observed_generation : Option Generation
  pub error : Option ApiError

abbrev pub succeeded : Generation → OperationTaskResult
succeeded generation = record {
  state = OperationState.succeeded;
  observed_generation = some generation;
  error = none;
}

abbrev pub cancelled : Option Generation → OperationTaskResult
cancelled generation = record {
  state = OperationState.cancelled;
  observed_generation = generation;
  error = none;
}

abbrev pub failed : ApiError → Option Generation → OperationTaskResult
failed error generation = record {
  state = OperationState.failed;
  observed_generation = generation;
  error = some error;
}

abbrev pub api_error : ErrorCode → Text → Bool → List Diagnostic → ApiError
api_error code message retryable diagnostics = record {
  code = code;
  message = message;
  retryable = retryable;
  current_generation = none;
  diagnostics = diagnostics;
}

abbrev pub outcome_error : OperationState → List Diagnostic → Option ApiError
outcome_error OperationState.succeeded diagnostics = none
outcome_error OperationState.cancelled diagnostics = none
outcome_error OperationState.indeterminate diagnostics = some (
    api_error ErrorCode.backend_unavailable (text "operation outcome is indeterminate") true
      diagnostics)
outcome_error _ diagnostics = some (
    api_error ErrorCode.backend_unavailable
      (text "host mutation did not reach the requested result") true diagnostics)

unfoldable pub outcome_result : OperationState → Generation → List Diagnostic → OperationTaskResult
outcome_result state generation diagnostics = record {
  state = state;
  observed_generation = some generation;
  error = outcome_error state diagnostics;
}

-- `matches!(code, BackendUnavailable | Timeout)`.
abbrev pub is_retryable : ErrorCode → Bool
is_retryable ErrorCode.backend_unavailable = true
is_retryable ErrorCode.timeout = true
is_retryable _ = false

unfoldable pub failure_result : ErrorCode → List Diagnostic → OperationTaskResult
failure_result code diagnostics =
    failed
      (api_error code (text "operation was rejected before execution") (is_retryable code)
        diagnostics)
      none

unfoldable pub worker_panic_result : OperationTaskResult
worker_panic_result =
    failed
      (api_error ErrorCode.internal (text "operation worker terminated unexpectedly") false (
        diagnostic (text "worker_panicked") DiagnosticSeverity.error
          (text "operation worker terminated unexpectedly")
        ∷ []))
      none

unfoldable pub worker_spawn_result : OperationTaskResult
worker_spawn_result =
    failed (api_error ErrorCode.internal (text "operation worker could not be started") true [])
      none

unfoldable pub lifecycle_task_result :
    {E : Type 0} → Result LifecycleOutcome (LifecycleExecutionError E) → OperationTaskResult
unfolding execution_error_code
lifecycle_task_result (ok outcome) =
    outcome_result outcome.state outcome.snapshot.generation outcome.diagnostics
lifecycle_task_result (err e) = failure_result (execution_error_code e) []

unfoldable pub resource_pool_task_result :
    {E : Type 0} → Result ResourcePoolOutcome (ResourcePoolExecutionError E) → OperationTaskResult
unfolding pool_error_code
resource_pool_task_result (ok outcome) =
    outcome_result outcome.state outcome.snapshot.generation outcome.diagnostics
resource_pool_task_result (err e) = failure_result (pool_error_code e) []

-- The task of `submit_lifecycle` and of `submit_resource_pool`: the two readings of the
-- cancellation token, before and after the executor's lock is taken, are arguments.
module _ {W E F : Type 0} (runner : KerfRunner W E) (snapshots : SnapshotRefresher W F) where
  unfoldable pub lifecycle_task : LifecycleRequest → Bool → Bool → W → OperationTaskResult × W
  lifecycle_task request before_lock after_lock w =
      if before_lock || after_lock
      then (cancelled none, w)
      else (let (result, w1) = execute runner snapshots request w in
          (lifecycle_task_result result, w1))

  unfoldable pub resource_pool_task :
      ResourcePoolRequest → Bool → Bool → W → OperationTaskResult × W
  resource_pool_task request before_lock after_lock w =
      if before_lock || after_lock
      then (cancelled none, w)
      else (let (result, w1) = kernmux.ResourcePool.execute runner snapshots request w in
          (resource_pool_task_result result, w1))
