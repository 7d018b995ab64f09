-- ===== src/Scheduler.antt =====
-- scheduler.rs: the results of tasks, the worker threads, and their handles. A thread's progress
-- is a call of its own, so that calls of different threads interleave as sequences of calls; that a
-- task panicked or a thread could not be spawned is an argument.
mod Tasks
pub mod Results
pub mod Reaping
pub mod Workers
mod Tests
unfoldable pub use Tasks.*
use kernmux.Prelude.{
  ℕ, zero, suc, Bool, true, false, not, ◌&&◌, ◌||◌, List, [], ◌∷◌, ◌++◌, map, Option, none, some,
  find, length, if◌then◌else◌, Result, ok, err, ok_or, ◌==◌,
}
use kernmux.Prelude.Text.{Text, text}
use kernmux.Prelude.Order.{bytes_ord, same}
use kernmux.Api.{
  ApiError, Diagnostic, DiagnosticSeverity, ErrorCode, Generation, Operation, OperationId,
  OperationState,
}
use kernmux.Operations.{
  Completion, NewOperation, OperationRegistry, OperationRegistryError, create, finish, start,
}
use kernmux.Executor.{
  KerfRunner, LifecycleExecutionError, LifecycleOutcome, SnapshotRefresher, diagnostic, execute,
  execution_error_code,
}
use kernmux.Lifecycle.{LifecycleRequest}
use kernmux.ResourcePool.{
  ResourcePoolExecutionError, ResourcePoolOutcome, ResourcePoolRequest, pool_error_code,
}

-- The arguments of `registry.finish` for a result.
abbrev pub completion : OperationTaskResult → Text → Completion
completion result completed_at = record {
  state = result.state;
  observed_generation = result.observed_generation;
  error = result.error;
  completed_at = completed_at;
}

-- `catch_unwind(task).unwrap_or_else(|_| worker_panic_result())`: no result is a panic.
unfoldable pub caught : Option OperationTaskResult → OperationTaskResult
unfolding worker_panic_result
caught none = worker_panic_result
caught (some result) = result

-- What a worker thread does with the registry after its start was refused or accepted.
unfoldable pub worker_end :
    OperationId
    → Option OperationTaskResult
    → Text
    → OperationRegistry × Result Operation OperationRegistryError
    → OperationRegistry
unfolding caught
worker_end id result completed_at (registry, err e) = registry
worker_end id result completed_at (registry, ok started) =
    (finish registry id (completion (caught result) completed_at)).0

unfoldable pub worker :
    OperationRegistry → OperationId → Option OperationTaskResult → Text → OperationRegistry
unfolding worker_end
worker registry id result completed_at = worker_end id result completed_at (start registry id)

-- A retained worker: its token and whether its thread has ended.
pub record Worker : Type 0 where
  pub operation_id : OperationId
  pub is_cancelled : Bool
  pub is_finished : Bool

pub record OperationScheduler : Type 0 where
  pub registry : OperationRegistry
  pub workers : List Worker

-- `Vec::swap_remove`: the last element takes the place of the removed one.
abbrev pub last_of {ℓ} : {A : Type ℓ} → A → List A → A
last_of x [] = x
last_of x (y ∷ ys) = last_of y ys

abbrev pub all_but_last {ℓ} : {A : Type ℓ} → A → List A → List A
all_but_last x [] = []
all_but_last x (y ∷ ys) = x ∷ all_but_last y ys

abbrev pub swap_remove {ℓ} : {A : Type ℓ} → List A → ℕ → List A
swap_remove [] index = []
swap_remove (x ∷ []) zero = []
swap_remove (x ∷ y ∷ ys) zero = last_of y ys ∷ all_but_last y ys
swap_remove (x ∷ xs) (suc index) = x ∷ swap_remove xs index

abbrev pub get_elem? {ℓ} : {A : Type ℓ} → List A → ℕ → Option A
get_elem? [] index = none
get_elem? (x ∷ xs) zero = some x
get_elem? (x ∷ xs) (suc index) = get_elem? xs index

-- The loop of `reap_finished`; each turn removes a worker or passes one.
pub reap_from : ℕ → ℕ → List Worker → List Worker
reap_from zero index workers = workers
reap_from (suc fuel) index workers = elim (get_elem? workers index) [
  | none ↦ workers
  | some w ↦
      reap_from fuel (if w.is_finished then index else suc index)
        (if w.is_finished then swap_remove workers index else workers)
]

unfoldable pub reap_finished : OperationScheduler → OperationScheduler
unfolding reap_from
reap_finished s = record s { workers = reap_from (length s.workers) 0 s.workers }

pub data ScheduleError : Type 0 where
  spawn : ScheduleError

abbrev pub new_worker : OperationId → Worker
new_worker id = record { operation_id = id; is_cancelled = false; is_finished = false }

-- `submit`, where `spawned` tells whether the thread could be created.
unfoldable pub submit :
    OperationScheduler
    → NewOperation
    → Bool
    → Text
    → OperationScheduler × Result Operation ScheduleError
submit s request spawned now =
    let reaped = reap_finished s in
    let (registry, operation) = create reaped.registry request in
    if spawned
    then (
      record { registry = registry; workers = reaped.workers ++ new_worker operation.id ∷ [] },
      ok operation,
    )
    else (
      record {
        registry = (finish registry operation.id (completion worker_spawn_result now)).0;
        workers = reaped.workers;
      },
      err ScheduleError.spawn,
    )

-- `cancelled.store(true)` in the first worker of that id.
abbrev pub mark_cancelled : OperationId → List Worker → List Worker
mark_cancelled id [] = []
mark_cancelled id (w ∷ ws) =
    if same w.operation_id id
    then record w { is_cancelled = true } ∷ ws
    else w ∷ mark_cancelled id ws

unfoldable pub cancel :
    OperationScheduler → OperationId → OperationScheduler × Result (Unit {0}) OperationRegistryError
cancel s id =
    let reaped = reap_finished s in
    elim (find (λ w. same w.operation_id id) reaped.workers) [
      | none ↦ (reaped, err OperationRegistryError.not_found)
      | some w ↦ (record reaped { workers = mark_cancelled id reaped.workers }, ok tt)
    ]

-- `drain` empties the list, then joins every worker it took.
unfoldable pub drain : OperationScheduler → OperationScheduler × List Worker
drain s = (record s { workers = [] }, s.workers)

unfoldable pub worker_count : OperationScheduler → ℕ
worker_count s = length s.workers
