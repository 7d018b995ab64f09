-- ===== src/Scheduler/Tests.antt =====
-- Operations with worker threads, on an empty registry and on the sample host.
use kernmux.Prelude.{
  ◌≡◌, ◌≢◌, ◌⊎◌, refl, Bool, Result, true, false, Option, none, some, [], ◌∷◌, ok, err,
}
use kernmux.Prelude.Text.{text}
use kernmux.Prelude.Order.{bytes_ord}
use kernmux.Api.{HostSnapshot, Operation, OperationKind, OperationState}
use kernmux.Sample.{host}
use kernmux.Lifecycle.{LifecycleRequest}
use kernmux.Operations.{NewOperation, OperationRegistry, create, get, new}
use kernmux.Operations.Invariant.{Inv, new-Inv}
use kernmux.Operations.History.Retention.{create_others}
use kernmux.Executor.{KerfRunner, SnapshotRefresher, execute}
use kernmux.Lifecycle.Checks.{validate_id}
use kernmux.Lifecycle.{KerfInvocation}
use kernmux.Lifecycle.Plan.{
  dispatch, plan, plan_state_command, require_instance, require_state, state_invocation,
}
use kernmux.Api.{InstanceState, same_state}
use kernmux.Api.{SnapshotHealth}
use kernmux.Scheduler.{
  OperationScheduler, OperationTaskResult, Worker, cancelled, lifecycle_task, lifecycle_task_result,
  new_worker, reap_finished, worker,
}
use kernmux.Scheduler.Results.{
  IsIndeterminateRetryable, lifecycle_task_indeterminate, IsFinal, lifecycle_task_lem,
}
use kernmux.Scheduler.Reaping.{IsReaped, reap_finished-IsReaped}
use kernmux.Scheduler.Workers.{HasEnded, worker_lem}

abbrev request : NewOperation
request = record {
  kind = OperationKind.start_instance;
  expected_generation = 7;
  affected_resources = [];
  actor = none;
  audit_id = none;
  created_at = text "t0";
}

abbrev empty : OperationRegistry
empty = record {
  state = record {
    next_operation = 1;
    next_sequence = 1;
    latest_generation = 0;
    operations = [];
    events = [];
  };
  operation_capacity = 2;
  event_capacity = 3;
}

empty-new : new 2 3 ≡ ok empty
unfolding new
empty-new = refl

empty-Inv : Inv empty
empty-Inv = new-Inv 2 3 empty empty-new

abbrev operation : Operation
operation = (create empty request).1

created_found : get (create empty request).0 operation.id ≡ some operation
created_found = (create_others empty request empty-Inv).1

abbrev panics : Option OperationTaskResult
panics = none

worker_lem_example :
    (operation.state ≡ OperationState.queued)
      × ((p : Operation) × (get
              (worker (create empty request).0 operation.id panics (text "t1"))
              operation.id
            ≡ some p)
          × (p.id ≡ operation.id)
          × HasEnded panics (text "t1") p)
    ⊎ (operation.state ≢ OperationState.queued)
      × (worker (create empty request).0 operation.id panics (text "t1") ≡ (create empty request).0)
worker_lem_example =
    worker_lem (create empty request).0 operation.id operation panics (text "t1") created_found
      (λ r e. absurd (cc))

-- Two workers that have ended around one that has not.
abbrev ended : Worker
ended = record { operation_id = text "op-1"; is_cancelled = false; is_finished = true }

abbrev scheduler : OperationScheduler
scheduler = record { registry = empty; workers = ended ∷ new_worker (text "op-2") ∷ ended ∷ [] }

reap_finished-IsReaped_example :
    IsReaped scheduler.workers (reap_finished scheduler).workers
    × ((reap_finished scheduler).registry ≡ scheduler.registry)
reap_finished-IsReaped_example = reap_finished-IsReaped scheduler

abbrev runner : KerfRunner HostSnapshot (Unit {0})
runner = record { run = λ invocation w. (err tt, w) }

abbrev inventory : SnapshotRefresher HostSnapshot (Unit {0})
inventory = record { refresh_snapshot = λ w. (ok w, w) }

abbrev start_beta : LifecycleRequest
start_beta = LifecycleRequest.start (record { expected_generation = 7; id = 2 })

lifecycle_task_lem_example :
    let task = lifecycle_task runner inventory start_beta false true host in
    IsFinal task.0
    × (((false ≡ true) ⊎ (true ≡ true)) × (task ≡ (cancelled none, host))
        ⊎ (false ≡ false)
          × (true ≡ false)
          × (task.1 ≡ (execute runner inventory start_beta host).1)
          × (task.0 ≡ lifecycle_task_result (execute runner inventory start_beta host).0))
lifecycle_task_lem_example = lifecycle_task_lem runner inventory start_beta false true host

-- A host that can be read until Kerf has run.
abbrev read_once : Bool → Result HostSnapshot (Unit {0})
read_once false = ok host
read_once true = err tt

abbrev breaking : KerfRunner Bool (Unit {0})
breaking = record { run = λ invocation w. (err tt, true) }

abbrev fragile : SnapshotRefresher Bool (Unit {0})
fragile = record { refresh_snapshot = λ w. (read_once w, w) }

abbrev beta_started : KerfInvocation
beta_started =
    state_invocation (text "exec") (record { expected_generation = 7; id = 2 }) InstanceState.active

start_planned : plan start_beta host ≡ ok beta_started
unfolding plan dispatch plan_state_command require_state require_instance validate_id same_state
    state_invocation
start_planned = refl

-- A host that is no longer trusted once Kerf has run.
abbrev shaken : HostSnapshot
shaken = record host { health = SnapshotHealth.indeterminate }

abbrev read_shaken : Bool → HostSnapshot
read_shaken false = host
read_shaken true = shaken

abbrev doubtful : SnapshotRefresher Bool (Unit {0})
doubtful = record { refresh_snapshot = λ w. (ok (read_shaken w), w) }

lifecycle_task_indeterminate_example :
    let task = lifecycle_task breaking doubtful start_beta false false false in
    IsIndeterminateRetryable shaken task.0 × (task.1 ≡ true)
lifecycle_task_indeterminate_example =
    lifecycle_task_indeterminate breaking doubtful start_beta false false true host shaken
      beta_started refl refl start_planned refl refl
