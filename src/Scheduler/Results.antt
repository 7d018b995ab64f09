-- ===== src/Scheduler/Results.antt =====
-- The results that tasks report: always terminal, and what they say of the execution.
use kernmux.Prelude.{
  ◌≡◌, ◌↔◌, ◌⊎◌, inl, inr, refl, ap, ◌∙◌, Bool, true, false, List, [], Option, none, some, Result,
  ok, arith, Result-cases,
}
use kernmux.Api.{ApiError, ErrorCode, Generation, HostSnapshot, OperationState, Diagnostic}
use kernmux.Prelude.Text.{text}
use kernmux.Operations.{is_terminal}
use kernmux.Lifecycle.{KerfInvocation, LifecycleRequest}
use kernmux.Lifecycle.Plan.{plan}
use kernmux.Api.{is_healthy}
use kernmux.Executor.{
  KerfRunner, KerfRunResult, LifecycleOutcome, SnapshotRefresher, execute, reconcile,
  execution_error_code,
}
use kernmux.Executor.Verdict.{reconcile_cases}
use kernmux.Executor.Execution.{execute-IsExecution, execute_read}
use kernmux.ResourcePool
use kernmux.ResourcePool.{ResourcePoolRequest, pool_error_code}
use kernmux.ResourcePool.Execution.{execute-IsPoolExecution}
use kernmux.Scheduler.{
  resource_pool_task, resource_pool_task_result, OperationTaskResult, cancelled, caught,
  failure_result, lifecycle_task, lifecycle_task_result, outcome_error, outcome_result,
}

-- A result that `finish` accepts, with an error unless the operation succeeded or was cancelled.
pub record IsFinal (result : OperationTaskResult) : Type 0 where
  pub terminal : is_terminal result.state ≡ true
  pub error_iff :
      (result.error ≡ none)
      ↔ ((result.state ≡ OperationState.succeeded) ⊎ (result.state ≡ OperationState.cancelled))

outcome_error_iff :
    (state : OperationState) (diagnostics : List Diagnostic)
    → (outcome_error state diagnostics ≡ none)
      ↔ ((state ≡ OperationState.succeeded) ⊎ (state ≡ OperationState.cancelled))
outcome_error_iff state diagnostics = ground arith

reconcile-terminal :
    {E : Type 0} (invocation : KerfInvocation) (process : Result KerfRunResult E)
    (snapshot : HostSnapshot)
    → is_terminal (reconcile invocation process snapshot).state ≡ true
unfolding is_terminal
reconcile-terminal invocation process snapshot =
    elim ((reconcile_cases invocation process snapshot).1) [
      | inl (_, e, _) ↦ rw e refl
      | inr (_, inl (e, _)) ↦ rw e refl
      | inr (_, inr (e, _)) ↦ rw e refl
    ]

failure-IsFinal : (code : ErrorCode) → IsFinal (failure_result code [])
unfolding failure_result is_terminal
failure-IsFinal code = record { terminal = refl; error_iff = ground arith }

pub cancelled-IsFinal : (generation : Option Generation) → IsFinal (cancelled generation)
unfolding is_terminal
cancelled-IsFinal generation = record { terminal = refl; error_iff = (λ _. inr refl, λ _. refl) }

outcome-IsFinal :
    (state : OperationState) (generation : Generation) (diagnostics : List Diagnostic)
    → is_terminal state ≡ true
    → IsFinal (outcome_result state generation diagnostics)
unfolding outcome_result
outcome-IsFinal state generation diagnostics h = record {
  terminal = h;
  error_iff = outcome_error_iff state diagnostics;
}

-- A result that says: failed, safe to try again, and rejected before anything was executed.
abbrev pub IsRejectedRetryable : OperationTaskResult → Type 0
IsRejectedRetryable result =
    (result.state ≡ OperationState.failed)
    × (result.observed_generation ≡ none)
    × ((e : ApiError) × (result.error ≡ some e)
        × (e.retryable ≡ true)
        × (e.code ≡ ErrorCode.backend_unavailable)
        × (e.message ≡ text "operation was rejected before execution")
        × (e.diagnostics ≡ []))

-- A result that says: indeterminate, as the snapshot's diagnostics explain, and safe to try again.
abbrev pub IsIndeterminateRetryable : HostSnapshot → OperationTaskResult → Type 0
IsIndeterminateRetryable after result =
    (result.state ≡ OperationState.indeterminate)
    × (result.observed_generation ≡ some after.generation)
    × ((e : ApiError) × (result.error ≡ some e)
        × (e.retryable ≡ true)
        × (e.diagnostics ≡ after.diagnostics))

unhealthy-IsIndeterminateRetryable :
    {E : Type 0} (invocation : KerfInvocation) (process : Result KerfRunResult E)
    (after : HostSnapshot)
    → is_healthy after.health ≡ false
    → let outcome = reconcile invocation process after in
      IsIndeterminateRetryable after
        (outcome_result outcome.state outcome.snapshot.generation outcome.diagnostics)
unfolding outcome_result
unhealthy-IsIndeterminateRetryable invocation process after unhealthy =
    let (snapshot, cases) = reconcile_cases invocation process after in
    elim cases [
      | inl (_, state, diagnostics) ↦
          rw (state, diagnostics, snapshot) (refl, refl, (_, refl, refl, refl))
      | inr (healthy, _) ↦ absurd (cc)
    ]

-- A task that panics still gives a result.
pub caught-IsFinal :
    (result : Option OperationTaskResult)
    → ((r : OperationTaskResult) → result ≡ some r → IsFinal r)
    → IsFinal (caught result)
unfolding caught is_terminal
caught-IsFinal none h = record { terminal = refl; error_iff = ground arith }
caught-IsFinal (some r) h = h r refl

module _ {W E F : Type 0} (runner : KerfRunner W E) (snapshots : SnapshotRefresher W F) where
  executed-IsFinal :
      (request : LifecycleRequest) (w : W)
      → IsFinal (lifecycle_task_result (execute runner snapshots request w).0)
  unfolding lifecycle_task_result
  executed-IsFinal request w = elim (Result-cases (execute runner snapshots request w).0) [
    | inl (outcome, e) ↦
        let run =
          execute-IsExecution runner snapshots request w (execute runner snapshots request w).1
            outcome (cc) in
        let terminal =
          ap (λ (o : LifecycleOutcome). is_terminal o.state) run.decided
          ∙ reconcile-terminal run.invocation run.process outcome.snapshot in
        rw e
          (outcome-IsFinal outcome.state outcome.snapshot.generation outcome.diagnostics terminal)
    | inr (error, e) ↦ rw e (failure-IsFinal (execution_error_code error))
  ]

  -- The task of a lifecycle mutation always ends in a result that the registry accepts, with an
  -- error exactly if it neither succeeded nor was cancelled. A task that sees the cancellation at
  -- either of its two checks leaves the host alone and reports the cancellation; otherwise it
  -- executes the request to the end.
  pub lifecycle_task_lem :
      (request : LifecycleRequest) (before_lock after_lock : Bool) (w : W)
      → let task = lifecycle_task runner snapshots request before_lock after_lock w in
        IsFinal task.0
        × (((before_lock ≡ true) ⊎ (after_lock ≡ true)) × (task ≡ (cancelled none, w))
            ⊎ (before_lock ≡ false)
              × (after_lock ≡ false)
              × (task.1 ≡ (execute runner snapshots request w).1)
              × (task.0 ≡ lifecycle_task_result (execute runner snapshots request w).0))
  unfolding lifecycle_task
  lifecycle_task_lem request true after_lock w = (cancelled-IsFinal none, inl (inl refl, refl))
  lifecycle_task_lem request false true w = (cancelled-IsFinal none, inl (inr refl, refl))
  lifecycle_task_lem request false false w =
      (executed-IsFinal request w, inr (refl, refl, refl, refl))

  -- When Kerf has run on an accepted plan and the second snapshot is not healthy, the operation is
  -- reported as indeterminate, with that snapshot's generation and diagnostics, and as retryable.
  pub lifecycle_task_indeterminate :
      (request : LifecycleRequest) (w w1 w2 : W) (before after : HostSnapshot)
      (invocation : KerfInvocation)
      → snapshots.refresh_snapshot w ≡ (ok before, w1)
      → is_healthy before.health ≡ true
      → plan request before ≡ ok invocation
      → snapshots.refresh_snapshot (runner.run invocation w1).1 ≡ (ok after, w2)
      → is_healthy after.health ≡ false
      → let task = lifecycle_task runner snapshots request false false w in
        IsIndeterminateRetryable after task.0 × (task.1 ≡ w2)
  unfolding lifecycle_task lifecycle_task_result
  lifecycle_task_indeterminate request w w1 w2 before after invocation first healthy planned second
        unhealthy =
      let ran =
        execute_read runner snapshots request w w1 w2 before after invocation first healthy planned
          second in
      rw ran (
        unhealthy-IsIndeterminateRetryable invocation (runner.run invocation w1).0 after unhealthy,
        refl,
      )

  pool_executed-IsFinal :
      (request : ResourcePoolRequest) (w : W)
      → IsFinal
          (resource_pool_task_result (kernmux.ResourcePool.execute runner snapshots request w).0)
  unfolding resource_pool_task_result
  pool_executed-IsFinal request w =
      elim (Result-cases (kernmux.ResourcePool.execute runner snapshots request w).0) [
        | inl (outcome, e) ↦
            let run =
              execute-IsPoolExecution runner snapshots request w
                (kernmux.ResourcePool.execute runner snapshots request w).1 outcome cc in
            rw e
              (outcome-IsFinal outcome.state outcome.snapshot.generation outcome.diagnostics run.1)
        | inr (error, e) ↦ rw e (failure-IsFinal (pool_error_code error))
      ]

  -- The task of a pool change, too, always ends in a result that the registry accepts, with an error
  -- exactly if it neither succeeded nor was cancelled; a cancellation seen at either check leaves
  -- the host alone, and without one the request is executed to the end.
  pub resource_pool_task_lem :
      (request : ResourcePoolRequest) (before_lock after_lock : Bool) (w : W)
      → let task = resource_pool_task runner snapshots request before_lock after_lock w in
        IsFinal task.0
        × (((before_lock ≡ true) ⊎ (after_lock ≡ true)) × (task ≡ (cancelled none, w))
            ⊎ (before_lock ≡ false)
              × (after_lock ≡ false)
              × (task.1 ≡ (kernmux.ResourcePool.execute runner snapshots request w).1)
              × (task.0
                  ≡ resource_pool_task_result
                      (kernmux.ResourcePool.execute runner snapshots request w).0))
  unfolding resource_pool_task
  resource_pool_task_lem request true after_lock w = (cancelled-IsFinal none, inl (inl refl, refl))
  resource_pool_task_lem request false true w = (cancelled-IsFinal none, inl (inr refl, refl))
  resource_pool_task_lem request false false w =
      (pool_executed-IsFinal request w, inr (refl, refl, refl, refl))
