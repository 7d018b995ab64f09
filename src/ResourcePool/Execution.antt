-- ===== src/ResourcePool/Execution.antt =====
-- The order of a pool execution: snapshot, plan, Kerf, snapshot, and what it returns.
use kernmux.Prelude.{
  ◌≡◌, inl, inr, sym, ap, ◌∙◌, Bool, true, Result, ok, err, map_err, >>=-eq-ok, map_err-eq-ok,
  Result-cases, arith,
}
use kernmux.Api.{HostSnapshot}
use kernmux.Operations.{is_terminal}
use kernmux.Lifecycle.{KerfInvocation}
use kernmux.Executor.{KerfRunResult, KerfRunner, SnapshotRefresher, succeeded_process}
use kernmux.ResourcePool.{
  ResourcePoolExecutionError, ResourcePoolOutcome, ResourcePoolRequest, ResourcePoolTransition,
  execute, plan, pool_verdict, preflight, proceed, reconcile, transition,
}

preflight-ok :
    {F : Type 0} (request : ResourcePoolRequest) (refreshed : Result HostSnapshot F)
    (before : HostSnapshot) (invocation : KerfInvocation)
    → preflight request refreshed ≡ ok (before, invocation)
    → (refreshed ≡ ok before) × (plan request before ≡ ok invocation)
unfolding preflight
preflight-ok request refreshed before invocation h =
    let (read, e1, h1) = >>=-eq-ok (map_err ResourcePoolExecutionError.inventory refreshed) _ h in
    let (planned, e2, h2) =
      >>=-eq-ok (map_err ResourcePoolExecutionError.plan_rejected (plan request read)) _ h1 in
    let same_read : read ≡ before = cc in
    let same_plan : planned ≡ invocation = cc in
    (
      map_err-eq-ok ResourcePoolExecutionError.inventory refreshed e1 ∙ ap ok same_read,
      ap (plan request) (sym same_read)
          ∙ map_err-eq-ok ResourcePoolExecutionError.plan_rejected (plan request read) e2
          ∙ ap ok same_plan,
    )

verdict-terminal :
    (request : ResourcePoolRequest) (change : ResourcePoolTransition) (process_ok : Bool)
    (after : HostSnapshot)
    → is_terminal (pool_verdict request change process_ok after).0 ≡ true
unfolding pool_verdict is_terminal
verdict-terminal request change process_ok after = ground arith

reconcile-terminal :
    {E : Type 0} (request : ResourcePoolRequest) (before after : HostSnapshot)
    (process : Result KerfRunResult E)
    → is_terminal (reconcile request before after process).state ≡ true
unfolding reconcile
reconcile-terminal request before after process =
    verdict-terminal request (transition request before after) (succeeded_process process) after

module _ {W E F : Type 0} (runner : KerfRunner W E) (snapshots : SnapshotRefresher W F) where
  -- One complete execution: each call and the world it leaves.
  pub record IsPoolExecution (request : ResourcePoolRequest) (w : W) (outcome : ResourcePoolOutcome)
      (last : W) : Type 0 where
    pub before : HostSnapshot
    pub invocation : KerfInvocation
    pub planned_in : W
    pub first_read : snapshots.refresh_snapshot w ≡ (ok before, planned_in)
    pub planned : plan request before ≡ ok invocation
    pub second_read :
        snapshots.refresh_snapshot (runner.run invocation planned_in).1
        ≡ (ok outcome.snapshot, last)
    pub decided :
        outcome ≡ reconcile request before outcome.snapshot (runner.run invocation planned_in).0

  proceed-ok :
      (request : ResourcePoolRequest) (before : HostSnapshot) (invocation : KerfInvocation)
      (w last : W) (outcome : ResourcePoolOutcome)
      → proceed runner snapshots request (ok (before, invocation)) w ≡ (ok outcome, last)
      → (snapshots.refresh_snapshot (runner.run invocation w).1 ≡ (ok outcome.snapshot, last))
        × (outcome ≡ reconcile request before outcome.snapshot (runner.run invocation w).0)
  unfolding proceed reconcile
  proceed-ok request before invocation w last outcome h =
      let (process, ran_in) = runner.run invocation w in
      let second = snapshots.refresh_snapshot ran_in in
      let (after, read, made) =
        >>=-eq-ok (map_err ResourcePoolExecutionError.inventory second.0) _ (ap (λ r. r.0) h) in
      let read_after : second.0 ≡ ok after =
        map_err-eq-ok ResourcePoolExecutionError.inventory second.0 read in
      let is : reconcile request before after process ≡ outcome = cc in
      let same_snapshot : after ≡ outcome.snapshot = ap (λ o. o.snapshot) is in
      let ends : second.1 ≡ last = ap (λ r. r.1) h in
      (cc, sym is ∙ ap (λ s. reconcile request before s process) same_snapshot)

  refusal :
      (request : ResourcePoolRequest) (e : ResourcePoolExecutionError F) (w last : W)
      (outcome : ResourcePoolOutcome)
      → proceed runner snapshots request (err e) w ≡ (ok outcome, last)
      → ⊥
  unfolding proceed
  refusal request e w last outcome h = absurd (cc)

  -- A pool outcome is returned only by the whole sequence: a first snapshot, an accepted plan, one
  -- run of Kerf on it, and a second snapshot, from which the outcome is judged; its state is
  -- terminal.
  pub execute-IsPoolExecution :
      (request : ResourcePoolRequest) (w last : W) (outcome : ResourcePoolOutcome)
      → execute runner snapshots request w ≡ (ok outcome, last)
      → IsPoolExecution request w outcome last × (is_terminal outcome.state ≡ true)
  unfolding execute
  execute-IsPoolExecution request w last outcome h =
      elim (Result-cases (preflight request (snapshots.refresh_snapshot w).0)) [
        | inr (e, refused) ↦
            let returned =
              ap (λ r. proceed runner snapshots request r (snapshots.refresh_snapshot w).1)
                refused in
            absurd
              (refusal request e (snapshots.refresh_snapshot w).1 last outcome (sym returned ∙ h))
        | inl ((before, invocation), accepted) ↦
            let returned =
              ap (λ r. proceed runner snapshots request r (snapshots.refresh_snapshot w).1)
                accepted in
            let (read, planned) =
              preflight-ok request (snapshots.refresh_snapshot w).0 before invocation accepted in
            let (second, decided) =
              proceed-ok request before invocation (snapshots.refresh_snapshot w).1 last outcome
                (sym returned ∙ h) in
            (
              record {
                before = before;
                invocation = invocation;
                planned_in = (snapshots.refresh_snapshot w).1;
                first_read = ap (λ r. (r, (snapshots.refresh_snapshot w).1)) read;
                planned = planned;
                second_read = second;
                decided = decided;
              },
              ap (λ (o : ResourcePoolOutcome). is_terminal o.state) decided
                  ∙ reconcile-terminal request before outcome.snapshot
                      (runner.run invocation (snapshots.refresh_snapshot w).1).0,
            )
      ]
