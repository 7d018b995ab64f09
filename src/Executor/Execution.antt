-- ===== src/Executor/Execution.antt =====
-- The order of an execution: snapshot, plan, Kerf, snapshot, and what it returns.
use kernmux.Prelude.{
  ◌≡◌, ◌⊎◌, inl, inr, refl, sym, ap, subst, ◌∙◌, true, not, Result, ok, err, ◌>>=◌, reject_if,
  map_err, >>=-eq-ok, map_err-eq-ok, reject_if-eq-ok, Result-cases, arith,
}
use kernmux.Prelude.Order.{nat_ord}
use kernmux.Api.{HostSnapshot, is_healthy}
use kernmux.Lifecycle.{KerfInvocation, LifecycleRequest}
use kernmux.Lifecycle.Plan.{plan}
use kernmux.Executor.{
  KerfRunner, KerfRunResult, LifecycleExecutionError, LifecycleOutcome, SnapshotRefresher, attempt,
  execute, preflight, proceed, reconcile,
}

preflight-ok :
    {F : Type 0} (request : LifecycleRequest) (refreshed : Result HostSnapshot F)
    (invocation : KerfInvocation)
    → preflight request refreshed ≡ ok invocation
    → (before : HostSnapshot) × (refreshed ≡ ok before)
      × (is_healthy before.health ≡ true)
      × (plan request before ≡ ok invocation)
unfolding preflight
preflight-ok request refreshed invocation h =
    let (before, read, h1) = >>=-eq-ok (map_err LifecycleExecutionError.inventory refreshed) _ h in
    let (_, healthy, h2) =
      >>=-eq-ok
        (reject_if (not (is_healthy before.health)) LifecycleExecutionError.snapshot_indeterminate)
        _ h1 in
    (
      before,
      map_err-eq-ok LifecycleExecutionError.inventory refreshed read,
      ground (arith, reject_if-eq-ok _ _ healthy),
      map_err-eq-ok LifecycleExecutionError.plan_rejected (plan request before) h2,
    )

preflight_accepts :
    {F : Type 0} (request : LifecycleRequest) (before : HostSnapshot) (invocation : KerfInvocation)
    → is_healthy before.health ≡ true
    → plan request before ≡ ok invocation
    → preflight {F = F} request (ok before) ≡ ok invocation
unfolding preflight
preflight_accepts request before invocation healthy planned = rw (healthy, planned) refl

module _ {W E F : Type 0} (runner : KerfRunner W E) (snapshots : SnapshotRefresher W F) where
  -- One complete execution: each call and the world it leaves.
  pub record IsExecution (request : LifecycleRequest) (w : W) (outcome : LifecycleOutcome)
      (last : W) : Type 0 where
    pub before : HostSnapshot
    pub invocation : KerfInvocation
    pub process : Result KerfRunResult E
    pub planned_in : W
    pub ran_in : W
    pub first_read : snapshots.refresh_snapshot w ≡ (ok before, planned_in)
    pub healthy : is_healthy before.health ≡ true
    pub planned : plan request before ≡ ok invocation
    pub ran : runner.run invocation planned_in ≡ (process, ran_in)
    pub second_read : snapshots.refresh_snapshot ran_in ≡ (ok outcome.snapshot, last)
    pub decided : outcome ≡ reconcile invocation process outcome.snapshot

  attempt-ok :
      (invocation : KerfInvocation) (w last : W) (outcome : LifecycleOutcome)
      → attempt runner snapshots invocation w ≡ (ok outcome, last)
      → (process : Result KerfRunResult E) × (ran_in : W) × (runner.run invocation w
          ≡ (process, ran_in))
        × (snapshots.refresh_snapshot ran_in ≡ (ok outcome.snapshot, last))
        × (outcome ≡ reconcile invocation process outcome.snapshot)
  unfolding attempt reconcile
  attempt-ok invocation w last outcome h =
      let (process, ran_in) = runner.run invocation w in
      let second = snapshots.refresh_snapshot ran_in in
      let (after, read, made) =
        >>=-eq-ok (map_err LifecycleExecutionError.inventory second.0) _ (ap (λ r. r.0) h) in
      let read_after : second.0 ≡ ok after =
        map_err-eq-ok LifecycleExecutionError.inventory second.0 read in
      let is : reconcile invocation process after ≡ outcome = cc in
      let same_snapshot : after ≡ outcome.snapshot = ap (λ o. o.snapshot) is in
      let ends : second.1 ≡ last = ap (λ r. r.1) h in
      (process, ran_in, refl, cc, sym is ∙ ap (reconcile invocation process) same_snapshot)

  -- Either the preflight refused, or an invocation was attempted in the world of the first read.
  execute_split :
      (request : LifecycleRequest) (w : W)
      → ((e : LifecycleExecutionError F) × (preflight request (snapshots.refresh_snapshot w).0
            ≡ err e)
          × (execute runner snapshots request w ≡ (err e, (snapshots.refresh_snapshot w).1)))
        ⊎ ((invocation : KerfInvocation) × (preflight request (snapshots.refresh_snapshot w).0
              ≡ ok invocation)
            × (execute runner snapshots request w
                ≡ attempt runner snapshots invocation (snapshots.refresh_snapshot w).1))
  unfolding execute
  execute_split request w =
      elim (Result-cases (preflight request (snapshots.refresh_snapshot w).0)) [
        | inl (invocation, e) ↦
            inr (
              invocation,
              e,
              ap (λ r. proceed runner snapshots r (snapshots.refresh_snapshot w).1) e,
            )
        | inr (error, e) ↦
            inl (error, e, ap (λ r. proceed runner snapshots r (snapshots.refresh_snapshot w).1) e)
      ]

  -- An outcome is returned only by the whole sequence: a healthy first snapshot, an accepted plan,
  -- one run of Kerf on that plan, and a second snapshot, which is the one returned and judged.
  pub execute-IsExecution :
      (request : LifecycleRequest) (w last : W) (outcome : LifecycleOutcome)
      → execute runner snapshots request w ≡ (ok outcome, last)
      → IsExecution request w outcome last
  execute-IsExecution request w last outcome h = elim (execute_split request w) [
    | inl (e, _, returned) ↦ absurd (cc)
    | inr (invocation, accepted, runs) ↦
        let (before, read, healthy, planned) =
          preflight-ok request (snapshots.refresh_snapshot w).0 invocation accepted in
        let (process, ran_in, ran, second, decided) =
          attempt-ok invocation (snapshots.refresh_snapshot w).1 last outcome (sym runs ∙ h) in
        record {
          before = before;
          invocation = invocation;
          process = process;
          planned_in = (snapshots.refresh_snapshot w).1;
          ran_in = ran_in;
          first_read = cc;
          healthy = healthy;
          planned = planned;
          ran = ran;
          second_read = second;
          decided = decided;
        }
  ]

  attempt_unread :
      (invocation : KerfInvocation) (w1 w2 : W) (e : F)
      → snapshots.refresh_snapshot (runner.run invocation w1).1 ≡ (err e, w2)
      → attempt runner snapshots invocation w1 ≡ (err (LifecycleExecutionError.inventory e), w2)
  unfolding attempt
  attempt_unread invocation w1 w2 e h =
      ap
        (λ (r : Result HostSnapshot F × W). (
          map_err LifecycleExecutionError.inventory r.0
              >>= (λ after. ok (reconcile invocation (runner.run invocation w1).0 after)),
          r.1,
        ))
        h

  -- Kerf has run on an accepted plan, and then the host cannot be read.
  pub execute_unread :
      (request : LifecycleRequest) (w w1 w2 : W) (before : HostSnapshot)
      (invocation : KerfInvocation) (e : F)
      → snapshots.refresh_snapshot w ≡ (ok before, w1)
      → is_healthy before.health ≡ true
      → plan request before ≡ ok invocation
      → snapshots.refresh_snapshot (runner.run invocation w1).1 ≡ (err e, w2)
      → execute runner snapshots request w ≡ (err (LifecycleExecutionError.inventory e), w2)
  unfolding execute
  execute_unread request w w1 w2 before invocation e first healthy planned second =
      ap (λ (r : Result HostSnapshot F × W). proceed runner snapshots (preflight request r.0) r.1)
        first
      ∙ ap (λ r. proceed runner snapshots r w1)
          (preflight_accepts request before invocation healthy planned)
      ∙ attempt_unread invocation w1 w2 e second

  attempt_read :
      (invocation : KerfInvocation) (w1 w2 : W) (after : HostSnapshot)
      → snapshots.refresh_snapshot (runner.run invocation w1).1 ≡ (ok after, w2)
      → attempt runner snapshots invocation w1
        ≡ (ok (reconcile invocation (runner.run invocation w1).0 after), w2)
  unfolding attempt
  attempt_read invocation w1 w2 after h = rw h refl

  -- Kerf has run on an accepted plan, and then the host is read: that decides the outcome.
  pub execute_read :
      (request : LifecycleRequest) (w w1 w2 : W) (before after : HostSnapshot)
      (invocation : KerfInvocation)
      → snapshots.refresh_snapshot w ≡ (ok before, w1)
      → is_healthy before.health ≡ true
      → plan request before ≡ ok invocation
      → snapshots.refresh_snapshot (runner.run invocation w1).1 ≡ (ok after, w2)
      → execute runner snapshots request w
        ≡ (ok (reconcile invocation (runner.run invocation w1).0 after), w2)
  unfolding execute
  execute_read request w w1 w2 before after invocation first healthy planned second =
      ap (λ (r : Result HostSnapshot F × W). proceed runner snapshots (preflight request r.0) r.1)
        first
      ∙ ap (λ r. proceed runner snapshots r w1)
          (preflight_accepts request before invocation healthy planned)
      ∙ attempt_read invocation w1 w2 after second

  -- A host that cannot be read at first.
  pub execute_unseen :
      (request : LifecycleRequest) (w w1 : W) (e : F)
      → snapshots.refresh_snapshot w ≡ (err e, w1)
      → execute runner snapshots request w ≡ (err (LifecycleExecutionError.inventory e), w1)
  unfolding execute preflight
  execute_unseen request w w1 e h = rw h refl

  -- The errors that the preflight alone gives.
  abbrev pub IsRejection : LifecycleExecutionError F → Type 0
  IsRejection (LifecycleExecutionError.inventory _) = ⊥
  IsRejection LifecycleExecutionError.snapshot_indeterminate = Unit
  IsRejection (LifecycleExecutionError.plan_rejected _) = Unit

  attempt_error :
      (invocation : KerfInvocation) (w last : W) (e : LifecycleExecutionError F)
      → attempt runner snapshots invocation w ≡ (err e, last)
      → IsRejection e
      → ⊥
  unfolding attempt
  attempt_error invocation w last e h k =
      elim (Result-cases (snapshots.refresh_snapshot (runner.run invocation w).1).0) [
        | inl (after, read) ↦ absurd (cc)
        | inr (failure, read) ↦
            let is : LifecycleExecutionError.inventory failure ≡ e = cc in
            subst IsRejection (sym is) k
      ]

  -- A request that is refused for its snapshot or its plan has not started Kerf: the first read is
  -- all that happened to the world.
  pub execute_rejected :
      (request : LifecycleRequest) (w last : W) (e : LifecycleExecutionError F)
      → execute runner snapshots request w ≡ (err e, last)
      → IsRejection e
      → last ≡ (snapshots.refresh_snapshot w).1
  execute_rejected request w last e h k = elim (execute_split request w) [
    | inl (_, _, returned) ↦ sym (ap (λ r. r.1) (sym returned ∙ h))
    | inr (invocation, _, runs) ↦
        absurd (attempt_error invocation (snapshots.refresh_snapshot w).1 last e (sym runs ∙ h) k)
  ]
