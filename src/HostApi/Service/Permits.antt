-- ===== src/HostApi/Service/Permits.antt =====
-- The mutation permits are those of the tasks that worker threads hold.
use kernmux.Prelude.{
  ℕ, suc, ◌-◌, ◌≤◌, ◌<◌, ◌≡◌, ◌⊎◌, inl, inr, refl, sym, ap, subst, ◌∙◌, true, false, List, [], ◌∷◌,
  ◌++◌, length, length-append, All, All-append, none, some, Result, ok, err, arith, leb, Bool-cases,
}
use kernmux.Api.{ApiError, Operation, OperationState}
use kernmux.Operations.{NewOperation, create, get, new_operation}
use kernmux.Operations.Invariant.{Inv}
use kernmux.Operations.History.Retention.{create-operations}
use kernmux.Scheduler.Workers.{submit_lem}
use kernmux.Scheduler.{OperationScheduler, ScheduleError, new_worker, submit, worker_spawn_result}
use kernmux.Security.{
  LimitKind, ServiceLimits, ServiceLimiter, ServicePermit, acquire, drop, held, limit,
  limit_reached, set_held,
}
use kernmux.Security.Admission.{leb_room}
use kernmux.HostApi.{schedule_error}
use kernmux.HostApi.Service.Types.{Circumstances, HostState, PendingTask, Task}
use kernmux.HostApi.Service.Submission.{submit_task, admitted, scheduled}

abbrev pub OwnsMutation : PendingTask → Type 0
OwnsMutation t = t.permit.kind ≡ LimitKind.mutation

-- As many mutation permits are held as there are tasks, each task owns one, and there are never
-- more than the limit.
pub record IsAccounted (limits : ServiceLimits) (s : HostState) : Type 0 where
  pub limits_kept : s.limiter.limits ≡ limits
  pub counted : held s.limiter.shared LimitKind.mutation ≡ length s.tasks
  pub bounded : length s.tasks ≤ limit limits LimitKind.mutation
  pub owned : All OwnsMutation s.tasks

-- A limiter with one more mutation permit held.
abbrev pub with_one : ServiceLimiter → ServiceLimiter
with_one l = record l {
  shared = set_held l.shared LimitKind.mutation (suc (held l.shared LimitKind.mutation));
}

abbrev pub mutation_permit : ServicePermit
mutation_permit = record { kind = LimitKind.mutation }

-- A permit is granted below the limit, and refused at it.
acquire_cases :
    (l : ServiceLimiter)
    → ((limit l.limits LimitKind.mutation ≤ held l.shared LimitKind.mutation)
        × (acquire l LimitKind.mutation ≡ (l, err limit_reached)))
      ⊎ ((held l.shared LimitKind.mutation < limit l.limits LimitKind.mutation)
          × (acquire l LimitKind.mutation ≡ (with_one l, ok mutation_permit)))
unfolding acquire
acquire_cases l =
    let test = leb (limit l.limits LimitKind.mutation) (held l.shared LimitKind.mutation) in
    elim (Bool-cases test) [
      | inl full ↦ inl (leb_full _ _ full, rw full refl)
      | inr room ↦ inr (leb_room _ _ room, rw room refl)
    ]
  where
    leb_full : (a b : ℕ) → leb a b ≡ true → a ≤ b
    leb_full a b h = ground arith

-- Giving a permit back undoes taking it.
drop-with_one : (l : ServiceLimiter) → drop (with_one l) mutation_permit ≡ l
unfolding drop held set_held
drop-with_one l =
    let n = held l.shared LimitKind.mutation in
    let e : suc n - 1 ≡ n = omega arith in
    ap (λ k. record l { shared = set_held l.shared LimitKind.mutation k }) e

pub same_accounts :
    (limits : ServiceLimits) (s t : HostState)
    → t.limiter ≡ s.limiter
    → t.tasks ≡ s.tasks
    → IsAccounted limits s
    → IsAccounted limits t
same_accounts limits s t limiter tasks v = record {
  limits_kept = ap (λ l. l.limits) limiter ∙ v.limits_kept;
  counted = ap (λ l. held l.shared LimitKind.mutation) limiter ∙ v.counted ∙ sym (ap length tasks);
  bounded = subst (λ ts. length ts ≤ limit limits LimitKind.mutation) (sym tasks) v.bounded;
  owned = subst (All OwnsMutation) (sym tasks) v.owned;
}

-- The task that a submission hands to a worker.
abbrev pub pending : NewOperation → Task → HostState → PendingTask
pending request task s = record {
  operation_id = (create (kernmux.Scheduler.reap_finished s.scheduler).registry request).1.id;
  task = task;
  permit = mutation_permit;
}

-- What a submission does: at the limit it is refused, and changes nothing.
abbrev pub IsRefusal : ServiceLimits → HostState → HostState × Result Operation ApiError → Type 0
IsRefusal limits s (t, answer) =
    (length s.tasks ≡ limit limits LimitKind.mutation) × (t ≡ s) × (answer ≡ err limit_reached)

-- Below it, either the scheduler accepts it, and one more task holds a permit;
abbrev pub IsAcceptance :
    NewOperation → Task → HostState → HostState × Result Operation ApiError → Type 0
IsAcceptance request task s (t, answer) =
    (t.tasks ≡ s.tasks ++ pending request task s ∷ [])
    × (t.limiter ≡ with_one s.limiter)
    × (answer ≡ ok (create (kernmux.Scheduler.reap_finished s.scheduler).registry request).1)

-- or its thread cannot be spawned, and neither a task nor a permit is left.
abbrev pub IsFailure : HostState → HostState × Result Operation ApiError → Type 0
IsFailure s (t, answer) =
    (t.tasks ≡ s.tasks)
    × (t.limiter ≡ s.limiter)
    × (answer ≡ err (schedule_error ScheduleError.spawn))

scheduled_cases :
    (s : HostState) (now : Circumstances) (request : NewOperation) (task : Task)
    → let out =
        scheduled
          (record s { limiter = with_one s.limiter })
          task
          mutation_permit
          (submit s.scheduler request now.spawned now.failed_at) in
      (((now.spawned ≡ true) × IsAcceptance request task s out)
        ⊎ ((now.spawned ≡ false) × IsFailure s out))
      × (out.0.scheduler ≡ (submit s.scheduler request now.spawned now.failed_at).0)
unfolding scheduled submit
scheduled_cases s now request task = elim (Bool-cases now.spawned) [
  | inl spawned ↦ rw spawned (inl (refl, (refl, refl, refl)), refl)
  | inr failed ↦ rw failed (inr (refl, (refl, drop-with_one s.limiter, refl)), refl)
]

-- The operation stands in the registry under a new id, as it was requested, with its worker.
abbrev pub IsCreated : NewOperation → HostState → HostState → Type 0
IsCreated request s t =
    let o = (create s.scheduler.registry request).1 in
    (get s.scheduler.registry o.id ≡ none)
    × (get t.scheduler.registry o.id ≡ some o)
    × (o.state ≡ OperationState.queued)
    × ((o.kind ≡ request.kind)
        × (o.affected_resources ≡ request.affected_resources)
        × (o.actor ≡ request.actor)
        × (o.audit_id ≡ request.audit_id))
    × (t.scheduler.workers
        ≡ (kernmux.Scheduler.reap_finished s.scheduler).workers ++ new_worker o.id ∷ [])

-- The operation stands in the registry as failed, and no worker is kept for it.
abbrev pub IsAbandoned : NewOperation → HostState → HostState → Type 0
IsAbandoned request s t =
    let o = (create s.scheduler.registry request).1 in
    (get s.scheduler.registry o.id ≡ none)
    × ((p : Operation) × (get t.scheduler.registry o.id ≡ some p)
        × (p.state ≡ OperationState.failed))
    × (t.scheduler.workers ≡ (kernmux.Scheduler.reap_finished s.scheduler).workers)

submit_task_outcome :
    (limits : ServiceLimits) (s : HostState) (now : Circumstances) (request : NewOperation)
    (task : Task)
    → IsAccounted limits s
    → let out = submit_task s now request task in
      IsRefusal limits s out
      ⊎ ((length s.tasks < limit limits LimitKind.mutation)
          × (((now.spawned ≡ true) × IsAcceptance request task s out)
              ⊎ ((now.spawned ≡ false) × IsFailure s out))
          × (out.0.scheduler ≡ (submit s.scheduler request now.spawned now.failed_at).0))
unfolding submit_task admitted
submit_task_outcome limits s now request task v =
    let most = ap (λ l. limit l LimitKind.mutation) v.limits_kept in
    let counted = v.counted in
    let bounded = v.bounded in
    elim (acquire_cases s.limiter) [
      | inl (full, e) ↦
          subst Outcome (sym (ap (admitted s now request task) e)) (inl (omega arith, refl, refl))
      | inr (room, e) ↦
          let (cases, stored) = scheduled_cases s now request task in
          subst Outcome (sym (ap (admitted s now request task) e))
            (inr (omega arith, cases, stored))
    ]
  where
    Outcome : HostState × Result Operation ApiError → Type 0
    Outcome out =
        IsRefusal limits s out
        ⊎ ((length s.tasks < limit limits LimitKind.mutation)
            × (((now.spawned ≡ true) × IsAcceptance request task s out)
                ⊎ ((now.spawned ≡ false) × IsFailure s out))
            × (out.0.scheduler ≡ (submit s.scheduler request now.spawned now.failed_at).0))

module _ (s : HostState) (now : Circumstances) (request : NewOperation)
    (v : Inv s.scheduler.registry) (t : HostState)
    (stored : t.scheduler ≡ (submit s.scheduler request now.spawned now.failed_at).0) where
  as_requested :
      (n : ℕ)
      → let o = new_operation n request in
        (o.kind ≡ request.kind)
        × (o.affected_resources ≡ request.affected_resources)
        × (o.actor ≡ request.actor)
        × (o.audit_id ≡ request.audit_id)
  unfolding new_operation
  as_requested n = (refl, refl, refl, refl)

  spawned-IsCreated : now.spawned ≡ true → IsCreated request s t
  spawned-IsCreated h =
      let (fresh, cases) = submit_lem s.scheduler request now.spawned now.failed_at v in
      elim cases [
        | inl (_, (answer, queued, found, workers)) ↦ (
          fresh,
          ap (λ x. get x.registry (create s.scheduler.registry request).1.id) stored ∙ found,
          queued,
          subst
              (λ (o : Operation).
                (o.kind ≡ request.kind)
                × (o.affected_resources ≡ request.affected_resources)
                × (o.actor ≡ request.actor)
                × (o.audit_id ≡ request.audit_id))
              (sym (create-operations s.scheduler.registry request).1) (as_requested _),
          ap (λ x. x.workers) stored ∙ workers,
        )
        | inr (unspawned, _) ↦ absurd (cc)
      ]

  failed-IsAbandoned : now.spawned ≡ false → IsAbandoned request s t
  failed-IsAbandoned h =
      let (fresh, cases) = submit_lem s.scheduler request now.spawned now.failed_at v in
      elim cases [
        | inl (spawned, _) ↦ absurd (cc)
        | inr (_, (answer, found, workers)) ↦ (
          fresh,
          (
            _,
            ap (λ x. get x.registry (create s.scheduler.registry request).1.id) stored ∙ found,
            unfold worker_spawn_result in refl,
          ),
          ap (λ x. x.workers) stored ∙ workers,
        )
      ]

-- A submission at the limit is refused without a change. Below the limit it is accepted exactly if
-- a thread can be spawned: the operation is then created under a new id, as it was requested, and
-- queued with a worker, and its task holds one more mutation permit; without a thread the operation
-- is left as failed, the permit is given back, and neither a task nor a worker is left. This is
-- said of a registry that keeps its invariant and of permits that are accounted for.
pub submit_task_cases :
    (limits : ServiceLimits) (s : HostState) (now : Circumstances) (request : NewOperation)
    (task : Task)
    → IsAccounted limits s
    → Inv s.scheduler.registry
    → let out = submit_task s now request task in
      IsRefusal limits s out
      ⊎ ((length s.tasks < limit limits LimitKind.mutation)
          × (((now.spawned ≡ true) × IsAcceptance request task s out × IsCreated request s out.0)
              ⊎ ((now.spawned ≡ false) × IsFailure s out × IsAbandoned request s out.0)))
submit_task_cases limits s now request task v inv =
    elim (submit_task_outcome limits s now request task v) [
      | inl refusal ↦ inl refusal
      | inr (room, inl (spawned, accepted), stored) ↦ inr (
        room,
        inl (
          spawned,
          accepted,
          spawned-IsCreated s now request inv (submit_task s now request task).0 stored spawned,
        ),
      )
      | inr (room, inr (failed, dropped), stored) ↦ inr (
        room,
        inr (
          failed,
          dropped,
          failed-IsAbandoned s now request inv (submit_task s now request task).0 stored failed,
        ),
      )
    ]

held-with_one :
    (l : ServiceLimiter)
    → held (with_one l).shared LimitKind.mutation ≡ suc (held l.shared LimitKind.mutation)
unfolding held set_held
held-with_one l = refl

length-snoc : {A : Type 0} (xs : List A) (x : A) → length (xs ++ x ∷ []) ≡ suc (length xs)
length-snoc xs x = omega (arith, length-append xs (x ∷ []))

pub submit_task-IsAccounted :
    (limits : ServiceLimits) (s : HostState) (now : Circumstances) (request : NewOperation)
    (task : Task)
    → IsAccounted limits s
    → IsAccounted limits (submit_task s now request task).0
submit_task-IsAccounted limits s now request task v =
    elim (submit_task_outcome limits s now request task v) [
      | inl (full, same, answer) ↦ subst (IsAccounted limits) (sym same) v
      | inr (room, inl (spawned, (tasks, limiter, answer)), stored) ↦ record {
        limits_kept = ap (λ l. l.limits) limiter ∙ v.limits_kept;
        counted =
            ap (λ l. held l.shared LimitKind.mutation) limiter
            ∙ held-with_one s.limiter
            ∙ ap suc v.counted
            ∙ sym (length-snoc s.tasks (pending request task s))
            ∙ sym (ap length tasks);
        bounded =
            subst (λ ts. length ts ≤ limit limits LimitKind.mutation) (sym tasks)
              (omega (arith, room, length-snoc s.tasks (pending request task s)));
        owned =
            subst (All OwnsMutation) (sym tasks)
              (All-append OwnsMutation s.tasks (pending request task s ∷ []) v.owned (refl, tt));
      }
      | inr (room, inr (failed, (tasks, limiter, answer)), stored) ↦
          same_accounts limits s (submit_task s now request task).0 limiter tasks v
    ]
