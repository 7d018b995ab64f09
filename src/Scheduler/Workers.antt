-- ===== src/Scheduler/Workers.antt =====
-- A submitted operation, its worker thread, and what the registry holds for them.
use kernmux.Prelude.{
  ℕ, ◌≡◌, ◌≢◌, ◌⊎◌, inl, inr, refl, ap, ◌∙◌, Bool, true, false, List, [], ◌∷◌, ◌++◌, Option, none,
  some, Result, ok, err, arith, All, Bool-cases, Option-cases, find, if◌then◌else◌,
}
use kernmux.Prelude.Text.{Text}
use kernmux.Prelude.Order.{bytes_ord, same, same_iff}
use kernmux.Api.{ApiError, ErrorCode, Operation, OperationId, OperationState}
use kernmux.Operations.{
  NewOperation, OperationRegistry, OperationRegistryError, create, finish, get, is_terminal,
  new_operation, start,
}
use kernmux.Operations.Invariant.{Inv}
use kernmux.Operations.History.Methods.{Changes, start_lem, started}
use kernmux.Operations.History.Completion.{finished, finish_lem}
use kernmux.Operations.History.Retention.{create_others, create-operations}
use kernmux.Scheduler.{
  OperationScheduler, OperationTaskResult, ScheduleError, Worker, cancel, caught, completion,
  mark_cancelled, new_worker, reap_finished, submit, worker, worker_end, worker_panic_result,
  worker_spawn_result,
}
use kernmux.Scheduler.Reaping.{IsUnfinished, reap_finished-IsReaped}
use kernmux.Scheduler.Results.{IsFinal, caught-IsFinal}

same_self : (id : OperationId) → same id id ≡ true
same_self id = (same_iff id id).1 refl

changed_at :
    (r : OperationRegistry) (id : OperationId) (o : Operation)
    (x : OperationRegistry × Result Operation OperationRegistryError)
    → Changes r id o x
    → get x.0 id ≡ some o
changed_at r id o x h = h.1 id ∙ ap (λ t. if t then some o else get r id) (same_self id)

started_terminal : (o : Operation) → is_terminal (started o).state ≡ false
unfolding is_terminal
started_terminal o = refl

queued_terminal : (o : Operation) → o.state ≡ OperationState.queued → is_terminal o.state ≡ false
unfolding is_terminal
queued_terminal o e = rw e refl

-- A call of `finish` with a terminal state on an operation that is not terminal.
finish-open :
    (r : OperationRegistry) (id : OperationId) (o : Operation) (result : OperationTaskResult)
    (now : Text)
    → get r id ≡ some o
    → is_terminal o.state ≡ false
    → is_terminal result.state ≡ true
    → get (finish r id (completion result now)).0 id ≡ some (finished (completion result now) o)
finish-open r id o result now found going terminal =
    elim (finish_lem r id (completion result now) o found) [
      | inl (_, _, h) ↦
          changed_at r id (finished (completion result now) o) (finish r id (completion result now))
            h
      | inr (inl t, _) ↦ absurd (cc)
      | inr (inr f, _) ↦ absurd (cc)
    ]

-- How an operation is left by a task: with its result, or with an internal error where it panicked.
abbrev pub HasEnded : Option OperationTaskResult → Text → Operation → Type 0
HasEnded (some result) now o =
    (o.state ≡ result.state)
    × (o.error ≡ result.error)
    × (o.observed_generation ≡ result.observed_generation)
    × (o.completed_at ≡ some now)
HasEnded none now o =
    (o.state ≡ OperationState.failed)
    × ((e : ApiError) × (o.error ≡ some e) × (e.code ≡ ErrorCode.internal) × (e.retryable ≡ false))
    × (o.observed_generation ≡ none)
    × (o.completed_at ≡ some now)

finished-HasEnded :
    (o : Operation) (result : Option OperationTaskResult) (now : Text)
    → HasEnded result now (finished (completion (caught result) now) o)
unfolding caught worker_panic_result
finished-HasEnded o none now = (refl, (_, refl, refl, refl), refl, refl)
finished-HasEnded o (some result) now = (refl, refl, refl, refl)

-- For an operation in the registry, and a task whose result is final if it has one: the thread of
-- a queued operation leaves it ended with that result, or with an internal error if the task
-- panicked. On an operation that is not queued the thread changes nothing.
pub worker_lem :
    (r : OperationRegistry) (id : OperationId) (o : Operation) (result : Option OperationTaskResult)
    (now : Text)
    → get r id ≡ some o
    → ((t : OperationTaskResult) → result ≡ some t → IsFinal t)
    → (o.state ≡ OperationState.queued)
        × ((p : Operation) × (get (worker r id result now) id ≡ some p)
            × (p.id ≡ o.id)
            × HasEnded result now p)
      ⊎ (o.state ≢ OperationState.queued) × (worker r id result now ≡ r)
unfolding worker worker_end
worker_lem r id o result now found final = elim (start_lem r id o found) [
  | inl (queued, changes) ↦
      let accepted : worker_end id result now (start r id)
          ≡ (finish (start r id).0 id (completion (caught result) now)).0 =
        ap (λ s. worker_end id result now ((start r id).0, s)) changes.0 in
      inl (
        queued,
        (
          finished (completion (caught result) now) (started o),
          ap (λ s. get s id) accepted
              ∙ finish-open (start r id).0 id (started o) (caught result) now
                  (changed_at r id (started o) (start r id) changes) (started_terminal o)
                  (caught-IsFinal result final).terminal,
          refl,
          finished-HasEnded (started o) result now,
        ),
      )
  | inr (other, refuses) ↦
      inr (other, ap (λ s. worker_end id result now ((start r id).0, s)) refuses.0 ∙ refuses.1)
]

created_queued :
    (n : ℕ) (request : NewOperation) → (new_operation n request).state ≡ OperationState.queued
unfolding new_operation
created_queued n request = refl

-- The operation was accepted: it is queued under its id, and its worker is retained.
abbrev pub IsSubmitted :
    OperationScheduler → OperationScheduler × Result Operation ScheduleError → Operation → Type 0
IsSubmitted s x o =
    (x.1 ≡ ok o)
    × (o.state ≡ OperationState.queued)
    × (get x.0.registry o.id ≡ some o)
    × (x.0.workers ≡ (reap_finished s).workers ++ new_worker o.id ∷ [])

-- The thread could not be created: the caller gets an error, the operation has failed, and no
-- worker is kept for it.
abbrev pub IsDropped :
    OperationScheduler
    → OperationScheduler × Result Operation ScheduleError
    → Operation
    → Text
    → Type 0
IsDropped s x o now =
    (x.1 ≡ err ScheduleError.spawn)
    × (get x.0.registry o.id ≡ some (finished (completion worker_spawn_result now) o))
    × (x.0.workers ≡ (reap_finished s).workers)

spawn_terminal : is_terminal worker_spawn_result.state ≡ true
unfolding worker_spawn_result is_terminal
spawn_terminal = refl

-- In a registry that keeps its invariant, a submission gets an id that the registry did not hold.
-- Either its operation is queued with a worker for it, or, without a thread, it is failed at once
-- and never left queued.
pub submit_lem :
    (s : OperationScheduler) (request : NewOperation) (spawned : Bool) (now : Text)
    → Inv s.registry
    → let o = (create s.registry request).1 in
      let x = submit s request spawned now in
      (get s.registry o.id ≡ none)
      × ((spawned ≡ true) × IsSubmitted s x o ⊎ (spawned ≡ false) × IsDropped s x o now)
unfolding submit reap_finished
submit_lem s request spawned now v =
    let (fresh, found, _) = create_others s.registry request v in
    let o : Operation = (create s.registry request).1 in
    let queued : o.state ≡ OperationState.queued =
      ap (λ (x : Operation). x.state) (create-operations s.registry request).1
      ∙ created_queued s.registry.next_operation request in
    elim (Bool-cases spawned) [
      | inl threaded ↦ rw threaded (fresh, inl (refl, (refl, queued, found, refl)))
      | inr refused ↦ rw refused (
        fresh,
        inr (
          refl,
          (
            refl,
            finish-open (create s.registry request).0 o.id o worker_spawn_result now found
                (queued_terminal o queued) spawn_terminal,
            refl,
          ),
        ),
      )
    ]

find_marked :
    (id : OperationId) (ws : List Worker) (w : Worker)
    → find (λ x. same x.operation_id id) ws ≡ some w
    → find (λ x. same x.operation_id id) (mark_cancelled id ws)
      ≡ some (record w { is_cancelled = true })
find_marked id [] w e = absurd (cc)
find_marked id (x ∷ xs) w e = ground (arith, find_marked id xs w)

reaped-IsUnfinished : (s : OperationScheduler) → All IsUnfinished (reap_finished s).workers
reaped-IsUnfinished s = (reap_finished-IsReaped s).0.unfinished

found-IsUnfinished :
    (p : Worker → Bool) (ws : List Worker) (w : Worker)
    → All IsUnfinished ws
    → find p ws ≡ some w
    → IsUnfinished w
found-IsUnfinished p [] w h e = absurd (cc)
found-IsUnfinished p (x ∷ xs) w h e = ground (arith, h.0, found-IsUnfinished p xs w h.1)

-- The scheduler's worker for an id.
abbrev pub worker_of : OperationId → OperationScheduler → Option Worker
worker_of id s = find (λ w. same w.operation_id id) s.workers

cancel_missing :
    (s : OperationScheduler) (id : OperationId)
    → worker_of id (reap_finished s) ≡ none
    → cancel s id ≡ (reap_finished s, err OperationRegistryError.not_found)
unfolding cancel
cancel_missing s id e = cc (e)

cancel_found :
    (s : OperationScheduler) (id : OperationId) (w : Worker)
    → worker_of id (reap_finished s) ≡ some w
    → cancel s id
      ≡ (record (reap_finished s) { workers = mark_cancelled id (reap_finished s).workers }, ok tt)
unfolding cancel
cancel_found s id w e = cc (e)

-- A cancellation either reaches a worker that has not finished, whose token is then set, or it is
-- refused as unknown, when no unfinished worker has the id; it then only reaps. The registry is
-- untouched in both cases: the worker itself reports the end.
pub cancel_lem :
    (s : OperationScheduler) (id : OperationId)
    → let x = cancel s id in
      (x.0.registry ≡ s.registry)
      × (((w : Worker) × (worker_of id (reap_finished s) ≡ some w)
            × IsUnfinished w
            × (x.1 ≡ ok tt)
            × (worker_of id x.0 ≡ some (record w { is_cancelled = true })))
          ⊎ (worker_of id (reap_finished s) ≡ none)
            × (x ≡ (reap_finished s, err OperationRegistryError.not_found)))
cancel_lem s id = elim (Option-cases (worker_of id (reap_finished s))) [
  | inl e ↦
      let is = cancel_missing s id e in
      (ap (λ x. x.0.registry) is ∙ (reap_finished-IsReaped s).1, inr (e, is))
  | inr (w, e) ↦
      let is = cancel_found s id w e in
      (
        ap (λ x. x.0.registry) is ∙ (reap_finished-IsReaped s).1,
        inl (
          w,
          e,
          found-IsUnfinished _ (reap_finished s).workers w (reaped-IsUnfinished s) e,
          ap (λ x. x.1) is,
          ap (λ x. worker_of id x.0) is ∙ find_marked id (reap_finished s).workers w e,
        ),
      )
]
