-- ===== src/Operations/History/Methods.antt =====
-- `start`, `set_progress` and `finish`: exactly when each succeeds, and what it then changes.
use kernmux.Prelude.{
  ℕ, ◌≤◌, ◌<◌, ◌≡◌, ◌≢◌, refl, ap, ◌∙◌, ◌⊎◌, inl, inr, true, false, Option, none, some, arith,
  Result, ok, err, if◌then◌else◌, Bool-cases, Result-cases, ltb, ◌||◌,
}
use kernmux.Prelude.Order.{same, bytes_ord}
use kernmux.Api.{
  Operation, OperationId, OperationState, same_operation_state, same_operation_state_iff,
}
use kernmux.Operations.{
  Completion, Mutation, MethodResult, OperationRegistry, OperationRegistryError, finish,
  finish_mutation, get, progress_mutation, regresses, set_progress, start, start_mutation, update,
}
use kernmux.Operations.History.{KeepsId, IsAtomic, outcome, update_found, update_failed}

pub start-KeepsId : KeepsId start_mutation
unfolding start_mutation
start-KeepsId o = ground arith

pub progress-KeepsId : (p : ℕ) → KeepsId (progress_mutation p)
unfolding progress_mutation
progress-KeepsId p o = ground arith

pub finish-KeepsId : (c : Completion) → KeepsId (finish_mutation c)
unfolding finish_mutation
finish-KeepsId c o = ground arith

start-IsAtomic : IsAtomic start_mutation
unfolding start_mutation
start-IsAtomic o e h = ground arith

progress-IsAtomic : (p : ℕ) → IsAtomic (progress_mutation p)
unfolding progress_mutation
progress-IsAtomic p o e h = ground arith

pub finish-IsAtomic : (c : Completion) → IsAtomic (finish_mutation c)
unfolding finish_mutation
finish-IsAtomic c o e h = ground arith

-- A method returns an operation, or an error with the registry as it was.
abbrev pub LeavesAlone : OperationRegistry → MethodResult → Type 0
LeavesAlone r x =
    ((o : Operation) × (x.1 ≡ ok o)) ⊎ ((e : OperationRegistryError) × (x.1 ≡ err e) × (x.0 ≡ r))

update-LeavesAlone :
    (r : OperationRegistry) (id : OperationId) (m : Mutation)
    → KeepsId m
    → IsAtomic m
    → LeavesAlone r (update r id m)
update-LeavesAlone r id m k l = elim (Result-cases (update r id m).1) [
  | inl (o, h) ↦ inl (o, h)
  | inr (e, h) ↦ inr (e, h, update_failed r id m e k l h)
]

-- Whatever error `start`, `set_progress` or `finish` returns, it changed no operation, published no
-- event and moved no counter.
pub methods_atomic :
    (r : OperationRegistry) (id : OperationId) (p : ℕ) (c : Completion)
    → LeavesAlone r (start r id)
      × LeavesAlone r (set_progress r id p)
      × LeavesAlone r (finish r id c)
unfolding start set_progress finish
methods_atomic r id p c = (
  update-LeavesAlone r id start_mutation start-KeepsId start-IsAtomic,
  update-LeavesAlone r id (progress_mutation p) (progress-KeepsId p) (progress-IsAtomic p),
  update-LeavesAlone r id (finish_mutation c) (finish-KeepsId c) (finish-IsAtomic c),
)

-- The call returned the changed operation, which stands under its id; all other ids are untouched.
abbrev pub Changes : OperationRegistry → OperationId → Operation → MethodResult → Type 0
Changes r id o x =
    (x.1 ≡ ok o) × ((j : OperationId) → get x.0 j ≡ (if same id j then some o else get r j))

-- The call was refused.
abbrev pub Refuses : OperationRegistry → OperationRegistryError → MethodResult → Type 0
Refuses r e x = (x.1 ≡ err e) × (x.0 ≡ r)

pub update-Changes :
    (r : OperationRegistry) (id : OperationId) (m : Mutation) (o o' : Operation)
    → KeepsId m
    → get r id ≡ some o
    → m o ≡ (o', ok tt)
    → Changes r id o' (update r id m)
update-Changes r id m o o' k f e =
    let (returned, view) = update_found r id m o k f in
    (
      returned
          ∙ ap (λ (x : Operation × Result (Unit {0}) OperationRegistryError). outcome x.0 x.1) e,
      λ j.
          view j
          ∙ ap
              (λ (x : Operation × Result (Unit {0}) OperationRegistryError).
                if same id j then some x.0 else get r j)
              e,
    )

pub update-Refuses :
    (r : OperationRegistry) (id : OperationId) (m : Mutation) (o : Operation)
    (x : OperationRegistryError)
    → KeepsId m
    → IsAtomic m
    → get r id ≡ some o
    → (m o).1 ≡ err x
    → Refuses r x (update r id m)
update-Refuses r id m o x k l f e =
    let returned : (update r id m).1 ≡ err x =
      (update_found r id m o k f).0 ∙ ap (outcome (m o).0) e in
    (returned, update_failed r id m x k l returned)

abbrev pub started : Operation → Operation
started o = record o { state = OperationState.running; progress_percent = some 0 }

-- `start` of an operation in the history succeeds exactly if it is queued; it then runs at zero
-- percent and every other id is found as before. Otherwise the registry is unchanged.
pub start_lem :
    (r : OperationRegistry) (id : OperationId) (o : Operation)
    → get r id ≡ some o
    → (o.state ≡ OperationState.queued) × Changes r id (started o) (start r id)
      ⊎ (o.state ≢ OperationState.queued)
        × Refuses r OperationRegistryError.invalid_transition (start r id)
unfolding start
start_lem r id o f = elim (Bool-cases (same_operation_state o.state OperationState.queued)) [
  | inl yes_queued ↦ inl (
    (same_operation_state_iff _ _).0 yes_queued,
    update-Changes r id start_mutation o (started o) start-KeepsId f
        (unfold start_mutation in (rw yes_queued)),
  )
  | inr other ↦ inr (
    λ q. ground (arith, same_operation_state_iff o.state OperationState.queued),
    update-Refuses r id start_mutation o OperationRegistryError.invalid_transition start-KeepsId
        start-IsAtomic f (unfold start_mutation in (rw other)),
  )
]

abbrev pub progressed : ℕ → Operation → Operation
progressed p o = record o { progress_percent = some p }

-- Progress may be set to `p`: it stays within 100 percent and does not fall.
pub record MayProgress (p : ℕ) (o : Operation) : Type 0 where
  pub is_running : o.state ≡ OperationState.running
  pub within : p ≤ 100
  pub rises : (current : ℕ) → o.progress_percent ≡ some current → current ≤ p

regresses-false :
    (p : ℕ) (x : Option ℕ) (current : ℕ) → regresses p x ≡ false → x ≡ some current → current ≤ p
regresses-false p none current h e = absurd (cc)
regresses-false p (some c) current h e = ground arith

regresses-true :
    (p : ℕ) (x : Option ℕ)
    → regresses p x ≡ true
    → (current : ℕ) × (x ≡ some current) × (p < current)
regresses-true p none h = absurd (cc)
regresses-true p (some c) h = (c, refl, ground arith)

progress_refused :
    (p : ℕ) (o : Operation)
    → (ltb 100 p || regresses p o.progress_percent) ≡ true
    → ¬ MayProgress p o
progress_refused p o h m = elim (Bool-cases (regresses p o.progress_percent)) [
  | inl falls ↦
      let (c, e, lt) = regresses-true p o.progress_percent falls in
      absurd (omega (arith, m.rises c e))
  | inr stays ↦ ground (arith, m.within)
]

-- `set_progress` of an operation in the history succeeds exactly where the progress may be set,
-- and changes nothing but the progress; otherwise the registry is unchanged, and the error tells
-- an operation that is not running from a value that is out of place.
pub set_progress_lem :
    (r : OperationRegistry) (id : OperationId) (p : ℕ) (o : Operation)
    → get r id ≡ some o
    → MayProgress p o × Changes r id (progressed p o) (set_progress r id p)
      ⊎ (o.state ≢ OperationState.running)
        × Refuses r OperationRegistryError.invalid_transition (set_progress r id p)
      ⊎ (o.state ≡ OperationState.running)
        × (¬ MayProgress p o)
        × Refuses r OperationRegistryError.invalid_progress (set_progress r id p)
unfolding set_progress
set_progress_lem r id p o f =
    elim (Bool-cases (same_operation_state o.state OperationState.running)) [
      | inr other ↦ inr (
          inl (
            λ q. ground (arith, same_operation_state_iff o.state OperationState.running),
            update-Refuses r id (progress_mutation p) o OperationRegistryError.invalid_transition
                (progress-KeepsId p) (progress-IsAtomic p) f
                (unfold progress_mutation in (rw other)),
          ))
      | inl running ↦ elim (Bool-cases (ltb 100 p || regresses p o.progress_percent)) [
        | inl bad ↦ inr (
            inr (
              (same_operation_state_iff _ _).0 running,
              progress_refused p o bad,
              update-Refuses r id (progress_mutation p) o OperationRegistryError.invalid_progress
                  (progress-KeepsId p) (progress-IsAtomic p) f
                  (unfold progress_mutation in (rw (running, bad))),
            ))
        | inr good ↦ inl (
          record {
            is_running = (same_operation_state_iff _ _).0 running;
            within = ground arith;
            rises = λ c e. regresses-false p o.progress_percent c (ground arith) e;
          },
          update-Changes r id (progress_mutation p) o (progressed p o) (progress-KeepsId p) f
              (unfold progress_mutation in (rw (running, good))),
        )
      ]
    ]
