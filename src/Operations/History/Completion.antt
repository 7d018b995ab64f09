-- ===== src/Operations/History/Completion.antt =====
-- `finish`: exactly when it succeeds, and what it records.
use kernmux.Prelude.{
  ℕ, ◌≡◌, ◌⊎◌, inl, inr, true, false, Option, some, arith, ok, err, Bool-cases, ◌||◌, not,
}
use kernmux.Prelude.Order.{bytes_ord}
use kernmux.Api.{Operation, OperationId, OperationState}
use kernmux.Operations.{
  Completion, OperationRegistry, OperationRegistryError, finish, finish_mutation, get, is_terminal,
}
use kernmux.Operations.History.Methods.{
  finish-KeepsId, finish-IsAtomic, Changes, Refuses, update-Changes, update-Refuses,
}

-- The progress of an operation that has succeeded is complete; any other keeps what it had.
abbrev pub final_progress : OperationState → Option ℕ → Option ℕ
final_progress OperationState.succeeded p = some 100
final_progress OperationState.queued p = p
final_progress OperationState.running p = p
final_progress OperationState.failed p = p
final_progress OperationState.cancelled p = p
final_progress OperationState.indeterminate p = p
final_progress OperationState.unknown p = p

abbrev pub finished : Completion → Operation → Operation
finished c o = record o {
  state = c.state;
  observed_generation = c.observed_generation;
  error = c.error;
  completed_at = some c.completed_at;
  progress_percent = final_progress c.state o.progress_percent;
}

finish_mutation_refused :
    (c : Completion) (o : Operation)
    → (is_terminal o.state || not (is_terminal c.state)) ≡ true
    → (finish_mutation c o).1 ≡ err OperationRegistryError.invalid_transition
unfolding finish_mutation
finish_mutation_refused c o bad = ground arith

finish_mutation_done :
    (c : Completion) (o : Operation)
    → (is_terminal o.state || not (is_terminal c.state)) ≡ false
    → finish_mutation c o ≡ (finished c o, ok tt)
unfolding finish_mutation
finish_mutation_done c o good = ground arith

-- `finish` of an operation in the history succeeds exactly when the operation is not yet terminal
-- and the given state is, and records the state, the observed generation, the error and the time;
-- otherwise the registry is unchanged.
pub finish_lem :
    (r : OperationRegistry) (id : OperationId) (c : Completion) (o : Operation)
    → get r id ≡ some o
    → (is_terminal o.state ≡ false)
        × (is_terminal c.state ≡ true)
        × Changes r id (finished c o) (finish r id c)
      ⊎ ((is_terminal o.state ≡ true) ⊎ (is_terminal c.state ≡ false))
        × Refuses r OperationRegistryError.invalid_transition (finish r id c)
unfolding finish
finish_lem r id c o f = elim (Bool-cases (is_terminal o.state || not (is_terminal c.state))) [
  | inl bad ↦ inr (
    ground arith,
    update-Refuses r id (finish_mutation c) o OperationRegistryError.invalid_transition
        (finish-KeepsId c) (finish-IsAtomic c) f (finish_mutation_refused c o bad),
  )
  | inr good ↦ inl (
    ground arith,
    ground arith,
    update-Changes r id (finish_mutation c) o (finished c o) (finish-KeepsId c) f
        (finish_mutation_done c o good),
  )
]
