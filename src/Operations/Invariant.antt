-- ===== src/Operations/Invariant.antt =====
-- What holds of the registry between two calls: bounds, numbering, and the shape of each operation.
pub mod Queue
pub mod Calls
use kernmux.Prelude.{
  ℕ, zero, suc, ◌+◌, ◌≤◌, ◌<◌, ◌≡◌, ◌≢◌, ◌⊎◌, inl, inr, refl, sym, ap, ◌∙◌, Bool, true, false,
  Option, none, some, List, [], ◌∷◌, ◌++◌, length, length-append, All, All-append, arith, Result,
  ok, err, if◌then◌else◌, ◌==◌, u64_max, saturating_add, Bool-cases,
}
use kernmux.Prelude.Text.{text, decimal, decimal-injective}
use kernmux.Prelude.Order.{same, bytes_ord}
use kernmux.Api.{Event, Generation, Operation, OperationId, OperationState, same_operation_state}
use kernmux.Operations.{
  Call, creates, starts, progresses, finishes, Completion, Mutation, NewOperation,
  OperationRegistry, OperationRegistryError, RegistryState, advance_generation, create, finish,
  finish_mutation, finish_update, is_terminal, new, new_operation, operation_event, operation_id,
  pop_front, progress_mutation, publish_operation_event, push_bounded, run, set_progress, start,
  start_mutation, step, update, update_first,
}

-- The events carry consecutive sequence numbers from `s` on, and generations that never fall, from
-- `low` up to `high`.
abbrev pub Chain : ℕ → Generation → Generation → List Event → Type 0
Chain s low high [] = low ≤ high
Chain s low high (e ∷ es) =
    (e.sequence ≡ s) × (low ≤ e.snapshot_generation) × Chain (suc s) e.snapshot_generation high es

-- The operations carry consecutive numbers from `n` on.
abbrev pub Numbered : ℕ → List Operation → Type 0
Numbered n [] = Unit
Numbered n (o ∷ os) = (o.id ≡ operation_id n) × Numbered (suc n) os

abbrev pub Capped : Option ℕ → Type 0
Capped none = Unit
Capped (some p) = p ≤ 100

-- The fields that go with each execution state.
abbrev pub FitsState : OperationState → Operation → Type 0
FitsState OperationState.queued o =
    (o.progress_percent ≡ none) × (o.observed_generation ≡ none) × (o.completed_at ≡ none)
FitsState OperationState.running o =
    (o.progress_percent ≢ none) × (o.observed_generation ≡ none) × (o.completed_at ≡ none)
FitsState OperationState.succeeded o = (o.progress_percent ≡ some 100) × (o.completed_at ≢ none)
FitsState OperationState.unknown o = ⊥
FitsState OperationState.failed o = o.completed_at ≢ none
FitsState OperationState.cancelled o = o.completed_at ≢ none
FitsState OperationState.indeterminate o = o.completed_at ≢ none

abbrev pub IsWellFormed : Operation → Type 0
IsWellFormed o = Capped o.progress_percent × FitsState o.state o

pub record Inv (r : OperationRegistry) : Type 0 where
  pub operations_bounded : length r.operations ≤ r.operation_capacity
  pub events_bounded : length r.events ≤ r.event_capacity
  pub operation_room : 0 < r.operation_capacity
  pub event_room : 0 < r.event_capacity
  pub first_operation : ℕ
  pub operations_counted : first_operation + length r.operations ≡ r.next_operation
  pub numbered : Numbered first_operation r.operations
  pub well_formed : All IsWellFormed r.operations
  pub first_event : ℕ
  pub events_positive : 0 < first_event
  pub nothing_dropped : r.events ≡ [] → first_event ≡ 1
  pub events_counted : first_event + length r.events ≡ r.next_sequence
  pub chained : Chain first_event 0 r.latest_generation r.events

-- A new registry satisfies the invariant.
pub new-Inv : (a b : ℕ) (r : OperationRegistry) → new a b ≡ ok r → Inv r
unfolding new
new-Inv zero b r e = absurd (ground arith)
new-Inv (suc a) zero r e = absurd (ground arith)
new-Inv (suc a) (suc b) r e = record {
  operations_bounded = ground arith;
  events_bounded = ground arith;
  operation_room = ground arith;
  event_room = ground arith;
  first_operation = 1;
  operations_counted = ground arith;
  numbered = ground arith;
  well_formed = ground arith;
  first_event = 1;
  events_positive = ground arith;
  nothing_dropped = λ _. refl;
  events_counted = ground arith;
  chained = ground arith;
}
