-- ===== src/Operations.antt =====
-- The operation registry (crates/kernmux-daemon/src/operations.rs): bounded history and event stream.
-- Each method holds the registry's mutex, so it is one step from a state to a state. Errors are
-- returned beside the state, which a closure may have written to before it fails.
mod Registry
pub mod Invariant
pub mod History
pub mod Stream
mod Tests
unfoldable pub use Registry.*
use kernmux.Prelude.{
  ℕ, ◌+◌, Bool, true, false, ◌||◌, not, Option, none, some, List, [], ◌∷◌, ◌++◌, length, find,
  filter, ltb, leb, ◌==◌, if◌then◌else◌, Result, ok, err, saturating_add, saturating_sub,
}
use kernmux.Prelude.Text.{Text, text, decimal}
use kernmux.Prelude.Order.{same, bytes_ord}
use kernmux.Api.{
  Actor, ApiError, Event, EventKind, EventSequence, Generation, Operation, OperationId,
  OperationKind, OperationState, ResourceReference, same_operation_state,
}

-- A closure over `&mut Operation`: what it leaves in place, and its result.
abbrev pub Mutation : Type 0
Mutation = Operation → Operation × Result (Unit {0}) OperationRegistryError

abbrev pub keep_front :
    Operation
    → Option (Operation × Result (Unit {0}) OperationRegistryError × List Operation)
    → Option (Operation × Result (Unit {0}) OperationRegistryError × List Operation)
keep_front o none = none
keep_front o (some (changed, result, rest)) = some (changed, result, o ∷ rest)

-- The first operation with the id is changed in place.
pub update_first :
    OperationId
    → Mutation
    → List Operation
    → Option (Operation × Result (Unit {0}) OperationRegistryError × List Operation)
update_first id mutation [] = none
update_first id mutation (o ∷ os) =
    if same o.id id
    then some ((mutation o).0, (mutation o).1, (mutation o).0 ∷ os)
    else keep_front o (update_first id mutation os)

abbrev pub MethodResult : Type 0
MethodResult = OperationRegistry × Result Operation OperationRegistryError

pub finish_update :
    OperationRegistry
    → Option (Operation × Result (Unit {0}) OperationRegistryError × List Operation)
    → MethodResult
unfolding publish_operation_event
finish_update r none = (r, err OperationRegistryError.not_found)
finish_update r (some (changed, err e, operations)) =
    (record r { state = record r.state { operations = operations } }, err e)
finish_update r (some (changed, ok _, operations)) = (
  record r {
    state =
        publish_operation_event r.event_capacity (record r.state { operations = operations })
          changed;
  },
  ok changed,
)

pub update : OperationRegistry → OperationId → Mutation → MethodResult
unfolding update_first finish_update
update r id mutation = finish_update r (update_first id mutation r.operations)

unfoldable pub is_terminal : OperationState → Bool
is_terminal OperationState.succeeded = true
is_terminal OperationState.failed = true
is_terminal OperationState.cancelled = true
is_terminal OperationState.indeterminate = true
is_terminal _ = false

pub start_mutation : Mutation
unfolding same_operation_state
start_mutation o =
    if not (same_operation_state o.state OperationState.queued)
    then (o, err OperationRegistryError.invalid_transition)
    else (record o { state = OperationState.running; progress_percent = some 0 }, ok tt)

unfoldable pub start : OperationRegistry → OperationId → MethodResult
unfolding update start_mutation
start r id = update r id start_mutation

-- `progress_percent.is_some_and(|current| progress_percent < current)`.
abbrev pub regresses : ℕ → Option ℕ → Bool
regresses progress none = false
regresses progress (some current) = ltb progress current

pub progress_mutation : ℕ → Mutation
unfolding same_operation_state
progress_mutation progress o =
    if not (same_operation_state o.state OperationState.running)
    then (o, err OperationRegistryError.invalid_transition)
    else if ltb 100 progress || regresses progress o.progress_percent
    then (o, err OperationRegistryError.invalid_progress)
    else (record o { progress_percent = some progress }, ok tt)

unfoldable pub set_progress : OperationRegistry → OperationId → ℕ → MethodResult
unfolding update progress_mutation
set_progress r id progress = update r id (progress_mutation progress)

-- The arguments of `finish` after the id.
pub record Completion : Type 0 where
  pub state : OperationState
  pub observed_generation : Option Generation
  pub error : Option ApiError
  pub completed_at : Text

pub finish_mutation : Completion → Mutation
unfolding is_terminal same_operation_state
finish_mutation c o =
    if is_terminal o.state || not (is_terminal c.state)
    then (o, err OperationRegistryError.invalid_transition)
    else (
      record o {
        state = c.state;
        observed_generation = c.observed_generation;
        error = c.error;
        completed_at = some c.completed_at;
        progress_percent =
            if same_operation_state c.state OperationState.succeeded
            then some 100
            else o.progress_percent;
      },
      ok tt,
    )

unfoldable pub finish : OperationRegistry → OperationId → Completion → MethodResult
unfolding update finish_mutation
finish r id c = update r id (finish_mutation c)

unfoldable pub get : OperationRegistry → OperationId → Option Operation
get r id = find (λ o. same o.id id) r.operations

pub event_batch_from : RegistryState → EventSequence → Event → EventBatch
event_batch_from state cursor oldest =
    let overflowed = ltb (saturating_add cursor 1) oldest.sequence in
    let marker : Event = record {
      sequence = saturating_sub oldest.sequence 1;
      snapshot_generation = oldest.snapshot_generation;
      kind = EventKind.stream_overflow;
      resource = none;
    } in
    let retained = filter (λ event. ltb cursor event.sequence) state.events in
    record {
      events = if overflowed then marker ∷ retained else retained;
      overflowed = overflowed;
      latest_sequence = saturating_sub state.next_sequence 1;
    }

pub event_batch : RegistryState → EventSequence → EventBatch
unfolding event_batch_from
event_batch state cursor = elim (first state.events) [
  | none ↦ record {
    events = [];
    overflowed = false;
    latest_sequence = saturating_sub state.next_sequence 1;
  }
  | some oldest ↦ event_batch_from state cursor oldest
]

unfoldable pub events_after : OperationRegistry → EventSequence → EventBatch
unfolding event_batch
events_after r cursor = event_batch r.state cursor

abbrev pub last_sequence : EventSequence → List Event → EventSequence
last_sequence cursor [] = cursor
last_sequence cursor (e ∷ es) = last_sequence e.sequence es

-- `EventSubscription::next_batch` once its wait is over: the batch and the subscription's cursor.
unfoldable pub next_batch : OperationRegistry → EventSequence → EventBatch × EventSequence
unfolding event_batch
next_batch r cursor =
    let batch = event_batch r.state cursor in (batch, last_sequence cursor batch.events)

-- A call of the registry, and the registry that it leaves.
pub data Call : Type 0 where
  creates : NewOperation → Call
  starts : OperationId → Call
  progresses : OperationId → ℕ → Call
  finishes : OperationId → Completion → Call

unfoldable pub step : OperationRegistry → Call → OperationRegistry
step r (creates request) = (create r request).0
step r (starts id) = (start r id).0
step r (progresses id progress) = (set_progress r id progress).0
step r (finishes id c) = (finish r id c).0

unfoldable pub run : OperationRegistry → List Call → OperationRegistry
unfolding step
run r [] = r
run r (c ∷ cs) = run (step r c) cs
