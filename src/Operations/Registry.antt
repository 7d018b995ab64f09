-- ===== src/Operations/Registry.antt =====
-- The state of the registry: its history and event queues, `new` and `create` of operations.rs.
use kernmux.Prelude.{
  ℕ, Bool, ◌||◌, Option, none, some, List, [], ◌∷◌, ◌++◌, length, ltb, ◌==◌, if◌then◌else◌, Result,
  ok, err, saturating_add,
}
use kernmux.Prelude.Text.{Text, text, decimal}
use kernmux.Prelude.Order.{bytes_ord}
use kernmux.Api.{
  Actor, Event, EventKind, EventSequence, Generation, Operation, OperationId, OperationKind,
  OperationState, ResourceReference,
}

-- Immutable fields supplied when an asynchronous operation is accepted.
pub record NewOperation : Type 0 where
  pub kind : OperationKind
  pub expected_generation : Generation
  pub affected_resources : List ResourceReference
  pub actor : Option Actor
  pub audit_id : Option Text
  pub created_at : Text

-- Bounded event read from a monotonic sequence cursor.
pub record EventBatch : Type 0 where
  pub events : List Event
  pub overflowed : Bool
  pub latest_sequence : EventSequence

pub data OperationRegistryError : Type 0 where
  invalid_capacity not_found invalid_transition invalid_progress : OperationRegistryError

pub record RegistryState : Type 0 where
  pub next_operation : ℕ
  pub next_sequence : ℕ
  pub latest_generation : Generation
  pub operations : List Operation
  pub events : List Event

-- `Shared`: the state behind the mutex and the two capacities.
pub record OperationRegistry : Type 0 where
  pub state : RegistryState
  pub open state use *
  pub operation_capacity : ℕ
  pub event_capacity : ℕ

unfoldable pub new : ℕ → ℕ → Result OperationRegistry OperationRegistryError
new operation_capacity event_capacity =
    if operation_capacity == 0 || event_capacity == 0
    then err OperationRegistryError.invalid_capacity
    else ok (record {
      state = record {
        next_operation = 1;
        next_sequence = 1;
        latest_generation = 0;
        operations = [];
        events = [];
      };
      operation_capacity = operation_capacity;
      event_capacity = event_capacity;
    })

-- `VecDeque::pop_front` and `Iterator::next`.
abbrev pub pop_front {ℓ} : {A : Type ℓ} → List A → List A
pop_front [] = []
pop_front (x ∷ xs) = xs

abbrev pub first {ℓ} : {A : Type ℓ} → List A → Option A
first [] = none
first (x ∷ xs) = some x

-- `if queue.len() == capacity { queue.pop_front(); } queue.push_back(item);`.
unfoldable pub push_bounded {ℓ} : {A : Type ℓ} → ℕ → List A → A → List A
push_bounded capacity xs x = (if length xs == capacity then pop_front xs else xs) ++ x ∷ []

abbrev pub unwrap_or {ℓ} : {A : Type ℓ} → Option A → A → A
unwrap_or none d = d
unwrap_or (some a) d = a

unfoldable pub advance_generation : Generation → Operation → Generation
advance_generation latest operation =
    let generation = unwrap_or operation.observed_generation operation.expected_generation in
    if ltb latest generation then generation else latest

unfoldable pub operation_event : RegistryState → Operation → Event
unfolding advance_generation
operation_event state operation = record {
  sequence = state.next_sequence;
  snapshot_generation = advance_generation state.latest_generation operation;
  kind = EventKind.operation_changed;
  resource = first operation.affected_resources;
}

unfoldable pub publish_operation_event : ℕ → RegistryState → Operation → RegistryState
unfolding operation_event advance_generation push_bounded
publish_operation_event event_capacity state operation = record state {
  latest_generation = advance_generation state.latest_generation operation;
  next_sequence = saturating_add state.next_sequence 1;
  events = push_bounded event_capacity state.events (operation_event state operation);
}

-- `OperationId(format!("op-{n}"))`.
unfoldable pub operation_id : ℕ → OperationId
unfolding text decimal
operation_id n = text "op-" ++ decimal n

unfoldable pub new_operation : ℕ → NewOperation → Operation
unfolding operation_id
new_operation n request = record {
  id = operation_id n;
  kind = request.kind;
  state = OperationState.queued;
  progress_percent = none;
  expected_generation = request.expected_generation;
  observed_generation = none;
  affected_resources = request.affected_resources;
  error = none;
  actor = request.actor;
  audit_id = request.audit_id;
  created_at = request.created_at;
  completed_at = none;
}

unfoldable pub create : OperationRegistry → NewOperation → OperationRegistry × Operation
unfolding new_operation publish_operation_event push_bounded
create r request =
    let operation = new_operation r.next_operation request in
    let accepted = record r.state {
      next_operation = saturating_add r.next_operation 1;
      operations = push_bounded r.operation_capacity r.operations operation;
    } in
    (record r { state = publish_operation_event r.event_capacity accepted operation }, operation)
