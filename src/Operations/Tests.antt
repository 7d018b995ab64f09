-- ===== src/Operations/Tests.antt =====
-- Runs of the registry on small inputs.
use kernmux.Prelude.{◌≡◌, ◌+◌, ◌⊎◌, refl, true, false, none, some, List, [], ◌∷◌, ok, arith}
use kernmux.Prelude.Text.{text, decimal}
use kernmux.Prelude.Order.{bytes_ord, compare_bytes}
use kernmux.Api.{Operation, OperationKind, OperationState, same_operation_state}
use kernmux.Operations.{
  Call, Completion, NewOperation, OperationRegistry, advance_generation, finish_mutation,
  finish_update, new_operation, operation_event, operation_id, publish_operation_event,
  push_bounded, start_mutation, update, update_first, create, events_after, finish, get,
  is_terminal, new, next_batch, run, start, step,
}
use kernmux.Operations.Invariant.{Inv}
use kernmux.Operations.Invariant.Calls.{run-new-Inv}
use kernmux.Operations.History.Methods.{started}
use kernmux.Operations.History.Completion.{finished}
use kernmux.Operations.History.Finality.{IsSettled, terminal_is_final}
use kernmux.Operations.Stream.{IsComplete, IsContiguous, IsCut, events_after_lem}
use kernmux.Operations.Stream.Subscription.{next_batch_catches_up}

abbrev request : NewOperation
request = record {
  kind = OperationKind.start_instance;
  expected_generation = 7;
  affected_resources = [];
  actor = none;
  audit_id = none;
  created_at = text "t0";
}

abbrev done : Completion
done = record {
  state = OperationState.succeeded;
  observed_generation = some 8;
  error = none;
  completed_at = text "t1";
}

abbrev empty : OperationRegistry
empty = record {
  state = record {
    next_operation = 1;
    next_sequence = 1;
    latest_generation = 0;
    operations = [];
    events = [];
  };
  operation_capacity = 2;
  event_capacity = 3;
}

empty-new : new 2 3 ≡ ok empty
unfolding new
empty-new = refl

-- One operation that has run to its end, and one that is queued.
abbrev calls : List Call
calls =
    Call.creates request
    ∷ Call.starts (text "op-1")
    ∷ Call.finishes (text "op-1") done
    ∷ Call.creates request
    ∷ []

abbrev used : OperationRegistry
used = run empty calls

used-Inv : Inv used
used-Inv = run-new-Inv 2 3 empty calls empty-new (omega arith)

run-new-Inv_example : Inv (run empty calls)
run-new-Inv_example = run-new-Inv 2 3 empty calls empty-new (omega arith)

first_found : get used (text "op-1") ≡ some (finished done (started (create empty request).1))
unfolding get run step create start finish update update_first finish_update start_mutation
    finish_mutation publish_operation_event operation_event advance_generation push_bounded
    new_operation operation_id text decimal same_operation_state is_terminal compare_bytes
first_found = refl

-- The second operation, still queued.
abbrev second : Operation
second = new_operation 2 request

second_found : get used (text "op-2") ≡ some second
unfolding get run step create start finish update update_first finish_update start_mutation
    finish_mutation publish_operation_event operation_event advance_generation push_bounded
    new_operation operation_id text decimal same_operation_state is_terminal compare_bytes
second_found = refl

second_queued : second.state ≡ OperationState.queued
unfolding new_operation
second_queued = refl

counters : (used.next_sequence ≡ 5) × (used.next_operation ≡ 3)
unfolding get run step create start finish update update_first finish_update start_mutation
    finish_mutation publish_operation_event operation_event advance_generation push_bounded
    new_operation operation_id text decimal same_operation_state is_terminal compare_bytes
counters = (refl, refl)

first_done : is_terminal (finished done (started (create empty request).1)).state ≡ true
unfolding is_terminal
first_done = refl

-- A late start and a late progress report of the finished operation, and of the other one.
abbrev later : List Call
later = Call.starts (text "op-1") ∷ Call.progresses (text "op-2") 40 ∷ Call.creates request ∷ []

terminal_is_final_example :
    IsSettled (run used later) (text "op-1") (finished done (started (create empty request).1))
terminal_is_final_example =
    terminal_is_final used later (text "op-1") (finished done (started (create empty request).1))
      used-Inv first_found first_done (omega (arith, counters.0)) (omega (arith, counters.1))

events_after_lem_example :
    (IsComplete used 2 (events_after used 2) ⊎ IsCut used 2 (events_after used 2))
    × IsContiguous (events_after used 2).events
events_after_lem_example =
    events_after_lem used 2 used-Inv (omega (arith, counters.0)) (omega (arith, counters.0))

next_batch_catches_up_example :
    let cursor' = (next_batch used 2).1 in
    (cursor' ≡ (next_batch used 2).0.latest_sequence)
    × (cursor' + 1 ≡ used.next_sequence)
    × ((next_batch used cursor').0.events ≡ [])
next_batch_catches_up_example =
    next_batch_catches_up used 2 used-Inv (omega (arith, counters.0)) (omega (arith, counters.0))

distinct_tests : false ≡ true → ⊥
distinct_tests h = cc
