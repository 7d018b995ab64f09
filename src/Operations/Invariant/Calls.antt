-- ===== src/Operations/Invariant/Calls.antt =====
-- Every call of the registry keeps its invariant.
use kernmux.Prelude.{
  ℕ, suc, ◌+◌, ◌≤◌, ◌<◌, ◌≡◌, ◌⊎◌, inl, inr, refl, ap, ◌∙◌, Option, none, some, List, [], ◌∷◌,
  length, All, arith, Result, ok, err, u64_max, saturating_add, Bool-cases,
}
use kernmux.Prelude.Order.{same, bytes_ord}
use kernmux.Api.{Operation, OperationId}
use kernmux.Operations.{
  keep_front, Call, creates, starts, progresses, finishes, Completion, Mutation, NewOperation,
  OperationRegistry, OperationRegistryError, advance_generation, create, finish, finish_mutation,
  finish_update, new, new_operation, progress_mutation, publish_operation_event, push_bounded, run,
  set_progress, start, start_mutation, step, update, update_first,
}
use kernmux.Operations.Invariant.{Numbered, IsWellFormed, Inv, new-Inv}
use kernmux.Operations.Invariant.Queue.{
  length-push_bounded, Numbered-push_bounded, All-push_bounded, publish-Inv,
}

-- What a mutation of an operation has to keep.
abbrev Keeps : Mutation → Type 0
Keeps m = (o : Operation) → ((m o).0.id ≡ o.id) × (IsWellFormed o → IsWellFormed (m o).0)

start-Keeps : Keeps start_mutation
unfolding start_mutation
start-Keeps o = ground arith

progress-Keeps : (p : ℕ) → Keeps (progress_mutation p)
unfolding progress_mutation
progress-Keeps p o = ground arith

finish-Keeps : (c : Completion) → Keeps (finish_mutation c)
unfolding finish_mutation
finish-Keeps c o = ground arith

-- What a changed list of operations has to keep of the list that it stands for.
abbrev Replaces :
    List Operation
    → Option (Operation × Result (Unit {0}) OperationRegistryError × List Operation)
    → Type 0
Replaces os none = Unit
Replaces os (some (_, _, os')) =
    (length os' ≡ length os)
    × ((n : ℕ) → Numbered n os → Numbered n os')
    × (All IsWellFormed os → All IsWellFormed os')

update_first-Replaces :
    (id : OperationId) (m : Mutation) (os : List Operation)
    → Keeps m
    → Replaces os (update_first id m os)
unfolding update_first
update_first-Replaces id m [] k = tt
update_first-Replaces id m (o ∷ os) k = elim (Bool-cases (same o.id id)) [
  | inl hit ↦ rw (hit, update_first) (refl, λ n h. ((k o).0 ∙ h.0, h.1), λ h. ((k o).1 h.0, h.1))
  | inr miss ↦
      rw (miss, update_first)
        (keep_front-Replaces (update_first id m os) (update_first-Replaces id m os k))
]
  where
    keep_front-Replaces :
        (u : Option (Operation × Result (Unit {0}) OperationRegistryError × List Operation))
        → Replaces os u
        → Replaces (o ∷ os) (keep_front o u)
    keep_front-Replaces none h = tt
    keep_front-Replaces (some (c, e, os')) h =
        (ap suc h.0, λ n g. (g.0, h.1 (suc n) g.1), λ g. (g.0, h.2 g.1))

finish_update-Inv :
    (r : OperationRegistry)
    (u : Option (Operation × Result (Unit {0}) OperationRegistryError × List Operation))
    → Inv r
    → r.next_sequence < u64_max
    → Replaces r.operations u
    → Inv (finish_update r u).0
unfolding finish_update
finish_update-Inv r none v h k = v
finish_update-Inv r (some (changed, err e, os)) v h k = record {
  operations_bounded = omega (arith, k.0, v.operations_bounded);
  events_bounded = v.events_bounded;
  operation_room = v.operation_room;
  event_room = v.event_room;
  first_operation = v.first_operation;
  operations_counted = omega (arith, k.0, v.operations_counted);
  numbered = k.1 v.first_operation v.numbered;
  well_formed = k.2 v.well_formed;
  first_event = v.first_event;
  events_positive = v.events_positive;
  nothing_dropped = v.nothing_dropped;
  events_counted = v.events_counted;
  chained = v.chained;
}
finish_update-Inv r (some (changed, ok _, os)) v h k =
    publish-Inv r r.next_operation os v.first_operation changed v h
      (omega (arith, k.0, v.operations_bounded)) (omega (arith, k.0, v.operations_counted))
      (k.1 v.first_operation v.numbered) (k.2 v.well_formed)

update-Inv :
    (r : OperationRegistry) (id : OperationId) (m : Mutation)
    → Keeps m
    → Inv r
    → r.next_sequence < u64_max
    → Inv (update r id m).0
unfolding update
update-Inv r id m k v h =
    finish_update-Inv r (update_first id m r.operations) v h
      (update_first-Replaces id m r.operations k)

new_operation-IsWellFormed :
    (n : ℕ) (request : NewOperation) → IsWellFormed (new_operation n request)
unfolding new_operation
new_operation-IsWellFormed n request = (tt, (refl, refl, refl))

create-Inv :
    (r : OperationRegistry) (request : NewOperation)
    → Inv r
    → r.next_sequence < u64_max
    → r.next_operation < u64_max
    → Inv (create r request).0
unfolding create
create-Inv r request v h k =
    let o : Operation = new_operation r.next_operation request in
    let (n, counted, numbered) =
      Numbered-push_bounded r.operation_capacity v.first_operation r.next_operation r.operations o
        v.numbered v.operations_counted (unfold new_operation in refl) in
    publish-Inv r (saturating_add r.next_operation 1)
      (push_bounded r.operation_capacity r.operations o) n o v h
      (length-push_bounded r.operation_capacity r.operations o v.operation_room
        v.operations_bounded)
      (ground arith) numbered
      (All-push_bounded IsWellFormed r.operation_capacity r.operations o v.well_formed
        (new_operation-IsWellFormed r.next_operation request))

-- Every call keeps the invariant, as long as the two counters do not saturate.
pub step-Inv :
    (r : OperationRegistry) (c : Call)
    → Inv r
    → r.next_sequence < u64_max
    → r.next_operation < u64_max
    → Inv (step r c)
unfolding step start set_progress finish
step-Inv r (creates request) v h k = create-Inv r request v h k
step-Inv r (starts id) v h k = update-Inv r id start_mutation start-Keeps v h
step-Inv r (progresses id p) v h k = update-Inv r id (progress_mutation p) (progress-Keeps p) v h
step-Inv r (finishes id c) v h k = update-Inv r id (finish_mutation c) (finish-Keeps c) v h

-- How far one call moves the counters, and what it leaves alone.
pub record Advances (r r' : OperationRegistry) : Type 0 where
  pub sequence_step : r'.next_sequence ≤ r.next_sequence + 1
  pub operation_step : r'.next_operation ≤ r.next_operation + 1
  pub operation_grows : r.next_operation ≤ r'.next_operation ⊎ (r'.next_operation ≡ u64_max)
  pub generation_grows : r.latest_generation ≤ r'.latest_generation

finish_update-Advances :
    (r : OperationRegistry)
    (u : Option (Operation × Result (Unit {0}) OperationRegistryError × List Operation))
    → Advances r (finish_update r u).0
unfolding finish_update publish_operation_event advance_generation
finish_update-Advances r none = ground arith
finish_update-Advances r (some (changed, err e, os)) = ground arith
finish_update-Advances r (some (changed, ok _, os)) = ground arith

pub step-Advances : (r : OperationRegistry) (c : Call) → Advances r (step r c)
unfolding step start set_progress finish update create publish_operation_event advance_generation
step-Advances r (creates request) = ground arith
step-Advances r (starts id) = finish_update-Advances r (update_first id start_mutation r.operations)
step-Advances r (progresses id p) =
    finish_update-Advances r (update_first id (progress_mutation p) r.operations)
step-Advances r (finishes id c) =
    finish_update-Advances r (update_first id (finish_mutation c) r.operations)

run-Inv :
    (r : OperationRegistry) (cs : List Call)
    → Inv r
    → r.next_sequence + length cs ≤ u64_max
    → r.next_operation + length cs ≤ u64_max
    → Inv (run r cs)
unfolding run
run-Inv r [] v h k = v
run-Inv r (c ∷ cs) v h k =
    let a : Advances r (step r c) = step-Advances r c in
    run-Inv (step r c) cs (step-Inv r c v (omega arith) (omega arith))
      (omega (arith, a.sequence_step)) (omega (arith, a.operation_step))

new-counters :
    (a b : ℕ) (r : OperationRegistry)
    → new a b ≡ ok r
    → (r.next_sequence ≡ 1) × (r.next_operation ≡ 1)
unfolding new
new-counters a b r e = ground arith

-- Whatever calls are made of a new registry, fewer than 2^64 - 1 of them, its history and its stream
-- stay within their capacities, the retained operations are numbered consecutively up to the next
-- number, each has the fields of its execution state, and the retained events are numbered
-- consecutively up to the next sequence number with generations that never fall.
pub run-new-Inv :
    (a b : ℕ) (r : OperationRegistry) (cs : List Call)
    → new a b ≡ ok r
    → length cs < u64_max
    → Inv (run r cs)
run-new-Inv a b r cs e h =
    let (s, o) = new-counters a b r e in run-Inv r cs (new-Inv a b r e) (omega arith) (omega arith)
