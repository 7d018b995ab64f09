-- ===== src/Lifecycle/Plan/Transitions.antt =====
-- What an accepted plan says of the request, of the snapshot and of the state that it expects.
use kernmux.Prelude.{
  ◌≡◌, ◌≤◌, refl, sym, ap, ◌∙◌, Bool, true, false, not, List, [], ◌∷◌, Option, none, some, any,
  find, ◌==◌, ok, reject_if, map_err, ok_or, >>=-eq-ok, ok_or-eq-ok, reject_if-eq-ok, arith,
}
use kernmux.Api.{HostSnapshot, Instance, InstanceId, InstanceState, same_state, same_state_iff}
use kernmux.Lifecycle.Requests.{
  CreateRequest, ExpectedState, KerfInvocation, LifecyclePlanError, LifecycleRequest, UpdateRequest,
}
use kernmux.Placement.{validate_instance_cpus}
use kernmux.Lifecycle.Memory.{validate_create_memory}
use kernmux.Lifecycle.Checks.{validate_cpus, validate_id, validate_id_iff, validate_name}
use kernmux.Lifecycle.Plan.{
  expected_generation, create_invocation, cpu_arguments, device_arguments, is_taken,
  memory_arguments, nothing_selected, selects_nothing, zero_memory, update_invocation, plan_create,
  plan_update, require_instance, require_state,
}

-- The instance that a request is about, the state it requires, and the state it leads to.
abbrev pub target : LifecycleRequest → InstanceId
target (LifecycleRequest.create request) = request.id
target (LifecycleRequest.update request) = request.instance_request.id
target (LifecycleRequest.load request) = request.instance_request.id
target (LifecycleRequest.start request) = request.id
target (LifecycleRequest.stop request) = request.instance_request.id
target (LifecycleRequest.unload request) = request.id
target (LifecycleRequest.delete request) = request.id

abbrev pub source_state : LifecycleRequest → InstanceState
source_state (LifecycleRequest.create _) = InstanceState.absent
source_state (LifecycleRequest.update _) = InstanceState.ready
source_state (LifecycleRequest.load _) = InstanceState.ready
source_state (LifecycleRequest.start _) = InstanceState.loaded
source_state (LifecycleRequest.stop _) = InstanceState.active
source_state (LifecycleRequest.unload _) = InstanceState.loaded
source_state (LifecycleRequest.delete _) = InstanceState.ready

abbrev pub final_state : LifecycleRequest → InstanceState
final_state (LifecycleRequest.create _) = InstanceState.ready
final_state (LifecycleRequest.update _) = InstanceState.ready
final_state (LifecycleRequest.load _) = InstanceState.loaded
final_state (LifecycleRequest.start _) = InstanceState.active
final_state (LifecycleRequest.stop _) = InstanceState.loaded
final_state (LifecycleRequest.unload _) = InstanceState.ready
final_state (LifecycleRequest.delete _) = InstanceState.absent

-- The state of an id in a snapshot; a missing instance is absent.
abbrev state_or_absent : Option Instance → InstanceState
state_or_absent none = InstanceState.absent
state_or_absent (some i) = i.state

pub state_in : HostSnapshot → InstanceId → InstanceState
state_in snapshot id = state_or_absent (find (λ i. i.id == id) snapshot.instances)

-- The instance and the state that an expectation names.
abbrev pub expected_id : ExpectedState → Option InstanceId
expected_id (ExpectedState.instance_state id state) = some id
expected_id (ExpectedState.instance_resources expected) = some expected.id
expected_id (ExpectedState.resource_pool _ _) = none
expected_id (ExpectedState.absent id) = some id

abbrev pub expected_instance_state : ExpectedState → Option InstanceState
expected_instance_state (ExpectedState.instance_state id state) = some state
expected_instance_state (ExpectedState.instance_resources expected) = some expected.state
expected_instance_state (ExpectedState.resource_pool _ _) = none
expected_instance_state (ExpectedState.absent id) = some InstanceState.absent

abbrev pub is_dry_run : LifecycleRequest → Bool
is_dry_run (LifecycleRequest.update request) = request.dry_run
is_dry_run _ = false

-- An accepted request is one step of the instance's state machine.
pub record IsTransition (request : LifecycleRequest) (snapshot : HostSnapshot)
    (invocation : KerfInvocation) : Type 0 where
  pub fresh : expected_generation request ≡ snapshot.generation
  pub id_bounds : (1 ≤ target request) × (target request ≤ 511)
  pub from : state_in snapshot (target request) ≡ source_state request
  pub names : expected_id invocation.expected_state ≡ some (target request)
  pub to : expected_instance_state invocation.expected_state ≡ some (final_state request)
  pub mutates : invocation.mutates_kernel ≡ not (is_dry_run request)

require_instance-state :
    (snapshot : HostSnapshot) (id : InstanceId) (required : InstanceState) (found : Instance)
    → require_instance snapshot id required ≡ ok found
    → ((1 ≤ id) × (id ≤ 511)) × (state_in snapshot id ≡ required)
unfolding require_instance state_in
require_instance-state snapshot id required found h =
    let (u, checked, h1) = >>=-eq-ok (validate_id id) _ h in
    let (i, looked_up, h2) =
      >>=-eq-ok (ok_or (find (λ i. i.id == id) snapshot.instances) LifecyclePlanError.not_found) _
        h1 in
    let (v, tested, h3) =
      >>=-eq-ok
        (reject_if (not (same_state i.state required))
          (LifecyclePlanError.invalid_state required i.state))
        _ h2 in
    let same : same_state i.state required ≡ true = ground (arith, reject_if-eq-ok _ _ tested) in
    (
      (validate_id_iff id).0 checked,
      ap state_or_absent (ok_or-eq-ok _ _ looked_up) ∙ (same_state_iff i.state required).0 same,
    )

pub require_state-ok :
    (snapshot : HostSnapshot) (id : InstanceId) (required : InstanceState) (u : Unit {0})
    → require_state snapshot id required ≡ ok u
    → ((1 ≤ id) × (id ≤ 511)) × (state_in snapshot id ≡ required)
unfolding require_state
require_state-ok snapshot id required u h =
    let (found, e, k) = >>=-eq-ok (require_instance snapshot id required) _ h in
    require_instance-state snapshot id required found e

not_taken :
    (request : CreateRequest) (xs : List Instance)
    → any (is_taken request) xs ≡ false
    → find (λ i. i.id == request.id) xs ≡ none
not_taken request [] h = refl
not_taken request (x ∷ xs) h = ground (arith, not_taken request xs)

pub plan_create-IsTransition :
    (request : CreateRequest) (snapshot : HostSnapshot) (invocation : KerfInvocation)
    → request.expected_generation ≡ snapshot.generation
    → plan_create request snapshot ≡ ok invocation
    → IsTransition (LifecycleRequest.create request) snapshot invocation
unfolding plan_create create_invocation state_in
plan_create-IsTransition request snapshot invocation g h =
    let (_, _, h1) = >>=-eq-ok (validate_name request.name) _ h in
    let (_, bounds, h2) = >>=-eq-ok (validate_id request.id) _ h1 in
    let (_, _, h3) = >>=-eq-ok (validate_cpus request.cpu_hardware_ids) _ h2 in
    let (_, _, h4) =
      >>=-eq-ok
        (map_err LifecyclePlanError.cpu_placement
          (validate_instance_cpus snapshot request.cpu_hardware_ids []))
        _ h3 in
    let (_, _, h5) = >>=-eq-ok (reject_if (request.memory_bytes == 0) zero_memory) _ h4 in
    let (_, taken, h6) =
      >>=-eq-ok
        (reject_if (any (is_taken request) snapshot.instances) LifecyclePlanError.already_exists) _
        h5 in
    let (_, _, made) =
      >>=-eq-ok
        (map_err LifecyclePlanError.memory_placement
          (validate_create_memory snapshot request.memory_bytes))
        _ h6 in
    let is : create_invocation request ≡ invocation = cc in
    record {
      fresh = g;
      id_bounds = (validate_id_iff request.id).0 bounds;
      from = ap state_or_absent (not_taken request snapshot.instances (reject_if-eq-ok _ _ taken));
      names = ap (λ i. expected_id i.expected_state) (sym is);
      to = ap (λ i. expected_instance_state i.expected_state) (sym is);
      mutates = ap (λ i. i.mutates_kernel) (sym is);
    }

pub plan_update-IsTransition :
    (request : UpdateRequest) (snapshot : HostSnapshot) (invocation : KerfInvocation)
    → request.instance_request.expected_generation ≡ snapshot.generation
    → plan_update request snapshot ≡ ok invocation
    → IsTransition (LifecycleRequest.update request) snapshot invocation
unfolding plan_update update_invocation
plan_update-IsTransition request snapshot invocation g h =
    let (found, present, h1) =
      >>=-eq-ok (require_instance snapshot request.instance_request.id InstanceState.ready) _ h in
    let (_, _, h2) = >>=-eq-ok (validate_name found.name) _ h1 in
    let (_, _, h3) = >>=-eq-ok (reject_if (selects_nothing request) nothing_selected) _ h2 in
    let (cpus, _, h4) = >>=-eq-ok (cpu_arguments snapshot found request.cpu_hardware_ids) _ h3 in
    let (memory, _, h5) = >>=-eq-ok (memory_arguments snapshot found request.memory_bytes) _ h4 in
    let (devices, _, made) = >>=-eq-ok (device_arguments snapshot found request.device_ids) _ h5 in
    let is : update_invocation request found cpus memory devices ≡ invocation = cc in
    let (bounds, state) =
      require_instance-state snapshot request.instance_request.id InstanceState.ready found
        present in
    record {
      fresh = g;
      id_bounds = bounds;
      from = state;
      names = ap (λ i. expected_id i.expected_state) (sym is);
      to = ap (λ i. expected_instance_state i.expected_state) (sym is);
      mutates = ap (λ i. i.mutates_kernel) (sym is);
    }
