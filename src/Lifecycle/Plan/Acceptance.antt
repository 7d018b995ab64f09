-- ===== src/Lifecycle/Plan/Acceptance.antt =====
-- Every accepted plan is one step of the state machine of its instance.
use kernmux.Prelude.{
  ◌≡◌, ◌≤◌, sym, ap, ◌∙◌, true, not, some, ◌==◌, ok, reject_if, >>=-eq-ok, reject_if-eq-ok, arith,
}
use kernmux.Api.{HostSnapshot, InstanceId, InstanceState, same_state}
use kernmux.Lifecycle.Requests.{
  InstanceRequest, KerfInvocation, LifecyclePlanError, LifecycleRequest, LoadRequest, StopRequest,
}
use kernmux.Prelude.Text.{Text, text}
use kernmux.Lifecycle.Checks.{is_empty}
use kernmux.Lifecycle.Plan.{
  expected_generation, initrd_arguments, load_invocation, no_kernel, state_expectation,
  state_invocation, stop_invocation, dispatch, plan, plan_load, plan_state_command, plan_stop,
  require_state,
}
use kernmux.Lifecycle.Plan.Transitions.{
  state_in, expected_id, expected_instance_state, IsTransition, require_state-ok,
  plan_create-IsTransition, plan_update-IsTransition,
}

plan_load-IsTransition :
    (request : LoadRequest) (snapshot : HostSnapshot) (invocation : KerfInvocation)
    → request.instance_request.expected_generation ≡ snapshot.generation
    → plan_load request snapshot ≡ ok invocation
    → IsTransition (LifecycleRequest.load request) snapshot invocation
unfolding plan_load load_invocation
plan_load-IsTransition request snapshot invocation g h =
    let (u, required, h1) =
      >>=-eq-ok (require_state snapshot request.instance_request.id InstanceState.ready) _ h in
    let (_, _, h2) = >>=-eq-ok (reject_if (is_empty request.kernel) no_kernel) _ h1 in
    let (initrd, _, made) = >>=-eq-ok (initrd_arguments request.initrd) _ h2 in
    let is : load_invocation request initrd ≡ invocation = cc in
    let (bounds, state) =
      require_state-ok snapshot request.instance_request.id InstanceState.ready u required in
    record {
      fresh = g;
      id_bounds = bounds;
      from = state;
      names = ap (λ i. expected_id i.expected_state) (sym is);
      to = ap (λ i. expected_instance_state i.expected_state) (sym is);
      mutates = ap (λ i. i.mutates_kernel) (sym is);
    }

plan_stop-IsTransition :
    (request : StopRequest) (snapshot : HostSnapshot) (invocation : KerfInvocation)
    → request.instance_request.expected_generation ≡ snapshot.generation
    → plan_stop request snapshot ≡ ok invocation
    → IsTransition (LifecycleRequest.stop request) snapshot invocation
unfolding plan_stop stop_invocation
plan_stop-IsTransition request snapshot invocation g h =
    let (u, required, made) =
      >>=-eq-ok (require_state snapshot request.instance_request.id InstanceState.active) _ h in
    let is : stop_invocation request ≡ invocation = cc in
    let (bounds, state) =
      require_state-ok snapshot request.instance_request.id InstanceState.active u required in
    record {
      fresh = g;
      id_bounds = bounds;
      from = state;
      names = ap (λ i. expected_id i.expected_state) (sym is);
      to = ap (λ i. expected_instance_state i.expected_state) (sym is);
      mutates = ap (λ i. i.mutates_kernel) (sym is);
    }

-- What a state command expects, whichever the two states are.
expected_after :
    (id : InstanceId) (expected : InstanceState)
    → (expected_id (state_expectation id expected) ≡ some id)
      × (expected_instance_state (state_expectation id expected) ≡ some expected)
unfolding same_state
expected_after id expected = ground arith

plan_state_command-ok :
    (command : Text) (request : InstanceRequest) (snapshot : HostSnapshot)
    (required expected : InstanceState) (invocation : KerfInvocation)
    → plan_state_command command request snapshot required expected ≡ ok invocation
    → (((1 ≤ request.id) × (request.id ≤ 511)) × (state_in snapshot request.id ≡ required))
      × (expected_id invocation.expected_state ≡ some request.id)
      × (expected_instance_state invocation.expected_state ≡ some expected)
      × (invocation.mutates_kernel ≡ true)
unfolding plan_state_command state_invocation
plan_state_command-ok command request snapshot required expected invocation h =
    let (u, allowed, made) = >>=-eq-ok (require_state snapshot request.id required) _ h in
    let is : state_invocation command request expected ≡ invocation = cc in
    let (names, to) = expected_after request.id expected in
    (
      require_state-ok snapshot request.id required u allowed,
      ap (λ i. expected_id i.expected_state) (sym is) ∙ names,
      ap (λ i. expected_instance_state i.expected_state) (sym is) ∙ to,
      ap (λ i. i.mutates_kernel) (sym is),
    )

dispatch-IsTransition :
    (request : LifecycleRequest) (snapshot : HostSnapshot) (invocation : KerfInvocation)
    → expected_generation request ≡ snapshot.generation
    → dispatch request snapshot ≡ ok invocation
    → IsTransition request snapshot invocation
unfolding dispatch
dispatch-IsTransition (LifecycleRequest.create request) s i g h =
    plan_create-IsTransition request s i g h
dispatch-IsTransition (LifecycleRequest.update request) s i g h =
    plan_update-IsTransition request s i g h
dispatch-IsTransition (LifecycleRequest.load request) s i g h =
    plan_load-IsTransition request s i g h
dispatch-IsTransition (LifecycleRequest.stop request) s i g h =
    plan_stop-IsTransition request s i g h
dispatch-IsTransition (LifecycleRequest.start request) s i g h =
    let ((bounds, state), names, to, mutates) =
      plan_state_command-ok (text "exec") request s InstanceState.loaded InstanceState.active i h in
    record {
      fresh = g;
      id_bounds = bounds;
      from = state;
      names = names;
      to = to;
      mutates = mutates;
    }
dispatch-IsTransition (LifecycleRequest.unload request) s i g h =
    let ((bounds, state), names, to, mutates) =
      plan_state_command-ok (text "unload") request s InstanceState.loaded InstanceState.ready i
        h in
    record {
      fresh = g;
      id_bounds = bounds;
      from = state;
      names = names;
      to = to;
      mutates = mutates;
    }
dispatch-IsTransition (LifecycleRequest.delete request) s i g h =
    let ((bounds, state), names, to, mutates) =
      plan_state_command-ok (text "delete") request s InstanceState.ready InstanceState.absent i
        h in
    record {
      fresh = g;
      id_bounds = bounds;
      from = state;
      names = names;
      to = to;
      mutates = mutates;
    }

-- A plan is accepted only for the snapshot's own generation and an id between 1 and 511; the
-- instance is then in the state that the command needs, and the state the plan expects is the
-- command's state for that same instance. The kernel is changed unless the update is a dry run.
pub plan-IsTransition :
    (request : LifecycleRequest) (snapshot : HostSnapshot) (invocation : KerfInvocation)
    → plan request snapshot ≡ ok invocation
    → IsTransition request snapshot invocation
unfolding plan
plan-IsTransition request snapshot invocation h =
    let (_, fresh, h1) =
      >>=-eq-ok
        (reject_if (not (expected_generation request == snapshot.generation))
          (LifecyclePlanError.stale_generation (expected_generation request) snapshot.generation))
        _ h in
    dispatch-IsTransition request snapshot invocation (ground (arith, reject_if-eq-ok _ _ fresh)) h1
