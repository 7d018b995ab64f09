-- ===== src/Lifecycle/Tests.antt =====
-- Requests for the sample host.
use kernmux.Prelude.{◌+◌, ◌≡◌, ◌≤◌, ◌↔◌, inl, refl, some, [], ◌∷◌, map, Any, ok, arith, u64_max}
use kernmux.Prelude.Text.{text, decimal}
use kernmux.Prelude.Order.{nat_ord, bytes_ord, compare_bytes}
use kernmux.Prelude.TreeSet.{collect, contains, insert}
use kernmux.Api.{InstanceState, same_state}
use kernmux.Sample.{alpha, host}
use kernmux.Placement.{refuse_found, validate_instance_cpus}
use kernmux.Lifecycle.Requests.{CreateRequest, InstanceRequest, KerfInvocation, LifecycleRequest}
use kernmux.Lifecycle.Checks.{IsSafeName, is_valid_name, validate_cpus, validate_id, validate_name}
use kernmux.Lifecycle.Memory.{
  check_growth, check_peer, check_room, checked_sum, checked_sum_from, holds_range,
  validate_create_memory, validate_update_memory,
}
use kernmux.Lifecycle.Memory.Capacity.{assigned_bytes, pool_bytes, validate_create_memory_iff}
use kernmux.Lifecycle.Memory.Separation.{
  ArePairwise, HaveOtherIds, IsApart, accepted_size_separates, resize,
}
use kernmux.Lifecycle.Devices.{validate_update_devices}
use kernmux.Lifecycle.Devices.Ownership.{IsDeviceGrant, validate_update_devices_iff}
use kernmux.Lifecycle.Plan.{
  create_invocation, dispatch, plan, plan_create, plan_state_command, require_instance,
  require_state, state_invocation,
}
use kernmux.Lifecycle.Plan.Transitions.{IsTransition}
use kernmux.Lifecycle.Plan.Acceptance.{plan-IsTransition}
use kernmux.Lifecycle.Plan.Creation.{created, plan_create-read, read_create}

abbrev gamma : CreateRequest
gamma = record {
  expected_generation = 7;
  id = 3;
  name = text "gamma";
  cpu_hardware_ids = 6 ∷ 5 ∷ [];
  memory_bytes = 1024;
}

gamma_planned : plan_create gamma host ≡ ok (create_invocation gamma)
unfolding plan_create validate_name is_valid_name validate_id validate_cpus validate_instance_cpus
    validate_create_memory refuse_found check_room checked_sum checked_sum_from collect insert
    contains text compare_bytes
gamma_planned = refl

plan_create-read_example :
    (read_create (create_invocation gamma).arguments ≡ some (created gamma)) × IsSafeName gamma.name
plan_create-read_example = plan_create-read gamma host (create_invocation gamma) gamma_planned

abbrev start_beta : InstanceRequest
start_beta = record { expected_generation = 7; id = 2 }

abbrev beta_started : KerfInvocation
beta_started = state_invocation (text "exec") start_beta InstanceState.active

start_planned : plan (LifecycleRequest.start start_beta) host ≡ ok beta_started
unfolding plan dispatch plan_state_command require_state require_instance validate_id same_state
    state_invocation text decimal
start_planned = refl

plan-IsTransition_example : IsTransition (LifecycleRequest.start start_beta) host beta_started
plan-IsTransition_example =
    plan-IsTransition (LifecycleRequest.start start_beta) host beta_started start_planned

gamma_named : validate_name (text "gamma-1.x") ≡ ok tt
unfolding validate_name is_valid_name text
gamma_named = refl

validate_create_memory_iff_example : (validate_create_memory host 1024 ≡ ok tt) ↔ (
    (pool_bytes host ≤ u64_max)
    × (assigned_bytes host ≤ u64_max)
    × (assigned_bytes host + 1024 ≤ pool_bytes host)
    × Any (λ region. 1024 ≤ region.bytes) host.resource_pool.memory_regions)
validate_create_memory_iff_example = validate_create_memory_iff host 1024 (omega arith)

alpha_grows : validate_update_memory host alpha 3000 ≡ ok tt
unfolding validate_update_memory check_growth holds_range check_peer
alpha_grows = refl

other_ids : ArePairwise HaveOtherIds host.instances
other_ids = ground arith

apart : ArePairwise IsApart host.instances
apart = ((λ p q e k. ground arith, tt), (tt, tt))

accepted_size_separates_example : ArePairwise IsApart (map (resize 1 3000) host.instances)
accepted_size_separates_example =
    accepted_size_separates host alpha 3000 (inl refl) other_ids apart alpha_grows

validate_update_devices_iff_example :
    (validate_update_devices host alpha (text "0000:01:00.0" ∷ []) ≡ ok tt)
    ↔ IsDeviceGrant host alpha (text "0000:01:00.0" ∷ [])
validate_update_devices_iff_example =
    validate_update_devices_iff host alpha (text "0000:01:00.0" ∷ [])
