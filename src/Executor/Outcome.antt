-- ===== src/Executor/Outcome.antt =====
-- What a reconciled outcome says of the snapshot that was read after Kerf ran.
use kernmux.Prelude.{
  ℕ, ◌≡◌, ◌≢◌, ◌↔◌, refl, Bool, true, ◌&&◌, List, Option, none, some, All, Any, any_iff, all_iff,
  All-map_lem, Any-map_lem, arith, ==_iff, wrapping_sum, ◌==◌,
}
use kernmux.Prelude.Text.{Text}
use kernmux.Prelude.Order.{nat_ord, bytes_ord, same, same_iff}
use kernmux.Prelude.TreeSet.{collect, collect_ext, same_list, same_list_iff, SameElements}
use kernmux.Api.{HostSnapshot, Instance, InstanceId, InstanceState, same_state, same_state_iff}
use kernmux.Lifecycle.{ExpectedState, InstanceResources}
use kernmux.Executor.{expected_state_observed, has_resources, is_none_or, region_bytes}

-- An omitted field holds of everything.
abbrev pub Given {ℓ} : {A : Type ℓ} → Option A → (A → Type 0) → Type 0
Given none P = Unit
Given (some a) P = P a

-- The instance has the id, the state and each listed field; CPUs and devices are compared as sets.
pub record Has (expected : InstanceResources) (i : Instance) : Type 0 where
  pub id : i.id ≡ expected.id
  pub state : i.state ≡ expected.state
  pub name : Given expected.name (λ n. i.name ≡ n)
  pub cpus : Given expected.cpu_hardware_ids (λ cs. SameElements cs i.resources.cpu_hardware_ids)
  pub memory : Given expected.memory_bytes (λ m. i.resources.memory_bytes ≡ m)
  pub devices : Given expected.device_ids (λ ds. SameElements ds i.resources.device_ids)

-- The meaning of an expectation, in terms of the instances and of the pool.
unfoldable pub Holds : ExpectedState → HostSnapshot → Type 0
Holds (ExpectedState.instance_state id state) snapshot =
    Any (λ i. (i.id ≡ id) × (i.state ≡ state)) snapshot.instances
Holds (ExpectedState.instance_resources expected) snapshot = Any (Has expected) snapshot.instances
Holds (ExpectedState.resource_pool cpus bytes) snapshot =
    SameElements snapshot.resource_pool.cpu_hardware_ids cpus
    × (wrapping_sum (region_bytes snapshot.resource_pool.memory_regions) ≡ bytes)
Holds (ExpectedState.absent id) snapshot = All (λ i. i.id ≢ id) snapshot.instances

is_none_or_iff {ℓ} :
    {A : Type ℓ} (o : Option A) (p : A → Bool) (P : A → Type 0)
    → ((a : A) → (p a ≡ true) ↔ P a)
    → (is_none_or o p ≡ true) ↔ Given o P
is_none_or_iff none p P h = (λ _. tt, λ _. refl)
is_none_or_iff (some a) p P h = h a

sets_iff : (xs ys : List ℕ) → (same_list (collect xs) (collect ys) ≡ true) ↔ SameElements xs ys
sets_iff xs ys = (
  λ h. (collect_ext xs ys).0 ((same_list_iff (collect xs) (collect ys)).0 h),
  λ h. (same_list_iff (collect xs) (collect ys)).1 ((collect_ext xs ys).1 h),
)

text_sets_iff :
    (xs ys : List Text) → (same_list (collect xs) (collect ys) ≡ true) ↔ SameElements xs ys
text_sets_iff xs ys = (
  λ h. (collect_ext xs ys).0 ((same_list_iff (collect xs) (collect ys)).0 h),
  λ h. (same_list_iff (collect xs) (collect ys)).1 ((collect_ext xs ys).1 h),
)

has_resources_iff :
    (expected : InstanceResources) (i : Instance)
    → (has_resources expected i ≡ true) ↔ Has expected i
unfolding has_resources
has_resources_iff expected i =
    let name =
      is_none_or_iff expected.name (same i.name) (λ n. i.name ≡ n) (λ n. same_iff i.name n) in
    let cpus =
      is_none_or_iff expected.cpu_hardware_ids
        (λ cs. same_list (collect cs) (collect i.resources.cpu_hardware_ids))
        (λ cs. SameElements cs i.resources.cpu_hardware_ids)
        (λ cs. sets_iff cs i.resources.cpu_hardware_ids) in
    let memory =
      is_none_or_iff expected.memory_bytes (λ m. i.resources.memory_bytes == m)
        (λ m. i.resources.memory_bytes ≡ m) (λ m. ==_iff i.resources.memory_bytes m) in
    let devices =
      is_none_or_iff expected.device_ids
        (λ ds. same_list (collect ds) (collect i.resources.device_ids))
        (λ ds. SameElements ds i.resources.device_ids)
        (λ ds. text_sets_iff ds i.resources.device_ids) in
    (
      λ h. record {
        id = ground arith;
        state = (same_state_iff i.state expected.state).0 (ground arith);
        name = name.0 (ground arith);
        cpus = cpus.0 (ground arith);
        memory = memory.0 (ground arith);
        devices = devices.0 (ground arith);
      },
      λ h. ground (
        arith,
        h.id,
        (same_state_iff i.state expected.state).1 h.state,
        name.1 h.name,
        cpus.1 h.cpus,
        memory.1 h.memory,
        devices.1 h.devices,
      ),
    )

is_instance_iff :
    (id : InstanceId) (state : InstanceState) (i : Instance)
    → ((i.id == id && same_state i.state state) ≡ true) ↔ ((i.id ≡ id) × (i.state ≡ state))
is_instance_iff id state i = ground (arith, same_state_iff i.state state)

-- The postflight test is true exactly when the expectation holds in the snapshot.
pub expected_state_observed_iff :
    (expected : ExpectedState) (snapshot : HostSnapshot)
    → (expected_state_observed expected snapshot ≡ true) ↔ Holds expected snapshot
unfolding expected_state_observed Holds
expected_state_observed_iff (ExpectedState.instance_state id state) snapshot = (
  λ h.
      Any-map_lem _ _ snapshot.instances (λ i. (is_instance_iff id state i).0)
        ((any_iff _ snapshot.instances).0 h),
  λ h.
      (any_iff _ snapshot.instances).1
        (Any-map_lem _ _ snapshot.instances (λ i. (is_instance_iff id state i).1) h),
)
expected_state_observed_iff (ExpectedState.instance_resources expected) snapshot = (
  λ h.
      Any-map_lem _ _ snapshot.instances (λ i. (has_resources_iff expected i).0)
        ((any_iff _ snapshot.instances).0 h),
  λ h.
      (any_iff _ snapshot.instances).1
        (Any-map_lem _ _ snapshot.instances (λ i. (has_resources_iff expected i).1) h),
)
expected_state_observed_iff (ExpectedState.resource_pool cpus bytes) snapshot =
    let sets = sets_iff snapshot.resource_pool.cpu_hardware_ids cpus in
    (λ h. (sets.0 (ground arith), ground arith), λ h. ground (arith, sets.1 h.0, h.1))
expected_state_observed_iff (ExpectedState.absent id) snapshot = (
  λ h.
      All-map_lem _ _ snapshot.instances (λ i k e. ground arith)
        ((all_iff _ snapshot.instances).0 h),
  λ h.
      (all_iff _ snapshot.instances).1
        (All-map_lem _ _ snapshot.instances (λ i k. ground (arith, k)) h),
)
