-- ===== src/ResourcePool/Reconciliation.antt =====
-- What a pool outcome says of the two snapshots.
use kernmux.Prelude.{
  ℕ, ◌≡◌, ◌≢◌, ◌↔◌, refl, sym, ◌∙◌, Bool, true, false, not, ◌&&◌, ◌||◌, List, [], ◌∷◌, Result,
  arith, Bool_ext,
}
use kernmux.Prelude.Order.{nat_ord}
use kernmux.Prelude.TreeSet.{
  SameElements, collect, collect_ext, contains, contains-collect, contains-difference,
  same_list_iff,
}
use kernmux.Api.{HostSnapshot, OperationState, is_healthy}
use kernmux.Lifecycle.{ExpectedState}
use kernmux.Executor.{KerfRunResult, expected_state_observed, succeeded_process}
use kernmux.Executor.Outcome.{Holds, expected_state_observed_iff}
use kernmux.ResourcePool.{
  ResourcePoolRecovery, ResourcePoolRequest, ResourcePoolTransition, cpu_set, is_empty,
  partially_applied, pool_invocation, pool_memory, pool_verdict, reconcile, request_reached, sort,
  transition,
}
use kernmux.ResourcePool.Planning.{sort-SameElements}

-- The pool of a snapshot has the requested CPUs, as a set, and the requested memory.
abbrev pub IsReached : ResourcePoolRequest → HostSnapshot → Type 0
IsReached request snapshot =
    SameElements request.cpu_hardware_ids snapshot.resource_pool.cpu_hardware_ids
    × (request.memory_bytes ≡ pool_memory snapshot)

pub request_reached_iff :
    (request : ResourcePoolRequest) (before after : HostSnapshot)
    → (request_reached (transition request before after) ≡ true) ↔ IsReached request after
unfolding request_reached transition cpu_set
request_reached_iff request before after =
    let lists =
      same_list_iff (collect request.cpu_hardware_ids)
        (collect after.resource_pool.cpu_hardware_ids) in
    let sets = collect_ext request.cpu_hardware_ids after.resource_pool.cpu_hardware_ids in
    (
      λ h. (sets.0 (lists.0 (ground arith)), ground arith),
      λ h. ground (arith, lists.1 (sets.1 h.0), h.1),
    )

observed_iff :
    (request : ResourcePoolRequest) (after : HostSnapshot)
    → (expected_state_observed (pool_invocation request).expected_state after ≡ true)
      ↔ IsReached request after
unfolding pool_invocation pool_memory Holds
observed_iff request after =
    let holds =
      expected_state_observed_iff
        (ExpectedState.resource_pool (sort request.cpu_hardware_ids) request.memory_bytes) after in
    let sorted = sort-SameElements request.cpu_hardware_ids in
    (
      λ h. let (cpus, memory) = holds.0 h in (λ b. sym (cpus b ∙ sorted b), sym memory),
      λ h. holds.1 (λ b. sym (h.0 b) ∙ sym (sorted b), sym h.1),
    )

-- The two tests of a pool change agree: the transition reaches the request exactly when the state
-- that the command expects is observed, although one compares sets and the other a sorted list.
pub request_reached-observed :
    (request : ResourcePoolRequest) (before after : HostSnapshot)
    → request_reached (transition request before after)
      ≡ expected_state_observed (pool_invocation request).expected_state after
request_reached-observed request before after =
    let reached = request_reached_iff request before after in
    let observed = observed_iff request after in
    Bool_ext _ _ (λ h. observed.1 (reached.0 h)) (λ h. reached.1 (observed.0 h))

-- The pool after a change is what stayed and what was added; what was returned was there before
-- and is there no longer; what was added was not there before.
pub transition_accounts :
    (request : ResourcePoolRequest) (before after : HostSnapshot) (cpu : ℕ)
    → let change = transition request before after in
      let old = contains before.resource_pool.cpu_hardware_ids cpu in
      let new = contains after.resource_pool.cpu_hardware_ids cpu in
      let added = contains change.added_cpu_hardware_ids cpu in
      let returned = contains change.returned_cpu_hardware_ids cpu in
      (new ≡ ((old && not returned) || added))
      × ((added && old) ≡ false)
      × ((returned && new) ≡ false)
      × ((returned && not old) ≡ false)
unfolding transition cpu_set
transition_accounts request before after cpu = ground (
  arith,
  contains-difference (collect after.resource_pool.cpu_hardware_ids)
      (collect before.resource_pool.cpu_hardware_ids) cpu,
  contains-difference (collect before.resource_pool.cpu_hardware_ids)
      (collect after.resource_pool.cpu_hardware_ids) cpu,
  contains-collect before.resource_pool.cpu_hardware_ids cpu,
  contains-collect after.resource_pool.cpu_hardware_ids cpu,
)

-- A change was asked for that empties the pool, took all CPUs, and left memory behind.
abbrev pub NeedsRestart : ResourcePoolRequest → ResourcePoolTransition → Type 0
NeedsRestart request change =
    (partially_applied change ≡ true)
    × (request.cpu_hardware_ids ≡ [])
    × (request.memory_bytes ≡ 0)
    × (change.observed_cpu_hardware_ids ≡ [])
    × (change.observed_memory_bytes ≢ 0)

is_empty_iff : (xs : List ℕ) → (is_empty xs ≡ true) ↔ (xs ≡ [])
is_empty_iff [] = (λ _. refl, λ _. refl)
is_empty_iff (x ∷ xs) = (λ h. cc, λ h. cc)

restart_iff :
    (request : ResourcePoolRequest) (change : ResourcePoolTransition) (process_ok : Bool)
    (after : HostSnapshot)
    → ((pool_verdict request change process_ok after).1
        ≡ ResourcePoolRecovery.host_restart_required)
      ↔ ((is_healthy after.health ≡ true) × NeedsRestart request change)
unfolding pool_verdict partially_applied
restart_iff request change process_ok after =
    let requested = is_empty_iff request.cpu_hardware_ids in
    let observed = is_empty_iff change.observed_cpu_hardware_ids in
    ground (arith, requested, observed)

verdict_recovery :
    (request : ResourcePoolRequest) (change : ResourcePoolTransition) (process_ok : Bool)
    (after : HostSnapshot)
    → let chosen = pool_verdict request change process_ok after in
      ((chosen.0 ≡ OperationState.succeeded)
        ↔ ((is_healthy after.health ≡ true) × (request_reached change ≡ true)))
      × ((chosen.0 ≡ OperationState.succeeded) ↔ (chosen.1 ≡ ResourcePoolRecovery.no_recovery))
      × ((chosen.0 ≡ OperationState.indeterminate)
          ↔ (chosen.1 ≡ ResourcePoolRecovery.refresh_required))
      × ((chosen.0 ≡ OperationState.indeterminate) ↔ (is_healthy after.health ≡ false))
unfolding pool_verdict
verdict_recovery request change process_ok after = ground arith

-- A pool request succeeds exactly when the second snapshot is healthy and its pool is the
-- requested one, whatever the process returned; only then nothing is left to do. A refresh is
-- asked for exactly when that snapshot is not healthy, and a restart of the host exactly when a
-- request to empty the pool returned every CPU and left memory, with a change to the pool.
pub reconcile_recovery :
    {E : Type 0} (request : ResourcePoolRequest) (before after : HostSnapshot)
    (process : Result KerfRunResult E)
    → let outcome = reconcile request before after process in
      ((outcome.state ≡ OperationState.succeeded)
        ↔ ((is_healthy after.health ≡ true) × IsReached request after))
      × ((outcome.state ≡ OperationState.succeeded)
          ↔ (outcome.recovery ≡ ResourcePoolRecovery.no_recovery))
      × ((outcome.recovery ≡ ResourcePoolRecovery.refresh_required)
          ↔ (is_healthy after.health ≡ false))
      × ((outcome.recovery ≡ ResourcePoolRecovery.host_restart_required) ↔ (
          (is_healthy after.health ≡ true)
          × NeedsRestart request (transition request before after)))
unfolding reconcile
reconcile_recovery request before after process =
    let change = transition request before after in
    let (succeeds, nothing_left, refresh, unhealthy) =
      verdict_recovery request change (succeeded_process process) after in
    let reached = request_reached_iff request before after in
    (
      (λ h. ((succeeds.0 h).0, reached.0 (succeeds.0 h).1), λ h. succeeds.1 (h.0, reached.1 h.1)),
      nothing_left,
      (λ h. unhealthy.0 (refresh.1 h), λ h. refresh.0 (unhealthy.1 h)),
      restart_iff request change (succeeded_process process) after,
    )
