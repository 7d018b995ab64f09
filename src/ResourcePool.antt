-- ===== src/ResourcePool.antt =====
-- resource_pool.rs: plans a change of the CPU and memory pool, runs it, and classifies what the
-- second snapshot shows.
mod Transition
pub mod Planning
pub mod Reconciliation
pub mod Execution
mod Tests
unfoldable pub use Transition.*
use kernmux.Prelude.{
  ℕ, Bool, true, false, not, ◌&&◌, ◌||◌, List, [], ◌∷◌, ◌++◌, map, Option, none, some, any, length,
  ◌==◌, ltb, leb, if◌then◌else◌, Result, ok, err, ◌>>=◌, ◌>>◌, reject_if, map_err, to_option,
  wrapping_sum,
}
use kernmux.Prelude.Text.{Text, text, decimal, join}
use kernmux.Prelude.Order.{nat_ord}
use kernmux.Prelude.TreeSet.{collect, contains, difference, same_list}
use kernmux.Api.{
  Diagnostic, DiagnosticSeverity, ErrorCode, Generation, HostSnapshot, Instance, OperationState,
  is_healthy,
}
use kernmux.Placement.{CpuPlacementError, validate_pool_cpus}
use kernmux.Lifecycle.{ExpectedState, KerfInvocation}
use kernmux.Executor.{
  KerfRunResult, KerfRunner, SnapshotRefresher, diagnostic, region_bytes, succeeded_process,
}

-- `sort_unstable` on numbers, where equal elements cannot be told apart.
abbrev pub insert_sorted : ℕ → List ℕ → List ℕ
insert_sorted a [] = a ∷ []
insert_sorted a (x ∷ xs) = if leb a x then a ∷ x ∷ xs else x ∷ insert_sorted a xs

unfoldable pub sort : List ℕ → List ℕ
sort [] = []
sort (x ∷ xs) = insert_sorted x (sort xs)

abbrev pub assigned_bytes : List Instance → List ℕ
assigned_bytes = map (λ i. i.resources.memory_bytes)

-- Some instance has a CPU that the requested set lacks.
abbrev pub excludes_cpu : List ℕ → List Instance → Bool
excludes_cpu requested =
    any (λ i. any (λ cpu. not (contains requested cpu)) i.resources.cpu_hardware_ids)

pub pool_cpu_argument : List ℕ → Text
pool_cpu_argument [] = text "--cpus=none"
pool_cpu_argument (c ∷ cs) = text "--cpus=" ++ join (map decimal (c ∷ cs))

pub pool_memory_argument : ℕ → Text
pool_memory_argument bytes =
    if bytes == 0 then text "--memory=none" else text "--memory=" ++ decimal bytes

unfoldable pub pool_invocation : ResourcePoolRequest → KerfInvocation
pool_invocation request = record {
  arguments =
      text "init"
      ∷ pool_cpu_argument (sort request.cpu_hardware_ids)
      ∷ pool_memory_argument request.memory_bytes
      ∷ [];
  expected_state = ExpectedState.resource_pool (sort request.cpu_hardware_ids) request.memory_bytes;
  mutates_kernel = true;
}

unfoldable pub plan :
    ResourcePoolRequest → HostSnapshot → Result KerfInvocation ResourcePoolPlanError
plan request snapshot = do
  reject_if (not (is_healthy snapshot.health)) ResourcePoolPlanError.snapshot_indeterminate
  reject_if (not (request.expected_generation == snapshot.generation))
      (ResourcePoolPlanError.stale_generation request.expected_generation snapshot.generation)
  reject_if (not (length (collect request.cpu_hardware_ids) == length request.cpu_hardware_ids))
      ResourcePoolPlanError.duplicate_cpu
  map_err ResourcePoolPlanError.cpu_placement (validate_pool_cpus snapshot request.cpu_hardware_ids)
  reject_if
      (excludes_cpu (collect request.cpu_hardware_ids) snapshot.instances
        || ltb request.memory_bytes (wrapping_sum (assigned_bytes snapshot.instances)))
      ResourcePoolPlanError.assigned_resources_excluded
  ok (pool_invocation request)

unfoldable pub cpu_set : HostSnapshot → List ℕ
unfolding collect
cpu_set snapshot = collect snapshot.resource_pool.cpu_hardware_ids

unfoldable pub pool_memory : HostSnapshot → ℕ
unfolding wrapping_sum
pool_memory snapshot = wrapping_sum (region_bytes snapshot.resource_pool.memory_regions)

unfoldable pub transition :
    ResourcePoolRequest → HostSnapshot → HostSnapshot → ResourcePoolTransition
unfolding cpu_set pool_memory collect difference
transition request before after = record {
  before_cpu_hardware_ids = cpu_set before;
  requested_cpu_hardware_ids = collect request.cpu_hardware_ids;
  observed_cpu_hardware_ids = cpu_set after;
  added_cpu_hardware_ids = difference (cpu_set after) (cpu_set before);
  returned_cpu_hardware_ids = difference (cpu_set before) (cpu_set after);
  before_memory_bytes = pool_memory before;
  requested_memory_bytes = request.memory_bytes;
  observed_memory_bytes = pool_memory after;
}

abbrev pub is_empty : List ℕ → Bool
is_empty [] = true
is_empty (x ∷ xs) = false

abbrev pub pool_reconciled : Diagnostic
pool_reconciled =
    diagnostic (text "kerf_result_reconciled") DiagnosticSeverity.warning
      (text "resource pool reached the request despite the Kerf process result")

abbrev pub pool_partial : Diagnostic
pool_partial =
    diagnostic (text "resource_pool_partially_applied") DiagnosticSeverity.error
      (text "resource pool changed but did not reach the requested result")

abbrev pub pool_unchanged : Diagnostic
pool_unchanged =
    diagnostic (text "resource_pool_unchanged") DiagnosticSeverity.error
      (text "resource pool did not reach the requested result")

-- The state, the recovery and the diagnostics that `reconcile` chooses.
unfoldable pub pool_verdict :
    ResourcePoolRequest
    → ResourcePoolTransition
    → Bool
    → HostSnapshot
    → OperationState × ResourcePoolRecovery × List Diagnostic
pool_verdict request change process_ok after =
    if not (is_healthy after.health)
    then (OperationState.indeterminate, ResourcePoolRecovery.refresh_required, after.diagnostics)
    else if request_reached change
    then (
      OperationState.succeeded,
      ResourcePoolRecovery.no_recovery,
      if not process_ok then pool_reconciled ∷ [] else [],
    )
    else (
      OperationState.failed,
      (if partially_applied change
            && is_empty request.cpu_hardware_ids
            && request.memory_bytes == 0
            && is_empty change.observed_cpu_hardware_ids
            && not (change.observed_memory_bytes == 0)
          then ResourcePoolRecovery.host_restart_required
          else ResourcePoolRecovery.retry_request),
      (if partially_applied change then pool_partial else pool_unchanged) ∷ [],
    )

unfoldable pub reconcile :
    {E : Type 0}
    → ResourcePoolRequest
    → HostSnapshot
    → HostSnapshot
    → Result KerfRunResult E
    → ResourcePoolOutcome
reconcile request before after process =
    let change = transition request before after in
    let chosen = pool_verdict request change (succeeded_process process) after in
    record {
      state = chosen.0;
      snapshot = after;
      process = to_option process;
      transition = change;
      recovery = chosen.1;
      diagnostics = chosen.2;
    }

-- What `execute` does before Kerf is started.
unfoldable pub preflight :
    {F : Type 0}
    → ResourcePoolRequest
    → Result HostSnapshot F
    → Result (HostSnapshot × KerfInvocation) (ResourcePoolExecutionError F)
preflight request refreshed = do
  before ← map_err ResourcePoolExecutionError.inventory refreshed
  invocation ← map_err ResourcePoolExecutionError.plan_rejected (plan request before)
  ok (before, invocation)

module _ {W E F : Type 0} (runner : KerfRunner W E) (snapshots : SnapshotRefresher W F) where
  unfoldable pub proceed :
      ResourcePoolRequest
      → Result (HostSnapshot × KerfInvocation) (ResourcePoolExecutionError F)
      → W
      → Result ResourcePoolOutcome (ResourcePoolExecutionError F) × W
  proceed request (err e) w = (err e, w)
  proceed request (ok (before, invocation)) w =
      let (process, w1) = runner.run invocation w in
      let (refreshed, w2) = snapshots.refresh_snapshot w1 in
      (
        map_err ResourcePoolExecutionError.inventory refreshed >>= λ after.
            ok (reconcile request before after process),
        w2,
      )

  unfoldable pub execute :
      ResourcePoolRequest → W → Result ResourcePoolOutcome (ResourcePoolExecutionError F) × W
  execute request w =
      let (refreshed, w1) = snapshots.refresh_snapshot w in
      proceed request (preflight request refreshed) w1
