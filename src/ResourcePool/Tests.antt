-- ===== src/ResourcePool/Tests.antt =====
-- A pool of the sample host that grows by a CPU.
use kernmux.Prelude.{◌≡◌, ◌↔◌, refl, true, false, [], ◌∷◌, Result, ok, err, wrapping_sum}
use kernmux.Prelude.Order.{nat_ord}
use kernmux.Prelude.TreeSet.{collect, contains, insert}
use kernmux.Api.{HostSnapshot, OperationState, is_healthy}
use kernmux.Sample.{host}
use kernmux.Placement.{check_match, check_new_cpu, validate_pool_cpus}
use kernmux.Executor.{KerfRunResult}
use kernmux.Operations.{is_terminal}
use kernmux.Executor.{KerfRunner, SnapshotRefresher}
use kernmux.ResourcePool.Execution.{IsPoolExecution, execute-IsPoolExecution}
use kernmux.ResourcePool.{
  ResourcePoolOutcome, execute, preflight, proceed, ResourcePoolRecovery, ResourcePoolRequest, plan,
  pool_invocation, reconcile, transition,
}
use kernmux.ResourcePool.Planning.{IsAdmissible, plan_iff}
use kernmux.ResourcePool.Reconciliation.{IsReached, NeedsRestart, reconcile_recovery}

abbrev request : ResourcePoolRequest
request = record {
  expected_generation = 7;
  cpu_hardware_ids = 7 ∷ 4 ∷ 5 ∷ 6 ∷ [];
  memory_bytes = 8192;
}

abbrev after : HostSnapshot
after = record host {
  resource_pool = record host.resource_pool { cpu_hardware_ids = 4 ∷ 5 ∷ 7 ∷ [] };
}

planned : plan request host ≡ ok (pool_invocation request)
unfolding plan validate_pool_cpus check_new_cpu check_match collect insert contains wrapping_sum
planned = refl

plan_iff_example : (plan request host ≡ ok (pool_invocation request)) ↔ IsAdmissible request host
plan_iff_example = plan_iff request host

abbrev no_process : Result KerfRunResult (Unit {0})
no_process = err tt

reconcile_recovery_example :
    let outcome = reconcile request host after no_process in
    ((outcome.state ≡ OperationState.succeeded)
      ↔ ((is_healthy after.health ≡ true) × IsReached request after))
    × ((outcome.state ≡ OperationState.succeeded)
        ↔ (outcome.recovery ≡ ResourcePoolRecovery.no_recovery))
    × ((outcome.recovery ≡ ResourcePoolRecovery.refresh_required)
        ↔ (is_healthy after.health ≡ false))
    × ((outcome.recovery ≡ ResourcePoolRecovery.host_restart_required)
        ↔ ((is_healthy after.health ≡ true) × NeedsRestart request (transition request host after)))
reconcile_recovery_example = reconcile_recovery request host after no_process

abbrev runner : KerfRunner HostSnapshot (Unit {0})
runner = record { run = λ invocation w. (err tt, w) }

abbrev inventory : SnapshotRefresher HostSnapshot (Unit {0})
inventory = record { refresh_snapshot = λ w. (ok w, w) }

abbrev unchanged : ResourcePoolOutcome
unchanged = reconcile request host host no_process

executed : execute runner inventory request host ≡ (ok unchanged, host)
unfolding execute preflight proceed plan validate_pool_cpus check_new_cpu check_match collect insert
    contains wrapping_sum
executed = refl

execute-IsPoolExecution_example :
    IsPoolExecution runner inventory request host unchanged host
    × (is_terminal unchanged.state ≡ true)
execute-IsPoolExecution_example =
    execute-IsPoolExecution runner inventory request host host unchanged executed
