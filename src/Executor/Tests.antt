-- ===== src/Executor/Tests.antt =====
-- Executions against a host that is a snapshot and a runner that rewrites it.
use kernmux.Prelude.{◌≡◌, ◌↔◌, refl, true, false, none, some, [], ◌∷◌, ◌++◌, Any, Result, ok, err}
use kernmux.Prelude.Text.{text}
use kernmux.Prelude.Order.{nat_ord, bytes_ord, compare_bytes}
use kernmux.Prelude.TreeSet.{collect, contains, insert, same_list}
use kernmux.Api.{HostSnapshot, Instance, InstanceState, OperationState, SnapshotHealth, same_state}
use kernmux.Sample.{alpha, beta, host, host_with}
use kernmux.Placement.{refuse_found, validate_instance_cpus}
use kernmux.Lifecycle.{
  CreateRequest, ExpectedState, KerfInvocation, LifecyclePlanError, LifecycleRequest,
}
use kernmux.Lifecycle.Checks.{is_valid_name, validate_cpus, validate_id, validate_name}
use kernmux.Lifecycle.Memory.{check_room, checked_sum, checked_sum_from, validate_create_memory}
use kernmux.Lifecycle.Plan.{
  create_invocation, dispatch, plan, plan_create, require_instance, require_state,
  plan_state_command,
}
use kernmux.Executor.{
  KerfRunResult, KerfRunner, KerfTermination, LifecycleExecutionError, LifecycleOutcome,
  SnapshotRefresher, ℤ, attempt, execute, expected_state_observed, has_resources, preflight,
  process_succeeded, reconcile, succeeded_process, verdict,
}
use kernmux.Executor.Verdict.{Achieved, reconcile-succeeded_iff}
use kernmux.Executor.Execution.{IsExecution, execute-IsExecution}
use kernmux.Executor.Creation.{IsCreated, execute-create_lem}

abbrev gamma : Instance
gamma = record {
  id = 3;
  name = text "gamma";
  generation = 8;
  state = InstanceState.ready;
  resources = record {
    cpu_hardware_ids = 5 ∷ 6 ∷ [];
    memory_base = some 9216;
    memory_bytes = 1024;
    memory_region = none;
    device_ids = [];
  };
  image = record { present = false };
}

abbrev result : KerfRunResult
result = record { termination = KerfTermination.exited (ℤ.pos 0); stdout = []; stderr = [] }

-- Any command creates the third instance.
abbrev runner : KerfRunner HostSnapshot (Unit {0})
runner = record {
  run = λ invocation w. (ok result, record w { instances = w.instances ++ gamma ∷ [] });
}

abbrev inventory : SnapshotRefresher HostSnapshot (Unit {0})
inventory = record { refresh_snapshot = λ w. (ok w, w) }

abbrev request : CreateRequest
request = record {
  expected_generation = 7;
  id = 3;
  name = text "gamma";
  cpu_hardware_ids = 6 ∷ 5 ∷ [];
  memory_bytes = 1024;
}

abbrev changed : HostSnapshot
changed = host_with (alpha ∷ beta ∷ gamma ∷ [])

abbrev outcome : LifecycleOutcome
outcome = record {
  state = OperationState.succeeded;
  snapshot = changed;
  process = some result;
  diagnostics = [];
}

executed : execute runner inventory (LifecycleRequest.create request) host ≡ (ok outcome, changed)
unfolding execute preflight attempt reconcile verdict expected_state_observed has_resources
    succeeded_process process_succeeded plan dispatch plan_create create_invocation validate_name
    is_valid_name validate_id validate_cpus validate_instance_cpus refuse_found
    validate_create_memory check_room checked_sum checked_sum_from collect insert contains same_list
    same_state text compare_bytes
executed = refl

execute-IsExecution_example :
    IsExecution runner inventory (LifecycleRequest.create request) host outcome changed
execute-IsExecution_example =
    execute-IsExecution runner inventory (LifecycleRequest.create request) host changed outcome
      executed

execute-create_lem_example : Any (IsCreated request) changed.instances
execute-create_lem_example =
    execute-create_lem runner inventory request host changed outcome executed refl

-- Deleting a loaded instance is refused.
abbrev delete_beta : LifecycleRequest
delete_beta = LifecycleRequest.delete (record { expected_generation = 7; id = 2 })

abbrev refusal : LifecycleExecutionError (Unit {0})
refusal =
    LifecycleExecutionError.plan_rejected
      (LifecyclePlanError.invalid_state InstanceState.ready InstanceState.loaded)

refused : execute runner inventory delete_beta host ≡ (err refusal, host)
unfolding execute preflight plan dispatch plan_state_command require_state require_instance
    validate_id same_state
refused = refl

abbrev invocation : KerfInvocation
invocation = record {
  arguments = text "exec" ∷ [];
  expected_state = ExpectedState.instance_state 2 InstanceState.loaded;
  mutates_kernel = true;
}

abbrev no_process : Result KerfRunResult (Unit {0})
no_process = err tt

reconcile-succeeded_iff_example :
    ((reconcile invocation no_process host).state ≡ OperationState.succeeded)
    ↔ ((host.health ≡ SnapshotHealth.healthy) × Achieved invocation no_process host)
reconcile-succeeded_iff_example = reconcile-succeeded_iff invocation no_process host
