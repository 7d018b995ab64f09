-- ===== src/Executor.antt =====
-- lifecycle_executor.rs: a plan is made on a fresh snapshot, Kerf runs it, and a second snapshot
-- decides the outcome. The process backend and the inventory are parameters: both act on a world.
pub mod Outcome
pub mod Execution
pub mod Creation
mod Tests
pub mod Verdict
use kernmux.Prelude.{
  ℕ, Bool, true, false, not, ◌&&◌, ◌||◌, List, [], ◌∷◌, map, Option, none, some, any, all, ◌==◌,
  if◌then◌else◌, Result, ok, err, ◌>>=◌, ◌>>◌, reject_if, map_err, to_option, wrapping_sum,
}
use kernmux.Prelude.Text.{Text, text}
use kernmux.Prelude.Order.{nat_ord, bytes_ord, same}
use kernmux.Prelude.TreeSet.{collect, same_list}
use kernmux.Api.{
  Diagnostic, DiagnosticSeverity, ErrorCode, HostSnapshot, Instance, InstanceState, MemoryRegion,
  OperationState, is_healthy, same_state,
}
use kernmux.Lifecycle.{
  ExpectedState, InstanceResources, KerfInvocation, LifecyclePlanError, LifecycleRequest,
  error_code,
}
use kernmux.Lifecycle.Plan.{plan}

-- The exit code of a process, an `i32`.
pub data ℤ : Type 0 where
  pos negsuc : ℕ → ℤ

-- Termination observed for one Kerf process.
pub data KerfTermination : Type 0 where
  exited : ℤ → KerfTermination
  signalled timed_out : KerfTermination

-- Bounded output and termination from one Kerf invocation.
pub record KerfRunResult : Type 0 where
  pub termination : KerfTermination
  pub stdout : Text
  pub stderr : Text

abbrev is_success : KerfTermination → Bool
is_success (KerfTermination.exited (ℤ.pos code)) = code == 0
is_success _ = false

unfoldable pub process_succeeded : KerfRunResult → Bool
process_succeeded result = is_success result.termination

-- `process.as_ref().is_ok_and(KerfRunResult::process_succeeded)`.
unfoldable pub succeeded_process : {E : Type 0} → Result KerfRunResult E → Bool
unfolding process_succeeded
succeeded_process (ok result) = process_succeeded result
succeeded_process (err e) = false

-- The traits of the process backend and of the inventory, on a world that both change.
pub record KerfRunner (W E : Type 0) : Type 0 where
  pub run : KerfInvocation → W → Result KerfRunResult E × W

pub record SnapshotRefresher (W E : Type 0) : Type 0 where
  pub refresh_snapshot : W → Result HostSnapshot E × W

-- `is_none_or`: an omitted field is not compared.
abbrev pub is_none_or {ℓ} : {A : Type ℓ} → Option A → (A → Bool) → Bool
is_none_or none p = true
is_none_or (some a) p = p a

-- Whether an instance has all that the expectation lists.
unfoldable pub has_resources : InstanceResources → Instance → Bool
unfolding same_state collect same_list
has_resources expected i =
    i.id == expected.id
    && same_state i.state expected.state
    && is_none_or expected.name (same i.name)
    && is_none_or expected.cpu_hardware_ids
        (λ cpus. same_list (collect cpus) (collect i.resources.cpu_hardware_ids))
    && is_none_or expected.memory_bytes (λ bytes. i.resources.memory_bytes == bytes)
    && is_none_or expected.device_ids
        (λ devices. same_list (collect devices) (collect i.resources.device_ids))

abbrev pub region_bytes : List MemoryRegion → List ℕ
region_bytes = map (λ region. region.bytes)

unfoldable pub expected_state_observed : ExpectedState → HostSnapshot → Bool
unfolding has_resources same_state collect same_list wrapping_sum
expected_state_observed (ExpectedState.instance_state id state) snapshot =
    any (λ i. i.id == id && same_state i.state state) snapshot.instances
expected_state_observed (ExpectedState.instance_resources expected) snapshot =
    any (has_resources expected) snapshot.instances
expected_state_observed (ExpectedState.resource_pool cpus bytes) snapshot =
    same_list (collect snapshot.resource_pool.cpu_hardware_ids) (collect cpus)
    && wrapping_sum (region_bytes snapshot.resource_pool.memory_regions) == bytes
expected_state_observed (ExpectedState.absent id) snapshot =
    all (λ i. not (i.id == id)) snapshot.instances

-- Reconciled result of one attempted lifecycle mutation.
pub record LifecycleOutcome : Type 0 where
  pub state : OperationState
  pub snapshot : HostSnapshot
  pub process : Option KerfRunResult
  pub diagnostics : List Diagnostic

abbrev pub diagnostic : Text → DiagnosticSeverity → Text → Diagnostic
diagnostic code severity message = record {
  code = code;
  severity = severity;
  message = message;
  detail = none;
  redacted = true;
}

abbrev pub result_reconciled : Diagnostic
result_reconciled =
    diagnostic (text "kerf_result_reconciled") DiagnosticSeverity.warning
      (text "kernel state reached the requested result despite the Kerf process result")

abbrev pub state_not_observed : Diagnostic
state_not_observed =
    diagnostic (text "expected_state_not_observed") DiagnosticSeverity.error
      (text "kernel state did not reach the requested result")

abbrev pub command_failed : Diagnostic
command_failed =
    diagnostic (text "kerf_command_failed") DiagnosticSeverity.error
      (text "Kerf did not accept the requested validation")

-- The state and the diagnostics that `reconcile` chooses.
unfoldable pub verdict :
    KerfInvocation → Bool → Bool → HostSnapshot → OperationState × List Diagnostic
verdict invocation observed process_ok snapshot =
    if not (is_healthy snapshot.health)
    then (OperationState.indeterminate, snapshot.diagnostics)
    else if not invocation.mutates_kernel && process_ok
    then (OperationState.succeeded, [])
    else if invocation.mutates_kernel && observed
    then (OperationState.succeeded, if not process_ok then result_reconciled ∷ [] else [])
    else if invocation.mutates_kernel
    then (OperationState.failed, state_not_observed ∷ [])
    else (OperationState.failed, command_failed ∷ [])

unfoldable pub reconcile :
    {E : Type 0} → KerfInvocation → Result KerfRunResult E → HostSnapshot → LifecycleOutcome
unfolding verdict expected_state_observed succeeded_process
reconcile invocation process snapshot =
    let chosen =
      verdict invocation (expected_state_observed invocation.expected_state snapshot)
        (succeeded_process process) snapshot in
    record {
      state = chosen.0;
      snapshot = snapshot;
      process = to_option process;
      diagnostics = chosen.1;
    }

-- Failure before a trustworthy lifecycle outcome can be produced.
pub data LifecycleExecutionError (E : Type 0) : Type 0 where
  inventory : E → LifecycleExecutionError E
  snapshot_indeterminate : LifecycleExecutionError E
  plan_rejected : LifecyclePlanError → LifecycleExecutionError E

unfoldable pub execution_error_code : {E : Type 0} → LifecycleExecutionError E → ErrorCode
unfolding error_code
execution_error_code (LifecycleExecutionError.inventory _) = ErrorCode.backend_unavailable
execution_error_code LifecycleExecutionError.snapshot_indeterminate = ErrorCode.backend_unavailable
execution_error_code (LifecycleExecutionError.plan_rejected e) = error_code e

-- What `execute` does before Kerf is started: the first snapshot gives an invocation or an error.
unfoldable pub preflight :
    {F : Type 0}
    → LifecycleRequest
    → Result HostSnapshot F
    → Result KerfInvocation (LifecycleExecutionError F)
preflight request refreshed = do
  before ← map_err LifecycleExecutionError.inventory refreshed
  reject_if (not (is_healthy before.health)) LifecycleExecutionError.snapshot_indeterminate
  map_err LifecycleExecutionError.plan_rejected (plan request before)

module _ {W E F : Type 0} (runner : KerfRunner W E) (snapshots : SnapshotRefresher W F) where
  -- What `execute` does from the start of Kerf on.
  unfoldable pub attempt :
      KerfInvocation → W → Result LifecycleOutcome (LifecycleExecutionError F) × W
  attempt invocation w =
      let (process, w1) = runner.run invocation w in
      let (refreshed, w2) = snapshots.refresh_snapshot w1 in
      (
        map_err LifecycleExecutionError.inventory refreshed >>= λ after.
            ok (reconcile invocation process after),
        w2,
      )

  abbrev pub proceed :
      Result KerfInvocation (LifecycleExecutionError F)
      → W
      → Result LifecycleOutcome (LifecycleExecutionError F) × W
  proceed (err e) w = (err e, w)
  proceed (ok invocation) w = attempt invocation w

  unfoldable pub execute :
      LifecycleRequest → W → Result LifecycleOutcome (LifecycleExecutionError F) × W
  execute request w =
      let (refreshed, w1) = snapshots.refresh_snapshot w in proceed (preflight request refreshed) w1
