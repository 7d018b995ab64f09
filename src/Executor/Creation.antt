-- ===== src/Executor/Creation.antt =====
-- A create request that succeeds has its instance in the host.
use kernmux.Prelude.{◌≡◌, inl, inr, sym, ap, subst, ◌∙◌, true, none, some, ok, Any, Any-map_lem}
use kernmux.Prelude.TreeSet.{SameElements}
use kernmux.Prelude.Order.{nat_ord}
use kernmux.Api.{HostSnapshot, Instance, InstanceState, OperationState}
use kernmux.Lifecycle.{
  CreateRequest, ExpectedState, InstanceResources, KerfInvocation, LifecycleRequest,
}
use kernmux.Lifecycle.Plan.{plan}
use kernmux.Lifecycle.Plan.Creation.{create_invocation_expectation, plan-create-invocation}
use kernmux.Executor.{KerfRunner, LifecycleOutcome, SnapshotRefresher, execute}
use kernmux.Executor.Outcome.{Has, Holds}
use kernmux.Executor.Verdict.{reconcile-succeeded_iff}
use kernmux.Executor.Execution.{execute-IsExecution}

-- The expectation of a create request.
abbrev created_resources : CreateRequest → InstanceResources
created_resources request = record {
  id = request.id;
  state = InstanceState.ready;
  name = some request.name;
  cpu_hardware_ids = some request.cpu_hardware_ids;
  memory_bytes = some request.memory_bytes;
  device_ids = none;
}

Holds-resources :
    (expected : InstanceResources) (snapshot : HostSnapshot)
    → Holds (ExpectedState.instance_resources expected) snapshot
    → Any (Has expected) snapshot.instances
unfolding Holds
Holds-resources expected snapshot h = h

plan-create_expectation :
    (request : CreateRequest) (snapshot : HostSnapshot) (invocation : KerfInvocation)
    → plan (LifecycleRequest.create request) snapshot ≡ ok invocation
    → (invocation.expected_state ≡ ExpectedState.instance_resources (created_resources request))
      × (invocation.mutates_kernel ≡ true)
plan-create_expectation request snapshot invocation h =
    let is = plan-create-invocation request snapshot invocation h in
    (
      ap (λ i. i.expected_state) (sym is) ∙ (create_invocation_expectation request).0,
      ap (λ i. i.mutates_kernel) (sym is) ∙ (create_invocation_expectation request).1,
    )

-- What a create request asks of an instance.
pub record IsCreated (request : CreateRequest) (i : Instance) : Type 0 where
  pub id : i.id ≡ request.id
  pub state : i.state ≡ InstanceState.ready
  pub name : i.name ≡ request.name
  pub cpus : SameElements request.cpu_hardware_ids i.resources.cpu_hardware_ids
  pub memory : i.resources.memory_bytes ≡ request.memory_bytes

module _ {W E F : Type 0} (runner : KerfRunner W E) (snapshots : SnapshotRefresher W F) where
  -- A create request that is reported as succeeded has its instance in the snapshot returned, with
  -- the name, the CPUs and the memory requested.
  pub execute-create_lem :
      (request : CreateRequest) (w last : W) (outcome : LifecycleOutcome)
      → execute runner snapshots (LifecycleRequest.create request) w ≡ (ok outcome, last)
      → outcome.state ≡ OperationState.succeeded
      → Any (IsCreated request) outcome.snapshot.instances
  execute-create_lem request w last outcome h done =
      let run =
        execute-IsExecution runner snapshots (LifecycleRequest.create request) w last outcome h in
      let (_, achieved) =
        (reconcile-succeeded_iff run.invocation run.process outcome.snapshot).0
          (sym (ap (λ o. o.state) run.decided) ∙ done) in
      let expects = plan-create_expectation request run.before run.invocation run.planned in
      elim achieved [
        | inl (_, holds) ↦
            Any-map_lem _ _ outcome.snapshot.instances
              (λ i has. record {
                id = has.id;
                state = has.state;
                name = has.name;
                cpus = has.cpus;
                memory = has.memory;
              })
              (Holds-resources (created_resources request) outcome.snapshot
                (subst (λ e. Holds e outcome.snapshot) expects.0 holds))
        | inr (dry, _) ↦ absurd (cc (expects.1))
      ]
