-- ===== src/HostApi/Service/Submission.antt =====
-- The submissions: each takes a mutation permit, creates the operation, and hands both to a worker.
use kernmux.Prelude.{
  ◌&&◌, Option, none, some, [], ◌∷◌, ◌++◌, ◌==◌, length, if◌then◌else◌, Result, ok, err,
}
use kernmux.Prelude.Text.{Text, text, decimal}
use kernmux.Api.{
  ApiError, Generation, InstanceId, Operation, OperationKind, ResourceKind, ResourceReference,
}
use kernmux.Images.{ArtifactId, ArtifactKind}
use kernmux.Lifecycle.{LifecycleRequest}
use kernmux.Operations.{NewOperation}
use kernmux.Scheduler.{OperationScheduler, ScheduleError, submit}
use kernmux.Security.{LimitKind, PeerIdentity, ServiceLimiter, ServicePermit, acquire, drop}
use kernmux.HostApi.Errors.{schedule_error}
use kernmux.HostApi.Service.Types.{
  Circumstances, HostState, ManagedLoadRequest, ResourcePoolMutation, Task,
}

-- `new_operation`.
unfoldable pub new_operation :
    OperationKind
    → Generation
    → ResourceReference
    → PeerIdentity
    → Option Text
    → Text
    → NewOperation
new_operation kind expected resource peer audit_id created_at = record {
  kind = kind;
  expected_generation = expected;
  affected_resources = resource ∷ [];
  actor = some peer.actor;
  audit_id = audit_id;
  created_at = created_at;
}

abbrev pub instance_reference : InstanceId → ResourceReference
instance_reference id = record { kind = ResourceKind.instance; id = decimal id }

-- After the scheduler's answer: a closure that was not spawned is dropped, and its permit with it.
unfoldable pub scheduled :
    HostState
    → Task
    → ServicePermit
    → OperationScheduler × Result Operation ScheduleError
    → HostState × Result Operation ApiError
unfolding drop schedule_error
scheduled s task permit (scheduler, err e) =
    (record s { scheduler = scheduler; limiter = drop s.limiter permit }, err (schedule_error e))
scheduled s task permit (scheduler, ok operation) = (
  record s {
    scheduler = scheduler;
    tasks = s.tasks ++ record { operation_id = operation.id; task = task; permit = permit } ∷ [];
  },
  ok operation,
)

unfoldable pub admitted :
    HostState
    → Circumstances
    → NewOperation
    → Task
    → ServiceLimiter × Result ServicePermit ApiError
    → HostState × Result Operation ApiError
unfolding scheduled submit
admitted s now request task (limiter, err e) = (record s { limiter = limiter }, err e)
admitted s now request task (limiter, ok permit) =
    scheduled (record s { limiter = limiter }) task permit
      (submit s.scheduler request now.spawned now.failed_at)

-- `self.limiter.acquire(Mutation)?`, then `self.scheduler.submit(..)`.
unfoldable pub submit_task :
    HostState → Circumstances → NewOperation → Task → HostState × Result Operation ApiError
unfolding admitted acquire
submit_task s now request task = admitted s now request task (acquire s.limiter LimitKind.mutation)

module _ (now : Circumstances) (peer : PeerIdentity) (audit_id : Option Text) where
  -- `submit_lifecycle`.
  unfoldable pub submit_lifecycle :
      HostState
      → LifecycleRequest
      → OperationKind
      → Generation
      → InstanceId
      → HostState × Result Operation ApiError
  unfolding submit_task new_operation
  submit_lifecycle s request kind expected id =
      submit_task s now
        (new_operation kind expected (instance_reference id) peer audit_id now.created_at)
        (Task.lifecycle request)

  unfoldable pub pool_operation_kind : ResourcePoolMutation → OperationKind
  pool_operation_kind mutation =
      if (length mutation.cpu_hardware_ids == 0) && (mutation.memory_bytes == 0)
      then OperationKind.release_resource_pool
      else OperationKind.initialize_resource_pool

  -- `submit_resource_pool`.
  unfoldable pub submit_resource_pool :
      HostState → ResourcePoolMutation → HostState × Result Operation ApiError
  unfolding submit_task new_operation pool_operation_kind
  submit_resource_pool s mutation =
      submit_task s now
        (new_operation (pool_operation_kind mutation) mutation.expected_generation
          (record { kind = ResourceKind.resource_pool; id = text "host" }) peer audit_id
          now.created_at)
        (Task.resource_pool (record {
          expected_generation = mutation.expected_generation;
          cpu_hardware_ids = mutation.cpu_hardware_ids;
          memory_bytes = mutation.memory_bytes;
        }))

  abbrev catalog_or : Option ArtifactId → Text
  catalog_or none = text "catalog"
  catalog_or (some id) = id.value

  -- `submit_image_import`, after its checks.
  unfoldable pub submit_image_import :
      HostState
      → Generation
      → ArtifactKind
      → Text
      → Option ArtifactId
      → HostState × Result Operation ApiError
  unfolding submit_task new_operation
  submit_image_import s expected kind source expected_id =
      submit_task s now
        (new_operation OperationKind.import_image expected
          (record { kind = ResourceKind.image; id = catalog_or expected_id }) peer audit_id
          now.created_at)
        (Task.import_image expected kind source expected_id)

  -- `submit_os_image_import`, after its checks.
  unfoldable pub submit_os_image_import :
      HostState
      → Generation
      → Text
      → Text
      → Option Text
      → Option ArtifactId
      → HostState × Result Operation ApiError
  unfolding submit_task new_operation
  submit_os_image_import s expected source label architecture expected_id =
      submit_task s now
        (new_operation OperationKind.import_os_image expected
          (record { kind = ResourceKind.os_image; id = catalog_or expected_id }) peer audit_id
          now.created_at)
        (Task.import_os_image expected source label architecture expected_id)

  -- `submit_managed_load`.
  unfoldable pub submit_managed_load :
      HostState → ManagedLoadRequest → HostState × Result Operation ApiError
  unfolding submit_task new_operation
  submit_managed_load s request =
      submit_task s now
        (new_operation OperationKind.load_instance request.expected_generation
          (instance_reference request.instance_id) peer audit_id now.created_at)
        (Task.managed_load request)
