-- ===== src/HostApi/Service/Requests.antt =====
-- What a request may do to the state of the host API, by its method and its path.
use kernmux.Prelude.{◌≡◌, ◌⊎◌, [], ◌∷◌, ◌++◌, Option, none, some, Result, err}
use kernmux.Prelude.Text.{Text, decimal, text}
use kernmux.Api.{
  ApiError, Generation, InstanceId, OperationId, OperationKind, ResourceKind, ResourceReference,
}
use kernmux.Images.{ArtifactId, ArtifactKind, ImageStore, refresh}
use kernmux.Lifecycle.{InstanceRequest, LifecycleRequest}
use kernmux.Operations.{NewOperation}
use kernmux.Security.{PeerIdentity}
use kernmux.HostApi.{Method, InstanceAction, image_resource, instance_resource, os_image_resource}
use kernmux.HostApi.Service.Types.{Circumstances, HostState, LocalRequest, LocalResponse, Task}
use kernmux.HostApi.Service.Submission.{submit_task}

-- The operation that a submission announces.
abbrev Announces : NewOperation → OperationKind → Generation → ResourceReference → Type 0
Announces new kind expected resource =
    (new.kind ≡ kind)
    × (new.expected_generation ≡ expected)
    × (new.affected_resources ≡ resource ∷ [])

abbrev of_instance : InstanceId → ResourceReference
of_instance id = record { kind = ResourceKind.instance; id = decimal id }

-- The request's method, and its path as the name of an instance and an action.
abbrev At : LocalRequest → Method → InstanceId → Option InstanceAction → Type 0
At request method id action =
    (request.method ≡ method) × (instance_resource request.path ≡ some (id, action))

-- The request's method, and its path written out.
abbrev Is : LocalRequest → Method → Text → Type 0
Is request method path = (request.method ≡ method) × (request.path ≡ path)

abbrev AsksChange : LocalRequest → NewOperation → LifecycleRequest → Type 0
AsksChange request new (LifecycleRequest.create r) =
    Is request Method.post (text "/1.0/instances")
    × Announces new OperationKind.create_instance r.expected_generation (of_instance r.id)
AsksChange request new (LifecycleRequest.update r) =
    let on : InstanceRequest = r.instance_request in
    At request Method.patch on.id none
    × Announces new OperationKind.update_instance on.expected_generation (of_instance on.id)
AsksChange request new (LifecycleRequest.load r) =
    let on : InstanceRequest = r.instance_request in
    At request Method.post on.id (some InstanceAction.load)
    × Announces new OperationKind.load_instance on.expected_generation (of_instance on.id)
AsksChange request new (LifecycleRequest.start on) =
    At request Method.post on.id (some InstanceAction.start)
    × Announces new OperationKind.start_instance on.expected_generation (of_instance on.id)
AsksChange request new (LifecycleRequest.stop r) =
    let on : InstanceRequest = r.instance_request in
    At request Method.post on.id (some InstanceAction.stop)
    × Announces new OperationKind.stop_instance on.expected_generation (of_instance on.id)
AsksChange request new (LifecycleRequest.unload on) =
    At request Method.post on.id (some InstanceAction.unload)
    × Announces new OperationKind.unload_instance on.expected_generation (of_instance on.id)
AsksChange request new (LifecycleRequest.delete on) =
    At request Method.delete on.id none
    × Announces new OperationKind.delete_instance on.expected_generation (of_instance on.id)

-- What is asked for by a request: the operation and the task.
abbrev pub Asks : LocalRequest → NewOperation → Task → Type 0
Asks request new (Task.lifecycle change) = AsksChange request new change
Asks request new (Task.resource_pool pool) =
    Is request Method.put (text "/1.0/resource-pool")
    × (((new.kind ≡ OperationKind.release_resource_pool)
          × (pool.cpu_hardware_ids ≡ [])
          × (pool.memory_bytes ≡ 0))
        ⊎ (new.kind ≡ OperationKind.initialize_resource_pool))
    × (new.expected_generation ≡ pool.expected_generation)
Asks request new (Task.import_image expected kind source id) =
    Is request Method.post (text "/1.0/images")
    × (new.kind ≡ OperationKind.import_image)
    × (new.expected_generation ≡ expected)
Asks request new (Task.import_os_image expected source label architecture id) =
    Is request Method.post (text "/1.0/os-images")
    × (new.kind ≡ OperationKind.import_os_image)
    × (new.expected_generation ≡ expected)
Asks request new (Task.managed_load load) =
    At request Method.post load.instance_id (some InstanceAction.load_image)
    × Announces new OperationKind.load_instance load.expected_generation
        (of_instance load.instance_id)

-- A submission of what the request asks for, in its peer's name.
abbrev pub Submits : Circumstances → PeerIdentity → LocalRequest → HostState → HostState → Type 0
Submits now peer request s t =
    (new : NewOperation) × (task : Task) × Asks request new task
    × ((new.actor ≡ some peer.actor)
        × (new.audit_id ≡ request.request_id)
        × (new.created_at ≡ now.created_at))
    × (t ≡ (submit_task s now new task).0)

-- The paths below which the image catalog is shown.
abbrev pub NamesImages : Text → Type 0
NamesImages path =
    (path ≡ text "/1.0/images")
    ⊎ (path ≡ text "/1.0/os-images")
    ⊎ ((kind : ArtifactKind) × (id : ArtifactId) × (image_resource path ≡ some (kind, id)))
    ⊎ ((id : ArtifactId) × (os_image_resource path ≡ some id))

-- What one request does: the answer, and the state and the world that it leaves.
pub data Step {W : Type 0} (disk : ImageStore W) (now : Circumstances) (peer : PeerIdentity)
    (request : LocalRequest) (s : HostState) (w : W)
    (out : (Result LocalResponse ApiError × HostState) × W) : Type 0 where
  looked : request.method ≡ Method.get → out.0.1 ≡ s → Step disk now peer request s w out
  refused : (e : ApiError) → out ≡ ((err e, s), w) → Step disk now peer request s w out
  read_catalog :
      request.method ≡ Method.get
      → NamesImages request.path
      → out.0.1 ≡ record s { image_catalog = (refresh disk s.image_catalog w).0.1 }
      → out.1 ≡ (refresh disk s.image_catalog w).1
      → Step disk now peer request s w out
  cancelled :
      (id : OperationId)
      → Is request Method.delete (text "/1.0/operations/" ++ id)
      → out.0.1 ≡ record s { scheduler = (kernmux.Scheduler.cancel s.scheduler id).0 }
      → Step disk now peer request s w out
  submitted : Submits now peer request s out.0.1 → Step disk now peer request s w out
