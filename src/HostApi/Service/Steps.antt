-- ===== src/HostApi/Service/Steps.antt =====
-- `dispatch` makes at most one step: a new reading of the catalog, a cancellation, or a submission.
use kernmux.Prelude.{some_injective, ◌≡◌, inl, inr, refl, subst, Option, some, Result, Option-cases}
use kernmux.Prelude.Text.{Text, text}
use kernmux.Api.{ApiError, Generation, OperationKind, ResourceKind}
use kernmux.Executor.{SnapshotRefresher}
use kernmux.Images.{ArtifactId, ArtifactKind, ImageStore}
use kernmux.Lifecycle.{LifecycleRequest}
use kernmux.Security.{PeerIdentity}
use kernmux.HostApi.{Method, Endpoint, Resource, endpoint, resource}
use kernmux.HostApi.Meaning.{
  spells_pool, spells_instances, spells_images, spells_os_images, named_operation, named_instance,
  named_image, named_os_image,
}
use kernmux.HostApi.Service.Types.{
  Circumstances, CreateInstanceMutation, FileSystem, HostState, Json, LocalRequest, LocalResponse,
  StorageBackend, Task,
}
use kernmux.HostApi.Service.Submission.{
  new_operation, pool_operation_kind, submit_lifecycle, submit_resource_pool, submit_image_import,
  submit_os_image_import,
}
use kernmux.HostApi.Service.Reads.{images, os_images, image, os_image_at, with_catalog}
use kernmux.HostApi.Service.Dispatch.{dispatch, dispatch_at, dispatch_endpoint, dispatch_resource}
use kernmux.HostApi.Service.Mutations.{
  decode, import_image, import_os_image, create_instance, set_resource_pool, cancel, cancel_answer,
}
use kernmux.HostApi.Service.Requests.{Step, Submits, looked, refused, read_catalog, cancelled}
use kernmux.HostApi.Service.Building.{pool_operation_kind_cases}
use kernmux.HostApi.Service.Changes.{checked_Step, lifecycle_Step, instance_Step}

module _ {W F S : Type 0} (snapshots : SnapshotRefresher W F) (disk : ImageStore W)
    (storage : StorageBackend W S) (codec : Json S) (files : FileSystem W) (now : Circumstances)
    (peer : PeerIdentity) (request : LocalRequest) (s : HostState) (w : W) where
  abbrev Out : Type 0
  Out = (Result LocalResponse ApiError × HostState) × W

  abbrev Taken : Out → Type 0
  Taken = Step disk now peer request s w

  abbrev Submission : HostState → Type 0
  Submission = Submits now peer request s

  moved : (x : Out) {y : Out} → some x ≡ some y → Taken x → Taken y
  moved x e = subst Taken (some_injective e)

  resource_Step :
      (m : Method) (r : Resource)
      → request.method ≡ m
      → resource request.path ≡ r
      → Taken (dispatch_resource snapshots disk storage codec files now peer request m r s w)
  unfolding dispatch_resource image os_image_at with_catalog cancel cancel_answer
  resource_Step Method.get (Resource.operation id) e p = looked e refl
  resource_Step Method.get (Resource.image kind id) e p =
      read_catalog e (inr (inr (inl (kind, id, named_image request.path kind id p)))) refl refl
  resource_Step Method.get (Resource.os_image id) e p =
      read_catalog e (inr (inr (inr (id, named_os_image request.path id p)))) refl refl
  resource_Step Method.delete (Resource.operation id) e p =
      cancelled id (e, named_operation request.path id p) refl
  resource_Step Method.put (Resource.operation id) e p = refused _ refl
  resource_Step Method.post (Resource.operation id) e p = refused _ refl
  resource_Step Method.patch (Resource.operation id) e p = refused _ refl
  resource_Step Method.other (Resource.operation id) e p = refused _ refl
  resource_Step Method.put (Resource.image kind id) e p = refused _ refl
  resource_Step Method.put (Resource.os_image id) e p = refused _ refl
  resource_Step Method.post (Resource.image kind id) e p = refused _ refl
  resource_Step Method.post (Resource.os_image id) e p = refused _ refl
  resource_Step Method.patch (Resource.image kind id) e p = refused _ refl
  resource_Step Method.patch (Resource.os_image id) e p = refused _ refl
  resource_Step Method.delete (Resource.image kind id) e p = refused _ refl
  resource_Step Method.delete (Resource.os_image id) e p = refused _ refl
  resource_Step Method.other (Resource.image kind id) e p = refused _ refl
  resource_Step Method.other (Resource.os_image id) e p = refused _ refl
  resource_Step Method.get (Resource.instance_at id action) e p =
      instance_Step snapshots disk storage codec files now peer request s w Method.get id action e
        (named_instance request.path id action p)
  resource_Step Method.get Resource.nothing e p = refused _ refl
  resource_Step Method.put (Resource.instance_at id action) e p =
      instance_Step snapshots disk storage codec files now peer request s w Method.put id action e
        (named_instance request.path id action p)
  resource_Step Method.put Resource.nothing e p = refused _ refl
  resource_Step Method.post (Resource.instance_at id action) e p =
      instance_Step snapshots disk storage codec files now peer request s w Method.post id action e
        (named_instance request.path id action p)
  resource_Step Method.post Resource.nothing e p = refused _ refl
  resource_Step Method.patch (Resource.instance_at id action) e p =
      instance_Step snapshots disk storage codec files now peer request s w Method.patch id action e
        (named_instance request.path id action p)
  resource_Step Method.patch Resource.nothing e p = refused _ refl
  resource_Step Method.delete (Resource.instance_at id action) e p =
      instance_Step snapshots disk storage codec files now peer request s w Method.delete id action
        e (named_instance request.path id action p)
  resource_Step Method.delete Resource.nothing e p = refused _ refl
  resource_Step Method.other (Resource.instance_at id action) e p =
      instance_Step snapshots disk storage codec files now peer request s w Method.other id action e
        (named_instance request.path id action p)
  resource_Step Method.other Resource.nothing e p = refused _ refl

  pool_Step :
      request.method ≡ Method.put
      → endpoint request.path ≡ Endpoint.resource_pool
      → Taken (set_resource_pool codec files now peer request s w)
  unfolding set_resource_pool submit_resource_pool new_operation
  pool_Step e p =
      checked_Step snapshots disk storage codec files now peer request s w
        (submit_resource_pool now peer request.request_id s)
        (decode (codec.read_resource_pool request.body))
        (λ mutation h. (
          new_operation (pool_operation_kind now peer request.request_id mutation)
              mutation.expected_generation
              (record { kind = ResourceKind.resource_pool; id = text "host" }) peer
              request.request_id now.created_at,
          Task.resource_pool (record {
            expected_generation = mutation.expected_generation;
            cpu_hardware_ids = mutation.cpu_hardware_ids;
            memory_bytes = mutation.memory_bytes;
          }),
          (
            (e, spells_pool request.path p),
            pool_operation_kind_cases now peer request.request_id mutation,
            refl,
          ),
          (refl, refl, refl),
          refl,
        ))

  abbrev creation : CreateInstanceMutation → LifecycleRequest
  creation mutation = LifecycleRequest.create (record {
    expected_generation = mutation.expected_generation;
    id = mutation.id;
    name = mutation.name;
    cpu_hardware_ids = mutation.cpu_hardware_ids;
    memory_bytes = mutation.memory_bytes;
  })

  create_Step :
      request.method ≡ Method.post
      → endpoint request.path ≡ Endpoint.instances
      → Taken (create_instance codec files now peer request s w)
  unfolding create_instance new_operation
  create_Step e p =
      checked_Step snapshots disk storage codec files now peer request s w
        (λ (m : CreateInstanceMutation).
          submit_lifecycle now peer request.request_id s (creation m) OperationKind.create_instance
            m.expected_generation m.id)
        (decode (codec.read_create request.body))
        (λ m h.
          lifecycle_Step snapshots disk storage codec files now peer request s w (creation m)
            OperationKind.create_instance m.expected_generation m.id
            ((e, spells_instances request.path p), (refl, refl, refl)))

  import_Step :
      request.method ≡ Method.post
      → endpoint request.path ≡ Endpoint.images
      → Taken (import_image codec files now peer request s w)
  unfolding import_image submit_image_import new_operation
  import_Step e p =
      checked_Step snapshots disk storage codec files now peer request s w
        (λ (import : Generation × ArtifactKind × Text × Option ArtifactId).
          submit_image_import now peer request.request_id s import.0 import.1 import.2 import.3)
        _
        (λ import h. (
          _,
          Task.import_image import.0 import.1 import.2 import.3,
          ((e, spells_images request.path p), refl, refl),
          (refl, refl, refl),
          refl,
        ))

  import_os_Step :
      request.method ≡ Method.post
      → endpoint request.path ≡ Endpoint.os_images
      → Taken (import_os_image codec files now peer request s w)
  unfolding import_os_image submit_os_image_import new_operation
  import_os_Step e p =
      checked_Step snapshots disk storage codec files now peer request s w
        (λ (import : Generation × Text × Text × Option Text × Option ArtifactId).
          submit_os_image_import now peer request.request_id s import.0 import.1 import.2 import.3
            import.4)
        _
        (λ import h. (
          _,
          Task.import_os_image import.0 import.1 import.2 import.3 import.4,
          ((e, spells_os_images request.path p), refl, refl),
          (refl, refl, refl),
          refl,
        ))

  endpoint_Step :
      (m : Method) (e : Endpoint) (h : Out)
      → request.method ≡ m
      → endpoint request.path ≡ e
      → dispatch_endpoint snapshots disk storage codec files now peer request m e s w ≡ some h
      → Taken h
  unfolding dispatch_endpoint images os_images with_catalog
  endpoint_Step Method.get Endpoint.root h m p k = moved _ k (looked m refl)
  endpoint_Step Method.get Endpoint.compatibility h m p k = moved _ k (looked m refl)
  endpoint_Step Method.get Endpoint.resource_pool h m p k = moved _ k (looked m refl)
  endpoint_Step Method.get Endpoint.instances h m p k = moved _ k (looked m refl)
  endpoint_Step Method.get Endpoint.storage_devices h m p k = moved _ k (looked m refl)
  endpoint_Step Method.get Endpoint.operations h m p k = moved _ k (looked m refl)
  endpoint_Step Method.get Endpoint.events h m p k = moved _ k (looked m refl)
  endpoint_Step Method.get Endpoint.images h m p k =
      moved _ k (read_catalog m (inl (spells_images request.path p)) refl refl)
  endpoint_Step Method.get Endpoint.os_images h m p k =
      moved _ k (read_catalog m (inr (inl (spells_os_images request.path p))) refl refl)
  endpoint_Step Method.get Endpoint.below h m p k = cc
  endpoint_Step Method.put Endpoint.root h m p k = cc
  endpoint_Step Method.put Endpoint.compatibility h m p k = cc
  endpoint_Step Method.put Endpoint.resource_pool h m p k = moved _ k (pool_Step m p)
  endpoint_Step Method.put Endpoint.instances h m p k = cc
  endpoint_Step Method.put Endpoint.images h m p k = cc
  endpoint_Step Method.put Endpoint.os_images h m p k = cc
  endpoint_Step Method.put Endpoint.storage_devices h m p k = cc
  endpoint_Step Method.put Endpoint.operations h m p k = cc
  endpoint_Step Method.put Endpoint.events h m p k = cc
  endpoint_Step Method.put Endpoint.below h m p k = cc
  endpoint_Step Method.post Endpoint.root h m p k = cc
  endpoint_Step Method.post Endpoint.compatibility h m p k = cc
  endpoint_Step Method.post Endpoint.resource_pool h m p k = cc
  endpoint_Step Method.post Endpoint.instances h m p k = moved _ k (create_Step m p)
  endpoint_Step Method.post Endpoint.images h m p k = moved _ k (import_Step m p)
  endpoint_Step Method.post Endpoint.os_images h m p k = moved _ k (import_os_Step m p)
  endpoint_Step Method.post Endpoint.storage_devices h m p k = cc
  endpoint_Step Method.post Endpoint.operations h m p k = cc
  endpoint_Step Method.post Endpoint.events h m p k = cc
  endpoint_Step Method.post Endpoint.below h m p k = cc
  endpoint_Step Method.patch e h m p k = cc
  endpoint_Step Method.delete e h m p k = cc
  endpoint_Step Method.other e h m p k = cc

  pub dispatch-Step : Taken (dispatch snapshots disk storage codec files now peer request s w)
  unfolding dispatch dispatch_at
  dispatch-Step =
      let m = request.method in
      let e = endpoint request.path in
      elim (Option-cases
        (dispatch_endpoint snapshots disk storage codec files now peer request m e s w)) [
          | inl below ↦ rw below (resource_Step m (resource request.path) refl refl)
          | inr (handled, found) ↦ rw found (endpoint_Step m e handled refl refl found)
        ]
