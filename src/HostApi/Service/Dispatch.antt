-- ===== src/HostApi/Service/Dispatch.antt =====
-- `dispatch`, `dispatch_resource` and `dispatch_instance`.
use kernmux.Prelude.{Option, none, some, Result}
use kernmux.Api.{ApiError, InstanceId, OperationKind}
use kernmux.Executor.{SnapshotRefresher}
use kernmux.Images.{ImageStore}
use kernmux.Lifecycle.{LifecycleRequest}
use kernmux.Security.{PeerIdentity}
use kernmux.HostApi.Errors.{not_found}
use kernmux.HostApi.Paths.{InstanceAction, Method}
use kernmux.HostApi.Routes.{Endpoint, Resource, endpoint, resource}
use kernmux.HostApi.Service.Reads.{
  snapshot, compatibility, resource_pool, instances, images, image, os_images, os_image_at,
  storage_devices, operations, operation, events, instance_at,
}
use kernmux.HostApi.Service.Types.{
  Circumstances, FileSystem, HostState, Json, LocalRequest, LocalResponse, StorageBackend,
}
use kernmux.HostApi.Service.Mutations.{
  Handled, refused, instance_request, load_instance, load_managed_image, change_instance,
  import_image, import_os_image, create_instance, set_resource_pool, cancel,
}

module _ {W F S : Type 0} (snapshots : SnapshotRefresher W F) (disk : ImageStore W)
    (storage : StorageBackend W S) (codec : Json S) (files : FileSystem W) (now : Circumstances)
    (peer : PeerIdentity) where
  abbrev reply : (Result LocalResponse ApiError × W) → HostState → Handled W
  reply (answer, w) s = ((answer, s), w)

  -- `dispatch_instance`.
  unfoldable pub dispatch_instance :
      LocalRequest → Method → InstanceId → Option InstanceAction → HostState → W → Handled W
  unfolding instance_at change_instance load_instance load_managed_image not_found
  dispatch_instance request Method.get id none s w =
      reply (instance_at snapshots disk storage codec id w) s
  dispatch_instance request Method.patch id none s w =
      change_instance codec files now peer request OperationKind.update_instance id
        (codec.read_update request.body)
        (λ m. (
          LifecycleRequest.update (record {
            instance_request = instance_request m.expected_generation id;
            cpu_hardware_ids = m.cpu_hardware_ids;
            memory_bytes = m.memory_bytes;
            device_ids = m.device_ids;
            dry_run = m.dry_run;
          }),
          m.expected_generation,
        ))
        s w
  dispatch_instance request Method.delete id none s w =
      change_instance codec files now peer request OperationKind.delete_instance id
        (codec.read_lifecycle request.body)
        (λ m. (
          LifecycleRequest.delete (instance_request m.expected_generation id),
          m.expected_generation,
        ))
        s w
  dispatch_instance request Method.post id (some InstanceAction.load) s w =
      load_instance codec files now peer request id s w
  dispatch_instance request Method.post id (some InstanceAction.load_image) s w =
      load_managed_image codec files now peer request id s w
  dispatch_instance request Method.post id (some InstanceAction.start) s w =
      change_instance codec files now peer request OperationKind.start_instance id
        (codec.read_lifecycle request.body)
        (λ m. (
          LifecycleRequest.start (instance_request m.expected_generation id),
          m.expected_generation,
        ))
        s w
  dispatch_instance request Method.post id (some InstanceAction.stop) s w =
      change_instance codec files now peer request OperationKind.stop_instance id
        (codec.read_stop request.body)
        (λ m. (
          LifecycleRequest.stop (record {
            instance_request = instance_request m.expected_generation id;
            force = m.force;
          }),
          m.expected_generation,
        ))
        s w
  dispatch_instance request Method.post id (some InstanceAction.unload) s w =
      change_instance codec files now peer request OperationKind.unload_instance id
        (codec.read_lifecycle request.body)
        (λ m. (
          LifecycleRequest.unload (instance_request m.expected_generation id),
          m.expected_generation,
        ))
        s w
  dispatch_instance request _ id _ s w = refused not_found s w

  -- `dispatch_resource`.
  unfoldable pub dispatch_resource : LocalRequest → Method → Resource → HostState → W → Handled W
  unfolding dispatch_instance operation cancel image os_image_at not_found
  dispatch_resource request Method.get (Resource.operation id) s w =
      ((operation snapshots disk storage codec s id, s), w)
  dispatch_resource request Method.delete (Resource.operation id) s w =
      cancel codec files now peer id s w
  dispatch_resource request Method.get (Resource.image kind id) s w =
      image snapshots disk storage codec s kind id w
  dispatch_resource request Method.get (Resource.os_image id) s w =
      os_image_at snapshots disk storage codec s id w
  dispatch_resource request method (Resource.instance_at id action) s w =
      dispatch_instance request method id action s w
  dispatch_resource request _ _ s w = refused not_found s w

  -- The arms of `dispatch` on the paths written out; none is its last arm.
  unfoldable pub dispatch_endpoint :
      LocalRequest → Method → Endpoint → HostState → W → Option (Handled W)
  unfolding snapshot compatibility resource_pool instances images os_images storage_devices
      operations events set_resource_pool create_instance import_image import_os_image
  dispatch_endpoint request Method.get Endpoint.root s w =
      some (reply (snapshot snapshots disk storage codec s w) s)
  dispatch_endpoint request Method.get Endpoint.compatibility s w =
      some ((compatibility snapshots disk storage codec s, s), w)
  dispatch_endpoint request Method.get Endpoint.resource_pool s w =
      some (reply (resource_pool snapshots disk storage codec w) s)
  dispatch_endpoint request Method.get Endpoint.instances s w =
      some (reply (instances snapshots disk storage codec w) s)
  dispatch_endpoint request Method.get Endpoint.images s w =
      some (images snapshots disk storage codec s w)
  dispatch_endpoint request Method.get Endpoint.os_images s w =
      some (os_images snapshots disk storage codec s w)
  dispatch_endpoint request Method.get Endpoint.storage_devices s w =
      some (reply (storage_devices snapshots disk storage codec w) s)
  dispatch_endpoint request Method.get Endpoint.operations s w =
      some ((operations snapshots disk storage codec s, s), w)
  dispatch_endpoint request Method.get Endpoint.events s w =
      some ((events snapshots disk storage codec s request.query, s), w)
  dispatch_endpoint request Method.put Endpoint.resource_pool s w =
      some (set_resource_pool codec files now peer request s w)
  dispatch_endpoint request Method.post Endpoint.instances s w =
      some (create_instance codec files now peer request s w)
  dispatch_endpoint request Method.post Endpoint.images s w =
      some (import_image codec files now peer request s w)
  dispatch_endpoint request Method.post Endpoint.os_images s w =
      some (import_os_image codec files now peer request s w)
  dispatch_endpoint request _ _ s w = none

  abbrev handled_or : Option (Handled W) → Handled W → Handled W
  handled_or none rest = rest
  handled_or (some handled) rest = handled

  unfoldable pub dispatch_at :
      LocalRequest → Method → Endpoint → Resource → HostState → W → Handled W
  unfolding dispatch_endpoint dispatch_resource
  dispatch_at request method e r s w =
      handled_or (dispatch_endpoint request method e s w) (dispatch_resource request method r s w)

  -- `dispatch`: the result is an answer or the error that `handle` turns into one.
  unfoldable pub dispatch : LocalRequest → HostState → W → Handled W
  unfolding dispatch_at endpoint resource
  dispatch request s w =
      dispatch_at request request.method (endpoint request.path) (resource request.path) s w
