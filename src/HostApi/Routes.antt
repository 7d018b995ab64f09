-- ===== src/HostApi/Routes.antt =====
-- `route_for`: the security class of a request, from its method and path alone.
use kernmux.Prelude.{Option, none, some, if◌then◌else◌}
use kernmux.Prelude.Order.{bytes_ord, same}
use kernmux.Prelude.Text.{Text, text}
use kernmux.Api.{InstanceId, OperationId}
use kernmux.Images.{ArtifactId, ArtifactKind}
use kernmux.Security.{AuditAction, RequestClass}
use kernmux.HostApi.Paths.{
  Method, InstanceAction, operation_id_from_path, image_resource, os_image_resource,
  instance_resource,
}

-- Authorized route metadata resolved before request body processing.
pub record RouteSecurity : Type 0 where
  pub class : RequestClass
  pub audit_action : AuditAction

-- The paths that both `match`es write out; `below` is every other path.
pub data Endpoint : Type 0 where
  root compatibility resource_pool instances images os_images storage_devices operations events
        below :
      Endpoint

unfoldable pub endpoint : Text → Endpoint
endpoint path =
    if same path (text "/1.0")
    then Endpoint.root
    else if same path (text "/1.0/compatibility")
    then Endpoint.compatibility
    else if same path (text "/1.0/resource-pool")
    then Endpoint.resource_pool
    else if same path (text "/1.0/instances")
    then Endpoint.instances
    else if same path (text "/1.0/images")
    then Endpoint.images
    else if same path (text "/1.0/os-images")
    then Endpoint.os_images
    else if same path (text "/1.0/storage-devices")
    then Endpoint.storage_devices
    else if same path (text "/1.0/operations")
    then Endpoint.operations
    else if same path (text "/1.0/events")
    then Endpoint.events
    else Endpoint.below

-- What a path below names, in the order of the tests.
pub data Resource : Type 0 where
  operation : OperationId → Resource
  image : ArtifactKind → ArtifactId → Resource
  os_image : ArtifactId → Resource
  instance_at : InstanceId → Option InstanceAction → Resource
  nothing : Resource

abbrev pub instance_or_nothing : Option (InstanceId × Option InstanceAction) → Resource
instance_or_nothing none = Resource.nothing
instance_or_nothing (some (id, action)) = Resource.instance_at id action

abbrev pub os_image_or : Option ArtifactId → Resource → Resource
os_image_or none rest = rest
os_image_or (some id) rest = Resource.os_image id

abbrev pub image_or : Option (ArtifactKind × ArtifactId) → Resource → Resource
image_or none rest = rest
image_or (some (kind, id)) rest = Resource.image kind id

abbrev pub operation_or : Option OperationId → Resource → Resource
operation_or none rest = rest
operation_or (some id) rest = Resource.operation id

unfoldable pub resource : Text → Resource
unfolding operation_id_from_path image_resource os_image_resource instance_resource
resource path = operation_or (operation_id_from_path path) (
    image_or (image_resource path)
      (os_image_or (os_image_resource path) (instance_or_nothing (instance_resource path))))

abbrev read : RouteSecurity
read = record { class = RequestClass.read_only; audit_action = AuditAction.read_inventory }

abbrev mutation : RouteSecurity
mutation = record { class = RequestClass.mutation; audit_action = AuditAction.mutate_lifecycle }

abbrev of_class : RequestClass → AuditAction → Option RouteSecurity
of_class class action = some (record { class = class; audit_action = action })

-- The last arms of the `match`, on what the path names.
unfoldable pub route_resource : Method → Resource → Option RouteSecurity
route_resource Method.get (Resource.operation id) = some read
route_resource Method.delete (Resource.operation id) =
    of_class RequestClass.mutation AuditAction.cancel_operation
route_resource Method.get (Resource.image kind id) = some read
route_resource Method.get (Resource.os_image id) = some read
route_resource Method.get (Resource.instance_at id none) = some read
route_resource Method.patch (Resource.instance_at id none) = some mutation
route_resource Method.delete (Resource.instance_at id none) = some mutation
route_resource Method.post (Resource.instance_at id (some InstanceAction.console)) =
    of_class RequestClass.console AuditAction.attach_console
route_resource Method.post (Resource.instance_at id (some _)) = some mutation
route_resource _ _ = none

-- The first arms, on the paths written out.
unfoldable pub route_endpoint : Method → Endpoint → Option (Option RouteSecurity)
route_endpoint _ Endpoint.below = none
route_endpoint Method.get _ = some (some read)
route_endpoint Method.post Endpoint.images =
    some (of_class RequestClass.administration AuditAction.manage_images)
route_endpoint Method.post Endpoint.os_images =
    some (of_class RequestClass.administration AuditAction.manage_images)
route_endpoint Method.put Endpoint.resource_pool =
    some (of_class RequestClass.mutation AuditAction.mutate_resource_pool)
route_endpoint Method.post Endpoint.instances = some (some mutation)
route_endpoint _ _ = none

abbrev pub route_or : Option (Option RouteSecurity) → Option RouteSecurity → Option RouteSecurity
route_or none rest = rest
route_or (some route) rest = route

-- The whole `match`, on what the path is.
unfoldable pub route_at : Method → Endpoint → Resource → Option RouteSecurity
unfolding route_resource route_endpoint
route_at method e r = route_or (route_endpoint method e) (route_resource method r)

-- `route_for`.
unfoldable pub route_for : Method → Text → Option RouteSecurity
unfolding endpoint resource route_at
route_for method path = route_at method (endpoint path) (resource path)
