-- ===== src/HostApi/Service/Types.antt =====
-- The bodies of requests and responses, the mutation tasks, and the state that requests change.
use kernmux.Prelude.{ℕ, Bool, Option, List}
use kernmux.Prelude.Text.{Text}
use kernmux.Api.{
  ApiError, Event, EventSequence, Generation, HostSnapshot, Instance, InstanceId, Operation,
  OperationId, ResourcePool,
}
use kernmux.Api.Compatibility.{HostCompatibilityReport}
use kernmux.Images.{ArtifactId, ArtifactKind, ImageCatalog, OsImageFormat}
use kernmux.Lifecycle.{LifecycleRequest}
use kernmux.ResourcePool.{ResourcePoolRequest}
use kernmux.Scheduler.{OperationScheduler}
use kernmux.Security.{ServiceLimiter, ServicePermit}
use kernmux.HostApi.Paths.{Method}

-- The mutations that request bodies hold.
pub record ResourcePoolMutation : Type 0 where
  pub expected_generation : Generation
  pub cpu_hardware_ids : List ℕ
  pub memory_bytes : ℕ

pub record CreateInstanceMutation : Type 0 where
  pub expected_generation : Generation
  pub id : InstanceId
  pub name : Text
  pub cpu_hardware_ids : List ℕ
  pub memory_bytes : ℕ

pub record UpdateInstanceMutation : Type 0 where
  pub expected_generation : Generation
  pub cpu_hardware_ids : Option (List ℕ)
  pub memory_bytes : Option ℕ
  pub device_ids : Option (List Text)
  pub dry_run : Bool

pub record LoadInstanceMutation : Type 0 where
  pub expected_generation : Generation
  pub kernel_path : Text
  pub initrd_path : Option Text
  pub command_line : Option Text

pub record LoadManagedImageMutation : Type 0 where
  pub expected_generation : Generation
  pub kernel_id : Text
  pub initrd_id : Option Text
  pub command_line : Option Text

pub data ImageKind : Type 0 where
  kernel initrd unknown : ImageKind

pub record ImportImageMutation : Type 0 where
  pub expected_generation : Generation
  pub kind : ImageKind
  pub source_path : Text
  pub expected_id : Option Text

pub record ImportOsImageMutation : Type 0 where
  pub expected_generation : Generation
  pub source_path : Text
  pub label : Text
  pub architecture : Option Text
  pub expected_id : Option Text

pub record InstanceLifecycleMutation : Type 0 where
  pub expected_generation : Generation

pub record StopInstanceMutation : Type 0 where
  pub expected_generation : Generation
  pub force : Bool

-- What responses hold.
pub record ImageArtifact : Type 0 where
  pub schema_version : ℕ
  pub kind : ImageKind
  pub id : Text
  pub bytes : ℕ

pub record OsImage : Type 0 where
  pub schema_version : ℕ
  pub id : Text
  pub label : Text
  pub format : OsImageFormat
  pub stored_bytes : ℕ
  pub virtual_bytes : ℕ
  pub architecture : Option Text

pub record EventPage : Type 0 where
  pub events : List Event
  pub overflowed : Bool
  pub latest_sequence : EventSequence

-- The data of a `Response::Result`; a storage inventory, of the type S, is not looked into.
pub data Payload (S : Type 0) : Type 0 where
  snapshot : HostSnapshot → Payload S
  report : HostCompatibilityReport → Payload S
  pool : ResourcePool → Payload S
  instance_of : Instance → Payload S
  instances : List Instance → Payload S
  image : ImageArtifact → Payload S
  images : List ImageArtifact → Payload S
  os_image : OsImage → Payload S
  os_images : List OsImage → Payload S
  storage : S → Payload S
  operation : Operation → Payload S
  operations : List Operation → Payload S
  events : EventPage → Payload S

-- `Response`.
pub data Response (S : Type 0) : Type 0 where
  result : Generation → Payload S → Response S
  accepted : Operation → Response S
  failure : ApiError → Response S

-- Fully buffered and bounded request passed to the API dispatcher.
pub record LocalRequest : Type 0 where
  pub method : Method
  pub path : Text
  pub query : Option Text
  pub request_id : Option Text
  pub body : Text

-- Transport-independent response returned by the API dispatcher.
pub record LocalResponse : Type 0 where
  pub status : ℕ
  pub content_type : Text
  pub body : Text

pub record ManagedLoadRequest : Type 0 where
  pub instance_id : InstanceId
  pub expected_generation : Generation
  pub kernel_id : ArtifactId
  pub initrd_id : Option ArtifactId
  pub command_line : Option Text

-- The closures that worker threads run.
pub data Task : Type 0 where
  lifecycle : LifecycleRequest → Task
  resource_pool : ResourcePoolRequest → Task
  import_image : Generation → ArtifactKind → Text → Option ArtifactId → Task
  import_os_image : Generation → Text → Text → Option Text → Option ArtifactId → Task
  managed_load : ManagedLoadRequest → Task

-- A closure in a worker thread, with the permit that it owns.
pub record PendingTask : Type 0 where
  pub operation_id : OperationId
  pub task : Task
  pub permit : ServicePermit

-- The state of `HostApi` behind its locks, and the closures that its threads still hold.
pub record HostState : Type 0 where
  pub scheduler : OperationScheduler
  pub limiter : ServiceLimiter
  pub image_catalog : ImageCatalog
  pub compatibility_report : Option (Generation × HostCompatibilityReport)
  pub image_roots : List Text
  pub tasks : List PendingTask

-- What a submission meets: the clock, and whether a thread can be spawned.
pub record Circumstances : Type 0 where
  pub created_at : Text
  pub spawned : Bool
  pub failed_at : Text

-- serde_json: the readers of bodies, and the writer of responses.
pub record Json (S : Type 0) : Type 0 where
  pub read_resource_pool : Text → Option ResourcePoolMutation
  pub read_create : Text → Option CreateInstanceMutation
  pub read_update : Text → Option UpdateInstanceMutation
  pub read_load : Text → Option LoadInstanceMutation
  pub read_managed_load : Text → Option LoadManagedImageMutation
  pub read_import_image : Text → Option ImportImageMutation
  pub read_import_os_image : Text → Option ImportOsImageMutation
  pub read_lifecycle : Text → Option InstanceLifecycleMutation
  pub read_stop : Text → Option StopInstanceMutation
  pub write : Response S → Option Text

-- The storage scan, of the devices that instances own.
pub record StorageBackend (W S : Type 0) : Type 0 where
  pub observe : List Text → W → Option S
  pub generation : S → Generation

-- The file system: `Path::canonicalize`, and whether the metadata say file or directory.
pub record FileSystem (W : Type 0) : Type 0 where
  pub canonicalize : Text → W → Option Text
  pub is_file : Text → W → Option Bool
  pub is_dir : Text → W → Bool
