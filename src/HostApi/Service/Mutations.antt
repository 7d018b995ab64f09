-- ===== src/HostApi/Service/Mutations.antt =====
-- The mutations of host_api.rs: what each handler reads from its body, checks and submits.
use kernmux.Prelude.{Option, none, some, Result, ok, err, ◌>>=◌, ◌>>◌, map_err, ok_or}
use kernmux.Prelude.Text.{Text, text}
use kernmux.Api.{ApiError, Generation, InstanceId, Operation, OperationId, OperationKind}
use kernmux.Images.{ArtifactId, ArtifactKind, ImageStore}
use kernmux.Lifecycle.{InstanceRequest, LifecycleRequest}
use kernmux.Operations.{OperationRegistryError, get}
use kernmux.Scheduler.{OperationScheduler}
use kernmux.Security.{PeerIdentity}
use kernmux.HostApi.Errors.{image_store_api_error, invalid, not_found, registry_error}
use kernmux.HostApi.Paths.{validate_command_line}
use kernmux.HostApi.Service.Files.{resolve_image}
use kernmux.HostApi.Service.Reads.{json, operation}
use kernmux.HostApi.Service.Submission.{
  submit_image_import, submit_lifecycle, submit_managed_load, submit_os_image_import,
  submit_resource_pool,
}
use kernmux.HostApi.Service.Types.{
  Circumstances, FileSystem, HostState, ImageKind, Json, LocalRequest, LocalResponse, Response,
}

-- `artifact_kind`.
unfoldable pub artifact_kind : ImageKind → Result ArtifactKind ApiError
unfolding invalid
artifact_kind ImageKind.kernel = ok ArtifactKind.kernel
artifact_kind ImageKind.initrd = ok ArtifactKind.initrd
artifact_kind ImageKind.unknown = err (invalid (text "image kind is not supported"))

-- `decode`, on what serde makes of the body.
unfoldable pub decode {ℓ} : {A : Type ℓ} → Option A → Result A ApiError
unfolding invalid
decode body = ok_or body (invalid (text "request JSON is invalid"))

-- `instance_request`.
abbrev pub instance_request : Generation → InstanceId → InstanceRequest
instance_request expected id = record { expected_generation = expected; id = id }

-- `option.map(f).transpose()`.
abbrev pub transpose {ℓ κ μ} :
    {A : Type ℓ} {B : Type κ} {E : Type μ} → (A → Result B E) → Option A → Result (Option B) E
transpose f none = ok none
transpose f (some a) = f a >>= λ b. ok (some b)

-- `ArtifactId::parse(..).map_err(image_store_api_error)`.
unfoldable pub artifact_id : Text → Result ArtifactId ApiError
unfolding image_store_api_error
artifact_id value = map_err image_store_api_error (kernmux.Images.parse value)

abbrev pub Handled : Type 0 → Type 0
Handled W = (Result LocalResponse ApiError × HostState) × W

abbrev pub refused : {W : Type 0} → ApiError → HostState → W → Handled W
refused e s w = ((err e, s), w)

module _ {W S : Type 0} (codec : Json S) (files : FileSystem W) (now : Circumstances)
    (peer : PeerIdentity) where
  -- `accepted_response`.
  unfoldable pub accepted_response : Result Operation ApiError → Result LocalResponse ApiError
  unfolding json
  accepted_response (err e) = err e
  accepted_response (ok operation) = json codec 202 (Response.accepted operation)

  -- The submission of a request that passed its checks.
  unfoldable pub after_checks {ℓ} :
      {A : Type ℓ}
      → (A → HostState × Result Operation ApiError)
      → Result A ApiError
      → HostState
      → W
      → Handled W
  unfolding accepted_response
  after_checks submit (err e) s w = refused e s w
  after_checks submit (ok a) s w =
      let (s1, operation) = submit a in ((accepted_response operation, s1), w)

  -- The answer to a cancellation.
  unfoldable pub cancel_answer :
      OperationId
      → HostState
      → OperationScheduler × Result (Unit {0}) OperationRegistryError
      → Result LocalResponse ApiError × HostState
  unfolding accepted_response registry_error not_found get
  cancel_answer id s (scheduler, answer) = (
    accepted_response
        (map_err registry_error answer >> ok_or (get scheduler.registry id) not_found),
    record s { scheduler = scheduler },
  )

  -- `cancel`.
  unfoldable pub cancel : OperationId → HostState → W → Handled W
  unfolding cancel_answer
  cancel id s w = (cancel_answer id s (kernmux.Scheduler.cancel s.scheduler id), w)

  -- `dispatch_instance_load`.
  unfoldable pub load_instance : LocalRequest → InstanceId → HostState → W → Handled W
  unfolding after_checks decode resolve_image validate_command_line submit_lifecycle
  load_instance request id s w =
      after_checks
        (λ (load : LifecycleRequest × Generation).
          submit_lifecycle now peer request.request_id s load.0 OperationKind.load_instance load.1
            id)
        (decode (codec.read_load request.body) >>= λ mutation.
          resolve_image files s.image_roots mutation.kernel_path w >>= λ kernel.
          transpose (λ path. resolve_image files s.image_roots path w) mutation.initrd_path
          >>= λ initrd.
              validate_command_line mutation.command_line
              >> ok (
                LifecycleRequest.load (record {
                  instance_request = instance_request mutation.expected_generation id;
                  kernel = kernel;
                  initrd = initrd;
                  cmdline = mutation.command_line;
                }),
                mutation.expected_generation,
              ))
        s w

  unfoldable pub load_managed_image : LocalRequest → InstanceId → HostState → W → Handled W
  unfolding after_checks decode validate_command_line artifact_id submit_managed_load
  load_managed_image request id s w =
      after_checks (submit_managed_load now peer request.request_id s)
        (decode (codec.read_managed_load request.body) >>= λ mutation.
          validate_command_line mutation.command_line
          >> (artifact_id mutation.kernel_id >>= λ kernel.
              transpose artifact_id mutation.initrd_id >>= λ initrd. ok (record {
                instance_id = id;
                expected_generation = mutation.expected_generation;
                kernel_id = kernel;
                initrd_id = initrd;
                command_line = mutation.command_line;
              })))
        s w

  -- A mutation of one instance, by what its body holds.
  unfoldable pub change_instance {ℓ} :
      {A : Type ℓ}
      → LocalRequest
      → OperationKind
      → InstanceId
      → Option A
      → (A → LifecycleRequest × Generation)
      → HostState
      → W
      → Handled W
  unfolding after_checks decode submit_lifecycle
  change_instance request kind id body build s w =
      after_checks
        (λ mutation.
          let (change, expected) = build mutation in
          submit_lifecycle now peer request.request_id s change kind expected id)
        (decode body) s w

  unfoldable pub import_image : LocalRequest → HostState → W → Handled W
  unfolding after_checks decode artifact_kind resolve_image artifact_id submit_image_import
  import_image request s w =
      after_checks
        (λ (import : Generation × ArtifactKind × Text × Option ArtifactId).
          submit_image_import now peer request.request_id s import.0 import.1 import.2 import.3)
        (decode (codec.read_import_image request.body) >>= λ mutation.
          artifact_kind mutation.kind >>= λ kind.
          resolve_image files s.image_roots mutation.source_path w >>= λ source.
          transpose artifact_id mutation.expected_id >>= λ expected_id.
          ok (mutation.expected_generation, kind, source, expected_id))
        s w

  unfoldable pub import_os_image : LocalRequest → HostState → W → Handled W
  unfolding after_checks decode resolve_image artifact_id submit_os_image_import
  import_os_image request s w =
      after_checks
        (λ (import : Generation × Text × Text × Option Text × Option ArtifactId).
          submit_os_image_import now peer request.request_id s import.0 import.1 import.2 import.3
            import.4)
        (decode (codec.read_import_os_image request.body) >>= λ mutation.
          resolve_image files s.image_roots mutation.source_path w >>= λ source.
          transpose artifact_id mutation.expected_id >>= λ expected_id. ok (
            mutation.expected_generation, source, mutation.label, mutation.architecture,
            expected_id,
          ))
        s w

  unfoldable pub create_instance : LocalRequest → HostState → W → Handled W
  unfolding after_checks decode submit_lifecycle
  create_instance request s w =
      after_checks
        (λ mutation.
          submit_lifecycle now peer request.request_id s
            (LifecycleRequest.create (record {
              expected_generation = mutation.expected_generation;
              id = mutation.id;
              name = mutation.name;
              cpu_hardware_ids = mutation.cpu_hardware_ids;
              memory_bytes = mutation.memory_bytes;
            }))
            OperationKind.create_instance mutation.expected_generation mutation.id)
        (decode (codec.read_create request.body)) s w

  unfoldable pub set_resource_pool : LocalRequest → HostState → W → Handled W
  unfolding after_checks decode submit_resource_pool
  set_resource_pool request s w =
      after_checks (submit_resource_pool now peer request.request_id s)
        (decode (codec.read_resource_pool request.body)) s w
