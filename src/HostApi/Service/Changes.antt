-- ===== src/HostApi/Service/Changes.antt =====
-- The requests on an instance take at most one step.
use kernmux.Prelude.{◌≡◌, refl, sym, ap, ◌∙◌, subst, Option, none, some, Result, ok, err}
use kernmux.Prelude.Text.{decimal}
use kernmux.Api.{ApiError, Generation, InstanceId, Operation, OperationKind, ResourceKind}
use kernmux.Executor.{SnapshotRefresher}
use kernmux.Images.{ImageStore}
use kernmux.Lifecycle.{LifecycleRequest}
use kernmux.Security.{PeerIdentity}
use kernmux.HostApi.Service.Files.{resolve_image}
use kernmux.HostApi.{validate_command_line, Method, InstanceAction, instance_resource}
use kernmux.HostApi.Service.Types.{
  Circumstances, FileSystem, HostState, Json, LocalRequest, LocalResponse, ManagedLoadRequest,
  StorageBackend, Task,
}
use kernmux.HostApi.Service.Submission.{new_operation, submit_lifecycle, submit_managed_load}
use kernmux.HostApi.Service.Dispatch.{dispatch_instance}
use kernmux.HostApi.Service.Mutations.{
  after_checks, artifact_id, decode, instance_request, transpose, change_instance, load_instance,
  load_managed_image,
}
use kernmux.HostApi.Service.Requests.{Asks, Step, Submits, looked, refused, submitted}
use kernmux.HostApi.Service.Building.{load_built, managed_built}

module _ {W F S : Type 0} (snapshots : SnapshotRefresher W F) (disk : ImageStore W)
    (storage : StorageBackend W S) (codec : Json S) (files : FileSystem W) (now : Circumstances)
    (peer : PeerIdentity) (request : LocalRequest) (s : HostState) (w : W) where
  abbrev Out : Type 0
  Out = (Result LocalResponse ApiError × HostState) × W

  abbrev Taken : Out → Type 0
  Taken = Step disk now peer request s w

  abbrev Submission : HostState → Type 0
  Submission = Submits now peer request s

  pub checked_Step :
      {A : Type 0} (submit : A → HostState × Result Operation ApiError) (checks : Result A ApiError)
      → ((a : A) → checks ≡ ok a → Submission (submit a).0)
      → Taken (after_checks codec files now peer submit checks s w)
  unfolding after_checks
  checked_Step submit (err e) steps = refused e refl
  checked_Step submit (ok a) steps = submitted (steps a refl)

  pub lifecycle_Step :
      (change : LifecycleRequest) (kind : OperationKind) (expected : Generation)
      (instance : InstanceId)
      → Asks request
          (new_operation kind expected
            (record { kind = ResourceKind.instance; id = decimal instance })
            peer
            request.request_id
            now.created_at)
          (Task.lifecycle change)
      → Submission (submit_lifecycle now peer request.request_id s change kind expected instance).0
  unfolding submit_lifecycle new_operation
  lifecycle_Step change kind expected instance asked = (_, _, asked, (refl, refl, refl), refl)

  change_Step :
      {A : Type 0} (kind : OperationKind) (id : InstanceId) (body : Option A)
      (build : A → LifecycleRequest × Generation)
      → ((a : A)
          → Asks request
              (new_operation kind
                (build a).1
                (record { kind = ResourceKind.instance; id = decimal id })
                peer
                request.request_id
                now.created_at)
              (Task.lifecycle (build a).0))
      → Taken (change_instance codec files now peer request kind id body build s w)
  unfolding change_instance
  change_Step kind id body build asked =
      checked_Step
        (λ a. submit_lifecycle now peer request.request_id s (build a).0 kind (build a).1 id)
        (decode body) (λ a h. lifecycle_Step (build a).0 kind (build a).1 id (asked a))

  load_Step :
      (id : InstanceId)
      → request.method ≡ Method.post
      → instance_resource request.path ≡ some (id, some InstanceAction.load)
      → Taken (load_instance codec files now peer request id s w)
  unfolding load_instance
  load_Step id m at =
      checked_Step
        (λ (load : LifecycleRequest × Generation).
          submit_lifecycle now peer request.request_id s load.0 OperationKind.load_instance load.1
            id)
        _
        (λ load h.
          let (mutation, kernel, initrd, built) =
            load_built (decode (codec.read_load request.body))
              (λ x. resolve_image files s.image_roots x.kernel_path w)
              (λ x. transpose (λ path. resolve_image files s.image_roots path w) x.initrd_path)
              (λ x. validate_command_line x.command_line)
              (λ x kernel initrd. (
                LifecycleRequest.load (record {
                  instance_request = instance_request x.expected_generation id;
                  kernel = kernel;
                  initrd = initrd;
                  cmdline = x.command_line;
                }),
                x.expected_generation,
              ))
              load h in
          subst
            (λ l.
              Submission
                (submit_lifecycle now peer request.request_id s l.0 OperationKind.load_instance l.1
                  id).0)
            built
            (lifecycle_Step
              (LifecycleRequest.load (record {
                instance_request = instance_request mutation.expected_generation id;
                kernel = kernel;
                initrd = initrd;
                cmdline = mutation.command_line;
              }))
              OperationKind.load_instance mutation.expected_generation id
              (unfold new_operation in ((m, at), (refl, refl, refl)))))

  managed_Step :
      (id : InstanceId)
      → request.method ≡ Method.post
      → instance_resource request.path ≡ some (id, some InstanceAction.load_image)
      → Taken (load_managed_image codec files now peer request id s w)
  unfolding load_managed_image submit_managed_load new_operation
  managed_Step id m at =
      checked_Step (submit_managed_load now peer request.request_id s) _ (λ load h.
        let (mutation, kernel, initrd, built) =
          managed_built (decode (codec.read_managed_load request.body))
            (λ x. validate_command_line x.command_line) (λ x. artifact_id x.kernel_id)
            (λ x. transpose artifact_id x.initrd_id)
            (λ x kernel initrd. record {
              instance_id = id;
              expected_generation = x.expected_generation;
              kernel_id = kernel;
              initrd_id = initrd;
              command_line = x.command_line;
            })
            load h in
        let same : load.instance_id ≡ id =
          sym (ap (λ (l : ManagedLoadRequest). l.instance_id) built) in
        (
          _,
          Task.managed_load load,
          (
            (m, at ∙ ap (λ i. some (i, some InstanceAction.load_image)) (sym same)),
            (refl, refl, refl),
          ),
          (refl, refl, refl),
          refl,
        ))

  pub instance_Step :
      (m : Method) (id : InstanceId) (action : Option InstanceAction)
      → request.method ≡ m
      → instance_resource request.path ≡ some (id, action)
      → Taken
          (dispatch_instance snapshots disk storage codec files now peer request m id action s w)
  unfolding dispatch_instance new_operation
  instance_Step Method.get id none e at = looked e refl
  instance_Step Method.get id (some action) e at = refused _ refl
  instance_Step Method.put id action e at = refused _ refl
  instance_Step Method.other id action e at = refused _ refl
  instance_Step Method.patch id none e at =
      change_Step _ id _ _ (λ a. ((e, at), (refl, refl, refl)))
  instance_Step Method.patch id (some action) e at = refused _ refl
  instance_Step Method.delete id none e at =
      change_Step _ id _ _ (λ a. ((e, at), (refl, refl, refl)))
  instance_Step Method.delete id (some action) e at = refused _ refl
  instance_Step Method.post id none e at = refused _ refl
  instance_Step Method.post id (some InstanceAction.load) e at = load_Step id e at
  instance_Step Method.post id (some InstanceAction.load_image) e at = managed_Step id e at
  instance_Step Method.post id (some InstanceAction.start) e at =
      change_Step _ id _ _ (λ a. ((e, at), (refl, refl, refl)))
  instance_Step Method.post id (some InstanceAction.stop) e at =
      change_Step _ id _ _ (λ a. ((e, at), (refl, refl, refl)))
  instance_Step Method.post id (some InstanceAction.unload) e at =
      change_Step _ id _ _ (λ a. ((e, at), (refl, refl, refl)))
  instance_Step Method.post id (some InstanceAction.console) e at = refused _ refl
