-- ===== src/HostApi/Service/Tasks.antt =====
-- What the worker threads run, and how a task ends.
use kernmux.Prelude.{
  ℕ, Bool, true, [], ◌∷◌, ◌||◌, Option, none, some, List, if◌then◌else◌, Result, ok, err,
}
use kernmux.Prelude.Text.{Text}
use kernmux.Executor.{KerfRunner, SnapshotRefresher}
use kernmux.Images.{
  ArtifactId, ArtifactKind, ArtifactRecord, ImageCatalog, ImageCatalogError, ImageCatalogSnapshot,
  ImageStore, import_os_image, import_path, resolve,
}
use kernmux.Lifecycle.{LifecycleRequest}
use kernmux.Scheduler.{
  OperationTaskResult, Worker, cancelled, failed, lifecycle_task, resource_pool_task, succeeded,
  worker_end,
}
use kernmux.Api.{Operation, OperationId}
use kernmux.Prelude.Order.{bytes_ord, same}
use kernmux.Operations.{OperationRegistry, OperationRegistryError, start}
use kernmux.Security.{drop}
use kernmux.Security.Uses.{nth, without}
use kernmux.HostApi.Errors.{image_catalog_task_error}
use kernmux.HostApi.Service.Types.{HostState, ManagedLoadRequest, PendingTask, Task}

-- The readings of the cancellation token, in order.
pub record Cancellations : Type 0 where
  pub first : Bool
  pub second : Bool
  pub third : Bool

-- The result of a failed use of the catalog.
unfoldable pub catalog_failure : ImageCatalogError → OperationTaskResult
unfolding image_catalog_task_error
catalog_failure e =
    let (api_error, generation) = image_catalog_task_error e in failed api_error generation

unfoldable pub import_result :
    Result (ArtifactRecord × ImageCatalogSnapshot) ImageCatalogError → OperationTaskResult
unfolding catalog_failure
import_result (ok (artifact, snapshot)) = succeeded snapshot.generation
import_result (err e) = catalog_failure e

-- `JoinHandle::is_finished` of the thread of an operation that has ended.
abbrev pub mark_finished : OperationId → List Worker → List Worker
mark_finished id [] = []
mark_finished id (w ∷ ws) =
    if same w.operation_id id then record w { is_finished = true } ∷ ws else w ∷ mark_finished id ws

module _ {W E F : Type 0} (runner : KerfRunner W E) (snapshots : SnapshotRefresher W F)
    (disk : ImageStore W) where
  abbrev pub Ran : Type 0
  Ran = (OperationTaskResult × ImageCatalog) × W

  -- The initrd, after the kernel.
  unfoldable pub resolve_initrd :
      Option ArtifactId
      → (Result Text ImageCatalogError × ImageCatalog) × W
      → (Result (Text × Option Text) ImageCatalogError × ImageCatalog) × W
  unfolding resolve
  resolve_initrd initrd ((err e, c), w) = ((err e, c), w)
  resolve_initrd none ((ok kernel, c), w) = ((ok (kernel, none), c), w)
  resolve_initrd (some id) ((ok kernel, c), w) =
      let ((found, c1), w1) = resolve disk c ArtifactKind.initrd id w in
      ((elim found [ ok initrd ↦ ok (kernel, some initrd) | err e ↦ err e ], c1), w1)

  -- `run_lifecycle` on the files of a managed load.
  unfoldable pub load_resolved :
      ManagedLoadRequest
      → Bool
      → Bool
      → (Result (Text × Option Text) ImageCatalogError × ImageCatalog) × W
      → Ran
  unfolding lifecycle_task catalog_failure
  load_resolved request second third ((err e, c), w) = ((catalog_failure e, c), w)
  load_resolved request second third ((ok (kernel, initrd), c), w) =
      let (result, w1) =
        lifecycle_task runner snapshots
          (LifecycleRequest.load (record {
            instance_request = record {
              expected_generation = request.expected_generation;
              id = request.instance_id;
            };
            kernel = kernel;
            initrd = initrd;
            cmdline = request.command_line;
          }))
          second third w in
      ((result, c), w1)

  -- A task on the catalog and the world, with the cancellations that it sees.
  unfoldable pub run_task : Task → Cancellations → ImageCatalog → W → Ran
  unfolding lifecycle_task resource_pool_task import_path import_os_image import_result resolve
      resolve_initrd load_resolved
  run_task (Task.lifecycle request) seen c w =
      let (result, w1) = lifecycle_task runner snapshots request seen.first seen.second w in
      ((result, c), w1)
  run_task (Task.resource_pool request) seen c w =
      let (result, w1) = resource_pool_task runner snapshots request seen.first seen.second w in
      ((result, c), w1)
  run_task (Task.import_image expected kind source id) seen c w =
      if seen.first || seen.second
      then ((cancelled none, c), w)
      else (let ((imported, c1), w1) = import_path disk c expected kind source id w in
          ((import_result imported, c1), w1))
  run_task (Task.import_os_image expected source label architecture id) seen c w =
      if seen.first
      then ((cancelled none, c), w)
      else (let ((imported, c1), w1) =
            import_os_image disk c expected source label architecture id w in
          ((import_result imported, c1), w1))
  run_task (Task.managed_load request) seen c w =
      if seen.first
      then ((cancelled none, c), w)
      else load_resolved request seen.second seen.third (
          resolve_initrd request.initrd_id (resolve disk c ArtifactKind.kernel request.kernel_id w))

  -- What a thread leaves when it ends: its permit is dropped with its task, and its handle tells
  -- that it has finished.
  abbrev pub closed :
      HostState → List PendingTask → PendingTask → OperationRegistry → ImageCatalog → HostState
  closed s rest t registry catalog = record s {
    scheduler = record {
      registry = registry;
      workers = mark_finished t.operation_id s.scheduler.workers;
    };
    limiter = drop s.limiter t.permit;
    image_catalog = catalog;
    tasks = rest;
  }

  -- The thread runs the task only if its operation could be started.
  unfoldable pub end_started :
      HostState
      → List PendingTask
      → PendingTask
      → Cancellations
      → Text
      → W
      → OperationRegistry × Result Operation OperationRegistryError
      → HostState × W
  unfolding run_task worker_end drop
  end_started s rest t seen finished_at w (registry, err e) =
      (closed s rest t registry s.image_catalog, w)
  end_started s rest t seen finished_at w (registry, ok started) =
      let ((result, catalog), w1) = run_task t.task seen s.image_catalog w in
      (
        closed s rest t (worker_end t.operation_id (some result) finished_at (registry, ok started))
            catalog,
        w1,
      )

  -- The end of the n-th task: its result goes to the registry, and its permit is dropped.
  unfoldable pub end_pending :
      HostState → List PendingTask → Option PendingTask → Cancellations → Text → W → HostState × W
  unfolding end_started start
  end_pending s rest none seen finished_at w = (s, w)
  end_pending s rest (some t) seen finished_at w =
      end_started s rest t seen finished_at w (start s.scheduler.registry t.operation_id)

  unfoldable pub end_task : HostState → ℕ → Cancellations → Text → W → HostState × W
  unfolding end_pending
  end_task s n seen finished_at w =
      end_pending s (without s.tasks n) (nth s.tasks n) seen finished_at w
