-- ===== src/HostApi/Service/Results.antt =====
-- How the tasks of worker threads end.
use kernmux.Prelude.{
  ◌≡◌, inl, inr, refl, Bool, true, ◌||◌, Option, none, Result, ok, err, arith, Bool-cases,
}
use kernmux.Prelude.Text.{Text}
use kernmux.Api.{ApiError, Generation}
use kernmux.Executor.{KerfRunner, SnapshotRefresher}
use kernmux.Images.{
  ArtifactRecord, ImageCatalog, ImageCatalogError, ImageCatalogSnapshot, ImageStore,
}
use kernmux.Operations.{is_terminal}
use kernmux.Scheduler.{cancelled, failed, succeeded, lifecycle_task, resource_pool_task}
use kernmux.Scheduler.Results.{
  IsFinal, cancelled-IsFinal, lifecycle_task_lem, resource_pool_task_lem,
}
use kernmux.HostApi.Service.Types.{ManagedLoadRequest, Task}
use kernmux.HostApi.Service.Tasks.{
  Cancellations, catalog_failure, import_result, load_resolved, run_task,
}

succeeded-IsFinal : (g : Generation) → IsFinal (succeeded g)
unfolding is_terminal
succeeded-IsFinal g = record { terminal = refl; error_iff = (λ _. inl refl, λ _. refl) }

failed-IsFinal : (e : ApiError) (g : Option Generation) → IsFinal (failed e g)
unfolding is_terminal
failed-IsFinal e g = record { terminal = refl; error_iff = ground arith }

catalog_failure-IsFinal : (e : ImageCatalogError) → IsFinal (catalog_failure e)
unfolding catalog_failure
catalog_failure-IsFinal e = failed-IsFinal _ _

import_result-IsFinal :
    (r : Result (ArtifactRecord × ImageCatalogSnapshot) ImageCatalogError)
    → IsFinal (import_result r)
unfolding import_result
import_result-IsFinal (ok (artifact, snapshot)) = succeeded-IsFinal snapshot.generation
import_result-IsFinal (err e) = catalog_failure-IsFinal e

module _ {W E F : Type 0} (runner : KerfRunner W E) (snapshots : SnapshotRefresher W F)
    (disk : ImageStore W) where
  load_resolved-IsFinal :
      (request : ManagedLoadRequest) (second third : Bool)
      (files : (Result (Text × Option Text) ImageCatalogError × ImageCatalog) × W)
      → IsFinal (load_resolved runner snapshots disk request second third files).0.0
  unfolding load_resolved
  load_resolved-IsFinal request second third ((err e, c), w) = catalog_failure-IsFinal e
  load_resolved-IsFinal request second third ((ok (kernel, initrd), c), w) =
      (lifecycle_task_lem runner snapshots _ second third w).0

  -- Every task ends in a result that the registry accepts, with an error exactly if it neither
  -- succeeded nor was cancelled.
  pub run_task-IsFinal :
      (task : Task) (seen : Cancellations) (c : ImageCatalog) (w : W)
      → IsFinal (run_task runner snapshots disk task seen c w).0.0
  unfolding run_task
  run_task-IsFinal (Task.lifecycle request) seen c w =
      (lifecycle_task_lem runner snapshots request seen.first seen.second w).0
  run_task-IsFinal (Task.resource_pool request) seen c w =
      (resource_pool_task_lem runner snapshots request seen.first seen.second w).0
  run_task-IsFinal (Task.import_image expected kind source id) seen c w =
      elim (Bool-cases (seen.first || seen.second)) [
        | inl stop ↦ rw stop (cancelled-IsFinal none)
        | inr go ↦ rw go (import_result-IsFinal _)
      ]
  run_task-IsFinal (Task.import_os_image expected source label architecture id) seen c w =
      elim (Bool-cases seen.first) [
        | inl stop ↦ rw stop (cancelled-IsFinal none)
        | inr go ↦ rw go (import_result-IsFinal _)
      ]
  run_task-IsFinal (Task.managed_load request) seen c w = elim (Bool-cases seen.first) [
    | inl stop ↦ rw stop (cancelled-IsFinal none)
    | inr go ↦ rw go (load_resolved-IsFinal request seen.second seen.third _)
  ]

  -- A task that sees its cancellation at the first reading is reported as cancelled, and changes
  -- neither the host nor the catalog.
  pub run_task-cancelled :
      (task : Task) (seen : Cancellations) (c : ImageCatalog) (w : W)
      → seen.first ≡ true
      → run_task runner snapshots disk task seen c w ≡ ((cancelled none, c), w)
  unfolding run_task lifecycle_task resource_pool_task
  run_task-cancelled (Task.lifecycle request) seen c w h = rw h refl
  run_task-cancelled (Task.resource_pool request) seen c w h = rw h refl
  run_task-cancelled (Task.import_image expected kind source id) seen c w h = rw h refl
  run_task-cancelled (Task.import_os_image expected source label architecture id) seen c w h =
      rw h refl
  run_task-cancelled (Task.managed_load request) seen c w h = rw h refl
