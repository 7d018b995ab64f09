-- ===== src/HostApi/Service/Reads.antt =====
-- The handlers of read requests.
use kernmux.Prelude.{
  ℕ, false, not, ◌&&◌, Option, none, some, List, [], ◌∷◌, ◌++◌, ◌==◌, find, filter, map, Result, ok,
  err, ◌>>=◌, map_err, ok_or,
}
use kernmux.Prelude.Text.{Text, text}
use kernmux.Api.{ApiError, ErrorCode, Generation, HostSnapshot, Instance, InstanceId, OperationId}
use kernmux.Executor.{SnapshotRefresher}
use kernmux.Images.{
  ArtifactId, ArtifactKind, ArtifactRecord, ImageCatalogSnapshot, ImageStore, refresh, same_id,
  same_kind,
}
use kernmux.Operations.{get, events_after}
use kernmux.HostApi.Errors.{backend, error, image_catalog_api_error, not_found}
use kernmux.HostApi.Paths.{parse_cursor}
use kernmux.HostApi.Service.Types.{
  HostState, ImageArtifact, ImageKind, Json, LocalResponse, OsImage, Payload, Response,
  StorageBackend,
}

-- `LocalResponse::json`.
unfoldable pub json : {S : Type 0} → Json S → ℕ → Response S → Result LocalResponse ApiError
unfolding error
json codec status response = elim (codec.write response) [
  | none ↦ err (error ErrorCode.internal (text "response serialization failed") false)
  | some body ↦ ok (record { status = status; content_type = text "application/json"; body = body })
]

-- `image_artifact`.
unfoldable pub image_artifact : ArtifactRecord → ImageArtifact
image_artifact r = record {
  schema_version = r.schema_version;
  kind = elim r.kind [
    | ArtifactKind.kernel ↦ ImageKind.kernel
    | ArtifactKind.initrd ↦ ImageKind.initrd
    | ArtifactKind.os_image ↦ ImageKind.unknown
  ];
  id = r.id.value;
  bytes = r.bytes;
}

-- `os_image`.
unfoldable pub os_image : ArtifactRecord → Result OsImage ApiError
unfolding backend
os_image r = ok_or r.os_image (backend (text "OS image catalog is inconsistent")) >>= λ metadata.
    ok (record {
      schema_version = r.schema_version;
      id = r.id.value;
      label = metadata.label;
      format = metadata.format;
      stored_bytes = r.bytes;
      virtual_bytes = metadata.virtual_bytes;
      architecture = metadata.architecture;
    })

-- `iter.map(f).collect::<Result<Vec<_>, _>>()`.
abbrev pub collect_results {ℓ κ μ} :
    {A : Type ℓ} {B : Type κ} {E : Type μ} → (A → Result B E) → List A → Result (List B) E
collect_results f [] = ok []
collect_results f (x ∷ xs) = f x >>= λ y. collect_results f xs >>= λ ys. ok (y ∷ ys)

-- The devices of all instances.
abbrev pub peer_devices : List Instance → List Text
peer_devices [] = []
peer_devices (i ∷ is) = i.resources.device_ids ++ peer_devices is

module _ {W F S : Type 0} (snapshots : SnapshotRefresher W F) (disk : ImageStore W)
    (storage : StorageBackend W S) (codec : Json S) where
  abbrev pub Answer : Type 0
  Answer = Result LocalResponse ApiError

  -- `result_response`, on a generation and data or an error before.
  unfoldable pub result_response : Result (Generation × Payload S) ApiError → Answer
  unfolding json
  result_response (err e) = err e
  result_response (ok (generation, payload)) = json codec 200 (Response.result generation payload)

  -- `refresh_snapshot().map_err(..)?`, and what a handler makes of the snapshot.
  unfoldable pub with_snapshot :
      (HostSnapshot → W → Result (Generation × Payload S) ApiError) → W → Answer × W
  unfolding result_response backend
  with_snapshot handler w =
      let (read, w1) = snapshots.refresh_snapshot w in
      (
        result_response (
            map_err (λ _. backend (text "host inventory is unavailable")) read >>= λ snapshot.
            handler snapshot w1),
        w1,
      )

  unfoldable pub snapshot : HostState → W → Answer × W
  unfolding with_snapshot
  snapshot s = with_snapshot (λ read _. ok (
    read.generation,
    Payload.snapshot (record read { operations = s.scheduler.registry.operations }),
  ))

  unfoldable pub compatibility : HostState → Answer
  unfolding result_response backend
  compatibility s = result_response (
      ok_or s.compatibility_report (backend (text "compatibility manifest is not configured"))
      >>= λ (generation, report). ok (generation, Payload.report report))

  unfoldable pub instance_at : InstanceId → W → Answer × W
  unfolding with_snapshot not_found
  instance_at id = with_snapshot (λ read _.
      ok_or (find (λ i. i.id == id) read.instances) not_found >>= λ found.
      ok (read.generation, Payload.instance_of found))

  unfoldable pub instances : W → Answer × W
  unfolding with_snapshot
  instances = with_snapshot (λ read _. ok (read.generation, Payload.instances read.instances))

  unfoldable pub resource_pool : W → Answer × W
  unfolding with_snapshot
  resource_pool = with_snapshot (λ read _. ok (read.generation, Payload.pool read.resource_pool))

  unfoldable pub storage_devices : W → Answer × W
  unfolding with_snapshot backend
  storage_devices = with_snapshot (λ read w.
      ok_or (storage.observe (peer_devices read.instances) w)
        (backend (text "storage inventory is unavailable"))
      >>= λ inventory. ok (storage.generation inventory, Payload.storage inventory))

  -- `image_catalog.refresh().map_err(..)?`, and what a handler makes of the artifacts.
  unfoldable pub with_catalog :
      HostState
      → (ImageCatalogSnapshot → Result (Payload S) ApiError)
      → W
      → (Answer × HostState) × W
  unfolding result_response image_catalog_api_error refresh
  with_catalog s handler w =
      let ((read, catalog), w1) = refresh disk s.image_catalog w in
      (
        (
          result_response (
              map_err image_catalog_api_error read >>= λ snapshot.
              handler snapshot >>= λ payload. ok (snapshot.generation, payload)),
          record s { image_catalog = catalog },
        ),
        w1,
      )

  unfoldable pub images : HostState → W → (Answer × HostState) × W
  unfolding with_catalog same_kind image_artifact
  images s = with_catalog s (λ read. ok (
      Payload.images (
        map image_artifact
          (filter (λ a. not (same_kind a.kind ArtifactKind.os_image)) read.artifacts))))

  unfoldable pub image : HostState → ArtifactKind → ArtifactId → W → (Answer × HostState) × W
  unfolding with_catalog same_kind same_id image_artifact not_found
  image s kind id = with_catalog s (λ read.
      ok_or (find (λ a. same_kind a.kind kind && same_id a.id id) read.artifacts) not_found
      >>= λ found. ok (Payload.image (image_artifact found)))

  unfoldable pub os_images : HostState → W → (Answer × HostState) × W
  unfolding with_catalog same_kind os_image
  os_images s = with_catalog s (λ read.
      collect_results os_image (filter (λ a. same_kind a.kind ArtifactKind.os_image) read.artifacts)
      >>= λ found. ok (Payload.os_images found))

  unfoldable pub os_image_at : HostState → ArtifactId → W → (Answer × HostState) × W
  unfolding with_catalog same_kind same_id os_image not_found
  os_image_at s id = with_catalog s (λ read.
      ok_or (find (λ a. same_kind a.kind ArtifactKind.os_image && same_id a.id id) read.artifacts)
        not_found
      >>= λ found. os_image found >>= λ shown. ok (Payload.os_image shown))

  unfoldable pub operations : HostState → Answer
  unfolding result_response
  operations s =
      let registry = s.scheduler.registry in
      result_response (ok (registry.latest_generation, Payload.operations registry.operations))

  unfoldable pub operation : HostState → OperationId → Answer
  unfolding result_response not_found get
  operation s id =
      let registry = s.scheduler.registry in
      result_response (
        ok_or (get registry id) not_found >>= λ found.
        ok (registry.latest_generation, Payload.operation found))

  unfoldable pub events : HostState → Option Text → Answer
  unfolding result_response parse_cursor events_after
  events s query =
      let registry = s.scheduler.registry in
      result_response (
        parse_cursor query >>= λ cursor.
        let batch = events_after registry cursor in
        ok (
          registry.latest_generation,
          Payload.events (record {
            events = batch.events;
            overflowed = batch.overflowed;
            latest_sequence = batch.latest_sequence;
          }),
        ))
