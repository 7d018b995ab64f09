-- ===== src/Images/Catalog.antt =====
-- `ImageCatalog`. What the store does to the disk is threaded through as a world.
use kernmux.Prelude.{
  Bool, true, not, Option, none, some, List, ◌==◌, if◌then◌else◌, Result, ok, err, checked_add,
  map_err,
}
use kernmux.Prelude.Text.{Text}
use kernmux.Api.{Generation}
use kernmux.Images.Artifacts.{
  ArtifactId, ArtifactKind, ArtifactRecord, ImageStoreError, same_records,
}

-- The operations of `ImageStore` that the catalog calls, on a world that holds the files.
pub record ImageStore (W : Type 0) : Type 0 where
  pub list : W → Result (List ArtifactRecord) ImageStoreError × W
  pub import_path :
      ArtifactKind → Text → Option ArtifactId → W → Result ArtifactRecord ImageStoreError × W
  pub import_os_image :
      Text → Text → Option Text → Option ArtifactId → W → Result ArtifactRecord ImageStoreError × W
  pub resolve : ArtifactKind → ArtifactId → W → Result Text ImageStoreError × W

-- Verified point-in-time view of the image catalog.
pub record ImageCatalogSnapshot : Type 0 where
  pub generation : Generation
  pub artifacts : List ArtifactRecord

-- Generation-owning reconciliation layer; the store is a parameter.
pub record ImageCatalog : Type 0 where
  pub generation : Generation
  pub observed : Option (List ArtifactRecord)

-- Failure to reconcile or mutate the image catalog.
pub data ImageCatalogError : Type 0 where
  stale_generation : Generation → Generation → ImageCatalogError
  generation_exhausted : ImageCatalogError
  store : ImageStoreError → ImageCatalogError

-- `ImageCatalog::new`.
unfoldable pub new_catalog : ImageCatalog
new_catalog = record { generation = 0; observed = none }

-- `self.observed.as_ref() != Some(&artifacts)`.
abbrev differs : Option (List ArtifactRecord) → List ArtifactRecord → Bool
differs none artifacts = true
differs (some before) artifacts = not (same_records before artifacts)

-- The new generation of a changed store, if there is one left.
unfoldable pub advance :
    ImageCatalog
    → List ArtifactRecord
    → Option Generation
    → Result ImageCatalogSnapshot ImageCatalogError × ImageCatalog
advance c artifacts none = (err ImageCatalogError.generation_exhausted, c)
advance c artifacts (some g) = (
  ok (record { generation = g; artifacts = artifacts }),
  record { generation = g; observed = some artifacts },
)

-- What `refresh` makes of the store's list.
unfoldable pub observe :
    ImageCatalog
    → Result (List ArtifactRecord) ImageStoreError
    → Result ImageCatalogSnapshot ImageCatalogError × ImageCatalog
unfolding advance same_records
observe c (err e) = (err (ImageCatalogError.store e), c)
observe c (ok artifacts) =
    if differs c.observed artifacts
    then advance c artifacts (checked_add c.generation 1)
    else (ok (record { generation = c.generation; artifacts = artifacts }), c)

module _ {W : Type 0} (disk : ImageStore W) where
  -- `ImageCatalog::refresh`.
  unfoldable pub refresh :
      ImageCatalog → W → (Result ImageCatalogSnapshot ImageCatalogError × ImageCatalog) × W
  unfolding observe
  refresh c w = let (listed, w1) = disk.list w in (observe c listed, w1)

  abbrev pair_with :
      ArtifactRecord
      → Result ImageCatalogSnapshot ImageCatalogError
      → Result (ArtifactRecord × ImageCatalogSnapshot) ImageCatalogError
  pair_with artifact (ok after) = ok (artifact, after)
  pair_with artifact (err e) = err e

  -- The second half of an import, from the store's answer on.
  unfoldable pub import_end :
      ImageCatalog
      → Result ArtifactRecord ImageStoreError
      → W
      → (Result (ArtifactRecord × ImageCatalogSnapshot) ImageCatalogError × ImageCatalog) × W
  unfolding refresh
  import_end c (err e) w = ((err (ImageCatalogError.store e), c), w)
  import_end c (ok artifact) w =
      let ((after, c1), w1) = refresh c w in ((pair_with artifact after, c1), w1)

  -- An import, by what it asks of the store.
  unfoldable pub import_with :
      Generation
      → (W → Result ArtifactRecord ImageStoreError × W)
      → (Result ImageCatalogSnapshot ImageCatalogError × ImageCatalog) × W
      → (Result (ArtifactRecord × ImageCatalogSnapshot) ImageCatalogError × ImageCatalog) × W
  unfolding import_end
  import_with expected ask ((err e, c), w) = ((err e, c), w)
  import_with expected ask ((ok before, c), w) =
      if not (expected == before.generation)
      then ((err (ImageCatalogError.stale_generation expected before.generation), c), w)
      else (let (imported, w1) = ask w in import_end c imported w1)

  -- `ImageCatalog::import_path` and `ImageCatalog::import_os_image`.
  unfoldable pub import_path :
      ImageCatalog
      → Generation
      → ArtifactKind
      → Text
      → Option ArtifactId
      → W
      → (Result (ArtifactRecord × ImageCatalogSnapshot) ImageCatalogError × ImageCatalog) × W
  unfolding refresh import_with
  import_path c expected kind source expected_id w =
      import_with expected (disk.import_path kind source expected_id) (refresh c w)

  unfoldable pub import_os_image :
      ImageCatalog
      → Generation
      → Text
      → Text
      → Option Text
      → Option ArtifactId
      → W
      → (Result (ArtifactRecord × ImageCatalogSnapshot) ImageCatalogError × ImageCatalog) × W
  unfolding refresh import_with
  import_os_image c expected source label architecture expected_id w =
      import_with expected (disk.import_os_image source label architecture expected_id)
        (refresh c w)

  abbrev pub resolve_end :
      ArtifactKind
      → ArtifactId
      → (Result ImageCatalogSnapshot ImageCatalogError × ImageCatalog) × W
      → (Result Text ImageCatalogError × ImageCatalog) × W
  resolve_end kind id ((err e, c), w) = ((err e, c), w)
  resolve_end kind id ((ok s, c), w) =
      let (path, w1) = disk.resolve kind id w in ((map_err ImageCatalogError.store path, c), w1)

  -- `ImageCatalog::resolve`.
  unfoldable pub resolve :
      ImageCatalog
      → ArtifactKind
      → ArtifactId
      → W
      → (Result Text ImageCatalogError × ImageCatalog) × W
  unfolding refresh
  resolve c kind id w = resolve_end kind id (refresh c w)
