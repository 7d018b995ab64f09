-- ===== src/Images/Tests.antt =====
-- Runs and instances on a store of two artifacts and on small disk images.
use kernmux.Prelude.{
  ℕ, zero, suc, ◌≡◌, ◌<◌, ◌≤◌, length, ◌⊎◌, ◌↔◌, refl, Bool, true, false, none, List, [], ◌∷◌, ◌++◌,
  ok, err,
}
use kernmux.Prelude.Text.{text}
use kernmux.Prelude.TreeSet.{same_list}
use kernmux.Images.{
  ArtifactKind, ArtifactRecord, ImageStoreError, OsImageFormat, ImageStore, ImageCatalog,
  ImageCatalogSnapshot, new_catalog, refresh, import_path, import_with, import_end, observe,
  advance, same_records, parse, from_digest, inspect_disk_image, inspect_header, is_raw,
  inspect_raw, inspect_qcow2, take, header_length,
}
use kernmux.Images.Ids.{IsCanonical, parse_iff}
use kernmux.Images.Inspection.{IsImage, inspect_disk_image_lem}
use kernmux.Images.Generations.{refresh_in, serve_all, generation_identifies, import_path_sees}

abbrev zeros : ℕ → List ℕ
zeros zero = []
zeros (suc n) = 0 ∷ zeros n

abbrev kernel_record : ArtifactRecord
kernel_record = record {
  schema_version = 1;
  kind = ArtifactKind.kernel;
  id = from_digest (zeros 32);
  bytes = 10;
  os_image = none;
}

-- A store that holds nothing until the one artifact is imported; its world says which.
abbrev small_list : Bool → List ArtifactRecord
small_list false = []
small_list true = kernel_record ∷ []

abbrev small_store : ImageStore Bool
small_store = record {
  list = λ w. (ok (small_list w), w);
  import_path = λ kind source id w. (ok kernel_record, true);
  import_os_image = λ source label architecture id w. (err ImageStoreError.empty_artifact, w);
  resolve = λ kind id w. (err ImageStoreError.not_found, w);
}

abbrev snapshot_at : ℕ → List ArtifactRecord → ImageCatalogSnapshot
snapshot_at n artifacts = record { generation = n; artifacts = artifacts }

first_read : (refresh small_store new_catalog false).0.0 ≡ ok (snapshot_at 1 [])
unfolding refresh new_catalog observe advance
first_read = refl

abbrev seen_catalog : ImageCatalog
seen_catalog = (refresh small_store new_catalog false).0.1

later_read :
    (refresh small_store (serve_all small_store seen_catalog (refresh_in false ∷ [])) true).0.0
    ≡ ok (snapshot_at 2 (kernel_record ∷ []))
unfolding refresh new_catalog observe advance same_records
later_read = refl

generation_identifies_example :
    let s = snapshot_at 1 [] in
    let t = snapshot_at 2 (kernel_record ∷ []) in
    (s.generation < t.generation) ⊎ ((s.generation ≡ t.generation) × (s.artifacts ≡ t.artifacts))
generation_identifies_example =
    generation_identifies small_store new_catalog false true (refresh_in false ∷ [])
      (snapshot_at 1 []) (snapshot_at 2 (kernel_record ∷ [])) first_read later_read

imports :
    (import_path small_store
      (serve_all small_store seen_catalog (refresh_in false ∷ []))
      1
      ArtifactKind.kernel
      (text "/boot/vmlinuz")
      none
      false).0.0
    ≡ ok (kernel_record, snapshot_at 2 (kernel_record ∷ []))
unfolding refresh new_catalog observe advance same_records import_path import_with import_end
imports = refl

import_path_sees_example : (small_store.list false).0 ≡ ok []
import_path_sees_example =
    import_path_sees small_store new_catalog false false (refresh_in false ∷ []) (snapshot_at 1 [])
      ArtifactKind.kernel (text "/boot/vmlinuz") none
      (kernel_record, snapshot_at 2 (kernel_record ∷ [])) first_read imports

abbrev raw_image : List ℕ
raw_image = zeros 510 ++ 85 ∷ 170 ∷ []

raw_passes : inspect_disk_image raw_image 512 ≡ ok (OsImageFormat.raw, 512)
unfolding inspect_disk_image inspect_header is_raw inspect_raw same_list
raw_passes = refl

abbrev qcow2_image : List ℕ
qcow2_image =
    81 ∷ 70 ∷ 73 ∷ 251 ∷ 0 ∷ 0 ∷ 0 ∷ 3 ∷ zeros 12 ++ 0 ∷ 0 ∷ 0 ∷ 16 ∷ zeros 6 ++ 1 ∷ 0 ∷ []

qcow2_passes : inspect_disk_image qcow2_image 32 ≡ ok (OsImageFormat.qcow2, 256)
unfolding inspect_disk_image inspect_header is_raw inspect_qcow2 same_list
qcow2_passes = refl

inspect_disk_image_lem_example :
    (0 < 256)
    × (header_length 32 ≤ length qcow2_image)
    × IsImage (take (header_length 32) qcow2_image) 32 OsImageFormat.qcow2 256
inspect_disk_image_lem_example =
    inspect_disk_image_lem qcow2_image 32 OsImageFormat.qcow2 256 qcow2_passes

parse_iff_example :
    (parse (text "sha256:0") ≡ ok (from_digest (zeros 32)))
    ↔ (IsCanonical (text "sha256:0") × ((from_digest (zeros 32)).value ≡ text "sha256:0"))
parse_iff_example = parse_iff (text "sha256:0") (from_digest (zeros 32))
