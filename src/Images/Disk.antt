-- ===== src/Images/Disk.antt =====
-- `inspect_disk_image`, on the bytes of the file from its start and the size its metadata states.
use kernmux.Prelude.{
  ℕ, zero, suc, ◌+◌, ◌*◌, Bool, not, ◌&&◌, ◌||◌, List, [], ◌∷◌, ◌++◌, ◌==◌, leb, ltb, length,
  if◌then◌else◌, Result, ok, err, ◌>>◌, reject_if,
}
use kernmux.Prelude.Order.{nat_ord}
use kernmux.Prelude.TreeSet.{same_list}
use kernmux.Prelude.Text.{text, decimal}
use kernmux.Images.Artifacts.{OsImageFormat, ImageStoreError}

abbrev pub take {ℓ} : {A : Type ℓ} → ℕ → List A → List A
take zero xs = []
take (suc n) [] = []
take (suc n) (x ∷ xs) = x ∷ take n xs

abbrev pub skip {ℓ} : {A : Type ℓ} → ℕ → List A → List A
skip zero xs = xs
skip (suc n) [] = []
skip (suc n) (x ∷ xs) = skip n xs

-- `header[from..from + count]`.
abbrev pub field : ℕ → ℕ → List ℕ → List ℕ
field from count header = take count (skip from header)

-- `from_be_bytes`.
abbrev pub be_from : ℕ → List ℕ → ℕ
be_from acc [] = acc
be_from acc (byte ∷ bytes) = be_from (acc * 256 + byte) bytes

abbrev pub from_be_bytes : List ℕ → ℕ
from_be_bytes bytes = be_from 0 bytes

abbrev pub header_length : ℕ → ℕ
header_length stored_bytes = if leb stored_bytes 520 then stored_bytes else 520

-- A header without the qcow2 signature.
unfoldable pub inspect_raw : List ℕ → ℕ → Result (OsImageFormat × ℕ) ImageStoreError
unfolding same_list text
inspect_raw header stored_bytes =
    if (leb 512 (length header) && same_list (field 510 2 header) (85 ∷ 170 ∷ []))
      || (leb 520 (length header) && same_list (field 512 8 header) (text "EFI PART"))
    then ok (OsImageFormat.raw, stored_bytes)
    else err
        (ImageStoreError.invalid_disk_image (text "raw image has no MBR or GPT disk signature"))

-- A header with it.
unfoldable pub inspect_qcow2 : List ℕ → Result (OsImageFormat × ℕ) ImageStoreError
inspect_qcow2 header =
    let version = from_be_bytes (field 4 4 header) in
    let cluster_bits = from_be_bytes (field 20 4 header) in
    let virtual_bytes = from_be_bytes (field 24 8 header) in
    reject_if (ltb (length header) 32)
      (ImageStoreError.invalid_disk_image (text "qcow2 header is truncated"))
    >> (reject_if (not (leb 1 version && leb version 3)) (
          ImageStoreError.invalid_disk_image
            (text "qcow2 version " ++ decimal version ++ text " is unsupported"))
        >> (reject_if (not (leb 9 cluster_bits && leb cluster_bits 21))
              (ImageStoreError.invalid_disk_image (text "qcow2 cluster size is invalid"))
            >> (reject_if (virtual_bytes == 0)
                  (ImageStoreError.invalid_disk_image (text "qcow2 virtual size is zero"))
                >> ok (OsImageFormat.qcow2, virtual_bytes))))

-- No qcow2 signature at the start.
unfoldable pub is_raw : List ℕ → Bool
unfolding same_list
is_raw header =
    ltb (length header) 4 || not (same_list (field 0 4 header) (81 ∷ 70 ∷ 73 ∷ 251 ∷ []))

unfoldable pub inspect_header : List ℕ → ℕ → Result (OsImageFormat × ℕ) ImageStoreError
unfolding inspect_raw inspect_qcow2 is_raw
inspect_header header stored_bytes =
    if is_raw header then inspect_raw header stored_bytes else inspect_qcow2 header

-- Error number of `read_exact` at the end of a file: it has none.
abbrev unexpected_eof : ℕ
unexpected_eof = 0

unfoldable pub inspect_disk_image : List ℕ → ℕ → Result (OsImageFormat × ℕ) ImageStoreError
unfolding inspect_header
inspect_disk_image content stored_bytes =
    reject_if (stored_bytes == 0) ImageStoreError.empty_artifact
    >> (reject_if (ltb (length content) (header_length stored_bytes))
          (ImageStoreError.io (text "read OS image header") unexpected_eof)
        >> inspect_header (take (header_length stored_bytes) content) stored_bytes)
