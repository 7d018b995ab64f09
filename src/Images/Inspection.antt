-- ===== src/Images/Inspection.antt =====
-- What is known of a disk image that passes the inspection.
use kernmux.Prelude.{
  ℕ, ◌≤◌, ◌<◌, ◌≡◌, ◌⊎◌, inl, inr, refl, sym, [], ◌∷◌, not, ◌&&◌, ◌||◌, leb, ok_injective, ap, ◌∙◌,
  Bool, true, false, List, ◌==◌, ltb, length, if◌then◌else◌, Result, ok, err, ◌>>◌, reject_if,
  reject_if-eq-ok, >>=-eq-ok, arith, Bool-cases,
}
use kernmux.Prelude.Text.{text}
use kernmux.Prelude.Order.{nat_ord}
use kernmux.Prelude.TreeSet.{same_list, same_list_iff}
use kernmux.Images.{
  OsImageFormat, ImageStoreError, inspect_disk_image, inspect_qcow2, inspect_raw, inspect_header,
  is_raw, field, take, header_length, from_be_bytes,
}

-- The signature of qcow2 at the start: "QFI" and the byte 0xfb.
abbrev pub IsSigned : List ℕ → Type 0
IsSigned header = (4 ≤ length header) × (field 0 4 header ≡ 81 ∷ 70 ∷ 73 ∷ 251 ∷ [])

-- The signature of a partition table: the bytes 0x55 and 0xaa at the end of the first sector, or
-- "EFI PART" at the start of the second.
abbrev pub IsPartitioned : List ℕ → Type 0
IsPartitioned header =
    ((512 ≤ length header) × (field 510 2 header ≡ 85 ∷ 170 ∷ []))
    ⊎ ((520 ≤ length header) × (field 512 8 header ≡ text "EFI PART"))

-- The fields of a qcow2 header.
abbrev pub IsQcow2 : List ℕ → ℕ → Type 0
IsQcow2 header virtual_bytes =
    (32 ≤ length header)
    × (1 ≤ from_be_bytes (field 4 4 header))
    × (from_be_bytes (field 4 4 header) ≤ 3)
    × (9 ≤ from_be_bytes (field 20 4 header))
    × (from_be_bytes (field 20 4 header) ≤ 21)
    × (virtual_bytes ≡ from_be_bytes (field 24 8 header))

inspect_qcow2_lem :
    (header : List ℕ) (format : OsImageFormat) (virtual_bytes : ℕ)
    → inspect_qcow2 header ≡ ok (format, virtual_bytes)
    → (format ≡ OsImageFormat.qcow2) × (0 < virtual_bytes) × IsQcow2 header virtual_bytes
unfolding inspect_qcow2
inspect_qcow2_lem header format virtual_bytes h = ground arith

-- A raw image, or one with a qcow2 header.
abbrev pub IsImage : List ℕ → ℕ → OsImageFormat → ℕ → Type 0
IsImage header stored_bytes format virtual_bytes =
    ((format ≡ OsImageFormat.raw)
      × (virtual_bytes ≡ stored_bytes)
      × (¬ IsSigned header)
      × IsPartitioned header)
    ⊎ ((format ≡ OsImageFormat.qcow2)
        × (0 < virtual_bytes)
        × IsSigned header
        × IsQcow2 header virtual_bytes)

-- The tests of the signatures, on a header of n bytes.
unsigned_lem :
    (n : ℕ) (a m : List ℕ) → (ltb n 4 || not (same_list a m)) ≡ true → ¬ ((4 ≤ n) × (a ≡ m))
unsigned_lem n a m h = ground (arith, same_list_iff a m)

signed_lem : (n : ℕ) (a m : List ℕ) → (ltb n 4 || not (same_list a m)) ≡ false → (4 ≤ n) × (a ≡ m)
signed_lem n a m h = ground (arith, same_list_iff a m)

partitioned_lem :
    (n : ℕ) (a m b g : List ℕ)
    → ((leb 512 n && same_list a m) || (leb 520 n && same_list b g)) ≡ true
    → ((512 ≤ n) × (a ≡ m)) ⊎ ((520 ≤ n) × (b ≡ g))
partitioned_lem n a m b g h = ground (arith, same_list_iff a m, same_list_iff b g)

inspect_raw_lem :
    (header : List ℕ) (stored_bytes : ℕ) (format : OsImageFormat) (virtual_bytes : ℕ)
    → inspect_raw header stored_bytes ≡ ok (format, virtual_bytes)
    → (format ≡ OsImageFormat.raw) × (virtual_bytes ≡ stored_bytes) × IsPartitioned header
unfolding inspect_raw
inspect_raw_lem header stored_bytes format virtual_bytes h =
    let (test, e) = if_ok _ _ _ _ h in
    (
      sym (ap (λ p. p.0) e),
      sym (ap (λ p. p.1) e),
      partitioned_lem (length header) (field 510 2 header) _ (field 512 8 header) _ test,
    )
  where
    if_ok :
        (test : Bool) (x y : OsImageFormat × ℕ) (e : ImageStoreError)
        → (if test then ok x else err e) ≡ ok y
        → (test ≡ true) × (x ≡ y)
    if_ok true x y e h = (refl, ok_injective h)
    if_ok false x y e h = cc

inspect_header_lem :
    (header : List ℕ) (stored_bytes : ℕ) (format : OsImageFormat) (virtual_bytes : ℕ)
    → inspect_header header stored_bytes ≡ ok (format, virtual_bytes)
    → IsImage header stored_bytes format virtual_bytes
unfolding inspect_header is_raw
inspect_header_lem header stored_bytes format virtual_bytes h = elim (Bool-cases (is_raw header)) [
  | inl raw ↦
      let (kind, size, partitioned) =
        inspect_raw_lem header stored_bytes format virtual_bytes (sym (ap chosen raw) ∙ h) in
      inl (kind, size, unsigned_lem (length header) (field 0 4 header) _ raw, partitioned)
  | inr signed ↦
      let (kind, size, fields) =
        inspect_qcow2_lem header format virtual_bytes (sym (ap chosen signed) ∙ h) in
      inr (kind, size, signed_lem (length header) (field 0 4 header) _ signed, fields)
]
  where
    chosen : Bool → Result (OsImageFormat × ℕ) ImageStoreError
    chosen b = if b then inspect_raw header stored_bytes else inspect_qcow2 header

nonzero : (n : ℕ) → (n == 0) ≡ false → 0 < n
nonzero n e = ground arith

-- An image that passes has content and a complete header. Either it is raw, of just the size that
-- is stored, without the signature of qcow2, and with that of an MBR or a GPT; or it has the
-- signature of qcow2 and a qcow2 header of a version from 1 to 3, with a cluster size from 2^9 to
-- 2^21 and a virtual size that is not zero.
pub inspect_disk_image_lem :
    (content : List ℕ) (stored_bytes : ℕ) (format : OsImageFormat) (virtual_bytes : ℕ)
    → inspect_disk_image content stored_bytes ≡ ok (format, virtual_bytes)
    → (0 < virtual_bytes)
      × (header_length stored_bytes ≤ length content)
      × IsImage (take (header_length stored_bytes) content) stored_bytes format virtual_bytes
unfolding inspect_disk_image
inspect_disk_image_lem content stored_bytes format virtual_bytes h =
    let header = take (header_length stored_bytes) content in
    let (_, nonempty, h1) = >>=-eq-ok (reject_if (stored_bytes == 0) _) (λ _. read header) h in
    let (_, complete, h2) =
      >>=-eq-ok (reject_if (ltb (length content) (header_length stored_bytes)) (end_of_file))
        (λ _. inspect_header header stored_bytes) h1 in
    let some_bytes : (stored_bytes == 0) ≡ false = reject_if-eq-ok (stored_bytes == 0) _ nonempty in
    let whole = fits _ _ (reject_if-eq-ok _ end_of_file complete) in
    positive whole (nonzero stored_bytes some_bytes)
      (inspect_header_lem header stored_bytes format virtual_bytes h2)
  where
    end_of_file : ImageStoreError
    end_of_file = ImageStoreError.io (text "read OS image header") 0

    read : List ℕ → Result (OsImageFormat × ℕ) ImageStoreError
    read header =
        reject_if (ltb (length content) (header_length stored_bytes)) end_of_file
        >> inspect_header header stored_bytes

    fits : (a b : ℕ) → ltb a b ≡ false → b ≤ a
    fits a b h = ground arith

    positive :
        header_length stored_bytes ≤ length content
        → 0 < stored_bytes
        → IsImage (take (header_length stored_bytes) content) stored_bytes format virtual_bytes
        → (0 < virtual_bytes)
          × (header_length stored_bytes ≤ length content)
          × IsImage (take (header_length stored_bytes) content) stored_bytes format virtual_bytes
    positive whole k (inl (raw, size, plain, marks)) =
        (omega arith, whole, inl (raw, size, plain, marks))
    positive whole k (inr (qcow2, size, signed, fields)) =
        (size, whole, inr (qcow2, size, signed, fields))
