-- ===== src/Images/Artifacts.antt =====
-- `ArtifactKind`, `ArtifactId`, the records and the errors.
use kernmux.Prelude.{
  ℕ, ◌+◌, ◌/◌, ◌%◌, Bool, true, false, not, ◌&&◌, ◌||◌, Option, none, some, List, [], ◌∷◌, ◌++◌,
  ◌==◌, leb, length, all, if◌then◌else◌, Result, ok, err, ◌>>=◌, ok_or, arith, ◌≡◌, ◌↔◌,
}
use kernmux.Prelude.Order.{nat_ord, bytes_ord, same, same_iff}
use kernmux.Prelude.Text.{Text, text}
use kernmux.Prelude.Parsing.{strip_prefix, is_ascii_digit, is_ascii_alphanumeric}

-- Semantic use of one immutable artifact.
pub data ArtifactKind : Type 0 where
  kernel initrd os_image : ArtifactKind

-- Canonical SHA-256 identity of immutable artifact bytes.
pub record ArtifactId : Type 0 where
  pub value : Text

-- Format of a validated disk image (`OsImageFormat` of v1.rs).
pub data OsImageFormat : Type 0 where
  raw qcow2 unknown : OsImageFormat

-- Operator metadata and validated disk geometry for an OS image artifact.
pub record OsImageRecord : Type 0 where
  pub label : Text
  pub format : OsImageFormat
  pub virtual_bytes : ℕ
  pub architecture : Option Text

-- Deterministic metadata for one artifact use.
pub record ArtifactRecord : Type 0 where
  pub schema_version : ℕ
  pub kind : ArtifactKind
  pub id : ArtifactId
  pub bytes : ℕ
  pub os_image : Option OsImageRecord

-- Failure to import or verify an immutable artifact; an `io::Error` is its error number.
pub data ImageStoreError : Type 0 where
  invalid_size_limit : ImageStoreError
  invalid_artifact_id : Text → ImageStoreError
  source_not_regular : ImageStoreError
  empty_artifact : ImageStoreError
  invalid_disk_image : Text → ImageStoreError
  invalid_os_image_metadata : Text → ImageStoreError
  too_large : ℕ → ImageStoreError
  digest_mismatch : ArtifactId → ArtifactId → ImageStoreError
  not_found : ImageStoreError
  corrupt : Text → ImageStoreError
  metadata_encoding : Text → ImageStoreError
  io : Text → ℕ → ImageStoreError

-- One lowercase hexadecimal digit.
abbrev pub is_hex : ℕ → Bool
is_hex byte = is_ascii_digit byte || (leb 97 byte && leb byte 102)

-- `Option::filter`.
abbrev pub filter_option {ℓ} : {A : Type ℓ} → (A → Bool) → Option A → Option A
filter_option test none = none
filter_option test (some a) = if test a then some a else none

-- `ArtifactId::parse`.
unfoldable pub parse : Text → Result ArtifactId ImageStoreError
unfolding strip_prefix text
parse value =
    ok_or
      (filter_option (λ digest. length digest == 64 && all is_hex digest)
        (strip_prefix (text "sha256:") value))
      (ImageStoreError.invalid_artifact_id value)
    >>= λ digest. ok (record { value = value })

-- `{byte:02x}`.
abbrev pub hex_digit : ℕ → ℕ
hex_digit n = if leb 10 n then 87 + n else 48 + n

abbrev pub hex : List ℕ → Text
hex [] = []
hex (byte ∷ bytes) = hex_digit (byte / 16) ∷ hex_digit (byte % 16) ∷ hex bytes

-- `ArtifactId::from_digest`.
unfoldable pub from_digest : List ℕ → ArtifactId
unfolding text
from_digest digest = record { value = text "sha256:" ++ hex digest }

-- `==` on artifact ids.
unfoldable pub same_id : ArtifactId → ArtifactId → Bool
same_id a b = same a.value b.value

abbrev kind_tag : ArtifactKind → ℕ
kind_tag ArtifactKind.kernel = 0
kind_tag ArtifactKind.initrd = 1
kind_tag ArtifactKind.os_image = 2

-- `==` on artifact kinds.
unfoldable pub same_kind : ArtifactKind → ArtifactKind → Bool
same_kind a b = kind_tag a == kind_tag b

unfoldable pub valid_architecture : Text → Bool
valid_architecture value =
    not (length value == 0)
    && leb (length value) 64
    && all (λ byte. is_ascii_alphanumeric byte || (byte == 45 || byte == 95 || byte == 46)) value

-- `validate_architecture`.
unfoldable pub validate_architecture : Text → Result Text ImageStoreError
unfolding valid_architecture
validate_architecture value =
    if valid_architecture value
    then ok value
    else err (ImageStoreError.invalid_os_image_metadata (text "OS image architecture is invalid"))

abbrev format_tag : OsImageFormat → ℕ
format_tag OsImageFormat.raw = 0
format_tag OsImageFormat.qcow2 = 1
format_tag OsImageFormat.unknown = 2

abbrev same_option {ℓ} : {A : Type ℓ} → (A → A → Bool) → Option A → Option A → Bool
same_option test none none = true
same_option test none (some b) = false
same_option test (some a) none = false
same_option test (some a) (some b) = test a b

abbrev same_os_image : OsImageRecord → OsImageRecord → Bool
same_os_image a b =
    same a.label b.label
    && (format_tag a.format == format_tag b.format)
    && (a.virtual_bytes == b.virtual_bytes)
    && same_option same a.architecture b.architecture

-- `==` on records, field by field, and on lists of them.
unfoldable pub same_record : ArtifactRecord → ArtifactRecord → Bool
unfolding same_kind same_id
same_record a b =
    (a.schema_version == b.schema_version)
    && same_kind a.kind b.kind
    && same_id a.id b.id
    && (a.bytes == b.bytes)
    && same_option same_os_image a.os_image b.os_image

unfoldable pub same_records : List ArtifactRecord → List ArtifactRecord → Bool
unfolding same_record
same_records [] [] = true
same_records [] (b ∷ ys) = false
same_records (a ∷ xs) [] = false
same_records (a ∷ xs) (b ∷ ys) = same_record a b && same_records xs ys

pub same_kind_iff : (a b : ArtifactKind) → (same_kind a b ≡ true) ↔ (a ≡ b)
unfolding same_kind
same_kind_iff a b = ground arith

pub same_id_iff : (a b : ArtifactId) → (same_id a b ≡ true) ↔ (a ≡ b)
unfolding same_id
same_id_iff a b = ground (arith, same_iff a.value b.value)

same_format_iff : (a b : OsImageFormat) → ((format_tag a == format_tag b) ≡ true) ↔ (a ≡ b)
same_format_iff a b = ground arith

same_option_iff :
    {A : Type 0} (test : A → A → Bool) (x y : Option A)
    → ((a b : A) → (test a b ≡ true) ↔ (a ≡ b))
    → (same_option test x y ≡ true) ↔ (x ≡ y)
same_option_iff test none none h = ground arith
same_option_iff test none (some b) h = ground arith
same_option_iff test (some a) none h = ground arith
same_option_iff test (some a) (some b) h = ground (arith, h a b)

same_os_image_iff : (a b : OsImageRecord) → (same_os_image a b ≡ true) ↔ (a ≡ b)
same_os_image_iff a b = ground (
  arith,
  same_iff a.label b.label,
  same_format_iff a.format b.format,
  same_option_iff same a.architecture b.architecture same_iff,
)

same_record_iff : (a b : ArtifactRecord) → (same_record a b ≡ true) ↔ (a ≡ b)
unfolding same_record
same_record_iff a b = ground (
  arith,
  same_kind_iff a.kind b.kind,
  same_id_iff a.id b.id,
  same_option_iff same_os_image a.os_image b.os_image same_os_image_iff,
)

pub same_records_iff : (xs ys : List ArtifactRecord) → (same_records xs ys ≡ true) ↔ (xs ≡ ys)
unfolding same_records
same_records_iff [] [] = ground arith
same_records_iff [] (b ∷ ys) = ground arith
same_records_iff (a ∷ xs) [] = ground arith
same_records_iff (a ∷ xs) (b ∷ ys) = ground (arith, same_record_iff a b, same_records_iff xs ys)
