-- ===== src/Images/Ids.antt =====
-- Artifact ids are exactly the printed SHA-256 digests.
use kernmux.Prelude.{
  some_injective, ℕ, ◌/◌, ◌%◌, ◌*◌, ◌<◌, ◌≡◌, ◌↔◌, refl, sym, ap, ◌∙◌, Bool, true, ◌&&◌, Option,
  none, some, List, [], ◌∷◌, ◌++◌, length, all, All, ◌==◌, ok, arith, >>=-eq-ok, ok_or, ok_or-eq-ok,
  Bool-cases, inl, inr,
}
use kernmux.Prelude.Text.{Text, text}
use kernmux.Prelude.Parsing.{strip_prefix, strip_prefix_iff}
use kernmux.Images.{ArtifactId, parse, from_digest, hex, hex_digit, is_hex, filter_option}

-- `sha256:` and 64 lowercase hexadecimal digits.
abbrev pub IsCanonical : Text → Type 0
IsCanonical value =
    (digest : Text) × (value ≡ text "sha256:" ++ digest)
    × (length digest ≡ 64)
    × (all is_hex digest ≡ true)

filter_option_iff :
    {A : Type 0} (test : A → Bool) (o : Option A) (a : A)
    → (filter_option test o ≡ some a) ↔ ((o ≡ some a) × (test a ≡ true))
filter_option_iff test none a = ground arith
filter_option_iff test (some b) a = elim (Bool-cases (test b)) [
  | inl t ↦ rw t (λ e. (e, ap test (sym (some_injective e)) ∙ t), λ h. h.0)
  | inr f ↦ rw f (λ e. absurd (cc), λ h. absurd (cc (ap test (some_injective h.0))))
]

abbrev digest_of : Text → Option Text
digest_of value =
    filter_option (λ digest. length digest == 64 && all is_hex digest)
      (strip_prefix (text "sha256:") value)

digest_of_iff :
    (value digest : Text)
    → (digest_of value ≡ some digest)
      ↔ ((value ≡ text "sha256:" ++ digest) × (length digest ≡ 64) × (all is_hex digest ≡ true))
digest_of_iff value digest =
    let kept =
      filter_option_iff (λ d. length d == 64 && all is_hex d) (strip_prefix (text "sha256:") value)
        digest in
    let prefix = strip_prefix_iff (text "sha256:") value digest in
    (
      λ h. let (stripped, good) = kept.0 h in (prefix.0 stripped, ground arith, ground arith),
      λ h. kept.1 (prefix.1 h.0, ground arith),
    )

-- `parse` accepts exactly the canonical ids, and keeps them as they are.
pub parse_iff :
    (value : Text) (id : ArtifactId)
    → (parse value ≡ ok id) ↔ (IsCanonical value × (id.value ≡ value))
unfolding parse
parse_iff value id = (
  λ h.
      let (digest, found, made) = >>=-eq-ok (ok_or (digest_of value) _) _ h in
      let e : digest_of value ≡ some digest = ok_or-eq-ok (digest_of value) _ found in
      let (spelled, long, hexadecimal) = (digest_of_iff value digest).0 e in
      ((digest, spelled, long, hexadecimal), cc),
  λ ((digest, spelled, long, hexadecimal), kept).
      let e : digest_of value ≡ some digest =
        (digest_of_iff value digest).1 (spelled, long, hexadecimal) in
      rw e (cc),
)

-- The bytes of a digest.
abbrev pub IsBytes : List ℕ → Type 0
IsBytes = All (λ byte. byte < 256)

hex_digit-is_hex : (n : ℕ) → n < 16 → is_hex (hex_digit n) ≡ true
hex_digit-is_hex n h = ground arith

hex-is_hex : (digest : List ℕ) → IsBytes digest → all is_hex (hex digest) ≡ true
hex-is_hex [] h = refl
hex-is_hex (byte ∷ bytes) h =
    let high = hex_digit-is_hex (byte / 16) (omega arith) in
    let low = hex_digit-is_hex (byte % 16) (omega arith) in ground (arith, hex-is_hex bytes h.1)

length-hex : (digest : List ℕ) → length (hex digest) ≡ 2 * length digest
length-hex [] = refl
length-hex (byte ∷ bytes) = omega (arith, length-hex bytes)

-- The id of any digest of 32 bytes is parsed back from its text.
pub parse-from_digest :
    (digest : List ℕ)
    → IsBytes digest
    → length digest ≡ 32
    → parse (from_digest digest).value ≡ ok (from_digest digest)
parse-from_digest digest h k = (parse_iff (from_digest digest).value (from_digest digest)).1 (
  (hex digest, unfold from_digest in refl, omega (arith, length-hex digest), hex-is_hex digest h),
  refl,
)

hex_digit-injective : (m n : ℕ) → m < 16 → n < 16 → hex_digit m ≡ hex_digit n → m ≡ n
hex_digit-injective m n h k e = ground arith

hex-injective : (d e : List ℕ) → IsBytes d → IsBytes e → hex d ≡ hex e → d ≡ e
hex-injective [] [] h k same = refl
hex-injective [] (y ∷ ys) h k same = cc
hex-injective (x ∷ xs) [] h k same = cc
hex-injective (x ∷ xs) (y ∷ ys) h k same =
    let rest = hex-injective xs ys h.1 k.1 (cc) in
    let high = hex_digit-injective (x / 16) (y / 16) (omega arith) (omega arith) (cc) in
    let low = hex_digit-injective (x % 16) (y % 16) (omega arith) (omega arith) (cc) in
    let head : x ≡ y = omega arith in cc

append-injective : (p xs ys : Text) → p ++ xs ≡ p ++ ys → xs ≡ ys
append-injective [] xs ys h = h
append-injective (c ∷ p) xs ys h = append-injective p xs ys (cc)

-- Different digests have different ids.
pub from_digest-injective :
    (d e : List ℕ) → IsBytes d → IsBytes e → from_digest d ≡ from_digest e → d ≡ e
unfolding from_digest
from_digest-injective d e h k same =
    hex-injective d e h k
      (append-injective (text "sha256:") (hex d) (hex e) (ap (λ id. id.value) same))
