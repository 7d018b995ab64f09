-- ===== src/Prelude/Parsing.antt =====
-- `str::strip_prefix`, `str::split` on one byte, `str::parse` of unsigned numbers, and the byte
-- classes of ASCII.
use Prim.Native.Nat.{ℕ, ◌+◌, ◌-◌, ◌*◌, ◌≤◌}
use mathlib.Core.Path.{◌≡◌, refl, ap, ◌∙◌}
use mathlib.Core.Logic.{◌≢◌, ◌↔◌}
use mathlib.Core.Bool.{Bool, false, ◌&&◌, ◌||◌}
use mathlib.Core.Option.{Option, none, some}
use mathlib.Core.List.{List, [], ◌∷◌, ◌++◌}
use native.Mathlib.Omega.{arith}
use kernmux.Prelude.Tests.{leb, ◌==◌, if◌then◌else◌}
use kernmux.Prelude.Lists.{All, any}
use kernmux.Prelude.Text.{
  Text, IsDigit, decimal, decimal-IsDigit, decimal_nonempty, value, value_from, value-decimal,
}

unfoldable pub strip_prefix : Text → Text → Option Text
strip_prefix [] value = some value
strip_prefix (p ∷ ps) [] = none
strip_prefix (p ∷ ps) (c ∷ cs) = if p == c then strip_prefix ps cs else none

pub strip_prefix_iff :
    (prefix value rest : Text) → (strip_prefix prefix value ≡ some rest) ↔ (value ≡ prefix ++ rest)
unfolding strip_prefix
strip_prefix_iff [] value rest = ground arith
strip_prefix_iff (p ∷ ps) [] rest = ground arith
strip_prefix_iff (p ∷ ps) (c ∷ cs) rest = ground (arith, strip_prefix_iff ps cs rest)

abbrev push_front : ℕ → List Text → List Text
push_front c [] = (c ∷ []) ∷ []
push_front c (x ∷ xs) = (c ∷ x) ∷ xs

-- The parts between the separators; there is always at least one.
unfoldable pub split_on : ℕ → Text → List Text
split_on separator [] = [] ∷ []
split_on separator (c ∷ cs) =
    let rest = split_on separator cs in if c == separator then [] ∷ rest else push_front c rest

-- `str::contains` of a byte.
unfoldable pub has_byte : ℕ → Text → Bool
has_byte byte = any (λ c. c == byte)

abbrev pub is_ascii_digit : ℕ → Bool
is_ascii_digit c = leb 48 c && leb c 57

abbrev pub is_ascii_alphanumeric : ℕ → Bool
is_ascii_alphanumeric c = is_ascii_digit c || (leb 65 c && leb c 90) || (leb 97 c && leb c 122)

-- The digits of a number, with checked multiplication and addition.
unfoldable pub parse_digits : ℕ → ℕ → Text → Option ℕ
parse_digits max acc [] = some acc
parse_digits max acc (c ∷ cs) =
    let rest = parse_digits max (acc * 10 + (c - 48)) cs in
    if is_ascii_digit c && leb (acc * 10 + (c - 48)) max then rest else none

-- A leading `+` is skipped, unless it stands alone.
abbrev skip_plus : Text → Text
skip_plus [] = []
skip_plus (c ∷ []) = c ∷ []
skip_plus (c ∷ d ∷ cs) = if c == 43 then d ∷ cs else c ∷ d ∷ cs

abbrev parse_nonempty : ℕ → Text → Option ℕ
parse_nonempty max [] = none
parse_nonempty max (c ∷ cs) = parse_digits max 0 (c ∷ cs)

-- `value.parse::<u32>()` and `value.parse::<u64>()`, by the largest number.
unfoldable pub parse_unsigned : ℕ → Text → Option ℕ
unfolding parse_digits
parse_unsigned max value = parse_nonempty max (skip_plus value)

parse_digits-bound :
    (max acc : ℕ) (cs : Text) (n : ℕ) → acc ≤ max → parse_digits max acc cs ≡ some n → n ≤ max
unfolding parse_digits
parse_digits-bound max acc [] n h e = ground arith
parse_digits-bound max acc (c ∷ cs) n h e =
    ground (arith, parse_digits-bound max (acc * 10 + (c - 48)) cs n)

parse_nonempty-bound : (max : ℕ) (cs : Text) (n : ℕ) → parse_nonempty max cs ≡ some n → n ≤ max
parse_nonempty-bound max [] n e = cc
parse_nonempty-bound max (c ∷ cs) n e = parse_digits-bound max 0 (c ∷ cs) n (omega arith) e

-- A number that is read fits its type.
pub parse_unsigned-bound : (max : ℕ) (cs : Text) (n : ℕ) → parse_unsigned max cs ≡ some n → n ≤ max
unfolding parse_unsigned
parse_unsigned-bound max cs n e = parse_nonempty-bound max (skip_plus cs) n e

abbrev pub u32_max : ℕ
u32_max = 4294967295

value_from-le : (acc : ℕ) (cs : Text) → acc ≤ value_from acc cs
value_from-le acc [] = omega arith
value_from-le acc (c ∷ cs) = omega (arith, value_from-le (acc * 10 + (c - 48)) cs)

parse_digits-value :
    (max acc : ℕ) (cs : Text)
    → All IsDigit cs
    → value_from acc cs ≤ max
    → parse_digits max acc cs ≡ some (value_from acc cs)
unfolding parse_digits
parse_digits-value max acc [] h k = refl
parse_digits-value max acc (c ∷ cs) h k =
    let rest = parse_digits-value max (acc * 10 + (c - 48)) cs h.1 k in
    let low = value_from-le (acc * 10 + (c - 48)) cs in ground arith

skip_plus-IsDigit : (cs : Text) → All IsDigit cs → skip_plus cs ≡ cs
skip_plus-IsDigit [] h = refl
skip_plus-IsDigit (c ∷ []) h = refl
skip_plus-IsDigit (c ∷ d ∷ cs) h = ground arith

parse_nonempty-value :
    (max : ℕ) (cs : Text)
    → All IsDigit cs
    → cs ≢ []
    → value cs ≤ max
    → parse_nonempty max cs ≡ some (value cs)
unfolding value
parse_nonempty-value max [] h k l = absurd (k refl)
parse_nonempty-value max (c ∷ cs) h k l = parse_digits-value max 0 (c ∷ cs) h l

-- A printed number is read back, if it fits.
pub parse_unsigned-decimal : (max n : ℕ) → n ≤ max → parse_unsigned max (decimal n) ≡ some n
unfolding parse_unsigned
parse_unsigned-decimal max n h =
    let digits = decimal-IsDigit n in
    let e : value (decimal n) ≡ n = value-decimal n in
    ap (parse_nonempty max) (skip_plus-IsDigit (decimal n) digits)
    ∙ parse_nonempty-value max (decimal n) digits (decimal_nonempty n) (omega arith)
    ∙ ap some e

-- Parts without the separator are split off whole.
pub split_on-part :
    (separator : ℕ) (x : Text)
    → All (λ c. (c == separator) ≡ false) x
    → split_on separator x ≡ x ∷ []
unfolding split_on
split_on-part separator [] h = refl
split_on-part separator (c ∷ cs) h = ground (arith, split_on-part separator cs h.1)

pub split_on-append :
    (separator : ℕ) (x rest : Text)
    → All (λ c. (c == separator) ≡ false) x
    → split_on separator (x ++ separator ∷ rest) ≡ x ∷ split_on separator rest
unfolding split_on
split_on-append separator [] rest h = ground arith
split_on-append separator (c ∷ cs) rest h = ground (arith, split_on-append separator cs rest h.1)
