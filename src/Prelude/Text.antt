-- ===== src/Prelude/Text.antt =====
-- Byte strings: `String`, `OsString` and `PathBuf` are lists of bytes. Numbers print in decimal.
use Prim.Native.Char.{code}
use Prim.Native.String.{String}
use Prim.Native.Nat.{ℕ, zero, suc, ◌+◌, ◌-◌, ◌*◌, ◌/◌, ◌%◌, ◌≤◌, ◌<◌}
use mathlib.Core.Path.{◌≡◌, refl, sym, ap, ◌∙◌}
use mathlib.Core.Logic.{◌≢◌, inl, inr}
use mathlib.Core.Bool.{false}
use mathlib.Core.List.{List, [], ◌∷◌, ◌++◌, map}
use native.Mathlib.Omega.{arith}
use kernmux.Prelude.Tests.{ltb, ◌==◌, if◌then◌else◌, Bool-cases}
use kernmux.Prelude.Lists.{All}

abbrev pub Text : Type 0
Text = List ℕ

-- The bytes of a literal of the source; these literals are ASCII.
unfoldable pub text : String → Text
text String.[] = []
text (String.◌∷◌ c s) = code c ∷ text s

digits : ℕ → ℕ → Text
digits zero n = []
digits (suc fuel) n =
    let rest = digits fuel (n / 10) in
    if ltb n 10 then (48 + n) ∷ [] else rest ++ (48 + n % 10) ∷ []

-- `n.to_string()`. A number has at most as many digits as its successor counts.
unfoldable pub decimal : ℕ → Text
unfolding digits
decimal n = digits (suc n) n

-- The number that a string of digits stands for.
abbrev pub value_from : ℕ → Text → ℕ
value_from acc [] = acc
value_from acc (c ∷ cs) = value_from (acc * 10 + (c - 48)) cs

unfoldable pub value : Text → ℕ
value cs = value_from 0 cs

value_from-snoc :
    (acc : ℕ) (xs : Text) (c : ℕ)
    → value_from acc (xs ++ c ∷ []) ≡ value_from acc xs * 10 + (c - 48)
value_from-snoc acc [] c = refl
value_from-snoc acc (x ∷ xs) c = value_from-snoc (acc * 10 + (x - 48)) xs c

value-digits : (fuel n : ℕ) → n < fuel → value_from 0 (digits fuel n) ≡ n
unfolding digits
value-digits zero n h = absurd (omega arith)
value-digits (suc fuel) n h =
    ground
      (arith, value-digits fuel (n / 10), value_from-snoc 0 (digits fuel (n / 10)) (48 + n % 10))

-- Reading a printed number gives it back.
pub value-decimal : (n : ℕ) → value (decimal n) ≡ n
unfolding value decimal
value-decimal n = value-digits (suc n) n (omega arith)

pub decimal-injective : (m n : ℕ) → decimal m ≡ decimal n → m ≡ n
decimal-injective m n e = sym (value-decimal m) ∙ ap value e ∙ value-decimal n

abbrev pub IsDigit : ℕ → Type 0
IsDigit c = (48 ≤ c) × (c ≤ 57)

All-snoc : (xs : Text) (c : ℕ) → All IsDigit xs → IsDigit c → All IsDigit (xs ++ c ∷ [])
All-snoc [] c h k = (k, tt)
All-snoc (x ∷ xs) c h k = (h.0, All-snoc xs c h.1 k)

digits-IsDigit : (fuel n : ℕ) → All IsDigit (digits fuel n)
unfolding digits
digits-IsDigit zero n = tt
digits-IsDigit (suc fuel) n = elim (Bool-cases (ltb n 10)) [
  | inl small ↦ rw small (ground arith)
  | inr large ↦
      rw large (All-snoc (digits fuel (n / 10)) _ (digits-IsDigit fuel (n / 10)) (omega arith))
]

pub decimal-IsDigit : (n : ℕ) → All IsDigit (decimal n)
unfolding decimal
decimal-IsDigit n = digits-IsDigit (suc n) n

-- `items.join(",")`.
pub join : List Text → Text
join [] = []
join (x ∷ []) = x
join (x ∷ y ∷ rest) = x ++ b',' ∷ join (y ∷ rest)

abbrev push_front : ℕ → List Text → List Text
push_front c [] = (c ∷ []) ∷ []
push_front c (x ∷ xs) = (c ∷ x) ∷ xs

-- The parts between commas.
pub split : Text → List Text
split [] = [] ∷ []
split (c ∷ cs) = if c == b',' then [] ∷ split cs else push_front c (split cs)

-- No byte of the text is a comma.
abbrev pub IsPart : Text → Type 0
IsPart = All (λ c. (c == b',') ≡ false)

split-part : (x : Text) → IsPart x → split x ≡ x ∷ []
unfolding split
split-part [] h = refl
split-part (c ∷ cs) h = ground (arith, split-part cs h.1)

split-append : (x rest : Text) → IsPart x → split (x ++ b',' ∷ rest) ≡ x ∷ split rest
unfolding split
split-append [] rest h = refl
split-append (c ∷ cs) rest h = ground (arith, split-append cs rest h.1)

-- Splitting undoes joining.
pub split-join : (x : Text) (xs : List Text) → All IsPart (x ∷ xs) → split (join (x ∷ xs)) ≡ x ∷ xs
unfolding join
split-join x [] h = split-part x h.0
split-join x (y ∷ rest) h =
    split-append x (join (y ∷ rest)) h.0 ∙ ap (◌∷◌ x) (split-join y rest h.1)

IsDigit-IsPart : (cs : Text) → All IsDigit cs → IsPart cs
IsDigit-IsPart [] h = tt
IsDigit-IsPart (c ∷ cs) h = (ground arith, IsDigit-IsPart cs h.1)

decimals-IsPart : (ns : List ℕ) → All IsPart (map decimal ns)
decimals-IsPart [] = tt
decimals-IsPart (n ∷ ns) = (IsDigit-IsPart (decimal n) (decimal-IsDigit n), decimals-IsPart ns)

map-value-decimal : (ns : List ℕ) → map value (map decimal ns) ≡ ns
map-value-decimal [] = refl
map-value-decimal (n ∷ ns) = cc (value-decimal n, map-value-decimal ns)

-- A list of numbers printed with commas reads back as that list.
pub split-join_decimals :
    (n : ℕ) (ns : List ℕ) → map value (split (join (map decimal (n ∷ ns)))) ≡ n ∷ ns
split-join_decimals n ns =
    ap (map value) (split-join (decimal n) (map decimal ns) (decimals-IsPart (n ∷ ns)))
    ∙ map-value-decimal (n ∷ ns)

snoc_nonempty : (xs : Text) (c : ℕ) → xs ++ c ∷ [] ≢ []
snoc_nonempty [] c h = cc
snoc_nonempty (x ∷ xs) c h = cc

pub decimal_nonempty : (n : ℕ) → decimal n ≢ []
unfolding decimal digits
decimal_nonempty n = elim (Bool-cases (ltb n 10)) [
  | inl small ↦ rw small (λ h. cc)
  | inr large ↦ rw large (snoc_nonempty (digits n (n / 10)) (48 + n % 10))
]
