-- ===== src/Prelude/Order.antt =====
-- `Ord`: a total order by comparison, on numbers and on byte strings.
use Prim.Native.Nat.{ℕ, compare, Ordering}
use mathlib.Core.Path.{◌≡◌, refl}
use mathlib.Core.Logic.{◌↔◌}
use mathlib.Core.Bool.{Bool, true, false}
use mathlib.Core.List.{List, [], ◌∷◌}
use native.Mathlib.Omega.{arith}

abbrev pub is_lt : Ordering → Bool
is_lt Ordering.lt = true
is_lt _ = false

abbrev pub is_eq : Ordering → Bool
is_eq Ordering.eq = true
is_eq _ = false

pub record Ord (A : Type 0) : Type 0 where
  pub cmp : A → A → Ordering
  pub cmp_eq : (a b : A) → (cmp a b ≡ Ordering.eq) ↔ (a ≡ b)
  pub cmp_swap : (a b : A) → (cmp a b ≡ Ordering.lt) ↔ (cmp b a ≡ Ordering.gt)
  pub cmp_trans :
      (a b c : A) → cmp a b ≡ Ordering.lt → cmp b c ≡ Ordering.lt → cmp a c ≡ Ordering.lt

-- `==` of a type that is ordered.
abbrev pub same : {A : Type 0} ⦃o : Ord A⦄ → A → A → Bool
same ⦃o⦄ a b = is_eq (o.cmp a b)

pub same_iff : {A : Type 0} ⦃o : Ord A⦄ (a b : A) → (same a b ≡ true) ↔ (a ≡ b)
same_iff ⦃o⦄ a b = ground (arith, o.cmp_eq a b)

pub compare_eq : (a b : ℕ) → (compare a b ≡ Ordering.eq) ↔ (a ≡ b)
compare_eq a b = ground arith

pub compare_swap : (a b : ℕ) → (compare a b ≡ Ordering.lt) ↔ (compare b a ≡ Ordering.gt)
compare_swap a b = ground arith

pub compare_trans :
    (a b c : ℕ) → compare a b ≡ Ordering.lt → compare b c ≡ Ordering.lt → compare a c ≡ Ordering.lt
compare_trans a b c h k = ground arith

instance abbrev pub nat_ord : Ord ℕ
nat_ord = record {
  cmp = compare;
  cmp_eq = compare_eq;
  cmp_swap = compare_swap;
  cmp_trans = compare_trans;
}

-- Byte strings compare lexicographically.
unfoldable pub compare_bytes : List ℕ → List ℕ → Ordering
compare_bytes [] [] = Ordering.eq
compare_bytes [] (y ∷ ys) = Ordering.lt
compare_bytes (x ∷ xs) [] = Ordering.gt
compare_bytes (x ∷ xs) (y ∷ ys) = elim (compare x y) [
  | Ordering.lt ↦ Ordering.lt
  | Ordering.eq ↦ compare_bytes xs ys
  | Ordering.gt ↦ Ordering.gt
]

pub compare_bytes_eq : (a b : List ℕ) → (compare_bytes a b ≡ Ordering.eq) ↔ (a ≡ b)
unfolding compare_bytes
compare_bytes_eq [] [] = ground arith
compare_bytes_eq [] (y ∷ ys) = ground arith
compare_bytes_eq (x ∷ xs) [] = ground arith
compare_bytes_eq (x ∷ xs) (y ∷ ys) = ground (arith, compare_bytes_eq xs ys)

pub compare_bytes_swap :
    (a b : List ℕ) → (compare_bytes a b ≡ Ordering.lt) ↔ (compare_bytes b a ≡ Ordering.gt)
unfolding compare_bytes
compare_bytes_swap [] [] = ground arith
compare_bytes_swap [] (y ∷ ys) = ground arith
compare_bytes_swap (x ∷ xs) [] = ground arith
compare_bytes_swap (x ∷ xs) (y ∷ ys) = ground (arith, compare_bytes_swap xs ys)

pub compare_bytes_trans :
    (a b c : List ℕ)
    → compare_bytes a b ≡ Ordering.lt
    → compare_bytes b c ≡ Ordering.lt
    → compare_bytes a c ≡ Ordering.lt
unfolding compare_bytes
compare_bytes_trans [] [] c h k = cc
compare_bytes_trans (x ∷ xs) [] c h k = cc
compare_bytes_trans a (y ∷ ys) [] h k = cc
compare_bytes_trans [] (y ∷ ys) (z ∷ zs) h k = refl
compare_bytes_trans (x ∷ xs) (y ∷ ys) (z ∷ zs) h k = ground (arith, compare_bytes_trans xs ys zs)

instance abbrev pub bytes_ord : Ord (List ℕ)
bytes_ord = record {
  cmp = compare_bytes;
  cmp_eq = compare_bytes_eq;
  cmp_swap = compare_bytes_swap;
  cmp_trans = compare_bytes_trans;
}
