-- ===== src/Prelude/Equality.antt =====
-- Derived `PartialEq`: a Boolean test that holds exactly of equal values.
use Prim.Native.Nat.{ℕ}
use mathlib.Core.Path.{◌≡◌, sym, ap, ◌∙◌}
use mathlib.Core.Logic.{◌↔◌}
use mathlib.Core.Bool.{Bool, true, false, ◌&&◌}
use mathlib.Core.Option.{Option, none, some}
use mathlib.Core.List.{List, [], ◌∷◌}
use native.Mathlib.Omega.{arith}
use kernmux.Prelude.Tests.{◌==◌, ==_iff}

pub record Eq (A : Type 0) : Type 0 where
  pub eq : A → A → Bool
  pub eq_iff : (a b : A) → (eq a b ≡ true) ↔ (a ≡ b)

-- `==` of a type that has it.
abbrev pub equals : {A : Type 0} ⦃e : Eq A⦄ → A → A → Bool
equals ⦃e⦄ = e.eq

pub equals_iff : {A : Type 0} ⦃e : Eq A⦄ (a b : A) → (equals a b ≡ true) ↔ (a ≡ b)
equals_iff ⦃e⦄ = e.eq_iff

instance abbrev pub nat_eq : Eq ℕ
nat_eq = record { eq = ◌==◌; eq_iff = ==_iff }

abbrev same_bool : Bool → Bool → Bool
same_bool true b = b
same_bool false true = false
same_bool false false = true

pub same_bool_iff : (a b : Bool) → (same_bool a b ≡ true) ↔ (a ≡ b)
same_bool_iff true true = ground arith
same_bool_iff true false = ground arith
same_bool_iff false true = ground arith
same_bool_iff false false = ground arith

instance abbrev pub bool_eq : Eq Bool
bool_eq = record { eq = same_bool; eq_iff = same_bool_iff }

module _ {A : Type 0} ⦃e : Eq A⦄ where
  abbrev same_list : List A → List A → Bool
  same_list [] [] = true
  same_list [] (y ∷ ys) = false
  same_list (x ∷ xs) [] = false
  same_list (x ∷ xs) (y ∷ ys) = e.eq x y && same_list xs ys

  pub same_list_iff : (xs ys : List A) → (same_list xs ys ≡ true) ↔ (xs ≡ ys)
  same_list_iff [] [] = ground arith
  same_list_iff [] (y ∷ ys) = ground arith
  same_list_iff (x ∷ xs) [] = ground arith
  same_list_iff (x ∷ xs) (y ∷ ys) = ground (arith, e.eq_iff x y, same_list_iff xs ys)

  instance abbrev pub list_eq : Eq (List A)
  list_eq = record { eq = same_list; eq_iff = same_list_iff }

  abbrev same_option : Option A → Option A → Bool
  same_option none none = true
  same_option none (some y) = false
  same_option (some x) none = false
  same_option (some x) (some y) = e.eq x y

  pub same_option_iff : (x y : Option A) → (same_option x y ≡ true) ↔ (x ≡ y)
  same_option_iff none none = ground arith
  same_option_iff none (some y) = ground arith
  same_option_iff (some x) none = ground arith
  same_option_iff (some x) (some y) = ground (arith, e.eq_iff x y)

  instance abbrev pub option_eq : Eq (Option A)
  option_eq = record { eq = same_option; eq_iff = same_option_iff }

module _ {A B : Type 0} ⦃e : Eq A⦄ ⦃f : Eq B⦄ where
  abbrev same_pair : A × B → A × B → Bool
  same_pair (a, b) (c, d) = e.eq a c && f.eq b d

  pub same_pair_iff : (p q : A × B) → (same_pair p q ≡ true) ↔ (p ≡ q)
  same_pair_iff (a, b) (c, d) = ground (arith, e.eq_iff a c, f.eq_iff b d)

  instance abbrev pub pair_eq : Eq (A × B)
  pair_eq = record { eq = same_pair; eq_iff = same_pair_iff }

-- A type whose values are given by those of another, as a record is by its fields.
module _ {A B : Type 0} where
  pub via_iff :
      (to : A → B) (from : B → A)
      → ((a : A) → from (to a) ≡ a)
      → ⦃e : Eq B⦄ (x y : A) → (e.eq (to x) (to y) ≡ true) ↔ (x ≡ y)
  via_iff to from back ⦃e⦄ x y = (
    λ h. sym (back x) ∙ ap from ((e.eq_iff (to x) (to y)).0 h) ∙ back y,
    λ h. (e.eq_iff (to x) (to y)).1 (ap to h),
  )

  abbrev pub via : (to : A → B) (from : B → A) → ((a : A) → from (to a) ≡ a) → ⦃e : Eq B⦄ → Eq A
  via to from back ⦃e⦄ = record { eq = λ x y. e.eq (to x) (to y); eq_iff = via_iff to from back }
