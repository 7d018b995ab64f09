-- ===== src/Prelude/Lists.antt =====
-- Lists measured by native numbers, Boolean searches, and predicates over lists.
use Prim.Native.Nat.{ℕ, suc, ◌+◌}
use mathlib.Core.Path.{◌≡◌, refl}
use mathlib.Core.Logic.{◌↔◌, ◌⊎◌, inl, inr}
use mathlib.Core.Bool.{Bool, true, false, not, ◌&&◌, ◌||◌}
use mathlib.Core.List.{List, [], ◌∷◌, ◌++◌}
use mathlib.Core.Option.{Option, none, some}
use native.Mathlib.Omega.{arith}
use kernmux.Prelude.Tests.{if◌then◌else◌, Bool-cases}

module _ {ℓ} {A : Type ℓ} where
  abbrev pub length : List A → ℕ
  length [] = 0
  length (x ∷ xs) = suc (length xs)

  pub length-append : (xs ys : List A) → length (xs ++ ys) ≡ length xs + length ys
  length-append [] ys = omega arith
  length-append (x ∷ xs) ys = omega (arith, length-append xs ys)

  -- `Iterator::all`, `any`, `find` and `filter`.
  abbrev pub all : (A → Bool) → List A → Bool
  all p [] = true
  all p (x ∷ xs) = p x && all p xs

  abbrev pub any : (A → Bool) → List A → Bool
  any p [] = false
  any p (x ∷ xs) = p x || any p xs

  abbrev pub find : (A → Bool) → List A → Option A
  find p [] = none
  find p (x ∷ xs) = if p x then some x else find p xs

  abbrev pub filter : (A → Bool) → List A → List A
  filter p [] = []
  filter p (x ∷ xs) = if p x then x ∷ filter p xs else filter p xs

-- A predicate of every element, and of some element.
module _ {ℓ} {A : Type ℓ} where
  abbrev pub All : (A → Type 0) → List A → Type 0
  All P [] = Unit
  All P (x ∷ xs) = P x × All P xs

  abbrev pub Any : (A → Type 0) → List A → Type 0
  Any P [] = ⊥
  Any P (x ∷ xs) = P x ⊎ Any P xs

  pub all_iff : (p : A → Bool) (xs : List A) → (all p xs ≡ true) ↔ All (λ x. p x ≡ true) xs
  all_iff p [] = (λ _. tt, λ _. refl)
  all_iff p (x ∷ xs) = ground (arith, all_iff p xs)

  pub any_iff : (p : A → Bool) (xs : List A) → (any p xs ≡ true) ↔ Any (λ x. p x ≡ true) xs
  any_iff p [] = (λ h. cc, λ h. absurd h)
  any_iff p (x ∷ xs) = ground (arith, any_iff p xs)

  pub All-map_lem : (P Q : A → Type 0) (xs : List A) → ((x : A) → P x → Q x) → All P xs → All Q xs
  All-map_lem P Q [] f h = tt
  All-map_lem P Q (x ∷ xs) f h = (f x h.0, All-map_lem P Q xs f h.1)

  pub Any-map_lem : (P Q : A → Type 0) (xs : List A) → ((x : A) → P x → Q x) → Any P xs → Any Q xs
  Any-map_lem P Q [] f h = h
  Any-map_lem P Q (x ∷ xs) f (inl h) = inl (f x h)
  Any-map_lem P Q (x ∷ xs) f (inr h) = inr (Any-map_lem P Q xs f h)

  -- What every element has, the element that is found has.
  pub All-Any :
      {P Q R : A → Type 0} (xs : List A)
      → ((x : A) → P x → Q x → R x)
      → All P xs
      → Any Q xs
      → Any R xs
  All-Any [] f h k = k
  All-Any (x ∷ xs) f h (inl k) = inl (f x h.0 k)
  All-Any (x ∷ xs) f h (inr k) = inr (All-Any xs f h.1 k)

  pub All-append : (P : A → Type 0) (xs ys : List A) → All P xs → All P ys → All P (xs ++ ys)
  All-append P [] ys h k = k
  All-append P (x ∷ xs) ys h k = (h.0, All-append P xs ys h.1 k)

module _ {A : Type 0} where
  pub find-some : (p : A → Bool) (xs : List A) (x : A) → find p xs ≡ some x → p x ≡ true
  find-some p [] x e = cc
  find-some p (y ∷ ys) x e = ground (arith, find-some p ys x)

  pub find-Any : (p : A → Bool) (xs : List A) (x : A) → find p xs ≡ some x → Any (λ y. y ≡ x) xs
  find-Any p [] x e = cc
  find-Any p (y ∷ ys) x e = elim (Bool-cases (p y)) [
    | inl t ↦ inl (ground arith)
    | inr f ↦ inr (find-Any p ys x (ground arith))
  ]

  pub find-none :
      (p : A → Bool) (xs : List A) → (find p xs ≡ none) ↔ (all (λ x. not (p x)) xs ≡ true)
  find-none p [] = (λ _. refl, λ _. refl)
  find-none p (x ∷ xs) = ground (arith, find-none p xs)
