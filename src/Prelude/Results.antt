-- ===== src/Prelude/Results.antt =====
-- `Result` with the error as a parameter, and the ways in which the code chains it.
use mathlib.Core.Path.{◌≡◌, refl, sym, ap, ◌∙◌}
use mathlib.Core.Logic.{◌⊎◌, ◌↔◌, inl, inr}
use mathlib.Core.Bool.{Bool, true, false}
use mathlib.Core.Option.{Option, none, some}
use mathlib.Core.List.{List, [], ◌∷◌}
use kernmux.Prelude.Lists.{All, filter}
use kernmux.Prelude.Tests.{Bool-cases}

pub data Result {ℓ κ} (A : Type ℓ) (E : Type κ) : Type (ℓ ⊔ κ) where
  err : E → Result A E
  ok : A → Result A E

-- The operator `?`: what follows it runs on the value of a success.
module _ {ℓ κ μ} {A : Type ℓ} {B : Type κ} {E : Type μ} where
  infixl 5 ◌>>=◌
  abbrev pub ◌>>=◌ : Result A E → (A → Result B E) → Result B E
  err failure >>= rest = err failure
  ok value >>= rest = rest value

-- `if test { return Err(e) }`.
abbrev pub reject_if {μ} : {E : Type μ} → Bool → E → Result (Unit {0}) E
reject_if true e = err e
reject_if false e = ok tt

-- A check, and what follows it.
infixl 5 ◌>>◌
abbrev pub ◌>>◌ {ℓ μ} : {A : Type ℓ} {E : Type μ} → Result (Unit {0}) E → Result A E → Result A E
check >> rest = check >>= λ _. rest

-- `Result::map_err` and `Option::ok_or`.
abbrev pub map_err {ℓ κ μ} :
    {A : Type ℓ} {E : Type κ} {F : Type μ} → (E → F) → Result A E → Result A F
map_err f (ok a) = ok a
map_err f (err e) = err (f e)

abbrev pub ok_or {ℓ κ} : {A : Type ℓ} {E : Type κ} → Option A → E → Result A E
ok_or none e = err e
ok_or (some a) e = ok a

-- `Result::ok`.
abbrev pub to_option {ℓ κ} : {A : Type ℓ} {E : Type κ} → Result A E → Option A
to_option (ok a) = some a
to_option (err e) = none

pub Result-cases {ℓ κ} :
    {A : Type ℓ} {E : Type κ} (r : Result A E) → ((a : A) × (r ≡ ok a)) ⊎ ((e : E) × (r ≡ err e))
Result-cases (ok a) = inl (a, refl)
Result-cases (err e) = inr (e, refl)

-- If what follows a `?` has succeeded, so has what stands before it, with the value it ran on.
module _ {ℓ κ μ} {A : Type ℓ} {B : Type κ} {E : Type μ} where
  pub >>=-eq-ok :
      (first : Result A E) (rest : A → Result B E) {last : B}
      → (first >>= rest) ≡ ok last
      → (value : A) × (first ≡ ok value) × (rest value ≡ ok last)
  >>=-eq-ok (err failure) rest h = cc
  >>=-eq-ok (ok value) rest h = (value, refl, h)

pub map_err-eq-ok {ℓ κ μ} :
    {A : Type ℓ} {E : Type κ} {F : Type μ} (f : E → F) (r : Result A E) {a : A}
    → map_err f r ≡ ok a
    → r ≡ ok a
map_err-eq-ok f (ok x) h = cc
map_err-eq-ok f (err e) h = cc

pub ok_or-eq-ok {ℓ κ} :
    {A : Type ℓ} {E : Type κ} (o : Option A) (e : E) {a : A} → ok_or o e ≡ ok a → o ≡ some a
ok_or-eq-ok none e h = cc
ok_or-eq-ok (some x) e h = cc

pub reject_if-eq-ok {μ} :
    {E : Type μ} (b : Bool) (e : E) {u : Unit {0}} → reject_if b e ≡ ok u → b ≡ false
reject_if-eq-ok true e h = cc
reject_if-eq-ok false e h = refl

-- `for x in xs { check(x)?; }`.
abbrev pub try_each {ℓ μ} :
    {A : Type ℓ} {E : Type μ} → (A → Result (Unit {0}) E) → List A → Result (Unit {0}) E
try_each f [] = ok tt
try_each f (x ∷ xs) = f x >> try_each f xs

pub All-try_each {ℓ μ} :
    {A : Type ℓ} {E : Type μ} (f : A → Result (Unit {0}) E) (xs : List A)
    → (try_each f xs ≡ ok tt → (P : A → Type 0) → ((x : A) → f x ≡ ok tt → P x) → All P xs)
All-try_each f [] h P g = tt
All-try_each f (x ∷ xs) h P g = elim (Result-cases (f x)) [
  | inl (u, e) ↦ (g x e, All-try_each f xs (sym (ap (λ r. r >> try_each f xs) e) ∙ h) P g)
  | inr (u, e) ↦ absurd (cc)
]

pub try_each-ok {ℓ μ} :
    {A : Type ℓ} {E : Type μ} (f : A → Result (Unit {0}) E) (P : A → Type 0) (xs : List A)
    → ((x : A) → P x → f x ≡ ok tt)
    → All P xs
    → try_each f xs ≡ ok tt
try_each-ok f P [] g h = refl
try_each-ok f P (x ∷ xs) g h = ap (λ r. r >> try_each f xs) (g x h.0) ∙ try_each-ok f P xs g h.1

-- A loop over the elements that pass a test.
pub try_each-filter_iff {μ} :
    {A : Type 0} {E : Type μ} (f : A → Result (Unit {0}) E) (test : A → Bool) (P : A → Type 0)
    (xs : List A)
    → ((x : A) → (f x ≡ ok tt) ↔ P x)
    → (try_each f (filter test xs) ≡ ok tt) ↔ All (λ x. (test x ≡ false) ⊎ P x) xs
try_each-filter_iff f test P [] k = (λ _. tt, λ _. refl)
try_each-filter_iff f test P (x ∷ xs) k = elim (Bool-cases (test x)) [
  | inr skipped ↦ rw skipped (
    λ h. (inl refl, (try_each-filter_iff f test P xs k).0 h),
    λ h. (try_each-filter_iff f test P xs k).1 h.1,
  )
  | inl tested ↦ rw tested (
    λ h.
        let (u, here, later) = >>=-eq-ok (f x) _ h in
        (inr ((k x).0 here), (try_each-filter_iff f test P xs k).0 later),
    λ h.
        let here : P x = elim (h.0) [ inl e ↦ absurd (cc) | inr p ↦ p ] in
        ap (λ m. m >> try_each f (filter test xs)) ((k x).1 here)
        ∙ (try_each-filter_iff f test P xs k).1 h.1,
  )
]

pub try_each_iff {μ} :
    {A : Type 0} {E : Type μ} (f : A → Result (Unit {0}) E) (P : A → Type 0) (xs : List A)
    → ((x : A) → (f x ≡ ok tt) ↔ P x)
    → (try_each f xs ≡ ok tt) ↔ All P xs
try_each_iff f P xs k =
    (λ h. All-try_each f xs h P (λ x. (k x).0), λ h. try_each-ok f P xs (λ x. (k x).1) h)

pub some_injective {ℓ} : {A : Type ℓ} {x y : A} → some x ≡ some y → x ≡ y
some_injective h = cc

pub ok_injective {ℓ κ} :
    {A : Type ℓ} {E : Type κ} {x y : A} → ◌≡◌ {A = Result A E} (ok x) (ok y) → x ≡ y
ok_injective h = cc
