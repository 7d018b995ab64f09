-- ===== src/Prelude/TreeSet.antt =====
-- `BTreeSet`: the strictly increasing list of its elements.
use Prim.Native.Nat.{suc, ◌≤◌, Ordering}
use mathlib.Core.Path.{◌≡◌, refl, sym, ap, subst, ◌∙◌}
use mathlib.Core.Logic.{◌↔◌, inl, inr}
use mathlib.Core.Bool.{Bool, true, false, not, ◌&&◌, ◌||◌}
use mathlib.Core.List.{List, [], ◌∷◌, ◌++◌}
use native.Mathlib.Omega.{arith}
use kernmux.Prelude.Tests.{if◌then◌else◌, Bool-cases}
use kernmux.Prelude.Lists.{length, filter, all, any, All}
use kernmux.Prelude.Order.{Ord, same, same_iff}

module _ {A : Type 0} ⦃o : Ord A⦄ where
  -- `slice::contains` and `BTreeSet::contains`.
  unfoldable pub contains : List A → A → Bool
  contains [] a = false
  contains (x ∷ xs) a = same x a || contains xs a

  unfoldable pub insert : A → List A → List A
  insert a [] = a ∷ []
  insert a (x ∷ xs) = elim (o.cmp a x) [
    | Ordering.lt ↦ a ∷ x ∷ xs
    | Ordering.eq ↦ x ∷ xs
    | Ordering.gt ↦ x ∷ insert a xs
  ]

  -- `iter.collect::<BTreeSet<_>>()`.
  unfoldable pub collect : List A → List A
  unfolding insert
  collect [] = []
  collect (x ∷ xs) = insert x (collect xs)

  -- `a.difference(&b)`.
  unfoldable pub difference : List A → List A → List A
  unfolding contains
  difference xs ys = filter (λ x. not (contains ys x)) xs

  -- `==` of vectors and of sets.
  unfoldable pub same_list : List A → List A → Bool
  same_list [] [] = true
  same_list [] (y ∷ ys) = false
  same_list (x ∷ xs) [] = false
  same_list (x ∷ xs) (y ∷ ys) = same x y && same_list xs ys

  pub same_list_iff : (xs ys : List A) → (same_list xs ys ≡ true) ↔ (xs ≡ ys)
  unfolding same_list
  same_list_iff [] [] = ground arith
  same_list_iff [] (y ∷ ys) = ground arith
  same_list_iff (x ∷ xs) [] = ground arith
  same_list_iff (x ∷ xs) (y ∷ ys) = ground (arith, same_iff x y, same_list_iff xs ys)

  pub contains-insert :
      (a b : A) (xs : List A) → contains (insert a xs) b ≡ (same a b || contains xs b)
  unfolding contains insert
  contains-insert a b [] = refl
  contains-insert a b (x ∷ xs) =
      ground (arith, o.cmp_eq a x, o.cmp_eq a b, o.cmp_eq x b, contains-insert a b xs)

  pub contains-collect : (xs : List A) (b : A) → contains (collect xs) b ≡ contains xs b
  unfolding contains collect
  contains-collect [] b = refl
  contains-collect (x ∷ xs) b =
      contains-insert x b (collect xs) ∙ ap (◌||◌ (same x b)) (contains-collect xs b)

  -- Every element lies below all that follow it.
  abbrev pub IsIncreasing : List A → Type 0
  IsIncreasing [] = Unit
  IsIncreasing (x ∷ xs) = All (λ y. o.cmp x y ≡ Ordering.lt) xs × IsIncreasing xs

  Below : A → List A → Type 0
  Below a xs = All (λ y. o.cmp a y ≡ Ordering.lt) xs

  Below-trans : (a b : A) (xs : List A) → o.cmp a b ≡ Ordering.lt → Below b xs → Below a xs
  unfolding Below
  Below-trans a b [] h k = tt
  Below-trans a b (x ∷ xs) h k = (o.cmp_trans a b x h k.0, Below-trans a b xs h k.1)

  Below-insert :
      (a b : A) (xs : List A) → o.cmp b a ≡ Ordering.lt → Below b xs → Below b (insert a xs)
  unfolding Below insert
  Below-insert a b [] h k = (h, tt)
  Below-insert a b (x ∷ xs) h k = ground (arith, Below-insert a b xs h)

  pub insert-IsIncreasing : (a : A) (xs : List A) → IsIncreasing xs → IsIncreasing (insert a xs)
  unfolding insert Below
  insert-IsIncreasing a [] h = (tt, tt)
  insert-IsIncreasing a (x ∷ xs) h =
      ground (
        arith,
        o.cmp_swap x a,
        Below-trans a x xs,
        Below-insert a x xs,
        insert-IsIncreasing a xs h.1,
      )

  pub collect-IsIncreasing : (xs : List A) → IsIncreasing (collect xs)
  unfolding collect
  collect-IsIncreasing [] = tt
  collect-IsIncreasing (x ∷ xs) = insert-IsIncreasing x (collect xs) (collect-IsIncreasing xs)

  Below-absent : (a : A) (xs : List A) → Below a xs → contains xs a ≡ false
  unfolding Below contains
  Below-absent a [] h = refl
  Below-absent a (x ∷ xs) h = ground (arith, Below-absent a xs h.1, o.cmp_eq x a, o.cmp_eq a x)

  -- Lists with the same elements.
  abbrev pub SameElements : List A → List A → Type 0
  SameElements xs ys = (b : A) → contains xs b ≡ contains ys b

  contains-nil : (a : A) → contains [] a ≡ false
  unfolding contains
  contains-nil a = refl

  contains-head : (x : A) (xs : List A) → contains (x ∷ xs) x ≡ true
  unfolding contains
  contains-head x xs = ground (arith, o.cmp_eq x x)

  contains_above :
      (a b : A) (xs : List A) → Below a xs → contains xs b ≡ true → o.cmp a b ≡ Ordering.lt
  unfolding Below contains
  contains_above a b [] h k = cc
  contains_above a b (x ∷ xs) h k = ground (arith, o.cmp_eq x b, contains_above a b xs h.1)

  heads_eq :
      (x y : A) (xs ys : List A) → Below x xs → Below y ys → SameElements (x ∷ xs) (y ∷ ys) → x ≡ y
  unfolding contains
  heads_eq x y xs ys hx hy e = ground (
    arith,
    e x,
    e y,
    o.cmp_eq x x,
    o.cmp_eq y y,
    o.cmp_eq x y,
    o.cmp_eq y x,
    o.cmp_swap x y,
    o.cmp_swap y x,
    contains_above x y xs hx,
    contains_above y x ys hy,
  )

  tails_same :
      (x : A) (xs ys : List A)
      → Below x xs
      → Below x ys
      → SameElements (x ∷ xs) (x ∷ ys)
      → SameElements xs ys
  unfolding contains
  tails_same x xs ys hx hy e b =
      ground (arith, e b, o.cmp_eq x b, Below-absent x xs hx, Below-absent x ys hy)

  -- Two increasing lists with the same elements are one list.
  IsIncreasing-ext :
      (xs ys : List A) → IsIncreasing xs → IsIncreasing ys → SameElements xs ys → xs ≡ ys
  unfolding Below
  IsIncreasing-ext [] [] h k e = refl
  IsIncreasing-ext [] (y ∷ ys) h k e = cc (e y, contains-head y ys, contains-nil y)
  IsIncreasing-ext (x ∷ xs) [] h k e = cc (e x, contains-head x xs, contains-nil x)
  IsIncreasing-ext (x ∷ xs) (y ∷ ys) h k e =
      let p : x ≡ y = heads_eq x y xs ys h.0 k.0 e in
      let below : Below x ys = subst (λ a. Below a ys) (sym p) k.0 in
      let same_tail : SameElements (x ∷ xs) (x ∷ ys) =
        subst (λ a. SameElements (x ∷ xs) (a ∷ ys)) (sym p) e in
      cc (p, IsIncreasing-ext xs ys h.1 k.1 (tails_same x xs ys h.0 below same_tail))

  -- Sets are equal exactly when their elements are.
  pub collect_ext : (xs ys : List A) → (collect xs ≡ collect ys) ↔ SameElements xs ys
  collect_ext xs ys = (
    λ e b. sym (contains-collect xs b) ∙ ap (λ zs. contains zs b) e ∙ contains-collect ys b,
    λ e.
        IsIncreasing-ext _ _ (collect-IsIncreasing xs) (collect-IsIncreasing ys)
          (λ b. contains-collect xs b ∙ e b ∙ sym (contains-collect ys b)),
  )

  -- No element stands twice.
  unfoldable pub distinct : List A → Bool
  unfolding contains
  distinct [] = true
  distinct (x ∷ xs) = not (contains xs x) && distinct xs

  length-insert :
      (a : A) (xs : List A)
      → IsIncreasing xs
      → length (insert a xs) ≡ (if contains xs a then length xs else suc (length xs))
  unfolding insert contains Below
  length-insert a [] h = refl
  length-insert a (x ∷ xs) h = ground (
    arith,
    length-insert a xs h.1,
    o.cmp_eq a x,
    o.cmp_eq x a,
    o.cmp_swap a x,
    Below-absent a xs,
    Below-trans a x xs,
  )

  length-collect-step :
      (x : A) (xs : List A)
      → length (collect (x ∷ xs))
        ≡ (if contains xs x then length (collect xs) else suc (length (collect xs)))
  unfolding collect
  length-collect-step x xs =
      rw (← contains-collect xs x) (length-insert x (collect xs) (collect-IsIncreasing xs))

  pub length-collect-le : (xs : List A) → length (collect xs) ≤ length xs
  length-collect-le [] = unfold collect in omega arith
  length-collect-le (x ∷ xs) = ground (arith, length-collect-step x xs, length-collect-le xs)

  -- The test `set.len() != list.len()` finds a repeated element.
  pub length-collect_iff : (xs : List A) → (length (collect xs) ≡ length xs) ↔ (distinct xs ≡ true)
  unfolding distinct
  length-collect_iff [] = unfold collect in (λ _. refl, λ _. refl)
  length-collect_iff (x ∷ xs) =
      ground (arith, length-collect-step x xs, length-collect-le xs, length-collect_iff xs)

  pub contains-filter :
      (p : A → Bool) (xs : List A) (b : A) → contains (filter p xs) b ≡ (contains xs b && p b)
  unfolding contains
  contains-filter p [] b = refl
  contains-filter p (x ∷ xs) b = elim (Bool-cases (same x b)) [
    | inl t ↦ let e : x ≡ b = (same_iff x b).0 t in ground (arith, contains-filter p xs b, ap p e)
    | inr f ↦ ground (arith, contains-filter p xs b)
  ]

  pub contains-difference :
      (xs ys : List A) (b : A)
      → contains (difference xs ys) b ≡ (contains xs b && not (contains ys b))
  unfolding difference
  contains-difference xs ys b = contains-filter (λ x. not (contains ys x)) xs b

  -- Membership as a test agrees with the search for an equal element.
  pub contains-any : (xs : List A) (b : A) → contains xs b ≡ any (λ x. same x b) xs
  unfolding contains
  contains-any [] b = refl
  contains-any (x ∷ xs) b = ap (◌||◌ (same x b)) (contains-any xs b)

  -- `all` over a list is a statement about its elements.
  pub all-contains :
      (p : A → Bool) (xs : List A)
      → (all p xs ≡ true) ↔ ((b : A) → contains xs b ≡ true → p b ≡ true)
  unfolding contains
  all-contains p [] = (λ _ b h. cc, λ _. refl)
  all-contains p (x ∷ xs) = (
    λ h b k. elim (Bool-cases (same x b)) [
      | inl t ↦ let e : x ≡ b = (same_iff x b).0 t in ground (arith, ap p e)
      | inr f ↦ (all-contains p xs).0 (ground arith) b (ground arith)
    ],
    λ h.
        let here : p x ≡ true = h x (ground (arith, same_iff x x)) in
        let rest : all p xs ≡ true = (all-contains p xs).1 (λ b k. h b (ground arith)) in
        ground arith,
  )

  pub contains-append :
      (xs ys : List A) (b : A) → contains (xs ++ ys) b ≡ (contains xs b || contains ys b)
  unfolding contains
  contains-append [] ys b = refl
  contains-append (x ∷ xs) ys b = ground (arith, contains-append xs ys b)
