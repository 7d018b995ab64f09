-- ===== src/Lifecycle/Memory/Separation.antt =====
-- No accepted change of an instance's memory makes it overlap another instance.
use kernmux.Prelude.{
  ℕ, ◌+◌, ◌≤◌, ◌≡◌, ◌≢◌, ◌⊎◌, inl, inr, sym, ap, subst, subst₂, ◌∙◌, true, false, List, [], ◌∷◌,
  map, All, All-map_lem, Any, arith, ◌==◌, some, if◌then◌else◌, ok, Bool-cases, ==_iff,
}
use kernmux.Api.{HostSnapshot, Instance}
use kernmux.Lifecycle.Memory.{validate_update_memory}
use kernmux.Lifecycle.Memory.Ranges.{ClearOf, IsClear, MayGrow, validate_update_memory_iff}

-- Two instances whose memory, where its base is known, does not overlap.
abbrev pub IsApart : Instance → Instance → Type 0
IsApart x y =
    (p q : ℕ)
    → x.resources.memory_base ≡ some p
    → y.resources.memory_base ≡ some q
    → (p + x.resources.memory_bytes ≤ q) ⊎ (q + y.resources.memory_bytes ≤ p)

abbrev pub ArePairwise : (Instance → Instance → Type 0) → List Instance → Type 0
ArePairwise R [] = Unit
ArePairwise R (x ∷ xs) = All (R x) xs × ArePairwise R xs

abbrev pub HaveOtherIds : Instance → Instance → Type 0
HaveOtherIds x y = x.id ≢ y.id

-- The instance with the id, at its new size; any other as it is.
abbrev pub resize : ℕ → ℕ → Instance → Instance
resize id bytes x =
    if x.id == id then record x { resources = record x.resources { memory_bytes = bytes } } else x

module _ (s : HostSnapshot) (i : Instance) (requested : ℕ) where
  -- The instance itself, or another, of which the new size keeps clear if it is larger.
  abbrev HasRole : Instance → Type 0
  HasRole x =
      ((x.id == i.id) ≡ true) × (x ≡ i)
      ⊎ ((x.id == i.id) ≡ false)
        × ((requested ≤ i.resources.memory_bytes)
            ⊎ ((b : ℕ) × (i.resources.memory_base ≡ some b) × IsClear b (b + requested) x))

  the_instance :
      (xs : List Instance)
      → Any (λ y. y ≡ i) xs
      → ArePairwise HaveOtherIds xs
      → All (λ x. x.id ≡ i.id → x ≡ i) xs
  the_instance [] a u = tt
  the_instance (x ∷ xs) (inl here) u = (
    λ _. here,
    All-map_lem _ _ xs (λ y ne e. absurd (ne (ap (λ (z : Instance). z.id) here ∙ sym e))) u.0,
  )
  the_instance (x ∷ xs) (inr later) u =
      (λ e. absurd (clash xs later u.0 e), the_instance xs later u.1)
    where
      clash : (ys : List Instance) → Any (λ y. y ≡ i) ys → All (HaveOtherIds x) ys → x.id ≡ i.id → ⊥
      clash [] a h e = a
      clash (y ∷ ys) (inl here) h e = h.0 (e ∙ sym (ap (λ (z : Instance). z.id) here))
      clash (y ∷ ys) (inr later) h e = clash ys later h.1 e

  role_of :
      (x : Instance)
      → (x.id ≡ i.id → x ≡ i)
      → (requested ≤ i.resources.memory_bytes) ⊎ MayGrow s i requested
      → ((m : MayGrow s i requested) → (x.id ≡ i.id) ⊎ IsClear m.base (m.base + requested) x)
      → HasRole x
  role_of x one g clear = elim (Bool-cases (x.id == i.id)) [
    | inl own ↦ inl (own, one ((==_iff x.id i.id).0 own))
    | inr other ↦ inr (
      other,
      elim g [
        | inl small ↦ inl small
        | inr m ↦
            inr (m.base, m.based, elim (clear m) [ inl e ↦ absurd (ground arith) | inr c ↦ c ])
      ],
    )
  ]

  -- One side is the instance itself, resized; the other is not.
  resized-IsApart :
      (y : Instance)
      → IsApart i y
      → (requested ≤ i.resources.memory_bytes)
        ⊎ ((b : ℕ) × (i.resources.memory_base ≡ some b) × IsClear b (b + requested) y)
      → (p q : ℕ) → i.resources.memory_base ≡ some p
      → y.resources.memory_base ≡ some q
      → (p + requested ≤ q) ⊎ (q + y.resources.memory_bytes ≤ p)
  resized-IsApart y a (inl small) p q e f = ground (arith, a p q e f)
  resized-IsApart y a (inr (b, based, clear)) p q e f =
      let clear' : ClearOf b (b + requested) (some q) y.resources.memory_bytes =
        subst (λ o. ClearOf b (b + requested) o y.resources.memory_bytes) f clear in
      let same_base : p ≡ b = ground arith in
      elim (clear'.1) [ inl below ↦ inr (omega arith) | inr above ↦ inl (omega arith) ]

  IsApart-sym : (x y : Instance) → IsApart x y → IsApart y x
  IsApart-sym x y a p q e f = elim (a q p f e) [ inl h ↦ inr h | inr h ↦ inl h ]

  abbrev grown : Instance
  grown = record i { resources = record i.resources { memory_bytes = requested } }

  own_resized : (x : Instance) → (x.id == i.id) ≡ true → x ≡ i → resize i.id requested x ≡ grown
  own_resized x h e = rw h (
      ap
        (λ (z : Instance). record z { resources = record z.resources { memory_bytes = requested } })
        e)

  other_resized : (x : Instance) → (x.id == i.id) ≡ false → resize i.id requested x ≡ x
  other_resized x h = rw h

  resize-IsApart :
      (x y : Instance)
      → IsApart x y
      → HaveOtherIds x y
      → HasRole x
      → HasRole y
      → IsApart (resize i.id requested x) (resize i.id requested y)
  resize-IsApart x y a ne (inl (hx, ex)) (inl (hy, ey)) = absurd (ne (cc))
  resize-IsApart x y a ne (inl (hx, ex)) (inr (hy, g)) =
      subst₂ IsApart (sym (own_resized x hx ex)) (sym (other_resized y hy))
        (resized-IsApart y (subst (λ z. IsApart z y) ex a) g)
  resize-IsApart x y a ne (inr (hx, g)) (inl (hy, ey)) =
      subst₂ IsApart (sym (other_resized x hx)) (sym (own_resized y hy ey))
        (IsApart-sym grown x (resized-IsApart x (IsApart-sym x i (subst (IsApart x) ey a)) g))
  resize-IsApart x y a ne (inr (hx, g)) (inr (hy, k)) =
      subst₂ IsApart (sym (other_resized x hx)) (sym (other_resized y hy)) a

  resize-heads :
      (x : Instance) (ys : List Instance)
      → All (IsApart x) ys
      → All (HaveOtherIds x) ys
      → HasRole x
      → All HasRole ys
      → All (IsApart (resize i.id requested x)) (map (resize i.id requested) ys)
  resize-heads x [] a u r k = tt
  resize-heads x (y ∷ ys) a u r k =
      (resize-IsApart x y a.0 u.0 r k.0, resize-heads x ys a.1 u.1 r k.1)

  resize-ArePairwise :
      (xs : List Instance)
      → ArePairwise IsApart xs
      → ArePairwise HaveOtherIds xs
      → All HasRole xs
      → ArePairwise IsApart (map (resize i.id requested) xs)
  resize-ArePairwise [] a u r = tt
  resize-ArePairwise (x ∷ xs) a u r =
      (resize-heads x xs a.0 u.0 r.0 r.1, resize-ArePairwise xs a.1 u.1 r.1)

  roles :
      (xs : List Instance)
      → All (λ x. x.id ≡ i.id → x ≡ i) xs
      → (requested ≤ i.resources.memory_bytes) ⊎ MayGrow s i requested
      → ((m : MayGrow s i requested)
          → All (λ x. (x.id ≡ i.id) ⊎ IsClear m.base (m.base + requested) x) xs)
      → All HasRole xs
  roles [] one g clear = tt
  roles (x ∷ xs) one g clear =
      (role_of x one.0 g (λ m. (clear m).0), roles xs one.1 g (λ m. (clear m).1))

-- If the instances of a snapshot have different ids and no two of them overlap in memory, then after
-- an accepted change of one instance's memory, a growth or a shrinking, still no two overlap.
pub accepted_size_separates :
    (s : HostSnapshot) (i : Instance) (requested : ℕ)
    → Any (λ y. y ≡ i) s.instances
    → ArePairwise HaveOtherIds s.instances
    → ArePairwise IsApart s.instances
    → validate_update_memory s i requested ≡ ok tt
    → ArePairwise IsApart (map (resize i.id requested) s.instances)
accepted_size_separates s i requested here ids apart accepted =
    resize-ArePairwise s i requested s.instances apart ids (
      roles s i requested s.instances (the_instance s i requested s.instances here ids)
        ((validate_update_memory_iff s i requested).0 accepted) (λ m. m.clear))
