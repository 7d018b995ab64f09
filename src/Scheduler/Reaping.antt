-- ===== src/Scheduler/Reaping.antt =====
-- The loop that drops finished workers by `swap_remove`.
use kernmux.Prelude.{
  ℕ, zero, suc, ◌+◌, ◌≤◌, ◌<◌, ◌≡◌, inl, inr, refl, sym, subst, ◌∙◌, Bool, true, false, not, ◌&&◌,
  List, [], ◌∷◌, none, some, length, All, arith, Bool-cases, Option-cases,
}
use kernmux.Scheduler.{
  OperationScheduler, Worker, all_but_last, get_elem?, last_of, reap_finished, reap_from,
  swap_remove,
}

-- How many elements pass a test. Two lists that agree on every test are equal up to order.
abbrev one_if : Bool → ℕ
one_if true = 1
one_if false = 0

module _ {A : Type 0} where
  abbrev pub count : (A → Bool) → List A → ℕ
  count p [] = 0
  count p (x ∷ xs) = one_if (p x) + count p xs

  count_split :
      (p : A → Bool) (x : A) (xs : List A)
      → one_if (p (last_of x xs)) + count p (all_but_last x xs) ≡ count p (x ∷ xs)
  count_split p x [] = omega arith
  count_split p x (y ∷ ys) = omega (arith, count_split p y ys)

  count-swap_remove :
      (p : A → Bool) (xs : List A) (i : ℕ) (w : A)
      → get_elem? xs i ≡ some w
      → one_if (p w) + count p (swap_remove xs i) ≡ count p xs
  count-swap_remove p [] i w e = absurd (cc)
  count-swap_remove p (x ∷ []) zero w e = ground arith
  count-swap_remove p (x ∷ y ∷ ys) zero w e = ground (arith, count_split p y ys)
  count-swap_remove p (x ∷ []) (suc i) w e = absurd (cc)
  count-swap_remove p (x ∷ y ∷ ys) (suc i) w e = omega (arith, count-swap_remove p (y ∷ ys) i w e)

  length_split : (x : A) (xs : List A) → length (all_but_last x xs) ≡ length xs
  length_split x [] = refl
  length_split x (y ∷ ys) = omega (arith, length_split y ys)

  length-swap_remove :
      (xs : List A) (i : ℕ) (w : A)
      → get_elem? xs i ≡ some w
      → length (swap_remove xs i) + 1 ≡ length xs
  length-swap_remove [] i w e = absurd (cc)
  length-swap_remove (x ∷ []) zero w e = omega arith
  length-swap_remove (x ∷ y ∷ ys) zero w e = omega (arith, length_split y ys)
  length-swap_remove (x ∷ []) (suc i) w e = absurd (cc)
  length-swap_remove (x ∷ y ∷ ys) (suc i) w e = omega (arith, length-swap_remove (y ∷ ys) i w e)

  get_elem?-bound : (xs : List A) (i : ℕ) (w : A) → get_elem? xs i ≡ some w → i < length xs
  get_elem?-bound [] i w e = absurd (cc)
  get_elem?-bound (x ∷ xs) zero w e = omega arith
  get_elem?-bound (x ∷ xs) (suc i) w e = omega (arith, get_elem?-bound xs i w e)

  -- The first elements, as many as the number says.
  First : (A → Type 0) → List A → ℕ → Type 0
  First P [] i = Unit
  First P (x ∷ xs) zero = Unit
  First P (x ∷ xs) (suc i) = P x × First P xs i

  First-zero : (P : A → Type 0) (xs : List A) → First P xs zero
  unfolding First
  First-zero P [] = tt
  First-zero P (x ∷ xs) = tt

  First-swap_remove :
      (P : A → Type 0) (xs : List A) (i : ℕ) → First P xs i → First P (swap_remove xs i) i
  unfolding First
  First-swap_remove P [] i h = tt
  First-swap_remove P (x ∷ []) zero h = tt
  First-swap_remove P (x ∷ y ∷ ys) zero h = tt
  First-swap_remove P (x ∷ []) (suc i) h = h
  First-swap_remove P (x ∷ y ∷ ys) (suc i) h = (h.0, First-swap_remove P (y ∷ ys) i h.1)

  First-extend :
      (P : A → Type 0) (xs : List A) (i : ℕ) (w : A)
      → First P xs i
      → get_elem? xs i ≡ some w
      → P w
      → First P xs (suc i)
  unfolding First
  First-extend P [] i w h e k = tt
  First-extend P (x ∷ xs) zero w h e k = let is : w ≡ x = cc in (subst P is k, First-zero P xs)
  First-extend P (x ∷ xs) (suc i) w h e k = (h.0, First-extend P xs i w h.1 e k)

  First-All :
      (P : A → Type 0) (xs : List A) (i : ℕ) → First P xs i → get_elem? xs i ≡ none → All P xs
  unfolding First
  First-All P [] i h e = tt
  First-All P (x ∷ xs) zero h e = absurd (cc)
  First-All P (x ∷ xs) (suc i) h e = (h.0, First-All P xs i h.1 e)

  get_elem?-none : (xs : List A) (i : ℕ) → length xs ≤ i → get_elem? xs i ≡ none
  get_elem?-none [] i h = refl
  get_elem?-none (x ∷ xs) zero h = absurd (omega arith)
  get_elem?-none (x ∷ xs) (suc i) h = get_elem?-none xs i (omega arith)

abbrev pub IsUnfinished : Worker → Type 0
IsUnfinished w = w.is_finished ≡ false

-- The unfinished workers that pass a test.
abbrev pub unfinished_and : (Worker → Bool) → Worker → Bool
unfinished_and p w = p w && not w.is_finished

-- A reaped list: no finished worker, and the unfinished ones of the other, each as often.
pub record IsReaped (before after : List Worker) : Type 0 where
  pub unfinished : All IsUnfinished after
  pub kept : (p : Worker → Bool) → count (unfinished_and p) after ≡ count (unfinished_and p) before

count-removed :
    (p : Worker → Bool) (xs : List Worker) (i : ℕ) (w : Worker)
    → get_elem? xs i ≡ some w
    → w.is_finished ≡ true
    → count (unfinished_and p) (swap_remove xs i) ≡ count (unfinished_and p) xs
count-removed p xs i w e h =
    let none_counted : unfinished_and p w ≡ false = ground arith in
    let counted = count-swap_remove (unfinished_and p) xs i w e in
    ground (arith, none_counted, counted)

reap_from_end :
    (fuel i : ℕ) (xs : List Worker) → get_elem? xs i ≡ none → reap_from (suc fuel) i xs ≡ xs
unfolding reap_from
reap_from_end fuel i xs e = rw (e, reap_from) refl

reap_from_drop :
    (fuel i : ℕ) (xs : List Worker) (w : Worker)
    → get_elem? xs i ≡ some w
    → w.is_finished ≡ true
    → reap_from (suc fuel) i xs ≡ reap_from fuel i (swap_remove xs i)
unfolding reap_from
reap_from_drop fuel i xs w e done = cc (e, done)

reap_from_pass :
    (fuel i : ℕ) (xs : List Worker) (w : Worker)
    → get_elem? xs i ≡ some w
    → w.is_finished ≡ false
    → reap_from (suc fuel) i xs ≡ reap_from fuel (suc i) xs
unfolding reap_from
reap_from_pass fuel i xs w e going = ground (arith, e, going)

IsReaped-refl : (xs : List Worker) → All IsUnfinished xs → IsReaped xs xs
IsReaped-refl xs h = record { unfinished = h; kept = λ p. refl }

IsReaped-drop :
    (xs ys : List Worker) (i : ℕ) (w : Worker)
    → get_elem? xs i ≡ some w
    → w.is_finished ≡ true
    → IsReaped (swap_remove xs i) ys
    → IsReaped xs ys
IsReaped-drop xs ys i w e done rest = record {
  unfinished = rest.unfinished;
  kept = λ p. rest.kept p ∙ count-removed p xs i w e done;
}

reap_from-IsReaped :
    (fuel i : ℕ) (xs : List Worker)
    → length xs ≤ fuel + i
    → First IsUnfinished xs i
    → IsReaped xs (reap_from fuel i xs)
reap_from-IsReaped zero i xs bound h =
    unfold reap_from in
    IsReaped-refl xs (First-All IsUnfinished xs i h (get_elem?-none xs i (omega arith)))
reap_from-IsReaped (suc fuel) i xs bound h = elim (Option-cases (get_elem? xs i)) [
  | inl e ↦
      subst (IsReaped xs) (sym (reap_from_end fuel i xs e))
        (IsReaped-refl xs (First-All IsUnfinished xs i h e))
  | inr (w, e) ↦ elim (Bool-cases w.is_finished) [
    | inl done ↦ subst (IsReaped xs) (sym (reap_from_drop fuel i xs w e done)) (
        IsReaped-drop xs _ i w e done (
          reap_from-IsReaped fuel i (swap_remove xs i) (omega (arith, length-swap_remove xs i w e))
            (First-swap_remove IsUnfinished xs i h)))
    | inr going ↦ subst (IsReaped xs) (sym (reap_from_pass fuel i xs w e going)) (
        reap_from-IsReaped fuel (suc i) xs (omega arith)
          (First-extend IsUnfinished xs i w h e going))
  ]
]

-- Reaping drops every finished worker and keeps every other, although it moves the last worker into
-- each gap; the registry is untouched. The loop ends within as many turns as there are workers.
pub reap_finished-IsReaped :
    (s : OperationScheduler)
    → IsReaped s.workers (reap_finished s).workers × ((reap_finished s).registry ≡ s.registry)
unfolding reap_finished
reap_finished-IsReaped s = (
  reap_from-IsReaped (length s.workers) 0 s.workers (omega arith)
      (First-zero IsUnfinished s.workers),
  refl,
)
