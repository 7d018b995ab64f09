-- ===== src/Placement/Laws.antt =====
-- Exactly which CPU requests placement.rs accepts.
use kernmux.Prelude.{
  ℕ, suc, ◌≡◌, ◌↔◌, ◌⊎◌, inl, inr, refl, sym, ap, subst, ◌∙◌, Bool, true, false, not, List, [], ◌∷◌,
  ◌++◌, find, filter, length, All, Any, arith, if◌then◌else◌, ◌==◌, Bool-cases, Option-cases, ok,
  err, All-try_each, try_each-ok, find-some, find-none, find-Any, all_iff, All-map_lem, not-true,
}
use kernmux.Prelude.Order.{nat_ord}
use kernmux.Prelude.TreeSet.{contains, collect, contains-collect, contains-append}
use kernmux.Api.{Cpu, HostSnapshot}
use kernmux.Placement.{
  CpuPlacementError, refuse_found, check_match, check_new_cpu, validate_instance_cpus,
  validate_pool_cpus,
}

-- How many CPUs report the hardware id.
abbrev pub occurrences : ℕ → List Cpu → ℕ
occurrences id [] = 0
occurrences id (c ∷ cs) = if c.hardware_id == id then suc (occurrences id cs) else occurrences id cs

-- One CPU reports the id, and it is online.
abbrev pub IsPlaceable : List Cpu → ℕ → Type 0
IsPlaceable cpus id =
    (occurrences id cpus ≡ 1) × Any (λ c. (c.hardware_id ≡ id) × (c.online ≡ true)) cpus

abbrev matching : ℕ → List Cpu → List Cpu
matching id cpus = filter (λ c. c.hardware_id == id) cpus

length-matching : (id : ℕ) (cpus : List Cpu) → length (matching id cpus) ≡ occurrences id cpus
length-matching id [] = refl
length-matching id (c ∷ cs) = ground (arith, length-matching id cs)

check_match-head :
    (id : ℕ) (c : Cpu) (cs : List Cpu)
    → check_match id (c ∷ cs) ≡ ok tt
    → (cs ≡ []) × (c.online ≡ true)
unfolding check_match
check_match-head id c [] h = ground arith
check_match-head id c (d ∷ ds) h = absurd (cc)

IsPlaceable-sound :
    (id : ℕ) (cpus : List Cpu) → check_match id (matching id cpus) ≡ ok tt → IsPlaceable cpus id
IsPlaceable-sound id [] h = absurd (unfold check_match in (cc))
IsPlaceable-sound id (c ∷ cs) h = elim (Bool-cases (c.hardware_id == id)) [
  | inl hit ↦
      let (alone, online) = check_match-head id c (matching id cs) (
        subst (λ b. check_match id (if b then c ∷ matching id cs else matching id cs) ≡ ok tt) hit
          h) in
      let none_else : occurrences id cs ≡ 0 =
        sym (length-matching id cs) ∙ ap (λ (l : List Cpu). length l) alone in
      (ground arith, inl (ground arith))
  | inr miss ↦
      let (one, online) = IsPlaceable-sound id cs (
        subst (λ b. check_match id (if b then c ∷ matching id cs else matching id cs) ≡ ok tt) miss
          h) in
      (ground arith, inr online)
]

matching_none : (id : ℕ) (cpus : List Cpu) → occurrences id cpus ≡ 0 → matching id cpus ≡ []
matching_none id [] h = refl
matching_none id (c ∷ cs) h = ground (arith, matching_none id cs)

not-Any :
    (id : ℕ) (cpus : List Cpu)
    → occurrences id cpus ≡ 0
    → ¬ Any (λ c. (c.hardware_id ≡ id) × (c.online ≡ true)) cpus
not-Any id [] h a = a
not-Any id (c ∷ cs) h (inl a) = ground arith
not-Any id (c ∷ cs) h (inr a) = not-Any id cs (ground arith) a

placeable_complete :
    (id : ℕ) (cpus : List Cpu) → IsPlaceable cpus id → check_match id (matching id cpus) ≡ ok tt
placeable_complete id [] h = absurd h.1
placeable_complete id (c ∷ cs) (one, inl (is_id, online)) =
    let hit : (c.hardware_id == id) ≡ true = ground arith in
    let alone : matching id cs ≡ [] = matching_none id cs (ground arith) in
    rw hit (rw alone (unfold check_match in (rw online)))
placeable_complete id (c ∷ cs) (one, inr later) = elim (Bool-cases (c.hardware_id == id)) [
  | inl hit ↦ absurd (not-Any id cs (ground arith) later)
  | inr miss ↦ rw miss (placeable_complete id cs (ground arith, later))
]

pub check_new_cpu_iff :
    (cpus : List Cpu) (id : ℕ) → (check_new_cpu cpus id ≡ ok tt) ↔ IsPlaceable cpus id
unfolding check_new_cpu
check_new_cpu_iff cpus id = (IsPlaceable-sound id cpus, placeable_complete id cpus)

All-filter :
    (p : ℕ → Bool) (P : ℕ → Type 0) (xs : List ℕ)
    → All P (filter p xs) ↔ All (λ x. (p x ≡ false) ⊎ P x) xs
All-filter p P [] = (λ _. tt, λ _. tt)
All-filter p P (x ∷ xs) = elim (Bool-cases (p x)) [
  | inl t ↦ rw t (
    λ h. (inr h.0, (All-filter p P xs).0 h.1),
    λ h. (elim (h.0) [ inl e ↦ absurd (cc) | inr q ↦ q ], (All-filter p P xs).1 h.1),
  )
  | inr f ↦ rw f (λ h. (inl refl, (All-filter p P xs).0 h), λ h. (All-filter p P xs).1 h.1)
]

not-contains-collect :
    (xs : List ℕ) (id : ℕ) → (not (contains (collect xs) id) ≡ false) ↔ (contains xs id ≡ true)
not-contains-collect xs id = ground (arith, contains-collect xs id)

-- A pool request is accepted exactly if each CPU is in the pool already, or is one that a single,
-- online host CPU reports.
pub validate_pool_cpus_iff :
    (s : HostSnapshot) (requested : List ℕ)
    → (validate_pool_cpus s requested ≡ ok tt)
      ↔ All
          (λ id.
            (contains s.resource_pool.cpu_hardware_ids id ≡ true) ⊎ IsPlaceable s.topology.cpus id)
          requested
unfolding validate_pool_cpus
validate_pool_cpus_iff s requested = (
  λ h.
      All-map_lem _ _ requested (λ id. sound id)
        ((All-filter _ (IsPlaceable s.topology.cpus) requested).0 (
          All-try_each (check_new_cpu s.topology.cpus) _ h (IsPlaceable s.topology.cpus)
            (λ id. (check_new_cpu_iff s.topology.cpus id).0))),
  λ h.
      try_each-ok (check_new_cpu s.topology.cpus) (IsPlaceable s.topology.cpus) _
        (λ id. (check_new_cpu_iff s.topology.cpus id).1)
        ((All-filter _ (IsPlaceable s.topology.cpus) requested).1
          (All-map_lem _ _ requested (λ id. complete id) h)),
)
  where
    open s use {resource_pool, topology}

    sound :
        (id : ℕ)
        → (not (contains (collect resource_pool.cpu_hardware_ids) id) ≡ false)
          ⊎ IsPlaceable topology.cpus id
        → (contains resource_pool.cpu_hardware_ids id ≡ true) ⊎ IsPlaceable topology.cpus id
    sound id (inl e) = inl ((not-contains-collect resource_pool.cpu_hardware_ids id).0 e)
    sound id (inr p) = inr p

    complete :
        (id : ℕ)
        → (contains resource_pool.cpu_hardware_ids id ≡ true) ⊎ IsPlaceable topology.cpus id
        → (not (contains (collect resource_pool.cpu_hardware_ids) id) ≡ false)
          ⊎ IsPlaceable topology.cpus id
    complete id (inl e) = inl ((not-contains-collect resource_pool.cpu_hardware_ids id).1 e)
    complete id (inr p) = inr p

-- The CPUs that an instance may be given: the pool's free ones and its own.
abbrev pub IsGrantable : HostSnapshot → List ℕ → ℕ → Type 0
IsGrantable s retained id =
    (contains s.resource_pool.available_cpu_hardware_ids id ≡ true) ⊎ (contains retained id ≡ true)

IsGrantable-iff :
    (s : HostSnapshot) (retained : List ℕ) (id : ℕ)
    → (not (contains (collect (s.resource_pool.available_cpu_hardware_ids ++ retained)) id) ≡ false)
      ↔ IsGrantable s retained id
IsGrantable-iff s retained id = ground (
  arith,
  contains-collect (s.resource_pool.available_cpu_hardware_ids ++ retained) id,
  contains-append s.resource_pool.available_cpu_hardware_ids retained id,
)

-- An instance's request is accepted exactly if each CPU is free in the pool or the instance's own;
-- a rejection names a requested CPU that is neither.
pub validate_instance_cpus_lem :
    (s : HostSnapshot) (requested retained : List ℕ)
    → (validate_instance_cpus s requested retained ≡ ok tt) × All (IsGrantable s retained) requested
      ⊎ ((id : ℕ) × (validate_instance_cpus s requested retained
            ≡ err (CpuPlacementError.unavailable_hardware_id id))
          × Any (λ x. x ≡ id) requested
          × (¬ IsGrantable s retained id))
unfolding validate_instance_cpus
validate_instance_cpus_lem s requested retained = elim (Option-cases (find unavailable requested)) [
  | inl nothing ↦ inl (
    ap refuse_found nothing,
    All-map_lem _ _ requested (λ id h. (IsGrantable-iff s retained id).0 ((not-true _).0 h))
        ((all_iff (λ x. not (unavailable x)) requested).0
          ((find-none unavailable requested).0 nothing)),
  )
  | inr (id, found) ↦ inr (
    id,
    ap refuse_found found,
    find-Any unavailable requested id found,
    λ g.
        not_both _ (find-some unavailable requested id found) ((IsGrantable-iff s retained id).1 g),
  )
]
  where
    unavailable : ℕ → Bool
    unavailable id =
        not (contains (collect (s.resource_pool.available_cpu_hardware_ids ++ retained)) id)

    not_both : (b : Bool) → b ≡ true → b ≡ false → ⊥
    not_both b p q = cc
