-- ===== src/ResourcePool/Planning.antt =====
-- When a pool request is accepted, and what its command says.
use kernmux.Prelude.{
  ℕ, ◌≡◌, ◌≤◌, ◌↔◌, ◌⊎◌, refl, sym, ap, ◌∙◌, true, false, not, ◌||◌, List, [], ◌∷◌, length, any,
  All, ok, reject_if, map_err, >>=-eq-ok, map_err-eq-ok, reject_if-eq-ok, arith, total,
  wrapping_sum, wrapping_sum-total, u64_max, ltb, ◌==◌,
}
use kernmux.Prelude.Order.{nat_ord, same}
use kernmux.Prelude.TreeSet.{
  collect, contains, contains-collect, distinct, length-collect_iff, SameElements,
}
use kernmux.Api.{HostSnapshot, Instance, is_healthy}
use kernmux.Placement.{validate_pool_cpus}
use kernmux.Placement.Laws.{IsPlaceable, validate_pool_cpus_iff}
use kernmux.ResourcePool.{
  ResourcePoolPlanError, ResourcePoolRequest, assigned_bytes, excludes_cpu, insert_sorted, plan,
  pool_invocation, sort,
}

-- A request that the pool can take: the host state is current and healthy, no CPU stands twice,
-- each is retained or can be placed, and nothing that an instance holds is left out.
pub record IsAdmissible (request : ResourcePoolRequest) (snapshot : HostSnapshot) : Type 0 where
  pub healthy : is_healthy snapshot.health ≡ true
  pub current : request.expected_generation ≡ snapshot.generation
  pub no_duplicate : distinct request.cpu_hardware_ids ≡ true
  pub placeable :
      All
        (λ id.
          (contains snapshot.resource_pool.cpu_hardware_ids id ≡ true)
          ⊎ IsPlaceable snapshot.topology.cpus id)
        request.cpu_hardware_ids
  pub keeps_cpus :
      All
        (λ i.
          All (λ cpu. contains request.cpu_hardware_ids cpu ≡ true) i.resources.cpu_hardware_ids)
        snapshot.instances
  pub keeps_memory : wrapping_sum (assigned_bytes snapshot.instances) ≤ request.memory_bytes

keeps_cpus_of :
    (requested cpus : List ℕ)
    → (any (λ cpu. not (contains (collect requested) cpu)) cpus ≡ false)
      ↔ All (λ cpu. contains requested cpu ≡ true) cpus
keeps_cpus_of requested [] = (λ _. tt, λ _. refl)
keeps_cpus_of requested (c ∷ cs) =
    ground (arith, contains-collect requested c, keeps_cpus_of requested cs)

excludes_cpu_iff :
    (requested : List ℕ) (instances : List Instance)
    → (excludes_cpu (collect requested) instances ≡ false)
      ↔ All (λ i. All (λ cpu. contains requested cpu ≡ true) i.resources.cpu_hardware_ids) instances
excludes_cpu_iff requested [] = (λ _. tt, λ _. refl)
excludes_cpu_iff requested (i ∷ is) =
    let here = keeps_cpus_of requested i.resources.cpu_hardware_ids in
    let rest = excludes_cpu_iff requested is in
    (
      λ h. (here.0 (ground arith), rest.0 (ground arith)),
      λ h. ground (arith, here.1 h.0, rest.1 h.1),
    )

-- A pool request is accepted, with the `init` command for its sorted CPUs and its memory, exactly
-- if the snapshot is healthy and of the expected generation, no CPU stands twice, each is in the
-- pool already or can be placed, every CPU of an instance stays in the pool, and the wrapping sum
-- of the instances' memory is at most the memory requested.
pub plan_iff :
    (request : ResourcePoolRequest) (snapshot : HostSnapshot)
    → (plan request snapshot ≡ ok (pool_invocation request)) ↔ IsAdmissible request snapshot
unfolding plan
plan_iff request snapshot =
    let duplicates = length-collect_iff request.cpu_hardware_ids in
    let places = validate_pool_cpus_iff snapshot request.cpu_hardware_ids in
    let excludes = excludes_cpu_iff request.cpu_hardware_ids snapshot.instances in
    (
      λ h.
          let (_, healthy, h1) =
            >>=-eq-ok
              (reject_if (not (is_healthy snapshot.health))
                ResourcePoolPlanError.snapshot_indeterminate)
              _ h in
          let (_, current, h2) =
            >>=-eq-ok
              (reject_if (not (request.expected_generation == snapshot.generation)) (
                ResourcePoolPlanError.stale_generation request.expected_generation
                  snapshot.generation))
              _ h1 in
          let (_, unique, h3) =
            >>=-eq-ok
              (reject_if
                (not (length (collect request.cpu_hardware_ids) == length request.cpu_hardware_ids))
                ResourcePoolPlanError.duplicate_cpu)
              _ h2 in
          let (_, placed, h4) =
            >>=-eq-ok
              (map_err ResourcePoolPlanError.cpu_placement
                (validate_pool_cpus snapshot request.cpu_hardware_ids))
              _ h3 in
          let (_, kept, _) =
            >>=-eq-ok
              (reject_if
                (excludes_cpu (collect request.cpu_hardware_ids) snapshot.instances
                  || ltb request.memory_bytes (wrapping_sum (assigned_bytes snapshot.instances)))
                ResourcePoolPlanError.assigned_resources_excluded)
              _ h4 in
          record {
            healthy = ground (arith, reject_if-eq-ok _ _ healthy);
            current = ground (arith, reject_if-eq-ok _ _ current);
            no_duplicate = duplicates.0 (ground (arith, reject_if-eq-ok _ _ unique));
            placeable = places.0 (
                map_err-eq-ok ResourcePoolPlanError.cpu_placement
                  (validate_pool_cpus snapshot request.cpu_hardware_ids) placed);
            keeps_cpus = excludes.0 (ground (arith, reject_if-eq-ok _ _ kept));
            keeps_memory = ground (arith, reject_if-eq-ok _ _ kept);
          },
      λ h. ground (
        arith,
        h.healthy,
        h.current,
        h.keeps_memory,
        duplicates.1 h.no_duplicate,
        places.1 h.placeable,
        excludes.1 h.keeps_cpus,
      ),
    )

-- While the sum of the instances' memory fits in 64 bits, an accepted pool keeps all of it. The
-- sum is taken without an overflow check, so the bound is needed.
pub plan-keeps_memory :
    (request : ResourcePoolRequest) (snapshot : HostSnapshot)
    → total (assigned_bytes snapshot.instances) ≤ u64_max
    → plan request snapshot ≡ ok (pool_invocation request)
    → total (assigned_bytes snapshot.instances) ≤ request.memory_bytes
plan-keeps_memory request snapshot fits h = omega (
  arith,
  ((plan_iff request snapshot).0 h).keeps_memory,
  wrapping_sum-total (assigned_bytes snapshot.instances) fits,
)

contains-insert_sorted :
    (a : ℕ) (xs : List ℕ) (b : ℕ) → contains (insert_sorted a xs) b ≡ contains (a ∷ xs) b
unfolding contains
contains-insert_sorted a [] b = refl
contains-insert_sorted a (x ∷ xs) b = ground (arith, contains-insert_sorted a xs b)

contains-cons : (x : ℕ) (xs : List ℕ) (b : ℕ) → contains (x ∷ xs) b ≡ (same x b || contains xs b)
unfolding contains
contains-cons x xs b = refl

-- Sorting keeps the elements.
pub sort-SameElements : (xs : List ℕ) → SameElements (sort xs) xs
unfolding sort
sort-SameElements [] b = refl
sort-SameElements (x ∷ xs) b =
    contains-insert_sorted x (sort xs) b
    ∙ contains-cons x (sort xs) b
    ∙ ap (λ t. same x b || t) (sort-SameElements xs b)
    ∙ sym (contains-cons x xs b)
