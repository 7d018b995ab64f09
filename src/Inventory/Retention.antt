-- ===== src/Inventory/Retention.antt =====
-- What one refresh makes of the snapshot that is retained.
use kernmux.Prelude.{
  ℕ, ◌<◌, ◌≤◌, ◌≡◌, ◌⊎◌, inl, inr, refl, sym, ap, ◌∙◌, List, [], ◌∷◌, map, subst, Option, none,
  some, Result, ok, err, arith, Bool-cases, u64_max, saturating_add, some_injective, ok_injective,
}
use kernmux.Prelude.Equality.{equals, equals_iff}
use kernmux.Api.{HostSnapshot, NumaNode, SnapshotHealth}
use kernmux.Api.Equality.{host_snapshot_eq}
use kernmux.Inventory.Observations.{HostObservations}
use kernmux.Inventory.Assembly.{assemble_snapshot}
use kernmux.Inventory.Service.{
  generation_relevant_state, without_available, next_snapshot, refreshed, stale_of,
}

-- A NUMA node but for the memory that is free on it at the moment.
abbrev pub node_state : NumaNode → ℕ × List ℕ × ℕ
node_state node = (node.id, node.logical_cpu_ids, node.total_memory_bytes)

-- The same host in two snapshots: every part of it is the same, except the memory that is free on
-- its nodes at the moment. How fresh the snapshots are is not part of it.
pub record SameHost (s t : HostSnapshot) : Type 0 where
  pub kernel : s.kernel ≡ t.kernel
  pub capabilities : s.capabilities ≡ t.capabilities
  pub architecture : s.topology.architecture ≡ t.topology.architecture
  pub cpus : s.topology.cpus ≡ t.topology.cpus
  pub numa_nodes : map node_state s.topology.numa_nodes ≡ map node_state t.topology.numa_nodes
  pub memory : s.memory ≡ t.memory
  pub resource_pool : s.resource_pool ≡ t.resource_pool
  pub instances : s.instances ≡ t.instances
  pub transactions : s.transactions ≡ t.transactions
  pub operations : s.operations ≡ t.operations

-- A later snapshot has a later generation, or the same and the same state of the host, unless the
-- generations have run out.
abbrev pub Succeeds : HostSnapshot → HostSnapshot → Type 0
Succeeds s t =
    (s.generation < t.generation)
    ⊎ ((s.generation ≡ t.generation) × (SameHost s t ⊎ (u64_max ≤ t.generation)))

SameHost-refl : (s : HostSnapshot) → SameHost s s
SameHost-refl s = record {
  kernel = refl;
  capabilities = refl;
  architecture = refl;
  cpus = refl;
  numa_nodes = refl;
  memory = refl;
  resource_pool = refl;
  instances = refl;
  transactions = refl;
  operations = refl;
}

pub SameHost-sym : (s t : HostSnapshot) → SameHost s t → SameHost t s
SameHost-sym s t h = record {
  kernel = sym h.kernel;
  capabilities = sym h.capabilities;
  architecture = sym h.architecture;
  cpus = sym h.cpus;
  numa_nodes = sym h.numa_nodes;
  memory = sym h.memory;
  resource_pool = sym h.resource_pool;
  instances = sym h.instances;
  transactions = sym h.transactions;
  operations = sym h.operations;
}

pub SameHost-trans : (s t u : HostSnapshot) → SameHost s t → SameHost t u → SameHost s u
SameHost-trans s t u h k = record {
  kernel = h.kernel ∙ k.kernel;
  capabilities = h.capabilities ∙ k.capabilities;
  architecture = h.architecture ∙ k.architecture;
  cpus = h.cpus ∙ k.cpus;
  numa_nodes = h.numa_nodes ∙ k.numa_nodes;
  memory = h.memory ∙ k.memory;
  resource_pool = h.resource_pool ∙ k.resource_pool;
  instances = h.instances ∙ k.instances;
  transactions = h.transactions ∙ k.transactions;
  operations = h.operations ∙ k.operations;
}

Succeeds-trans : (s t u : HostSnapshot) → Succeeds s t → Succeeds t u → Succeeds s u
Succeeds-trans s t u (inl h) (inl k) = inl (omega arith)
Succeeds-trans s t u (inl h) (inr (k, _)) = inl (omega arith)
Succeeds-trans s t u (inr (h, _)) (inl k) = inl (omega arith)
Succeeds-trans s t u (inr (h, inr most)) (inr (k, x)) = inr (h ∙ k, inr (omega arith))
Succeeds-trans s t u (inr (h, inl e)) (inr (k, inl f)) = inr (h ∙ k, inl (SameHost-trans s t u e f))
Succeeds-trans s t u (inr (h, inl e)) (inr (k, inr most)) = inr (h ∙ k, inr most)

node_state-without_available :
    (nodes : List NumaNode) → map node_state (map without_available nodes) ≡ map node_state nodes
unfolding without_available
node_state-without_available [] = refl
node_state-without_available (n ∷ ns) = ap (◌∷◌ (node_state n)) (node_state-without_available ns)

-- What the service compares is enough to tell the host.
relevant-SameHost :
    (s t : HostSnapshot) → generation_relevant_state s ≡ generation_relevant_state t → SameHost s t
unfolding generation_relevant_state
relevant-SameHost s t h = record {
  kernel = ap (λ (x : HostSnapshot). x.kernel) h;
  capabilities = ap (λ (x : HostSnapshot). x.capabilities) h;
  architecture = ap (λ (x : HostSnapshot). x.topology.architecture) h;
  cpus = ap (λ (x : HostSnapshot). x.topology.cpus) h;
  numa_nodes =
      sym (node_state-without_available s.topology.numa_nodes)
      ∙ ap (λ (x : HostSnapshot). map node_state x.topology.numa_nodes) h
      ∙ node_state-without_available t.topology.numa_nodes;
  memory = ap (λ (x : HostSnapshot). x.memory) h;
  resource_pool = ap (λ (x : HostSnapshot). x.resource_pool) h;
  instances = ap (λ (x : HostSnapshot). x.instances) h;
  transactions = ap (λ (x : HostSnapshot). x.transactions) h;
  operations = ap (λ (x : HostSnapshot). x.operations) h;
}

counted :
    (g : ℕ)
    → g ≤ u64_max
    → ((g < saturating_add g 1) ⊎ ((g ≡ saturating_add g 1) × (u64_max ≤ saturating_add g 1)))
      × (saturating_add g 1 ≤ u64_max)
counted g h = ground arith

next_snapshot-Succeeds :
    (s : HostSnapshot) (o : HostObservations)
    → s.generation ≤ u64_max
    → Succeeds s (next_snapshot s o) × ((next_snapshot s o).generation ≤ u64_max)
unfolding next_snapshot assemble_snapshot
next_snapshot-Succeeds s o h =
    let same_generation = assemble_snapshot s.generation o in
    elim (Bool-cases
      (equals (generation_relevant_state same_generation) (generation_relevant_state s))) [
        | inl same ↦ rw same (
          inr (
            refl,
            inl (
                SameHost-sym same_generation s
                  (relevant-SameHost same_generation s ((equals_iff _ _).0 same))),
          ),
          h,
        )
        | inr changed ↦
            let (count, bound) = counted s.generation h in
            let later : Succeeds s (assemble_snapshot (saturating_add s.generation 1) o) =
              elim count [ inl up ↦ inl up | inr (same, most) ↦ inr (same, inr most) ] in
            rw changed (later, bound)
      ]

stale_of-SameHost : (c r : HostSnapshot) → stale_of c ≡ r → SameHost r c
stale_of-SameHost c r h =
    subst (λ x. SameHost x c) h
      (unfold stale_of in
        (record {
          kernel = refl;
          capabilities = refl;
          architecture = refl;
          cpus = refl;
          numa_nodes = refl;
          memory = refl;
          resource_pool = refl;
          instances = refl;
          transactions = refl;
          operations = refl;
        }))

unfoldable pub Bounded : Option HostSnapshot → Type 0
Bounded c = (s : HostSnapshot) → c ≡ some s → s.generation ≤ u64_max

-- The retained snapshot later on, after the one that is retained now.
unfoldable pub Later : Option HostSnapshot → Option HostSnapshot → Type 0
Later c d = (s : HostSnapshot) → c ≡ some s → (t : HostSnapshot) × (d ≡ some t) × Succeeds s t

pub Later-refl : (c : Option HostSnapshot) → Later c c
unfolding Later
Later-refl c s h = (s, h, inr (refl, inl (SameHost-refl s)))

pub Later-trans : (c d e : Option HostSnapshot) → Later c d → Later d e → Later c e
unfolding Later
Later-trans c d e h k s held =
    let (t, held_t, first) = h s held in
    let (u, held_u, second) = k t held_t in (u, held_u, Succeeds-trans s t u first second)

assembled :
    (g : ℕ) (o : HostObservations) (r : HostSnapshot)
    → assemble_snapshot g o ≡ r
    → (r.health ≡ SnapshotHealth.healthy) × (r ≡ assemble_snapshot r.generation o)
unfolding assemble_snapshot
assembled g o r h =
    subst
      (λ (x : HostSnapshot).
        (x.health ≡ SnapshotHealth.healthy) × (x ≡ assemble_snapshot x.generation o))
      h (refl, refl)

next_snapshot_lem :
    (s : HostSnapshot) (o : HostObservations)
    → (g : ℕ) × (next_snapshot s o ≡ assemble_snapshot g o)
unfolding next_snapshot
next_snapshot_lem s o =
    elim (Bool-cases (
      equals (generation_relevant_state (assemble_snapshot s.generation o))
        (generation_relevant_state s))) [
          | inl same ↦ (s.generation, rw same refl)
          | inr changed ↦ (saturating_add s.generation 1, rw changed refl)
        ]

module _ {E : Type 0} where
  pub refreshed-Later :
      (c : Option HostSnapshot) (o : Result HostObservations E)
      → Bounded c
      → Later c (refreshed c o).1.current × Bounded (refreshed c o).1.current
  unfolding Bounded Later refreshed
  refreshed-Later none (err e) h = (Later-refl none, h)
  refreshed-Later (some c) (err e) h = (Later-refl (some c), h)
  refreshed-Later none (ok o) h =
      unfold assemble_snapshot in
      (
        λ s held. cc,
        λ s held.
            subst (λ (x : HostSnapshot). x.generation ≤ u64_max) (some_injective held)
              (omega arith),
      )
  refreshed-Later (some c) (ok o) h =
      let (later, bound) = next_snapshot-Succeeds c o (h c refl) in
      (
        λ s held. (
          next_snapshot c o,
          refl,
          subst (λ x. Succeeds x (next_snapshot c o)) (some_injective held) later,
        ),
        λ s held. subst (λ (x : HostSnapshot). x.generation ≤ u64_max) (some_injective held) bound,
      )

  -- What a refresh returns is the retained snapshot, or shares its generation and state.
  pub refreshed-retained :
      (c : Option HostSnapshot) (o : Result HostObservations E) (r : HostSnapshot)
      → (refreshed c o).0 ≡ ok r
      → (t : HostSnapshot) × ((refreshed c o).1.current ≡ some t)
        × (r.generation ≡ t.generation)
        × (SameHost r t)
  unfolding refreshed
  refreshed-retained none (err e) r h = cc
  refreshed-retained (some c) (err e) r h =
      unfold stale_of in
      (
        c,
        refl,
        ap (λ (x : HostSnapshot). x.generation) (sym (ok_injective h)),
        stale_of-SameHost c r (ok_injective h),
      )
  refreshed-retained none (ok o) r h = (r, ap some (ok_injective h), refl, SameHost-refl r)
  refreshed-retained (some c) (ok o) r h = (r, ap some (ok_injective h), refl, SameHost-refl r)

  pub refreshed-health :
      (c : Option HostSnapshot) (observed : Result HostObservations E) (r : HostSnapshot)
      → (refreshed c observed).0 ≡ ok r
      → ((r.health ≡ SnapshotHealth.healthy)
          × ((o : HostObservations) × (observed ≡ ok o) × (r ≡ assemble_snapshot r.generation o))
          × ((refreshed c observed).1.current ≡ some r))
        ⊎ ((r.health ≡ SnapshotHealth.indeterminate)
            × ((e : E) × (observed ≡ err e))
            × ((s : HostSnapshot) × (c ≡ some s)
                × ((refreshed c observed).1.current ≡ some s)
                × (r.generation ≡ s.generation)
                × (SameHost r s)))
  unfolding refreshed
  refreshed-health none (err e) r h = cc
  refreshed-health (some c) (err e) r h =
      let k : stale_of c ≡ r = ok_injective h in
      unfold stale_of in
      inr (
        sym (ap (λ (x : HostSnapshot). x.health) k),
        (e, refl),
        (c, refl, refl, sym (ap (λ (x : HostSnapshot). x.generation) k), stale_of-SameHost c r k),
      )
  refreshed-health none (ok o) r h =
      let k : assemble_snapshot 1 o ≡ r = ok_injective h in
      inl ((assembled 1 o r k).0, (o, refl, (assembled 1 o r k).1), ap some k)
  refreshed-health (some c) (ok o) r h =
      let k : next_snapshot c o ≡ r = ok_injective h in
      let (g, e) = next_snapshot_lem c o in
      let (health, same) = assembled g o r (sym e ∙ k) in inl (health, (o, refl, same), ap some k)

pub new_service-Bounded : Bounded none
unfolding Bounded
new_service-Bounded s h = cc
