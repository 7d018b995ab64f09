-- ===== src/Lifecycle/Memory/Ranges.antt =====
-- What `validate_update_memory` accepts, and that no accepted growth makes two instances overlap.
use kernmux.Prelude.{
  ℕ, ◌+◌, ◌≤◌, ◌≡◌, ◌↔◌, ◌⊎◌, inl, inr, refl, ap, ◌∙◌, true, false, not, List, [], ◌∷◌, any, filter,
  All, Any, leb, arith, ◌==◌, Option, none, some, ok, u64_max, Bool-cases, Option-cases, >>=-eq-ok,
  try_each, ==_iff, ◌>>◌,
}
use kernmux.Api.{HostSnapshot, Instance, MemoryRegion}
use kernmux.Lifecycle.Memory.{holds_range, check_peer, check_growth, validate_update_memory}

-- The region has the whole range, and does not itself wrap.
abbrev pub IsWithin : ℕ → ℕ → MemoryRegion → Type 0
IsWithin base end region =
    (region.base + region.bytes ≤ u64_max)
    × (region.base ≤ base)
    × (end ≤ region.base + region.bytes)

-- The range from `base` to `end` keeps clear of memory at a base, if that is known, of a size.
abbrev pub ClearOf : ℕ → ℕ → Option ℕ → ℕ → Type 0
ClearOf base end none bytes = bytes ≡ 0
ClearOf base end (some start) bytes =
    (start + bytes ≤ u64_max) × ((start + bytes ≤ base) ⊎ (end ≤ start))

abbrev pub IsClear : ℕ → ℕ → Instance → Type 0
IsClear base end peer = ClearOf base end peer.resources.memory_base peer.resources.memory_bytes

holds_range_iff :
    (base end : ℕ) (r : MemoryRegion) → (holds_range base end r ≡ true) ↔ IsWithin base end r
unfolding holds_range
holds_range_iff base end r = ground arith

any_holds_iff :
    (base end : ℕ) (rs : List MemoryRegion)
    → (any (holds_range base end) rs ≡ true) ↔ Any (IsWithin base end) rs
any_holds_iff base end [] = ground arith
any_holds_iff base end (r ∷ rs) =
    ground (arith, holds_range_iff base end r, any_holds_iff base end rs)

check_peer_iff :
    (base end : ℕ) (p : Instance) → (check_peer base end p ≡ ok tt) ↔ IsClear base end p
unfolding check_peer
check_peer_iff base end p = elim (Option-cases p.resources.memory_base) [
  | inl e ↦ rw (e, check_peer) (ground arith)
  | inr (start, e) ↦ rw (e, check_peer) (ground arith)
]

peer_passes :
    (base end id : ℕ) (p : Instance) (ps : List Instance)
    → (p.id == id) ≡ false
    → (All (λ p. (p.id ≡ id) ⊎ IsClear base end p) ps
        → try_each (check_peer base end) (filter (λ p. not (p.id == id)) ps) ≡ ok tt)
    → ((p.id ≡ id) ⊎ IsClear base end p) × All (λ p. (p.id ≡ id) ⊎ IsClear base end p) ps
    → (check_peer base end p >> try_each (check_peer base end) (filter (λ p. not (p.id == id)) ps))
      ≡ ok tt
peer_passes base end id p ps peer k (inl own, rest) = absurd (ground arith)
peer_passes base end id p ps peer k (inr clear, rest) =
    ap (λ m. m >> try_each (check_peer base end) (filter (λ p. not (p.id == id)) ps))
      ((check_peer_iff base end p).1 clear)
    ∙ k rest

check_peers_iff :
    (base end id : ℕ) (ps : List Instance)
    → (try_each (check_peer base end) (filter (λ p. not (p.id == id)) ps) ≡ ok tt)
      ↔ All (λ p. (p.id ≡ id) ⊎ IsClear base end p) ps
check_peers_iff base end id [] = (λ _. tt, λ _. refl)
check_peers_iff base end id (p ∷ ps) = elim (Bool-cases (p.id == id)) [
  | inl own ↦ rw own (
    λ h. (inl ((==_iff p.id id).0 own), (check_peers_iff base end id ps).0 h),
    λ h. (check_peers_iff base end id ps).1 h.1,
  )
  | inr peer ↦ rw peer (
    λ h.
        let (u, here, later) = >>=-eq-ok (check_peer base end p) _ h in
        (inr ((check_peer_iff base end p).0 here), (check_peers_iff base end id ps).0 later),
    λ h. peer_passes base end id p ps peer (check_peers_iff base end id ps).1 h,
  )
]

-- The range that an instance would have at a size lies in one region and clear of all other
-- instances.
pub record MayGrow (s : HostSnapshot) (i : Instance) (requested : ℕ) : Type 0 where
  pub base : ℕ
  pub based : i.resources.memory_base ≡ some base
  pub fits : base + requested ≤ u64_max
  pub within : Any (IsWithin base (base + requested)) s.resource_pool.memory_regions
  pub clear : All (λ p. (p.id ≡ i.id) ⊎ IsClear base (base + requested) p) s.instances

check_growth_at :
    (s : HostSnapshot) (i : Instance) (requested base : ℕ)
    → i.resources.memory_base ≡ some base
    → (check_growth s i requested ≡ ok tt) ↔ (
        (base + requested ≤ u64_max)
        × Any (IsWithin base (base + requested)) s.resource_pool.memory_regions
        × All (λ p. (p.id ≡ i.id) ⊎ IsClear base (base + requested) p) s.instances)
unfolding check_growth
check_growth_at s i requested base e = ground (
  arith,
  any_holds_iff base (base + requested) s.resource_pool.memory_regions,
  check_peers_iff base (base + requested) i.id s.instances,
)

check_growth_baseless :
    (s : HostSnapshot) (i : Instance) (requested : ℕ)
    → i.resources.memory_base ≡ none
    → check_growth s i requested ≡ ok tt
    → ⊥
unfolding check_growth
check_growth_baseless s i requested e h = ground arith

-- A new size is accepted exactly if it is no larger than the present one, or the instance may grow
-- to it: its base is known, the new end fits in 64 bits, one region of the pool holds the whole
-- range, and every other instance keeps clear of it.
pub validate_update_memory_iff :
    (s : HostSnapshot) (i : Instance) (requested : ℕ)
    → (validate_update_memory s i requested ≡ ok tt)
      ↔ ((requested ≤ i.resources.memory_bytes) ⊎ MayGrow s i requested)
unfolding validate_update_memory
validate_update_memory_iff s i requested = (sound, complete)
  where
    grows : check_growth s i requested ≡ ok tt → MayGrow s i requested
    grows h = elim (Option-cases i.resources.memory_base) [
      | inl e ↦ absurd (check_growth_baseless s i requested e h)
      | inr (base, e) ↦
          let (fits, within, clear) = (check_growth_at s i requested base e).0 h in
          record { base = base; based = e; fits = fits; within = within; clear = clear }
    ]

    sound :
        validate_update_memory s i requested ≡ ok tt
        → (requested ≤ i.resources.memory_bytes) ⊎ MayGrow s i requested
    sound h = elim (Bool-cases (leb requested i.resources.memory_bytes)) [
      | inl small ↦ inl (ground arith)
      | inr large ↦ inr (grows (ground arith))
    ]

    complete :
        (requested ≤ i.resources.memory_bytes) ⊎ MayGrow s i requested
        → validate_update_memory s i requested ≡ ok tt
    complete (inl small) = ground arith
    complete (inr m) =
        let passes : check_growth s i requested ≡ ok tt =
          (check_growth_at s i requested m.base m.based).1 (m.fits, m.within, m.clear) in
        ground arith
