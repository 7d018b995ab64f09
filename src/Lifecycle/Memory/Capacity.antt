-- ===== src/Lifecycle/Memory/Capacity.antt =====
-- What `validate_create_memory` accepts.
use kernmux.Prelude.{
  ℕ, ◌+◌, ◌≤◌, ◌<◌, ◌≡◌, ◌↔◌, inl, inr, true, List, [], ◌∷◌, map, any, Any, leb, arith,
  if◌then◌else◌, ok, err, u64_max, total, Bool-cases,
}
use kernmux.Api.{HostSnapshot, MemoryRegion}
use kernmux.Lifecycle.Requests.{MemoryPlacementError}
use kernmux.Lifecycle.Memory.{checked_sum, checked_sum_from, check_room, validate_create_memory}

checked_sum_from_lem :
    (acc : ℕ) (xs : List ℕ)
    → acc ≤ u64_max
    → checked_sum_from acc xs ≡ (
        if leb (acc + total xs) u64_max
        then ok (acc + total xs)
        else err MemoryPlacementError.address_overflow)
unfolding checked_sum_from
checked_sum_from_lem acc [] h = ground arith
checked_sum_from_lem acc (x ∷ xs) h = elim (Bool-cases (leb (acc + x) u64_max)) [
  | inl fits ↦ ground (arith, checked_sum_from_lem (acc + x) xs)
  | inr over ↦ ground arith
]

-- The checked sum is the sum, or says that it does not fit in 64 bits.
pub checked_sum_lem :
    (xs : List ℕ)
    → checked_sum xs ≡ (
        if leb (total xs) u64_max then ok (total xs) else err MemoryPlacementError.address_overflow)
unfolding checked_sum
checked_sum_lem xs = ground (arith, checked_sum_from_lem 0 xs)

-- The memory of the pool, and what the instances have of it.
abbrev pub pool_bytes : HostSnapshot → ℕ
pool_bytes s = total (map (λ region. region.bytes) s.resource_pool.memory_regions)

abbrev pub assigned_bytes : HostSnapshot → ℕ
assigned_bytes s = total (map (λ instance. instance.resources.memory_bytes) s.instances)

any_fits_iff :
    (requested : ℕ) (rs : List MemoryRegion)
    → (any (λ region. leb requested region.bytes) rs ≡ true)
      ↔ Any (λ region. requested ≤ region.bytes) rs
any_fits_iff requested [] = ground arith
any_fits_iff requested (r ∷ rs) = ground (arith, any_fits_iff requested rs)

check_room_iff :
    (s : HostSnapshot) (requested pool assigned : ℕ)
    → 0 < requested
    → (check_room s requested pool assigned ≡ ok tt) ↔ (
        (assigned + requested ≤ pool)
        × Any (λ region. requested ≤ region.bytes) s.resource_pool.memory_regions)
unfolding check_room
check_room_iff s requested pool assigned h =
    ground (arith, any_fits_iff requested s.resource_pool.memory_regions)

-- A request for some memory for a new instance is accepted exactly if the pool's and the
-- instances' totals fit in 64 bits, the request fits beside what is assigned already, and some one
-- region could hold it.
pub validate_create_memory_iff :
    (s : HostSnapshot) (requested : ℕ)
    → 0 < requested
    → (validate_create_memory s requested ≡ ok tt) ↔ (
        (pool_bytes s ≤ u64_max)
        × (assigned_bytes s ≤ u64_max)
        × (assigned_bytes s + requested ≤ pool_bytes s)
        × Any (λ region. requested ≤ region.bytes) s.resource_pool.memory_regions)
unfolding validate_create_memory
validate_create_memory_iff s requested h = ground (
  arith,
  checked_sum_lem (map (λ region. region.bytes) s.resource_pool.memory_regions),
  checked_sum_lem (map (λ instance. instance.resources.memory_bytes) s.instances),
  check_room_iff s requested (pool_bytes s) (assigned_bytes s) h,
)
