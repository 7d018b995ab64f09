-- ===== src/Lifecycle/Memory.antt =====
-- Where an instance's memory may lie: `checked_sum`, `validate_create_memory` and
-- `validate_update_memory` of lifecycle.rs.
pub mod Capacity
pub mod Ranges
pub mod Separation
use kernmux.Prelude.{
  ℕ, Bool, false, not, ◌&&◌, List, [], ◌∷◌, map, Option, none, some, any, filter, leb, ltb, ◌==◌,
  if◌then◌else◌, Result, ok, err, ◌>>=◌, ◌>>◌, reject_if, ok_or, try_each, checked_add,
  saturating_sub,
}
use kernmux.Api.{HostSnapshot, Instance, MemoryRegion}
use kernmux.Lifecycle.Requests.{MemoryPlacementError}

unfoldable pub checked_sum_from : ℕ → List ℕ → Result ℕ MemoryPlacementError
checked_sum_from total [] = ok total
checked_sum_from total (value ∷ values) = do
  sum ← ok_or (checked_add total value) MemoryPlacementError.address_overflow
  checked_sum_from sum values

unfoldable pub checked_sum : List ℕ → Result ℕ MemoryPlacementError
unfolding checked_sum_from
checked_sum values = checked_sum_from 0 values

-- The tests of `validate_create_memory` on the two sums.
unfoldable pub check_room : HostSnapshot → ℕ → ℕ → ℕ → Result (Unit {0}) MemoryPlacementError
check_room snapshot requested pool_bytes assigned_bytes = do
  let available = saturating_sub pool_bytes assigned_bytes
  reject_if (ltb available requested)
      (MemoryPlacementError.insufficient_available requested available)
  reject_if (not (any (λ region. leb requested region.bytes) snapshot.resource_pool.memory_regions))
      (MemoryPlacementError.no_contiguous_pool_chunk requested)

unfoldable pub validate_create_memory : HostSnapshot → ℕ → Result (Unit {0}) MemoryPlacementError
validate_create_memory snapshot requested = do
  pool_bytes ← checked_sum (map (λ region. region.bytes) snapshot.resource_pool.memory_regions)
  assigned_bytes ←
      checked_sum (map (λ instance. instance.resources.memory_bytes) snapshot.instances)
  check_room snapshot requested pool_bytes assigned_bytes

-- The region holds the range from `base` to `requested_end`.
unfoldable pub holds_range : ℕ → ℕ → MemoryRegion → Bool
holds_range base requested_end region = elim (checked_add region.base region.bytes) [
  | none ↦ false
  | some chunk_end ↦ leb region.base base && leb requested_end chunk_end
]

unfoldable pub check_peer : ℕ → ℕ → Instance → Result (Unit {0}) MemoryPlacementError
check_peer base requested_end peer = elim (peer.resources.memory_base) [
  | none ↦
      reject_if (not (peer.resources.memory_bytes == 0))
        (MemoryPlacementError.missing_instance_base peer.id)
  | some peer_base ↦ do
    peer_end ←
        ok_or (checked_add peer_base peer.resources.memory_bytes)
          MemoryPlacementError.address_overflow
    reject_if (ltb base peer_end && ltb peer_base requested_end)
        (MemoryPlacementError.overlaps_instance peer.name)
]

-- The part of `validate_update_memory` for a request that grows the instance.
unfoldable pub check_growth : HostSnapshot → Instance → ℕ → Result (Unit {0}) MemoryPlacementError
check_growth snapshot instance_now requested = do
  base ←
      ok_or instance_now.resources.memory_base
        (MemoryPlacementError.missing_instance_base instance_now.id)
  requested_end ← ok_or (checked_add base requested) MemoryPlacementError.address_overflow
  reject_if (not (any (holds_range base requested_end) snapshot.resource_pool.memory_regions))
      (MemoryPlacementError.leaves_pool_chunk base requested)
  try_each (check_peer base requested_end)
      (filter (λ peer. not (peer.id == instance_now.id)) snapshot.instances)

unfoldable pub validate_update_memory :
    HostSnapshot → Instance → ℕ → Result (Unit {0}) MemoryPlacementError
unfolding check_growth
validate_update_memory snapshot instance_now requested =
    if leb requested instance_now.resources.memory_bytes
    then ok tt
    else check_growth snapshot instance_now requested
