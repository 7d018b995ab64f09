-- ===== src/Placement.antt =====
-- CPU identity and availability checks (crates/kernmux-daemon/src/placement.rs).
pub mod Laws
mod Tests
use kernmux.Prelude.{
  ℕ, Bool, not, List, [], ◌∷◌, ◌++◌, Option, none, some, find, filter, ◌==◌, Result, ok, err,
  reject_if, try_each,
}
use kernmux.Prelude.Order.{nat_ord}
use kernmux.Prelude.TreeSet.{contains, collect}
use kernmux.Api.{Cpu, HostSnapshot}

pub data CpuPlacementError : Type 0 where
  unknown_hardware_id ambiguous_hardware_id offline_hardware_id unavailable_hardware_id :
      ℕ → CpuPlacementError

-- The two calls of `next` on the matching CPUs, and the test of the only match.
unfoldable pub check_match : ℕ → List Cpu → Result (Unit {0}) CpuPlacementError
check_match hardware_id [] = err (CpuPlacementError.unknown_hardware_id hardware_id)
check_match hardware_id (cpu ∷ second ∷ more) =
    err (CpuPlacementError.ambiguous_hardware_id hardware_id)
check_match hardware_id (cpu ∷ []) =
    reject_if (not cpu.online) (CpuPlacementError.offline_hardware_id hardware_id)

unfoldable pub check_new_cpu : List Cpu → ℕ → Result (Unit {0}) CpuPlacementError
unfolding check_match
check_new_cpu cpus hardware_id =
    check_match hardware_id (filter (λ cpu. cpu.hardware_id == hardware_id) cpus)

-- Validates only CPUs that newly enter the pool.
unfoldable pub validate_pool_cpus : HostSnapshot → List ℕ → Result (Unit {0}) CpuPlacementError
unfolding check_new_cpu contains collect
validate_pool_cpus snapshot requested =
    let retained = collect snapshot.resource_pool.cpu_hardware_ids in
    try_each (check_new_cpu snapshot.topology.cpus)
      (filter (λ id. not (contains retained id)) requested)

-- `map_or(Ok(()), |hardware_id| Err(...))`.
unfoldable pub refuse_found : Option ℕ → Result (Unit {0}) CpuPlacementError
refuse_found none = ok tt
refuse_found (some hardware_id) = err (CpuPlacementError.unavailable_hardware_id hardware_id)

-- Validates an instance's CPUs against the pool's free ones and its own.
unfoldable pub validate_instance_cpus :
    HostSnapshot → List ℕ → List ℕ → Result (Unit {0}) CpuPlacementError
unfolding refuse_found contains collect
validate_instance_cpus snapshot requested retained =
    let available = collect (snapshot.resource_pool.available_cpu_hardware_ids ++ retained) in
    refuse_found (find (λ id. not (contains available id)) requested)
