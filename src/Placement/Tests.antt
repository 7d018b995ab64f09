-- ===== src/Placement/Tests.antt =====
-- Requests for CPUs of the sample host.
use kernmux.Prelude.{◌≡◌, ◌↔◌, ◌⊎◌, true, [], ◌∷◌, All, ok}
use kernmux.Prelude.Order.{nat_ord}
use kernmux.Prelude.TreeSet.{contains}
use kernmux.Sample.{host}
use kernmux.Placement.{validate_pool_cpus}
use kernmux.Placement.Laws.{IsPlaceable, validate_pool_cpus_iff}

validate_pool_cpus_iff_example :
    (validate_pool_cpus host (4 ∷ 7 ∷ []) ≡ ok tt)
    ↔ All
        (λ id.
          (contains host.resource_pool.cpu_hardware_ids id ≡ true)
          ⊎ IsPlaceable host.topology.cpus id)
        (4 ∷ 7 ∷ [])
validate_pool_cpus_iff_example = validate_pool_cpus_iff host (4 ∷ 7 ∷ [])
