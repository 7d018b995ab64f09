-- ===== src/Prelude/Machine.antt =====
-- `u64` arithmetic as the code calls it: checked, saturating, and the wrapping `Iterator::sum`.
use Prim.Native.Nat.{ℕ, ◌+◌, ◌-◌, ◌%◌, ◌≤◌}
use mathlib.Core.Path.{◌≡◌}
use mathlib.Core.List.{List, [], ◌∷◌}
use mathlib.Core.Option.{Option, none, some}
use native.Mathlib.Omega.{arith}
use kernmux.Prelude.Tests.{leb, if◌then◌else◌}

abbrev pub u64_max : ℕ
u64_max = 18446744073709551615

abbrev pub checked_add : ℕ → ℕ → Option ℕ
checked_add a b = if leb (a + b) u64_max then some (a + b) else none

abbrev pub saturating_add : ℕ → ℕ → ℕ
saturating_add a b = if leb (a + b) u64_max then a + b else u64_max

-- On unsigned numbers `saturating_sub` stops at 0, as `-` on the naturals does.
abbrev pub saturating_sub : ℕ → ℕ → ℕ
saturating_sub a b = a - b

-- The sum that the numbers stand for.
abbrev pub total : List ℕ → ℕ
total [] = 0
total (x ∷ xs) = x + total xs

wrapping_sum_from : ℕ → List ℕ → ℕ
wrapping_sum_from acc [] = acc
wrapping_sum_from acc (x ∷ xs) = wrapping_sum_from ((acc + x) % (u64_max + 1)) xs

-- `iter.sum::<u64>()` in a release build.
unfoldable pub wrapping_sum : List ℕ → ℕ
unfolding wrapping_sum_from
wrapping_sum xs = wrapping_sum_from 0 xs

wrapping_sum_from-total :
    (acc : ℕ) (xs : List ℕ) → acc + total xs ≤ u64_max → wrapping_sum_from acc xs ≡ acc + total xs
unfolding wrapping_sum_from
wrapping_sum_from-total acc [] h = omega arith
wrapping_sum_from-total acc (x ∷ xs) h =
    let e : (acc + x) % (u64_max + 1) ≡ acc + x = omega arith in
    omega (arith, wrapping_sum_from-total ((acc + x) % (u64_max + 1)) xs (omega arith))

-- While the sum fits it is exact.
pub wrapping_sum-total : (xs : List ℕ) → total xs ≤ u64_max → wrapping_sum xs ≡ total xs
unfolding wrapping_sum
wrapping_sum-total xs h = omega (arith, wrapping_sum_from-total 0 xs)
