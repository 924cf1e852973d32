-- ===== src/DeviceTree/Tests.antt =====
-- The theorems on the numbers of the device tree applied to some.
use op_test.Prelude.{ℕ, ◌<◌, ◌^◌, ◌≡◌, refl, true, some, [], ◌∷◌, arith}
use mathlib.Core.List.{reverse}
use op_test.Exceptions.{ℤ, negsuc}
use op_test.DeviceTree.{twos_comp, swap, swap32, strictly_increasing}
use op_test.DeviceTree.Complement.{Represents, twos_comp-Represents}
use op_test.DeviceTree.Swap.{high_first, swap-swap}
use op_test.DeviceTree.Order.{Ascending, strictly_increasing-Ascending}

minus_three : twos_comp 253 8 ≡ some (negsuc 2)
unfolding twos_comp
minus_three = refl

swapped : swap32 305419896 ≡ some 2018915346
unfolding swap
swapped = refl

twos_comp-Represents_example : (r : ℤ) × (twos_comp 253 8 ≡ some r) × Represents 7 253 r
twos_comp-Represents_example = twos_comp-Represents 7 253 (omega arith)

swap-swap_example :
    (j : ℕ) × (swap 4 305419896 ≡ some j)
    × (j < 256 ^ 4)
    × (high_first 4 j ≡ reverse (high_first 4 305419896))
    × (swap 4 j ≡ some 305419896)
swap-swap_example = swap-swap 4 305419896 (omega arith)

strictly_increasing-Ascending_example :
    (strictly_increasing (1 ∷ 3 ∷ 9 ∷ []) ≡ true → Ascending (1 ∷ 3 ∷ 9 ∷ []))
    × (Ascending (1 ∷ 3 ∷ 9 ∷ []) → strictly_increasing (1 ∷ 3 ∷ 9 ∷ []) ≡ true)
strictly_increasing-Ascending_example = strictly_increasing-Ascending (1 ∷ 3 ∷ 9 ∷ [])
