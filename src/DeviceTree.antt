-- ===== src/DeviceTree.antt =====
-- The number functions of testcases/DeviceTreeValidation.py: the two's complement of the pstates, the
-- change of byte order of the properties, and the tests of order on their values.
mod Tests
pub mod Complement
pub mod Swap
pub mod Order
use op_test.Prelude.{
  ℕ, zero, suc, ◌+◌, ◌-◌, ◌*◌, ◌/◌, ◌%◌, ◌^◌, Bool, true, false, ◌&&◌, Option, none, some, List, [],
  ◌∷◌, ltb, leb, ◌==◌, if◌then◌else◌,
}
use mathlib.Core.List.{reverse}
use op_test.Exceptions.{ℤ, pos, negsuc}

-- `val & (1 << n)` is not 0.
pub bit : ℕ → ℕ → Bool
bit zero val = val % 2 == 1
bit (suc n) val = bit n (val / 2)

-- a - b
pub minus : ℕ → ℕ → ℤ
minus a b = if leb b a then pos (a - b) else negsuc (b - a - 1)

-- `twos_comp`; without a bit the shift by -1 is a ValueError, here none.
unfoldable pub twos_comp : ℕ → ℕ → Option ℤ
unfolding bit minus
twos_comp val zero = none
twos_comp val (suc n) = if bit n val then some (minus val (2 ^ suc n)) else some (pos val)

-- The `n` bytes of a number, the low one first, and the number of some bytes
pub to_bytes : ℕ → ℕ → List ℕ
to_bytes zero i = []
to_bytes (suc n) i = i % 256 ∷ to_bytes n (i / 256)

pub from_bytes : List ℕ → ℕ
from_bytes [] = 0
from_bytes (b ∷ bs) = b + 256 * from_bytes bs

-- struct.pack in big endian, of a number that fits, and struct.unpack in little endian
unfoldable pub swap : ℕ → ℕ → Option ℕ
unfolding to_bytes from_bytes
swap n i = if ltb i (256 ^ n) then some (from_bytes (reverse (to_bytes n i))) else none

abbrev pub swap32 : ℕ → Option ℕ
swap32 = swap 4

abbrev pub swap64 : ℕ → Option ℕ
swap64 = swap 8

-- all(r(x, y) for x, y in zip(L, L[1:]))
pub all_pairs : (ℕ → ℕ → Bool) → List ℕ → Bool
all_pairs r [] = true
all_pairs r (x ∷ []) = true
all_pairs r (x ∷ y ∷ xs) = r x y && all_pairs r (y ∷ xs)

pub strictly_increasing : List ℕ → Bool
unfolding all_pairs
strictly_increasing xs = all_pairs ltb xs

pub strictly_decreasing : List ℕ → Bool
unfolding all_pairs
strictly_decreasing xs = all_pairs (λ x y. ltb y x) xs

pub non_increasing : List ℕ → Bool
unfolding all_pairs
non_increasing xs = all_pairs (λ x y. leb y x) xs

pub non_decreasing : List ℕ → Bool
unfolding all_pairs
non_decreasing xs = all_pairs leb xs
