-- ===== src/DeviceTree/Complement.antt =====
-- The two's complement is the number with that residue.
use op_test.Prelude.{
  ℕ, zero, suc, ◌-◌, ◌*◌, ◌/◌, ◌^◌, ◌<◌, ◌≤◌, ◌≡◌, refl, inl, inr, true, false, some, arith, leb,
  Bool-cases,
}
use native.Mathlib.Nat.{pow-succ'}
use op_test.Exceptions.{ℤ, pos, negsuc}
use op_test.DeviceTree.{bit, minus, twos_comp}

-- The residue of a number modulo 2 ^ (n + 1), as Python has it, of a number of n + 1 bits with a sign
abbrev pub residue : ℕ → ℤ → ℕ
residue n (pos m) = m
residue n (negsuc k) = 2 ^ suc n - suc k

-- -2 ^ n ≤ r < 2 ^ n
abbrev pub InRange : ℕ → ℤ → Type 0
InRange n (pos m) = m < 2 ^ n
InRange n (negsuc k) = k < 2 ^ n

double : (n : ℕ) → 2 ^ suc n ≡ 2 * 2 ^ n
double n = pow-succ' 2 n

bit_set : (n val : ℕ) → val < 2 ^ suc n → bit n val ≡ true → 2 ^ n ≤ val
unfolding bit
bit_set zero val h e = ground arith
bit_set (suc n) val h e =
    omega (arith, double n, double (suc n), bit_set n (val / 2) (omega (arith, double (suc n))) e)

bit_clear : (n val : ℕ) → val < 2 ^ suc n → bit n val ≡ false → val < 2 ^ n
unfolding bit
bit_clear zero val h e = ground arith
bit_clear (suc n) val h e =
    omega (arith, double n, double (suc n), bit_clear n (val / 2) (omega (arith, double (suc n))) e)

-- The result for a number of n + 1 bits
abbrev pub Represents : ℕ → ℕ → ℤ → Type 0
Represents n val r = (residue n r ≡ val) × InRange n r

too_large : (a b : ℕ) → a < b → leb b a ≡ false
too_large a b h = ground arith

minus-Represents :
    (n val : ℕ) → val < 2 ^ suc n → 2 ^ n ≤ val → Represents n val (minus val (2 ^ suc n))
unfolding minus
minus-Represents n val h k = (
  rw (too_large val (2 ^ suc n) h) (omega (arith, h)),
  rw (too_large val (2 ^ suc n) h) (omega (arith, double n)),
)

-- `twos_comp` of a number below 2 ^ bits, with at least one bit, is the number between -2 ^ (bits - 1)
-- and 2 ^ (bits - 1) that has it as its residue.
pub twos_comp-Represents :
    (n val : ℕ) → val < 2 ^ suc n → (r : ℤ) × (twos_comp val (suc n) ≡ some r) × Represents n val r
unfolding twos_comp
twos_comp-Represents n val h = elim (Bool-cases (bit n val)) [
  | inl e ↦ (minus val (2 ^ suc n), rw e refl, minus-Represents n val h (bit_set n val h e))
  | inr e ↦ (pos val, rw e refl, (refl, bit_clear n val h e))
]
