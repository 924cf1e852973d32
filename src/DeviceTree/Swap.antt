-- ===== src/DeviceTree/Swap.antt =====
-- The change of byte order, twice.
use op_test.Prelude.{
  ℕ, zero, suc, ◌+◌, ◌*◌, ◌/◌, ◌%◌, ◌^◌, ◌<◌, ◌≡◌, refl, ◌∙◌, sym, ap, some, List, [], ◌∷◌, ◌++◌,
  length, length-append, subst, arith, lt→ltb,
}
use mathlib.Core.List.{reverse, reverse-append, reverse-cons, reverse-reverse}
use native.Mathlib.Nat.{pow-succ'}
use op_test.DeviceTree.{to_bytes, from_bytes, swap}

abbrev AreBytes : List ℕ → Type 0
AreBytes [] = Unit
AreBytes (b ∷ bs) = (b < 256) × AreBytes bs

from-to_bytes : (n i : ℕ) → i < 256 ^ n → from_bytes (to_bytes n i) ≡ i
unfolding from_bytes to_bytes
from-to_bytes zero i h = omega arith
from-to_bytes (suc n) i h =
    omega (arith, from-to_bytes n (i / 256) (omega (arith, pow-succ' 256 n)))

to-from_bytes : (bs : List ℕ) → AreBytes bs → to_bytes (length bs) (from_bytes bs) ≡ bs
unfolding from_bytes to_bytes
to-from_bytes [] h = refl
to-from_bytes (b ∷ bs) (h, k) =
    let p : (b + 256 * from_bytes bs) % 256 ≡ b = omega arith in
    let q : (b + 256 * from_bytes bs) / 256 ≡ from_bytes bs = omega arith in
    rw (p, q, to-from_bytes bs k) refl

from_bytes-lt : (bs : List ℕ) → AreBytes bs → from_bytes bs < 256 ^ length bs
unfolding from_bytes
from_bytes-lt [] h = omega arith
from_bytes-lt (b ∷ bs) (h, k) = omega (arith, from_bytes-lt bs k, pow-succ' 256 (length bs))

to_bytes-AreBytes : (n i : ℕ) → AreBytes (to_bytes n i)
unfolding to_bytes
to_bytes-AreBytes zero i = tt
to_bytes-AreBytes (suc n) i = (omega arith, to_bytes-AreBytes n (i / 256))

length-to_bytes : (n i : ℕ) → length (to_bytes n i) ≡ n
unfolding to_bytes
length-to_bytes zero i = refl
length-to_bytes (suc n) i = ap (λ m. suc m) (length-to_bytes n (i / 256))

append-AreBytes : (xs ys : List ℕ) → AreBytes xs → AreBytes ys → AreBytes (xs ++ ys)
append-AreBytes [] ys h k = k
append-AreBytes (x ∷ xs) ys (h, hs) k = (h, append-AreBytes xs ys hs k)

reverse-AreBytes : (xs : List ℕ) → AreBytes xs → AreBytes (reverse xs)
reverse-AreBytes [] h = tt
reverse-AreBytes (x ∷ xs) (h, k) =
    rw (reverse-cons x xs) (append-AreBytes (reverse xs) (x ∷ []) (reverse-AreBytes xs k) (h, tt))

length-reverse : (xs : List ℕ) → length (reverse xs) ≡ length xs
length-reverse [] = refl
length-reverse (x ∷ xs) =
    rw (reverse-cons x xs, length-append (reverse xs) (x ∷ [])) (omega (arith, length-reverse xs))

-- The bytes of a number in the other order
abbrev turned : ℕ → ℕ → List ℕ
turned n i = reverse (to_bytes n i)

turned-AreBytes : (n i : ℕ) → AreBytes (turned n i)
turned-AreBytes n i = reverse-AreBytes (to_bytes n i) (to_bytes-AreBytes n i)

length-turned : (n i : ℕ) → length (turned n i) ≡ n
length-turned n i = length-reverse (to_bytes n i) ∙ length-to_bytes n i

turned_lt : (n i : ℕ) → from_bytes (turned n i) < 256 ^ n
turned_lt n i =
    subst (λ m. from_bytes (turned n i) < 256 ^ m) (length-turned n i)
      (from_bytes-lt (turned n i) (turned-AreBytes n i))

turned_twice : (n i : ℕ) → turned n (from_bytes (turned n i)) ≡ to_bytes n i
turned_twice n i =
    ap (λ m. reverse (to_bytes m (from_bytes (turned n i)))) (sym (length-turned n i))
    ∙ ap reverse (to-from_bytes (turned n i) (turned-AreBytes n i))
    ∙ reverse-reverse (to_bytes n i)

swap_fits : (n i : ℕ) → i < 256 ^ n → swap n i ≡ some (from_bytes (turned n i))
unfolding swap
swap_fits n i h = rw (lt→ltb i (256 ^ n) h) refl

-- The k-th byte of a number, the low one first
abbrev pub byte_at : ℕ → ℕ → ℕ
byte_at zero i = i % 256
byte_at (suc k) i = byte_at k (i / 256)

-- The n lowest bytes of a number, the high one first
abbrev pub high_first : ℕ → ℕ → List ℕ
high_first zero i = []
high_first (suc n) i = byte_at n i ∷ high_first n i

to_bytes-suc : (n i : ℕ) → to_bytes (suc n) i ≡ to_bytes n i ++ (byte_at n i ∷ [])
unfolding to_bytes
to_bytes-suc zero i = refl
to_bytes-suc (suc n) i = ap (λ bs. i % 256 ∷ bs) (to_bytes-suc n (i / 256))

turned-high_first : (n i : ℕ) → turned n i ≡ high_first n i
unfolding to_bytes
turned-high_first zero i = refl
turned-high_first (suc n) i =
    ap reverse (to_bytes-suc n i)
    ∙ reverse-append (to_bytes n i) (byte_at n i ∷ [])
    ∙ ap (λ bs. byte_at n i ∷ bs) (turned-high_first n i)

high_first-turned : (n i : ℕ) → high_first n (from_bytes (turned n i)) ≡ reverse (high_first n i)
high_first-turned n i =
    sym (turned-high_first n (from_bytes (turned n i)))
    ∙ turned_twice n i
    ∙ sym (reverse-reverse (to_bytes n i))
    ∙ ap reverse (turned-high_first n i)

-- Of a number that fits into n bytes, the change of byte order is a number that fits too, with the same
-- bytes in the other order. A second change gives the number back.
pub swap-swap :
    (n i : ℕ)
    → i < 256 ^ n
    → (j : ℕ) × (swap n i ≡ some j)
      × (j < 256 ^ n)
      × (high_first n j ≡ reverse (high_first n i))
      × (swap n j ≡ some i)
swap-swap n i h = (
  from_bytes (turned n i),
  swap_fits n i h,
  turned_lt n i,
  high_first-turned n i,
  swap_fits n (from_bytes (turned n i)) (turned_lt n i)
      ∙ ap (λ bs. some (from_bytes bs)) (turned_twice n i)
      ∙ ap some (from-to_bytes n i h),
)
