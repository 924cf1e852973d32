-- ===== src/DeviceTree/Order.antt =====
-- The tests of order look at neighbours; what they say of any two positions.
use op_test.Prelude.{
  ℕ, zero, suc, ◌<◌, ◌≡◌, refl, Bool, true, ◌&&◌, Option, some, none, subst, List, [], ◌∷◌,
  get_elem?, ltb, ltb→lt, lt→ltb, arith,
}
use op_test.DeviceTree.{all_pairs, strictly_increasing}

-- Of any two entries the first is less.
abbrev pub Ascending : List ℕ → Type 0
Ascending xs = (i j x y : ℕ) → i < j → get_elem? xs i ≡ some x → get_elem? xs j ≡ some y → x < y

first_true : (a b : Bool) → (a && b) ≡ true → a ≡ true
first_true a b h = ground arith

second_true : (a b : Bool) → (a && b) ≡ true → b ≡ true
second_true a b h = ground arith

both_true : (a b : Bool) → a ≡ true → b ≡ true → (a && b) ≡ true
both_true a b h k = ground arith

no_entry : {A : Type 0} (y : ℕ) → ◌≡◌ {A = Option ℕ} none (some y) → A
no_entry y e = let no : ⊥ = cc in elim no [ ]

-- The head is less than every entry after it.
head_lt :
    (x : ℕ) (xs : List ℕ)
    → all_pairs ltb (x ∷ xs) ≡ true
    → (j y : ℕ) → get_elem? xs j ≡ some y
    → x < y
unfolding all_pairs
head_lt x [] h j y e = no_entry y e
head_lt x (z ∷ xs) h zero y e =
    let p : z ≡ y = cc in subst (λ v. x < v) p (ltb→lt x z (first_true _ _ h))
head_lt x (z ∷ xs) h (suc j) y e =
    omega (arith, ltb→lt x z (first_true _ _ h), head_lt z xs (second_true (ltb x z) _ h) j y e)

tail_pairs : (x : ℕ) (xs : List ℕ) → all_pairs ltb (x ∷ xs) ≡ true → all_pairs ltb xs ≡ true
unfolding all_pairs
tail_pairs x [] h = refl
tail_pairs x (y ∷ xs) h = second_true (ltb x y) _ h

all_pairs-Ascending : (xs : List ℕ) → all_pairs ltb xs ≡ true → Ascending xs
all_pairs-Ascending [] h i j x y l e d = no_entry x e
all_pairs-Ascending (z ∷ xs) h i zero x y l e d = elim l [ ]
all_pairs-Ascending (z ∷ xs) h zero (suc j) x y l e d =
    let p : z ≡ x = cc in subst (λ v. v < y) p (head_lt z xs h j y d)
all_pairs-Ascending (z ∷ xs) h (suc i) (suc j) x y l e d =
    all_pairs-Ascending xs (tail_pairs z xs h) i j x y (omega arith) e d

Ascending-all_pairs : (xs : List ℕ) → Ascending xs → all_pairs ltb xs ≡ true
unfolding all_pairs
Ascending-all_pairs [] a = refl
Ascending-all_pairs (x ∷ []) a = refl
Ascending-all_pairs (x ∷ y ∷ xs) a =
    both_true (ltb x y) _ (lt→ltb x y (a 0 1 x y (omega arith) refl refl))
      (Ascending-all_pairs (y ∷ xs) (λ i j u v l. a (suc i) (suc j) u v (omega arith)))

-- `strictly_increasing`, which looks at neighbours, holds exactly where of any two entries the first is
-- less.
pub strictly_increasing-Ascending :
    (xs : List ℕ)
    → (strictly_increasing xs ≡ true → Ascending xs)
      × (Ascending xs → strictly_increasing xs ≡ true)
unfolding strictly_increasing
strictly_increasing-Ascending xs = (all_pairs-Ascending xs, Ascending-all_pairs xs)
