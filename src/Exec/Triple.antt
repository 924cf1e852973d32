-- ===== src/Exec/Triple.antt =====
-- What an action returns and what it raises: a precondition with a postcondition for each end.
use op_test.Prelude.{Bool, true, false, ◌≡◌, refl, if◌then◌else◌}
use op_test.Exec.Keeps.{Keeps}
use op_test.Exec.{
  Exec, Result, ok, err, pure, raise, gets, modify, catching, handled, continue, ◌>>=◌,
}

-- The postcondition of the end that this is.
abbrev pub Ends {ℓ} :
    {S X A : Type ℓ} → (A → S → Type ℓ) → (X → S → Type ℓ) → Result X A → S → Type ℓ
Ends Q E (ok a) s = Q a s
Ends Q E (err e) s = E e s

pub record Triple {ℓ} {S X A : Type ℓ} (P : S → Type ℓ) (Q : A → S → Type ℓ) (E : X → S → Type ℓ)
    (m : Exec S X A) : Type ℓ where
  pub at : (s : S) → P s → Ends Q E (m s).0 (m s).1

module _ {ℓ} {S X A : Type ℓ} {Q : A → S → Type ℓ} {D E : X → S → Type ℓ} (h : X → Exec S X A)
    (th : (e : X) → Triple (D e) Q E (h e)) where
  handled-Ends :
      (r : Result X A) (s : S) → Ends Q D r s → Ends Q E (handled r h s).0 (handled r h s).1
  handled-Ends (ok a) s q = q
  handled-Ends (err e) s d = (th e).at s d

module _ {ℓ} {S X A : Type ℓ} {P : S → Type ℓ} {Q : A → S → Type ℓ} {E : X → S → Type ℓ} where
  pub Triple-pure : (a : A) → ((s : S) → P s → Q a s) → Triple P Q E (pure a)
  unfolding pure
  Triple-pure a q = record { at = q }

  pub Triple-raise : (e : X) → ((s : S) → P s → E e s) → Triple P Q E (raise e)
  unfolding raise
  Triple-raise e q = record { at = q }

  -- The branches may use the value of the test.
  pub Triple-if :
      (b : Bool) (m n : Exec S X A)
      → (b ≡ true → Triple P Q E m)
      → (b ≡ false → Triple P Q E n)
      → Triple P Q E (if b then m else n)
  Triple-if true m n tm tn = tm refl
  Triple-if false m n tm tn = tn refl

  -- An action from a state that is known.
  pub Triple-from : (m : Exec S X A) → ((s : S) → P s → Triple (λ x. x ≡ s) Q E m) → Triple P Q E m
  Triple-from m h = record { at = λ s p. (h s p).at s refl }

  -- The handler begins where the body raised.
  pub Triple-catching :
      {D : X → S → Type ℓ} (m : Exec S X A) (h : X → Exec S X A)
      → Triple P Q D m
      → ((e : X) → Triple (D e) Q E (h e))
      → Triple P Q E (catching m h)
  unfolding catching
  Triple-catching m h tm th = record { at = λ s p. handled-Ends h th (m s).0 (m s).1 (tm.at s p) }

pub Triple-modify {ℓ} :
    {S X : Type ℓ} {P : S → Type ℓ} {Q : Unit → S → Type ℓ} {E : X → S → Type ℓ} (f : S → S)
    → ((s : S) → P s → Q tt (f s))
    → Triple P Q E (modify f)
unfolding modify
Triple-modify f q = record { at = q }

either-Ends {ℓ} :
    {S X A : Type ℓ} (r : Result X A) (s : S) → Ends (λ _ _. Unit {ℓ}) (λ _ _. Unit {ℓ}) r s
either-Ends (ok a) s = tt
either-Ends (err e) s = tt

-- Of an action that is not looked into: nothing is known after it.
pub Triple-any {ℓ} :
    {S X A : Type ℓ} {P : S → Type ℓ} (m : Exec S X A)
    → Triple P (λ _ _. Unit {ℓ}) (λ _ _. Unit {ℓ}) m
Triple-any m = record { at = λ s p. either-Ends (m s).0 (m s).1 }

module _ {ℓ} {S X A B : Type ℓ} {R : A → S → Type ℓ} {Q : B → S → Type ℓ} {E : X → S → Type ℓ} where
  module _ (f : A → Exec S X B) (tf : (a : A) → Triple (R a) Q E (f a)) where
    continue-Ends :
        (r : Result X A) (s : S) → Ends R E r s → Ends Q E (continue r f s).0 (continue r f s).1
    continue-Ends (ok a) s q = (tf a).at s q
    continue-Ends (err e) s d = d

  pub Triple-bind :
      {P : S → Type ℓ} (m : Exec S X A) (f : A → Exec S X B)
      → Triple P R E m
      → ((a : A) → Triple (R a) Q E (f a))
      → Triple P Q E (m >>= f)
  unfolding ◌>>=◌
  Triple-bind m f tm tf = record { at = λ s p. continue-Ends f tf (m s).0 (m s).1 (tm.at s p) }

pub Ends-weaken {ℓ} :
    {S X A : Type ℓ} {Q R : A → S → Type ℓ} {D E : X → S → Type ℓ}
    → ((a : A) (s : S) → Q a s → R a s)
    → ((e : X) (s : S) → D e s → E e s)
    → (r : Result X A) (s : S) → Ends Q D r s
    → Ends R E r s
Ends-weaken v w (ok a) s q = v a s q
Ends-weaken v w (err e) s d = w e s d

-- What holds at both ends holds of the object.
pub Ends-both {ℓ} :
    {S X A : Type ℓ} (Q : S → Type ℓ) (r : Result X A) (s : S) → Ends (λ _. Q) (λ _. Q) r s → Q s
Ends-both Q (ok a) s q = q
Ends-both Q (err e) s q = q

pub Triple-weaken {ℓ} :
    {S X A : Type ℓ} {P : S → Type ℓ} {Q R : A → S → Type ℓ} {D E : X → S → Type ℓ} {m : Exec S X A}
    → ((a : A) (s : S) → Q a s → R a s)
    → ((e : X) (s : S) → D e s → E e s)
    → Triple P Q D m
    → Triple P R E m
Triple-weaken {m = m} v w h = record { at = λ s p. Ends-weaken v w (m s).0 (m s).1 (h.at s p) }

-- `s ← gets (λ s. s)`: what follows begins at the object that it is given.
pub Triple-self {ℓ} :
    {S X B : Type ℓ} {P : S → Type ℓ} {Q : B → S → Type ℓ} {E : X → S → Type ℓ} (f : S → Exec S X B)
    → ((s : S) → P s → Triple (λ x. x ≡ s) Q E (f s))
    → Triple P Q E (gets (λ s. s) >>= f)
unfolding ◌>>=◌
Triple-self f h = record { at = λ s p. (h s p).at s refl }

-- A result says nothing of what the object keeps.
pub Ends-kept {ℓ} :
    {S X A : Type ℓ} (Q : S → Type ℓ) (r : Result X A) (s : S) → Q s → Ends (λ _. Q) (λ _. Q) r s
Ends-kept Q (ok a) s q = q
Ends-kept Q (err e) s q = q

-- The same where only the precondition is used.
pub Triple-read {ℓ} :
    {S X A B : Type ℓ} {P : S → Type ℓ} {Q : B → S → Type ℓ} {E : X → S → Type ℓ} (g : S → A)
    (f : A → Exec S X B)
    → ((a : A) → Triple P Q E (f a))
    → Triple P Q E (gets g >>= f)
unfolding ◌>>=◌
Triple-read g f h = record { at = λ s p. (h (g s)).at s p }

pub Triple-pre {ℓ} :
    {S X A : Type ℓ} {P R : S → Type ℓ} {Q : A → S → Type ℓ} {E : X → S → Type ℓ} {m : Exec S X A}
    → ((s : S) → P s → R s)
    → Triple R Q E m
    → Triple P Q E m
Triple-pre f h = record { at = λ s p. h.at s (f s p) }

continue-agree {ℓ} :
    {S X A B : Type ℓ} (R : A → S → Type ℓ) (E : X → S → Type ℓ) (f g : A → Exec S X B)
    → ((a : A) (s : S) → R a s → f a s ≡ g a s)
    → (r : Result X A) (s : S) → Ends R E r s
    → continue r f s ≡ continue r g s
continue-agree R E f g h (ok a) s q = h a s q
continue-agree R E f g h (err e) s q = refl

-- Two ends of a block agree where they agree on what its first part may return.
pub bind-agree {ℓ} :
    {S X A B : Type ℓ} {P : S → Type ℓ} {R : A → S → Type ℓ} {E : X → S → Type ℓ} {m : Exec S X A}
    (f g : A → Exec S X B)
    → Triple P R E m
    → ((a : A) (s : S) → R a s → f a s ≡ g a s)
    → (s : S) → P s
    → (m >>= f) s ≡ (m >>= g) s
unfolding ◌>>=◌
bind-agree {R = R} {E = E} {m = m} f g t h s p = continue-agree R E f g h (m s).0 (m s).1 (t.at s p)

-- An invariant of the action holds at both ends.
pub Triple-kept {ℓ} :
    {S X A : Type ℓ} {P : S → Type ℓ} {m : Exec S X A} → Keeps P m → Triple P (λ _. P) (λ _. P) m
Triple-kept {P = P} {m = m} k = record { at = λ s p. Ends-kept P (m s).0 (m s).1 (k.at s p) }
