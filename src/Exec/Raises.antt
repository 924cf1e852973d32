-- ===== src/Exec/Raises.antt =====
-- What an action raises: a precondition that its parts keep and a predicate of the exceptions, with one
-- rule for each way to build an action.
use op_test.Prelude.{Bool, true, false, if◌then◌else◌}
use op_test.Exec.{
  Exec, Result, ok, err, pure, raise, gets, modify, catching, handled, continue, ◌>>=◌,
}
use op_test.Exec.Keeps.{Keeps}

abbrev pub Blames {ℓ} : {E A : Type ℓ} → (E → Type ℓ) → Result E A → Type ℓ
Blames Q (ok a) = Unit
Blames Q (err e) = Q e

pub record Raises {ℓ} {S E A : Type ℓ} (P : S → Type ℓ) (Q : E → Type ℓ) (m : Exec S E A)
    : Type ℓ where
  pub at : (s : S) → P s → Blames Q (m s).0

module _ {ℓ} {S E : Type ℓ} {P : S → Type ℓ} {Q : E → Type ℓ} where
  pub Raises-modify : (f : S → S) → Raises P Q (modify f)
  unfolding modify
  Raises-modify f = record { at = λ s p. tt }

  module _ {A : Type ℓ} where
    pub Raises-gets : (f : S → A) → Raises P Q (gets f)
    unfolding gets
    Raises-gets f = record { at = λ s p. tt }

    pub Raises-pure : (a : A) → Raises P Q (pure a)
    unfolding pure
    Raises-pure a = record { at = λ s p. tt }

    pub Raises-raise : (e : E) → Q e → Raises {A = A} P Q (raise e)
    unfolding raise
    Raises-raise e q = record { at = λ s p. q }

    pub Raises-if :
        (b : Bool) (m n : Exec S E A)
        → Raises P Q m
        → Raises P Q n
        → Raises P Q (if b then m else n)
    Raises-if true m n rm rn = rm
    Raises-if false m n rm rn = rn

    handled-Blames :
        (h : E → Exec S E A)
        → ((e : E) → Q e → Raises P Q (h e))
        → (r : Result E A) (s : S) → P s
        → Blames Q r
        → Blames Q (handled r h s).0
    handled-Blames h rh (ok a) s p q = tt
    handled-Blames h rh (err e) s p q = (rh e q).at s p

    pub Raises-catching :
        (m : Exec S E A) (h : E → Exec S E A)
        → Keeps P m
        → Raises P Q m
        → ((e : E) → Q e → Raises P Q (h e))
        → Raises P Q (catching m h)
    unfolding catching
    Raises-catching m h km rm rh = record {
      at = λ s p. handled-Blames h rh (m s).0 (m s).1 (km.at s p) (rm.at s p);
    }

    module _ {B : Type ℓ} where
      continue-Blames :
          (f : A → Exec S E B)
          → ((a : A) → Raises P Q (f a))
          → (r : Result E A) (s : S) → P s
          → Blames Q r
          → Blames Q (continue r f s).0
      continue-Blames f rf (ok a) s p q = (rf a).at s p
      continue-Blames f rf (err e) s p q = q

      pub Raises-bind :
          (m : Exec S E A) (f : A → Exec S E B)
          → Keeps P m
          → Raises P Q m
          → ((a : A) → Raises P Q (f a))
          → Raises P Q (m >>= f)
      unfolding ◌>>=◌
      Raises-bind m f km rm rf = record {
        at = λ s p. continue-Blames f rf (m s).0 (m s).1 (km.at s p) (rm.at s p);
      }

-- Where nothing is assumed of the object
pub any-Keeps {ℓ} : {S E A : Type ℓ} (m : Exec S E A) → Keeps (λ _. Unit) m
any-Keeps m = record { at = λ s p. tt }

pub ruleset raises_rules =
    (Raises-modify, Raises-gets, Raises-pure, Raises-raise, Raises-if, Raises-catching, Raises-bind)
