-- ===== src/Exec/Keeps.antt =====
-- Invariants of actions: one rule for each way to build an action.
use op_test.Prelude.{Bool, true, false, if◌then◌else◌}
use op_test.Exec.{
  Exec, Result, ok, err, pure, raise, gets, modify, catching, handled, continue, ◌>>=◌,
}

-- The predicate holds after the action where it held before, also when the action raises.
pub record Keeps {ℓ} {S E A : Type ℓ} (Inv : S → Type ℓ) (action : Exec S E A) : Type ℓ where
  pub at : (before : S) → Inv before → Inv (action before).1

module _ {ℓ} {S E : Type ℓ} {Inv : S → Type ℓ} where
  pub Keeps-modify :
      (write : S → S) → ((s : S) → Inv s → Inv (write s)) → Keeps {E = E} Inv (modify write)
  unfolding modify
  Keeps-modify write kept = record { at = kept }

  module _ {A : Type ℓ} where
    pub Keeps-gets : (read : S → A) → Keeps {E = E} Inv (gets read)
    unfolding gets
    Keeps-gets read = record { at = λ _ i. i }

    pub Keeps-raise : (e : E) → Keeps {A = A} Inv (raise e)
    unfolding raise
    Keeps-raise e = record { at = λ _ i. i }

    pub Keeps-pure : (a : A) → Keeps {E = E} Inv (pure a)
    unfolding pure
    Keeps-pure a = record { at = λ _ i. i }

    handled-Keeps :
        (handler : E → Exec S E A)
        → ((e : E) → Keeps Inv (handler e))
        → (r : Result E A) → Keeps Inv (handled r handler)
    handled-Keeps handler kept (ok a) = record { at = λ _ i. i }
    handled-Keeps handler kept (err e) = kept e

    pub Keeps-catching :
        (body : Exec S E A) (handler : E → Exec S E A)
        → Keeps Inv body
        → ((e : E) → Keeps Inv (handler e))
        → Keeps Inv (catching body handler)
    unfolding catching
    Keeps-catching body handler kb kh = record {
      at = λ s i. (handled-Keeps handler kh (body s).0).at (body s).1 (kb.at s i);
    }

    pub Keeps-if :
        (test : Bool) (first other : Exec S E A)
        → Keeps Inv first
        → Keeps Inv other
        → Keeps Inv (if test then first else other)
    Keeps-if true first other ky kn = ky
    Keeps-if false first other ky kn = kn

    module _ {B : Type ℓ} (rest : A → Exec S E B) (kept : (a : A) → Keeps Inv (rest a)) where
      continue-Keeps : (r : Result E A) → Keeps Inv (continue r rest)
      continue-Keeps (ok a) = kept a
      continue-Keeps (err e) = record { at = λ _ i. i }

      bound-Keeps : (action : Exec S E A) → Keeps Inv action → Keeps Inv (action >>= rest)
      unfolding ◌>>=◌
      bound-Keeps action ka = record {
        at = λ s i. (continue-Keeps (action s).0).at (action s).1 (ka.at s i);
      }

    pub Keeps-bind :
        {B : Type ℓ} (action : Exec S E A) (rest : A → Exec S E B)
        → Keeps Inv action
        → ((a : A) → Keeps Inv (rest a))
        → Keeps Inv (action >>= rest)
    Keeps-bind action rest ka kept = bound-Keeps rest kept action ka

pub ruleset keeps_rules =
    (Keeps-bind, Keeps-if, Keeps-catching, Keeps-modify, Keeps-gets, Keeps-raise, Keeps-pure)
