-- ===== src/Exec/Safe.antt =====
-- An invariant of an action together with what the action raises, where the exceptions depend on the
-- invariant.
use op_test.Prelude.{Bool, if◌then◌else◌}
use op_test.Exec.{Exec, Result, ok, err, handled, pure, raise, gets, modify, catching, ◌>>=◌}
use op_test.Exec.Keeps.{
  Keeps, Keeps-modify, Keeps-gets, Keeps-pure, Keeps-raise, Keeps-if, Keeps-bind,
}
use op_test.Exec.Raises.{
  Raises, Raises-modify, Raises-gets, Raises-pure, Raises-raise, Raises-if, Raises-catching,
  Raises-bind, Blames,
}

pub record Safe {ℓ} {S E A : Type ℓ} (P : S → Type ℓ) (Q : E → Type ℓ) (m : Exec S E A)
    : Type ℓ where
  pub keeps : Keeps P m
  pub raises : Raises P Q m

module _ {ℓ} {S E : Type ℓ} {P : S → Type ℓ} {Q : E → Type ℓ} where
  pub Safe-modify : (f : S → S) → ((s : S) → P s → P (f s)) → Safe P Q (modify f)
  Safe-modify f k = record { keeps = Keeps-modify f k; raises = Raises-modify f }

  module _ {A : Type ℓ} where
    pub Safe-gets : (f : S → A) → Safe P Q (gets f)
    Safe-gets f = record { keeps = Keeps-gets f; raises = Raises-gets f }

    pub Safe-pure : (a : A) → Safe P Q (pure a)
    Safe-pure a = record { keeps = Keeps-pure a; raises = Raises-pure a }

    pub Safe-raise : (e : E) → Q e → Safe {A = A} P Q (raise e)
    Safe-raise e q = record { keeps = Keeps-raise e; raises = Raises-raise e q }

    pub Safe-if :
        (b : Bool) (m n : Exec S E A) → Safe P Q m → Safe P Q n → Safe P Q (if b then m else n)
    Safe-if b m n sm sn = record {
      keeps = Keeps-if b m n sm.keeps sn.keeps;
      raises = Raises-if b m n sm.raises sn.raises;
    }

    handled_keeps :
        (h : E → Exec S E A)
        → ((e : E) → Q e → Safe P Q (h e))
        → (r : Result E A) (s : S) → P s
        → Blames Q r
        → P (handled r h s).1
    handled_keeps h sh (ok a) s p q = p
    handled_keeps h sh (err e) s p q = (sh e q).keeps.at s p

    caught :
        (m : Exec S E A) (h : E → Exec S E A)
        → Safe P Q m
        → ((e : E) → Q e → Safe P Q (h e))
        → Keeps P (catching m h)
    unfolding ◌>>=◌
    caught m h sm sh = record {
      at = λ s p. handled_keeps h sh (m s).0 (m s).1 (sm.keeps.at s p) (sm.raises.at s p);
    }

    -- The handler is given only what the body raises.
    pub Safe-catching :
        (m : Exec S E A) (h : E → Exec S E A)
        → Safe P Q m
        → ((e : E) → Q e → Safe P Q (h e))
        → Safe P Q (catching m h)
    Safe-catching m h sm sh = record {
      keeps = caught m h sm sh;
      raises = Raises-catching m h sm.keeps sm.raises (λ e q. (sh e q).raises);
    }

    pub Safe-bind :
        {B : Type ℓ} (m : Exec S E A) (f : A → Exec S E B)
        → Safe P Q m
        → ((a : A) → Safe P Q (f a))
        → Safe P Q (m >>= f)
    Safe-bind m f sm sf = record {
      keeps = Keeps-bind m f sm.keeps (λ a. (sf a).keeps);
      raises = Raises-bind m f sm.keeps sm.raises (λ a. (sf a).raises);
    }

pub ruleset safe_rules = (Safe-modify, Safe-gets, Safe-pure, Safe-raise, Safe-if, Safe-bind)
