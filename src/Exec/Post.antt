-- ===== src/Exec/Post.antt =====
-- What an action returns: a precondition and a postcondition of the result and of the object, where
-- the action does not raise. The rules follow the ways to build an action, as those of `Keeps` do.
use op_test.Prelude.{Bool, true, false, if◌then◌else◌}
use op_test.Exec.{Exec, Result, ok, err, pure, raise, catching, handled, continue, ◌>>=◌}
use op_test.Exec.Keeps.{Keeps}

abbrev pub Returns {ℓ} : {S E A : Type ℓ} → (A → S → Type ℓ) → Result E A → S → Type ℓ
Returns Q (ok a) s = Q a s
Returns Q (err e) s = Unit

pub record Post {ℓ} {S E A : Type ℓ} (P : S → Type ℓ) (Q : A → S → Type ℓ) (m : Exec S E A)
    : Type ℓ where
  pub at : (s : S) → P s → Returns Q (m s).0 (m s).1

module _ {ℓ} {S E A : Type ℓ} {P : S → Type ℓ} {Q : A → S → Type ℓ} where
  pub Post-pure : (a : A) → ((s : S) → P s → Q a s) → Post {E = E} P Q (pure a)
  unfolding pure
  Post-pure a q = record { at = q }

  pub Post-raise : (e : E) → Post P Q (raise e)
  unfolding raise
  Post-raise e = record { at = λ s h. tt }

  pub Post-if :
      (b : Bool) (m n : Exec S E A) → Post P Q m → Post P Q n → Post P Q (if b then m else n)
  Post-if true m n pm pn = pm
  Post-if false m n pm pn = pn

  handled-Post :
      (h : E → Exec S E A)
      → ((e : E) → Post P Q (h e))
      → (r : Result E A) (s : S) → P s
      → Returns Q r s
      → Returns Q (handled r h s).0 (handled r h s).1
  handled-Post h ph (ok a) s p q = q
  handled-Post h ph (err e) s p q = (ph e).at s p

  pub Post-catching :
      (m : Exec S E A) (h : E → Exec S E A)
      → Keeps P m
      → Post P Q m
      → ((e : E) → Post P Q (h e))
      → Post P Q (catching m h)
  unfolding catching
  Post-catching m h km pm ph = record {
    at = λ s p. let (r, s') = m s in handled-Post h ph r s' (km.at s p) (pm.at s p);
  }

module _ {ℓ} {S E A B : Type ℓ} {P : S → Type ℓ} {Q : B → S → Type ℓ} where
  continue-Post :
      (f : A → Exec S E B)
      → ((a : A) → Post P Q (f a))
      → (r : Result E A) (s : S) → P s
      → Returns Q (continue r f s).0 (continue r f s).1
  continue-Post f pf (ok a) s p = (pf a).at s p
  continue-Post f pf (err e) s p = tt

  -- The first part keeps the precondition.
  pub Post-bind :
      (m : Exec S E A) (f : A → Exec S E B)
      → Keeps P m
      → ((a : A) → Post P Q (f a))
      → Post P Q (m >>= f)
  unfolding ◌>>=◌
  Post-bind m f km pf = record {
    at = λ s h. let (r, s') = m s in continue-Post f pf r s' (km.at s h);
  }

module _ {ℓ} {S E A B : Type ℓ} {R : A → S → Type ℓ} {Q : B → S → Type ℓ} where
  continue-then :
      (f : A → Exec S E B)
      → ((a : A) → Post (R a) Q (f a))
      → (r : Result E A) (s : S) → Returns R r s
      → Returns Q (continue r f s).0 (continue r f s).1
  continue-then f pf (ok a) s h = (pf a).at s h
  continue-then f pf (err e) s h = tt

  -- The first part has a postcondition of its own.
  pub Post-then :
      {P : S → Type ℓ} (m : Exec S E A) (f : A → Exec S E B)
      → Post P R m
      → ((a : A) → Post (R a) Q (f a))
      → Post P Q (m >>= f)
  unfolding ◌>>=◌
  Post-then m f pm pf = record {
    at = λ s h. let (r, s') = m s in continue-then f pf r s' (pm.at s h);
  }

pub Returns-weaken {ℓ} :
    {S E A : Type ℓ} (Q Q' : A → S → Type ℓ)
    → ((a : A) (s : S) → Q a s → Q' a s)
    → (r : Result E A) (s : S) → Returns Q r s
    → Returns Q' r s
Returns-weaken Q Q' w (ok a) s h = w a s h
Returns-weaken Q Q' w (err e) s h = tt

pub Returns-both {ℓ} :
    {S E A : Type ℓ} (Q Q' : A → S → Type ℓ) (s : S) (r : Result E A)
    → Returns Q r s
    → Returns Q' r s
    → Returns (λ a s. Q a s × Q' a s) r s
Returns-both Q Q' s (ok a) h k = (h, k)
Returns-both Q Q' s (err e) h k = tt

pub Post-weaken {ℓ} :
    {S E A : Type ℓ} {P : S → Type ℓ} {Q Q' : A → S → Type ℓ} {m : Exec S E A}
    → ((a : A) (s : S) → Q a s → Q' a s)
    → Post P Q m
    → Post P Q' m
Post-weaken {m = m} w h = record {
  at = λ s q. let (r, s') = m s in Returns-weaken _ _ w r s' (h.at s q);
}

pub ruleset post_rules = (Post-pure, Post-raise, Post-if, Post-catching, Post-bind)
