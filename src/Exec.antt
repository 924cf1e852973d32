-- ===== src/Exec.antt =====
-- Python methods that change an object and may raise: an action takes the object and returns the
-- result, or the exception, beside the object as it was left.
pub mod Keeps
pub mod Post
pub mod Raises
pub mod Safe
pub mod Triple
use mathlib.Core.Path.{◌≡◌, refl}

pub data Result {ℓ} (E A : Type ℓ) : Type ℓ where
  ok : A → Result E A
  err : E → Result E A

abbrev pub Exec {ℓ} : Type ℓ → Type ℓ → Type ℓ → Type ℓ
Exec S E A = S → Result E A × S

module _ {ℓ} {S E A : Type ℓ} where
  pub pure : A → Exec S E A
  pure a s = (ok a, s)

  pub raise : E → Exec S E A
  raise e s = (err e, s)

  pub gets : (S → A) → Exec S E A
  gets f s = (ok (f s), s)

  abbrev pub handled : Result E A → (E → Exec S E A) → Exec S E A
  handled (ok a) h s = (ok a, s)
  handled (err e) h s = h e s

  -- `try: m` with the handler `h`, which raises again what it does not catch. What `m` wrote stays.
  pub catching : Exec S E A → (E → Exec S E A) → Exec S E A
  catching m h s = let (r, s') = m s in handled r h s'

module _ {ℓ} {S E : Type ℓ} where
  pub modify : (S → S) → Exec S E Unit
  modify f s = (ok tt, f s)

module _ {ℓ} {S E A B : Type ℓ} where
  abbrev pub continue : Result E A → (A → Exec S E B) → Exec S E B
  continue (ok a) f s = f a s
  continue (err e) f s = (err e, s)

  infixl 10 ◌>>=◌ ◌>>◌
  -- Opening this opens the other actions too.
  unfoldable pub ◌>>=◌ : Exec S E A → (A → Exec S E B) → Exec S E B
  unfolding pure raise gets catching modify
  ◌>>=◌ m f s = let (r, s') = m s in continue r f s'

  abbrev pub ◌>>◌ : Exec S E A → Exec S E B → Exec S E B
  m >> n = m >>= λ _. n
