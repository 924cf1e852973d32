-- ===== src/System/Measure.antt =====
-- How far the loop of `goto_state` is from its end: the retries that the watermarks leave, and the
-- place of the state on the way to the target.
use op_test.Prelude.{ℕ, ◌+◌, ◌-◌, ◌*◌, ◌≤◌, ◌<◌, ◌≡◌, refl, ◌≢◌, ◌⊎◌, inl, inr, arith}
use op_test.Exec.{pure}
use op_test.Exec.Post.{Post, Post-pure}
use op_test.Exceptions.{
  OpSystemState, unknown, off, ipling, petitboot, booting, os, powering_off, OpException,
}
use op_test.System.State.{OpTestSystem}
use op_test.System.Frame.{Stable}

-- The longest way to the target with no retry, the last round included.
abbrev rank_os : OpSystemState → ℕ
rank_os booting = 1
rank_os os = 1
rank_os petitboot = 2
rank_os ipling = 3
rank_os off = 4
rank_os powering_off = 5
rank_os _ = 6

abbrev rank_off : OpSystemState → ℕ
rank_off off = 1
rank_off powering_off = 2
rank_off booting = 4
rank_off _ = 3

abbrev rank_other : OpSystemState → ℕ
rank_other petitboot = 1
rank_other ipling = 2
rank_other off = 3
rank_other powering_off = 4
rank_other booting = 6
rank_other _ = 5

abbrev pub rank : OpSystemState → OpSystemState → ℕ
rank os st = rank_os st
rank off st = rank_off st
rank _ st = rank_other st

-- A retry is worth seven rounds: no way is longer than six.
pub rank-le : (target st : OpSystemState) → rank target st ≤ 6
rank-le target st = ground arith

module _ {W : Type 0} where
  abbrev pub retries : OpTestSystem W → ℕ
  retries s = (s.kill_cord - s.ipl_watermark) + (s.kill_cord - s.booting_watermark)

  abbrev pub measure : OpSystemState → OpSystemState → OpTestSystem W → ℕ
  measure target st s = 7 * retries s + rank target st

  -- The watermarks and the kill cord have these values.
  pub record Marks (i b k : ℕ) (s : OpTestSystem W) : Type 0 where
    pub ipl : s.ipl_watermark ≡ i
    pub boot : s.booting_watermark ≡ b
    pub cord : s.kill_cord ≡ k

  pub Marks-Stable : (i b k : ℕ) → Stable (Marks i b k)
  Marks-Stable i b k = record {
    shared = λ s sh h. record { ipl = h.ipl; boot = h.boot; cord = h.cord };
    stop = λ s h. record { ipl = h.ipl; boot = h.boot; cord = h.cord };
    ignore = λ s h. record { ipl = h.ipl; boot = h.boot; cord = h.cord };
    previous = λ s st h. record { ipl = h.ipl; boot = h.boot; cord = h.cord };
    cronus = λ s e c h. record { ipl = h.ipl; boot = h.boot; cord = h.cord };
  }

  -- What a handler may return from `st`: the target, UNKNOWN where it did not start there, or a
  -- state with a smaller measure.
  abbrev pub Progress :
      (target st : OpSystemState) (bound : ℕ) → OpSystemState → OpTestSystem W → Type 0
  Progress target st bound n s =
      (n ≡ target) ⊎ ((n ≡ unknown) × (st ≢ unknown)) ⊎ (measure target n s < bound)

-- The measure at `st` where the marks are these.
abbrev pub bound_at : (target st : OpSystemState) (i b k : ℕ) → ℕ
bound_at target st i b k = 7 * ((k - i) + (k - b)) + rank target st

module _ {W : Type 0} (target st : OpSystemState) (i b k : ℕ) where
  abbrev pub Advances : OpSystemState → OpTestSystem W → Type 0
  Advances = Progress target st (bound_at target st i b k)

  pub lower-Post :
      (n : OpSystemState)
      → rank target n < rank target st
      → Post {E = OpException} (Marks i b k) Advances (pure n)
  lower-Post n h = Post-pure n (λ s m. inr (inr (omega arith)))

  pub target-Post : Post {E = OpException} (Marks i b k) Advances (pure target)
  target-Post = Post-pure target (λ s m. inl refl)
