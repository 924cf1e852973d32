-- ===== src/Http/Bound.antt =====
-- How many tries `loop_it` makes, and what it ends with.
use op_test.Prelude.{
  ℕ, zero, suc, ◌+◌, ◌*◌, ◌<◌, ◌≤◌, ◌≡◌, refl, Bool, true, false, Option, none, some, ltb, ltb→le,
  arith, if◌then◌else◌,
}
use op_test.Exec.{raise, ◌>>=◌}
use op_test.Exec.Triple.{bind-agree}
use op_test.Exceptions.{http_check}
use op_test.Http.{
  Verb, Request, Response, HttpSession, Server, Act, clock, try_once, or_go_on, loop_rounds,
  loop_minutes, loop_it,
}
use op_test.Http.Attempts.{HasClock, try_once-Goes}

module _ {W : Type 0} (session : HttpSession W) (timed : HasClock session)
    (stuck other : Act W Response) (verb : Verb) (req : Request) (loop_time : ℕ) where
  -- What follows a try agrees where the next rounds do.
  after_try :
      (f g : Act W Response) (t : ℕ) (found : Option Response) (s : Server W)
      → ((v : Server W) → t + 1 ≤ session.now v.world → f v ≡ g v)
      → t + 1 ≤ session.now s.world
      → or_go_on session f found s ≡ or_go_on session g found s
  after_try f g t none s next h = next s h
  after_try f g t (some r) s next h = refl

  one_round :
      (late : Bool) (f g : Act W Response) (s : Server W)
      → (late ≡ false → (v : Server W) → session.now s.world + 1 ≤ session.now v.world → f v ≡ g v)
      → (if late then raise http_check else (try_once session verb req >>= or_go_on session f)) s
        ≡ (if late then raise http_check else (try_once session verb req >>= or_go_on session g)) s
  one_round true f g s next = refl
  one_round false f g s next =
      bind-agree {A = Option Response} (or_go_on session f) (or_go_on session g)
        (try_once-Goes session timed verb req (session.now s.world))
        (λ found v q. after_try f g (session.now s.world) found v (next refl) q.1) s (omega arith)

  enough :
      (rounds : ℕ) (s : Server W)
      → loop_time < session.now s.world + rounds
      → loop_rounds session stuck (suc rounds) verb req loop_time s
        ≡ loop_rounds session other (suc rounds) verb req loop_time s
  unfolding loop_rounds clock ◌>>=◌
  enough zero s h =
      one_round (ltb loop_time (session.now s.world)) _ _ s (λ e v k. elim (too_late e) [ ])
    where
      too_late : ltb loop_time (session.now s.world) ≡ false → ⊥
      too_late e = omega (arith, h, ltb→le loop_time (session.now s.world) e)
  enough (suc rounds) s h =
      one_round (ltb loop_time (session.now s.world)) _ _ s
        (λ e v k. enough rounds v (omega (arith, h, k)))

module _ {W : Type 0} (session : HttpSession W) (timed : HasClock session) where
  -- Where a request takes a millisecond at least and a sleep its time, `loop_it` makes no more tries
  -- than its minutes, five where it has none, have milliseconds, and two: with so many rounds the
  -- outcome does not depend on what follows when they run out.
  pub loop_it_ends :
      (stuck other : Act W Response) (rounds : ℕ) (verb : Verb) (req : Request) (s : Server W)
      → 60000 * loop_minutes session req.minutes < rounds
      → loop_it session stuck (suc rounds) verb req s
        ≡ loop_it session other (suc rounds) verb req s
  unfolding loop_it clock ◌>>=◌
  loop_it_ends stuck other rounds verb req s h =
      enough session timed stuck other verb req _ rounds s (omega (arith, h))
