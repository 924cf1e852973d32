-- ===== src/Http/Outcome.antt =====
-- What a request of class Server returns, and what it raises.
use op_test.Prelude.{
  ℕ, zero, suc, ◌*◌, ◌<◌, ◌≡◌, refl, subst, ◌⊎◌, inl, inr, Option, none, some, ltb, arith,
}
use op_test.Exec.{raise, ◌>>=◌}
use op_test.Exec.Triple.{
  Ends, Triple, Triple-pure, Triple-raise, Triple-if, Triple-bind, Triple-read, Triple-weaken,
  Triple-pre,
}
use op_test.Exceptions.{OpException, http_check}
use op_test.Http.{
  Verb, Request, Response, HttpSession, Server, Act, clock, try_once, or_go_on, loop_rounds,
  loop_minutes, loop_it,
}
use op_test.Http.Attempts.{HasClock, Fits, Goes, try_once-Goes}
use op_test.Http.Bound.{loop_it_ends}

module _ {W : Type 0} (session : HttpSession W) (timed : HasClock session) (req : Request) where
  abbrev pub Answers : Response → Server W → Type 0
  Answers r s = Fits req.minutes r

  -- A request with `minutes` raises nothing else.
  abbrev pub Fails : OpException → Server W → Type 0
  Fails e s = (req.minutes ≡ none) ⊎ (e ≡ http_check)

  abbrev Ok : Act W Response → Type 0
  Ok m = Triple (λ s. Unit) Answers Fails m

  found-Ok :
      (rest : Act W Response) (t : ℕ) (found : Option Response)
      → Ok rest
      → Triple (Goes session timed req.minutes t found) Answers Fails (or_go_on session rest found)
  found-Ok rest t none h = Triple-pre (λ s q. tt) h
  found-Ok rest t (some r) h = Triple-pure r (λ s q. q.0)

  go_on-Ok :
      (verb : Verb) (rest : Act W Response)
      → Ok rest
      → Ok (try_once session verb req >>= or_go_on session rest)
  go_on-Ok verb rest h =
      Triple-bind _ _
        (Triple-weaken (λ a s q. q) (λ e s q. inl q)
          (Triple-pre (λ s q. omega arith) (try_once-Goes session timed verb req 0)))
        (λ found. found-Ok rest 0 found h)

  rounds-Ok :
      (rounds : ℕ) (verb : Verb) (loop_time : ℕ)
      → Ok (loop_rounds session (raise http_check) rounds verb req loop_time)
  unfolding loop_rounds clock
  rounds-Ok zero verb loop_time = Triple-raise _ (λ s q. inr refl)
  rounds-Ok (suc rounds) verb loop_time = Triple-read _ _ (λ t.
      Triple-if (ltb loop_time t) _ _ (λ e. Triple-raise http_check (λ s q. inr refl))
        (λ e. go_on-Ok verb _ (rounds-Ok rounds verb loop_time)))

  looped : (rounds : ℕ) (verb : Verb) → Ok (loop_it session (raise http_check) rounds verb req)
  unfolding loop_it clock
  looped rounds verb = Triple-read _ _ (λ t. rounds-Ok rounds verb _)

  -- Where a request takes a millisecond at least and a sleep its time, `loop_it` comes to an end in the
  -- rounds that its minutes leave. With minutes it returns an answer that is ok, or raises HTTPCheck;
  -- without any, what it returns is not an answer that asks for a login.
  pub loop_it_outcome :
      (stuck : Act W Response) (rounds : ℕ) (verb : Verb) (s : Server W)
      → 60000 * loop_minutes session req.minutes < rounds
      → Ends Answers Fails
          (loop_it session stuck (suc rounds) verb req s).0
          (loop_it session stuck (suc rounds) verb req s).1
  loop_it_outcome stuck rounds verb s h =
      subst (λ end. Ends Answers Fails end.0 end.1)
        (loop_it_ends session timed (raise http_check) stuck rounds verb req s h)
        ((looped (suc rounds) verb).at s tt)
