-- ===== src/Http/Attempts.antt =====
-- One try of a request of class Server: how long it takes at least, and what it ends with.
use op_test.Prelude.{
  ℕ, ◌+◌, ◌≤◌, ◌≡◌, ◌≢◌, refl, sym, subst, true, false, not, Option, none, some, String, ◌==◌,
  arith,
}
use op_test.Exec.{Result, ok, err, pure, raise, ◌>>=◌, ◌>>◌}
use op_test.Exec.Keeps.{Keeps, Keeps-modify, Keeps-pure, Keeps-raise, keeps_rules}
use op_test.Exec.Triple.{
  Ends, Triple, Triple-pure, Triple-raise, Triple-if, Triple-modify, Triple-bind, Triple-catching,
  Triple-self, Triple-kept, Triple-pre, Triple-weaken,
}
use op_test.Exceptions.{OpException, http_check}
use op_test.Json.{Json}
use op_test.Json.Kept.{json_rules}
use op_test.Http.{
  Verb, post_it, Request, Response, HttpSession, Server, codes_ok, codes_unauthorized,
  or_value_error, json_of, on_session, pause, not_ok, send_once, keep_token, take_cookie,
  check_status, login_as, login, later, judge, judged, try_once, session_token,
}

-- A request takes at least a millisecond, also when it raises, and a sleep takes its time.
pub record HasClock {W : Type 0} (session : HttpSession W) : Type 0 where
  pub request_later :
      (verb : Verb) (url : String) (req : Request) (t : ℕ)
      → Triple
          (λ w. t ≤ session.now w)
          (λ r w. t + 1 ≤ session.now w)
          (λ e w. t + 1 ≤ session.now w)
          (session.request verb url req)
  pub sleep_later : (ms : ℕ) (w : W) → session.now w + ms ≤ session.now (session.sleep ms w)

-- What a request may return: with `minutes` an answer that is ok, without any but unauthorized.
abbrev pub Fits : Option ℕ → Response → Type 0
Fits (some minutes) r = r.status_code ≡ codes_ok
Fits none r = r.status_code ≢ codes_unauthorized

abbrev pub FitsAny : Option ℕ → Option Response → Type 0
FitsAny minutes none = Unit
FitsAny minutes (some r) = Fits minutes r

module _ {W : Type 0} (session : HttpSession W) (timed : HasClock session) where
  abbrev pub At : ℕ → Server W → Type 0
  At t s = t ≤ session.now s.world

  lifted :
      {A : Type 0} (t : ℕ) (r : Result OpException A) (s : Server W)
      → Ends (λ a w. t ≤ session.now w) (λ e w. t ≤ session.now w) r s.world
      → Ends (λ a. At t) (λ e. At t) r s
  lifted t (ok a) s h = h
  lifted t (err e) s h = h

  send_later :
      (verb : Verb) (req : Request) (t : ℕ)
      → Triple (At t) (λ r. At (t + 1)) (λ e. At (t + 1)) (send_once session verb req)
  unfolding send_once on_session ◌>>=◌
  send_later verb req t = record {
    at = λ s p.
        let step = session.request verb _ req s.world in
        lifted (t + 1) step.0 (record s { world = step.1 })
          ((timed.request_later verb _ req t).at s.world p);
  }

  keep_token-Keeps : (t : ℕ) (found : Option String) → Keeps (At t) (keep_token session found)
  keep_token-Keeps t none = Keeps-pure tt
  keep_token-Keeps t (some w) = Keeps-modify _ (λ s p. p)

  take_cookie-Keeps : (t : ℕ) (cookie : Option String) → Keeps (At t) (take_cookie session cookie)
  take_cookie-Keeps t none = Keeps-raise _
  take_cookie-Keeps t (some cookie) = keep_token-Keeps t (session_token cookie)

  or_value_error-Keeps :
      (t : ℕ) (body : Option Json) → Keeps {S = Server W} (At t) (or_value_error body)
  or_value_error-Keeps t none = Keeps-raise _
  or_value_error-Keeps t (some v) = Keeps-pure v

  ruleset login_steps = (take_cookie-Keeps, or_value_error-Keeps)

  check_status-Keeps : (t : ℕ) (v : Json) → Keeps (At t) (check_status session v)
  check_status-Keeps t v = search (login_steps, json_rules, keeps_rules) depth 12

  after_login-Keeps :
      (t : ℕ) (r : Response)
      → Keeps (At t) (do
        take_cookie session r.set_cookie
        json_data ← json_of r
        check_status session json_data
        pure r)
  after_login-Keeps t r = search (login_steps, check_status-Keeps, keeps_rules) depth 12

  -- A login that fails raises HTTPCheck, whatever its cause.
  login_as-Later :
      (username password : String) (t : ℕ)
      → Triple
          (At t)
          (λ r. At (t + 1))
          (λ e s. At (t + 1) s × (e ≡ http_check))
          (login_as session username password)
  unfolding login_as
  login_as-Later username password t =
      Triple-catching {D = λ e. At (t + 1)} _ _
        (Triple-bind {R = λ r. At (t + 1)} _ _ (send_later post_it _ t) (λ r.
          Triple-if (not (r.status_code == codes_ok)) (raise http_check) _
            (λ e. Triple-raise _ (λ x q. q)) (λ e. Triple-kept (after_login-Keeps (t + 1) r))))
        (λ e. Triple-raise http_check (λ x q. (q, refl)))

  login-Later :
      (username password : Option String) (t : ℕ)
      → Triple
          (At t)
          (λ r. At (t + 1))
          (λ e s. At (t + 1) s × (e ≡ http_check))
          (login session username password)
  unfolding login
  login-Later username password t =
      Triple-self _ (λ s p. Triple-pre (λ x e. subst (At t) (sym e) p) (login_as-Later _ _ t))

  pause_later :
      {E : OpException → Server W → Type 0} (ms t : ℕ)
      → Triple (At t) (λ a. At (t + ms)) E (pause session ms)
  unfolding pause
  pause_later ms t = Triple-modify _ (λ s p. omega (arith, timed.sleep_later ms s.world, p))

  -- What a try ends with
  abbrev pub Goes : Option ℕ → ℕ → Option Response → Server W → Type 0
  Goes minutes t found s = FitsAny minutes found × At (t + 1) s

  -- Only a request without `minutes` raises.
  abbrev pub Unretried : Option ℕ → OpException → Server W → Type 0
  Unretried minutes e s = minutes ≡ none

  pause_then :
      (minutes : Option ℕ) (t : ℕ)
      → Triple (At t) (Goes minutes t) (Unretried minutes) (do pause session 5000; pure none)
  pause_then minutes t =
      Triple-bind _ _ (pause_later 5000 t) (λ a. Triple-pure none (λ s p. (tt, omega (arith, p))))

  later-Goes :
      (minutes : Option ℕ) (e : OpException) (t : ℕ)
      → Triple (At t) (Goes minutes t) (Unretried minutes) (later session minutes e)
  unfolding later
  later-Goes none e t = Triple-raise e (λ s p. refl)
  later-Goes (some m) e t = pause_then (some m) t

  not_ok-Goes :
      (minutes : Option ℕ) (r : Response) (t : ℕ)
      → (r.status_code == codes_unauthorized) ≡ false
      → Triple (At (t + 1)) (Goes minutes t) (Unretried minutes) (not_ok session minutes r)
  unfolding not_ok
  not_ok-Goes none r t h = Triple-pure (some r) (λ s p. (λ e. ground (arith, h, e), p))
  not_ok-Goes (some m) r t h =
      Triple-weaken (λ a s q. (q.0, omega (arith, q.1))) (λ e s q. q) (pause_then (some m) (t + 1))

  login_again :
      (t : ℕ) → Triple (At (t + 1)) (λ r. At (t + 1)) (λ e. At (t + 1)) (login session none none)
  login_again t =
      Triple-weaken (λ a s q. omega (arith, q)) (λ e s q. omega (arith, q.0))
        (login-Later none none (t + 1))

  ok_Fits :
      (minutes : Option ℕ) (r : Response) → (r.status_code == codes_ok) ≡ true → Fits minutes r
  ok_Fits none r h = λ e. ground (arith, h, e)
  ok_Fits (some m) r h = ground (arith, h)

  judge-Goes :
      (minutes : Option ℕ) (r : Response) (t : ℕ)
      → Triple (At (t + 1)) (Goes minutes t) (Unretried minutes) (judge session minutes r)
  unfolding judge
  judge-Goes minutes r t =
      Triple-if (r.status_code == codes_unauthorized) _ _
        (λ e.
          Triple-catching {D = λ x. At (t + 1)} _ _
            (Triple-bind {R = λ a. At (t + 1)} _ _ (login_again t)
              (λ a. Triple-pure none (λ s p. (tt, p))))
            (λ x. again x))
        (λ e.
          Triple-if (r.status_code == codes_ok) _ _
            (λ ok. Triple-pure (some r) (λ s p. (ok_Fits minutes r ok, p)))
            (λ other. not_ok-Goes minutes r t e))
    where
      again :
          (x : OpException)
          → Triple (At (t + 1)) (Goes minutes t) (Unretried minutes) (later session minutes x)
      again x =
          Triple-weaken (λ a s q. (q.0, omega (arith, q.1))) (λ e s q. q)
            (later-Goes minutes x (t + 1))

  judged-Goes :
      (minutes : Option ℕ) (found : Option Response) (t : ℕ)
      → Triple (At (t + 1)) (Goes minutes t) (Unretried minutes) (judged session minutes found)
  judged-Goes minutes none t = Triple-pure none (λ s p. (tt, p))
  judged-Goes minutes (some r) t = judge-Goes minutes r t

  pub try_once-Goes :
      (verb : Verb) (req : Request) (t : ℕ)
      → Triple (At t) (Goes req.minutes t) (Unretried req.minutes) (try_once session verb req)
  unfolding try_once
  try_once-Goes verb req t =
      Triple-bind {R = λ found. At (t + 1)} _ _
        (Triple-catching {D = λ x. At (t + 1)} _ _
          (Triple-bind _ _ (send_later verb req t) (λ r. Triple-pure (some r) (λ s p. p)))
          (λ x.
            Triple-weaken (λ a s q. omega (arith, q.1)) (λ e s q. q)
              (later-Goes req.minutes x (t + 1))))
        (λ found. judged-Goes req.minutes found t)
