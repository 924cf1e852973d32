-- ===== src/OpenBmc/Over/Told.antt =====
-- `wait_bmc` over a server whose answers tell the truth.
use op_test.Prelude.{
  ℕ, zero, suc, ◌*◌, ◌<◌, ◌≡◌, refl, Bool, true, Option, none, some, String, ltb, ◌==◌,
}
use op_test.Exec.{pure, raise, ◌>>=◌, ◌>>◌}
use op_test.Exec.Triple.{
  Ends, Triple, Triple-pure, Triple-raise, Triple-if, Triple-bind, Triple-read, Triple-pre,
  Triple-any, Triple-catching, Triple-weaken,
}
use op_test.Exec.{Result, ok, err}
use op_test.Exceptions.{OpException, http_check}
use op_test.Json.{Json, null, flag, num, str, arr, obj, lookup, or_null, get_field}
use op_test.Http
use op_test.Http.{
  get_it, Request, Response, HttpSession, Server, Act, asking, codes_ok, codes_unauthorized, clock,
  on_session, pause, send_once, login, later, not_ok, judge, judged, try_once, or_go_on,
  loop_rounds, loop_it, request_it, json_of, or_value_error,
}
use op_test.OpenBmc.{Op, get_json, get_data, wait_bmc}
use op_test.OpenBmc.Waits.{Tells, Reports, wait_bmc_outcome}
use op_test.OpenBmc.Over.{over_server, over_server-HasClock}

module _ {W : Type 0} (key target : String) (In : W → Type 0) where
  -- A dict with data that shows the value only in the state
  abbrev pub Shows : Json → W → Type 0
  Shows (obj top) w = Tells key target In (or_null (lookup "data" top)) w
  Shows v w = ⊥

  abbrev pub Told : Option Json → W → Type 0
  Told none w = ⊥
  Told (some v) w = Shows v w

  -- An answer that is ok
  abbrev pub TellsIfOk : Response → W → Type 0
  TellsIfOk r w = (r.status_code == codes_ok) ≡ true → Told r.body w

-- The server may fail, ask for a login or refuse: where it answers a GET with ok, it is with a dict that
-- has a dict under `data`, which shows the value only while the host is in the state.
pub record Truthful {W : Type 0} (session : HttpSession W) (uri key target : String) (minutes : ℕ)
    (In : W → Type 0) : Type 0 where
  pub told :
      (url : String)
      → Triple
          (λ w. Unit)
          (TellsIfOk key target In)
          (λ e w. Unit)
          (session.request get_it url (asking uri (some minutes)))

module _ {W : Type 0} (session : HttpSession W) (uri key target : String) (minutes : ℕ)
    (In : W → Type 0) (truthful : Truthful session uri key target minutes In) where
  abbrev req : Request
  req = asking uri (some minutes)

  abbrev Maybe : Option Response → Server W → Type 0
  Maybe none s = Unit
  Maybe (some r) s = Told key target In r.body s.world

  abbrev Candidate : Option Response → Server W → Type 0
  Candidate none s = Unit
  Candidate (some r) s = TellsIfOk key target In r s.world

  lifted :
      (r : Result OpException Response) (s : Server W)
      → Ends (TellsIfOk key target In) (λ e w. Unit) r s.world
      → Ends (λ a s. TellsIfOk key target In a s.world) (λ e s. Unit) r s
  lifted (ok a) s h = h
  lifted (err e) s h = tt

  send_once-Told :
      Triple
        (λ s. Unit)
        (λ r s. TellsIfOk key target In r s.world)
        (λ e s. Unit)
        (send_once session get_it req)
  unfolding send_once on_session ◌>>=◌
  send_once-Told = record {
    at = λ s p.
        let step = session.request get_it (Http.url session s uri) req s.world in
        lifted step.0 (record s { world = step.1 })
          ((truthful.told (Http.url session s uri)).at s.world tt);
  }

  paused :
      {P : Server W → Type 0}
      → Triple P
          (λ (a : Option Response) s. Maybe a s × Candidate a s)
          (λ e s. ⊥)
          (do pause session 5000; pure none)
  unfolding pause ◌>>=◌
  paused = record { at = λ s p. (tt, tt) }

  judge-Maybe :
      (r : Response)
      → Triple
          (λ s. TellsIfOk key target In r s.world)
          Maybe
          (λ e s. ⊥)
          (judge session (some minutes) r)
  unfolding judge later not_ok
  judge-Maybe r =
      Triple-if (r.status_code == codes_unauthorized) _ _
        (λ u.
          Triple-catching {D = λ e s. Unit} _ _
            (Triple-bind {R = λ a s. Unit} _ _ (Triple-any _) (λ a. Triple-pure none (λ s q. tt)))
            (λ e. Triple-weaken (λ a s q. q.0) (λ e s q. q) paused))
        (λ u.
          Triple-if (r.status_code == codes_ok) _ _ (λ o. Triple-pure (some r) (λ s q. q o))
            (λ o. Triple-weaken (λ a s q. q.0) (λ e s q. q) paused))

  judged-Maybe :
      (found : Option Response)
      → Triple (Candidate found) Maybe (λ e s. ⊥) (judged session (some minutes) found)
  judged-Maybe none = Triple-pure none (λ s q. tt)
  judged-Maybe (some r) = judge-Maybe r

  try_once-Maybe : Triple (λ s. Unit) Maybe (λ e s. ⊥) (try_once session get_it req)
  unfolding try_once later
  try_once-Maybe =
      Triple-bind {R = Candidate} _ _
        (Triple-catching {D = λ e s. Unit} _ _
          (Triple-bind _ _ send_once-Told (λ r. Triple-pure (some r) (λ s q. q)))
          (λ e. Triple-weaken (λ a s q. q.1) (λ e s q. q) paused))
        judged-Maybe

  abbrev Gets : Act W Response → Type 0
  Gets m = Triple (λ s. Unit) (λ r s. Told key target In r.body s.world) (λ e s. e ≡ http_check) m

  go_on-Gets :
      (rest : Act W Response) (found : Option Response)
      → Gets rest
      → Triple
          (Maybe found)
          (λ r s. Told key target In r.body s.world)
          (λ e s. e ≡ http_check)
          (or_go_on session rest found)
  go_on-Gets rest none h = Triple-pre (λ s q. tt) h
  go_on-Gets rest (some r) h = Triple-pure r (λ s q. q)

  rounds-Gets :
      (rounds loop_time : ℕ)
      → Gets (loop_rounds session (raise http_check) rounds get_it req loop_time)
  unfolding loop_rounds clock
  rounds-Gets zero loop_time = Triple-raise _ (λ s q. refl)
  rounds-Gets (suc rounds) loop_time = Triple-read _ _ (λ now.
      Triple-if (ltb loop_time now) _ _ (λ e. Triple-raise http_check (λ s q. refl))
        (λ e.
          Triple-bind _ _ (Triple-weaken (λ a s q. q) (λ x s q. elim q [ ]) try_once-Maybe)
            (λ found. go_on-Gets _ found (rounds-Gets rounds loop_time))))

  request_it-Gets : Gets (request_it session get_it req)
  unfolding request_it loop_it clock
  request_it-Gets = Triple-read _ _ (λ now. rounds-Gets _ _)

  body-Told :
      (body : Option Json)
      → Triple {S = Server W}
          (λ s. Told key target In body s.world)
          (λ v s. Shows key target In v s.world)
          (λ e s. e ≡ http_check)
          (or_value_error body)
  body-Told none = Triple-raise _ (λ s h. elim h [ ])
  body-Told (some v) = Triple-pure v (λ s h. h)

  data_told :
      (v : Json)
      → Triple {S = Server W}
          (λ s. Shows key target In v s.world)
          (λ v s. Tells key target In v s.world)
          (λ e s. e ≡ http_check)
          (get_field "data" v)
  data_told (obj top) = Triple-pure _ (λ s h. h)
  data_told null = Triple-raise _ (λ s h. elim h [ ])
  data_told (flag b) = Triple-raise _ (λ s h. elim h [ ])
  data_told (num n) = Triple-raise _ (λ s h. elim h [ ])
  data_told (str t) = Triple-raise _ (λ s h. elim h [ ])
  data_told (arr xs) = Triple-raise _ (λ s h. elim h [ ])

  -- What is told of the world of a server is told of the server.
  Tells-there :
      (v : Json) (s : Server W)
      → Tells key target In v s.world
      → Tells key target (λ (t : Server W). In t.world) v s
  Tells-there (obj dict) s h = h
  Tells-there null s h = h
  Tells-there (flag b) s h = h
  Tells-there (num n) s h = h
  Tells-there (str t) s h = h
  Tells-there (arr xs) s h = h

  module _ (ping_func : ℕ → Op (Server W) ℕ) (ping_fail_check : Op (Server W) Bool) where
    over_server-Reports :
        Reports
          (over_server session ping_func ping_fail_check)
          uri
          key
          target
          minutes
          (λ s. In s.world)
    unfolding get_data get_json
    over_server-Reports = record {
      tells =
          Triple-weaken Tells-there (λ e s q. q)
            (Triple-bind _ _ (Triple-bind _ _ request_it-Gets (λ r. body-Told r.body)) data_told);
    }

-- Where a request takes a millisecond at least and a sleep its time, and the answers that are ok tell
-- the truth: `wait_bmc` for the value of a key, over the server object with its logins and its own
-- retries, returns true, with the host in the state, or raises HTTPCheck, whatever else the server
-- answers.
pub wait_bmc-over_server :
    {W : Type 0} (session : HttpSession W) (timed : Http.Attempts.HasClock session)
    (key target uri : String) (minutes : ℕ) (In : W → Type 0)
    (truthful : Truthful session uri key target minutes In) (ping_func : ℕ → Op (Server W) ℕ)
    (ping_fail_check : Op (Server W) Bool) (stuck : Op (Server W) Bool) (rounds : ℕ) (s : Server W)
    → 60000 * minutes < rounds
    → let end =
        wait_bmc
          (over_server session ping_func ping_fail_check)
          stuck
          (suc rounds)
          (some key)
          target
          uri
          minutes
          s in
      Ends (λ b v. (b ≡ true) × In v.world) (λ e v. e ≡ http_check) end.0 end.1
wait_bmc-over_server session timed key target uri minutes In truthful ping_func ping_fail_check
      stuck rounds s h =
    wait_bmc_outcome (over_server session ping_func ping_fail_check)
      (over_server-HasClock session timed ping_func ping_fail_check) key target uri minutes
      (λ v. In v.world)
      (over_server-Reports session uri key target minutes In truthful ping_func ping_fail_check)
      stuck rounds s h
