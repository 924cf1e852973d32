-- ===== src/OpenBmc/Over.antt =====
-- class HostManagement over a server object of class Server, and `wait_bmc` there.
pub mod Told
mod Tests
use op_test.Prelude.{
  ℕ, zero, suc, ◌*◌, ◌<◌, ◌≤◌, ◌≡◌, refl, sym, Bool, true, Option, none, some, String, ltb, ◌==◌,
  arith,
}
use op_test.Exec.{Exec, pure, raise, ◌>>=◌}
use op_test.Exec.Triple.{
  Ends, Triple, Triple-pure, Triple-raise, Triple-if, Triple-bind, Triple-read, Triple-weaken,
  Triple-pre, Triple-any, Triple-catching, Triple-kept, Triple-modify,
}
use op_test.Exec.Keeps.{Keeps-pure, Keeps-raise}
use op_test.Exceptions.{OpException, http_check}
use op_test.Json.{Json, obj, lookup, or_null, get_field}
use op_test.Json.Kept.{get_field-Keeps}
use op_test.Http
use op_test.Http.{
  Verb, get_it, Request, Response, HttpSession, Server, Act, asking, codes_ok, codes_unauthorized,
  clock, on_session, send_once, login, later, not_ok, judge, judged, try_once, or_go_on,
  loop_rounds, loop_it, request_it, json_of, or_value_error,
}
use op_test.Http.Attempts.{Goes, try_once-Goes}
use op_test.OpenBmc.{Op, Rest, get_json, get_data, wait_bmc}
use op_test.OpenBmc.Waits
use op_test.OpenBmc.Waits.{Tells, Reports, wait_bmc_outcome}

-- conf.util_bmc_server; what goes over the network besides is not asked here.
abbrev pub over_server :
    {W : Type 0} → HttpSession W → (ℕ → Op (Server W) ℕ) → Op (Server W) Bool → Rest (Server W)
over_server session ping_func ping_fail_check = record {
  request = request_it session;
  ping_func = ping_func;
  ping_fail_check = ping_fail_check;
  now = λ s. session.now s.world;
  sleep = λ ms s. record s { world = session.sleep ms s.world };
}

module _ {W : Type 0} (session : HttpSession W) (timed : Http.Attempts.HasClock session) where
  abbrev After : ℕ → Server W → Type 0
  After t s = t ≤ session.now s.world

  abbrev Later : {A : Type 0} → Act W A → Type 0
  Later m = (t : ℕ) → Triple (After t) (λ a. After t) (λ e s. Unit) m

  go_on-Later :
      (rest : Act W Response) (minutes : Option ℕ) (found : Option Response) (t : ℕ)
      → Later rest
      → Triple
          (Goes session timed minutes t found)
          (λ r. After t)
          (λ e s. Unit)
          (or_go_on session rest found)
  go_on-Later rest minutes none t h = Triple-pre (λ s q. omega (arith, q.1)) (h t)
  go_on-Later rest minutes (some r) t h = Triple-pure r (λ s q. omega (arith, q.1))

  rounds-Later :
      (rounds : ℕ) (verb : Verb) (req : Request) (loop_time : ℕ)
      → Later (loop_rounds session (raise http_check) rounds verb req loop_time)
  unfolding loop_rounds clock
  rounds-Later zero verb req loop_time t = Triple-raise _ (λ s q. tt)
  rounds-Later (suc rounds) verb req loop_time t = Triple-read _ _ (λ now.
      Triple-if (ltb loop_time now) _ _ (λ e. Triple-raise http_check (λ s q. tt))
        (λ e.
          Triple-bind _ _
            (Triple-weaken (λ a s q. q) (λ x s q. tt) (try_once-Goes session timed verb req t))
            (λ found. go_on-Later _ req.minutes found t (rounds-Later rounds verb req loop_time))))

  request_it-Later : (verb : Verb) (req : Request) → Later (request_it session verb req)
  unfolding request_it loop_it clock
  request_it-Later verb req t = Triple-read _ _ (λ now. rounds-Later _ verb req _ t)

  or_value_error-Later : (body : Option Json) → Later (or_value_error body)
  or_value_error-Later none t = Triple-raise _ (λ s q. tt)
  or_value_error-Later (some v) t = Triple-pure v (λ s q. q)

  module _ (ping_func : ℕ → Op (Server W) ℕ) (ping_fail_check : Op (Server W) Bool) where
    get_data-Later :
        (uri : String) (minutes : Option ℕ)
        → Later (get_data (over_server session ping_func ping_fail_check) uri minutes)
    unfolding get_data get_json
    get_data-Later uri minutes t =
        Triple-bind {R = λ v. After t} _ _
          (Triple-bind {R = λ r. After t} _ _ (request_it-Later get_it _ t)
            (λ r. or_value_error-Later r.body t))
          (λ v.
            Triple-weaken (λ a s q. q) (λ e s q. tt)
              (Triple-kept (get_field-Keeps (After t) "data" v)))

    pub over_server-HasClock : Waits.HasClock (over_server session ping_func ping_fail_check)
    over_server-HasClock = record {
      asked_later = get_data-Later;
      sleep_later = λ ms s. timed.sleep_later ms s.world;
    }
