-- ===== src/OpenBmc/Over/Tests.antt =====
-- A server that asks for a login, then is busy, then answers, and `wait_bmc` over it.
use op_test.Prelude.{
  ℕ, ◌+◌, ◌≤◌, ◌≡◌, refl, Bool, true, false, none, some, String, ltb, ltb→le, str_eq, arith,
  if◌then◌else◌,
}
use op_test.Exec.{ok, err}
use op_test.Exec.Triple.{Ends}
use op_test.Exceptions.{http_check, pexpect_timeout}
use op_test.Json.{str, obj, field, no_fields}
use op_test.Http
use op_test.Http.{Response, HttpSession, Server}
use op_test.OpenBmc.{wait_bmc}
use op_test.OpenBmc.Over.{over_server}
use op_test.OpenBmc.Over.Told.{Truthful, wait_bmc-over_server}

abbrev host_state : ℕ → String
host_state t = if ltb t 9000 then "Running" else "Off"

-- The world is the time.
abbrev answer_at : ℕ → Response
answer_at t = record {
  status_code = if ltb t 1000 then 401 else if ltb t 4000 then 503 else 200;
  body = some (
      obj (field "data" (obj (field "CurrentHostState" (str (host_state t)) no_fields)) no_fields));
  text = "";
  set_cookie = none;
}

abbrev waking : HttpSession ℕ
waking = record {
  request = λ verb url req t. (ok (answer_at t), t + 20);
  now = λ t. t;
  sleep = λ ms t. t + ms;
}

waking-HasClock : Http.Attempts.HasClock waking
waking-HasClock = record {
  request_later = λ verb url req t. record { at = λ w h. omega (arith, h) };
  sleep_later = λ ms w. omega arith;
}

off_late :
    (early : Bool) (t : ℕ)
    → ltb t 9000 ≡ early
    → str_eq (if early then "Running" else "Off") "Off" ≡ true
    → 9000 ≤ t + 20
off_late true t e h = let no : ⊥ = cc in elim no [ ]
off_late false t e h = omega (arith, ltb→le t 9000 e)

waking-Truthful : Truthful waking "/host0" "CurrentHostState" "Off" 1 (λ t. 9000 ≤ t)
waking-Truthful = record { told = λ url. record { at = λ t p u. off_late (ltb t 9000) t refl } }

abbrev server : Server ℕ
server = record {
  base_url = "https://bmc";
  username = "root";
  password = "x";
  token = none;
  world = 0;
}

wait_bmc-over_server_example :
    Ends
      (λ b v. (b ≡ true) × (9000 ≤ v.world))
      (λ e v. e ≡ http_check)
      (wait_bmc
        (over_server waking (λ n s. (ok n, s)) (λ s. (ok true, s)))
        (λ s. (err pexpect_timeout, s))
        60002
        (some "CurrentHostState")
        "Off"
        "/host0"
        1
        server).0
      (wait_bmc
        (over_server waking (λ n s. (ok n, s)) (λ s. (ok true, s)))
        (λ s. (err pexpect_timeout, s))
        60002
        (some "CurrentHostState")
        "Off"
        "/host0"
        1
        server).1
wait_bmc-over_server_example =
    wait_bmc-over_server waking waking-HasClock "CurrentHostState" "Off" "/host0" 1 (λ t. 9000 ≤ t)
      waking-Truthful (λ n s. (ok n, s)) (λ s. (ok true, s)) (λ s. (err pexpect_timeout, s)) 60001
      server (omega arith)
