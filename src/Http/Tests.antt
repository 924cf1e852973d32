-- ===== src/Http/Tests.antt =====
-- A server that is busy for a while, and the theorems on the loop applied to it.
use op_test.Prelude.{ℕ, ◌+◌, ◌≡◌, refl, none, some, ltb, arith, if◌then◌else◌}
use op_test.Exec.{ok, err, ◌>>=◌}
use op_test.Exec.Triple.{Ends}
use op_test.Exceptions.{http_check, pexpect_timeout}
use op_test.Json.{str}
use op_test.Http.{
  Response, HttpSession, Server, Request, get_it, asking, session_token, loop_it, loop_rounds,
  try_once, send_once, on_session, judge, not_ok, later, clock, pause,
}
use op_test.Http.Attempts.{HasClock}
use op_test.Http.Bound.{loop_it_ends}
use op_test.Http.Outcome.{Answers, Fails, loop_it_outcome}

token : session_token "lang=en; SESSION=a1_B; Path=/" ≡ some "a1_B"
token = refl

no_token : session_token "SESSION=; SESSION=a-b" ≡ none
no_token = refl

abbrev answer_at : ℕ → Response
answer_at t = record {
  status_code = if ltb t 4000 then 503 else 200;
  body = some (str "ready");
  text = "ready";
  set_cookie = none;
}

-- The world is the time.
abbrev busy : HttpSession ℕ
busy = record {
  request = λ verb url req t. (ok (answer_at t), t + 20);
  now = λ t. t;
  sleep = λ ms t. t + ms;
}

busy-HasClock : HasClock busy
busy-HasClock = record {
  request_later = λ verb url req t. record { at = λ w h. omega (arith, h) };
  sleep_later = λ ms w. omega arith;
}

abbrev server : Server ℕ
server = record {
  base_url = "https://bmc";
  username = "root";
  password = "x";
  token = none;
  world = 0;
}

abbrev one_minute : Request
one_minute = asking "/xyz" (some 1)

busy_ends :
    loop_it busy (λ s. (err http_check, s)) 60002 get_it one_minute server
    ≡ loop_it busy (λ s. (err pexpect_timeout, s)) 60002 get_it one_minute server
busy_ends =
    loop_it_ends busy busy-HasClock (λ s. (err http_check, s)) (λ s. (err pexpect_timeout, s)) 60001
      get_it one_minute server (omega arith)

loop_it_outcome_example :
    Ends
      (Answers busy busy-HasClock one_minute)
      (Fails busy busy-HasClock one_minute)
      (loop_it busy (λ s. (err pexpect_timeout, s)) 60002 get_it one_minute server).0
      (loop_it busy (λ s. (err pexpect_timeout, s)) 60002 get_it one_minute server).1
loop_it_outcome_example =
    loop_it_outcome busy busy-HasClock one_minute (λ s. (err pexpect_timeout, s)) 60001 get_it
      server (omega arith)

-- The second try is answered.
answered_at :
    loop_it busy (λ s. (err pexpect_timeout, s)) 3 get_it one_minute server
    ≡ (ok (answer_at 5020), record server { world = 5040 })
unfolding loop_it loop_rounds try_once send_once on_session judge not_ok later clock pause ◌>>=◌
answered_at = refl
