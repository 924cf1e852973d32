-- ===== src/Terminal/Tests.antt =====
-- A console that answers from a script, and the theorems on the terminal applied to it.
use op_test.Prelude.{ℕ, zero, suc, ◌≡◌, refl, true, false, none, some, String, List, [], ◌∷◌, arith}
use op_test.Exec.{Exec, ok, err, pure, ◌>>=◌}
use op_test.Exec.Post.{Returns}
use op_test.Exec.Raises.{Blames}
use op_test.Exceptions.{os, OpException, type_error, pos, pexpect_timeout}
use op_test.Terminal.State.{Terminal, Act, Console, await, send_wait}
use op_test.Terminal.Recover.{try_recover}
use op_test.Terminal.Prompt.{get_versions, set_again}
use op_test.Terminal.Prompt.Again.{LeavesSetters, set_again-set_again}
use op_test.Terminal.Password.{retry_rounds, retry_password}
use op_test.Terminal.Password.Tries.{retry_password_twice}
use op_test.Terminal.Command.{try_command, run_command}
use op_test.Terminal.Command.Outcome.{IsConsole, NonZero, try_command-NonZero}
use op_test.Terminal.Command.Retries.{attempts, run_command-attempts}
use op_test.Terminal.Ping.{Network, ping_func}
use op_test.Terminal.Ping.Count.{pings, ping_func-pings}

-- What `expect` answers and what the buffer shows, in order
record Screen : Type 0 where
  pub answers : List ℕ
  pub shown : List String

abbrev said : {A : Type 0} → A → Act Screen A
said a s = (ok a, s)

abbrev next_answer : List ℕ → Act Screen ℕ
next_answer [] s = (err pexpect_timeout, s)
next_answer (n ∷ ns) s = (ok n, record s { world = record s.world { answers = ns } })

abbrev next_text : List String → Act Screen String
next_text [] s = (ok "", s)
next_text (x ∷ xs) s = (ok x, record s { world = record s.world { shown = xs } })

abbrev screen : Console Screen Unit
screen = record {
  connect = said tt;
  get_console = said tt;
  close = said tt;
  sendline = λ pty what. said tt;
  sendcontrol = λ pty key. said tt;
  expect = λ pty ps limit s. next_answer s.world.answers s;
  before = λ pty s. next_text s.world.shown s;
  after = λ pty. said "";
  sleep = λ ms s. s;
  expect_prompt = "\\[ssh-expect\\]#$";
  prompt = none;
  username = "root";
  password = "secret";
  disable_stty_echo = false;
}

abbrev terminal : List ℕ → List String → Terminal Screen
terminal answers shown = record {
  system_state = os;
  setup_term_quiet = 1;
  setup_term_disable = 0;
  system_block = 0;
  console_block = none;
  setters_lost = false;
  ps1_set = pos 1;
  login_set = pos 1;
  sudo_set = pos 1;
  firmware_versions = none;
  world = record { answers = answers; shown = shown };
}

next_answer-Fails : (ns : List ℕ) (s : Terminal Screen) → Blames NonZero (next_answer ns s).0
next_answer-Fails [] s = refl
next_answer-Fails (n ∷ ns) s = tt

next_text-Fails : (xs : List String) (s : Terminal Screen) → Blames NonZero (next_text xs s).0
next_text-Fails [] s = tt
next_text-Fails (x ∷ xs) s = tt

screen-IsConsole : IsConsole screen
screen-IsConsole = record {
  connect_fails = record { at = λ s h. tt };
  get_console_fails = record { at = λ s h. tt };
  close_fails = record { at = λ s h. tt };
  sendline_fails = λ pty what. record { at = λ s h. tt };
  sendcontrol_fails = λ pty key. record { at = λ s h. tt };
  expect_fails = λ pty ps limit. record { at = λ s h. next_answer-Fails s.world.answers s };
  before_fails = λ pty. record { at = λ s h. next_text-Fails s.world.shown s };
  after_fails = λ pty. record { at = λ s h. tt };
}

module _ (P : Terminal Screen → Type 0)
    (kept : (s : Terminal Screen) (w : Screen) → P s → P (record s { world = w })) where
  next_answer-Keeps : (ns : List ℕ) (s : Terminal Screen) → P s → P (next_answer ns s).1
  next_answer-Keeps [] s p = p
  next_answer-Keeps (n ∷ ns) s p = kept s _ p

  next_text-Keeps : (xs : List String) (s : Terminal Screen) → P s → P (next_text xs s).1
  next_text-Keeps [] s p = p
  next_text-Keeps (x ∷ xs) s p = kept s _ p

screen-LeavesSetters : LeavesSetters screen
screen-LeavesSetters = record {
  sendline_leaves = λ pty what. record { at = λ s h. h };
  expect_leaves = λ pty ps limit. record {
    at = λ s h. next_answer-Keeps (λ s. s.setters_lost ≡ true) (λ s w p. p) s.world.answers s h;
  };
  before_leaves = λ pty. record {
    at = λ s h. next_text-Keeps (λ s. s.setters_lost ≡ true) (λ s w p. p) s.world.shown s h;
  };
  sleep_leaves = λ ms s h. h;
}

try_command-NonZero_example :
    Blames NonZero
      (try_command screen "false" 60 (terminal (0 ∷ 0 ∷ []) ("false\n" ∷ "echo $?\n1\n" ∷ []))).0
try_command-NonZero_example =
    try_command-NonZero screen screen-IsConsole "false" 60
      (terminal (0 ∷ 0 ∷ []) ("false\n" ∷ "echo $?\n1\n" ∷ []))

run_command-attempts_example :
    run_command screen "ls" 60 2 (terminal (3 ∷ 0 ∷ 0 ∷ []) [])
    ≡ (attempts screen 2 (try_command screen "ls" 60) >>= (λ out. pure (some out)))
        (terminal (3 ∷ 0 ∷ 0 ∷ []) [])
run_command-attempts_example = run_command-attempts screen "ls" 60 2 (terminal (3 ∷ 0 ∷ 0 ∷ []) [])

password_twice :
    retry_password screen tt "sudo -s" (terminal (1 ∷ 1 ∷ 0 ∷ []) [])
    ≡ retry_rounds screen
        (λ out code. said (out, pos 9))
        tt
        "sudo -s"
        2
        0
        []
        none
        (terminal (1 ∷ 1 ∷ 0 ∷ []) [])
password_twice =
    retry_password_twice screen (λ out code. said (out, pos 9)) tt "sudo -s"
      (terminal (1 ∷ 1 ∷ 0 ∷ []) [])

-- A terminal whose firmware versions are known
abbrev informed : Terminal Screen
informed = record (terminal (0 ∷ 0 ∷ 0 ∷ 0 ∷ 0 ∷ []) []) { firmware_versions = some [] }

set_again-set_again_example :
    Returns
      (λ rc again. set_again screen "$" again ≡ (err type_error, again))
      (set_again screen "#" (informed)).0
      (set_again screen "#" (informed)).1
set_again-set_again_example = set_again-set_again screen screen-LeavesSetters "#" "$" (informed)

-- The first recovery does return.
recovered : (set_again screen "#" (informed)).0 ≡ ok (pos 1)
unfolding set_again try_recover send_wait await get_versions ◌>>=◌
recovered = refl

-- A host that does not answer the first pings
abbrev waking : Exec ℕ OpException String
waking zero = (ok "2 packets transmitted, 2 received", 0)
waking (suc n) = (ok "2 packets transmitted, 0 received", n)

abbrev network : Network ℕ
network = record {
  ping = λ ip. waking;
  ping_mtu = λ ip. waking;
  ping_status = λ ip w. (ok "0", w);
  sleep = λ seconds w. w;
}

ping_func-pings_example :
    ping_func network (λ w. (ok 7, w)) 20 (some "10.0.0.7") 3 4 5
    ≡ pings network.sleep (network.ping "10.0.0.7") "2 received" 12 5
ping_func-pings_example =
    ping_func-pings network (λ w. (ok 7, w)) 20 "10.0.0.7" 3 4 (omega arith) (omega arith) 5
