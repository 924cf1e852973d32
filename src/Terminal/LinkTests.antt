-- ===== src/Terminal/LinkTests.antt =====
-- A console whose pty is never alive, and the theorems on connections applied to it.
use op_test.Prelude.{ℕ, ◌≡◌, refl, true, false, none, some}
use op_test.Exec.{ok, err}
use op_test.Exec.Raises.{Blames}
use op_test.Exceptions.{os, pos, pexpect_timeout, ssh_exception}
use op_test.Ssh.Client.{Client}
use op_test.Terminal.State.{Act, Terminal, Console}
use op_test.Terminal.Setup.{setup_term}
use op_test.Terminal.Spawned.{Link, LinkAct, Spawner, reconnect_rounds}
use op_test.Terminal.Spawned.Bound.{reconnect_ends}
use op_test.Terminal.SshConsole.{Account, check_set_term, run_command_direct}
use op_test.Terminal.SshConsole.Blocked.{check_set_term_blocked}
use op_test.Terminal.SshConsole.Direct.{is_command_failed, run_command_direct_outcome}

-- A pty that is never alive
abbrev dead : {A : Type 0} → A → LinkAct ℕ Unit A
dead a s = (ok a, s)

abbrev spawner : Spawner ℕ Unit
spawner = record {
  spawn = dead tt;
  send = λ pty what. dead tt;
  sendline = λ pty what. dead tt;
  sendcontrol = λ pty key. dead tt;
  expect = λ pty ps limit. dead 0;
  before = λ pty. dead "";
  after = λ pty. dead "";
  close_pty = λ pty. dead tt;
  isalive = λ pty. dead false;
  sleep = λ ms s. s;
}

abbrev blocked : Terminal (Link ℕ Unit)
blocked = record {
  system_state = os;
  setup_term_quiet = 0;
  setup_term_disable = 0;
  system_block = 1;
  console_block = some 1;
  setters_lost = false;
  ps1_set = pos 0;
  login_set = pos 0;
  sudo_set = pos 0;
  firmware_versions = none;
  world = record {
    connected = true;
    pty = some tt;
    own_ps1_set = pos 0;
    own_login_set = pos 0;
    own_sudo_set = pos 0;
    outside = 4;
  };
}

abbrev inner : Console (Link ℕ Unit) Unit
inner = record {
  connect = dead tt;
  get_console = dead tt;
  close = dead tt;
  sendline = λ pty what. dead tt;
  sendcontrol = λ pty key. dead tt;
  expect = λ pty ps limit. dead 0;
  before = λ pty. dead "";
  after = λ pty. dead "";
  sleep = λ ms s. s;
  expect_prompt = "#$";
  prompt = none;
  username = "root";
  password = "secret";
  disable_stty_echo = false;
}

abbrev account : Account
account = record {
  host = "10.0.0.7";
  username = "root";
  password = "secret";
  port = 22;
  is_console_port = false;
}

reconnected :
    reconnect_rounds spawner (dead tt) 1000 (dead tt) 121 0 blocked
    ≡ reconnect_rounds spawner (dead tt) 1000 (λ s. (err pexpect_timeout, s)) 121 0 blocked
reconnected =
    reconnect_ends spawner (dead tt) 1000 (dead tt) (λ s. (err pexpect_timeout, s)) blocked

blocked_console : check_set_term spawner account (setup_term inner true) blocked ≡ (ok tt, blocked)
blocked_console = check_set_term_blocked spawner account inner true blocked tt refl refl

abbrev out_of_reach : Client ℕ
out_of_reach = record {
  connect = λ host username password port timeout w. (err ssh_exception, w);
  get_transport = λ w. (ok true, w);
  set_keepalive = λ seconds w. (ok tt, w);
  close = λ w. (ok tt, w);
  is_active = λ w. (ok true, w);
  send_ignore = λ w. (ok tt, w);
  exec_command = λ command timeout w. (ok tt, w);
  recv_exit_status = λ w. (ok (pos 0), w);
  read_stdout = λ w. (ok "", w);
  read_stderr = λ w. (ok "", w);
  invoke_shell = λ w. (ok tt, w);
  open_sftp = λ w. (ok tt, w);
  now = λ w. (7, w);
  sleep = λ seconds w. w;
}

run_command_direct_outcome_example :
    Blames
      (λ e. is_command_failed e ≡ true)
      (run_command_direct out_of_reach (λ w. w) account "lssyscfg -r sys" 60 false 0).0
run_command_direct_outcome_example =
    run_command_direct_outcome out_of_reach (λ w. w) account "lssyscfg -r sys" 60 false 0

-- A client that runs a command, which ends with 2, and a console that times out
abbrev in_reach : Client ℕ
in_reach = record out_of_reach {
  connect = λ host username password port timeout w. (ok tt, w);
  recv_exit_status = λ w. (ok (pos 2), w);
}

abbrev heard : {A : Type 0} → A → Act ℕ A
heard a s = (ok a, s)

abbrev deaf : Console ℕ Unit
deaf = record {
  connect = heard tt;
  get_console = heard tt;
  close = heard tt;
  sendline = λ pty what. heard tt;
  sendcontrol = λ pty key. heard tt;
  expect = λ pty ps limit. heard 3;
  before = λ pty. heard "";
  after = λ pty. heard "";
  sleep = λ ms s. s;
  expect_prompt = "#$";
  prompt = none;
  username = "root";
  password = "secret";
  disable_stty_echo = false;
}

abbrev idle : Terminal ℕ
idle = record {
  system_state = os;
  setup_term_quiet = 0;
  setup_term_disable = 0;
  system_block = 0;
  console_block = none;
  setters_lost = false;
  ps1_set = pos 1;
  login_set = pos 1;
  sudo_set = pos 1;
  firmware_versions = none;
  world = 4;
}
