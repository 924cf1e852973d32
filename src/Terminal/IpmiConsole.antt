-- ===== src/Terminal/IpmiConsole.antt =====
-- The class IPMIConsole of common/OpTestIPMI.py: the serial console over ipmitool. The system tracks
-- the setup of its terminal, so that `clear_state` clears flags that nothing reads. `p.expect` also
-- stands for `expect_exact`. The log and the size of the window are left out.
use op_test.Prelude.{ℕ, true, false, ◌||◌, some, String, List, [], ◌∷◌, ◌==◌, not, if◌then◌else◌}
use op_test.Exec.{pure, raise, gets, modify, catching, ◌>>=◌, ◌>>◌}
use op_test.Exceptions.{OpException, negsuc, command_failed, op_test_error}
use op_test.System.Interface.{Pattern, text, timeout, eof}
use op_test.Terminal.State.{Console}
use op_test.Terminal.Setup.{setup_term}
use op_test.Terminal.Spawned.{
  Link, LinkAct, Spawner, set_connected, set_pty, clear_own, current, reconnect_rounds,
}
use op_test.Terminal.SshConsole.{is_set}

abbrev pub sol_patterns : List Pattern
sol_patterns = text "[SOL Session operational.  Use ~? for help]" ∷ timeout ∷ eof ∷ []

-- `run` is ipmitool's.
module _ {W Pty : Type 0} (p : Spawner W Pty) (run : String → LinkAct W Pty String) where
  -- `except pexpect.ExceptionPexpect` and `except Exception`
  abbrev pub sol_close_failed : OpException → LinkAct W Pty Unit
  sol_close_failed OpException.pexpect_timeout = do set_connected false; raise op_test_error
  sol_close_failed OpException.pexpect_eof = do set_connected false; raise op_test_error
  sol_close_failed e = set_connected false

  pub sol_close : LinkAct W Pty Unit
  sol_close = do
    clear_own
    s ← gets (λ s. s)
    if not (s.world.connected)
        then pure tt
        else catching
            (do
              pty ← current
              p.send pty "\r"
              p.send pty "~."
              p.expect pty (text "[terminated ipmitool]" ∷ timeout ∷ eof ∷ []) (some 10)
              p.close_pty pty
              set_connected false)
            sol_close_failed

  -- `except OpTestError`
  abbrev pub already_inactive : OpException → LinkAct W Pty Unit
  already_inactive OpException.op_test_error = pure tt
  already_inactive e = raise e

  abbrev pub sol_spawn_failed : OpException → LinkAct W Pty Pty
  sol_spawn_failed e = do set_connected false; raise (command_failed "OPexpect.spawn" [] (negsuc 0))

  -- `setup` is util.setup_term.
  sol_set_term : (Pty → ℕ → LinkAct W Pty Unit) → LinkAct W Pty Unit
  sol_set_term setup = do
    s ← gets (λ s. s)
    pty ← current
    if not (is_set s.sudo_set) || not (is_set s.login_set) || not (is_set s.ps1_set)
        then setup pty s.system_block
        else pure tt

  -- The session is not there: the pty is closed, and the object stays connected.
  sol_refused : Pty → LinkAct W Pty Pty
  sol_refused pty = do
    p.close_pty pty
    modify (p.sleep 60000)
    raise (command_failed "sol activate" [] (negsuc 0))

  pub sol_connect : (Pty → ℕ → LinkAct W Pty Unit) → LinkAct W Pty Pty
  unfolding sol_close sol_set_term sol_refused
  sol_connect setup = do
    s ← gets (λ s. s)
    if s.world.connected then sol_close else clear_own
    catching (do run "sol deactivate"; pure tt) already_inactive
    pty ← catching p.spawn sol_spawn_failed
    set_pty pty
    set_connected true
    rc ← p.expect pty sol_patterns (some 10)
    if rc == 0 then (do sol_set_term setup; modify (p.sleep 200); current) else sol_refused pty

  pub sol_get_console : (Pty → ℕ → LinkAct W Pty Unit) → LinkAct W Pty Unit → ℕ → LinkAct W Pty Pty
  unfolding sol_connect
  sol_get_console setup stuck rounds = do
    s ← gets (λ s. s)
    if not (s.world.connected) then (do sol_connect setup; pure tt) else pure tt
    reconnect_rounds p (sol_connect setup) 5000 stuck rounds 0
    sol_set_term setup
    current

  -- The console that the terminal code is given, with the setup of that code over another console
  pub sol_console_over :
      Console (Link W Pty) Pty → LinkAct W Pty Unit → ℕ → Console (Link W Pty) Pty
  unfolding sol_get_console
  sol_console_over inner stuck rounds =
      let setup : Pty → ℕ → LinkAct W Pty Unit = setup_term inner false in
      record {
        connect = sol_connect setup;
        get_console = sol_get_console setup stuck rounds;
        close = sol_close;
        sendline = p.sendline;
        sendcontrol = p.sendcontrol;
        expect = p.expect;
        before = p.before;
        after = p.after;
        sleep = p.sleep;
        expect_prompt = inner.expect_prompt;
        prompt = inner.prompt;
        username = inner.username;
        password = inner.password;
        disable_stty_echo = inner.disable_stty_echo;
      }
