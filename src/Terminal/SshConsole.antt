-- ===== src/Terminal/SshConsole.antt =====
-- The class OpTestSSH of common/OpTestSSH.py: its connection, and its commands by paramiko or on the
-- console. The command line of `sshpass`, the log and the size of the window are left out.
pub mod Blocked
pub mod Direct
use op_test.Prelude.{
  ℕ, Bool, true, false, ◌&&◌, ◌||◌, Option, none, some, String, List, [], ◌∷◌, not, ◌==◌,
  if◌then◌else◌,
}
use op_test.Exec.{Exec, pure, raise, gets, modify, catching, ◌>>=◌, ◌>>◌}
use op_test.Exceptions.{OpException, ℤ, pos, negsuc, command_failed, type_error}
use op_test.System.Interface.{Pattern, timeout, eof}
use op_test.Lines.{splitlines, ends_in_background, joined_lines}
use op_test.Ssh.Client.{Client}
use op_test.Ssh.Connection.{is_zero}
use op_test.Terminal.State.{Terminal, Act, Console}
use op_test.Terminal.Setup.{setup_term}
use op_test.Terminal.Command.{run_command}
use op_test.Terminal.Spawned.{
  Link, LinkAct, Spawner, set_connected, set_pty, clear_tracked, clear_own, current,
  reconnect_rounds,
}

-- self.host, self.username, self.password, and whether self.port is 2200: there the setup of the
-- terminal is tracked by the system object.
pub record Account : Type 0 where
  pub host : String
  pub username : String
  pub password : String
  pub port : ℕ
  pub is_console_port : Bool

abbrev pub is_set : ℤ → Bool
is_set (pos n) = n == 1
is_set (negsuc n) = false

abbrev pub block_flag : Option ℕ → ℕ → ℕ
block_flag none system_block = system_block
block_flag (some flag) system_block = flag

module _ {W Pty : Type 0} (p : Spawner W Pty) (account : Account) where
  -- util.clear_state(self)
  pub clear_flags : LinkAct W Pty Unit
  clear_flags = if account.is_console_port then clear_own else clear_tracked

  -- `except pexpect.ExceptionPexpect`, whose `raise` of a text is a TypeError, and `except Exception`
  abbrev pub close_failed : OpException → LinkAct W Pty Unit
  close_failed OpException.pexpect_timeout = do set_connected false; raise type_error
  close_failed OpException.pexpect_eof = do set_connected false; raise type_error
  close_failed e = set_connected false

  pub close : LinkAct W Pty Unit
  unfolding clear_flags
  close = do
    clear_flags
    s ← gets (λ s. s)
    if not (s.world.connected)
        then pure tt
        else catching
            (do
              pty ← current
              p.send pty "\r"
              p.send pty "~."
              p.expect pty (timeout ∷ eof ∷ []) (some 10)
              p.close_pty pty
              set_connected false)
            close_failed

  -- `setup` is util.setup_term.
  abbrev pub Setup : Type 0
  Setup = Pty → ℕ → LinkAct W Pty Unit

  pub check_set_term : Setup → LinkAct W Pty Unit
  check_set_term setup = do
    s ← gets (λ s. s)
    let flag = block_flag s.console_block s.system_block
    pty ← current
    if not (is_set s.sudo_set) || not (is_set s.login_set) || not (is_set s.ps1_set)
        then setup pty flag
        else pure tt

  abbrev pub spawn_failed : OpException → LinkAct W Pty Pty
  spawn_failed e = do
    set_connected false
    raise (command_failed "OPexepct.spawn encountered a problem" [] (negsuc 0))

  pub connect : Setup → LinkAct W Pty Pty
  unfolding close check_set_term
  connect setup = do
    s ← gets (λ s. s)
    if s.world.connected then (do close; set_connected false) else clear_flags
    pty ← catching p.spawn spawn_failed
    set_pty pty
    set_connected true
    modify (p.sleep 5000)
    check_set_term setup
    current

  -- The loop of `get_console`, and what follows it
  pub keep_alive : Setup → LinkAct W Pty Unit → ℕ → LinkAct W Pty Pty
  unfolding connect
  keep_alive setup stuck rounds = do
    reconnect_rounds p (connect setup) 1000 stuck rounds 0
    check_set_term setup
    current

  pub get_console : Setup → LinkAct W Pty Unit → ℕ → LinkAct W Pty Pty
  unfolding keep_alive
  get_console setup stuck rounds = do
    s ← gets (λ s. s)
    if not (s.world.connected)
        then (do
          connect setup
          pty ← current
          alive ← p.isalive pty
          if alive then pure pty else keep_alive setup stuck rounds)
        else keep_alive setup stuck rounds

  -- The console that the terminal code is given, with the setup of that code over another console
  pub console_over : Console (Link W Pty) Pty → LinkAct W Pty Unit → ℕ → Console (Link W Pty) Pty
  unfolding get_console
  console_over inner stuck rounds =
      let setup : Pty → ℕ → LinkAct W Pty Unit = setup_term inner (not account.is_console_port) in
      record {
        connect = connect setup;
        get_console = get_console setup stuck rounds;
        close = close;
        sendline = p.sendline;
        sendcontrol = p.sendcontrol;
        expect = p.expect;
        before = p.before;
        after = p.after;
        sleep = p.sleep;
        expect_prompt = inner.expect_prompt;
        prompt = inner.prompt;
        username = inner.username;
        password = inner.password;
        disable_stty_echo = inner.disable_stty_echo;
      }

-- `run_command_direct`, with a client of paramiko; `nap` is time.sleep(0.5).
module _ {W : Type 0} (client : Client W) (nap : W → W) (account : Account) where
  abbrev pub Direct : Type 0 → Type 0
  Direct A = Exec W OpException A

  -- `expect_disconnect`: the client is closed, whatever that raises.
  leave_running : Direct (List String)
  leave_running = do modify (client.sleep 1); catching client.close (λ e. pure tt); pure []

  -- The output, or the errors with the exit code
  pub collect : String → Direct (List String)
  collect command = do
    exit_status ← client.recv_exit_status
    out ← client.read_stdout
    errors ← client.read_stderr
    client.close
    if not (is_zero exit_status)
        then raise (command_failed command (joined_lines (splitlines errors) ∷ []) exit_status)
        else pure (splitlines out)

  direct_body : String → ℕ → Bool → Direct (List String)
  unfolding leave_running collect
  direct_body command limit expect_disconnect = do
    client.connect account.host account.username account.password account.port 30
    client.exec_command command (if expect_disconnect then 5 else limit)
    if ends_in_background command
        then (do modify nap; pure [])
        else if expect_disconnect
        then leave_running
        else collect command

  -- `except CommandFailed` and `except Exception`
  direct_failed : String → Bool → OpException → Direct (List String)
  direct_failed command expect_disconnect (command_failed c out code) =
      raise (command_failed c out code)
  direct_failed command true e = pure []
  direct_failed command false e = raise (command_failed command [] (negsuc 0))

  -- Where paramiko is there
  pub run_command_direct : String → ℕ → Bool → Direct (List String)
  unfolding direct_body direct_failed
  run_command_direct command limit expect_disconnect =
      catching (direct_body command limit expect_disconnect)
        (direct_failed command expect_disconnect)

-- A client's action on the object
abbrev on_outside : {W A : Type 0} → Exec W OpException A → Act W A
on_outside m s = let (r, w) = m s.world in (r, record s { world = w })

-- `run_command` of the object; `has_paramiko` is HAS_PARAMIKO.
module _ {W Pty : Type 0} (c : Console W Pty) (client : Client W) (nap : W → W) (account : Account)
    (has_paramiko : Bool) where
  direct_output : String → ℕ → Act W (Option (List String))
  direct_output command limit = do
    out ← on_outside (run_command_direct client nap account command limit false)
    pure (some out)

  -- Whatever the direct run raises, the console runs the command.
  pub ssh_run_command : String → ℕ → ℕ → Bool → Act W (Option (List String))
  unfolding direct_output
  ssh_run_command command limit retry use_direct_ssh =
      if use_direct_ssh && has_paramiko
      then catching (direct_output command limit) (λ e. run_command c command limit retry)
      else run_command c command limit retry
