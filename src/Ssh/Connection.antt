-- ===== src/Ssh/Connection.antt =====
-- common/OpTestSSHConnection.py: one SSH connection, its retries and its commands. The client and the
-- transport are flags: false stands for None.
pub mod Outcome
pub mod Retry
use op_test.Prelude.{
  ℕ, zero, suc, ◌+◌, ◌-◌, ◌^◌, Bool, true, false, not, ◌&&◌, Option, none, some, String, ltb, ◌==◌,
  if◌then◌else◌,
}
use op_test.Exec.{Exec, ok, pure, raise, gets, modify, catching, ◌>>=◌, ◌>>◌}
use op_test.Exceptions.{
  OpException, ssh_connection_failed, ssh_command_failed, ssh_session_disconnected, socket_timeout,
  socket_error, ssh_exception, ℤ, pos, negsuc,
}
use op_test.Ssh.Client.{Client, Op}

pub record SshConnection (W : Type 0) : Type 0 where
  pub world : W
  pub host : String
  pub username : String
  pub password : String
  pub port : ℕ
  pub timeout : ℕ
  pub keepalive_interval : ℕ
  pub client : Bool
  pub transport : Bool
  pub connected : Bool
  pub connection_time : Option ℕ
  pub last_activity : Option ℕ
  pub command_count : ℕ

-- `success` is kept as the test of the exit code; the timestamp is left out.
pub record CommandResult : Type 0 where
  pub command : String
  pub exit_code : ℤ
  pub stdout : String
  pub stderr : String
  pub duration : ℕ
  pub host : String

abbrev pub is_zero : ℤ → Bool
is_zero (pos zero) = true
is_zero _ = false

abbrev pub success : CommandResult → Bool
success r = is_zero r.exit_code

abbrev pub Act : Type 0 → Type 0 → Type 0
Act W A = Exec (SshConnection W) OpException A

-- `except (paramiko.SSHException, socket.error, socket.timeout)`
abbrev pub is_transient : OpException → Bool
is_transient ssh_exception = true
is_transient socket_error = true
is_transient socket_timeout = true
is_transient _ = false

abbrev pub created : {W : Type 0} → W → String → String → String → ℕ → ℕ → ℕ → SshConnection W
created w host username password port timeout keepalive = record {
  world = w;
  host = host;
  username = username;
  password = password;
  port = port;
  timeout = timeout;
  keepalive_interval = keepalive;
  client = false;
  transport = false;
  connected = false;
  connection_time = none;
  last_activity = none;
  command_count = 0;
}

module _ {W : Type 0} where
  unfoldable pub on_world : {A : Type 0} → Op W A → Act W A
  on_world op s = let (r, w) = op s.world in (r, record s { world = w })

  pub mark_dead : Act W Unit
  mark_dead = modify (λ s. record s { connected = false })

module _ {W : Type 0} (c : Client W) where
  pub clock : Act W ℕ
  clock s = let (t, w) = c.now s.world in (ok t, record s { world = w })

  pub pause : ℕ → Act W Unit
  pause seconds s = (ok tt, record s { world = c.sleep seconds s.world })

  unfoldable pub is_alive : Act W Bool
  is_alive = do
    s ← gets (λ s. s)
    if s.connected && s.client && s.transport
        then catching
            (do
              active ← on_world c.is_active
              if active then (do on_world c.send_ignore; pure true) else pure false)
            (λ e. pure false)
        else pure false

  -- `_cleanup_connection`, with its `finally`
  pub cleanup_connection : Act W Unit
  cleanup_connection = do
    s ← gets (λ s. s)
    catching (if s.client then on_world c.close else pure tt) (λ e. pure tt)
    modify (λ s. record s { client = false; transport = false; connected = false })

  pub disconnect : Act W Unit
  unfolding cleanup_connection
  disconnect = do s ← gets (λ s. s); if s.connected then cleanup_connection else pure tt

  mark_open : Act W Unit
  mark_open = do
    modify (λ s. record s { connected = true })
    opened ← clock
    modify (λ s. record s { connection_time = some opened })
    active ← clock
    modify (λ s. record s { last_activity = some active; command_count = 0 })

  -- The `try` of an attempt.
  open_client : Act W Unit
  unfolding mark_open
  open_client = do
    modify (λ s. record s { client = true })
    s ← gets (λ s. s)
    on_world (c.connect s.host s.username s.password s.port s.timeout)
    transport ← on_world c.get_transport
    modify (λ s. record s { transport = transport })
    if transport then on_world (c.set_keepalive s.keepalive_interval) else pure tt
    mark_open

  -- The `except` of an attempt; `attempts` counts it already.
  attempt_failed : ℕ → ℕ → OpException → Act W Bool
  attempt_failed retry attempts e =
      if is_transient e
      then (do
        if ltb attempts retry then pause (2 ^ attempts) else pure tt
        cleanup_connection
        pure false)
      else raise e

  -- `while attempts < retry`, with retry - attempts rounds left.
  connect_loop : ℕ → ℕ → ℕ → Act W Bool
  unfolding open_client attempt_failed
  connect_loop zero retry attempts = raise ssh_connection_failed
  connect_loop (suc rounds) retry attempts = do
    done ← catching (do open_client; pure true) (attempt_failed retry (attempts + 1))
    if done then pure true else connect_loop rounds retry (attempts + 1)

  pub connect : ℕ → Act W Bool
  unfolding connect_loop is_alive
  connect retry = do
    s ← gets (λ s. s)
    alive ← if s.connected then is_alive else pure false
    if alive then pure true else connect_loop retry retry 0

  pub reconnect : ℕ → Act W Bool
  unfolding connect disconnect
  reconnect retry = do disconnect; connect retry

  -- The liveness check that every operation begins with.
  pub ensure_alive : Act W Unit
  unfolding reconnect
  ensure_alive = do alive ← is_alive; if alive then pure tt else (do reconnect 3; pure tt)

  -- `if check_exit_code and exit_code != 0`
  checked : Bool → CommandResult → Act W CommandResult
  checked check_exit_code result =
      if check_exit_code && not (is_zero result.exit_code)
      then raise (ssh_command_failed result.command result.exit_code)
      else pure result

  -- The `try` of a command.
  run_on_client : String → ℕ → Bool → ℕ → Act W CommandResult
  unfolding checked
  run_on_client command timeout check_exit_code start_time = do
    on_world (c.exec_command command timeout)
    exit_code ← on_world c.recv_exit_status
    stdout ← on_world c.read_stdout
    stderr ← on_world c.read_stderr
    end_time ← clock
    active ← clock
    modify (λ s. record s { last_activity = some active; command_count = s.command_count + 1 })
    host ← gets (λ s. s.host)
    checked check_exit_code (record {
      command = command;
      exit_code = exit_code;
      stdout = stdout;
      stderr = stderr;
      duration = end_time - start_time;
      host = host;
    })

  -- Its `except` clauses, in their order.
  command_failed : String → OpException → Act W CommandResult
  unfolding mark_dead
  command_failed command socket_timeout = raise (ssh_command_failed command (negsuc 0))
  command_failed command ssh_exception = do mark_dead; raise ssh_session_disconnected
  command_failed command e = raise (ssh_command_failed command (negsuc 0))

  pub execute_command : String → ℕ → Bool → Act W CommandResult
  unfolding ensure_alive run_on_client command_failed
  execute_command command timeout check_exit_code = do
    ensure_alive
    start_time ← clock
    catching (run_on_client command timeout check_exit_code start_time) (command_failed command)

  pub execute_command_ignore_fail : String → ℕ → Act W CommandResult
  unfolding execute_command
  execute_command_ignore_fail command timeout = execute_command command timeout false

  -- A channel for a shell or for SFTP.
  channel : Op W Unit → Act W Unit
  channel op = do ensure_alive; catching (on_world op) (λ e. raise ssh_session_disconnected)

  pub get_shell_channel : Act W Unit
  unfolding channel
  get_shell_channel = channel c.invoke_shell

  pub get_sftp_client : Act W Unit
  unfolding channel
  get_sftp_client = channel c.open_sftp
