-- ===== src/Ssh/Client.antt =====
-- What common/OpTestSSHConnection.py and its clients use of paramiko, of time and of datetime: a record
-- of actions on the world, since none of it reaches the objects of the program.
use op_test.Prelude.{ℕ, Bool, String}
use op_test.Exec.{Exec}
use op_test.Exceptions.{OpException, ℤ}

abbrev pub Op : Type 0 → Type 0 → Type 0
Op W A = Exec W OpException A

pub record Client (W : Type 0) : Type 0 where
  -- SSHClient.connect with the host, the user, the password, the port and the timeout
  pub connect : String → String → String → ℕ → ℕ → Op W Unit
  -- SSHClient.get_transport: false for None; Transport.set_keepalive
  pub get_transport : Op W Bool
  pub set_keepalive : ℕ → Op W Unit
  pub close : Op W Unit
  pub is_active : Op W Bool
  pub send_ignore : Op W Unit
  -- exec_command with its timeout, then what the channel gives
  pub exec_command : String → ℕ → Op W Unit
  pub recv_exit_status : Op W ℤ
  pub read_stdout : Op W String
  pub read_stderr : Op W String
  pub invoke_shell : Op W Unit
  pub open_sftp : Op W Unit
  -- datetime.now() and time.time(), in one unit; time.sleep. None of these raises.
  pub now : W → ℕ × W
  pub sleep : ℕ → W → W
