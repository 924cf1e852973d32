-- ===== src/Ssh/Tests.antt =====
-- A client that refuses some connections, and the theorems applied to it.
use op_test.Prelude.{ℕ, zero, suc, ◌≡◌, refl, true, false, none, some, []}
use op_test.Exec.{ok, err, ◌>>=◌, ◌>>◌}
use op_test.Exec.Triple.{Ends}
use op_test.Exceptions.{socket_error, ssh_session_disconnected, pos}
use op_test.Ssh.Client.{Client, Op}
use op_test.Ssh.Connection
use op_test.Ssh.Connection.{
  SshConnection, success, on_world, mark_dead, is_alive, disconnect, connect, execute_command,
}
use op_test.Ssh.Connection.Outcome.{
  Succeeds, Fails, disconnect-is_alive, disconnect-mark_dead, execute_command_outcome,
}
use op_test.Ssh.Connection.Retry.{IsOpen, Refused, IsTransient, connect_outcome}
use op_test.Ssh.Executor.{Executor, run_rounds, ignore_rounds, run_command, run_command_ignore_fail}
use op_test.Ssh.Executor.History.{run_command_loop, run_command_ignore_fail_loop}
use op_test.Ssh.Executor.Successes.{failures, run_command-failures}

-- The world is the number of connections that will still be refused.
abbrev refusing : Op ℕ Unit
refusing zero = (ok tt, 0)
refusing (suc n) = (err socket_error, n)

abbrev answer : {A : Type 0} → A → Op ℕ A
answer a w = (ok a, w)

-- Each command exits with 3.
abbrev flaky : Client ℕ
flaky = record {
  connect = λ host username password port timeout. refusing;
  get_transport = answer true;
  set_keepalive = λ seconds. answer tt;
  close = answer tt;
  is_active = answer true;
  send_ignore = answer tt;
  exec_command = λ command timeout. answer tt;
  recv_exit_status = answer (pos 3);
  read_stdout = answer "";
  read_stderr = answer "no such file";
  invoke_shell = answer tt;
  open_sftp = answer tt;
  now = λ w. (7, w);
  sleep = λ seconds w. w;
}

abbrev fresh : SshConnection ℕ
fresh = Connection.created 2 "10.0.0.7" "root" "secret" 22 30 30

abbrev open_connection : SshConnection ℕ
open_connection = record fresh { world = 0; client = true; transport = true; connected = true }

abbrev executor : Executor ℕ
executor = record {
  connection = open_connection;
  default_timeout = 60;
  default_retry = 1;
  command_history = [];
}

refusing-IsTransient : IsTransient refusing
refusing-IsTransient zero = tt
refusing-IsTransient (suc n) = refl

live : is_alive flaky open_connection ≡ (ok true, open_connection)
unfolding is_alive on_world ◌>>=◌
live = refl

connect_outcome_example :
    Ends IsOpen (Refused 3) (connect flaky 3 fresh).0 (connect flaky 3 fresh).1
connect_outcome_example =
    connect_outcome flaky (λ host username password port timeout. refusing-IsTransient) (λ w. tt)
      (λ seconds w. tt) 3 fresh

execute_command_outcome_example :
    Ends
      (Succeeds flaky "ls" true 0)
      (Fails flaky "ls")
      (execute_command flaky "ls" 60 true open_connection).0
      (execute_command flaky "ls" 60 true open_connection).1
execute_command_outcome_example =
    execute_command_outcome flaky "ls" 60 true open_connection open_connection live

closed_is_dead :
    is_alive flaky (disconnect flaky open_connection).1
    ≡ (ok false, (disconnect flaky open_connection).1)
closed_is_dead = disconnect-is_alive flaky open_connection

marked_stays : (mark_dead >> disconnect flaky) open_connection ≡ mark_dead open_connection
marked_stays = disconnect-mark_dead flaky open_connection

retried_to_the_end :
    run_command flaky "ls" (some 60) (some 2) executor
    ≡ run_rounds flaky (λ last s. (err ssh_session_disconnected, s)) 3 "ls" 60 2 0 none executor
retried_to_the_end =
    run_command_loop flaky (λ last s. (err ssh_session_disconnected, s)) "ls" 60 2 executor

ignored_failures :
    run_command_ignore_fail flaky "ls" (some 60) (some 2) executor
    ≡ ignore_rounds flaky (λ last s. (err socket_error, s)) 3 "ls" 60 2 0 none executor
ignored_failures =
    run_command_ignore_fail_loop flaky (λ last s. (err socket_error, s)) "ls" 60 2 executor

run_command-failures_example :
    Ends
      (λ r s. (success r ≡ true) × (failures flaky s ≡ 0))
      (λ e s. failures flaky s ≡ 0)
      (run_command flaky "ls" none none executor).0
      (run_command flaky "ls" none none executor).1
run_command-failures_example = run_command-failures flaky "ls" none none executor refl
