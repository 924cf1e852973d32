-- ===== src/Terminal/Command.antt =====
-- `try_command`, `run_command` and `run_command_ignore_fail` of common/OpTestUtil.py. The message of a
-- CommandFailed stands for its output, in a list, where it has a text and no lines.
pub mod Outcome
pub mod Retries
use op_test.Prelude.{
  ℕ, zero, suc, ◌+◌, Bool, true, false, ◌&&◌, Option, none, some, String, List, [], ◌∷◌, ◌++◌, leb,
  ◌==◌, str_eq, if◌then◌else◌,
}
use op_test.Exec.{pure, raise, catching, ◌>>=◌, ◌>>◌}
use op_test.Exceptions.{OpException, ℤ, negsuc, command_failed}
use op_test.Ssh.Connection.{is_zero}
use op_test.System.Interface.{Pattern, text, timeout, eof}
use op_test.Lines.{buffer_lines, rest_of, echo_code}
use op_test.Terminal.State.{Terminal, Act, Console, pause, await}
use op_test.Terminal.Recover.{try_sendcontrol}
use op_test.Terminal.Password.{delete_last, set_env, handle_password}

abbrev pub command_patterns : String → List Pattern
command_patterns prompt = text prompt ∷ text "[Pp]assword for" ∷ timeout ∷ eof ∷ []

abbrev pub echo_lost : List String
echo_lost = "run_command echo TIMEOUT" ∷ []

abbrev pub command_lost : List String
command_lost = "run_command TIMEOUT or EOF" ∷ []

module _ {W Pty : Type 0} (c : Console W Pty) where
  -- `echo $?`, after a command that has ended
  pub ask_echo : Pty → String → ℕ → List String → Act W (List String × ℤ)
  ask_echo pty command limit out = do
    c.sendline pty "echo $?"
    rc2 ← await c pty c.expect_prompt limit
    if rc2 == 0
        then (do before ← c.before pty; pure (out, echo_code before))
        else raise (command_failed command echo_lost (negsuc 0))

  -- After `sudo -s` as root the environment is set again, and what that shows is output too.
  pub command_ended : Pty → String → ℕ → List String → Act W (List String × ℤ)
  unfolding ask_echo
  command_ended pty command limit out =
      if str_eq command "sudo -s"
      then (do env ← set_env c pty; ask_echo pty command limit (out ++ env))
      else ask_echo pty command limit out

  pub password_asked : Pty → String → Act W (List String × ℤ)
  password_asked pty command = do
    (ls, echo_rc) ← handle_password c pty command
    ys ← delete_last ls
    pure (ys, echo_rc)

  -- The output and the exit code, by what was matched
  pub command_result : Pty → String → ℕ → ℕ → List String → Act W (List String × ℤ)
  unfolding command_ended password_asked
  command_result pty command limit rc out =
      if rc == 0
      then command_ended pty command limit out
      else if rc == 1
      then password_asked pty command
      else if rc == 2
      then try_sendcontrol c command
      else (do c.close; raise (command_failed command command_lost (negsuc 0)))

  -- `if echo_rc != 0`
  pub successful : String → List String × ℤ → Act W (List String)
  successful command (res, echo_rc) =
      if is_zero echo_rc then pure res else raise (command_failed command res echo_rc)

  abbrev pub prompt_for : String → String
  prompt_for command = if str_eq command "sudo -s" then ".*#" else c.expect_prompt

  -- The recovery of a connection that is lost is not modelled: `rc in [pexpect.EOF, pexpect.TIMEOUT]`
  -- compares an index with two classes, so that it is never entered.
  pub try_command : String → ℕ → Act W (List String)
  unfolding command_result successful
  try_command command limit = do
    pty ← c.get_console
    c.sendline pty command
    rc ← c.expect pty (command_patterns (prompt_for command)) (some limit)
    before ← c.before pty
    result ← command_result pty command limit rc (rest_of (buffer_lines before))
    successful command result

  -- `except CommandFailed`; `rest` is the rest of the rounds.
  pub failed_round :
      ℕ → ℕ → Act W (Option (List String)) → OpException → Act W (Option (List String))
  failed_round retry counter rest (command_failed command out code) =
      if counter == retry then raise (command_failed command out code) else (do pause c 2000; rest)
  failed_round retry counter rest e = raise e

  -- `while counter <= retry`, with the rounds that are left; None is returned after the loop.
  pub command_rounds : ℕ → String → ℕ → ℕ → ℕ → Act W (Option (List String))
  unfolding try_command failed_round
  command_rounds zero command limit retry counter = pure none
  command_rounds (suc rounds) command limit retry counter =
      if leb counter retry
      then catching (do output ← try_command command limit; pure (some output))
          (failed_round retry counter (command_rounds rounds command limit retry (counter + 1)))
      else pure none

  unfoldable pub run_command : String → ℕ → ℕ → Act W (Option (List String))
  unfolding command_rounds
  run_command command limit retry = command_rounds (retry + 1) command limit retry 0

  -- `cf.output`
  abbrev pub output_of : OpException → Act W (Option (List String))
  output_of (command_failed command out code) = pure (some out)
  output_of e = raise e

  unfoldable pub run_command_ignore_fail : String → ℕ → ℕ → Act W (Option (List String))
  unfolding run_command
  run_command_ignore_fail command limit retry = catching (run_command command limit retry) output_of
