-- ===== src/Ssh/Executor.antt =====
-- common/OpTestCommandExecutor.py: commands with retries over one connection, and their history.
pub mod History
pub mod Successes
use op_test.Prelude.{
  ℕ, zero, suc, ◌+◌, ◌-◌, ◌^◌, Bool, true, false, Option, none, some, String, List, [], ◌∷◌, ◌++◌,
  length, ltb, leb, if◌then◌else◌,
}
use op_test.Exec.{Exec, pure, raise, gets, modify, catching, ◌>>=◌, ◌>>◌}
use op_test.Exceptions.{OpException, ssh_command_failed, ssh_session_disconnected, negsuc}
use op_test.Ssh.Client.{Client}
use op_test.Ssh.Connection.{
  SshConnection, CommandResult, success, pause, reconnect, execute_command,
  execute_command_ignore_fail,
}

pub record Executor (W : Type 0) : Type 0 where
  pub connection : SshConnection W
  pub default_timeout : ℕ
  pub default_retry : ℕ
  pub command_history : List CommandResult

abbrev pub Run : Type 0 → Type 0 → Type 0
Run W A = Exec (Executor W) OpException A

abbrev pub or_default : Option ℕ → ℕ → ℕ
or_default none d = d
or_default (some n) d = n

abbrev pub at_most : ℕ → ℕ → ℕ
at_most a b = if leb a b then a else b

-- What an attempt comes to: a result, or another round with the count and the last error.
pub data Attempt : Type 0 where
  returned : CommandResult → Attempt
  again : ℕ → Option OpException → Attempt

abbrev pub or_last : Option OpException → OpException → OpException
or_last none e = e
or_last (some last) e = last

module _ {W : Type 0} where
  pub on_connection : {A : Type 0} → Exec (SshConnection W) OpException A → Run W A
  on_connection m s = let (r, k) = m s.connection in (r, record s { connection = k })

  pub remember : CommandResult → Run W Unit
  remember r = modify (λ s. record s { command_history = s.command_history ++ (r ∷ []) })

  pub clear_command_history : Run W Unit
  clear_command_history = modify (λ s. record s { command_history = [] })

-- The counts of `get_statistics`.
abbrev pub count_successes : List CommandResult → ℕ
count_successes [] = 0
count_successes (r ∷ rs) = if success r then suc (count_successes rs) else count_successes rs

pub record Statistics : Type 0 where
  pub total_commands : ℕ
  pub successful_commands : ℕ
  pub failed_commands : ℕ

abbrev pub get_statistics : {W : Type 0} → Executor W → Statistics
get_statistics s =
    let total = length s.command_history in
    let successes = count_successes s.command_history in
    record {
      total_commands = total;
      successful_commands = successes;
      failed_commands = total - successes;
    }

module _ {W : Type 0} (c : Client W) where
  -- `except SSHCommandFailed` and `except SSHSessionDisconnected` of `run_command`
  failed_attempt : ℕ → ℕ → Option OpException → OpException → Run W Attempt
  failed_attempt retry attempts last (ssh_command_failed command code) =
      if leb (attempts + 1) retry
      then (do
        on_connection (pause c (at_most (2 ^ (attempts + 1)) 30))
        pure (again (attempts + 1) (some (ssh_command_failed command code))))
      else raise (ssh_command_failed command code)
  failed_attempt retry attempts last ssh_session_disconnected =
      if ltb attempts retry
      then (do on_connection (reconnect c 3); pure (again (attempts + 1) last))
      else raise ssh_session_disconnected
  failed_attempt retry attempts last e = raise e

  attempt : String → ℕ → Run W Attempt
  attempt command timeout = do
    result ← on_connection (execute_command c command timeout true)
    remember result
    pure (returned result)

  -- What follows an attempt; `rest` is the rest of the rounds.
  next_attempt : (ℕ → Option OpException → Run W CommandResult) → Attempt → Run W CommandResult
  next_attempt rest (returned result) = pure result
  next_attempt rest (again attempts last) = rest attempts last

  -- `while attempts <= retry`, with retry + 1 - attempts rounds left; `fall` follows the loop.
  pub run_rounds :
      (Option OpException → Run W CommandResult)
      → ℕ
      → String
      → ℕ
      → ℕ
      → ℕ
      → Option OpException
      → Run W CommandResult
  unfolding failed_attempt attempt next_attempt
  run_rounds fall zero command timeout retry attempts last = fall last
  run_rounds fall (suc rounds) command timeout retry attempts last =
      catching (attempt command timeout) (failed_attempt retry attempts last)
      >>= next_attempt (run_rounds fall rounds command timeout retry)

  -- 'Should not reach here, but just in case'
  fall_through : String → Option OpException → Run W CommandResult
  fall_through command last = raise (or_last last (ssh_command_failed command (negsuc 0)))

  pub run_command : String → Option ℕ → Option ℕ → Run W CommandResult
  unfolding run_rounds fall_through
  run_command command timeout retry = do
    s ← gets (λ s. s)
    let timeout = or_default timeout s.default_timeout
    let retry = or_default retry s.default_retry
    run_rounds (fall_through command) (retry + 1) command timeout retry 0 none

  -- The handler of `run_command_ignore_fail`; a reconnect that fails is dropped, since
  -- `attempts > retry` does not hold where it is tested.
  ignored_attempt : ℕ → ℕ → Option OpException → OpException → Run W Attempt
  ignored_attempt retry attempts last ssh_session_disconnected =
      if leb (attempts + 1) retry
      then (do
        catching (do on_connection (reconnect c 3); pure tt)
            (λ e. if ltb retry (attempts + 1) then raise e else pure tt)
        pure (again (attempts + 1) (some ssh_session_disconnected)))
      else raise ssh_session_disconnected
  ignored_attempt retry attempts last e = raise e

  attempt_ignore_fail : String → ℕ → Run W Attempt
  attempt_ignore_fail command timeout = do
    result ← on_connection (execute_command_ignore_fail c command timeout)
    remember result
    pure (returned result)

  pub ignore_rounds :
      (Option OpException → Run W CommandResult)
      → ℕ
      → String
      → ℕ
      → ℕ
      → ℕ
      → Option OpException
      → Run W CommandResult
  unfolding ignored_attempt attempt_ignore_fail next_attempt
  ignore_rounds fall zero command timeout retry attempts last = fall last
  ignore_rounds fall (suc rounds) command timeout retry attempts last =
      catching (attempt_ignore_fail command timeout) (ignored_attempt retry attempts last)
      >>= next_attempt (ignore_rounds fall rounds command timeout retry)

  ignore_fall_through : Option OpException → Run W CommandResult
  ignore_fall_through last = raise (or_last last ssh_session_disconnected)

  pub run_command_ignore_fail : String → Option ℕ → Option ℕ → Run W CommandResult
  unfolding ignore_rounds ignore_fall_through
  run_command_ignore_fail command timeout retry = do
    s ← gets (λ s. s)
    let timeout = or_default timeout s.default_timeout
    let retry = or_default retry s.default_retry
    ignore_rounds ignore_fall_through (retry + 1) command timeout retry 0 none
