-- ===== src/Ssh/Executor/History.antt =====
-- What the retries of a command come to, and what the history of the commands holds.
use op_test.Prelude.{
  ℕ, zero, suc, ◌+◌, ◌≤◌, ◌≡◌, refl, Option, none, some, String, arith, ltb, leb, leb→le, ltb→lt,
}
use op_test.Exec.{pure, ◌>>=◌, ◌>>◌}
use op_test.Exec.Triple.{
  Triple, Triple-pure, Triple-raise, Triple-if, Triple-catching, Triple-any, Triple-bind,
  bind-agree,
}
use op_test.Exceptions.{OpException}
use op_test.Ssh.Client.{Client}
use op_test.Ssh.Connection.{CommandResult}
use op_test.Ssh.Executor.{
  Executor, Run, Attempt, returned, again, remember, failed_attempt, attempt, next_attempt,
  run_rounds, run_command, attempt_ignore_fail, ignored_attempt, ignore_rounds,
  run_command_ignore_fail,
}

module _ {W : Type 0} (c : Client W) where
  -- Another round is the next, and it is one that `retry` allows.
  abbrev Allowed : (retry attempts : ℕ) → Attempt → Executor W → Type 0
  Allowed retry attempts (returned r) s = Unit
  Allowed retry attempts (again n last) s = (n ≡ attempts + 1) × (n ≤ retry)

  abbrev Raised : OpException → Executor W → Type 0
  Raised e s = Unit

  failed_attempt-Allowed :
      (retry attempts : ℕ) (last : Option OpException) (e : OpException)
      → Triple (λ _. Unit) (Allowed retry attempts) Raised (failed_attempt c retry attempts last e)
  unfolding failed_attempt
  failed_attempt-Allowed retry attempts last (OpException.ssh_command_failed command code) =
      Triple-if (leb (attempts + 1) retry) _ _
        (λ h. Triple-bind _ _ (Triple-any _) (λ _. Triple-pure _ (λ s q. (refl, leb→le _ _ h))))
        (λ h. Triple-raise _ (λ s q. tt))
  failed_attempt-Allowed retry attempts last OpException.ssh_session_disconnected =
      Triple-if (ltb attempts retry) _ _
        (λ h.
          Triple-bind _ _ (Triple-any _)
            (λ _. Triple-pure _ (λ s q. (refl, omega (arith, ltb→lt _ _ h)))))
        (λ h. Triple-raise _ (λ s q. tt))
  failed_attempt-Allowed retry attempts last e = Triple-raise e (λ s q. tt)

  ignored_attempt-Allowed :
      (retry attempts : ℕ) (last : Option OpException) (e : OpException)
      → Triple (λ _. Unit) (Allowed retry attempts) Raised (ignored_attempt c retry attempts last e)
  unfolding ignored_attempt
  ignored_attempt-Allowed retry attempts last OpException.ssh_session_disconnected =
      Triple-if (leb (attempts + 1) retry) _ _
        (λ h. Triple-bind _ _ (Triple-any _) (λ _. Triple-pure _ (λ s q. (refl, leb→le _ _ h))))
        (λ h. Triple-raise _ (λ s q. tt))
  ignored_attempt-Allowed retry attempts last e = Triple-raise e (λ s q. tt)

  attempted-Allowed :
      (m : Run W CommandResult) (retry attempts : ℕ)
      → Triple (λ _. Unit) (Allowed retry attempts) Raised (do r ← m; remember r; pure (returned r))
  attempted-Allowed m retry attempts =
      Triple-bind _ _ (Triple-any _)
        (λ r. Triple-bind _ _ (Triple-any _) (λ _. Triple-pure _ (λ s q. tt)))

  -- What follows an attempt, in two loops that agree on the rounds that are allowed.
  next-agree :
      (retry attempts : ℕ) (f g : ℕ → Option OpException → Run W CommandResult)
      → ((n : ℕ) (last : Option OpException) (s : Executor W)
          → n ≡ attempts + 1
          → n ≤ retry
          → f n last s ≡ g n last s)
      → (o : Attempt) (s : Executor W) → Allowed retry attempts o s
      → next_attempt c f o s ≡ next_attempt c g o s
  unfolding next_attempt
  next-agree retry attempts f g h (returned r) s q = refl
  next-agree retry attempts f g h (again n last) s q = h n last s q.0 q.1

  -- With rounds enough it does not matter what follows the loop.
  run_rounds-enough :
      (fall fall' : Option OpException → Run W CommandResult) (rounds : ℕ) (command : String)
      (timeout retry attempts : ℕ) (last : Option OpException) (s : Executor W)
      → attempts ≤ retry
      → retry + 1 ≤ attempts + rounds
      → run_rounds c fall rounds command timeout retry attempts last s
        ≡ run_rounds c fall' rounds command timeout retry attempts last s
  unfolding run_rounds attempt
  run_rounds-enough fall fall' zero command timeout retry attempts last s h k = absurd (omega arith)
  run_rounds-enough fall fall' (suc rounds) command timeout retry attempts last s h k =
      bind-agree _ _
        (Triple-catching _ _ (attempted-Allowed _ retry attempts)
          (failed_attempt-Allowed retry attempts last))
        (next-agree retry attempts _ _ (λ n last' s' q l.
          run_rounds-enough fall fall' rounds command timeout retry n last' s' l
            (omega (arith, q, k))))
        s tt

  ignore_rounds-enough :
      (fall fall' : Option OpException → Run W CommandResult) (rounds : ℕ) (command : String)
      (timeout retry attempts : ℕ) (last : Option OpException) (s : Executor W)
      → attempts ≤ retry
      → retry + 1 ≤ attempts + rounds
      → ignore_rounds c fall rounds command timeout retry attempts last s
        ≡ ignore_rounds c fall' rounds command timeout retry attempts last s
  unfolding ignore_rounds attempt_ignore_fail
  ignore_rounds-enough fall fall' zero command timeout retry attempts last s h k =
      absurd (omega arith)
  ignore_rounds-enough fall fall' (suc rounds) command timeout retry attempts last s h k =
      bind-agree _ _
        (Triple-catching _ _ (attempted-Allowed _ retry attempts)
          (ignored_attempt-Allowed retry attempts last))
        (next-agree retry attempts _ _ (λ n last' s' q l.
          ignore_rounds-enough fall fall' rounds command timeout retry n last' s' l
            (omega (arith, q, k))))
        s tt

  -- The loop of `run_command` never ends by its condition: whatever stands after it, the outcome is
  -- that of the code.
  pub run_command_loop :
      (fall : Option OpException → Run W CommandResult) (command : String) (timeout retry : ℕ)
      (s : Executor W)
      → run_command c command (some timeout) (some retry) s
        ≡ run_rounds c fall (retry + 1) command timeout retry 0 none s
  unfolding run_command ◌>>=◌
  run_command_loop fall command timeout retry s =
      run_rounds-enough _ fall (retry + 1) command timeout retry 0 none s (omega arith)
        (omega arith)

  -- The loop of `run_command_ignore_fail` never ends by its condition: whatever stands after it, the
  -- outcome is that of the code.
  pub run_command_ignore_fail_loop :
      (fall : Option OpException → Run W CommandResult) (command : String) (timeout retry : ℕ)
      (s : Executor W)
      → run_command_ignore_fail c command (some timeout) (some retry) s
        ≡ ignore_rounds c fall (retry + 1) command timeout retry 0 none s
  unfolding run_command_ignore_fail ◌>>=◌
  run_command_ignore_fail_loop fall command timeout retry s =
      ignore_rounds-enough _ fall (retry + 1) command timeout retry 0 none s (omega arith)
        (omega arith)
