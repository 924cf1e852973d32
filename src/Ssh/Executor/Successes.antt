-- ===== src/Ssh/Executor/Successes.antt =====
-- The history that `run_command` writes.
use op_test.Prelude.{
  ℕ, zero, suc, ◌+◌, ◌≤◌, ◌≡◌, refl, ap, sym, ◌∙◌, true, Option, none, String, List, [], ◌∷◌, ◌++◌,
  length, length-append, arith, ltb, leb, Bool-cases, inl, inr,
}
use op_test.Exec.{Exec, Result, ok, err}
use op_test.Exec.Triple.{
  Ends, Triple, Triple-pure, Triple-raise, Triple-if, Triple-catching, Triple-modify, Triple-any,
  Triple-bind, Triple-pre, Triple-self, Triple-weaken,
}
use op_test.Exceptions.{OpException}
use op_test.Ssh.Client.{Client}
use op_test.Ssh.Connection.{SshConnection, CommandResult, success}
use op_test.Ssh.Connection.Outcome.{execute_command-success}
use op_test.Ssh.Executor.{
  Executor, Run, Attempt, returned, again, on_connection, remember, count_successes, failed_attempt,
  attempt, next_attempt, run_rounds, fall_through, run_command, get_statistics,
}

count-append :
    (rs : List CommandResult) (r : CommandResult)
    → success r ≡ true
    → count_successes (rs ++ (r ∷ [])) ≡ count_successes rs + 1
count-append [] r h = simp h refl
count-append (q ∷ rs) r h = elim (Bool-cases (success q)) [
  | inl e ↦ simp e (omega (arith, count-append rs r h))
  | inr e ↦ simp e (count-append rs r h)
]

count_successes-le : (rs : List CommandResult) → count_successes rs ≤ length rs
count_successes-le [] = omega arith
count_successes-le (r ∷ rs) = elim (Bool-cases (success r)) [
  | inl e ↦ simp e (omega (arith, count_successes-le rs))
  | inr e ↦ simp e (omega (arith, count_successes-le rs))
]

module _ {W : Type 0} (c : Client W) where
  -- No command of the history has failed: `failed_commands` is 0.
  abbrev pub AllSuccess : Executor W → Type 0
  AllSuccess s = count_successes s.command_history ≡ length s.command_history

  abbrev pub Succeeded : CommandResult → Executor W → Type 0
  Succeeded r s = (success r ≡ true) × AllSuccess s

  abbrev Kept : OpException → Executor W → Type 0
  Kept e s = AllSuccess s

  abbrev Good : Attempt → Executor W → Type 0
  Good (returned r) s = Succeeded r s
  Good (again n last) s = AllSuccess s

  lifted-Ends :
      {A : Type 0} (Q : A → Type 0) (r : Result OpException A) (k : SshConnection W)
      (s : Executor W)
      → Ends (λ a _. Q a) (λ _ _. Unit) r k
      → AllSuccess s
      → Ends (λ a s. Q a × AllSuccess s) Kept r s
  lifted-Ends Q (ok a) k s q h = (q, h)
  lifted-Ends Q (err e) k s q h = h

  lifted :
      {A : Type 0} (Q : A → Type 0) (m : Exec (SshConnection W) OpException A)
      → Triple (λ _. Unit) (λ a _. Q a) (λ _ _. Unit) m
      → Triple AllSuccess (λ a s. Q a × AllSuccess s) Kept (on_connection m)
  unfolding on_connection
  lifted Q m t = record {
    at = λ s h. lifted-Ends Q (m s.connection).0 (m s.connection).1 _ (t.at s.connection tt) h;
  }

  lifted-any :
      {A : Type 0} (m : Exec (SshConnection W) OpException A)
      → Triple AllSuccess (λ a s. Unit {0} × AllSuccess s) Kept (on_connection m)
  lifted-any m = lifted (λ _. Unit) m (Triple-any m)

  remember-Good :
      (r : CommandResult)
      → Triple (λ s. (success r ≡ true) × AllSuccess s) (λ _ s. Succeeded r s) Kept (remember r)
  unfolding remember
  remember-Good r = Triple-modify _ (λ s q. (
    q.0,
    count-append s.command_history r q.0
        ∙ omega (arith, q.1, length-append s.command_history (r ∷ [])),
  ))

  attempt-Good :
      (command : String) (timeout : ℕ) → Triple AllSuccess Good Kept (attempt c command timeout)
  unfolding attempt
  attempt-Good command timeout =
      Triple-bind _ _ (lifted (λ r. success r ≡ true) _ (execute_command-success c command timeout))
        (λ r. Triple-bind _ _ (remember-Good r) (λ _. Triple-pure (returned r) (λ s q. q)))

  failed_attempt-Good :
      (retry attempts : ℕ) (last : Option OpException) (e : OpException)
      → Triple AllSuccess Good Kept (failed_attempt c retry attempts last e)
  unfolding failed_attempt
  failed_attempt-Good retry attempts last (OpException.ssh_command_failed command code) =
      Triple-if (leb (attempts + 1) retry) _ _
        (λ h. Triple-bind _ _ (lifted-any _) (λ _. Triple-pure _ (λ s q. q.1)))
        (λ h. Triple-raise _ (λ s q. q))
  failed_attempt-Good retry attempts last OpException.ssh_session_disconnected =
      Triple-if (ltb attempts retry) _ _
        (λ h. Triple-bind _ _ (lifted-any _) (λ _. Triple-pure _ (λ s q. q.1)))
        (λ h. Triple-raise _ (λ s q. q))
  failed_attempt-Good retry attempts last e = Triple-raise e (λ s q. q)

  next_attempt-Good :
      (rest : ℕ → Option OpException → Run W CommandResult)
      → ((n : ℕ) (last : Option OpException) → Triple AllSuccess Succeeded Kept (rest n last))
      → (o : Attempt) → Triple (Good o) Succeeded Kept (next_attempt c rest o)
  unfolding next_attempt
  next_attempt-Good rest h (returned r) = Triple-pure r (λ s q. q)
  next_attempt-Good rest h (again n last) = h n last

  run_rounds-Good :
      (rounds : ℕ) (command : String) (timeout retry attempts : ℕ) (last : Option OpException)
      → Triple AllSuccess Succeeded Kept
          (run_rounds c (fall_through c command) rounds command timeout retry attempts last)
  unfolding run_rounds fall_through
  run_rounds-Good zero command timeout retry attempts last = Triple-raise _ (λ s q. q)
  run_rounds-Good (suc rounds) command timeout retry attempts last =
      Triple-bind _ _
        (Triple-catching _ _ (attempt-Good command timeout)
          (failed_attempt-Good retry attempts last))
        (next_attempt-Good _ (run_rounds-Good rounds command timeout retry))

  run_command-Good :
      (command : String) (timeout retry : Option ℕ)
      → Triple AllSuccess Succeeded Kept (run_command c command timeout retry)
  unfolding run_command
  run_command-Good command timeout retry = Triple-self _ (λ s h.
      Triple-pre
        (λ x q.
          ap (λ y. count_successes y.command_history) q
          ∙ h
          ∙ ap (λ y. length y.command_history) (sym q))
        (run_rounds-Good _ command _ _ 0 none))

  abbrev pub failures : Executor W → ℕ
  failures s = (get_statistics s).failed_commands

  no_failures : (s : Executor W) → AllSuccess s → failures s ≡ 0
  no_failures s h = omega (arith, h)

  all_success : (s : Executor W) → failures s ≡ 0 → AllSuccess s
  all_success s h = omega (arith, h, count_successes-le s.command_history)

  -- `run_command` returns only results with the exit code 0, and a command that fails leaves no entry
  -- in the history: where `get_statistics` counted no failed command before it counts none after,
  -- also where the command has failed.
  pub run_command-failures :
      (command : String) (timeout retry : Option ℕ) (s : Executor W)
      → failures s ≡ 0
      → Ends
          (λ r s'. (success r ≡ true) × (failures s' ≡ 0))
          (λ e s'. failures s' ≡ 0)
          (run_command c command timeout retry s).0
          (run_command c command timeout retry s).1
  run_command-failures command timeout retry s h =
      (Triple-weaken {E = λ e s'. failures s' ≡ 0} (λ r s' q. (q.0, no_failures s' q.1))
          (λ e s' q. no_failures s' q) (run_command-Good command timeout retry)).at
        s (all_success s h)
