-- ===== src/Ssh/Connection/Outcome.antt =====
-- What an SSH connection is after its operations, and what they return and raise.
use op_test.Prelude.{
  ℕ, ◌+◌, ◌≡◌, refl, ap, ◌∙◌, ◌⊎◌, inl, inr, Bool, true, false, not, ◌&&◌, String, arith,
}
use op_test.Exec.{ok, gets, ◌>>=◌, ◌>>◌}
use op_test.Exec.Triple.{
  Ends, Triple, Triple-pure, Triple-raise, Triple-if, Triple-from, Triple-catching, Triple-modify,
  Triple-any, Triple-bind, Triple-self, Triple-weaken, Ends-both, Ends-kept, Triple-pre,
}
use op_test.Exceptions.{OpException, ssh_command_failed, ssh_session_disconnected, negsuc}
use op_test.Ssh.Client.{Client, Op}
use op_test.Ssh.Connection.{
  SshConnection, CommandResult, Act, is_zero, on_world, clock, mark_dead, is_alive,
  cleanup_connection, disconnect, ensure_alive, checked, run_on_client, command_failed,
  execute_command,
}

passed : (b z : Bool) → (b && not z) ≡ false → b ≡ true → z ≡ true
passed b z h k = ground arith

-- Nothing of the client is left.
abbrev pub IsClosed : {W : Type 0} → SshConnection W → Type 0
IsClosed s = (s.client ≡ false) × (s.transport ≡ false) × (s.connected ≡ false)

module _ {W : Type 0} (c : Client W) where
  pub cleanup_connection-IsClosed :
      {P : SshConnection W → Type 0} {E : OpException → SshConnection W → Type 0}
      → Triple P (λ _ s. IsClosed s) E (cleanup_connection c)
  unfolding cleanup_connection
  cleanup_connection-IsClosed = Triple-self _ (λ s p.
      Triple-bind _ _ (Triple-catching _ _ (Triple-any _) (λ e. Triple-pure tt (λ s p. tt)))
        (λ _. Triple-modify _ (λ s p. (refl, refl, refl))))

  -- The flag alone says that it is closed.
  disconnect-closes :
      Triple (λ _. Unit) (λ _ s. s.connected ≡ false) (λ _ s. s.connected ≡ false) (disconnect c)
  unfolding disconnect
  disconnect-closes = Triple-self _ (λ s p.
      Triple-if s.connected _ _
        (λ e. Triple-weaken (λ _ s' q. q.2) (λ _ s' q. q) cleanup_connection-IsClosed)
        (λ e. Triple-pure tt (λ s' q. ap (λ x. x.connected) q ∙ e)))

  is_alive_closed : (s : SshConnection W) → s.connected ≡ false → is_alive c s ≡ (ok false, s)
  unfolding is_alive ◌>>=◌
  is_alive_closed s h = simp h refl

  -- A connection is closed after `disconnect`, so that the liveness check fails and does not ask the
  -- transport.
  pub disconnect-is_alive :
      (s : SshConnection W) → is_alive c (disconnect c s).1 ≡ (ok false, (disconnect c s).1)
  disconnect-is_alive s = is_alive_closed (disconnect c s).1 (
      Ends-both (λ s. s.connected ≡ false) (disconnect c s).0 (disconnect c s).1
        (disconnect-closes.at s tt))

  -- A connection that a command has marked dead is not closed by `disconnect`: the client is kept,
  -- and the world is not asked.
  pub disconnect-mark_dead : (s : SshConnection W) → (mark_dead >> disconnect c) s ≡ mark_dead s
  unfolding mark_dead disconnect ◌>>=◌
  disconnect-mark_dead s = refl

  -- What a command returns: with the check, a result whose exit code is 0.
  abbrev pub Succeeds : String → Bool → ℕ → CommandResult → SshConnection W → Type 0
  Succeeds command check count r s =
      (r.command ≡ command)
      × (check ≡ true → is_zero r.exit_code ≡ true)
      × (s.command_count ≡ count + 1)

  -- What it raises.
  abbrev pub Fails : String → OpException → SshConnection W → Type 0
  Fails command e s =
      ((e ≡ ssh_session_disconnected) × (s.connected ≡ false))
      ⊎ (e ≡ ssh_command_failed command (negsuc 0))

  command_failed-Fails :
      {P : SshConnection W → Type 0} {Q : CommandResult → SshConnection W → Type 0}
      (command : String) (e : OpException)
      → Triple P Q (Fails command) (command_failed c command e)
  unfolding command_failed mark_dead ◌>>=◌
  command_failed-Fails command OpException.socket_timeout = Triple-raise _ (λ s p. inr refl)
  command_failed-Fails command OpException.ssh_exception = record { at = λ s p. inl (refl, refl) }
  command_failed-Fails command e = Triple-raise _ (λ s p. inr refl)

  abbrev Counts : ℕ → SshConnection W → Type 0
  Counts n s = s.command_count ≡ n

  on_world-Counts :
      {A : Type 0} (n : ℕ) (op : Op W A)
      → Triple (Counts n) (λ _. Counts n) (λ _. Counts n) (on_world op)
  unfolding on_world
  on_world-Counts n op = record { at = λ s p. Ends-kept (Counts n) (op s.world).0 _ p }

  clock-Counts :
      {E : OpException → SshConnection W → Type 0} (n : ℕ)
      → Triple (Counts n) (λ _. Counts n) E (clock c)
  unfolding clock
  clock-Counts n = record { at = λ s p. p }

  gets-Counts :
      {A : Type 0} {E : OpException → SshConnection W → Type 0} (n : ℕ) (f : SshConnection W → A)
      → Triple (Counts n) (λ _. Counts n) E (gets f)
  unfolding ◌>>=◌
  gets-Counts n f = record { at = λ s p. p }

  -- The end of a command, and the test of its exit code.
  checked-Succeeds :
      (command : String) (check : Bool) (n : ℕ) (r : CommandResult)
      → r.command ≡ command
      → Triple (Counts (n + 1)) (Succeeds command check n) (λ _ _. Unit) (checked c check r)
  unfolding checked
  checked-Succeeds command check n r q =
      Triple-if (check && not (is_zero r.exit_code)) _ _ (λ e. Triple-raise _ (λ s p. tt))
        (λ e. Triple-pure r (λ s p. (q, passed check (is_zero r.exit_code) e, p)))

  run_on_client-Succeeds :
      (command : String) (timeout : ℕ) (check : Bool) (start n : ℕ)
      → Triple
          (Counts n)
          (Succeeds command check n)
          (λ _ _. Unit)
          (run_on_client c command timeout check start)
  unfolding run_on_client
  run_on_client-Succeeds command timeout check start n = step _ (λ _. step _ (λ code. step _ (λ out.
      step _ (λ errs. tick (λ end. tick (λ active.
        Triple-bind {R = λ _. Counts (n + 1)} _ _ (Triple-modify _ (λ s p. ap (λ x. x + 1) p)) (λ _.
          Triple-bind _ _ (gets-Counts (n + 1) (λ s. s.host))
            (λ host. checked-Succeeds command check n _ refl))))))))
    where
      tick :
          {f : ℕ → Act W CommandResult}
          → ((a : ℕ) → Triple (Counts n) (Succeeds command check n) (λ _ _. Unit) (f a))
          → Triple (Counts n) (Succeeds command check n) (λ _ _. Unit) (clock c >>= f)
      tick h = Triple-bind _ _ (clock-Counts n) h

      step :
          {A : Type 0} (op : Op W A) {f : A → Act W CommandResult}
          → ((a : A) → Triple (Counts n) (Succeeds command check n) (λ _ _. Unit) (f a))
          → Triple (Counts n) (Succeeds command check n) (λ _ _. Unit) (on_world op >>= f)
      step op h =
          Triple-bind _ _ (Triple-weaken (λ _ s q. q) (λ _ s q. tt) (on_world-Counts n op)) h

  -- On a live connection `execute_command` returns, if its check is on, only a result whose exit code
  -- is 0, and counts it. It raises SSHSessionDisconnected, with the connection marked dead, or an
  -- SSHCommandFailed whose exit code is -1: the code of a command that fails is lost.
  pub execute_command_outcome :
      (command : String) (timeout : ℕ) (check_exit_code : Bool) (s s1 : SshConnection W)
      → is_alive c s ≡ (ok true, s1)
      → Ends
          (Succeeds command check_exit_code s1.command_count)
          (Fails command)
          (execute_command c command timeout check_exit_code s).0
          (execute_command c command timeout check_exit_code s).1
  unfolding execute_command ensure_alive ◌>>=◌
  execute_command_outcome command timeout check s s1 live = rw live (
      (Triple-bind _ _ (clock-Counts s1.command_count) (λ start.
          Triple-catching _ _ (run_on_client-Succeeds command timeout check start s1.command_count)
            (command_failed-Fails command))).at
        s1 refl)

  body-success :
      (command : String) (timeout start : ℕ)
      → Triple
          (λ _. Unit)
          (λ r _. is_zero r.exit_code ≡ true)
          (λ _ _. Unit)
          (run_on_client c command timeout true start)
  body-success command timeout start = Triple-from _ (λ s p.
      Triple-pre (λ x q. ap (λ y. y.command_count) q)
        (Triple-weaken (λ r _ q. q.1 refl) (λ e _ q. q)
          (run_on_client-Succeeds command timeout true start s.command_count)))

  -- With the check on, whatever is returned has the exit code 0, also after a reconnect.
  pub execute_command-success :
      (command : String) (timeout : ℕ)
      → Triple
          (λ _. Unit)
          (λ r _. is_zero r.exit_code ≡ true)
          (λ _ _. Unit)
          (execute_command c command timeout true)
  unfolding execute_command
  execute_command-success command timeout = Triple-bind _ _ (Triple-any _) (λ _.
      Triple-bind _ _ (Triple-any _) (λ start.
        Triple-catching _ _ (body-success command timeout start)
          (λ e. Triple-weaken (λ _ _ q. q) (λ _ _ _. tt) (command_failed-Fails command e))))
