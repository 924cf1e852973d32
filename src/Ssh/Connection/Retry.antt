-- ===== src/Ssh/Connection/Retry.antt =====
-- The retries of `connect`.
use op_test.Prelude.{
  ℕ, zero, suc, ◌+◌, ◌<◌, ◌≡◌, refl, ◌⊎◌, inl, inr, Bool, true, false, ◌&&◌, String, arith,
  if◌then◌else◌, ltb,
}
use op_test.Exec.{Result, ok, err, pure, catching, ◌>>=◌, ◌>>◌}
use op_test.Exec.Triple.{
  Ends, Triple, Triple-pure, Triple-raise, Triple-if, Triple-catching, Triple-modify, Triple-bind,
  Triple-read, Triple-pre, Triple-self, Triple-weaken, Ends-kept,
}
use op_test.Exceptions.{OpException, ssh_connection_failed}
use op_test.Ssh.Client.{Client, Op}
use op_test.Ssh.Connection.{
  SshConnection, is_transient, on_world, clock, mark_open, pause, is_alive, open_client,
  attempt_failed, connect_loop, connect,
}
use op_test.Ssh.Connection.Outcome.{IsClosed, cleanup_connection-IsClosed}

abbrev pub IsOpen : {W : Type 0} → Bool → SshConnection W → Type 0
IsOpen b s = (b ≡ true) × (s.client ≡ true) × (s.connected ≡ true)

-- What `connect` raises: with an attempt made, nothing of the client is left.
abbrev pub Refused : {W : Type 0} → ℕ → OpException → SshConnection W → Type 0
Refused retry e s = (e ≡ ssh_connection_failed) × (0 < retry → IsClosed s)

-- Every exception of an operation is one of those that `connect` retries on.
abbrev pub IsTransient : {W A : Type 0} → Op W A → Type 0
IsTransient op = (w : _) → Ends (λ _ _. Unit) (λ e _. is_transient e ≡ true) (op w).0 (op w).1

module _ {W : Type 0} (c : Client W)
    (connects : (host username password : String) (port timeout : ℕ)
      → IsTransient (c.connect host username password port timeout))
    (gives : IsTransient c.get_transport)
    (keeps : (seconds : ℕ) → IsTransient (c.set_keepalive seconds)) where
  abbrev HasClient : SshConnection W → Type 0
  HasClient s = s.client ≡ true

  abbrev Transient : OpException → SshConnection W → Type 0
  Transient e s = is_transient e ≡ true

  world-Ends :
      {A : Type 0} (r : Result OpException A) (w : W) (s : SshConnection W)
      → Ends (λ _ _. Unit) (λ e _. is_transient e ≡ true) r w
      → HasClient s
      → Ends (λ _. HasClient) Transient r s
  world-Ends (ok a) w s h q = q
  world-Ends (err e) w s h q = h

  on_world-HasClient :
      {A : Type 0} (op : Op W A)
      → IsTransient op
      → Triple HasClient (λ _. HasClient) Transient (on_world op)
  unfolding on_world
  on_world-HasClient op h = record {
    at = λ s q. world-Ends (op s.world).0 (op s.world).1 _ (h s.world) q;
  }

  -- The last part, where no operation is left that may raise.
  opened-IsOpen : Triple HasClient (λ _ s. IsOpen true s) Transient (mark_open c)
  unfolding mark_open clock ◌>>=◌
  opened-IsOpen = record { at = λ s q. (refl, q, refl) }

  open_client-IsOpen : Triple (λ _. Unit) (λ _ s. IsOpen true s) Transient (open_client c)
  unfolding open_client
  open_client-IsOpen = Triple-bind {R = λ _. HasClient} _ _ (Triple-modify _ (λ s q. refl)) (λ _.
      Triple-read _ _ (λ s. Triple-bind _ _ (on_world-HasClient _ (connects _ _ _ _ _)) (λ _.
        Triple-bind _ _ (on_world-HasClient _ gives) (λ transport.
          Triple-bind {R = λ _. HasClient} _ _ (Triple-modify _ (λ x q. q)) (λ _.
            Triple-bind {R = λ _. HasClient} _ _
              (Triple-if transport _ _ (λ e. on_world-HasClient _ (keeps _))
                (λ e. Triple-pure tt (λ x q. q)))
              (λ _. opened-IsOpen))))))

  -- After an attempt: open, or closed with another attempt to make.
  abbrev Tried : Bool → SshConnection W → Type 0
  Tried done s = IsOpen done s ⊎ ((done ≡ false) × IsClosed s)

  abbrev Never : OpException → SshConnection W → Type 0
  Never e s = (e ≡ ssh_connection_failed) × IsClosed s

  pause-any :
      {P : SshConnection W → Type 0} {E : OpException → SshConnection W → Type 0} (n : ℕ)
      → Triple P (λ _ _. Unit) E (pause c n)
  unfolding pause
  pause-any n = record { at = λ s q. tt }

  failed-Tried :
      (retry attempts : ℕ) (e : OpException)
      → Triple (Transient e) Tried Never (attempt_failed c retry attempts e)
  unfolding attempt_failed
  failed-Tried retry attempts e =
      Triple-if (is_transient e) _ _
        (λ t.
          Triple-bind {R = λ _ _. Unit} _ _
            (Triple-if (ltb attempts retry) _ _ (λ _. pause-any _)
              (λ _. Triple-pure tt (λ s q. tt)))
            (λ _.
              Triple-bind _ _ (cleanup_connection-IsClosed c)
                (λ _. Triple-pure false (λ s q. inr (refl, q)))))
        (λ f. Triple-raise e (λ s q. absurd (ground (arith, f, q))))

  attempt-Tried :
      (retry attempts : ℕ)
      → Triple
          (λ _. Unit)
          Tried
          Never
          (catching (do open_client c; pure true) (attempt_failed c retry attempts))
  attempt-Tried retry attempts =
      Triple-catching _ _
        (Triple-bind _ _ open_client-IsOpen (λ _. Triple-pure true (λ s q. inl q)))
        (failed-Tried retry attempts)

  opened : (s : SshConnection W) → Tried true s → IsOpen true s
  opened s (inl q) = q
  opened s (inr (q, _)) = cc

  closed : (s : SshConnection W) → Tried false s → IsClosed s
  closed s (inl (q, _, _)) = cc
  closed s (inr (_, q)) = q

  again :
      (rounds retry attempts : ℕ)
      → Triple (λ s. (rounds ≡ 0) → IsClosed s) IsOpen Never (connect_loop c rounds retry attempts)
      → (done : Bool)
      → Triple
          (Tried done)
          IsOpen
          Never
          (if done then pure true else connect_loop c rounds retry attempts)
  again rounds retry attempts h true = Triple-pure true opened
  again rounds retry attempts h false = Triple-pre (λ s q e. closed s q) h

  -- Where no round is left the connection has been closed by the last.
  loop-IsOpen :
      (rounds retry attempts : ℕ)
      → Triple (λ s. (rounds ≡ 0) → IsClosed s) IsOpen Never (connect_loop c rounds retry attempts)
  unfolding connect_loop
  loop-IsOpen zero retry attempts = Triple-raise _ (λ s q. (refl, q refl))
  loop-IsOpen (suc rounds) retry attempts =
      Triple-bind _ _ (Triple-pre (λ s q. tt) (attempt-Tried retry (attempts + 1)))
        (again rounds retry (attempts + 1) (loop-IsOpen rounds retry (attempts + 1)))

  start-IsOpen :
      (retry : ℕ) → Triple (λ _. Unit) IsOpen (Refused retry) (connect_loop c retry retry 0)
  unfolding connect_loop
  start-IsOpen zero = Triple-raise _ (λ s q. (refl, λ lt. absurd (omega arith)))
  start-IsOpen (suc n) =
      Triple-weaken (λ b s q. q) (λ e s q. (q.0, λ lt. q.1))
        (Triple-pre (λ s q e. absurd (omega arith)) (loop-IsOpen (suc n) (suc n) 0))

  abbrev Live : SshConnection W → Type 0
  Live s = (s.client ≡ true) × (s.connected ≡ true)

  on_world-Live : {A : Type 0} (op : Op W A) → Triple Live (λ _. Live) (λ _. Live) (on_world op)
  unfolding on_world
  on_world-Live op = record { at = λ s q. Ends-kept Live (op s.world).0 _ q }

  probe-Live :
      Triple Live
        (λ b s. b ≡ true → Live s)
        (λ _. Live)
        (do
          active ← on_world c.is_active
          if active then (do on_world c.send_ignore; pure true) else pure false)
  probe-Live = Triple-bind _ _ (on_world-Live _) (λ active.
      Triple-if active _ _
        (λ e. Triple-bind _ _ (on_world-Live _) (λ _. Triple-pure true (λ s q k. q)))
        (λ e. Triple-pure false (λ s q k. cc)))

  -- The flags that the check has read are those that it leaves.
  is_alive-Live :
      {E : OpException → SshConnection W → Type 0}
      → Triple (λ _. Unit) (λ b s. b ≡ true → Live s) E (is_alive c)
  unfolding is_alive
  is_alive-Live = Triple-self _ (λ s _.
      Triple-if (s.connected && s.client && s.transport) _ _
        (λ e.
          Triple-pre (λ x q. flags s x e q)
            (Triple-catching _ _ probe-Live (λ _. Triple-pure false (λ x q k. cc))))
        (λ e. Triple-pure false (λ x q k. cc)))
    where
      flags :
          (s x : SshConnection W) → (s.connected && s.client && s.transport) ≡ true → x ≡ s → Live x
      flags s x e q = rw q (ground (arith, e))

  connect-Post : (retry : ℕ) → Triple (λ _. Unit) IsOpen (Refused retry) (connect c retry)
  unfolding connect
  connect-Post retry = Triple-self _ (λ s _.
      Triple-bind {R = λ b x. b ≡ true → Live x} _ _
        (Triple-if s.connected _ _ (λ e. Triple-pre (λ x q. tt) is_alive-Live)
          (λ e. Triple-pure false (λ x q k. cc)))
        (λ alive. decided alive))
    where
      decided :
          (alive : Bool)
          → Triple
              (λ x. alive ≡ true → Live x)
              IsOpen
              (Refused retry)
              (if alive then pure true else connect_loop c retry retry 0)
      decided true = Triple-pure true (λ x q. (refl, (q refl).0, (q refl).1))
      decided false = Triple-pre (λ x q. tt) (start-IsOpen retry)

  -- Where paramiko raises only the errors that `connect` retries on, `connect` returns true with the
  -- client set and the connection marked connected, or it raises SSHConnectionFailed; then, if it
  -- was allowed an attempt, nothing of the client is left.
  pub connect_outcome :
      (retry : ℕ) (s : SshConnection W)
      → Ends IsOpen (Refused retry) (connect c retry s).0 (connect c retry s).1
  connect_outcome retry s = (connect-Post retry).at s tt
