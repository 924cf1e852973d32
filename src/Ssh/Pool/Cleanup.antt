-- ===== src/Ssh/Pool/Cleanup.antt =====
-- What `cleanup_all` leaves.
use op_test.Prelude.{
  ℕ, ◌+◌, ◌≡◌, refl, ap, ◌∙◌, true, some, String, [], ◌∷◌, length, arith, str_eq, eq_iff,
}
use op_test.Exec.{◌>>=◌}
use op_test.Exec.Triple.{
  Ends, Ends-kept, Triple, Triple-pure, Triple-modify, Triple-bind, Triple-catching, Triple-weaken,
}
use op_test.Exceptions.{OpException}
use op_test.Ssh.Client.{Op}
use op_test.Ssh.Pool.{
  Connections, ConnectionInfo, ConnectionManager, Pooled, get, del, on_world, forget, close_known,
  close_key, close_keys, keys_of, cleanup_all,
}

str_eq_refl : (k : String) → str_eq k k ≡ true
str_eq_refl k = (eq_iff k k).1 refl

del_head : (key : String) (info : ConnectionInfo) (d : Pooled) → del key ((key, info) ∷ d) ≡ d
del_head key info d = simp (str_eq_refl key) refl

pub get_head :
    (key : String) (info : ConnectionInfo) (d : Pooled) → get key ((key, info) ∷ d) ≡ some info
get_head key info d = simp (str_eq_refl key) refl

module _ {W : Type 0} (c : Connections W) where
  -- The pool, and how many connections it has closed.
  abbrev pub Now : Pooled → ℕ → ConnectionManager W → Type 0
  Now d n s = (s.connections ≡ d) × (s.total_connections_closed ≡ n)

  abbrev pub Never : OpException → ConnectionManager W → Type 0
  Never e s = ⊥

  on_world-Now :
      {A : Type 0} (d : Pooled) (n : ℕ) (op : Op W A)
      → Triple (Now d n) (λ _. Now d n) (λ _. Now d n) (on_world op)
  unfolding on_world
  on_world-Now d n op = record { at = λ s h. Ends-kept (Now d n) (op s.world).0 _ h }

  -- The first entry is the one that its key finds.
  forget-Now :
      (key : String) (info : ConnectionInfo) (d : Pooled) (n : ℕ)
      → Triple (Now ((key, info) ∷ d) n) (λ _. Now d (n + 1)) Never (forget c key)
  unfolding forget
  forget-Now key info d n =
      Triple-modify _ (λ s h. (ap (del key) h.0 ∙ del_head key info d, ap (λ x. x + 1) h.1))

  close_known-Now :
      (key : String) (info : ConnectionInfo) (d : Pooled) (n : ℕ)
      → Triple (Now ((key, info) ∷ d) n) (λ _. Now d (n + 1)) Never (close_known c key (some info))
  unfolding close_known
  close_known-Now key info d n =
      Triple-bind {R = λ _. Now ((key, info) ∷ d) n} _ _
        (Triple-catching _ _ (on_world-Now _ n _) (λ e. Triple-pure tt (λ s h. h)))
        (λ _. forget-Now key info d n)

  close_key-Now :
      (key : String) (info : ConnectionInfo) (d : Pooled) (n : ℕ)
      → Triple (Now ((key, info) ∷ d) n) (λ _. Now d (n + 1)) Never (close_key c key)
  unfolding close_key ◌>>=◌
  close_key-Now key info d n = record {
    at = λ s h. rw (ap (get key) h.0 ∙ get_head key info d) ((close_known-Now key info d n).at s h);
  }

  close_keys-Now :
      (d : Pooled) (n : ℕ)
      → Triple (Now d n) (λ _. Now [] (n + length d)) Never (close_keys c (keys_of c d))
  unfolding close_keys
  close_keys-Now [] n = Triple-pure tt (λ s h. (h.0, h.1 ∙ omega arith))
  close_keys-Now ((key, info) ∷ d) n = Triple-bind _ _ (close_key-Now key info d n) (λ _.
      Triple-weaken (λ _ s h. (h.0, h.1 ∙ omega arith)) (λ e s h. h) (close_keys-Now d (n + 1)))

  -- `cleanup_all` raises nothing, whatever the connections raise when they are closed. It leaves an
  -- empty pool and counts each connection that it held.
  pub cleanup_all_empties :
      (s : ConnectionManager W)
      → Ends
          (λ _. Now [] (s.total_connections_closed + length s.connections))
          Never
          (cleanup_all c s).0
          (cleanup_all c s).1
  unfolding cleanup_all ◌>>=◌
  cleanup_all_empties s =
      (close_keys-Now s.connections s.total_connections_closed).at s (refl, refl)
