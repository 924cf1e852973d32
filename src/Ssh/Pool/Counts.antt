-- ===== src/Ssh/Pool/Counts.antt =====
-- The counts of the pool: what it has closed and what it holds, against what it has created.
use op_test.Prelude.{
  ℕ, suc, ◌+◌, ◌≤◌, ◌≡◌, refl, ap, Option, none, some, String, List, [], ◌∷◌, length, arith,
  Bool-cases, inl, inr, str_eq,
}
use op_test.Exec.{pure, modify, ◌>>=◌, ◌>>◌}
use op_test.Exec.Keeps.{Keeps, Keeps-pure, Keeps-modify, Keeps-bind, keeps_rules}
use op_test.Exec.Triple.{
  Ends-kept, Ends-both, Triple, Triple-pure, Triple-modify, Triple-bind, Triple-catching,
}
use op_test.Exceptions.{OpException}
use op_test.Ssh.Client.{Op}
use op_test.Ssh.Pool.{
  Connection, Connections, ConnectionInfo, ConnectionManager, Pooled, get, put, update, del,
  on_world, write, clock, forget, close_known, close_key, close_connection, is_young, is_usable,
  acquire, reuse, is_stale, stale_keys, close_keys, cleanup_stale_connections, limit, create,
  or_create, get_connection, release_known, release_connection, cleanup_all, Call, get_it, release,
  close, cleanup_stale, cleanup_everything, run_call, run_calls,
}

-- A replacement leaves the length alone.
length-put :
    (key : String) (info : ConnectionInfo) (d : Pooled) → length (put key info d) ≤ length d + 1
length-put key info [] = omega arith
length-put key info ((k, old) ∷ d) = elim (Bool-cases (str_eq k key)) [
  | inl e ↦ simp e (omega arith)
  | inr e ↦ simp e (omega (arith, length-put key info d))
]

length-update :
    (key : String) (f : ConnectionInfo → ConnectionInfo) (d : Pooled)
    → length (update key f d) ≡ length d
length-update key f [] = refl
length-update key f ((k, info) ∷ d) = elim (Bool-cases (str_eq k key)) [
  | inl e ↦ simp e refl
  | inr e ↦ simp e (ap suc (length-update key f d))
]

length-del_known :
    (key : String) (old : ConnectionInfo) (d : Pooled)
    → get key d ≡ some old
    → length (del key d) + 1 ≡ length d
length-del_known key old [] h = cc
length-del_known key old ((k, info) ∷ d) h = elim (Bool-cases (str_eq k key)) [
  | inl e ↦ simp e (omega arith)
  | inr e ↦ simp e (omega (arith, length-del_known key old d (simp e at h)))
]

module _ {W : Type 0} where
  -- What the pool has closed and what it holds were created by it.
  abbrev pub Balanced : ConnectionManager W → Type 0
  Balanced s = s.total_connections_closed + length s.connections ≤ s.total_connections_created

module _ {W : Type 0} (c : Connections W) where
  on_world-Keeps : {A : Type 0} (op : Op W A) → Keeps Balanced (on_world op)
  unfolding on_world
  on_world-Keeps op = record { at = λ s h. h }

  clock-Keeps : Keeps Balanced (clock c)
  unfolding clock ◌>>=◌
  clock-Keeps = record { at = λ s h. h }

  reused-Keeps :
      Keeps {E = OpException}
        (Balanced {W = W})
        (modify (λ s. record s { total_connections_reused = s.total_connections_reused + 1 }))
  reused-Keeps = Keeps-modify _ (λ s h. h)

  update-Keeps :
      (key : String) (f : ConnectionInfo → ConnectionInfo)
      → Keeps (Balanced {W = W}) (write (update key f))
  unfolding write
  update-Keeps key f = Keeps-modify _ (λ s h. omega (arith, h, length-update key f s.connections))

  -- The entry that is to be closed is still there.
  abbrev Holds : String → Option ConnectionInfo → ConnectionManager W → Type 0
  Holds key found s = Balanced s × (get key s.connections ≡ found)

  abbrev Left : {A : Type 0} → A → ConnectionManager W → Type 0
  Left a s = Balanced s

  on_world-Holds :
      {A : Type 0} (key : String) (found : Option ConnectionInfo) (op : Op W A)
      → Triple (Holds key found) (λ _. Holds key found) (λ _. Holds key found) (on_world op)
  unfolding on_world
  on_world-Holds key found op = record {
    at = λ s h. Ends-kept (Holds key found) (op s.world).0 _ h;
  }

  forget-Balanced :
      (key : String) (info : ConnectionInfo)
      → Triple (Holds key (some info)) Left Left (forget c key)
  unfolding forget
  forget-Balanced key info =
      Triple-modify _ (λ s h. omega (arith, h.0, length-del_known key info s.connections h.1))

  close_known-Balanced :
      (key : String) (found : Option ConnectionInfo)
      → Triple (Holds key found) Left Left (close_known c key found)
  unfolding close_known
  close_known-Balanced key none = Triple-pure tt (λ s h. h.0)
  close_known-Balanced key (some info) =
      Triple-bind {R = λ _. Holds key (some info)} _ _
        (Triple-catching _ _ (on_world-Holds key (some info) _) (λ e. Triple-pure tt (λ s h. h)))
        (λ _. forget-Balanced key info)

  close_key-Keeps : (key : String) → Keeps Balanced (close_key c key)
  unfolding close_key ◌>>=◌
  close_key-Keeps key = record {
    at = λ s h.
        Ends-both Balanced _ _ ((close_known-Balanced key (get key s.connections)).at s (h, refl));
  }

  ruleset steps = (on_world-Keeps, clock-Keeps, reused-Keeps, update-Keeps, close_key-Keeps)

  close_connection-Keeps : (k : Connection) → Keeps Balanced (close_connection c k)
  unfolding close_connection
  close_connection-Keeps k = close_key-Keeps _

  is_young-Keeps : (info : ConnectionInfo) → Keeps Balanced (is_young c info)
  unfolding is_young
  is_young-Keeps info = search (keeps_rules, steps)

  is_usable-Keeps : (info : ConnectionInfo) → Keeps Balanced (is_usable c info)
  unfolding is_usable
  is_usable-Keeps info = search (keeps_rules, steps, is_young-Keeps)

  acquire-Keeps : (key : String) (info : ConnectionInfo) → Keeps Balanced (acquire c key info)
  unfolding acquire
  acquire-Keeps key info = search (keeps_rules, steps) depth 8

  reuse-Keeps : (key : String) (found : Option ConnectionInfo) → Keeps Balanced (reuse c key found)
  unfolding reuse
  reuse-Keeps key none = Keeps-pure none
  reuse-Keeps key (some info) = search (keeps_rules, steps, is_usable-Keeps, acquire-Keeps)

  is_stale-Keeps : (info : ConnectionInfo) → Keeps Balanced (is_stale c info)
  unfolding is_stale
  is_stale-Keeps info = search (keeps_rules, steps) depth 14

  stale_keys-Keeps : (d : Pooled) → Keeps Balanced (stale_keys c d)
  unfolding stale_keys
  stale_keys-Keeps [] = Keeps-pure []
  stale_keys-Keeps ((key, info) ∷ d) =
      Keeps-bind _ _ (is_stale-Keeps info)
        (λ stale. Keeps-bind _ _ (stale_keys-Keeps d) (λ keys. Keeps-pure _))

  close_keys-Keeps : (keys : List String) → Keeps Balanced (close_keys c keys)
  unfolding close_keys
  close_keys-Keeps [] = Keeps-pure tt
  close_keys-Keeps (key ∷ keys) = Keeps-bind _ _ (close_key-Keeps key) (λ _. close_keys-Keeps keys)

  cleanup-Keeps : Keeps Balanced (cleanup_stale_connections c)
  unfolding cleanup_stale_connections
  cleanup-Keeps = search (keeps_rules, stale_keys-Keeps, close_keys-Keeps)

  limit-Keeps : Keeps Balanced (limit c)
  unfolding limit
  limit-Keeps = search (keeps_rules, cleanup-Keeps)

  -- The two writes of a new entry, which keep the balance together.
  enter-Keeps :
      (key : String) (info : ConnectionInfo) (k : Connection)
      → Keeps {E = OpException} (Balanced {W = W}) (do
        write (put key info)
        modify (λ s. record s { total_connections_created = s.total_connections_created + 1 })
        pure k)
  unfolding write ◌>>=◌
  enter-Keeps key info k = record {
    at = λ s h. omega (arith, h, length-put key info s.connections);
  }

  create-Keeps :
      (key host username password : String) (port timeout : ℕ)
      → Keeps Balanced (create c key host username password port timeout)
  unfolding create
  create-Keeps key host username password port timeout =
      search (keeps_rules, on_world-Keeps, clock-Keeps, enter-Keeps) depth 12

  or_create-Keeps :
      (key host username password : String) (port timeout : ℕ) (used : Option Connection)
      → Keeps Balanced (or_create c key host username password port timeout used)
  unfolding or_create
  or_create-Keeps key host username password port timeout (some k) = Keeps-pure k
  or_create-Keeps key host username password port timeout none =
      search (keeps_rules, limit-Keeps, create-Keeps)

  get_connection-Keeps :
      (host username password : String) (port timeout : ℕ)
      → Keeps Balanced (get_connection c host username password port timeout)
  unfolding get_connection
  get_connection-Keeps host username password port timeout =
      search (keeps_rules, reuse-Keeps, or_create-Keeps)

  release_known-Keeps :
      (key : String) (found : Option ConnectionInfo) → Keeps Balanced (release_known c key found)
  unfolding release_known
  release_known-Keeps key none = Keeps-pure tt
  release_known-Keeps key (some info) = search (keeps_rules, steps)

  release_connection-Keeps : (k : Connection) → Keeps Balanced (release_connection c k)
  unfolding release_connection
  release_connection-Keeps k = search (keeps_rules, release_known-Keeps)

  cleanup_all-Keeps : Keeps Balanced (cleanup_all c)
  unfolding cleanup_all
  cleanup_all-Keeps = search (keeps_rules, close_keys-Keeps)

  call-Keeps : (call : Call) → Keeps Balanced (run_call c call)
  call-Keeps (get_it host username password port timeout) =
      search (keeps_rules, get_connection-Keeps)
  call-Keeps (release k) = release_connection-Keeps k
  call-Keeps (close k) = close_connection-Keeps k
  call-Keeps cleanup_stale = search (keeps_rules, cleanup-Keeps)
  call-Keeps cleanup_everything = cleanup_all-Keeps

  -- After any calls, in any order and with the exceptions that they raise, the pool has not closed and
  -- does not hold more connections than it has created.
  pub run_calls-Balanced :
      (calls : List Call) (s : ConnectionManager W) → Balanced s → Balanced (run_calls c calls s)
  run_calls-Balanced [] s h = h
  run_calls-Balanced (call ∷ calls) s h =
      run_calls-Balanced calls (run_call c call s).1 ((call-Keeps call).at s h)
