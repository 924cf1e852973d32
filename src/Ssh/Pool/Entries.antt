-- ===== src/Ssh/Pool/Entries.antt =====
-- One entry of the pool under its operations: what they may do to the entry of a key.
use op_test.Prelude.{
  ◌≡◌, refl, sym, subst, ◌∙◌, true, false, ℕ, ◌+◌, Option, none, some, String, List, [], ◌∷◌,
  str_eq, eq_iff, ◌⊎◌, Bool-cases, inl, inr,
}
use op_test.Exec.{pure, modify, ◌>>=◌, ◌>>◌}
use op_test.Exec.Keeps.{
  Keeps, Keeps-pure, Keeps-raise, Keeps-gets, Keeps-modify, Keeps-bind, Keeps-catching, Keeps-if,
  keeps_rules,
}
use op_test.Exceptions.{OpException}
use op_test.Ssh.Pool.{
  Connection, Connections, ConnectionInfo, ConnectionManager, Pooled, get, put, update, del,
  acquired, write, forget, close_known, close_key, is_usable, acquire, reuse, close_keys,
  cleanup_stale_connections, limit, create, or_create, get_connection, get_connection_key,
}
use op_test.Ssh.Pool.Untouched.{on_world-Keeps, clock-Keeps, is_usable-Keeps, stale_keys-Keeps}
use op_test.Ssh.Pool.Spared.{get-del, cleanup_spares}
use op_test.Ssh.Pool.Distinct.{
  Distinct, get-put_other, get-put_own, get-update_other, get-update_own, get-del_own, changed,
  del-Distinct, put-Distinct, update-Distinct, get-InUse,
}

-- A predicate of the entry under the key `q`, with distinct keys
module _ {W : Type 0} (c : Connections W) (q : String) (Q : Option ConnectionInfo → Type 0) where
  abbrev pub OfKey : Pooled → Type 0
  OfKey d = Distinct d × Q (get q d)

  abbrev pub Has : ConnectionManager W → Type 0
  Has s = OfKey s.connections

  reused-Keeps :
      Keeps {E = OpException} Has
        (modify (λ s. record s { total_connections_reused = s.total_connections_reused + 1 }))
  reused-Keeps = Keeps-modify _ (λ s h. h)

  created-Keeps :
      Keeps {E = OpException} Has
        (modify (λ s. record s { total_connections_created = s.total_connections_created + 1 }))
  created-Keeps = Keeps-modify _ (λ s h. h)

  -- A key whose entry may be deleted
  module _ (k : String) (drop : str_eq k q ≡ true → Q none) where
    forget_one : (d : Pooled) → Distinct d → Q (get q d) → Q (get q (del k d))
    forget_one d u h = elim (Bool-cases (str_eq k q)) [
      | inl e ↦
          subst Q (sym (subst (λ x. get x (del k d) ≡ none) ((eq_iff k q).0 e) (get-del_own k d u)))
            (drop e)
      | inr e ↦ subst Q (sym (get-del q k d e)) h
    ]

    forget-Keeps : Keeps Has (forget c k)
    unfolding forget
    forget-Keeps =
        Keeps-modify _ (λ s h. (del-Distinct k s.connections h.0, forget_one s.connections h.0 h.1))

    close_known-Keeps : (entry : Option ConnectionInfo) → Keeps Has (close_known c k entry)
    unfolding close_known
    close_known-Keeps none = Keeps-pure tt
    close_known-Keeps (some info) =
        Keeps-bind _ _ (Keeps-catching _ _ (on_world-Keeps c OfKey _) (λ e. Keeps-pure tt))
          (λ a. forget-Keeps)

    pub close_key-Keeps : Keeps Has (close_key c k)
    unfolding close_key ◌>>=◌
    close_key-Keeps = record { at = λ s h. (close_known-Keeps (get k s.connections)).at s h }

  -- Where any entry may be deleted
  module _ (drop : Q none) where
    pub close_keys-Keeps : (keys : List String) → Keeps Has (close_keys c keys)
    unfolding close_keys
    close_keys-Keeps [] = Keeps-pure tt
    close_keys-Keeps (k ∷ keys) =
        Keeps-bind _ _ (close_key-Keeps k (λ e. drop)) (λ a. close_keys-Keeps keys)

    pub dropped-Keeps : Keeps Has (cleanup_stale_connections c)
    unfolding cleanup_stale_connections
    dropped-Keeps = Keeps-bind _ _ (Keeps-gets _) (λ d.
        Keeps-bind _ _ (stale_keys-Keeps c OfKey d)
          (λ keys. Keeps-bind _ _ (close_keys-Keeps keys) (λ a. Keeps-pure _)))

-- The cleanup deletes no more than entries that are not in use.
module _ {W : Type 0} (c : Connections W) (q : String) (Q : Option ConnectionInfo → Type 0)
    (evict : (info : ConnectionInfo) → info.in_use ≡ false → Q (some info) → Q none) where
  -- The entry from before, or none
  abbrev SameOrNone : Option ConnectionInfo → Option ConnectionInfo → Type 0
  SameOrNone before x = (x ≡ before) ⊎ (x ≡ none)

  left_entry :
      (before x : Option ConnectionInfo)
      → Q before
      → SameOrNone before x
      → ((info : ConnectionInfo) → before ≡ some info → info.in_use ≡ true → x ≡ before)
      → Q x
  left_entry before x h (inl e) spared = subst Q (sym e) h
  left_entry none x h (inr e) spared = subst Q (sym e) h
  left_entry (some info) x h (inr e) spared = elim (Bool-cases info.in_use) [
    | inl b ↦ subst Q (sym (spared info refl b)) h
    | inr b ↦ subst Q (sym e) (evict info b h)
  ]

  cleaned :
      (before : Option ConnectionInfo) (s : ConnectionManager W)
      → Distinct s.connections
      → get q s.connections ≡ before
      → Q before
      → Has c q Q (cleanup_stale_connections c s).1
  cleaned before s u e h =
      let swept = (dropped-Keeps c q (SameOrNone before) (inr refl)).at s (u, inl e) in
      (
        swept.0,
        left_entry before _ h swept.1
            (λ info f b. cleanup_spares c q s (get-InUse q info s.connections u (e ∙ f) b) ∙ e),
      )

  pub cleanup-Keeps : Keeps (Has c q Q) (cleanup_stale_connections c)
  cleanup-Keeps = record { at = λ s h. cleaned (get q s.connections) s h.0 refl h.1 }

-- What `get_connection` does to the entries: its own may be deleted or taken into use.
module _ {W : Type 0} (c : Connections W) (q : String) (Q : Option ConnectionInfo → Type 0)
    (evict : (info : ConnectionInfo) → info.in_use ≡ false → Q (some info) → Q none) (k : String)
    (drop : str_eq k q ≡ true → Q none)
    (take : str_eq k q ≡ true → (info : ConnectionInfo) → info.in_use ≡ true → Q (some info)) where
  put_one :
      (info : ConnectionInfo) (d : Pooled)
      → info.in_use ≡ true
      → Q (get q d)
      → Q (get q (put k info d))
  put_one info d b h = elim (Bool-cases (str_eq k q)) [
    | inl e ↦
        subst Q
          (sym (
            subst (λ x. get x (put k info d) ≡ some info) ((eq_iff k q).0 e)
              (get-put_own k info d)))
          (take e info b)
    | inr e ↦ subst Q (sym (get-put_other k q info d e)) h
  ]

  enter-Keeps :
      (info : ConnectionInfo) (connection : Connection)
      → info.in_use ≡ true
      → Keeps {E = OpException} (Has c q Q) (do
        write (put k info)
        modify (λ s. record s { total_connections_created = s.total_connections_created + 1 })
        pure connection)
  unfolding write ◌>>=◌
  enter-Keeps info connection b = record {
    at = λ s h. (put-Distinct k info s.connections h.0, put_one info s.connections b h.1);
  }

  take_one :
      (now : ℕ) (x : Option ConnectionInfo)
      → str_eq k q ≡ true
      → Q x
      → Q (changed (acquired c now) x)
  take_one now none e h = h
  take_one now (some info) e h = take e (acquired c now info) refl

  acquired_one : (now : ℕ) (d : Pooled) → Q (get q d) → Q (get q (update k (acquired c now) d))
  acquired_one now d h = elim (Bool-cases (str_eq k q)) [
    | inl e ↦
        subst Q
          (sym (
            subst (λ x. get x (update k (acquired c now) d) ≡ changed (acquired c now) (get x d))
              ((eq_iff k q).0 e) (get-update_own k (acquired c now) d)))
          (take_one now (get q d) e h)
    | inr e ↦ subst Q (sym (get-update_other k q (acquired c now) d e)) h
  ]

  acquired-Keeps :
      (now : ℕ) → Keeps {E = OpException} (Has c q Q) (write (update k (acquired c now)))
  unfolding write
  acquired-Keeps now = Keeps-modify _ (λ s h.
      (update-Distinct k (acquired c now) s.connections h.0, acquired_one now s.connections h.1))

  acquire-Keeps : (info : ConnectionInfo) → Keeps (Has c q Q) (acquire c k info)
  unfolding acquire
  acquire-Keeps info = Keeps-if info.in_use _ _ (Keeps-pure _) (
      Keeps-bind _ _ (clock-Keeps c (OfKey c q Q)) (λ now.
        Keeps-bind _ _ (acquired-Keeps now)
          (λ a. Keeps-bind _ _ (reused-Keeps c q Q) (λ b. Keeps-pure _))))

  own_key-Keeps : Keeps (Has c q Q) (close_key c k)
  own_key-Keeps = close_key-Keeps c q Q k drop

  usable-Keeps : (info : ConnectionInfo) → Keeps (Has c q Q) (is_usable c info)
  usable-Keeps info = is_usable-Keeps c (OfKey c q Q) info

  reuse-Keeps : (found : Option ConnectionInfo) → Keeps (Has c q Q) (reuse c k found)
  unfolding reuse
  reuse-Keeps none = Keeps-pure none
  reuse-Keeps (some info) = search (keeps_rules, usable-Keeps, acquire-Keeps, own_key-Keeps)

  sweep-Keeps : Keeps (Has c q Q) (cleanup_stale_connections c)
  sweep-Keeps = cleanup-Keeps c q Q evict

  limit-Keeps : Keeps (Has c q Q) (limit c)
  unfolding limit
  limit-Keeps = search (keeps_rules, sweep-Keeps)

  create-Keeps :
      (host username password : String) (port timeout : ℕ)
      → Keeps (Has c q Q) (create c k host username password port timeout)
  unfolding create
  create-Keeps host username password port timeout =
      Keeps-catching _ _
        (Keeps-bind _ _ (on_world-Keeps c (OfKey c q Q) _) (λ id.
          Keeps-bind _ _ (clock-Keeps c (OfKey c q Q)) (λ t.
            Keeps-bind _ _ (clock-Keeps c (OfKey c q Q))
              (λ u. Keeps-bind _ _ (clock-Keeps c (OfKey c q Q)) (λ now. enter-Keeps _ _ refl)))))
        (λ e. Keeps-raise _)

  or_create-Keeps :
      (host username password : String) (port timeout : ℕ) (used : Option Connection)
      → Keeps (Has c q Q) (or_create c k host username password port timeout used)
  unfolding or_create
  or_create-Keeps host username password port timeout (some connection) = Keeps-pure connection
  or_create-Keeps host username password port timeout none =
      Keeps-bind _ _ limit-Keeps (λ a. create-Keeps host username password port timeout)

module _ {W : Type 0} (c : Connections W) (q : String) (Q : Option ConnectionInfo → Type 0)
    (evict : (info : ConnectionInfo) → info.in_use ≡ false → Q (some info) → Q none)
    (host username : String) (port : ℕ)
    (drop : str_eq (get_connection_key c host username port) q ≡ true → Q none)
    (take : str_eq (get_connection_key c host username port) q ≡ true
      → (info : ConnectionInfo) → info.in_use ≡ true
      → Q (some info)) where
  pub get_connection-Keeps :
      (password : String) (timeout : ℕ)
      → Keeps (Has c q Q) (get_connection c host username password port timeout)
  unfolding get_connection
  get_connection-Keeps password timeout =
      let k = get_connection_key c host username port in
      Keeps-bind _ _ (Keeps-gets _) (λ found.
        Keeps-bind _ _ (reuse-Keeps c q Q evict k drop take found) (λ used.
          or_create-Keeps c q Q evict k drop take host username password port timeout used))
