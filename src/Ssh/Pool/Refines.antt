-- ===== src/Ssh/Pool/Refines.antt =====
-- The calls of the pool go by the steps of the map.
use op_test.Prelude.{
  ◌≡◌, refl, sym, subst, false, ℕ, Option, none, some, String, List, [], ◌∷◌, str_eq, eq_iff,
  Bool-cases, inl, inr, if◌then◌else◌,
}
use op_test.Exec.{Result, ok, err, ◌>>=◌}
use op_test.Exec.Keeps.{Keeps-bind, Keeps-pure}
use op_test.Exec.Triple.{
  Ends-kept, Ends, Ends-both, Triple, Triple-pure, Triple-modify, Triple-bind, Triple-catching,
}
use op_test.Exceptions.{OpException}
use op_test.Ssh.Pool.{
  Call, get_it, release, close, cleanup_stale, cleanup_everything, Connection, Connections,
  ConnectionInfo, ConnectionManager, get, update, released, on_world, write, clock, forget,
  close_known, close_key, close_connection, release_known, release_connection, get_connection_key,
  key_of, run_call, run_calls,
}
use op_test.Ssh.Pool.Cleanup.{Now, Never, cleanup_all_empties}
use op_test.Ssh.Pool.Distinct.{
  Distinct, get-update_other, get-update_own, get-del_own, changed, update-Distinct,
}
use op_test.Ssh.Pool.Entries.{Has, close_key-Keeps, cleanup-Keeps, get_connection-Keeps}
use op_test.Ssh.Pool.Steps.{
  view, Left, Got, Steps, Refined, Left-same, Left-evict, Got-same, Got-evict, Got-drop, Got-take,
}

module _ {W : Type 0} (c : Connections W) where
  -- The key that is closed
  module _ (k : String) where
    close_known-gone :
        (entry : Option ConnectionInfo)
        → Triple
            (λ s. Distinct s.connections × (get k s.connections ≡ entry))
            (λ _ s. get k s.connections ≡ none)
            (λ _ s. get k s.connections ≡ none)
            (close_known c k entry)
    unfolding close_known on_world forget
    close_known-gone none = Triple-pure tt (λ s h. h.1)
    close_known-gone (some info) =
        Triple-bind {R = λ _ s. Distinct s.connections} _ _
          (Triple-catching {D = λ _ s. Distinct s.connections} _ _
            (record {
              at = λ s h. Ends-kept (λ (t : ConnectionManager W). Distinct t.connections) _ _ h.0;
            })
            (λ e. Triple-pure tt (λ s h. h)))
          (λ a. Triple-modify _ (λ s u. get-del_own k s.connections u))

    closed_own :
        (s : ConnectionManager W)
        → Distinct s.connections
        → get k (close_key c k s).1.connections ≡ none
    unfolding close_key ◌>>=◌
    closed_own s u =
        Ends-both (λ s. get k s.connections ≡ none) _ _
          ((close_known-gone (get k s.connections)).at s (u, refl))

    closed_other :
        (q : String) (s : ConnectionManager W)
        → Distinct s.connections
        → str_eq k q ≡ false
        → get q (close_key c k s).1.connections ≡ get q s.connections
    closed_other q s u h =
        ((close_key-Keeps c q (λ x. x ≡ get q s.connections) k
            (λ e. let no : ⊥ = cc in elim no [ ])).at
          s (u, refl)).1

  none_left :
      (n : ℕ) (r : Result OpException Unit) (t : ConnectionManager W)
      → Ends (λ _. Now c [] n) (Never c) r t
      → t.connections ≡ []
  none_left n (ok a) t h = h.0
  none_left n (err e) t h = elim h [ ]

  -- The calls, one by one
  module _ (s : ConnectionManager W) (u : Distinct s.connections) where
    close_refines : (k : Connection) → Refined c (close k) s (run_call c (close k) s).1
    unfolding close_connection
    close_refines k = (
      ((close_key-Keeps c (key_of c k) (λ x. Unit) (key_of c k) (λ e. tt)).at s (u, tt)).0,
      λ q. elim (Bool-cases (str_eq (key_of c k) q)) [
        | inl e ↦ simp e (
            subst (λ x. get x (close_key c (key_of c k) s).1.connections ≡ none)
              ((eq_iff (key_of c k) q).0 e) (closed_own (key_of c k) s u))
        | inr e ↦ simp e (closed_other (key_of c k) q s u e)
      ],
    )

    updated :
        (k : String) (f : ConnectionInfo → ConnectionInfo) (q : String)
        → get q (update k f s.connections)
          ≡ (if str_eq k q then changed f (get q s.connections) else get q s.connections)
    updated k f q = elim (Bool-cases (str_eq k q)) [
      | inl e ↦ simp e (
          subst (λ x. get x (update k f s.connections) ≡ changed f (get x s.connections))
            ((eq_iff k q).0 e) (get-update_own k f s.connections))
      | inr e ↦ simp e (get-update_other k q f s.connections e)
    ]

    untouched :
        (k : Connection) (q : String)
        → get (key_of c k) s.connections ≡ none
        → get q s.connections ≡ (
            if str_eq (key_of c k) q
            then changed (released c 0) (get q s.connections)
            else get q s.connections)
    untouched k q h = elim (Bool-cases (str_eq (key_of c k) q)) [
      | inl e ↦
          let gone : get q s.connections ≡ none =
            subst (λ x. get x s.connections ≡ none) ((eq_iff (key_of c k) q).0 e) h in
          simp (e, gone) refl
      | inr e ↦ simp e refl
    ]

    release_known_refines :
        (k : Connection) (found : Option ConnectionInfo)
        → get (key_of c k) s.connections ≡ found
        → Refined c (release k) s (release_known c (key_of c k) found s).1
    unfolding release_known write clock ◌>>=◌
    release_known_refines k none h = (u, (0, λ q. untouched k q h))
    release_known_refines k (some info) h =
        let now = (c.now s.world).0 in
        (
          update-Distinct (key_of c k) (released c now) s.connections u,
          (now, λ q. updated (key_of c k) (released c now) q),
        )

    release_refines : (k : Connection) → Refined c (release k) s (run_call c (release k) s).1
    unfolding release_connection ◌>>=◌
    release_refines k = release_known_refines k (get (key_of c k) s.connections) refl

    sweep_refines : Refined c cleanup_stale s (run_call c cleanup_stale s).1
    sweep_refines =
        let kept : (q : String) → Has c q (Left (view s q)) (run_call c cleanup_stale s).1 = λ q.
          (Keeps-bind _ _ (cleanup-Keeps c q (Left (view s q)) (Left-evict (view s q)))
              (λ a. Keeps-pure tt)).at
            s (u, Left-same (view s q)) in
        ((kept "").0, λ q. (kept q).1)

    empty_refines : Refined c cleanup_everything s (run_call c cleanup_everything s).1
    empty_refines =
        let empty = none_left _ _ _ (cleanup_all_empties c s) in
        (subst Distinct (sym empty) tt, λ q. subst (λ d. get q d ≡ none) (sym empty) refl)

    get_refines :
        (host username password : String) (port timeout : ℕ)
        → Refined c
            (get_it host username password port timeout)
            s
            (run_call c (get_it host username password port timeout) s).1
    get_refines host username password port timeout =
        let key = get_connection_key c host username port in
        let kept : (q : String)
            → Has c q (Got (str_eq key q) (view s q))
                (run_call c (get_it host username password port timeout) s).1 =
          λ q.
            (Keeps-bind _ _
                (get_connection-Keeps c q (Got (str_eq key q) (view s q))
                  (Got-evict (str_eq key q) (view s q)) host username port
                  (λ e. Got-drop (str_eq key q) e (view s q))
                  (λ e. Got-take (str_eq key q) e (view s q)) password timeout)
                (λ a. Keeps-pure tt)).at
              s (u, Got-same (str_eq key q) (view s q)) in
        ((kept "").0, λ q. (kept q).1)

    -- Each call keeps the keys of the dict distinct and does no more than its step.
    pub run_call_refines : (call : Call) → Refined c call s (run_call c call s).1
    run_call_refines (get_it host username password port timeout) =
        get_refines host username password port timeout
    run_call_refines (release k) = release_refines k
    run_call_refines (close k) = close_refines k
    run_call_refines cleanup_stale = sweep_refines
    run_call_refines cleanup_everything = empty_refines

  -- Where the keys of the dict are distinct they are distinct after any calls, also after calls that
  -- raise, and the pool, seen as a map from keys to entries, goes through the steps of `Step` one after
  -- the other. A request for a connection changes no entry of another key, but may delete one that is
  -- not in use. The entry of its own key stays, is deleted or is in use. A release marks the entry of
  -- its key, a close deletes it, a cleanup deletes only entries that are not in use, and `cleanup_all`
  -- leaves none.
  pub run_calls_refine :
      (calls : List Call) (s : ConnectionManager W)
      → Distinct s.connections
      → Distinct (run_calls c calls s).connections
        × Steps c calls (view s) (view (run_calls c calls s))
  run_calls_refine [] s u = (u, λ q. refl)
  run_calls_refine (call ∷ calls) s u =
      let first = run_call_refines s u call in
      let others = run_calls_refine calls (run_call c call s).1 first.0 in
      (others.0, (view (run_call c call s).1, first.1, others.1))
