-- ===== src/Ssh/Pool/Spared.antt =====
-- The cleanup and the connections that are in use.
use op_test.Prelude.{
  ◌≡◌, refl, subst, sym, ◌∙◌, length, Bool, true, false, Option, none, some, String, List, [], ◌∷◌,
  Bool-cases, inl, inr, str_eq, eq_iff, arith, if◌then◌else◌,
}
use op_test.Exec.{pure, ◌>>=◌, ◌>>◌}
use op_test.Exec.Keeps.{Keeps, Keeps-pure, Keeps-modify, Keeps-bind, Keeps-catching}
use op_test.Exec.Triple.{
  Ends-kept, Ends-both, Triple, Triple-from, Triple-pure, Triple-bind, Triple-if, Triple-weaken,
  Triple-pre,
}
use op_test.Ssh.Pool.Untouched.{on_world-Keeps, is_stale-Keeps}
use op_test.Ssh.Pool.{
  Connections, ConnectionInfo, ConnectionManager, Pooled, Act, get, del, forget, close_known,
  close_key, is_stale, stale_keys, close_keys, cleanup_stale_connections,
}

-- Every entry under the key is in use.
abbrev pub InUse : String → Pooled → Type 0
InUse key [] = Unit
InUse key ((k, info) ∷ d) = (str_eq k key ≡ true → info.in_use ≡ true) × InUse key d

-- The key is none of these.
abbrev Missing : String → List String → Type 0
Missing key [] = Unit
Missing key (k ∷ keys) = (str_eq k key ≡ false) × Missing key keys

Missing-if :
    (key k : String) (keys : List String) (stale : Bool)
    → (stale ≡ true → str_eq k key ≡ false)
    → Missing key keys
    → Missing key (if stale then k ∷ keys else keys)
Missing-if key k keys true h m = (h refl, m)
Missing-if key k keys false h m = m

pub get-del :
    (key other : String) (d : Pooled) → str_eq other key ≡ false → get key (del other d) ≡ get key d
get-del key other [] h = refl
get-del key other ((k, info) ∷ d) h = elim (Bool-cases (str_eq k other)) [
  | inl e ↦ simp (e, subst (λ x. str_eq x key ≡ false) (sym ((eq_iff k other).0 e)) h) refl
  | inr e ↦ elim (Bool-cases (str_eq k key)) [
    | inl f ↦ simp (e, f) refl
    | inr f ↦ simp (e, f) (get-del key other d h)
  ]
]

module _ {W : Type 0} (c : Connections W) (key : String) (found : Option ConnectionInfo) where
  abbrev Found : ConnectionManager W → Type 0
  Found s = get key s.connections ≡ found

  kept : {A : Type 0} {m : Act W A} → Keeps Found m → Triple Found (λ _. Found) (λ _. Found) m
  kept {m = m} k = record { at = λ s h. Ends-kept Found (m s).0 (m s).1 (k.at s h) }

  abbrev FoundIn : Pooled → Type 0
  FoundIn d = get key d ≡ found

  is_stale-InUse :
      (k : String) (info : ConnectionInfo)
      → (str_eq k key ≡ true → info.in_use ≡ true)
      → Triple Found
          (λ stale s. Found s × (stale ≡ true → str_eq k key ≡ false))
          (λ _. Found)
          (is_stale c info)
  unfolding is_stale
  is_stale-InUse k info h = elim (Bool-cases (str_eq k key)) [
    | inl e ↦
        Triple-if info.in_use _ _ (λ u. Triple-pure false (λ s q. (q, λ t. cc)))
          (λ u. absurd (ground (arith, u, h e)))
    | inr e ↦
        Triple-weaken (λ b s q. (q, λ t. e)) (λ x s q. q) (kept (is_stale-Keeps c FoundIn info))
  ]

  stale_keys-Missing :
      (d : Pooled)
      → InUse key d
      → Triple Found (λ keys s. Found s × Missing key keys) (λ _. Found) (stale_keys c d)
  unfolding stale_keys
  stale_keys-Missing [] u = Triple-pure [] (λ s q. (q, tt))
  stale_keys-Missing ((k, info) ∷ d) u = Triple-bind _ _ (is_stale-InUse k info u.0) (λ stale.
      Triple-from _ (λ s q.
        Triple-pre (λ x e. rw e q.0)
          (Triple-bind _ _ (stale_keys-Missing d u.1)
            (λ keys. Triple-pure _ (λ x m. (m.0, Missing-if key k keys stale q.1 m.1))))))

  forget-Keeps : (other : String) → str_eq other key ≡ false → Keeps Found (forget c other)
  unfolding forget
  forget-Keeps other h = Keeps-modify _ (λ s q. get-del key other s.connections h ∙ q)

  close_known-Keeps :
      (other : String) (entry : Option ConnectionInfo)
      → str_eq other key ≡ false
      → Keeps Found (close_known c other entry)
  unfolding close_known
  close_known-Keeps other none h = Keeps-pure tt
  close_known-Keeps other (some info) h =
      Keeps-bind _ _ (Keeps-catching _ _ (on_world-Keeps c FoundIn _) (λ e. Keeps-pure tt))
        (λ _. forget-Keeps other h)

  close_key-Keeps : (other : String) → str_eq other key ≡ false → Keeps Found (close_key c other)
  unfolding close_key ◌>>=◌
  close_key-Keeps other h = record {
    at = λ s q. (close_known-Keeps other (get other s.connections) h).at s q;
  }

  close_keys-Keeps : (keys : List String) → Missing key keys → Keeps Found (close_keys c keys)
  unfolding close_keys
  close_keys-Keeps [] m = Keeps-pure tt
  close_keys-Keeps (other ∷ keys) m =
      Keeps-bind _ _ (close_key-Keeps other m.0) (λ _. close_keys-Keeps keys m.1)

  cleanup-Found :
      (d : Pooled)
      → InUse key d
      → Triple Found
          (λ _. Found)
          (λ _. Found)
          (do keys ← stale_keys c d; close_keys c keys; pure (length keys))
  cleanup-Found d u = Triple-bind _ _ (stale_keys-Missing d u) (λ keys. Triple-from _ (λ s q.
      Triple-pre (λ x e. rw e q.0)
        (Triple-bind _ _ (kept (close_keys-Keeps keys q.1)) (λ _. Triple-pure _ (λ x r. r)))))

-- The cleanup leaves the entry of a key as it is while it is in use, whether its connection is alive
-- or not and however old it is.
pub cleanup_spares :
    {W : Type 0} (c : Connections W) (key : String) (s : ConnectionManager W)
    → InUse key s.connections
    → get key (cleanup_stale_connections c s).1.connections ≡ get key s.connections
unfolding cleanup_stale_connections ◌>>=◌
cleanup_spares c key s u =
    Ends-both (Found c key (get key s.connections)) _ _
      ((cleanup-Found c key (get key s.connections) s.connections u).at s refl)
