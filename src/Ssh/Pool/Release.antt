-- ===== src/Ssh/Pool/Release.antt =====
-- A release and its key.
use op_test.Prelude.{◌≡◌, refl, false, some, String, [], ◌∷◌, Bool-cases, inl, inr, str_eq}
use op_test.Exec.{◌>>=◌}
use op_test.Ssh.Pool.{
  Connection, Connections, ConnectionInfo, ConnectionManager, Pooled, get, update, write, clock,
  released, key_of, release_known, release_connection,
}

ap_some : {A B : Type 0} (f : A → B) {a b : A} → some a ≡ some b → some (f a) ≡ some (f b)
ap_some f h = cc

get-update :
    (key : String) (f : ConnectionInfo → ConnectionInfo) (info : ConnectionInfo) (d : Pooled)
    → get key d ≡ some info
    → get key (update key f d) ≡ some (f info)
get-update key f info [] h = cc
get-update key f info ((k, old) ∷ d) h = elim (Bool-cases (str_eq k key)) [
  | inl e ↦ simp e (ap_some f (simp e at h))
  | inr e ↦ simp e (get-update key f info d (simp e at h))
]

module _ {W : Type 0} (c : Connections W) where
  -- After the release of a connection the entry under its key is free, whichever connection that entry
  -- holds: it may be one that was created since, and that another caller uses.
  pub release_connection_frees :
      (k : Connection) (info : ConnectionInfo) (s : ConnectionManager W)
      → get (key_of c k) s.connections ≡ some info
      → (free : ConnectionInfo) × (get (key_of c k) (release_connection c k s).1.connections
          ≡ some free)
        × (free.in_use ≡ false)
        × (free.connection ≡ info.connection)
  unfolding release_connection release_known write clock ◌>>=◌
  release_connection_frees k info s h =
      rw h (released c (c.now s.world).0 info, get-update _ _ info s.connections h, refl, refl)
