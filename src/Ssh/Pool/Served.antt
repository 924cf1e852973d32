-- ===== src/Ssh/Pool/Served.antt =====
-- What a caller of `get_connection` is given.
use op_test.Prelude.{◌≡◌, refl, false, ◌∙◌, ap, ◌+◌, true, ℕ, Option, none, some, String}
use op_test.Exec.{Result, ok, err, pure, modify, ◌>>=◌, ◌>>◌}
use op_test.Exec.Post.{
  Returns, Post, Post-pure, Post-raise, Post-if, Post-bind, Post-then, Post-catching,
}
use op_test.Exceptions.{OpException}
use op_test.Ssh.Pool.{
  Connection, Connections, ConnectionInfo, ConnectionManager, Act, get, put, acquired, write, clock,
  acquire, reuse, create, or_create, get_connection, get_connection_key,
}
use op_test.Ssh.Pool.Untouched.{is_usable-Keeps}
use op_test.Ssh.Pool.Distinct.{get-put_own, get-update_own, changed}

-- The connection stands under the key and is in use.
abbrev pub Served : {W : Type 0} → String → Connection → ConnectionManager W → Type 0
Served k connection s =
    (info : ConnectionInfo) × (get k s.connections ≡ some info)
    × (info.in_use ≡ true)
    × (info.connection ≡ connection)

abbrev Answer : {W : Type 0} → String → Option Connection → ConnectionManager W → Type 0
Answer k none s = Unit
Answer k (some connection) s = Served k connection s

any :
    {W A : Type 0} (r : Result OpException A) (s : ConnectionManager W) → Returns (λ a s. Unit) r s
any (ok a) s = tt
any (err e) s = tt

Post-any : {W A : Type 0} {P : ConnectionManager W → Type 0} (m : Act W A) → Post P (λ a s. Unit) m
Post-any m = record { at = λ s h. any (m s).0 (m s).1 }

module _ {W : Type 0} (c : Connections W) (k : String) where
  entered :
      (made : ConnectionInfo) (connection : Connection) (now : ℕ)
      → made.connection ≡ connection
      → Post {E = OpException}
          (λ s. Unit)
          (Served {W = W} k)
          (do
            write (put k (acquired c now made))
            modify (λ s. record s { total_connections_created = s.total_connections_created + 1 })
            pure connection)
  unfolding write ◌>>=◌
  entered made connection now e = record {
    at = λ s h. (acquired c now made, get-put_own k (acquired c now made) s.connections, refl, e);
  }

  abbrev Finds : Option ConnectionInfo → ConnectionManager W → Type 0
  Finds found s = get k s.connections ≡ found

  acquire-Answer : (info : ConnectionInfo) → Post (Finds (some info)) (Answer k) (acquire c k info)
  unfolding acquire clock write ◌>>=◌
  acquire-Answer info = Post-if info.in_use _ _ (Post-pure none (λ s h. tt)) (record {
    at = λ s h.
        let f = acquired c (c.now s.world).0 in
        (f info, get-update_own k f s.connections ∙ ap (changed f) h, refl, refl);
  })

  reuse-Answer : (found : Option ConnectionInfo) → Post (Finds found) (Answer k) (reuse c k found)
  unfolding reuse
  reuse-Answer none = Post-pure none (λ s h. tt)
  reuse-Answer (some info) =
      Post-bind _ _ (is_usable-Keeps c (λ d. get k d ≡ some info) info) (λ usable.
        Post-if usable _ _ (acquire-Answer info)
          (Post-then {R = λ a s. Unit} _ _ (Post-any _) (λ a. Post-pure none (λ s h. tt))))

  create-Served :
      (host username password : String) (port timeout : ℕ)
      → Post (λ s. Unit) (Served k) (create c k host username password port timeout)
  unfolding create
  create-Served host username password port timeout =
      Post-catching _ _ (record { at = λ s h. tt })
        (Post-then {R = λ a s. Unit} _ _ (Post-any _) (λ id.
          Post-then {R = λ a s. Unit} _ _ (Post-any _) (λ t.
            Post-then {R = λ a s. Unit} _ _ (Post-any _) (λ u.
              Post-then {R = λ a s. Unit} _ _ (Post-any _) (λ now.
                entered
                  (record {
                    connection = record { id = id; host = host; username = username; port = port };
                    created_at = t;
                    last_used = u;
                    use_count = 0;
                    in_use = false;
                  })
                  _ now refl)))))
        (λ e. Post-raise _)

  or_create-Served :
      (host username password : String) (port timeout : ℕ) (used : Option Connection)
      → Post (Answer k used) (Served k) (or_create c k host username password port timeout used)
  unfolding or_create
  or_create-Served host username password port timeout (some connection) =
      Post-pure connection (λ s h. h)
  or_create-Served host username password port timeout none =
      Post-then {R = λ a s. Unit} _ _ (Post-any _)
        (λ a. create-Served host username password port timeout)

-- Where `get_connection` returns, the entry under the key of its arguments is in use and holds the
-- connection that is returned, whether it was in the pool or was made.
pub get_connection_serves :
    {W : Type 0} (c : Connections W) (host username password : String) (port timeout : ℕ)
    (s : ConnectionManager W)
    → Returns
        (Served (get_connection_key c host username port))
        (get_connection c host username password port timeout s).0
        (get_connection c host username password port timeout s).1
unfolding get_connection ◌>>=◌
get_connection_serves c host username password port timeout s =
    let key = get_connection_key c host username port in
    (Post-then _ _ (reuse-Answer c key (get key s.connections))
        (λ used. or_create-Served c key host username password port timeout used)).at
      s refl
