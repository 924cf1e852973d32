-- ===== src/Ssh/Pool.antt =====
-- common/OpTestConnectionManager.py: the pool of SSH connections. The lock makes each operation one
-- step; the health monitor's round is one call of `cleanup_stale_connections`.
mod State
pub mod Counts
pub mod Release
pub mod Cleanup
pub mod Untouched
pub mod Spared
pub mod Distinct
pub mod Entries
pub mod Served
pub mod Steps
pub mod Refines
mod Tests
use op_test.Prelude.{
  ℕ, zero, suc, ◌+◌, ◌-◌, Bool, true, false, not, ◌&&◌, ◌||◌, Option, none, some, String, List, [],
  ◌∷◌, map, length, ltb, leb, str_eq, if◌then◌else◌,
}
use Prim.Native.String.{◌++◌ as str_append}
use op_test.Exec.{Exec, pure, raise, gets, modify, catching, ◌>>=◌, ◌>>◌}
use op_test.Exceptions.{OpException, ssh_connection_failed}
use op_test.Ssh.Client.{Op}
pub use State.*

module _ {W : Type 0} where
  pub on_world : {A : Type 0} → Op W A → Act W A
  on_world op s = let (r, w) = op s.world in (r, record s { world = w })

  write : (Pooled → Pooled) → Act W Unit
  write f = modify (λ s. record s { connections = f s.connections })

module _ {W : Type 0} (c : Connections W) where
  pub clock : Act W ℕ
  clock s = let (t, w) = c.now s.world in (pure t) (record s { world = w })

  -- f"{username}@{host}:{port}"
  pub get_connection_key : String → String → ℕ → String
  get_connection_key host username port =
      str_append username (str_append "@" (str_append host (str_append ":" (c.str port))))

  pub key_of : Connection → String
  key_of k = get_connection_key k.host k.username k.port

  -- ConnectionInfo.acquire of a connection that is not in use, and ConnectionInfo.release
  abbrev pub acquired : ℕ → ConnectionInfo → ConnectionInfo
  acquired now info = record info { in_use = true; use_count = info.use_count + 1; last_used = now }

  abbrev pub released : ℕ → ConnectionInfo → ConnectionInfo
  released now info = record info { in_use = false; last_used = now }

  forget : String → Act W Unit
  forget key = modify (λ s. record s {
    connections = del key s.connections;
    total_connections_closed = s.total_connections_closed + 1;
  })

  close_known : String → Option ConnectionInfo → Act W Unit
  unfolding forget
  close_known key none = pure tt
  close_known key (some info) = do
    catching (on_world (c.disconnect info.connection.id)) (λ e. pure tt)
    forget key

  -- `_close_connection`
  pub close_key : String → Act W Unit
  unfolding close_known
  close_key key = do found ← gets (λ s. get key s.connections); close_known key found

  pub close_connection : Connection → Act W Unit
  unfolding close_key
  close_connection k = close_key (key_of k)

  is_young : ConnectionInfo → Act W Bool
  is_young info = do
    now ← clock
    s ← gets (λ s. s)
    pure (ltb (now - info.created_at) s.max_connection_age)

  -- An entry that may be used again, by the order of the conditions.
  pub is_usable : ConnectionInfo → Act W Bool
  unfolding is_young
  is_usable info = do
    healthy ← on_world (c.is_alive info.connection.id)
    if healthy then is_young info else pure false

  -- `conn_info.acquire()`: none where it is in use.
  acquire : String → ConnectionInfo → Act W (Option Connection)
  acquire key info = if info.in_use then pure none else (do
    now ← clock
    write (update key (acquired now))
    modify (λ s. record s { total_connections_reused = s.total_connections_reused + 1 })
    pure (some info.connection))

  -- The branch of `get_connection` for a key that the pool has.
  reuse : String → Option ConnectionInfo → Act W (Option Connection)
  unfolding is_usable acquire
  reuse key none = pure none
  reuse key (some info) = do
    usable ← is_usable info
    if usable then acquire key info else (do close_key key; pure none)

  -- One entry of the loop of `_cleanup_stale_connections_internal`.
  pub is_stale : ConnectionInfo → Act W Bool
  is_stale info = if info.in_use then pure false else (do
    healthy ← on_world (c.is_alive info.connection.id)
    if not healthy then pure true else (do
      idle_now ← clock
      s ← gets (λ s. s)
      if ltb s.max_idle_time (idle_now - info.last_used)
          then pure true
          else (do now ← clock; pure (ltb s.max_connection_age (now - info.created_at)))))

  pub stale_keys : Pooled → Act W (List String)
  unfolding is_stale
  stale_keys [] = pure []
  stale_keys ((key, info) ∷ d) = do
    stale ← is_stale info
    keys ← stale_keys d
    pure (if stale then key ∷ keys else keys)

  pub close_keys : List String → Act W Unit
  unfolding close_key
  close_keys [] = pure tt
  close_keys (key ∷ keys) = do close_key key; close_keys keys

  -- `_cleanup_stale_connections_internal` and `cleanup_stale_connections`
  pub cleanup_stale_connections : Act W ℕ
  unfolding stale_keys close_keys
  cleanup_stale_connections = do
    d ← gets (λ s. s.connections)
    keys ← stale_keys d
    close_keys keys
    pure (length keys)

  limit : Act W Unit
  limit = do
    s ← gets (λ s. s)
    if leb s.max_connections (length s.connections)
        then (do cleanup_stale_connections; pure tt)
        else pure tt

  -- The new entry: constructed, then acquired.
  create : String → String → String → String → ℕ → ℕ → Act W Connection
  create key host username password port timeout =
      catching
        (do
          id ← on_world (c.connect host username password port timeout)
          let connection : Connection = record {
            id = id;
            host = host;
            username = username;
            port = port;
          }
          created ← clock
          used ← clock
          now ← clock
          write (
              put key (
                acquired now (record {
                  connection = connection;
                  created_at = created;
                  last_used = used;
                  use_count = 0;
                  in_use = false;
                })))
          modify (λ s. record s { total_connections_created = s.total_connections_created + 1 })
          pure connection)
        (λ e. raise ssh_connection_failed)

  or_create : String → String → String → String → ℕ → ℕ → Option Connection → Act W Connection
  unfolding limit create
  or_create key host username password port timeout (some connection) = pure connection
  or_create key host username password port timeout none = do
    limit
    create key host username password port timeout

  pub get_connection : String → String → String → ℕ → ℕ → Act W Connection
  unfolding reuse or_create
  get_connection host username password port timeout = do
    let key = get_connection_key host username port
    found ← gets (λ s. get key s.connections)
    used ← reuse key found
    or_create key host username password port timeout used

  release_known : String → Option ConnectionInfo → Act W Unit
  release_known key none = pure tt
  release_known key (some info) = do now ← clock; write (update key (released now))

  pub release_connection : Connection → Act W Unit
  unfolding release_known
  release_connection k = do
    found ← gets (λ s. get (key_of k) s.connections)
    release_known (key_of k) found

  abbrev pub keys_of : Pooled → List String
  keys_of [] = []
  keys_of ((key, info) ∷ d) = key ∷ keys_of d

  pub cleanup_all : Act W Unit
  unfolding close_keys
  cleanup_all = do d ← gets (λ s. s.connections); close_keys (keys_of d)

  -- A call of one of the operations, for the histories of a pool.
  abbrev pub run_call : Call → Act W Unit
  run_call (get_it host username password port timeout) = do
    get_connection host username password port timeout
    pure tt
  run_call (release k) = release_connection k
  run_call (close k) = close_connection k
  run_call cleanup_stale = do cleanup_stale_connections; pure tt
  run_call cleanup_everything = cleanup_all

  abbrev pub run_calls : List Call → ConnectionManager W → ConnectionManager W
  run_calls [] s = s
  run_calls (call ∷ calls) s = run_calls calls (run_call call s).1
