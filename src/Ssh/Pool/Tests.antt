-- ===== src/Ssh/Pool/Tests.antt =====
-- A pool over connections that are always alive, and the theorems applied to it.
use op_test.Prelude.{ℕ, ◌+◌, ◌≡◌, refl, true, false, some, List, [], ◌∷◌, arith}
use op_test.Exec.{ok}
use op_test.Exec.Post.{Returns}
use op_test.Exec.Triple.{Ends}
use op_test.Ssh.Pool
use op_test.Ssh.Pool.{
  Connections, ConnectionInfo, ConnectionManager, Call, get_it, release, cleanup_stale, run_calls,
  get, key_of, get_connection_key, get_connection, release_connection, cleanup_all,
  cleanup_stale_connections,
}
use op_test.Ssh.Pool.Spared.{cleanup_spares}
use op_test.Ssh.Pool.Counts.{Balanced, run_calls-Balanced}
use op_test.Ssh.Pool.Release.{release_connection_frees}
use op_test.Ssh.Pool.Cleanup.{Now, Never, cleanup_all_empties, get_head}
use op_test.Ssh.Pool.Distinct.{Distinct}
use op_test.Ssh.Pool.Served.{Served, get_connection_serves}
use op_test.Ssh.Pool.Steps.{Steps, view}
use op_test.Ssh.Pool.Refines.{run_calls_refine}

abbrev objects : Connections ℕ
objects = record {
  connect = λ host username password port timeout w. (ok w, w + 1);
  disconnect = λ id w. (ok tt, w);
  is_alive = λ id w. (ok true, w);
  now = λ w. (0, w);
  str = λ n. "22";
}

abbrev pool : ConnectionManager ℕ
pool = Pool.created 0 2 300 3600

abbrev first : Pool.Connection
first = record { id = 0; host = "10.0.0.7"; username = "root"; port = 22 }

abbrev held : ConnectionInfo
held = record {
  connection = record first { id = 1 };
  created_at = 0;
  last_used = 0;
  use_count = 1;
  in_use = true;
}

-- The entry of `first` was replaced by a connection that is in use.
abbrev replaced : ConnectionManager ℕ
replaced = record pool {
  connections = (key_of objects first, held) ∷ [];
  total_connections_created = 2;
}

held_there : get (key_of objects first) replaced.connections ≡ some held
held_there = get_head (key_of objects first) held []

abbrev history : List Call
history =
    get_it "10.0.0.7" "root" "x" 22 30
    ∷ get_it "10.0.0.7" "root" "x" 22 30
    ∷ release first
    ∷ cleanup_stale
    ∷ []

run_calls-Balanced_example : Balanced (run_calls objects history pool)
run_calls-Balanced_example = run_calls-Balanced objects history pool (omega arith)

released_is_free :
    (free : ConnectionInfo) × (get
        (key_of objects first)
        (release_connection objects first replaced).1.connections
      ≡ some free)
    × (free.in_use ≡ false)
    × (free.connection ≡ held.connection)
released_is_free = release_connection_frees objects first held replaced held_there

pool_emptied :
    Ends
      (λ _. Now objects [] 1)
      (Never objects)
      (cleanup_all objects replaced).0
      (cleanup_all objects replaced).1
pool_emptied = cleanup_all_empties objects replaced

spared :
    get (key_of objects first) (cleanup_stale_connections objects replaced).1.connections
    ≡ get (key_of objects first) replaced.connections
spared = cleanup_spares objects (key_of objects first) replaced ((λ e. refl), tt)

run_calls_refine_example :
    Distinct (run_calls objects history pool).connections
    × Steps objects history (view pool) (view (run_calls objects history pool))
run_calls_refine_example = run_calls_refine objects history pool tt

get_connection_serves_example :
    Returns
      (Served (get_connection_key objects "10.0.0.7" "root" 22))
      (get_connection objects "10.0.0.7" "root" "x" 22 30 replaced).0
      (get_connection objects "10.0.0.7" "root" "x" 22 30 replaced).1
get_connection_serves_example = get_connection_serves objects "10.0.0.7" "root" "x" 22 30 replaced
