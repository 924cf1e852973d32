-- ===== src/Ssh/Pool/State.antt =====
-- common/OpTestConnectionManager.py: the attributes of a pool and of its entries, the dict that holds
-- them, and the calls that a history is made of.
use op_test.Prelude.{ℕ, Bool, Option, none, some, String, List, [], ◌∷◌, str_eq, if◌then◌else◌}
use op_test.Exec.{Exec}
use op_test.Exceptions.{OpException}
use op_test.Ssh.Client.{Op}

-- A reference to a connection object, with the attributes that the pool reads.
pub record Connection : Type 0 where
  pub id : ℕ
  pub host : String
  pub username : String
  pub port : ℕ

-- What the pool asks of a connection object, of the clock and of `str`. `connect` stands for the
-- construction of the object and its `connect()`, and gives the reference. A clock that is set back
-- gives an age of 0.
pub record Connections (W : Type 0) : Type 0 where
  pub connect : String → String → String → ℕ → ℕ → Op W ℕ
  pub disconnect : ℕ → Op W Unit
  pub is_alive : ℕ → Op W Bool
  pub now : W → ℕ × W
  pub str : ℕ → String

pub record ConnectionInfo : Type 0 where
  pub connection : Connection
  pub created_at : ℕ
  pub last_used : ℕ
  pub use_count : ℕ
  pub in_use : Bool

abbrev pub Pooled : Type 0
Pooled = List (String × ConnectionInfo)

pub record ConnectionManager (W : Type 0) : Type 0 where
  pub world : W
  pub max_connections : ℕ
  pub max_idle_time : ℕ
  pub max_connection_age : ℕ
  pub connections : Pooled
  pub total_connections_created : ℕ
  pub total_connections_reused : ℕ
  pub total_connections_closed : ℕ

abbrev pub Act : Type 0 → Type 0 → Type 0
Act W A = Exec (ConnectionManager W) OpException A

-- The dict: `d.get(key)`, `d[key] = info` and, for a key that it has, `del d[key]`.
abbrev pub get : String → Pooled → Option ConnectionInfo
get key [] = none
get key ((k, info) ∷ d) = if str_eq k key then some info else get key d

abbrev pub put : String → ConnectionInfo → Pooled → Pooled
put key info [] = (key, info) ∷ []
put key info ((k, old) ∷ d) = if str_eq k key then (k, info) ∷ d else (k, old) ∷ put key info d

-- A change of the object that stands under the key.
abbrev pub update : String → (ConnectionInfo → ConnectionInfo) → Pooled → Pooled
update key f [] = []
update key f ((k, info) ∷ d) = if str_eq k key then (k, f info) ∷ d else (k, info) ∷ update key f d

abbrev pub del : String → Pooled → Pooled
del key [] = []
del key ((k, info) ∷ d) = if str_eq k key then d else (k, info) ∷ del key d

pub data Call : Type 0 where
  get_it : String → String → String → ℕ → ℕ → Call
  release close : Connection → Call
  cleanup_stale cleanup_everything : Call

-- `__init__`
abbrev pub created : {W : Type 0} → W → ℕ → ℕ → ℕ → ConnectionManager W
created w max_connections max_idle_time max_connection_age = record {
  world = w;
  max_connections = max_connections;
  max_idle_time = max_idle_time;
  max_connection_age = max_connection_age;
  connections = [];
  total_connections_created = 0;
  total_connections_reused = 0;
  total_connections_closed = 0;
}
