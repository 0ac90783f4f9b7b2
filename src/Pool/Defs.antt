-- ===== src/Pool/Defs.antt =====
-- The pool's state, and what the MongoDB C driver answers to its calls.
use mongodb_engine.Base.{ℕ, ◌+◌, ◌-◌, ◌%◌, ◌^◌, Bool, List, [], Option, Bytes}
use mongodb_engine.Uri.Defs.{MongoUri}
use mongodb_engine.Uri.Parse.{parse}

-- `MongoConnectionInfo`. A client is the address that the driver gave; times are the steady clock's
-- nanoseconds.
pub record MongoConnectionInfo : Type 0 where
  pub client : ℕ
  pub last_used : ℕ
  pub in_use : Bool
  pub connection_string : Bytes
  pub connection_id : ℕ

-- `MongoConnectionPool`. `destroyed` is no field of the class: it records the calls of
-- `mongoc_client_destroy`, the last one first.
pub record MongoConnectionPool : Type 0 where
  pub connections : List MongoConnectionInfo
  pub base_connection_string : Bytes
  pub parsed_uri : MongoUri
  pub max_connections : ℕ
  pub connection_timeout : ℕ
  pub idle_timeout : ℕ
  pub next_connection_id : ℕ
  pub active_connections : ℕ
  pub total_connections_created : ℕ
  pub destroyed : List ℕ

-- What the driver answers during one call of the pool: whether `mongoc_uri_new` takes a text, the
-- client of `mongoc_client_new_from_uri`, and whether a `ping` of a database succeeds. The look at
-- the collection behind the ping has no effect on the pool.
pub record Driver : Type 0 where
  pub uri_new : Bytes → Bool
  pub client_new : Bytes → Option ℕ
  pub ping : ℕ → Bytes → Bool

-- `++` and `--` of `size_t` and `uint64_t`.
abbrev pub increment : ℕ → ℕ
increment n = (n + 1) % 2 ^ 64

abbrev pub decrement : ℕ → ℕ
decrement n = (n + 2 ^ 64 - 1) % 2 ^ 64

-- The constructor.
unfoldable pub new_pool : Bytes → MongoConnectionPool
new_pool connection_string = record {
  connections = [];
  base_connection_string = connection_string;
  parsed_uri = parse connection_string;
  max_connections = 10;
  connection_timeout = 30000;
  idle_timeout = 300;
  next_connection_id = 1;
  active_connections = 0;
  total_connections_created = 0;
  destroyed = [];
}
