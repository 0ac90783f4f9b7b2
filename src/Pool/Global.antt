-- ===== src/Pool/Global.antt =====
-- The global functions of src/mongodb_connection.cc.
use mongodb_engine.Base.{
  ℕ, Bool, true, false, not, List, [], ◌∷◌, map, none, some, Bytes, codes, insert, lookup, is_empty,
  if◌then◌else◌,
}
use mongodb_engine.Pool.Defs.{MongoConnectionPool, Driver, new_pool}
use mongodb_engine.Pool.Ops.{cleanup}
use mongodb_engine.Uri.Defs.{MongoUri}
use mongodb_engine.Uri.Parse.{parse}

-- `global_connection_pools`. A pool is shared by all that ask for its text.
abbrev pub Pools : Type 0
Pools = List (Bytes × MongoConnectionPool)

unfoldable pub get_or_create_connection_pool : Bytes → Pools → MongoConnectionPool × Pools
get_or_create_connection_pool s pools = elim (lookup s pools) [
  | some pool ↦ (pool, pools)
  | none ↦ (new_pool s, insert s (new_pool s) pools)
]

-- The map is emptied, and the destructor of each pool runs: the second part is what they leave.
unfoldable pub cleanup_all_connection_pools : Pools → Pools × List MongoConnectionPool
cleanup_all_connection_pools pools = ([], map (λ e. cleanup e.1) pools)

-- The result, and the clients that were destroyed.
unfoldable pub test_mongodb_connection : Driver → Bytes → Bool × List ℕ
test_mongodb_connection d s = if not (d.uri_new s) then (false, []) else elim (d.client_new s) [
  | none ↦ (false, [])
  | some client ↦ (d.ping client (codes "admin"), client ∷ [])
]

-- The result, and the error message.
unfoldable pub validate_mongodb_connection_string : Bytes → Bool × Bytes
validate_mongodb_connection_string s =
    let parsed = parse s in
    if not parsed.is_valid
    then (false, parsed.error_message)
    else if is_empty parsed.database
    then (false, codes "Database name is required in connection string")
    else if is_empty parsed.collection
    then (
      false,
      codes
          "Collection name is required in connection string (format: mongodb://host/database/collection)",
    )
    else (true, [])

unfoldable pub parse_mongodb_connection_string : Bytes → MongoUri
parse_mongodb_connection_string s = parse s
