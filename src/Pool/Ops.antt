-- ===== src/Pool/Ops.antt =====
-- The methods of `MongoConnectionPool`: src/mongodb_connection.cc. Those that read or change the
-- connections hold `pool_mutex` from their first line on, so each is one step; `is_healthy` and the two
-- setters of timeouts take no mutex, and are steps of their own here. Timeouts are not negative.
use mongodb_engine.Base.{
  ℕ, ◌-◌, ◌/◌, Bool, true, false, not, ◌&&◌, List, [], ◌∷◌, ◌++◌, Option, none, some, codes, length,
  is_empty, ltb, leb, ◌==◌, if◌then◌else◌,
}
use mongodb_engine.Pool.Defs.{
  MongoConnectionInfo, MongoConnectionPool, Driver, increment, decrement,
}
use mongodb_engine.Uri.Print.{to_connection_string}

-- The client, if any, and the clients that were destroyed on the way.
unfoldable pub create_new_connection : Driver → MongoConnectionPool → Option ℕ × List ℕ
create_new_connection d p =
    if not p.parsed_uri.is_valid
    then (none, [])
    else if not (d.uri_new (to_connection_string p.parsed_uri))
    then (none, [])
    else elim (d.client_new (to_connection_string p.parsed_uri)) [
      | none ↦ (none, [])
      | some client ↦
          let database_name =
            if is_empty p.parsed_uri.database then codes "admin" else p.parsed_uri.database in
          if not (d.ping client database_name) then (none, client ∷ []) else (some client, [])
    ]

abbrev pub nanos_per_second : ℕ
nanos_per_second = 1000000000

-- The test of `remove_if`.
abbrev pub is_stale : ℕ → ℕ → MongoConnectionInfo → Bool
is_stale now idle_timeout i =
    not i.in_use && ltb idle_timeout ((now - i.last_used) / nanos_per_second)

unfoldable pub keep_fresh : ℕ → ℕ → List MongoConnectionInfo → List MongoConnectionInfo
keep_fresh now idle_timeout [] = []
keep_fresh now idle_timeout (i ∷ is) =
    if is_stale now idle_timeout i
    then keep_fresh now idle_timeout is
    else i ∷ keep_fresh now idle_timeout is

-- The clients that the test destroys, on top of those before.
unfoldable pub destroy_stale : ℕ → ℕ → List MongoConnectionInfo → List ℕ → List ℕ
destroy_stale now idle_timeout [] log = log
destroy_stale now idle_timeout (i ∷ is) log =
    destroy_stale now idle_timeout is (if is_stale now idle_timeout i then i.client ∷ log else log)

unfoldable pub cleanup_idle_connections : ℕ → MongoConnectionPool → MongoConnectionPool
cleanup_idle_connections now p = record p {
  connections = keep_fresh now p.idle_timeout p.connections;
  destroyed = destroy_stale now p.idle_timeout p.connections p.destroyed;
}

unfoldable pub find_available_connection : List MongoConnectionInfo → Option MongoConnectionInfo
find_available_connection [] = none
find_available_connection (i ∷ is) = if not i.in_use then some i else find_available_connection is

-- What is done through the pointer that `find_available_connection` returned.
unfoldable pub lend_available : ℕ → List MongoConnectionInfo → List MongoConnectionInfo
lend_available now [] = []
lend_available now (i ∷ is) =
    if not i.in_use
    then record i { in_use = true; last_used = now } ∷ is
    else i ∷ lend_available now is

-- A new connection, if the pool may grow and the driver gives one.
unfoldable pub acquire_new : Driver → ℕ → MongoConnectionPool → Option ℕ × MongoConnectionPool
acquire_new d now p =
    if ltb (length p.connections) p.max_connections
    then (let created = create_new_connection d p in
        elim created.0 [
          | none ↦ (none, record p { destroyed = created.1 ++ p.destroyed })
          | some client ↦ (
            some client,
            record p {
              connections =
                  p.connections
                  ++ record {
                    client = client;
                    last_used = now;
                    in_use = true;
                    connection_string = p.base_connection_string;
                    connection_id = p.next_connection_id;
                  }
                    ∷ [];
              next_connection_id = increment p.next_connection_id;
              active_connections = increment p.active_connections;
              total_connections_created = increment p.total_connections_created;
              destroyed = created.1 ++ p.destroyed;
            },
          )
        ])
    else (none, p)

unfoldable pub acquire_swept : Driver → ℕ → MongoConnectionPool → Option ℕ × MongoConnectionPool
acquire_swept d now p = elim (find_available_connection p.connections) [
  | some i ↦ (
    some i.client,
    record p {
      connections = lend_available now p.connections;
      active_connections = increment p.active_connections;
    },
  )
  | none ↦ acquire_new d now p
]

-- The clock is read at `now` for the sweep and at `later` for the stamp.
unfoldable pub acquire_connection :
    Driver → ℕ → ℕ → MongoConnectionPool → Option ℕ × MongoConnectionPool
acquire_connection d now later p = acquire_swept d later (cleanup_idle_connections now p)

abbrev pub is_lease : ℕ → MongoConnectionInfo → Bool
is_lease client i = i.client == client && i.in_use

unfoldable pub give_back : ℕ → ℕ → List MongoConnectionInfo → List MongoConnectionInfo
give_back client now [] = []
give_back client now (i ∷ is) =
    if is_lease client i
    then record i { in_use = false; last_used = now } ∷ is
    else i ∷ give_back client now is

-- Whether the loop of `release_connection` finds a connection.
unfoldable pub is_lent : ℕ → List MongoConnectionInfo → Bool
is_lent client [] = false
is_lent client (i ∷ is) = if is_lease client i then true else is_lent client is

unfoldable pub release_connection : Option ℕ → ℕ → MongoConnectionPool → MongoConnectionPool
release_connection none now p = p
release_connection (some client) now p =
    if is_lent client p.connections
    then record p {
      connections = give_back client now p.connections;
      active_connections = decrement p.active_connections;
    }
    else p

unfoldable pub destroy_all : List MongoConnectionInfo → List ℕ → List ℕ
destroy_all [] log = log
destroy_all (i ∷ is) log = destroy_all is (i.client ∷ log)

-- `cleanup`, which is also all that the destructor does.
unfoldable pub cleanup : MongoConnectionPool → MongoConnectionPool
cleanup p = record p {
  connections = [];
  active_connections = 0;
  destroyed = destroy_all p.connections p.destroyed;
}

unfoldable pub is_healthy : MongoConnectionPool → Bool
is_healthy p =
    leb (length p.connections) p.max_connections && leb p.active_connections (length p.connections)

unfoldable pub set_max_connections : ℕ → MongoConnectionPool → MongoConnectionPool
set_max_connections n p = record p { max_connections = n }

unfoldable pub set_connection_timeout : ℕ → MongoConnectionPool → MongoConnectionPool
set_connection_timeout n p = record p { connection_timeout = n }

unfoldable pub set_idle_timeout : ℕ → MongoConnectionPool → MongoConnectionPool
set_idle_timeout n p = record p { idle_timeout = n }
