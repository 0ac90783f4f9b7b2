-- ===== src/Pool/Tests.antt =====
-- Runs of the pool, and the theorems at a concrete driver.
use mongodb_engine.Base.{
  ◌+◌, ℕ, ◌∷◌, arith, ◌≤◌, ◌≡◌, ◌⊎◌, refl, true, [], none, some, Bytes, codes, All, length, find,
  str_eq,
}
use mongodb_engine.Base.Int.{skip_space, read_digits, read_unsigned, read_signed, stoi}
use mongodb_engine.Uri.Helpers.{split_from, split_string}
use mongodb_engine.Uri.Validate.{
  has_invalid_byte, match_hostname, match_tail, validate_collection_name, validate_database_name,
  validate_hostname, validate_port,
}
use mongodb_engine.Uri.Parse.{
  add_host, check_path, finish, parse, parse_credentials, parse_database_collection,
  parse_host_list, parse_host_port, parse_hosts, parse_options, parse_protocol, parse_steps,
  store_path,
}
use mongodb_engine.Pool.Defs.{MongoConnectionPool, Driver, new_pool}
use mongodb_engine.Pool.Ops.{
  create_new_connection, keep_fresh, destroy_stale, cleanup_idle_connections,
  find_available_connection, acquire_new, acquire_swept, acquire_connection, is_lent,
  release_connection,
}
use mongodb_engine.Pool.Invariant.{Inv, IsFresh}
use mongodb_engine.Pool.Invariant.Runs.{Step, Reach, Reach-Inv}
use mongodb_engine.Pool.Exclusive.{Exclusive, events, held, events-Exclusive}
use mongodb_engine.Pool.Progress.{release-acquire}
use mongodb_engine.Pool.Bounds.{peak, peak_bound}
use mongodb_engine.Pool.Clients.{known, one_if, opened_by, acquire-known, acquire-none}

abbrev text : Bytes
text = codes "mongodb://a/d/c"

abbrev answering : Driver
answering = record { uri_new = λ s. true; client_new = λ s. some 7; ping = λ c s. true }

abbrev silent : Driver
silent = record { uri_new = λ s. true; client_new = λ s. none; ping = λ c s. true }

abbrev pool : MongoConnectionPool
pool = new_pool text

fresh : IsFresh answering pool
unfolding new_pool
fresh s c e = tt

pool-Inv : Inv pool
pool-Inv = Reach-Inv text Reach.here

lends : (acquire_connection answering 0 0 pool).0 ≡ some 7
unfolding acquire_connection cleanup_idle_connections keep_fresh destroy_stale acquire_swept
    find_available_connection acquire_new create_new_connection new_pool parse parse_steps
    parse_protocol parse_credentials parse_hosts parse_host_list parse_host_port add_host
    parse_database_collection store_path check_path parse_options finish find str_eq split_string
    split_from stoi read_signed read_unsigned read_digits skip_space validate_hostname
    match_hostname match_tail validate_port validate_database_name validate_collection_name
    has_invalid_byte
lends = refl

refuses : (acquire_connection silent 0 0 pool).0 ≡ none
unfolding acquire_connection cleanup_idle_connections keep_fresh destroy_stale acquire_swept
    find_available_connection acquire_new create_new_connection new_pool parse parse_steps
    parse_protocol parse_credentials parse_hosts parse_host_list parse_host_port add_host
    parse_database_collection store_path check_path parse_options finish find str_eq split_string
    split_from stoi read_signed read_unsigned read_digits skip_space validate_hostname
    match_hostname match_tail validate_port validate_database_name validate_collection_name
    has_invalid_byte
refuses = refl

acquired : Reach pool (acquire_connection answering 0 0 pool).1
acquired = Reach.next Reach.here (Step.acquires pool answering 0 0 fresh)

Reach-Inv_example : Inv (acquire_connection answering 0 0 pool).1
Reach-Inv_example = Reach-Inv text acquired

acquire-known_example :
    known 7 (acquire_connection answering 0 0 pool).1
    ≡ known 7 pool + one_if 7 (opened_by answering 0 pool)
acquire-known_example = acquire-known answering 0 0 7 pool

acquire-none_example :
    let q = cleanup_idle_connections 0 pool in
    All (λ i. i.in_use ≡ true) q.connections
    × ((q.max_connections ≤ length q.connections) ⊎ ((create_new_connection silent q).0 ≡ none))
acquire-none_example = acquire-none silent 0 0 pool refuses

returned : Reach pool (release_connection (some 7) 5 (acquire_connection answering 0 0 pool).1)
returned = Reach.next acquired (Step.releases (acquire_connection answering 0 0 pool).1 (some 7) 5)

events-Exclusive_example :
    Exclusive (events returned)
    × ((x : ℕ)
        → is_lent x
            (release_connection (some 7) 5 (acquire_connection answering 0 0 pool).1).connections
          ≡ held (events returned) x)
events-Exclusive_example = events-Exclusive text returned

peak_bound_example : length (acquire_connection answering 0 0 pool).1.connections ≤ peak acquired
peak_bound_example = peak_bound text acquired

-- The pool has lent the client 7.
abbrev busy : MongoConnectionPool
busy = record pool {
  connections =
      record {
        client = 7;
        last_used = 0;
        in_use = true;
        connection_string = text;
        connection_id = 1;
      }
      ∷ [];
  active_connections = 1;
}

busy_lends : is_lent 7 busy.connections ≡ true
unfolding is_lent
busy_lends = refl

release-acquire_example :
    (x : ℕ) × ((acquire_connection silent 9 9 (release_connection (some 7) 5 busy)).0 ≡ some x)
release-acquire_example = release-acquire silent 7 5 9 9 busy busy_lends (omega arith)
