-- ===== src/Uri/Print.antt =====
-- `MongoURI::to_connection_string` and `MongoURI::to_safe_string`: src/mongodb_uri_parser.cc.
use mongodb_engine.Base.{
  ℕ, Bool, not, ◌&&◌, List, [], ◌∷◌, ◌++◌, map, Bytes, codes, str_eq, is_empty, if◌then◌else◌,
}
use mongodb_engine.Base.Int.{ℤ, pos, eq_int, to_string}
use mongodb_engine.Uri.Defs.{MongoUri}

abbrev pub protocol : Bool → Bytes
protocol is_srv = if is_srv then codes "mongodb+srv://" else codes "mongodb://"

-- The port is left out where it is the default one.
unfoldable pub print_host : Bytes × ℤ → Bytes
print_host (host, port) = host ++ (if eq_int port (pos 27017) then [] else b':' ∷ to_string port)

-- The loops that write a separator where `i > 0`.
unfoldable pub print_more : ℕ → List Bytes → Bytes
print_more separator [] = []
print_more separator (x ∷ xs) = separator ∷ (x ++ print_more separator xs)

unfoldable pub join : ℕ → List Bytes → Bytes
join separator [] = []
join separator (x ∷ xs) = x ++ print_more separator xs

unfoldable pub print_hosts : List (Bytes × ℤ) → Bytes
print_hosts hosts = join b',' (map print_host hosts)

abbrev pub when : Bool → Bytes → List Bytes
when b part = if b then part ∷ [] else []

unfoldable pub option_parts : MongoUri → List Bytes
option_parts u =
    when (not (is_empty u.auth_source) && not (str_eq u.auth_source u.database))
      (codes "authSource=" ++ u.auth_source)
    ++ (when (not (is_empty u.replica_set)) (codes "replicaSet=" ++ u.replica_set)
        ++ (when u.ssl (codes "ssl=true")
            ++ (when (not (eq_int u.connect_timeout_ms (pos 30000)))
                  (codes "connectTimeoutMS=" ++ to_string u.connect_timeout_ms)
                ++ (when (not (eq_int u.socket_timeout_ms (pos 30000)))
                      (codes "socketTimeoutMS=" ++ to_string u.socket_timeout_ms)
                    ++ map (λ o. o.0 ++ (b'=' ∷ o.1)) u.options))))

unfoldable pub to_connection_string : MongoUri → Bytes
to_connection_string u =
    if not u.is_valid
    then []
    else protocol u.is_srv
      ++ ((if is_empty u.username
            then []
            else u.username
              ++ ((if is_empty u.password then [] else b':' ∷ u.password) ++ b'@' ∷ []))
          ++ (print_hosts u.hosts
              ++ ((if is_empty u.database then [] else b'/' ∷ u.database)
                  ++ (if is_empty (option_parts u)
                      then []
                      else b'?' ∷ join b'&' (option_parts u)))))

unfoldable pub to_safe_string : MongoUri → Bytes
to_safe_string u =
    if not u.is_valid
    then codes "INVALID_URI"
    else protocol u.is_srv
      ++ ((if is_empty u.username
            then []
            else u.username ++ ((if is_empty u.password then [] else codes ":***") ++ b'@' ∷ []))
          ++ (print_hosts u.hosts
              ++ (if is_empty u.database
                  then []
                  else b'/'
                    ∷ (u.database ++ (if is_empty u.collection then [] else b'/' ∷ u.collection)))))
