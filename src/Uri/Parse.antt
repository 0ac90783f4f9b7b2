-- ===== src/Uri/Parse.antt =====
-- `MongoURIParser::parse` and its five steps: src/mongodb_uri_parser.cc.
-- A step has the text from `pos` on, where the source has the whole text and `pos`: it looks at
-- nothing before `pos`, and hands on the text from the new `pos`.
use mongodb_engine.Base.{
  ℕ, suc, min, true, false, not, ◌&&◌, ◌||◌, List, [], ◌∷◌, ◌++◌, Option, none, some, Bytes, codes,
  find, str_eq, insert, length, take, drop, is_empty, ltb, ◌==◌, if◌then◌else◌,
}
use mongodb_engine.Base.Int.{ℤ, pos, stoi, to_string}
use mongodb_engine.Uri.Defs.{MongoUri, new_uri, Outcome, failed, done, ◌>>=◌, fail}
use mongodb_engine.Uri.Helpers.{url_decode, split_key_value, split_string}
use mongodb_engine.Uri.Validate.{
  validate_hostname, validate_port, validate_database_name, validate_collection_name,
}

unfoldable pub parse_protocol : MongoUri → Bytes → Outcome (MongoUri × Bytes)
parse_protocol r s =
    if str_eq (take 14 s) (codes "mongodb+srv://")
    then done (record r { is_srv = true }, drop 14 s)
    else if str_eq (take 10 s) (codes "mongodb://")
    then done (record r { is_srv = false }, drop 10 s)
    else fail r (codes "Invalid protocol. Must start with mongodb:// or mongodb+srv://")

abbrev pub or_end : Option ℕ → Bytes → ℕ
or_end none s = length s
or_end (some i) s = i

unfoldable pub store_credentials : MongoUri → Bytes → MongoUri
store_credentials r creds = elim (find b':' creds) [
  | none ↦ record r { username = url_decode creds }
  | some i ↦ record r {
    username = url_decode (take i creds);
    password = url_decode (drop (suc i) creds);
  }
]

unfoldable pub parse_credentials : MongoUri → Bytes → Outcome (MongoUri × Bytes)
parse_credentials r s = elim (find b'@' s) [
  | none ↦ done (r, s)
  | some at ↦
      if ltb (min (or_end (find b'/' s) s) (or_end (find b'?' s) s)) at
      then done (r, s)
      else done (store_credentials r (take at s), drop (suc at) s)
]

unfoldable pub add_host : MongoUri → Bytes → ℤ → Outcome MongoUri
add_host r host port =
    if not (validate_hostname host)
    then fail r (codes "Invalid hostname: " ++ host)
    else if not (validate_port port)
    then fail r (codes "Invalid port: " ++ to_string port)
    else done (record r { hosts = r.hosts ++ (host, port) ∷ [] })

unfoldable pub parse_host_port : MongoUri → Bytes → Outcome MongoUri
parse_host_port r host_port = elim (find b':' host_port) [
  | none ↦ add_host r host_port (pos 27017)
  | some i ↦ elim (stoi (drop (suc i) host_port)) [
    | none ↦ fail r (codes "Invalid port number: " ++ drop (suc i) host_port)
    | some port ↦ add_host r (take i host_port) port
  ]
]

-- The loop over the list of hosts.
unfoldable pub parse_host_list : MongoUri → List Bytes → Outcome MongoUri
parse_host_list r [] = done r
parse_host_list r (h ∷ hs) = parse_host_port r h >>= λ r'. parse_host_list r' hs

abbrev pub hosts_end : Bytes → ℕ
hosts_end s = elim (find b'/' s) [ none ↦ or_end (find b'?' s) s | some i ↦ i ]

unfoldable pub parse_hosts : MongoUri → Bytes → Outcome (MongoUri × Bytes)
parse_hosts r s =
    let hosts_str = take (hosts_end s) s in
    if is_empty hosts_str
    then fail r (codes "No hosts specified")
    else (parse_host_list r (split_string hosts_str b',') >>= λ r'. done (r', drop (hosts_end s) s))

unfoldable pub store_path : MongoUri → Bytes → MongoUri
store_path r path = elim (find b'/' path) [
  | none ↦ record r { database = path }
  | some i ↦ record r { database = take i path; collection = drop (suc i) path }
]

unfoldable pub check_path : MongoUri → Bytes → Outcome (MongoUri × Bytes)
check_path r s =
    if not (is_empty r.database) && not (validate_database_name r.database)
    then fail r (codes "Invalid database name: " ++ r.database)
    else if not (is_empty r.collection) && not (validate_collection_name r.collection)
    then fail r (codes "Invalid collection name: " ++ r.collection)
    else done (r, s)

unfoldable pub parse_database_collection : MongoUri → Bytes → Outcome (MongoUri × Bytes)
parse_database_collection r [] = done (r, [])
parse_database_collection r (c ∷ s) =
    if not (c == b'/')
    then done (r, c ∷ s)
    else let end = or_end (find b'?' s) s in check_path (store_path r (take end s)) (drop end s)

-- One option whose key is not empty, both parts decoded.
unfoldable pub store_option : MongoUri → Bytes → Bytes → Outcome MongoUri
store_option r key value =
    if str_eq key (codes "authSource")
    then done (record r { auth_source = value })
    else if str_eq key (codes "replicaSet")
    then done (record r { replica_set = value })
    else if str_eq key (codes "ssl") || str_eq key (codes "tls")
    then done (record r { ssl = str_eq value (codes "true") || str_eq value (codes "1") })
    else if str_eq key (codes "connectTimeoutMS")
    then elim (stoi value) [
      | none ↦ fail r (codes "Invalid connectTimeoutMS: " ++ value)
      | some ms ↦ done (record r { connect_timeout_ms = ms })
    ]
    else if str_eq key (codes "socketTimeoutMS")
    then elim (stoi value) [
      | none ↦ fail r (codes "Invalid socketTimeoutMS: " ++ value)
      | some ms ↦ done (record r { socket_timeout_ms = ms })
    ]
    else done (record r { options = insert key value r.options })

unfoldable pub parse_option : MongoUri → Bytes → Outcome MongoUri
parse_option r pair =
    let kv = split_key_value pair b'=' in
    if is_empty kv.0 then done r else store_option r (url_decode kv.0) (url_decode kv.1)

unfoldable pub parse_option_list : MongoUri → List Bytes → Outcome MongoUri
parse_option_list r [] = done r
parse_option_list r (p ∷ ps) = parse_option r p >>= λ r'. parse_option_list r' ps

unfoldable pub parse_options : MongoUri → Bytes → Outcome MongoUri
parse_options r [] = done r
parse_options r (c ∷ s) =
    if not (c == b'?') then done r else parse_option_list r (split_string s b'&')

-- The checks at the end of `parse`.
unfoldable pub finish : MongoUri → Outcome MongoUri
finish r =
    if is_empty r.hosts
    then fail r (codes "No hosts specified")
    else if is_empty r.database
    then fail r (codes "Database name is required")
    else if is_empty r.collection
    then fail r (codes "Collection name is required for storage engine")
    else done (record r { is_valid = true })

-- The five steps and the checks, in order.
unfoldable pub parse_steps : Bytes → Outcome MongoUri
parse_steps s =
    parse_protocol new_uri s
    >>= (λ a. parse_credentials a.0 a.1)
    >>= (λ a. parse_hosts a.0 a.1)
    >>= (λ a. parse_database_collection a.0 a.1)
    >>= (λ a. parse_options a.0 a.1)
    >>= finish

abbrev pub result_of : Outcome MongoUri → MongoUri
result_of (failed r) = r
result_of (done r) = r

unfoldable pub parse : Bytes → MongoUri
parse s =
    if is_empty s
    then record new_uri { error_message = codes "Empty connection string" }
    else result_of (parse_steps s)
