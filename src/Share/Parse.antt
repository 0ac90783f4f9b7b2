-- ===== src/Share/Parse.antt =====
-- `mongodb_parse_connection_string`: src/mongodb_share.cc.
-- `alloc i n` says whether the call number `i` of MariaDB's `alloc_root` has `n` bytes to give.
use mongodb_engine.Base.{
  ℕ, suc, ◌+◌, Bool, true, false, not, ◌&&◌, [], ◌∷◌, ◌++◌, Option, none, some, Bytes, codes, find,
  find_sub, find_from, contains_sub, length, take, drop, if◌then◌else◌,
}
use mongodb_engine.Share.Defs.{MongodbShare}

-- The memory for a C string, and `strcpy` into it.
abbrev pub copy_text : (ℕ → ℕ → Bool) → ℕ → Bytes → Option Bytes
copy_text alloc i s = if alloc i (length s + 1) then some s else none

abbrev pub is_found : Option ℕ → Bool
is_found none = false
is_found (some i) = true

-- `query_params`: what stands behind the first `?` of the whole text.
unfoldable pub query_params : Bytes → Bytes
query_params uri = elim (find b'?' uri) [ none ↦ uri | some q ↦ drop (suc q) uri ]

-- What is put behind the database; the flag is `has_query_params`.
unfoldable pub auth_suffix : Bytes → Bool → Bytes
auth_suffix uri has_query_params =
    if is_found (find b'@' uri) && not has_query_params
    then codes "?authSource=admin"
    else if has_query_params
    then (if not (contains_sub (codes "authSource") (query_params uri))
        then codes "?authSource=admin&" ++ query_params uri
        else b'?' ∷ query_params uri)
    else []

-- The path, without its query, split at the first `/`.
unfoldable pub store_names :
    (ℕ → ℕ → Bool) → MongodbShare → Bytes → ℕ → Bytes → Bool → ℕ × MongodbShare
store_names alloc share uri path_start path has_query_params = elim (find b'/' path) [
  | none ↦ (1, share)
  | some sep ↦
      let database = take sep path in
      let collection = drop (suc sep) path in
      let mongo_uri = (take (suc path_start) uri ++ database) ++ auth_suffix uri has_query_params in
      (
        0,
        record share {
          database_name = copy_text alloc 1 database;
          collection_name = copy_text alloc 2 collection;
          mongo_connection_string = copy_text alloc 3 mongo_uri;
        },
      )
]

unfoldable pub parse_path : (ℕ → ℕ → Bool) → MongodbShare → Bytes → ℕ → ℕ × MongodbShare
parse_path alloc share uri path_start =
    let path_part = drop (suc path_start) uri in
    elim (find b'?' path_part) [
      | none ↦ store_names alloc share uri path_start path_part false
      | some query_start ↦ store_names alloc share uri path_start (take query_start path_part) true
    ]

-- The text, once it is stored.
unfoldable pub parse_text : (ℕ → ℕ → Bool) → MongodbShare → Bytes → ℕ × MongodbShare
parse_text alloc share uri = elim (find_sub (codes "://") uri) [
  | none ↦ (1, share)
  | some scheme_end ↦ elim (find_from b'/' uri (scheme_end + 3)) [
    | none ↦ (1, share)
    | some path_start ↦ parse_path alloc share uri path_start
  ]
]

-- 0 on success and 1 on failure, with the share as it then is.
unfoldable pub mongodb_parse_connection_string :
    (ℕ → ℕ → Bool) → Option Bytes → MongodbShare → ℕ × MongodbShare
mongodb_parse_connection_string alloc none share = (1, share)
mongodb_parse_connection_string alloc (some s) share =
    if not (alloc 0 (length s + 1))
    then (1, record share { connection_string = none })
    else parse_text alloc (record share { connection_string = some s }) s
