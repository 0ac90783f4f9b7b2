-- ===== src/Uri/Grammar.antt =====
-- The texts that `parse` accepts, as a grammar: src/mongodb_uri_parser.cc.
pub mod Hosts
pub mod Options
pub mod Text
pub mod Passes
pub mod Accepts
pub mod Alike
use mongodb_engine.Base.{
  ℕ, ◌≡◌, ◌≢◌, true, false, Bool, ◌||◌, ◌⊎◌, List, [], ◌∷◌, ◌++◌, Bytes, Avoids, All, codes, some,
  str_eq, is_empty,
}
use mongodb_engine.Base.Int.{ℤ, pos, stoi}
use mongodb_engine.Uri.Helpers.{split_string, split_key_value, url_decode}
use mongodb_engine.Uri.Validate.{
  validate_hostname, validate_port, validate_database_name, validate_collection_name,
}
use mongodb_engine.Uri.Print.{protocol}

-- A host with the port that stands behind a colon, or with the port 27017.
pub data IsHost (item : Bytes) : Type 0 where
  plain : validate_hostname item ≡ true → IsHost item
  ported :
      (host digits : Bytes) (port : ℤ)
      → item ≡ host ++ b':' ∷ digits
      → stoi digits ≡ some port
      → validate_hostname host ≡ true
      → validate_port port ≡ true
      → IsHost item

abbrev pub is_timeout : Bytes → Bool
is_timeout key = str_eq key (codes "connectTimeoutMS") || str_eq key (codes "socketTimeoutMS")

-- A pair that is skipped for its empty key, or of which a timeout has a number.
pub data IsOption (pair : Bytes) : Type 0 where
  skipped : is_empty (split_key_value pair b'=').0 ≡ true → IsOption pair
  free : is_timeout (url_decode (split_key_value pair b'=').0) ≡ false → IsOption pair
  timed : (ms : ℤ) → stoi (url_decode (split_key_value pair b'=').1) ≡ some ms → IsOption pair

-- What stands in front of the hosts: nothing, where no `@` stands before the first `?` of them, or
-- the credentials with their `@`.
pub data IsLogin (hosts : Bytes) : Bytes → Type 0 where
  absent : Avoids b'@' hosts → IsLogin hosts []
  hidden :
      (front back : Bytes)
      → hosts ≡ front ++ b'?' ∷ back
      → Avoids b'@' front
      → Avoids b'?' front
      → IsLogin hosts []
  given :
      (creds login : Bytes)
      → login ≡ creds ++ b'@' ∷ []
      → Avoids b'@' creds
      → Avoids b'/' creds
      → Avoids b'?' creds
      → IsLogin hosts login

-- Nothing, or `?` and options with `&` between them.
pub data IsQuery : Bytes → Type 0 where
  missing : IsQuery []
  options : (q : Bytes) → All IsOption (split_string q b'&') → IsQuery (b'?' ∷ q)

pub record IsUri (s : Bytes) : Type 0 where
  pub is_srv : Bool
  pub login : Bytes
  pub hosts : Bytes
  pub database : Bytes
  pub collection : Bytes
  pub query : Bytes
  pub splits :
      s ≡ protocol is_srv ++ (login ++ (hosts ++ b'/' ∷ (database ++ b'/' ∷ (collection ++ query))))
  pub is_login : IsLogin hosts login
  pub hosts_no_slash : Avoids b'/' hosts
  pub some_host : split_string hosts b',' ≢ []
  pub are_hosts : All IsHost (split_string hosts b',')
  pub is_database : validate_database_name database ≡ true
  pub is_collection : validate_collection_name collection ≡ true
  pub collection_no_query : Avoids b'?' collection
  pub is_query : IsQuery query
