-- ===== src/Uri/Sound.antt =====
-- What `parse` promises of the URI that it returns, on every path through its steps.
use mongodb_engine.Base.{
  suc, min, take, drop, ltb, ◌==◌, true, false, ◌||◌, List, [], ◌∷◌, ◌≡◌, ◌≢◌, ◌⊎◌, inl, inr, Bytes,
  All, All-append, is_empty, arith, Option-cases, Bool-cases, find,
}
use mongodb_engine.Base.Int.{ℤ, pos, stoi}
use mongodb_engine.Uri.Defs.{MongoUri, new_uri, Outcome, failed, done, ◌>>=◌}
use mongodb_engine.Uri.Validate.{
  validate_hostname, validate_port, validate_database_name, validate_collection_name,
}
use mongodb_engine.Uri.Helpers.{split_string, split_key_value, url_decode}
use mongodb_engine.Uri.Parse.{
  parse_protocol, parse_credentials, store_credentials, add_host, parse_host_port, parse_host_list,
  parse_hosts, parse_database_collection, store_path, check_path, store_option, parse_option,
  parse_option_list, parse_options, finish, parse_steps, parse, or_end, hosts_end, result_of,
}

abbrev pub ValidHost : Bytes × ℤ → Type 0
ValidHost h = (validate_hostname h.0 ≡ true) × (validate_port h.1 ≡ true)

-- A result while it is being built.
record Building (r : MongoUri) : Type 0 where
  unfinished : r.is_valid ≡ false
  silent : r.error_message ≡ []
  hosts_valid : All ValidHost r.hosts

-- The same, once the path has been read.
record Named (r : MongoUri) : Type 0 where
  building : Building r
  database_ok : (is_empty r.database || validate_database_name r.database) ≡ true
  collection_ok : (is_empty r.collection || validate_collection_name r.collection) ≡ true

-- A URI that the storage engine can use.
pub record IsUsable (u : MongoUri) : Type 0 where
  pub valid : u.is_valid ≡ true
  pub silent : u.error_message ≡ []
  pub has_hosts : u.hosts ≢ []
  pub hosts_valid : All ValidHost u.hosts
  pub database_valid : validate_database_name u.database ≡ true
  pub collection_valid : validate_collection_name u.collection ≡ true

-- A URI that was refused: it says why.
pub record IsRefused (u : MongoUri) : Type 0 where
  pub invalid : u.is_valid ≡ false
  pub reason : u.error_message ≢ []

abbrev pub Ensures : {A : Type 0} → (A → Type 0) → Outcome A → Type 0
Ensures P (failed r) = IsRefused r
Ensures P (done a) = P a

bind-Ensures :
    {A B : Type 0} (P : A → Type 0) (Q : B → Type 0) (m : Outcome A) (f : A → Outcome B)
    → Ensures P m
    → ((a : A) → P a → Ensures Q (f a))
    → Ensures Q (m >>= f)
bind-Ensures P Q (failed r) f h k = h
bind-Ensures P Q (done a) f h k = k a h

-- Before the path is read there is no name.
record Unnamed (r : MongoUri) : Type 0 where
  building : Building r
  no_database : r.database ≡ []
  no_collection : r.collection ≡ []

parse_protocol-Unnamed : (s : Bytes) → Ensures (λ a. Unnamed a.0) (parse_protocol new_uri s)
unfolding parse_protocol
parse_protocol-Unnamed s = ground arith

store_credentials-Unnamed : (r : MongoUri) (s : Bytes) → Unnamed r → Unnamed (store_credentials r s)
unfolding store_credentials
store_credentials-Unnamed r s h = elim (Option-cases (find b':' s)) [
  | inl e ↦
      rw (e, store_credentials)
        (record {
          building = record {
            unfinished = h.building.unfinished;
            silent = h.building.silent;
            hosts_valid = h.building.hosts_valid;
          };
          no_database = h.no_database;
          no_collection = h.no_collection;
        })
  | inr (i, e) ↦
      rw (e, store_credentials)
        (record {
          building = record {
            unfinished = h.building.unfinished;
            silent = h.building.silent;
            hosts_valid = h.building.hosts_valid;
          };
          no_database = h.no_database;
          no_collection = h.no_collection;
        })
]

parse_credentials-Unnamed :
    (r : MongoUri) (s : Bytes) → Unnamed r → Ensures (λ a. Unnamed a.0) (parse_credentials r s)
unfolding parse_credentials
parse_credentials-Unnamed r s h = elim (Option-cases (find b'@' s)) [
  | inl e ↦ rw (e, parse_credentials) h
  | inr (i, e) ↦
      let late = ltb (min (or_end (find b'/' s) s) (or_end (find b'?' s) s)) i in
      rw (e, parse_credentials)
        (elim (Bool-cases late) [
          | inl t ↦ rw t h
          | inr f ↦ rw f (store_credentials-Unnamed r (take i s) h)
        ])
]

add_host-Unnamed :
    (r : MongoUri) (host : Bytes) (port : ℤ) → Unnamed r → Ensures Unnamed (add_host r host port)
unfolding add_host
add_host-Unnamed r host port h =
    ground (arith, All-append ValidHost r.hosts ((host, port) ∷ []) h.building.hosts_valid)

parse_host_port-Unnamed :
    (r : MongoUri) (s : Bytes) → Unnamed r → Ensures Unnamed (parse_host_port r s)
unfolding parse_host_port
parse_host_port-Unnamed r s h = elim (Option-cases (find b':' s)) [
  | inl e ↦ rw (e, parse_host_port) (add_host-Unnamed r s (pos 27017) h)
  | inr (i, e) ↦
      rw (e, parse_host_port)
        (elim (Option-cases (stoi (drop (suc i) s))) [
          | inl n ↦ rw n (ground arith)
          | inr (port, n) ↦ rw n (add_host-Unnamed r (take i s) port h)
        ])
]

parse_host_list-Unnamed :
    (r : MongoUri) (hs : List Bytes) → Unnamed r → Ensures Unnamed (parse_host_list r hs)
unfolding parse_host_list
parse_host_list-Unnamed r [] h = h
parse_host_list-Unnamed r (s ∷ hs) h =
    bind-Ensures Unnamed Unnamed (parse_host_port r s) (λ r'. parse_host_list r' hs)
      (parse_host_port-Unnamed r s h) (λ r' h'. parse_host_list-Unnamed r' hs h')

parse_hosts-Unnamed :
    (r : MongoUri) (s : Bytes) → Unnamed r → Ensures (λ a. Unnamed a.0) (parse_hosts r s)
unfolding parse_hosts
parse_hosts-Unnamed r s h = elim (Bool-cases (is_empty (take (hosts_end s) s))) [
  | inl e ↦ rw e (ground arith)
  | inr f ↦ rw f (
      bind-Ensures Unnamed (λ a. Unnamed a.0) _ (λ r'. done (r', drop (hosts_end s) s))
        (parse_host_list-Unnamed r (split_string (take (hosts_end s) s) b',') h) (λ r' h'. h'))
]

check_path-Named :
    (r : MongoUri) (s : Bytes) → Building r → Ensures (λ a. Named a.0) (check_path r s)
unfolding check_path
check_path-Named r s h = ground arith

store_path-Building : (r : MongoUri) (s : Bytes) → Building r → Building (store_path r s)
unfolding store_path
store_path-Building r s h = record {
  unfinished = ground arith;
  silent = ground arith;
  hosts_valid = elim (Option-cases (find b'/' s)) [
    | inl e ↦ rw (e, store_path) h.hosts_valid
    | inr (i, e) ↦ rw (e, store_path) h.hosts_valid
  ];
}

parse_database_collection-Named :
    (r : MongoUri) (s : Bytes)
    → Unnamed r
    → Ensures (λ a. Named a.0) (parse_database_collection r s)
unfolding parse_database_collection
parse_database_collection-Named r [] h = ground arith
parse_database_collection-Named r (c ∷ s) h = elim (Bool-cases (c == b'/')) [
  | inl t ↦ rw t (check_path-Named _ _ (store_path-Building r _ h.building))
  | inr f ↦ rw f (ground arith)
]

store_option-Named :
    (r : MongoUri) (key value : Bytes) → Named r → Ensures Named (store_option r key value)
unfolding store_option
store_option-Named r key value h = ground arith

parse_option-Named : (r : MongoUri) (s : Bytes) → Named r → Ensures Named (parse_option r s)
unfolding parse_option
parse_option-Named r s h =
    let kv = split_key_value s b'=' in
    ground (arith, store_option-Named r (url_decode kv.0) (url_decode kv.1) h)

parse_option_list-Named :
    (r : MongoUri) (ps : List Bytes) → Named r → Ensures Named (parse_option_list r ps)
unfolding parse_option_list
parse_option_list-Named r [] h = h
parse_option_list-Named r (s ∷ ps) h =
    bind-Ensures Named Named (parse_option r s) (λ r'. parse_option_list r' ps)
      (parse_option-Named r s h) (λ r' h'. parse_option_list-Named r' ps h')

parse_options-Named : (r : MongoUri) (s : Bytes) → Named r → Ensures Named (parse_options r s)
unfolding parse_options
parse_options-Named r [] h = h
parse_options-Named r (c ∷ s) h = ground (arith, parse_option_list-Named r (split_string s b'&') h)

finish-IsUsable : (r : MongoUri) → Named r → Ensures IsUsable (finish r)
unfolding finish
finish-IsUsable r h = ground arith

new_uri-Unnamed : Unnamed new_uri
new_uri-Unnamed = ground arith

pub parse_steps-IsUsable : (s : Bytes) → Ensures IsUsable (parse_steps s)
unfolding parse_steps
parse_steps-IsUsable s =
    bind-Ensures Named IsUsable _ finish
      (bind-Ensures (λ a. Named a.0) Named _ (λ a. parse_options a.0 a.1)
        (bind-Ensures (λ a. Unnamed a.0) (λ a. Named a.0) _ (λ a. parse_database_collection a.0 a.1)
          (bind-Ensures (λ a. Unnamed a.0) (λ a. Unnamed a.0) _ (λ a. parse_hosts a.0 a.1)
            (bind-Ensures (λ a. Unnamed a.0) (λ a. Unnamed a.0) _ (λ a. parse_credentials a.0 a.1)
              (parse_protocol-Unnamed s) (λ a h. parse_credentials-Unnamed a.0 a.1 h))
            (λ a h. parse_hosts-Unnamed a.0 a.1 h))
          (λ a h. parse_database_collection-Named a.0 a.1 h))
        (λ a h. parse_options-Named a.0 a.1 h))
      finish-IsUsable

result_of-Ensures :
    (m : Outcome MongoUri) → Ensures IsUsable m → IsUsable (result_of m) ⊎ IsRefused (result_of m)
result_of-Ensures (failed r) h = inr h
result_of-Ensures (done r) h = inl h

-- Every text is either parsed into a URI that the engine can use, which is marked valid, carries no
-- message, has at least one host, hosts and ports that all pass their validation, and a valid
-- database and collection name; or refused, marked invalid with a message that is not empty.
pub parse-IsUsable : (s : Bytes) → IsUsable (parse s) ⊎ IsRefused (parse s)
unfolding parse
parse-IsUsable s = elim (Bool-cases (is_empty s)) [
  | inl e ↦ rw e (inr (ground arith))
  | inr f ↦ rw f (result_of-Ensures (parse_steps s) (parse_steps-IsUsable s))
]
