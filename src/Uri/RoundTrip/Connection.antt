-- ===== src/Uri/RoundTrip/Connection.antt =====
-- `parse` reads back what `to_connection_string` writes, but for the collection.
use mongodb_engine.Base.{
  ℕ, ◌≡◌, ◌≢◌, refl, sym, ap, ap₂, ◌∙◌, true, false, inl, inr, ◌⊎◌, [], ◌∷◌, ◌++◌, Bytes, Avoids,
  codes, is_empty, find-Avoids, find-append, take-append_left, drop-append_left, drop-append_suc,
  append_assoc, append-nil, Avoids-append, Bool-cases, if-both, if◌then◌else◌, arith,
}
use mongodb_engine.Uri.Defs.{MongoUri, new_uri, failed, done}
use mongodb_engine.Uri.Helpers.{url_decode}
use mongodb_engine.Uri.Parse.{
  parse_credentials, store_credentials, parse_database_collection, store_path, check_path, finish,
  parse_steps, parse,
}
use mongodb_engine.Uri.Print.{protocol, print_hosts, join, option_parts, to_connection_string}
use mongodb_engine.Uri.Sound.{IsUsable}
use mongodb_engine.Uri.Validate.{validate_database_name}
use mongodb_engine.Uri.RoundTrip.{
  parse_protocol-protocol, parse_credentials-hosts, parse_hosts-print_hosts, database-Avoids,
  database-ne, hosts-ne, protocol-ne,
}
use mongodb_engine.Uri.RoundTrip.Credentials.{parse_credentials-given}
use mongodb_engine.Uri.RoundTrip.Hosts.{IsQuiet, print_hosts-Avoids}
use mongodb_engine.Uri.RoundTrip.Options.{PlainOptions, decode_plain_lem, nil-of_empty}
use mongodb_engine.Uri.RoundTrip.Query.{options_text, parse_options-options_text}
use mongodb_engine.Uri.Grammar.Text.{path_end}

-- A part of the credentials that stands for itself.
pub record IsPlainWord (s : Bytes) : Type 0 where
  pub no_at : Avoids b'@' s
  pub no_slash : Avoids b'/' s
  pub no_question : Avoids b'?' s
  pub no_percent : Avoids b'%' s
  pub no_plus : Avoids b'+' s

-- A URI that can be written without encoding.
pub record IsPlainUri (u : MongoUri) : Type 0 where
  pub usable : IsUsable u
  pub username_plain : IsPlainWord u.username
  pub username_no_colon : Avoids b':' u.username
  pub password_plain : IsPlainWord u.password
  pub password_named : u.username ≡ [] → u.password ≡ []
  pub options_plain : PlainOptions u

abbrev colon_password : MongoUri → Bytes
colon_password u = if is_empty u.password then [] else b':' ∷ u.password

abbrev login : MongoUri → Bytes
login u = if is_empty u.username then [] else u.username ++ (colon_password u ++ b'@' ∷ [])

connection_text :
    (u : MongoUri)
    → IsUsable u
    → to_connection_string u
      ≡ protocol u.is_srv
        ++ (login u ++ (print_hosts u.hosts ++ b'/' ∷ (u.database ++ options_text u)))
unfolding to_connection_string
connection_text u h = rw (h.valid, database-ne u.database h.database_valid) refl

decode_word : (s : Bytes) → IsPlainWord s → url_decode s ≡ s
decode_word s h = decode_plain_lem s h.no_percent h.no_plus

store_login :
    (r u : MongoUri)
    → IsPlainUri u
    → r.password ≡ []
    → store_credentials r (u.username ++ colon_password u)
      ≡ record r { username = u.username; password = u.password }
unfolding store_credentials
store_login r u h n =
    let named = λ (x y : Bytes). record r { username = x; password = y } in
    let user = decode_word u.username h.username_plain in
    elim (Bool-cases (is_empty u.password)) [
      | inl e ↦
          rw (e, append-nil)
            (rw (find-Avoids b':' u.username h.username_no_colon, store_credentials)
              (ap₂ named user (n ∙ sym (nil-of_empty u.password e))))
      | inr e ↦ rw e (
          rw (find-append b':' u.username u.password h.username_no_colon, store_credentials)
            (rw
              (
                take-append_left u.username (b':' ∷ u.password),
                drop-append_suc u.username b':' u.password,
              )
              (ap₂ named user (decode_word u.password h.password_plain))))
    ]

login-Avoids :
    (c : ℕ) (u : MongoUri)
    → Avoids c u.username
    → Avoids c u.password
    → b':' ≢ c
    → Avoids c (u.username ++ colon_password u)
login-Avoids c u h k n =
    Avoids-append c u.username (colon_password u) h
      (if-both (Avoids c) (is_empty u.password) tt (n, k))

parse_login :
    (u : MongoUri) (rest : Bytes)
    → IsPlainUri u
    → parse_credentials
        (record new_uri { is_srv = u.is_srv })
        (login u ++ (print_hosts u.hosts ++ b'/' ∷ rest))
      ≡ done (
        record new_uri { is_srv = u.is_srv; username = u.username; password = u.password },
        print_hosts u.hosts ++ b'/' ∷ rest,
      )
parse_login u rest h =
    let after = print_hosts u.hosts ++ b'/' ∷ rest in
    let start = record new_uri { is_srv = u.is_srv } in
    let named = λ (x y : Bytes). record start { username = x; password = y } in
    let creds = u.username ++ colon_password u in
    elim (Bool-cases (is_empty u.username)) [
      | inl e ↦
          let nobody = nil-of_empty u.username e in
          let hosts = λ (c : ℕ) (k : IsQuiet c) (n : c ≢ b',').
            print_hosts-Avoids c u.hosts h.usable.hosts_valid k n in
          rw e (
            parse_credentials-hosts start (print_hosts u.hosts) rest
              (hosts b'@' (refl, λ x. ground arith) (λ x. ground arith))
              (hosts b'/' (refl, λ x. ground arith) (λ x. ground arith))
            ∙ ap₂ (λ x y. done (named x y, after)) (sym nobody) (sym (h.password_named nobody)))
      | inr e ↦
          let whole : (u.username ++ (colon_password u ++ b'@' ∷ [])) ++ after
              ≡ creds ++ b'@' ∷ after =
            simp (append_assoc) in
          rw e (
            rw whole (
              parse_credentials-given start creds after
                (login-Avoids b'@' u h.username_plain.no_at h.password_plain.no_at
                  (λ x. ground arith))
                (login-Avoids b'/' u h.username_plain.no_slash h.password_plain.no_slash
                  (λ x. ground arith))
                (login-Avoids b'?' u h.username_plain.no_question h.password_plain.no_question
                  (λ x. ground arith))
              ∙ ap (λ k. done (k, after)) (store_login start u h refl)))
    ]

check_database :
    (r : MongoUri) (s : Bytes)
    → validate_database_name r.database ≡ true
    → r.collection ≡ []
    → check_path r s ≡ done (r, s)
unfolding check_path
check_database r s v n = ground arith

pub parse_database :
    (r : MongoUri) (database query : Bytes)
    → validate_database_name database ≡ true
    → r.collection ≡ []
    → (query ≡ []) ⊎ ((q : Bytes) × (query ≡ b'?' ∷ q))
    → parse_database_collection r (b'/' ∷ (database ++ query))
      ≡ done (record r { database = database }, query)
unfolding parse_database_collection store_path
parse_database r database query v n t =
    rw
      (
        path_end database query (database-Avoids b'?' database v refl) t,
        take-append_left database query,
        drop-append_left database query,
      )
      (rw (find-Avoids b'/' database (database-Avoids b'/' database v refl), store_path)
        (check_database (record r { database = database }) query v n))

text_forms : (u : MongoUri) → (options_text u ≡ []) ⊎ ((q : Bytes) × (options_text u ≡ b'?' ∷ q))
text_forms u = elim (Bool-cases (is_empty (option_parts u))) [
  | inl e ↦ inl (rw e refl)
  | inr e ↦ inr (join b'&' (option_parts u), rw e refl)
]

abbrev pub no_collection : Bytes
no_collection = codes "Collection name is required for storage engine"

pub finish_unnamed :
    (r : MongoUri)
    → is_empty r.hosts ≡ false
    → is_empty r.database ≡ false
    → r.collection ≡ []
    → finish r ≡ failed (record r { error_message = no_collection })
unfolding finish
finish_unnamed r h d c = rw (h, d, c) refl

parse_steps-connection_text :
    (u : MongoUri)
    → IsPlainUri u
    → parse_steps (
        protocol u.is_srv
        ++ (login u ++ (print_hosts u.hosts ++ b'/' ∷ (u.database ++ options_text u))))
      ≡ failed (record u { collection = []; is_valid = false; error_message = no_collection })
unfolding parse_steps
parse_steps-connection_text u h =
    let path = u.database ++ options_text u in
    let r = record new_uri { is_srv = u.is_srv; username = u.username; password = u.password } in
    let s = record r { hosts = u.hosts; database = u.database } in
    rw
      (
        parse_protocol-protocol u.is_srv (login u ++ (print_hosts u.hosts ++ b'/' ∷ path)),
        parse_login u path h,
        parse_hosts-print_hosts r u.hosts path h.usable.hosts_valid h.usable.has_hosts,
        parse_database (record r { hosts = u.hosts }) u.database (options_text u)
            h.usable.database_valid refl (text_forms u),
        parse_options-options_text s u h.options_plain,
      )
      (finish_unnamed (record u { collection = []; is_valid = false; error_message = [] })
        (hosts-ne u.hosts h.usable.has_hosts) (database-ne u.database h.usable.database_valid) refl)

-- Take a usable URI whose user name, password and options hold no character that the text would have
-- to encode, with no password where it has no user name, whose authentication source is not its
-- database, whose timeouts fit an `int` and whose other options are in the order of their keys, which
-- are not those that the parser knows. Of what `to_connection_string` writes of it, `parse` reads
-- back every field but the collection, which is not written, and refuses the text for that alone.
pub parse-to_connection_string :
    (u : MongoUri)
    → IsPlainUri u
    → parse (to_connection_string u)
      ≡ record u { collection = []; is_valid = false; error_message = no_collection }
unfolding parse
parse-to_connection_string u h =
    rw (connection_text u h.usable, protocol-ne u.is_srv _, parse_steps-connection_text u h)
