-- ===== src/Uri/RoundTrip/Query.antt =====
-- The query that `to_connection_string` writes is read back by `parse_options`.
use mongodb_engine.Base.{
  ℕ, ◌≡◌, ◌≢◌, refl, sym, ap, ◌∙◌, Bool, true, false, not, ◌&&◌, List, [], ◌∷◌, ◌++◌, map, Bytes,
  Avoids, All, codes, is_empty, str_eq, Avoids-append, Bool-cases, inl, inr, if◌then◌else◌, arith,
}
use mongodb_engine.Base.Int.{pos, eq_int, to_string}
use mongodb_engine.Uri.Defs.{MongoUri, done}
use mongodb_engine.Uri.Parse.{parse_option_list, parse_options}
use mongodb_engine.Uri.Print.{option_parts, join, when}
use mongodb_engine.Uri.Split.{IsItem, split_string-join}
use mongodb_engine.Uri.RoundTrip.Options.{IsPlainOption, PlainOptions, to_string-IsPlain}
use mongodb_engine.Uri.RoundTrip.Written.{part_of, with_options, without_options, parse_parts}

append-ne : (s t : Bytes) (c : ℕ) → s ++ c ∷ t ≢ []
append-ne [] t c e = cc
append-ne (x ∷ s) t c e = cc

when-IsItem :
    (b : Bool) (part : Bytes) (rest : List Bytes)
    → IsItem b'&' part
    → All (IsItem b'&') rest
    → All (IsItem b'&') (when b part ++ rest)
when-IsItem true part rest h k = (h, k)
when-IsItem false part rest h k = k

-- A part is not empty and holds no `&`.
pair-IsItem :
    (key value : Bytes) → Avoids b'&' key → Avoids b'&' value → IsItem b'&' (key ++ b'=' ∷ value)
pair-IsItem key value k v =
    (append-ne key value b'=', Avoids-append b'&' key (b'=' ∷ value) k ((λ e. ground arith), v))

others-IsItem :
    (os : List (Bytes × Bytes)) → All IsPlainOption os → All (IsItem b'&') (map part_of os)
others-IsItem [] h = tt
others-IsItem (o ∷ os) h =
    (pair-IsItem o.0 o.1 h.0.key_plain.no_and h.0.value_plain.no_and, others-IsItem os h.1)

parts-IsItem : (u : MongoUri) → PlainOptions u → All (IsItem b'&') (option_parts u)
unfolding option_parts
parts-IsItem u h =
    let socket = codes "socketTimeoutMS=" ++ to_string u.socket_timeout_ms in
    let connect = codes "connectTimeoutMS=" ++ to_string u.connect_timeout_ms in
    let timed = not (eq_int u.connect_timeout_ms (pos 30000)) in
    let socket_timed = not (eq_int u.socket_timeout_ms (pos 30000)) in
    let others = map part_of u.options in
    let from_socket = when socket_timed socket ++ others in
    let from_connect = when timed connect ++ from_socket in
    let from_ssl = when u.ssl (codes "ssl=true") ++ from_connect in
    let replica = codes "replicaSet=" ++ u.replica_set in
    let auth = codes "authSource=" ++ u.auth_source in
    when-IsItem (not (is_empty u.auth_source) && not (str_eq u.auth_source u.database)) auth
      (when (not (is_empty u.replica_set)) replica ++ from_ssl)
      (pair-IsItem (codes "authSource") u.auth_source (omega arith) h.auth_plain.no_and)
      (when-IsItem (not (is_empty u.replica_set)) replica from_ssl
        (pair-IsItem (codes "replicaSet") u.replica_set (omega arith) h.replica_plain.no_and)
        (when-IsItem u.ssl (codes "ssl=true") from_connect
          (pair-IsItem (codes "ssl") (codes "true") (omega arith) (omega arith))
          (when-IsItem timed connect from_socket
            (pair-IsItem (codes "connectTimeoutMS") (to_string u.connect_timeout_ms) (omega arith)
              (to_string-IsPlain u.connect_timeout_ms).no_and)
            (when-IsItem socket_timed socket others
              (pair-IsItem (codes "socketTimeoutMS") (to_string u.socket_timeout_ms) (omega arith)
                (to_string-IsPlain u.socket_timeout_ms).no_and)
              (others-IsItem u.options h.options_plain)))))

-- What stands behind the database.
abbrev pub options_text : MongoUri → Bytes
options_text u = if is_empty (option_parts u) then [] else b'?' ∷ join b'&' (option_parts u)

empty_parts : (parts : List Bytes) → is_empty parts ≡ true → parts ≡ []
empty_parts [] h = refl
empty_parts (p ∷ ps) h = cc

pub parse_options-options_text :
    (r u : MongoUri)
    → PlainOptions u
    → parse_options (without_options r) (options_text u) ≡ done (with_options r u)
unfolding parse_options parse_option_list
parse_options-options_text r u h = elim (Bool-cases (is_empty (option_parts u))) [
  | inl e ↦ rw e (
      ap (λ ps. parse_option_list (without_options r) ps) (sym (empty_parts (option_parts u) e))
      ∙ parse_parts r u h)
  | inr e ↦ rw e (
      ap (parse_option_list (without_options r))
        (split_string-join b'&' (option_parts u) (parts-IsItem u h))
      ∙ parse_parts r u h)
]
