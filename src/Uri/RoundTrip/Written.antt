-- ===== src/Uri/RoundTrip/Written.antt =====
-- `parse_options` reads back all that `to_connection_string` writes behind the `?`.
use mongodb_engine.Base.{
  ◌≡◌, refl, sym, ap, ◌∙◌, Bool, true, false, not, ◌&&◌, List, [], ◌∷◌, ◌++◌, map, Bytes, Avoids,
  All, All-append, codes, is_empty, str_eq, insert_last, Sorted, lt_bytes, append_assoc, append-nil,
  arith,
}
use mongodb_engine.Base.Int.{ℤ, pos, eq_int, to_string}
use mongodb_engine.Base.Decimal.{stoi-to_string_int}
use mongodb_engine.Uri.Defs.{MongoUri, done}
use mongodb_engine.Uri.Parse.{parse_option, parse_option_list}
use mongodb_engine.Uri.Print.{option_parts}
use mongodb_engine.Uri.RoundTrip.Hosts.{eq_int_sound}
use mongodb_engine.Uri.RoundTrip.Options.{
  IsPlain, IsPlainOption, PlainOptions, parse_pair, parse_option_list-append, parse_when,
  to_string-IsPlain, nil-of_empty, store_auth, store_replica, store_ssl, store_connect,
  store_socket, store_unknown,
}

abbrev pub part_of : Bytes × Bytes → Bytes
part_of o = o.0 ++ b'=' ∷ o.1

-- The keys that are there stand before those that come.
abbrev Before : List (Bytes × Bytes) → List (Bytes × Bytes) → Type 0
Before m os = All (λ o. All (λ e. lt_bytes e.0 o.0 ≡ true) m) os

-- The options with other keys join those that are there.
parse_others :
    (r : MongoUri) (os : List (Bytes × Bytes))
    → Sorted os
    → Before r.options os
    → All IsPlainOption os
    → parse_option_list r (map part_of os) ≡ done (record r { options = r.options ++ os })
unfolding parse_option_list
parse_others r [] s b h = ap (λ k. done (record r { options = k })) (sym (append-nil r.options))
parse_others r (o ∷ os) s b h =
    let joined = r.options ++ o ∷ [] in
    let step : parse_option r (part_of o) ≡ done (record r { options = joined }) =
      parse_pair r o.0 o.1 h.0.has_key h.0.no_equals h.0.key_plain h.0.value_plain
      ∙ store_unknown r o.1 o.0 h.0.unknown
      ∙ ap (λ k. done (record r { options = k })) (insert_last o.0 o.1 r.options b.0) in
    let behind : Before joined os = All-both r.options o os b.1 s.0 in
    rw step (
      parse_others (record r { options = joined }) os s.1 behind h.1
      ∙ ap (λ k. done (record r { options = k })) (append_assoc r.options (o ∷ []) os))
  where
    All-both :
        (m : List (Bytes × Bytes)) (o : Bytes × Bytes) (os : List (Bytes × Bytes))
        → Before m os
        → All (λ f. lt_bytes o.0 f.0 ≡ true) os
        → Before (m ++ o ∷ []) os
    All-both m o [] b s = tt
    All-both m o (p ∷ ps) b s = (
      All-append (λ e. lt_bytes e.0 p.0 ≡ true) m (o ∷ []) b.0 (s.0, tt),
      All-both m o ps b.1 s.1,
    )

pub literal-IsPlain : (s : Bytes) → Avoids b'%' s → Avoids b'+' s → Avoids b'&' s → IsPlain s
literal-IsPlain s p q a = record { no_percent = p; no_plus = q; no_and = a }

-- What the options change of a URI.
abbrev pub with_options : MongoUri → MongoUri → MongoUri
with_options r u = record r {
  auth_source = u.auth_source;
  replica_set = u.replica_set;
  ssl = u.ssl;
  connect_timeout_ms = u.connect_timeout_ms;
  socket_timeout_ms = u.socket_timeout_ms;
  options = u.options;
}

-- A URI whose options are the defaults.
abbrev pub without_options : MongoUri → MongoUri
without_options r = record r {
  auth_source = [];
  replica_set = [];
  ssl = false;
  connect_timeout_ms = pos 30000;
  socket_timeout_ms = pos 30000;
  options = [];
}

or_empty : (b : Bool) (s : Bytes) → (not (is_empty s) && b) ≡ false → b ≡ true → s ≡ []
or_empty b [] f t = refl
or_empty b (c ∷ s) f t = cc

eq_of_not : (a b : ℤ) → not (eq_int a b) ≡ false → b ≡ a
eq_of_not a b f = sym (eq_int_sound a b (ground arith))

module _ (r u : MongoUri) (h : PlainOptions u) where
  abbrev r0 : MongoUri
  r0 = without_options r

  abbrev r1 : MongoUri
  r1 = record r0 { auth_source = u.auth_source }

  abbrev r2 : MongoUri
  r2 = record r1 { replica_set = u.replica_set }

  abbrev r3 : MongoUri
  r3 = record r2 { ssl = u.ssl }

  abbrev r4 : MongoUri
  r4 = record r3 { connect_timeout_ms = u.connect_timeout_ms }

  abbrev r5 : MongoUri
  r5 = record r4 { socket_timeout_ms = u.socket_timeout_ms }

  read_auth : parse_option r0 (codes "authSource=" ++ u.auth_source) ≡ done r1
  read_auth =
      parse_pair r0 (codes "authSource") u.auth_source (λ e. cc) (omega arith)
        (literal-IsPlain _ (omega arith) (omega arith) (omega arith)) h.auth_plain
      ∙ store_auth r0 u.auth_source

  read_replica : parse_option r1 (codes "replicaSet=" ++ u.replica_set) ≡ done r2
  read_replica =
      parse_pair r1 (codes "replicaSet") u.replica_set (λ e. cc) (omega arith)
        (literal-IsPlain _ (omega arith) (omega arith) (omega arith)) h.replica_plain
      ∙ store_replica r1 u.replica_set

  read_ssl : parse_option r2 (codes "ssl=true") ≡ done (record r2 { ssl = true })
  read_ssl =
      parse_pair r2 (codes "ssl") (codes "true") (λ e. cc) (omega arith)
        (literal-IsPlain _ (omega arith) (omega arith) (omega arith))
        (literal-IsPlain _ (omega arith) (omega arith) (omega arith))
      ∙ store_ssl r2

  read_connect :
      parse_option r3 (codes "connectTimeoutMS=" ++ to_string u.connect_timeout_ms) ≡ done r4
  read_connect =
      parse_pair r3 (codes "connectTimeoutMS") (to_string u.connect_timeout_ms) (λ e. cc)
        (omega arith) (literal-IsPlain _ (omega arith) (omega arith) (omega arith))
        (to_string-IsPlain u.connect_timeout_ms)
      ∙ store_connect r3 (to_string u.connect_timeout_ms) u.connect_timeout_ms
          (stoi-to_string_int u.connect_timeout_ms h.connect_int)

  read_socket :
      parse_option r4 (codes "socketTimeoutMS=" ++ to_string u.socket_timeout_ms) ≡ done r5
  read_socket =
      parse_pair r4 (codes "socketTimeoutMS") (to_string u.socket_timeout_ms) (λ e. cc)
        (omega arith) (literal-IsPlain _ (omega arith) (omega arith) (omega arith))
        (to_string-IsPlain u.socket_timeout_ms)
      ∙ store_socket r4 (to_string u.socket_timeout_ms) u.socket_timeout_ms
          (stoi-to_string_int u.socket_timeout_ms h.socket_int)

  no_replica : not (is_empty u.replica_set) ≡ false → r1 ≡ r2
  no_replica f =
      ap (λ s. record r1 { replica_set = s }) (sym (nil-of_empty u.replica_set (ground arith)))

  -- The loop reads all parts, in order.
  pub parse_parts : parse_option_list r0 (option_parts u) ≡ done (with_options r u)
  unfolding option_parts
  parse_parts =
      parse_option_list-append r0 r1 _ _ (
        parse_when r0 r1 _ _ (λ t. read_auth)
          (λ f.
            ap (λ s. record r0 { auth_source = s })
              (sym (
                or_empty (not (str_eq u.auth_source u.database)) u.auth_source f
                  (rw (h.auth_other) refl)))))
      ∙ parse_option_list-append r1 r2 _ _ (parse_when r1 r2 _ _ (λ t. read_replica) no_replica)
      ∙ parse_option_list-append r2 r3 _ _
          (parse_when r2 r3 _ _ (λ t. rw t read_ssl) (λ f. ap (λ b. record r2 { ssl = b }) (sym f)))
      ∙ parse_option_list-append r3 r4 _ _ (
          parse_when r3 r4 _ _ (λ t. read_connect)
            (λ f.
              ap (λ z. record r3 { connect_timeout_ms = z })
                (eq_of_not u.connect_timeout_ms (pos 30000) f)))
      ∙ parse_option_list-append r4 r5 _ _ (
          parse_when r4 r5 _ _ (λ t. read_socket)
            (λ f.
              ap (λ z. record r4 { socket_timeout_ms = z })
                (eq_of_not u.socket_timeout_ms (pos 30000) f)))
      ∙ parse_others r5 u.options h.sorted (before_none u.options) h.options_plain
    where
      before_none : (os : List (Bytes × Bytes)) → Before [] os
      before_none [] = tt
      before_none (o ∷ os) = (tt, before_none os)
