-- ===== src/Uri/RoundTrip/Options.antt =====
-- `parse_options` reads back the options that `to_connection_string` writes.
use mongodb_engine.Base.{
  ◌≡◌, ◌≢◌, refl, ap, Bool, true, false, ◌||◌, List, [], ◌∷◌, ◌++◌, some, Bytes, Avoids, All, codes,
  find-append, take-append_left, drop-append_suc, is_empty, str_eq, insert, Sorted, if◌then◌else◌,
  arith,
}
use mongodb_engine.Base.Int.{ℤ, fits_int, to_string, stoi}
use mongodb_engine.Base.Decimal.{to_string_int-Avoids}
use mongodb_engine.Uri.Defs.{MongoUri, done, >>=-eq-done, done_inj}
use mongodb_engine.Uri.Helpers.{url_decode, split_key_value}
use mongodb_engine.Uri.Parse.{store_option, parse_option, parse_option_list}

-- A text that stands for itself in an option.
pub record IsPlain (s : Bytes) : Type 0 where
  pub no_percent : Avoids b'%' s
  pub no_plus : Avoids b'+' s
  pub no_and : Avoids b'&' s

pub decode_plain_lem : (s : Bytes) → Avoids b'%' s → Avoids b'+' s → url_decode s ≡ s
unfolding url_decode
decode_plain_lem [] h k = refl
decode_plain_lem (c ∷ []) h k = ground arith
decode_plain_lem (c ∷ a ∷ []) h k = ground (arith, decode_plain_lem (a ∷ []) h.1 k.1)
decode_plain_lem (c ∷ a ∷ b ∷ s) h k = ground (arith, decode_plain_lem (a ∷ b ∷ s) h.1 k.1)

ne-is_empty : (s : Bytes) → s ≢ [] → is_empty s ≡ false
ne-is_empty [] h = absurd (h refl)
ne-is_empty (c ∷ s) h = refl

pub parse_pair :
    (r : MongoUri) (key value : Bytes)
    → key ≢ []
    → Avoids b'=' key
    → IsPlain key
    → IsPlain value
    → parse_option r (key ++ b'=' ∷ value) ≡ store_option r key value
unfolding parse_option split_key_value
parse_pair r key value n e k v =
    rw (find-append b'=' key value e, split_key_value)
      (rw
        (
          take-append_left key (b'=' ∷ value),
          drop-append_suc key b'=' value,
          ne-is_empty key n,
          decode_plain_lem key k.no_percent k.no_plus,
          decode_plain_lem value v.no_percent v.no_plus,
        )
        refl)

pub parse_option_list-append :
    (r r' : MongoUri) (xs ys : List Bytes)
    → parse_option_list r xs ≡ done r'
    → parse_option_list r (xs ++ ys) ≡ parse_option_list r' ys
unfolding parse_option_list
parse_option_list-append r r' [] ys h = ap (λ k. parse_option_list k ys) (done_inj h)
parse_option_list-append r r' (x ∷ xs) ys h =
    let (p, e, f) = >>=-eq-done (parse_option r x) (λ k. parse_option_list k xs) r' h in
    rw e (parse_option_list-append p r' xs ys f)

-- One option that is written where it is not the default.
pub parse_when :
    (r r' : MongoUri) (b : Bool) (part : Bytes)
    → (b ≡ true → parse_option r part ≡ done r')
    → (b ≡ false → r ≡ r')
    → parse_option_list r (if b then part ∷ [] else []) ≡ done r'
unfolding parse_option_list
parse_when r r' true part h k = rw (h refl) refl
parse_when r r' false part h k = ap done (k refl)

-- The keys that the parser knows.
abbrev pub is_known : Bytes → Bool
is_known key =
    str_eq key (codes "authSource")
    || (str_eq key (codes "replicaSet")
        || ((str_eq key (codes "ssl") || str_eq key (codes "tls"))
            || (str_eq key (codes "connectTimeoutMS") || str_eq key (codes "socketTimeoutMS"))))

-- An option of a key that the parser does not know.
pub record IsPlainOption (o : Bytes × Bytes) : Type 0 where
  pub has_key : o.0 ≢ []
  pub unknown : is_known o.0 ≡ false
  pub no_equals : Avoids b'=' o.0
  pub key_plain : IsPlain o.0
  pub value_plain : IsPlain o.1

-- Options that can be written as they are.
pub record PlainOptions (u : MongoUri) : Type 0 where
  pub auth_plain : IsPlain u.auth_source
  pub auth_other : str_eq u.auth_source u.database ≡ false
  pub replica_plain : IsPlain u.replica_set
  pub connect_int : fits_int u.connect_timeout_ms ≡ true
  pub socket_int : fits_int u.socket_timeout_ms ≡ true
  pub sorted : Sorted u.options
  pub options_plain : All IsPlainOption u.options

pub to_string-IsPlain : (z : ℤ) → IsPlain (to_string z)
to_string-IsPlain z = record {
  no_percent = to_string_int-Avoids b'%' z refl (λ e. ground arith);
  no_plus = to_string_int-Avoids b'+' z refl (λ e. ground arith);
  no_and = to_string_int-Avoids b'&' z refl (λ e. ground arith);
}

module _ (r : MongoUri) (value : Bytes) where
  pub store_auth :
      store_option r (codes "authSource") value ≡ done (record r { auth_source = value })
  unfolding store_option str_eq
  store_auth = refl

  pub store_replica :
      store_option r (codes "replicaSet") value ≡ done (record r { replica_set = value })
  unfolding store_option str_eq
  store_replica = refl

  pub store_connect :
      (ms : ℤ)
      → stoi value ≡ some ms
      → store_option r (codes "connectTimeoutMS") value
        ≡ done (record r { connect_timeout_ms = ms })
  unfolding store_option str_eq
  store_connect ms e = rw e refl

  pub store_socket :
      (ms : ℤ)
      → stoi value ≡ some ms
      → store_option r (codes "socketTimeoutMS") value ≡ done (record r { socket_timeout_ms = ms })
  unfolding store_option str_eq
  store_socket ms e = rw e refl

  pub store_unknown :
      (key : Bytes)
      → is_known key ≡ false
      → store_option r key value ≡ done (record r { options = insert key value r.options })
  unfolding store_option
  store_unknown key h = ground arith

pub store_ssl :
    (r : MongoUri) → store_option r (codes "ssl") (codes "true") ≡ done (record r { ssl = true })
unfolding store_option str_eq
store_ssl r = refl

pub nil-of_empty : (s : Bytes) → is_empty s ≡ true → s ≡ []
nil-of_empty [] h = refl
nil-of_empty (c ∷ s) h = cc
