-- ===== src/Uri/Grammar/Options.antt =====
-- The loop over the options, and the options of the grammar.
use mongodb_engine.Base.{
  ◌≡◌, refl, ◌∙◌, Bool, true, false, ◌||◌, inl, inr, List, [], ◌∷◌, none, some, Bytes, All, codes,
  str_eq, str_eq_iff, is_empty, Bool-cases, Option-cases, ◌≢◌, if-both, insert, ◌⊎◌, ◌++◌,
  if◌then◌else◌, arith,
}
use mongodb_engine.Base.Int.{ℤ, stoi}
use mongodb_engine.Uri.Defs.{>>=-eq-done, MongoUri, Outcome, done, fail}
use mongodb_engine.Uri.Helpers.{split_key_value, url_decode, split_string}
use mongodb_engine.Uri.Parse.{store_option, parse_option, parse_option_list, parse_options}
use mongodb_engine.Uri.Grammar.{
  IsOption, skipped, free, timed, is_timeout, IsQuery, missing, options,
}

-- What the options leave of a URI.
pub record Kept (r r' : MongoUri) : Type 0 where
  pub hosts : r'.hosts ≡ r.hosts
  pub database : r'.database ≡ r.database
  pub collection : r'.collection ≡ r.collection

-- The step is done, and keeps the hosts and the names.
abbrev pub Stores : MongoUri → Outcome MongoUri → Type 0
Stores r m = (r' : MongoUri) × (m ≡ done r') × Kept r r'

-- A change of fields that the end of the parse does not ask for.
stored :
    (r r' : MongoUri)
    → r'.hosts ≡ r.hosts
    → r'.database ≡ r.database
    → r'.collection ≡ r.collection
    → Stores r (done r')
stored r r' h d c = (r', refl, record { hosts = h; database = d; collection = c })

abbrev Numbered : Bytes → Type 0
Numbered value = (ms : ℤ) × (stoi value ≡ some ms)

or_false : (a b : Bool) → (a || b) ≡ false → (a ≡ false) × (b ≡ false)
or_false a b h = ground arith

module _ (r : MongoUri) (key value : Bytes) where
  -- Each option is stored, a timeout where it has a number.
  store_option-Stores :
      (is_timeout key ≡ false) ⊎ Numbered value → Stores r (store_option r key value)
  unfolding store_option
  store_option-Stores h =
      let P = Stores r in
      if-both P (str_eq key (codes "authSource")) (stored r _ refl refl refl) (
        if-both P (str_eq key (codes "replicaSet")) (stored r _ refl refl refl) (
          if-both P (str_eq key (codes "ssl") || str_eq key (codes "tls"))
            (stored r _ refl refl refl) (timeouts h)))
    where
      timeouts :
          (is_timeout key ≡ false) ⊎ Numbered value
          → Stores r (
              if str_eq key (codes "connectTimeoutMS")
              then elim (stoi value) [
                | none ↦ fail r (codes "Invalid connectTimeoutMS: " ++ value)
                | some ms ↦ done (record r { connect_timeout_ms = ms })
              ]
              else if str_eq key (codes "socketTimeoutMS")
              then elim (stoi value) [
                | none ↦ fail r (codes "Invalid socketTimeoutMS: " ++ value)
                | some ms ↦ done (record r { socket_timeout_ms = ms })
              ]
              else done (record r { options = insert key value r.options }))
      timeouts (inl e) =
          rw
            (
              (or_false (str_eq key (codes "connectTimeoutMS")) _ e).0,
              (or_false (str_eq key (codes "connectTimeoutMS")) _ e).1,
            )
            (stored r _ refl refl refl)
      timeouts (inr (ms, e)) = rw e (
          if-both (Stores r) (str_eq key (codes "connectTimeoutMS")) (stored r _ refl refl refl) (
            if-both (Stores r) (str_eq key (codes "socketTimeoutMS")) (stored r _ refl refl refl)
              (stored r _ refl refl refl)))

module _ (r r' : MongoUri) (value : Bytes) (n : stoi value ≡ none) where
  connect_timeout-fails : store_option r (codes "connectTimeoutMS") value ≢ done r'
  unfolding store_option str_eq
  connect_timeout-fails h = cc (rw n at h)

  socket_timeout-fails : store_option r (codes "socketTimeoutMS") value ≢ done r'
  unfolding store_option str_eq
  socket_timeout-fails h = cc (rw n at h)

  timeout-fails : (key : Bytes) → is_timeout key ≡ true → store_option r key value ≢ done r'
  timeout-fails key t h = elim (Bool-cases (str_eq key (codes "connectTimeoutMS"))) [
    | inl e ↦ connect_timeout-fails (rw ((str_eq_iff key _).0 e) at h)
    | inr e ↦
        let s : str_eq key (codes "socketTimeoutMS") ≡ true = rw e at t in
        socket_timeout-fails (rw ((str_eq_iff key _).0 s) at h)
  ]

store_option-Numbered :
    (r r' : MongoUri) (key value : Bytes)
    → store_option r key value ≡ done r'
    → is_timeout key ≡ true
    → Numbered value
store_option-Numbered r r' key value h t = elim (Option-cases (stoi value)) [
  | inr found ↦ found
  | inl n ↦ absurd (timeout-fails r r' value n key t h)
]

parse_option-Stores : (r : MongoUri) (pair : Bytes) → IsOption pair → Stores r (parse_option r pair)
unfolding parse_option
parse_option-Stores r pair (skipped e) = rw e (stored r r refl refl refl)
parse_option-Stores r pair (free e) =
    if-both (Stores r) (is_empty (split_key_value pair b'=').0) (stored r r refl refl refl)
      (store_option-Stores r _ _ (inl e))
parse_option-Stores r pair (timed ms e) =
    if-both (Stores r) (is_empty (split_key_value pair b'=').0) (stored r r refl refl refl)
      (store_option-Stores r _ _ (inr (ms, e)))

parse_option-IsOption :
    (r r' : MongoUri) (pair : Bytes) → parse_option r pair ≡ done r' → IsOption pair
unfolding parse_option
parse_option-IsOption r r' pair h =
    let kv = split_key_value pair b'=' in
    elim (Bool-cases (is_empty kv.0)) [
      | inl e ↦ skipped e
      | inr e ↦ elim (Bool-cases (is_timeout (url_decode kv.0))) [
        | inr f ↦ free f
        | inl t ↦
            let given : store_option r (url_decode kv.0) (url_decode kv.1) ≡ done r' = rw e at h in
            let (ms, n) = store_option-Numbered r r' (url_decode kv.0) (url_decode kv.1) given t in
            timed ms n
      ]
    ]

Kept-trans : {p q r : MongoUri} → Kept p q → Kept q r → Kept p r
Kept-trans h k = record {
  hosts = k.hosts ∙ h.hosts;
  database = k.database ∙ h.database;
  collection = k.collection ∙ h.collection;
}

parse_option_list-Stores :
    (r : MongoUri) (pairs : List Bytes) → All IsOption pairs → Stores r (parse_option_list r pairs)
unfolding parse_option_list
parse_option_list-Stores r [] h = stored r r refl refl refl
parse_option_list-Stores r (pair ∷ pairs) h =
    let (r', e, k) = parse_option-Stores r pair h.0 in
    let (r'', f, l) = parse_option_list-Stores r' pairs h.1 in (r'', rw e f, Kept-trans k l)

parse_option_list-IsOption :
    (r r' : MongoUri) (pairs : List Bytes)
    → parse_option_list r pairs ≡ done r'
    → All IsOption pairs
unfolding parse_option_list
parse_option_list-IsOption r r' [] h = tt
parse_option_list-IsOption r r' (pair ∷ pairs) h =
    let (s, e, f) = >>=-eq-done (parse_option r pair) (λ s. parse_option_list s pairs) r' h in
    (parse_option-IsOption r s pair e, parse_option_list-IsOption s r' pairs f)

-- A query of the grammar is read, and one that is read is of the grammar.
pub parse_options-Stores : (r : MongoUri) (q : Bytes) → IsQuery q → Stores r (parse_options r q)
unfolding parse_options
parse_options-Stores r q missing = stored r r refl refl refl
parse_options-Stores r q (options q' h) = parse_option_list-Stores r (split_string q' b'&') h

pub parse_options-IsQuery :
    (r r' : MongoUri) (q : Bytes) → parse_options r (b'?' ∷ q) ≡ done r' → IsQuery (b'?' ∷ q)
unfolding parse_options
parse_options-IsQuery r r' q h = options q (parse_option_list-IsOption r r' (split_string q b'&') h)
