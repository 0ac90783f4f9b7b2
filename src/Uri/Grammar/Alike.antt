-- ===== src/Uri/Grammar/Alike.antt =====
-- The options of a URI, read alike from two starts that differ in the collection and in the source of
-- the authentication.
use mongodb_engine.Base.{
  ◌≡◌, refl, ◌⊎◌, ◌||◌, inl, inr, List, [], ◌∷◌, ◌++◌, none, some, Bytes, codes, str_eq, is_empty,
  insert, if◌then◌else◌, Bool-cases, Option-cases,
}
use mongodb_engine.Base.Int.{stoi}
use mongodb_engine.Uri.Defs.{MongoUri, Outcome, failed, done, ◌>>=◌, fail}
use mongodb_engine.Uri.Helpers.{split_key_value}
use mongodb_engine.Uri.Parse.{store_option, parse_option, parse_option_list}

-- The URI with another collection and another source.
abbrev pub variant : MongoUri → Bytes → Bytes → MongoUri
variant x source collection = record x { auth_source = source; collection = collection }

abbrev pub admin : Bytes
admin = codes "admin"

-- The source of the URI, or `admin` where it has none.
abbrev pub IsSource : MongoUri → Bytes → Type 0
IsSource x source = (source ≡ x.auth_source) ⊎ ((x.auth_source ≡ []) × (source ≡ admin))

-- Where the one step is done, so is the other, on the variant.
abbrev pub Tracks : Bytes → Outcome MongoUri → Outcome MongoUri → Type 0
Tracks c (failed r) m = Unit {0}
Tracks c (done x) m = (source : Bytes) × (m ≡ done (variant x source c)) × IsSource x source

bind-Tracks :
    (c : Bytes) (m m' : Outcome MongoUri) (f g : MongoUri → Outcome MongoUri)
    → Tracks c m m'
    → ((x : MongoUri) (source : Bytes)
        → IsSource x source
        → Tracks c (f x) (g (variant x source c)))
    → Tracks c (m >>= f) (m' >>= g)
bind-Tracks c (failed r) m' f g h k = tt
bind-Tracks c (done x) m' f g (source, e, h) k = rw e (k x source h)

-- The branches behind the option `tls`.
abbrev store_timeout : MongoUri → Bytes → Bytes → Outcome MongoUri
store_timeout r key value =
    if str_eq key (codes "connectTimeoutMS")
    then elim (stoi value) [
      | none ↦ fail r (codes "Invalid connectTimeoutMS: " ++ value)
      | some ms ↦ done (record r { connect_timeout_ms = ms })
    ]
    else if str_eq key (codes "socketTimeoutMS")
    then elim (stoi value) [
      | none ↦ fail r (codes "Invalid socketTimeoutMS: " ++ value)
      | some ms ↦ done (record r { socket_timeout_ms = ms })
    ]
    else done (record r { options = insert key value r.options })

store_timeout-Tracks :
    (c : Bytes) (x : MongoUri) (source key value : Bytes)
    → IsSource x source
    → Tracks c (store_timeout x key value) (store_timeout (variant x source c) key value)
store_timeout-Tracks c x source key value h =
    elim (Bool-cases (str_eq key (codes "connectTimeoutMS"))) [
      | inl e ↦ rw e (elim (Option-cases (stoi value)) [
        | inl n ↦ rw n tt
        | inr (ms, n) ↦ rw n (source, refl, h)
      ])
      | inr e ↦ rw e (elim (Bool-cases (str_eq key (codes "socketTimeoutMS"))) [
        | inl e ↦ rw e (elim (Option-cases (stoi value)) [
          | inl n ↦ rw n tt
          | inr (ms, n) ↦ rw n (source, refl, h)
        ])
        | inr e ↦ rw e (source, refl, h)
      ])
    ]

store_option-Tracks :
    (c : Bytes) (x : MongoUri) (source key value : Bytes)
    → IsSource x source
    → Tracks c (store_option x key value) (store_option (variant x source c) key value)
unfolding store_option
store_option-Tracks c x source key value h = elim (Bool-cases (str_eq key (codes "authSource"))) [
  | inl e ↦ rw e (value, refl, inl refl)
  | inr e ↦ rw e (elim (Bool-cases (str_eq key (codes "replicaSet"))) [
    | inl e ↦ rw e (source, refl, h)
    | inr e ↦ rw e (elim (Bool-cases (str_eq key (codes "ssl") || str_eq key (codes "tls"))) [
      | inl e ↦ rw e (source, refl, h)
      | inr e ↦ rw e (store_timeout-Tracks c x source key value h)
    ])
  ])
]

parse_option-Tracks :
    (c : Bytes) (x : MongoUri) (source pair : Bytes)
    → IsSource x source
    → Tracks c (parse_option x pair) (parse_option (variant x source c) pair)
unfolding parse_option
parse_option-Tracks c x source pair h = elim (Bool-cases (is_empty (split_key_value pair b'=').0)) [
  | inl e ↦ rw e (source, refl, h)
  | inr e ↦ rw e (store_option-Tracks c x source _ _ h)
]

pub parse_option_list-Tracks :
    (c : Bytes) (x : MongoUri) (source : Bytes) (pairs : List Bytes)
    → IsSource x source
    → Tracks c (parse_option_list x pairs) (parse_option_list (variant x source c) pairs)
unfolding parse_option_list
parse_option_list-Tracks c x source [] h = (source, refl, h)
parse_option_list-Tracks c x source (pair ∷ pairs) h =
    bind-Tracks c (parse_option x pair) (parse_option (variant x source c) pair) _ _
      (parse_option-Tracks c x source pair h) (λ y s k. parse_option_list-Tracks c y s pairs k)
