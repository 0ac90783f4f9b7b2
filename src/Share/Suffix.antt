-- ===== src/Share/Suffix.antt =====
-- What the share puts behind the database for the driver, read as options: src/mongodb_share.cc with
-- src/mongodb_uri_parser.cc.
use mongodb_engine.Base.{
  ◌≡◌, refl, ap, ◌∙◌, true, false, not, ◌&&◌, ◌⊎◌, inl, inr, [], ◌∷◌, ◌++◌, Bytes, codes, Avoids,
  find, find-append, contains_sub, is_empty, drop-append_suc, if-both, Bool-cases, arith,
}
use mongodb_engine.Share.Parse.{is_found, auth_suffix, query_params}
use mongodb_engine.Uri.Defs.{MongoUri, done}
use mongodb_engine.Uri.Helpers.{split_string, split_from}
use mongodb_engine.Uri.Parse.{parse_option_list, parse_options, parse_option}
use mongodb_engine.Uri.Grammar.{IsQuery, missing, options}
use mongodb_engine.Uri.Grammar.Passes.{query_forms}
use mongodb_engine.Uri.Grammar.Alike.{admin, Tracks, parse_option_list-Tracks}
use mongodb_engine.Uri.RoundTrip.Options.{parse_pair, store_auth}
use mongodb_engine.Uri.RoundTrip.Written.{literal-IsPlain}

-- What the share puts behind the database of a text with this query.
pub data IsSuffix : Bytes → Bytes → Type 0 where
  same : (query : Bytes) → IsSuffix query query
  admin_only : IsSuffix [] (codes "?authSource=admin")
  admin_first : (q : Bytes) → IsSuffix (b'?' ∷ q) (codes "?authSource=admin&" ++ q)

pub auth_suffix_none : (text : Bytes) → IsSuffix [] (auth_suffix text false)
unfolding auth_suffix
auth_suffix_none text =
    if-both (IsSuffix []) (is_found (find b'@' text) && true) admin_only (same [])

pub auth_suffix_some :
    (text q : Bytes) → query_params text ≡ q → IsSuffix (b'?' ∷ q) (auth_suffix text true)
unfolding auth_suffix
auth_suffix_some text q e = elim (Bool-cases (is_found (find b'@' text))) [
  | inl h ↦
      rw (h, e)
        (if-both (IsSuffix (b'?' ∷ q)) (not (contains_sub (codes "authSource") q)) (admin_first q)
          (same (b'?' ∷ q)))
  | inr h ↦
      rw (h, e)
        (if-both (IsSuffix (b'?' ∷ q)) (not (contains_sub (codes "authSource") q)) (admin_first q)
          (same (b'?' ∷ q)))
]

read_admin :
    (x : MongoUri)
    → parse_option x (codes "authSource=admin") ≡ done (record x { auth_source = admin })
read_admin x =
    parse_pair x (codes "authSource") admin (λ e. cc) (omega arith)
      (literal-IsPlain _ (omega arith) (omega arith) (omega arith))
      (literal-IsPlain _ (omega arith) (omega arith) (omega arith))
    ∙ store_auth x admin

same_query-Tracks :
    (x : MongoUri) (query : Bytes)
    → IsQuery query
    → Tracks [] (parse_options x query) (parse_options (record x { collection = [] }) query)
unfolding parse_options
same_query-Tracks x query missing = (x.auth_source, refl, inl refl)
same_query-Tracks x query (options q h) =
    parse_option_list-Tracks [] x x.auth_source (split_string q b'&') (inl refl)

-- The suffix is read as the query is, but for the source.
pub suffix-Tracks :
    (x : MongoUri) (query suffix : Bytes)
    → x.auth_source ≡ []
    → IsQuery query
    → IsSuffix query suffix
    → Tracks [] (parse_options x query) (parse_options (record x { collection = [] }) suffix)
unfolding parse_options parse_option_list split_string split_from
suffix-Tracks x query suffix n is (same s) = same_query-Tracks x s is
suffix-Tracks x query suffix n is admin_only =
    rw (read_admin (record x { collection = [] })) (admin, refl, inr (n, refl))
suffix-Tracks x query suffix n (options q h) (admin_first p) =
    rw (read_admin (record x { collection = [] }))
      (parse_option_list-Tracks [] x admin (split_string q b'&') (inr (n, refl)))

query_params-append : (s q : Bytes) → Avoids b'?' s → query_params (s ++ b'?' ∷ q) ≡ q
unfolding query_params
query_params-append s q h = rw (find-append b'?' s q h, query_params) (drop-append_suc s b'?' q)

pub suffix-IsSuffix :
    (text front query : Bytes)
    → text ≡ front ++ query
    → Avoids b'?' front
    → IsQuery query
    → IsSuffix query (auth_suffix text (not (is_empty query)))
suffix-IsSuffix text front query e h missing = auth_suffix_none text
suffix-IsSuffix text front query e h (options q is) =
    auth_suffix_some text q (ap query_params e ∙ query_params-append front q h)

pub IsSuffix-forms :
    {query suffix : Bytes}
    → IsQuery query
    → IsSuffix query suffix
    → (suffix ≡ []) ⊎ ((q : Bytes) × (suffix ≡ b'?' ∷ q))
IsSuffix-forms is (same s) = query_forms is
IsSuffix-forms is admin_only = inr (_, refl)
IsSuffix-forms is (admin_first q) = inr (_, refl)
