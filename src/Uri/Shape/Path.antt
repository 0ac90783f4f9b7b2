-- ===== src/Uri/Shape/Path.antt =====
-- How a text that `parse` accepts is put together: the path, and the whole.
use mongodb_engine.Base.{
  ℕ, zero, suc, ◌≡◌, refl, sym, ap, ◌∙◌, true, false, not, ◌⊎◌, inl, inr, List, [], ◌∷◌, ◌++◌,
  Bytes, Avoids, find, find-some, take, drop, is_empty, ◌==◌, ==_iff, ◌&&◌, Bool-cases,
  Option-cases, arith, append_assoc, take-append-drop, drop_all, subst,
}
use mongodb_engine.Uri.Defs.{MongoUri, Outcome, failed, done}
use mongodb_engine.Uri.Helpers.{split_string, split_key_value, url_decode}
use mongodb_engine.Uri.Parse.{
  parse_credentials, parse_hosts, parse_database_collection, store_path, check_path, store_option,
  parse_option, parse_option_list, parse_options, finish, parse_steps, parse, or_end, result_of,
}
use mongodb_engine.Uri.Validate.{validate_database_name, validate_collection_name}
use mongodb_engine.Uri.Print.{protocol}
use mongodb_engine.Uri.Shape.{
  Shape, Before, OnDone, bind-OnDone, take-Avoids, parse_protocol-Before, parse_credentials-Before,
  parse_hosts-Before,
}
use mongodb_engine.Uri.Sound.{parse_steps-IsUsable, IsUsable, Ensures}

-- Either no collection was read, or the text has its shape.
abbrev PathRead : Bytes → MongoUri → Type 0
PathRead s r = (r.collection ≡ []) ⊎ Shape s r

query_tail :
    (w : Bytes)
    → (drop (or_end (find b'?' w) w) w ≡ [])
      ⊎ ((q : Bytes) × (drop (or_end (find b'?' w) w) w ≡ b'?' ∷ q))
query_tail w = elim (Option-cases (find b'?' w)) [
  | inl e ↦ rw e (inl (drop_all w))
  | inr (i, e) ↦ rw e (inr (drop (suc i) w, drop_at i w (drop (suc i) w) (find-some b'?' w i e).1))
]
  where
    drop_at : (i : ℕ) (w q : Bytes) → w ≡ take i w ++ b'?' ∷ q → drop i w ≡ b'?' ∷ q
    drop_at zero w q h = h
    drop_at (suc i) [] q h = absurd (cc)
    drop_at (suc i) (x ∷ w) q h = ground (arith, drop_at i w q)

check_path-OnDone :
    (r : MongoUri) (t : Bytes) (P : MongoUri → Type 0) → P r → OnDone (λ a. P a.0) (check_path r t)
unfolding check_path
check_path-OnDone r t P h =
    elim (Bool-cases (not (is_empty r.database) && not (validate_database_name r.database))) [
      | inl e ↦ rw e tt
      | inr e ↦
          rw e
            (elim (Bool-cases
              (not (is_empty r.collection) && not (validate_collection_name r.collection))) [
                | inl n ↦ rw n tt
                | inr n ↦ rw n h
              ])
    ]

store_path-PathRead :
    (s w : Bytes) (r : MongoUri)
    → Before s (r, b'/' ∷ w)
    → PathRead s (store_path r (take (or_end (find b'?' w) w) w))
unfolding store_path
store_path-PathRead s w r b =
    let path = take (or_end (find b'?' w) w) w in
    let rest = drop (or_end (find b'?' w) w) w in
    elim (Option-cases (find b'/' path)) [
      | inl e ↦ rw (e, store_path) (inl b.no_collection)
      | inr (i, e) ↦
          let names = (find-some b'/' path i e).1 in
          rw (e, store_path)
            (inr (record {
              is_srv = b.is_srv;
              authority = b.authority;
              tail = rest;
              splits =
                  b.splits
                  ∙ ap (λ x. protocol b.is_srv ++ (b.authority ++ b'/' ∷ x))
                      (sym (take-append-drop (or_end (find b'?' w) w) w)
                        ∙ ap (λ x. x ++ rest) names
                        ∙ append_assoc (take i path) (b'/' ∷ drop (suc i) path) rest);
              authority_no_slash = b.no_slash;
              database_no_slash = (find-some b'/' path i e).0;
              path_no_query =
                  subst (Avoids b'?') names
                    (take-Avoids b'?' w (or_end (find b'?' w) w) (omega arith));
              tail_query = query_tail w;
            }))
    ]

parse_path-PathRead :
    (s : Bytes) (r : MongoUri) (t : Bytes)
    → Before s (r, t)
    → OnDone (λ a. PathRead s a.0) (parse_database_collection r t)
unfolding parse_database_collection
parse_path-PathRead s r [] b = inl b.no_collection
parse_path-PathRead s r (c ∷ w) b = elim (Bool-cases (c == b'/')) [
  | inl e ↦ rw e (
      check_path-OnDone _ _ (PathRead s)
        (store_path-PathRead s w r (subst (λ x. Before s (r, x ∷ w)) ((==_iff c b'/').0 e) b)))
  | inr e ↦ rw e (inl b.no_collection)
]

rename :
    (s : Bytes) (r r' : MongoUri)
    → r'.database ≡ r.database
    → r'.collection ≡ r.collection
    → PathRead s r
    → PathRead s r'
rename s r r' d c (inl e) = inl (c ∙ e)
rename s r r' d c (inr h) = inr (record {
  is_srv = h.is_srv;
  authority = h.authority;
  tail = h.tail;
  splits = rw (d, c) h.splits;
  authority_no_slash = h.authority_no_slash;
  database_no_slash = rw d h.database_no_slash;
  path_no_query = rw (d, c) h.path_no_query;
  tail_query = h.tail_query;
})

store_option-names :
    (r : MongoUri) (key value : Bytes)
    → OnDone
        (λ r'. (r'.database ≡ r.database) × (r'.collection ≡ r.collection))
        (store_option r key value)
unfolding store_option
store_option-names r key value = ground arith

map-OnDone :
    {P Q : MongoUri → Type 0} (m : Outcome MongoUri)
    → OnDone P m
    → ((r : MongoUri) → P r → Q r)
    → OnDone Q m
map-OnDone (failed r) h k = tt
map-OnDone (done r) h k = k r h

parse_option-PathRead :
    (s : Bytes) (r : MongoUri) (pair : Bytes)
    → PathRead s r
    → OnDone (PathRead s) (parse_option r pair)
unfolding parse_option
parse_option-PathRead s r pair h =
    let kv = split_key_value pair b'=' in
    elim (Bool-cases (is_empty kv.0)) [
      | inl e ↦ rw e h
      | inr e ↦ rw e (
          map-OnDone (store_option r (url_decode kv.0) (url_decode kv.1))
            (store_option-names r (url_decode kv.0) (url_decode kv.1))
            (λ r' n. rename s r r' n.0 n.1 h))
    ]

parse_option_list-PathRead :
    (s : Bytes) (r : MongoUri) (ps : List Bytes)
    → PathRead s r
    → OnDone (PathRead s) (parse_option_list r ps)
unfolding parse_option_list
parse_option_list-PathRead s r [] h = h
parse_option_list-PathRead s r (p ∷ ps) h =
    bind-OnDone (PathRead s) (PathRead s) (parse_option r p) (λ r'. parse_option_list r' ps)
      (parse_option-PathRead s r p h) (λ r' h'. parse_option_list-PathRead s r' ps h')

parse_options-PathRead :
    (s : Bytes) (r : MongoUri) (t : Bytes) → PathRead s r → OnDone (PathRead s) (parse_options r t)
unfolding parse_options
parse_options-PathRead s r [] h = h
parse_options-PathRead s r (c ∷ t) h = elim (Bool-cases (c == b'?')) [
  | inl e ↦ rw e (parse_option_list-PathRead s r (split_string t b'&') h)
  | inr e ↦ rw e h
]

read-Shape : (s : Bytes) (r : MongoUri) → is_empty r.collection ≡ false → PathRead s r → Shape s r
read-Shape s r e (inl n) = absurd (cc (rw n at e))
read-Shape s r e (inr h) = h

finish-Shape : (s : Bytes) (r : MongoUri) → PathRead s r → OnDone (Shape s) (finish r)
unfolding finish
finish-Shape s r h = elim (Bool-cases (is_empty r.hosts)) [
  | inl e ↦ rw e tt
  | inr e ↦ rw e (elim (Bool-cases (is_empty r.database)) [
    | inl d ↦ rw d tt
    | inr d ↦ rw d (elim (Bool-cases (is_empty r.collection)) [
      | inl c ↦ rw c tt
      | inr c ↦ rw c (
          read-Shape s (record r { is_valid = true }) c
            (rename s r (record r { is_valid = true }) refl refl h))
    ])
  ])
]

pub parse_steps-Shape : (s : Bytes) → OnDone (Shape s) (parse_steps s)
unfolding parse_steps
parse_steps-Shape s =
    bind-OnDone (PathRead s) (Shape s) _ finish
      (bind-OnDone (λ a. PathRead s a.0) (PathRead s) _ (λ a. parse_options a.0 a.1)
        (bind-OnDone (Before s) (λ a. PathRead s a.0) _ (λ a. parse_database_collection a.0 a.1)
          (bind-OnDone (Before s) (Before s) _ (λ a. parse_hosts a.0 a.1)
            (bind-OnDone (Before s) (Before s) _ (λ a. parse_credentials a.0 a.1)
              (parse_protocol-Before s) (λ a h. parse_credentials-Before s a.0 a.1 h))
            (λ a h. parse_hosts-Before s a.0 a.1 h))
          (λ a h. parse_path-PathRead s a.0 a.1 h))
        (λ a h. parse_options-PathRead s a.0 a.1 h))
      (λ r h. finish-Shape s r h)

result-Shape :
    (s : Bytes) (m : Outcome MongoUri)
    → OnDone (Shape s) m
    → Ensures IsUsable m
    → (result_of m).is_valid ≡ true
    → Shape s (result_of m)
result-Shape s (failed r) h k v = absurd (cc (k.invalid))
result-Shape s (done r) h k v = h

-- A text that is parsed into a valid URI is a protocol, an authority with no `/`, `/`, the database,
-- `/`, the collection, and nothing more or a query that begins with `?`.
pub parse-Shape : (s : Bytes) → (parse s).is_valid ≡ true → Shape s (parse s)
unfolding parse
parse-Shape s v = elim (Bool-cases (is_empty s)) [
  | inl e ↦ absurd (cc (rw e at v))
  | inr e ↦
      rw e
        (result-Shape s (parse_steps s) (parse_steps-Shape s) (parse_steps-IsUsable s) (rw e at v))
]
