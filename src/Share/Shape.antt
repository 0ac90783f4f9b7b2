-- ===== src/Share/Shape.antt =====
-- What a parse of the connection string that succeeds says of the text and of the share.
use mongodb_engine.Base.{
  ℕ, suc, ◌+◌, ◌≡◌, refl, ap, ◌∙◌, Bool, true, false, not, ◌⊎◌, inl, inr, [], ◌∷◌, ◌++◌, some,
  Bytes, codes, Avoids, find, find-none, find-some, find_sub, find_from, find_from-some,
  starts_with, contains_sub, contains_sub-append, contains_sub-append_right, is_empty, length, take,
  take-suc, drop, Bool-cases, Option-cases, arith, append_assoc, append-nil, Avoids-take,
  Avoids-drop, ◌≤◌, find_from-Avoids, length-take, length-drop, length-append,
}
use mongodb_engine.Share.Defs.{MongodbShare}
use mongodb_engine.Share.Parse.{
  copy_text, query_params, auth_suffix, store_names, parse_path, parse_text,
  mongodb_parse_connection_string,
}

-- The authority of a text ends at the first `/` behind its first `://`.
pub record IsAuthority (uri authority : Bytes) : Type 0 where
  pub scheme_end : ℕ
  pub separator : find_sub (codes "://") uri ≡ some scheme_end
  pub behind : scheme_end + 3 ≤ length authority
  pub host_no_slash : Avoids b'/' (drop (scheme_end + 3) authority)

-- A text `authority/database/collection` with what may follow from its first `?` on.
pub record Names (uri : Bytes) (share : MongodbShare) (alloc : ℕ → ℕ → Bool) : Type 0 where
  pub authority : Bytes
  pub database : Bytes
  pub collection : Bytes
  pub tail : Bytes
  pub splits : uri ≡ authority ++ b'/' ∷ (database ++ b'/' ∷ (collection ++ tail))
  pub is_authority : IsAuthority uri authority
  pub database_no_slash : Avoids b'/' database
  pub database_no_query : Avoids b'?' database
  pub collection_no_query : Avoids b'?' collection
  pub tail_query : (tail ≡ []) ⊎ ((q : Bytes) × (tail ≡ b'?' ∷ q))
  pub database_name : share.database_name ≡ copy_text alloc 1 database
  pub collection_name : share.collection_name ≡ copy_text alloc 2 collection
  pub mongo_uri :
      share.mongo_connection_string
      ≡ copy_text alloc 3 (authority ++ b'/' ∷ (database ++ auth_suffix uri (not (is_empty tail))))

abbrev IsTail : Bytes → Type 0
IsTail tail = (tail ≡ []) ⊎ ((q : Bytes) × (tail ≡ b'?' ∷ q))

store_names-Names :
    (alloc : ℕ → ℕ → Bool) (share : MongodbShare) (uri : Bytes) (start : ℕ) (path tail : Bytes)
    → uri ≡ take start uri ++ b'/' ∷ (path ++ tail)
    → IsAuthority uri (take start uri)
    → Avoids b'?' path
    → IsTail tail
    → (store_names alloc share uri start path (not (is_empty tail))).0 ≡ 0
    → Names uri (store_names alloc share uri start path (not (is_empty tail))).1 alloc
unfolding store_names
store_names-Names alloc share uri start path tail e a q t h = elim (Option-cases (find b'/' path)) [
  | inl n ↦ absurd (ground arith)
  | inr (i, n) ↦
      rw (n, store_names)
        (record {
          authority = take start uri;
          database = take i path;
          collection = drop (suc i) path;
          tail = tail;
          splits =
              e
              ∙ ap (λ t. take start uri ++ b'/' ∷ t)
                  (ap (λ x. x ++ tail) (find-some b'/' path i n).1
                    ∙ append_assoc (take i path) (b'/' ∷ drop (suc i) path) tail);
          is_authority = a;
          database_no_slash = (find-some b'/' path i n).0;
          database_no_query = Avoids-take b'?' i path q;
          collection_no_query = Avoids-drop b'?' (suc i) path q;
          tail_query = t;
          database_name = refl;
          collection_name = refl;
          mongo_uri =
              ap (copy_text alloc 3)
                (rw (take-suc start uri b'/' (path ++ tail) e) (simp append_assoc));
        })
]

found-IsAuthority :
    (uri : Bytes) (e start : ℕ)
    → find_sub (codes "://") uri ≡ some e
    → find_from b'/' uri (e + 3) ≡ some start
    → IsAuthority uri (take start uri)
found-IsAuthority uri e start n m =
    let (late, splits) = find_from-some b'/' uri (e + 3) start m in
    record {
      scheme_end = e;
      separator = n;
      behind = omega (
        arith,
        late,
        length-take start uri,
        length-drop (suc start) uri,
        ap length splits,
        length-append (take start uri) (b'/' ∷ drop (suc start) uri),
      );
      host_no_slash = find_from-Avoids b'/' uri (e + 3) start m;
    }

parse_path-Names :
    (alloc : ℕ → ℕ → Bool) (share : MongodbShare) (uri : Bytes) (start : ℕ)
    → uri ≡ take start uri ++ b'/' ∷ drop (suc start) uri
    → IsAuthority uri (take start uri)
    → (parse_path alloc share uri start).0 ≡ 0
    → Names uri (parse_path alloc share uri start).1 alloc
unfolding parse_path
parse_path-Names alloc share uri start e a h =
    let path = drop (suc start) uri in
    elim (Option-cases (find b'?' path)) [
      | inl n ↦
          rw (n, parse_path)
            (store_names-Names alloc share uri start path [] (rw append-nil e) a
              (find-none b'?' path n) (inl refl) (rw (n, parse_path) at h))
      | inr (i, n) ↦
          rw (n, parse_path)
            (store_names-Names alloc share uri start (take i path) (b'?' ∷ drop (suc i) path)
              (e ∙ ap (λ t. take start uri ++ b'/' ∷ t) (find-some b'?' path i n).1) a
              (find-some b'?' path i n).0 (inr (drop (suc i) path, refl)) (rw (n, parse_path) at h))
    ]

parse_text-Names :
    (alloc : ℕ → ℕ → Bool) (share : MongodbShare) (uri : Bytes)
    → (parse_text alloc share uri).0 ≡ 0
    → Names uri (parse_text alloc share uri).1 alloc
unfolding parse_text
parse_text-Names alloc share uri h = elim (Option-cases (find_sub (codes "://") uri)) [
  | inl n ↦ absurd (ground arith)
  | inr (e, n) ↦ elim (Option-cases (find_from b'/' uri (e + 3))) [
    | inl m ↦ absurd (ground arith)
    | inr (start, m) ↦
        rw (n, parse_text)
          (rw m (
            parse_path-Names alloc share uri start (find_from-some b'/' uri (e + 3) start m).1
              (found-IsAuthority uri e start n m) (rw m at (rw (n, parse_text) at h))))
  ]
]

pub parse-Names :
    (alloc : ℕ → ℕ → Bool) (s : Bytes) (share : MongodbShare)
    → (mongodb_parse_connection_string alloc (some s) share).0 ≡ 0
    → Names s (mongodb_parse_connection_string alloc (some s) share).1 alloc
unfolding mongodb_parse_connection_string
parse-Names alloc s share h = elim (Bool-cases (alloc 0 (length s + 1))) [
  | inl a ↦
      rw a (parse_text-Names alloc (record share { connection_string = some s }) s (rw a at h))
  | inr a ↦ absurd (ground arith)
]

auth_suffix-contains :
    (uri : Bytes) (b : Bool) (i : ℕ)
    → find b'@' uri ≡ some i
    → contains_sub (codes "authSource") (auth_suffix uri b) ≡ true
unfolding auth_suffix
auth_suffix-contains uri false i e = rw (e, auth_suffix) (unfold contains_sub starts_with in refl)
auth_suffix-contains uri true i e =
    elim (Bool-cases (contains_sub (codes "authSource") (query_params uri))) [
      | inl c ↦
          rw (e, c)
            (contains_sub-append_right (codes "authSource") (b'?' ∷ []) (query_params uri) c)
      | inr c ↦
          rw (e, c)
            (contains_sub-append (codes "authSource") (b'?' ∷ [])
              (codes "=admin&" ++ query_params uri))
    ]

-- Where there is memory and the parse of a text that holds an `@` succeeds, the URI for the driver
-- names an `authSource`.
parse-auth_source :
    (alloc : ℕ → ℕ → Bool) (s : Bytes) (share : MongodbShare) (i : ℕ)
    → ((k n : ℕ) → alloc k n ≡ true)
    → find b'@' s ≡ some i
    → (mongodb_parse_connection_string alloc (some s) share).0 ≡ 0
    → (uri : Bytes) × ((mongodb_parse_connection_string alloc
          (some s)
          share).1.mongo_connection_string
        ≡ some uri)
      × (contains_sub (codes "authSource") uri ≡ true)
parse-auth_source alloc s share i room at h =
    let n = parse-Names alloc s share h in
    let suffix = auth_suffix s (not (is_empty n.tail)) in
    let text = n.authority ++ b'/' ∷ (n.database ++ suffix) in
    (
      text,
      n.mongo_uri ∙ rw (room 3 (length text + 1)),
      contains_sub-append_right (codes "authSource") n.authority (b'/' ∷ (n.database ++ suffix)) (
          contains_sub-append_right (codes "authSource") (b'/' ∷ n.database) suffix
            (auth_suffix-contains s (not (is_empty n.tail)) i at)),
    )
