-- ===== src/Uri/Grammar/Text.antt =====
-- The steps of the parser on a text of the grammar's form.
use mongodb_engine.Base.{
  ℕ, suc, min, ◌<◌, ◌≡◌, refl, sym, ap, ◌∙◌, inl, inr, ◌⊎◌, [], ◌∷◌, ◌++◌, some, Bytes, Avoids,
  find, find-none, find-some, find-append, find-Avoids, take, drop, length, length-append, is_empty,
  lt→ltb, Option-cases, Avoids-take, Avoids-drop, Avoids-append, append_assoc, append-nil,
  take-append_left, drop-append_left, if◌then◌else◌, codes, arith,
}
use mongodb_engine.Uri.Defs.{MongoUri, done, ◌>>=◌, fail}
use mongodb_engine.Uri.Helpers.{split_string}
use mongodb_engine.Uri.Parse.{
  parse_credentials, store_credentials, parse_hosts, parse_host_list, parse_database_collection,
  check_path, or_end,
}
use mongodb_engine.Uri.RoundTrip.{
  find-le, parse_credentials-hosts, hosts_end-append, store_path-names,
}
use mongodb_engine.Uri.RoundTrip.Credentials.{parse_credentials-given}
use mongodb_engine.Uri.Grammar.{IsLogin, absent, hidden, given}

-- An authority is a login and the hosts.
pub record Splits (authority : Bytes) : Type 0 where
  pub login : Bytes
  pub hosts : Bytes
  pub parts : authority ≡ login ++ hosts
  pub is_login : IsLogin hosts login
  pub no_slash : Avoids b'/' hosts

split_at : (a : Bytes) (i : ℕ) → Avoids b'/' a → find b'@' a ≡ some i → Splits a
split_at a i h e =
    let creds = take i a in
    let hosts = drop (suc i) a in
    let whole : a ≡ creds ++ b'@' ∷ hosts = (find-some b'@' a i e).1 in
    elim (Option-cases (find b'?' creds)) [
      | inl n ↦ record {
        login = creds ++ b'@' ∷ [];
        hosts = hosts;
        parts = whole ∙ sym (append_assoc creds (b'@' ∷ []) hosts);
        is_login =
            given creds (creds ++ b'@' ∷ []) refl (find-some b'@' a i e).0 (Avoids-take b'/' i a h)
              (find-none b'?' creds n);
        no_slash = Avoids-drop b'/' (suc i) a h;
      }
      | inr (j, n) ↦ record {
        login = [];
        hosts = a;
        parts = refl;
        is_login =
            hidden (take j creds) (drop (suc j) creds ++ b'@' ∷ hosts)
              (whole
                ∙ ap (λ x. x ++ b'@' ∷ hosts) (find-some b'?' creds j n).1
                ∙ append_assoc (take j creds) (b'?' ∷ drop (suc j) creds) (b'@' ∷ hosts))
              (Avoids-take b'@' j creds (find-some b'@' a i e).0) (find-some b'?' creds j n).0;
        no_slash = h;
      }
    ]

pub authority-Splits : (a : Bytes) → Avoids b'/' a → Splits a
authority-Splits a h = elim (Option-cases (find b'@' a)) [
  | inl n ↦ record {
    login = [];
    hosts = a;
    parts = refl;
    is_login = absent (find-none b'@' a n);
    no_slash = h;
  }
  | inr (i, e) ↦ split_at a i h e
]

-- An `@` behind the first `?` is no sign of credentials.
parse_credentials-hidden :
    (r : MongoUri) (front back : Bytes)
    → Avoids b'@' front
    → Avoids b'?' front
    → parse_credentials r (front ++ b'?' ∷ back) ≡ done (r, front ++ b'?' ∷ back)
unfolding parse_credentials
parse_credentials-hidden r front back a q =
    let s = front ++ b'?' ∷ back in
    elim (Option-cases (find b'@' s)) [
      | inl e ↦ rw (e, parse_credentials) refl
      | inr (i, e) ↦
          let behind : length front < i = omega (
            arith,
            length-append front (b'?' ∷ []),
            find-le b'@' (front ++ b'?' ∷ []) back i
                (Avoids-append b'@' front (b'?' ∷ []) a ((λ x. ground arith), tt))
                (rw (append_assoc front (b'?' ∷ []) back) e),
          ) in
          let early : min (or_end (find b'/' s) s) (length front) < i = omega (arith, behind) in
          rw (e, parse_credentials) (rw (find-append b'?' front back q, lt→ltb _ i early) refl)
    ]

-- Credentials are two fields.
abbrev pub credited : MongoUri → MongoUri → MongoUri
credited r x = record r { username = x.username; password = x.password }

store_credentials-credited :
    (r : MongoUri) (creds : Bytes)
    → store_credentials r creds ≡ credited r (store_credentials r creds)
unfolding store_credentials
store_credentials-credited r creds = elim (Option-cases (find b':' creds)) [
  | inl e ↦ rw (e, store_credentials)
  | inr (i, e) ↦ rw (e, store_credentials)
]

-- What a login makes of a URI.
abbrev pub logged : {hosts login : Bytes} → MongoUri → IsLogin hosts login → MongoUri
logged r (absent a) = r
logged r (hidden front back e a q) = r
logged r (given creds l e a b q) = store_credentials r creds

pub logged-credited :
    {hosts login : Bytes} (r : MongoUri) (l : IsLogin hosts login)
    → logged r l ≡ credited r (logged r l)
logged-credited r (absent a) = refl
logged-credited r (hidden front back e a q) = refl
logged-credited r (given creds l e a b q) = store_credentials-credited r creds

pub logged-hosts :
    {hosts login : Bytes} (r : MongoUri) (l : IsLogin hosts login) → (logged r l).hosts ≡ r.hosts
logged-hosts r l = ap (λ (u : MongoUri). u.hosts) (logged-credited r l)

pub parse_credentials-login :
    (r : MongoUri) (login hosts rest : Bytes)
    → (l : IsLogin hosts login) → Avoids b'/' hosts
    → parse_credentials r (login ++ (hosts ++ b'/' ∷ rest))
      ≡ done (logged r l, hosts ++ b'/' ∷ rest)
parse_credentials-login r login hosts rest (absent a) h = parse_credentials-hosts r hosts rest a h
parse_credentials-login r login hosts rest (hidden front back e a q) h =
    let whole : hosts ++ b'/' ∷ rest ≡ front ++ b'?' ∷ (back ++ b'/' ∷ rest) =
      ap (λ x. x ++ b'/' ∷ rest) e ∙ append_assoc front (b'?' ∷ back) (b'/' ∷ rest) in
    rw whole (parse_credentials-hidden r front (back ++ b'/' ∷ rest) a q)
parse_credentials-login r login hosts rest (given creds l e a b q) h =
    let whole : login ++ (hosts ++ b'/' ∷ rest) ≡ creds ++ b'@' ∷ (hosts ++ b'/' ∷ rest) =
      ap (λ x. x ++ (hosts ++ b'/' ∷ rest)) e
      ∙ append_assoc creds (b'@' ∷ []) (hosts ++ b'/' ∷ rest) in
    rw whole (parse_credentials-given r creds (hosts ++ b'/' ∷ rest) a b q)

-- The loop reads the hosts in front of the first `/`.
pub parse_hosts-slash :
    (r : MongoUri) (hosts rest : Bytes)
    → Avoids b'/' hosts
    → parse_hosts r (hosts ++ b'/' ∷ rest) ≡ (
        if is_empty hosts
        then fail r (codes "No hosts specified")
        else (parse_host_list r (split_string hosts b',') >>= λ r'. done (r', b'/' ∷ rest)))
unfolding parse_hosts
parse_hosts-slash r hosts rest h =
    rw
      (
        hosts_end-append hosts rest h,
        take-append_left hosts (b'/' ∷ rest),
        drop-append_left hosts (b'/' ∷ rest),
      )
      refl

-- Where a path ends, and what is left of it.
pub path_end :
    (path query : Bytes)
    → Avoids b'?' path
    → (query ≡ []) ⊎ ((q : Bytes) × (query ≡ b'?' ∷ q))
    → or_end (find b'?' (path ++ query)) (path ++ query) ≡ length path
path_end path query h (inl e) = rw (e, append-nil) (rw (find-Avoids b'?' path h) refl)
path_end path query h (inr (q, e)) = rw e (rw (find-append b'?' path q h) refl)

pub parse_path-slash :
    (r : MongoUri) (database collection query : Bytes)
    → Avoids b'/' database
    → Avoids b'?' (database ++ b'/' ∷ collection)
    → (query ≡ []) ⊎ ((q : Bytes) × (query ≡ b'?' ∷ q))
    → parse_database_collection r (b'/' ∷ (database ++ b'/' ∷ (collection ++ query)))
      ≡ check_path (record r { database = database; collection = collection }) query
unfolding parse_database_collection
parse_path-slash r database collection query h q tail =
    let path = database ++ b'/' ∷ collection in
    rw
      (
        ← append_assoc database (b'/' ∷ collection) query,
        path_end path query q tail,
        take-append_left path query,
        drop-append_left path query,
        store_path-names r database collection h,
      )
      refl
