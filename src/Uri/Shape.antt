-- ===== src/Uri/Shape.antt =====
-- How a text that `parse` accepts is put together: the steps up to the hosts.
pub mod Path
use mongodb_engine.Base.{
  ℕ, zero, suc, ◌+◌, ◌≤◌, min, ◌≡◌, ◌≢◌, refl, sym, ap, ◌∙◌, Bool, true, false, not, ◌⊎◌, inl, inr,
  List, [], ◌∷◌, ◌++◌, Option, none, some, Bytes, codes, Avoids, find, find-none, find-some, str_eq,
  str_eq_iff, length, take, take-suc, drop, is_empty, ltb, ◌==◌, if◌then◌else◌, Bool-cases,
  Option-cases, arith, append_assoc, append-nil, Avoids-take, Avoids-append, take-append-drop,
  take_all, drop_all,
}
use mongodb_engine.Base.Int.{ℤ, pos, stoi}
use mongodb_engine.Uri.Defs.{MongoUri, new_uri, Outcome, failed, done, ◌>>=◌}
use mongodb_engine.Uri.Helpers.{split_string, split_key_value, url_decode}
use mongodb_engine.Uri.Parse.{
  parse_protocol, parse_credentials, store_credentials, add_host, parse_host_port, parse_host_list,
  parse_hosts, parse_database_collection, store_path, check_path, store_option, parse_option,
  parse_option_list, parse_options, finish, parse_steps, parse, or_end, hosts_end, result_of,
}
use mongodb_engine.Uri.Print.{protocol}

-- `protocol authority/database/collection`, and a query or nothing.
pub record Shape (s : Bytes) (u : MongoUri) : Type 0 where
  pub is_srv : Bool
  pub authority : Bytes
  pub tail : Bytes
  pub splits :
      s ≡ protocol is_srv ++ (authority ++ b'/' ∷ (u.database ++ b'/' ∷ (u.collection ++ tail)))
  pub authority_no_slash : Avoids b'/' authority
  pub database_no_slash : Avoids b'/' u.database
  pub path_no_query : Avoids b'?' (u.database ++ b'/' ∷ u.collection)
  pub tail_query : (tail ≡ []) ⊎ ((q : Bytes) × (tail ≡ b'?' ∷ q))

abbrev OnDone : {A : Type 0} → (A → Type 0) → Outcome A → Type 0
OnDone P (failed r) = Unit {0}
OnDone P (done a) = P a

bind-OnDone :
    {A B : Type 0} (P : A → Type 0) (Q : B → Type 0) (m : Outcome A) (f : A → Outcome B)
    → OnDone P m
    → ((a : A) → P a → OnDone Q (f a))
    → OnDone Q (m >>= f)
bind-OnDone P Q (failed r) f h k = tt
bind-OnDone P Q (done a) f h k = k a h

-- The text is the protocol, an authority with no `/`, and what is left; there is no collection yet.
record Before (s : Bytes) (a : MongoUri × Bytes) : Type 0 where
  is_srv : Bool
  authority : Bytes
  splits : s ≡ protocol is_srv ++ (authority ++ a.1)
  no_slash : Avoids b'/' authority
  no_collection : a.0.collection ≡ []

parse_protocol-Before : (s : Bytes) → OnDone (Before s) (parse_protocol new_uri s)
unfolding parse_protocol
parse_protocol-Before s = elim (Bool-cases (str_eq (take 14 s) (codes "mongodb+srv://"))) [
  | inl e ↦ rw e (record {
    is_srv = true;
    authority = [];
    splits =
        sym (take-append-drop 14 s) ∙ ap (λ t. t ++ drop 14 s) ((str_eq_iff (take 14 s) _).0 e);
    no_slash = tt;
    no_collection = refl;
  })
  | inr n ↦ rw n (elim (Bool-cases (str_eq (take 10 s) (codes "mongodb://"))) [
    | inl e ↦ rw e (record {
      is_srv = false;
      authority = [];
      splits =
          sym (take-append-drop 10 s) ∙ ap (λ t. t ++ drop 10 s) ((str_eq_iff (take 10 s) _).0 e);
      no_slash = tt;
      no_collection = refl;
    })
    | inr e ↦ rw e tt
  ])
]

-- Nothing before the first `c` is `c`.
take-Avoids : (c : ℕ) (s : Bytes) (i : ℕ) → i ≤ or_end (find c s) s → Avoids c (take i s)
unfolding find
take-Avoids c s zero h = tt
take-Avoids c [] (suc i) h = tt
take-Avoids c (x ∷ s) (suc i) h = ground (arith, take-Avoids c s i)

-- What a step takes off the front joins the authority.
Before-take :
    (s : Bytes) (r r' : MongoUri) (t : Bytes) (i : ℕ)
    → Before s (r, t)
    → Avoids b'/' (take i t)
    → r'.collection ≡ []
    → Before s (r', drop i t)
Before-take s r r' t i b a n = record {
  is_srv = b.is_srv;
  authority = b.authority ++ take i t;
  splits =
      b.splits
      ∙ ap (λ x. protocol b.is_srv ++ x)
          (ap (λ x. b.authority ++ x) (sym (take-append-drop i t))
            ∙ sym (append_assoc b.authority (take i t) (drop i t)));
  no_slash = Avoids-append b'/' b.authority (take i t) b.no_slash a;
  no_collection = n;
}

store_credentials-collection :
    (r : MongoUri) (c : Bytes) → (store_credentials r c).collection ≡ r.collection
unfolding store_credentials
store_credentials-collection r c = elim (Option-cases (find b':' c)) [
  | inl e ↦ rw (e, store_credentials)
  | inr (i, e) ↦ rw (e, store_credentials)
]

credentials-Avoids :
    (t : Bytes) (i : ℕ)
    → find b'@' t ≡ some i
    → i ≤ or_end (find b'/' t) t
    → Avoids b'/' (take (suc i) t)
credentials-Avoids t i e h =
    rw (take-suc i t b'@' (drop (suc i) t) (find-some b'@' t i e).1)
      (Avoids-append b'/' (take i t) (b'@' ∷ []) (take-Avoids b'/' t i h) ((λ x. ground arith), tt))

parse_credentials-Before :
    (s : Bytes) (r : MongoUri) (t : Bytes)
    → Before s (r, t)
    → OnDone (Before s) (parse_credentials r t)
unfolding parse_credentials
parse_credentials-Before s r t b = elim (Option-cases (find b'@' t)) [
  | inl e ↦ rw (e, parse_credentials) b
  | inr (i, e) ↦
      rw (e, parse_credentials)
        (elim (Bool-cases (ltb (min (or_end (find b'/' t) t) (or_end (find b'?' t) t)) i)) [
          | inl late ↦ rw late b
          | inr early ↦ rw early (
              Before-take s r (store_credentials r (take i t)) t (suc i) b
                (credentials-Avoids t i e (ground arith))
                (store_credentials-collection r (take i t) ∙ b.no_collection))
        ])
]

hosts-Avoids : (t : Bytes) → Avoids b'/' (take (hosts_end t) t)
hosts-Avoids t = elim (Option-cases (find b'/' t)) [
  | inl e ↦ Avoids-take b'/' (hosts_end t) t (find-none b'/' t e)
  | inr (i, e) ↦ rw (e, hosts_end) (find-some b'/' t i e).0
]

add_host-collection :
    (r : MongoUri) (h : Bytes) (p : ℤ)
    → OnDone (λ r'. r'.collection ≡ r.collection) (add_host r h p)
unfolding add_host
add_host-collection r h p = ground arith

parse_host_port-collection :
    (r : MongoUri) (h : Bytes) → OnDone (λ r'. r'.collection ≡ r.collection) (parse_host_port r h)
unfolding parse_host_port
parse_host_port-collection r h = elim (Option-cases (find b':' h)) [
  | inl e ↦ rw (e, parse_host_port) (add_host-collection r h (pos 27017))
  | inr (i, e) ↦
      rw (e, parse_host_port)
        (elim (Option-cases (stoi (drop (suc i) h))) [
          | inl n ↦ rw n tt
          | inr (port, n) ↦ rw n (add_host-collection r (take i h) port)
        ])
]

parse_host_list-collection :
    (r : MongoUri) (hs : List Bytes)
    → OnDone (λ r'. r'.collection ≡ r.collection) (parse_host_list r hs)
unfolding parse_host_list
parse_host_list-collection r [] = refl
parse_host_list-collection r (h ∷ hs) =
    bind-OnDone (λ r'. r'.collection ≡ r.collection) (λ r'. r'.collection ≡ r.collection)
      (parse_host_port r h) (λ r'. parse_host_list r' hs) (parse_host_port-collection r h)
      (λ r' e. OnDone-trans r' r (parse_host_list r' hs) e (parse_host_list-collection r' hs))
  where
    OnDone-trans :
        (r' r : MongoUri) (m : Outcome MongoUri)
        → r'.collection ≡ r.collection
        → OnDone (λ x. x.collection ≡ r'.collection) m
        → OnDone (λ x. x.collection ≡ r.collection) m
    OnDone-trans r' r (failed x) e h = tt
    OnDone-trans r' r (done x) e h = h ∙ e

parse_hosts-Before :
    (s : Bytes) (r : MongoUri) (t : Bytes) → Before s (r, t) → OnDone (Before s) (parse_hosts r t)
unfolding parse_hosts
parse_hosts-Before s r t b = elim (Bool-cases (is_empty (take (hosts_end t) t))) [
  | inl e ↦ rw e tt
  | inr e ↦ rw e (
      bind-OnDone (λ r'. r'.collection ≡ r.collection) (Before s) _
        (λ r'. done (r', drop (hosts_end t) t))
        (parse_host_list-collection r (split_string (take (hosts_end t) t) b','))
        (λ r' n. Before-take s r r' t (hosts_end t) b (hosts-Avoids t) (n ∙ b.no_collection)))
]
