-- ===== src/Handler/Provenance.antt =====
-- Where the names come from that a handler connects with: src/ha_mongodb_handler.cc.
pub mod Opening
pub mod Runs
use mongodb_engine.Base.{
  ℕ, suc, ◌+◌, ◌%◌, ◌^◌, if◌then◌else◌, ◌==◌, ◌≡◌, ◌⊎◌, inl, inr, refl, sym, ap, ap₂, ◌∙◌, Bool,
  true, false, not, List, [], ◌∷◌, ◌++◌, Option, none, some, Bytes, Avoids, length, find, find_sub,
  find_from, take, drop, codes, if-both, option-both, option-known, if-false, subst, Bool-cases,
  arith,
}
use mongodb_engine.Share.Defs.{MongodbShare, zero_share}
use mongodb_engine.Share.Parse.{
  copy_text, store_names, parse_path, parse_text, mongodb_parse_connection_string,
}
use mongodb_engine.Share.Shape.{IsAuthority, Names, parse-Names}
use mongodb_engine.Handler.Defs.{Code, Collection, Server, HaMongodb}
use mongodb_engine.Handler.Connect.{
  less_one, get_share, free_share, open_parsed, open_table, connect_client, connect_share,
  connect_to_mongodb,
}
use mongodb_engine.Handler.Connection.{Connects, Unconnected, connect_cases}
use mongodb_engine.Handler.Scan.{ensure_collection}

-- A text among `T` that spells the database and the collection.
pub record IsNamed (T : Bytes → Type 0) (h : Collection) : Type 0 where
  pub text : Bytes
  pub authority : Bytes
  pub tail : Bytes
  pub among : T text
  pub is_authority : IsAuthority text authority
  pub splits : text ≡ authority ++ b'/' ∷ (h.0 ++ b'/' ∷ (h.1 ++ tail))
  pub database_no_slash : Avoids b'/' h.0
  pub tail_query : (tail ≡ []) ⊎ ((q : Bytes) × (tail ≡ b'?' ∷ q))

-- The names that a share holds, if it holds both.
abbrev pub Gives : (Bytes → Type 0) → MongodbShare → Type 0
Gives T k =
    (database collection : Bytes)
    → k.database_name ≡ some database
    → k.collection_name ≡ some collection
    → IsNamed T (database, collection)

-- The share is parsed, its names and those of the collection come from texts among `T`, and without a
-- share there is no collection.
pub record Rooted (T : Bytes → Type 0) (share : Option MongodbShare)
    (collection : Option Collection) : Type 0 where
  pub parsed : (k : MongodbShare) → share ≡ some k → k.parsed ≡ true
  pub gives : (k : MongodbShare) → share ≡ some k → Gives T k
  pub reads : (h : Collection) → collection ≡ some h → IsNamed T h
  pub linked : share ≡ none → collection ≡ none

abbrev pub In : (Bytes → Type 0) → HaMongodb → Type 0
In T s = Rooted T s.share s.collection

copied : (alloc : ℕ → ℕ → Bool) (i : ℕ) (s t : Bytes) → copy_text alloc i s ≡ some t → s ≡ t
copied alloc i s t e = elim (Bool-cases (alloc i (length s + 1))) [
  | inl a ↦ cc (rw a at e)
  | inr a ↦ absurd (cc (rw a at e))
]

pub parsed-Gives :
    (T : Bytes → Type 0) (alloc : ℕ → ℕ → Bool) (text : Option Bytes) (share : MongodbShare)
    → ((s : Bytes) → text ≡ some s → T s)
    → (mongodb_parse_connection_string alloc text share).0 ≡ 0
    → Gives T (mongodb_parse_connection_string alloc text share).1
parsed-Gives T alloc none share f e d c p q =
    absurd (unfold mongodb_parse_connection_string in cc (e))
parsed-Gives T alloc (some s) share f e d c p q =
    let n = parse-Names alloc s share e in
    let x : n.database ≡ d = copied alloc 1 n.database d (sym n.database_name ∙ p) in
    let y : n.collection ≡ c = copied alloc 2 n.collection c (sym n.collection_name ∙ q) in
    record {
      text = s;
      authority = n.authority;
      tail = n.tail;
      among = f s refl;
      is_authority = n.is_authority;
      splits = n.splits ∙ ap₂ (λ a b. n.authority ++ b'/' ∷ (a ++ b'/' ∷ (b ++ n.tail))) x y;
      database_no_slash = subst (Avoids b'/') x n.database_no_slash;
      tail_query = n.tail_query;
    }

path-use_count :
    (alloc : ℕ → ℕ → Bool) (share : MongodbShare) (uri : Bytes) (start : ℕ)
    → (parse_path alloc share uri start).1.use_count ≡ share.use_count
unfolding parse_path store_names
path-use_count alloc share uri start =
    let P : ℕ × MongodbShare → Type 0 = λ r. r.1.use_count ≡ share.use_count in
    let path = drop (suc start) uri in
    option-both P (find b'?' path) (option-both P (find b'/' path) refl (λ i. refl))
      (λ q. option-both P (find b'/' (take q path)) refl (λ i. refl))

-- The parser leaves the count of uses as it is.
pub parse-use_count :
    (alloc : ℕ → ℕ → Bool) (text : Option Bytes) (share : MongodbShare)
    → (mongodb_parse_connection_string alloc text share).1.use_count ≡ share.use_count
unfolding mongodb_parse_connection_string parse_text parse_path store_names
parse-use_count alloc none share = refl
parse-use_count alloc (some s) share =
    let P : ℕ × MongodbShare → Type 0 = λ r. r.1.use_count ≡ share.use_count in
    let kept = record share { connection_string = some s } in
    if-both P (not (alloc 0 (length s + 1))) refl (
      option-both P (find_sub (codes "://") s) refl (λ scheme_end.
        option-both P (find_from b'/' s (scheme_end + 3)) refl
          (λ start. path-use_count alloc kept s start)))

-- A connection takes its names from the share.
pub connect-share : (d : Server) (s : HaMongodb) → (connect_to_mongodb d s).1.share ≡ s.share
unfolding connect_to_mongodb connect_share connect_client
connect-share d s =
    let P : Code × HaMongodb → Type 0 = λ r. r.1.share ≡ s.share in
    option-both P s.share refl (λ share. option-both P share.mongo_connection_string refl (λ u.
      option-both P share.database_name refl (λ db. option-both P share.collection_name refl (λ c.
        option-both P (d.client_new u) refl (λ k.
          if-both P (not (d.get_database k db)) refl
            (if-both P (not (d.get_collection db c)) refl refl))))))

connect-In :
    (T : Bytes → Type 0) (d : Server) (s : HaMongodb)
    → In T s
    → s.collection ≡ none
    → In T (connect_to_mongodb d s).1
connect-In T d s h n = elim (connect_cases d s n) [
  | inl (c, e) ↦
      subst (λ (r : Code × HaMongodb). In T r.1) (sym e)
        (record {
          parsed = h.parsed;
          gives = h.gives;
          reads = λ k f. subst (IsNamed T) (cc (f)) (
              h.gives c.share c.has_share c.database c.collection c.names_database
                c.names_collection);
          linked = λ f. absurd (cc (f, c.has_share));
        })
  | inr (u, fails) ↦
      let e = connect-share d s in
      record {
        parsed = λ k f. h.parsed k (sym e ∙ f);
        gives = λ k f. h.gives k (sym e ∙ f);
        reads = λ k f. absurd (cc (u.1, f));
        linked = λ f. u.1;
      }
]

pub ensure_collection-In :
    (T : Bytes → Type 0) (d : Server) (s : HaMongodb) → In T s → In T (ensure_collection d s).1
unfolding ensure_collection
ensure_collection-In T d s h =
    option-known (λ (r : Code × HaMongodb). In T r.1) s.collection (λ n. connect-In T d s h n)
      (λ c e. h)
