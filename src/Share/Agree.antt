-- ===== src/Share/Agree.antt =====
-- The two parsers of the repository agree: src/mongodb_share.cc with src/mongodb_uri_parser.cc.
use mongodb_engine.Base.{
  ℕ, suc, ◌+◌, ◌≡◌, refl, sym, ◌∙◌, Bool, true, false, ◌⊎◌, inl, inr, [], ◌∷◌, ◌++◌, some, Bytes,
  codes, Avoids, find-Avoids, find-append, find_sub, starts_with, length, drop, take-append_left,
  drop-append_suc, length-append, append_assoc, append-nil, not, is_empty, ap, take,
  take-append_suc,
}
use mongodb_engine.Share.Defs.{MongodbShare}
use mongodb_engine.Share.Parse.{
  store_names, parse_path, auth_suffix, copy_text, parse_text, mongodb_parse_connection_string,
}
use mongodb_engine.Uri.Parse.{parse}
use mongodb_engine.Uri.Print.{protocol}
use mongodb_engine.Uri.Shape.Path.{parse-Shape}

-- Success, with these two names.
abbrev pub Stores : Bytes → Bytes → ℕ × MongodbShare → Type 0
Stores d c r = (r.0 ≡ 0) × (r.1.database_name ≡ some d) × (r.1.collection_name ≡ some c)

-- The share after a success, with these names and this text for the driver.
abbrev pub named : MongodbShare → Bytes → Bytes → Bytes → ℕ × MongodbShare
named share d c w = (
  0,
  record share {
    database_name = some d;
    collection_name = some c;
    mongo_connection_string = some w;
  },
)

module _ (alloc : ℕ → ℕ → Bool) (room : (k n : ℕ) → alloc k n ≡ true) where
  copy_room : (k : ℕ) (s : Bytes) → copy_text alloc k s ≡ some s
  copy_room k s = rw (room k (length s + 1)) refl

  store_names-named :
      (share : MongodbShare) (uri : Bytes) (start : ℕ) (d c : Bytes) (q : Bool)
      → Avoids b'/' d
      → store_names alloc share uri start (d ++ b'/' ∷ c) q
        ≡ named share d c ((take (suc start) uri ++ d) ++ auth_suffix uri q)
  unfolding store_names
  store_names-named share uri start d c q h =
      rw (find-append b'/' d c h, store_names)
        (rw
          (
            take-append_left d (b'/' ∷ c),
            drop-append_suc d b'/' c,
            copy_room 1 d,
            copy_room 2 c,
            copy_room 3 ((take (suc start) uri ++ d) ++ auth_suffix uri q),
          )
          refl)

  parse_path-named :
      (share : MongodbShare) (uri : Bytes) (start : ℕ) (d c tail : Bytes)
      → drop (suc start) uri ≡ d ++ b'/' ∷ (c ++ tail)
      → Avoids b'/' d
      → Avoids b'?' (d ++ b'/' ∷ c)
      → (tail ≡ []) ⊎ ((q : Bytes) × (tail ≡ b'?' ∷ q))
      → parse_path alloc share uri start
        ≡ named share d c ((take (suc start) uri ++ d) ++ auth_suffix uri (not (is_empty tail)))
  unfolding parse_path
  parse_path-named share uri start d c tail e h q (inl n) =
      let w : drop (suc start) uri ≡ d ++ b'/' ∷ c = e ∙ rw (n, append-nil) in
      rw (w, parse_path)
        (rw (find-Avoids b'?' (d ++ b'/' ∷ c) q)
          (rw (w, n) (store_names-named share uri start d c false h)))
  parse_path-named share uri start d c tail e h q (inr (t, n)) =
      let w : drop (suc start) uri ≡ (d ++ b'/' ∷ c) ++ b'?' ∷ t = e ∙ rw (n, append_assoc) in
      rw (w, parse_path)
        (rw (find-append b'?' (d ++ b'/' ∷ c) t q) (
          rw (w, n)
            (rw (take-append_left (d ++ b'/' ∷ c) (b'?' ∷ t))
              (store_names-named share uri start d c true h))))

  start-named :
      (share : MongodbShare) (p a d c tail : Bytes)
      → Avoids b'/' d
      → Avoids b'?' (d ++ b'/' ∷ c)
      → (tail ≡ []) ⊎ ((q : Bytes) × (tail ≡ b'?' ∷ q))
      → parse_path alloc share (p ++ (a ++ b'/' ∷ (d ++ b'/' ∷ (c ++ tail)))) (length p + length a)
        ≡ named share d c (
            (p ++ (a ++ b'/' ∷ d))
            ++ auth_suffix (p ++ (a ++ b'/' ∷ (d ++ b'/' ∷ (c ++ tail)))) (not (is_empty tail)))
  start-named share p a d c tail hd q t =
      let w = d ++ b'/' ∷ (c ++ tail) in
      let uri = p ++ (a ++ b'/' ∷ w) in
      let whole : uri ≡ (p ++ a) ++ b'/' ∷ w = sym (append_assoc p a (b'/' ∷ w)) in
      let front : take (suc (length p + length a)) uri ≡ (p ++ a) ++ b'/' ∷ [] =
        rw (whole, ← length-append p a) (take-append_suc (p ++ a) b'/' w) in
      let sent : take (suc (length p + length a)) uri ++ d ≡ p ++ (a ++ b'/' ∷ d) =
        rw front (simp (append_assoc)) in
      parse_path-named share uri (length p + length a) d c tail
        (rw (whole, ← length-append p a) (drop-append_suc (p ++ a) b'/' w)) hd q t
      ∙ ap (λ x. named share d c (x ++ auth_suffix uri (not (is_empty tail)))) sent

  parse_text-named :
      (share : MongodbShare) (b : Bool) (a d c tail : Bytes)
      → Avoids b'/' a
      → Avoids b'/' d
      → Avoids b'?' (d ++ b'/' ∷ c)
      → (tail ≡ []) ⊎ ((q : Bytes) × (tail ≡ b'?' ∷ q))
      → parse_text alloc share (protocol b ++ (a ++ b'/' ∷ (d ++ b'/' ∷ (c ++ tail))))
        ≡ named share d c (
            (protocol b ++ (a ++ b'/' ∷ d))
            ++ auth_suffix
                (protocol b ++ (a ++ b'/' ∷ (d ++ b'/' ∷ (c ++ tail))))
                (not (is_empty tail)))
  unfolding parse_text find_sub starts_with
  parse_text-named share true a d c tail ha hd q t =
      rw (find-append b'/' a (d ++ b'/' ∷ (c ++ tail)) ha, parse_text)
        (start-named share (codes "mongodb+srv://") a d c tail hd q t)
  parse_text-named share false a d c tail ha hd q t =
      rw (find-append b'/' a (d ++ b'/' ∷ (c ++ tail)) ha, parse_text)
        (start-named share (codes "mongodb://") a d c tail hd q t)

  pub parse-named :
      (s : Bytes) (share : MongodbShare) (b : Bool) (a d c tail : Bytes)
      → s ≡ protocol b ++ (a ++ b'/' ∷ (d ++ b'/' ∷ (c ++ tail)))
      → Avoids b'/' a
      → Avoids b'/' d
      → Avoids b'?' (d ++ b'/' ∷ c)
      → (tail ≡ []) ⊎ ((q : Bytes) × (tail ≡ b'?' ∷ q))
      → mongodb_parse_connection_string alloc (some s) share
        ≡ named
            (record share { connection_string = some s })
            d
            c
            ((protocol b ++ (a ++ b'/' ∷ d)) ++ auth_suffix s (not (is_empty tail)))
  unfolding mongodb_parse_connection_string
  parse-named s share b a d c tail e ha hd q t = rw (room 0 (length s + 1)) (
      rw e (
        parse_text-named
          (record share {
            connection_string = some (protocol b ++ (a ++ b'/' ∷ (d ++ b'/' ∷ (c ++ tail))));
          })
          b a d c tail ha hd q t))

  -- Where there is memory, a text that `MongoURIParser::parse` accepts is accepted by the parser of
  -- the share too, which stores the same database and the same collection.
  pub parse-agrees :
      (s : Bytes) (share : MongodbShare)
      → (parse s).is_valid ≡ true
      → Stores
          (parse s).database
          (parse s).collection
          (mongodb_parse_connection_string alloc (some s) share)
  parse-agrees s share v =
      let h = parse-Shape s v in
      rw
        (parse-named s share h.is_srv h.authority (parse s).database (parse s).collection h.tail
          h.splits h.authority_no_slash h.database_no_slash h.path_no_query h.tail_query)
        (refl, refl, refl)
