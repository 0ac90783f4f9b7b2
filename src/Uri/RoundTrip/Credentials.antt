-- ===== src/Uri/RoundTrip/Credentials.antt =====
-- `parse` reads the user name and the password of a text in which their bytes are percent-encoded.
use mongodb_engine.Base.{
  ℕ, ◌/◌, ◌%◌, ◌<◌, ◌≤◌, min, ◌≡◌, ◌≢◌, refl, ap, ap₂, ◌∙◌, sym, true, false, [], ◌∷◌, ◌++◌, Bytes,
  Avoids, All, ◌==◌, ltb, ◌||◌, ◌&&◌, arith, append-nil, Option-cases, inl, inr, find,
  Avoids-append, find-append, take-append_left, length, drop-append_suc, length-append,
}
use mongodb_engine.Uri.Defs.{MongoUri, new_uri, done}
use mongodb_engine.Uri.Helpers.{url_decode}
use mongodb_engine.Uri.Decode.{hex_char, percent_encode, url_decode-percent_encode}
use mongodb_engine.Uri.Parse.{
  or_end, store_credentials, parse_credentials, parse_steps, parse, parse_options, finish,
}
use mongodb_engine.Uri.Print.{protocol, print_hosts}
use mongodb_engine.Uri.Sound.{IsUsable}
use mongodb_engine.Uri.RoundTrip.{
  find-le, parse_protocol-protocol, parse_hosts-print_hosts, parse_path-names, hosts-ne,
  database-ne, collection-ne, protocol-ne,
}

abbrev pub IsBytes : Bytes → Type 0
IsBytes = All (λ c. c < 256)

-- The text of a URI with credentials, every byte of which is spelled by its number.
abbrev pub spell : MongoUri → Bytes
spell u =
    protocol u.is_srv
    ++ ((percent_encode u.username ++ b':' ∷ percent_encode u.password)
        ++ b'@' ∷ (print_hosts u.hosts ++ b'/' ∷ (u.database ++ b'/' ∷ u.collection)))

-- A character that no encoding has.
abbrev IsFree : ℕ → Type 0
IsFree x = (x ≢ b'%') × ((v : ℕ) → v < 16 → hex_char v ≢ x)

encode-Avoids : (x : ℕ) (s : Bytes) → IsFree x → IsBytes s → Avoids x (percent_encode s)
encode-Avoids x [] f h = tt
encode-Avoids x (c ∷ s) f h = (
  (λ e. f.0 (sym e)),
  (f.1 (c / 16) (omega (arith, h.0)), (f.1 (c % 16) (omega arith), encode-Avoids x s f h.1)),
)

end-ge : (c : ℕ) (a b : Bytes) → Avoids c a → length a ≤ or_end (find c (a ++ b)) (a ++ b)
end-ge c a b h = elim (Option-cases (find c (a ++ b))) [
  | inl e ↦ rw e (omega (arith, length-append a b))
  | inr (i, e) ↦ rw e (find-le c a b i h e)
]

-- What stands in front of the `@` are the credentials.
pub parse_credentials-given :
    (r : MongoUri) (creds rest : Bytes)
    → Avoids b'@' creds
    → Avoids b'/' creds
    → Avoids b'?' creds
    → parse_credentials r (creds ++ b'@' ∷ rest) ≡ done (store_credentials r creds, rest)
unfolding parse_credentials
parse_credentials-given r creds rest a b q =
    let s = creds ++ b'@' ∷ rest in
    let early : ltb (min (or_end (find b'/' s) s) (or_end (find b'?' s) s)) (length creds) ≡ false =
      ground (arith, end-ge b'/' creds (b'@' ∷ rest) b, end-ge b'?' creds (b'@' ∷ rest) q) in
    rw (find-append b'@' creds rest a, parse_credentials)
      (rw early (rw (take-append_left creds (b'@' ∷ rest), drop-append_suc creds b'@' rest) refl))

-- What is no digit, no capital letter from `A` to `F` and no `%`.
free :
    (x : ℕ)
    → ((x == b'%') ≡ false) × ((ltb x 48 || (ltb 57 x && (ltb x 65 || ltb 70 x))) ≡ true)
    → IsFree x
free x (p, q) = ((λ e. ground arith), (λ v l e. ground arith))

decode : (s : Bytes) → IsBytes s → url_decode (percent_encode s) ≡ s
decode s h =
    ap url_decode (sym (append-nil (percent_encode s)))
    ∙ url_decode-percent_encode s [] h
    ∙ unfold url_decode in append-nil s

store_credentials-encoded :
    (r : MongoUri) (user password : Bytes)
    → IsBytes user
    → IsBytes password
    → store_credentials r (percent_encode user ++ b':' ∷ percent_encode password)
      ≡ record r { username = user; password = password }
unfolding store_credentials
store_credentials-encoded r user password h k =
    let name = percent_encode user in
    let word = percent_encode password in
    rw
      (
        find-append b':' name word (encode-Avoids b':' user (free b':' (refl, refl)) h),
        store_credentials,
      )
      (rw (take-append_left name (b':' ∷ word), drop-append_suc name b':' word)
        (ap₂ (λ x y. record r { username = x; password = y }) (decode user h) (decode password k)))

creds-Avoids :
    (x : ℕ) (user password : Bytes)
    → IsFree x
    → b':' ≢ x
    → IsBytes user
    → IsBytes password
    → Avoids x (percent_encode user ++ b':' ∷ percent_encode password)
creds-Avoids x user password f n h k =
    Avoids-append x (percent_encode user) (b':' ∷ percent_encode password)
      (encode-Avoids x user f h) (n, encode-Avoids x password f k)

parse_steps-spell :
    (u : MongoUri)
    → IsUsable u
    → IsBytes u.username
    → IsBytes u.password
    → Avoids b'?' u.collection
    → parse_steps (spell u)
      ≡ done (record new_uri {
        is_srv = u.is_srv;
        username = u.username;
        password = u.password;
        hosts = u.hosts;
        database = u.database;
        collection = u.collection;
        is_valid = true;
      })
unfolding parse_steps
parse_steps-spell u v h k q =
    let path = u.database ++ b'/' ∷ u.collection in
    let rest = print_hosts u.hosts ++ b'/' ∷ path in
    let creds = percent_encode u.username ++ b':' ∷ percent_encode u.password in
    let avoids =
      λ (x : ℕ) (f : IsFree x) (n : b':' ≢ x). creds-Avoids x u.username u.password f n h k in
    let r = record new_uri { is_srv = u.is_srv } in
    let named = record r { username = u.username; password = u.password } in
    rw
      (
        parse_protocol-protocol u.is_srv (creds ++ b'@' ∷ rest),
        parse_credentials-given r creds rest
            (avoids b'@' (free b'@' (refl, refl)) (λ e. ground arith))
            (avoids b'/' (free b'/' (refl, refl)) (λ e. ground arith))
            (avoids b'?' (free b'?' (refl, refl)) (λ e. ground arith)),
        store_credentials-encoded r u.username u.password h k,
        parse_hosts-print_hosts named u.hosts path v.hosts_valid v.has_hosts,
        parse_path-names (record named { hosts = u.hosts }) u.database u.collection v.database_valid
            v.collection_valid q,
      )
      (unfold parse_options finish in
        rw (
          hosts-ne u.hosts v.has_hosts,
          database-ne u.database v.database_valid,
          collection-ne u.collection v.collection_valid,
        ))

-- Of a text that spells a usable URI whose collection holds no `?`, with a user name and a password of
-- any bytes, percent-encoded, `parse` reads back the protocol, the user name, the password, the hosts
-- with their ports in order, the database and the collection.
pub parse-spell :
    (u : MongoUri)
    → IsUsable u
    → IsBytes u.username
    → IsBytes u.password
    → Avoids b'?' u.collection
    → parse (spell u) ≡ record new_uri {
      is_srv = u.is_srv;
      username = u.username;
      password = u.password;
      hosts = u.hosts;
      database = u.database;
      collection = u.collection;
      is_valid = true;
    }
unfolding parse
parse-spell u v h k q = rw (protocol-ne u.is_srv _, parse_steps-spell u v h k q)
