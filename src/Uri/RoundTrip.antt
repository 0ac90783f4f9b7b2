-- ===== src/Uri/RoundTrip.antt =====
-- `parse` reads back what `to_safe_string` writes of a URI with no credentials.
pub mod Hosts
pub mod Credentials
pub mod Options
pub mod Written
pub mod Query
pub mod Connection
use mongodb_engine.Base.{
  ℕ, suc, ◌+◌, ◌<◌, ◌≤◌, min, ◌≡◌, ◌≢◌, refl, ap, ◌∙◌, sym, Bool, true, false, not, List, [], ◌∷◌,
  ◌++◌, Bytes, Avoids, All, ◌==◌, ltb, lt→ltb, ◌||◌, zero, arith, append-nil, append_assoc,
  Bool-cases, Option-cases, inl, inr, some, none, find, map, Avoids-append, find-Avoids,
  find-append, take-append_left, drop-append_left, length, is_empty, take, drop, drop-append_suc,
  is_empty-append, str_eq, if◌then◌else◌, take_all, drop_all, length-append, codes,
}
use mongodb_engine.Base.Int.{ℤ, pos}
use mongodb_engine.Uri.Defs.{MongoUri, new_uri, Outcome, failed, done, ◌>>=◌}
use mongodb_engine.Uri.Helpers.{split_string}
use mongodb_engine.Uri.Parse.{
  parse_protocol, parse_credentials, parse_hosts, parse_host_list, parse_database_collection,
  parse_options, finish, parse_steps, parse, result_of, or_end, hosts_end, store_path, check_path,
}
use mongodb_engine.Uri.Print.{protocol, print_hosts, to_safe_string, print_host, join}
use mongodb_engine.Uri.Sound.{ValidHost, IsUsable}
use mongodb_engine.Uri.Split.{split_string-join}
use mongodb_engine.Uri.Validate.{
  validate_database_name, validate_collection_name, has_invalid_byte, is_invalid_byte,
}
use Hosts.{
  IsQuiet, parse_host_list-print_host, print_host-IsItem, print_hosts-Avoids, print_hosts-ne,
}

pub parse_protocol-protocol :
    (b : Bool) (s : Bytes)
    → parse_protocol new_uri (protocol b ++ s) ≡ done (record new_uri { is_srv = b }, s)
unfolding parse_protocol str_eq
parse_protocol-protocol true s = refl
parse_protocol-protocol false s = refl

-- The first `c` of a text stands behind what avoids it.
pub find-le : (c : ℕ) (a b : Bytes) (i : ℕ) → Avoids c a → find c (a ++ b) ≡ some i → length a ≤ i
unfolding find
find-le c [] b i h e = omega arith
find-le c (x ∷ a) b zero h e = ground arith
find-le c (x ∷ a) b (suc i) h e = ground (arith, find-le c a b i h.1)

-- An `@` behind the first `/` is no sign of credentials.
pub parse_credentials-hosts :
    (r : MongoUri) (hosts rest : Bytes)
    → Avoids b'@' hosts
    → Avoids b'/' hosts
    → parse_credentials r (hosts ++ b'/' ∷ rest) ≡ done (r, hosts ++ b'/' ∷ rest)
unfolding parse_credentials
parse_credentials-hosts r hosts rest a b = elim (Option-cases (find b'@' (hosts ++ b'/' ∷ rest))) [
  | inl e ↦ rw (e, parse_credentials)
  | inr (i, e) ↦ rw (e, parse_credentials) (rw (late i e))
]
  where
    behind : (i : ℕ) → find b'@' (hosts ++ b'/' ∷ rest) ≡ some i → length hosts < i
    behind i e = omega (
      arith,
      length-append hosts (b'/' ∷ []),
      find-le b'@' (hosts ++ b'/' ∷ []) rest i
          (Avoids-append b'@' hosts (b'/' ∷ []) a ((λ x. ground arith), tt)) (rw append_assoc e),
    )

    late :
        (i : ℕ)
        → find b'@' (hosts ++ b'/' ∷ rest) ≡ some i
        → ltb
            (min
              (or_end (find b'/' (hosts ++ b'/' ∷ rest)) (hosts ++ b'/' ∷ rest))
              (or_end (find b'?' (hosts ++ b'/' ∷ rest)) (hosts ++ b'/' ∷ rest)))
            i
          ≡ true
    late i e = rw (find-append b'/' hosts rest b) (lt→ltb _ i (omega (arith, behind i e)))

pub hosts_end-append : (a rest : Bytes) → Avoids b'/' a → hosts_end (a ++ b'/' ∷ rest) ≡ length a
hosts_end-append a rest h = rw (find-append b'/' a rest h, hosts_end)

split-hosts :
    (hosts : List (Bytes × ℤ))
    → All ValidHost hosts
    → split_string (print_hosts hosts) b',' ≡ map print_host hosts
unfolding print_hosts
split-hosts hosts v = split_string-join b',' (map print_host hosts) (print_host-IsItem hosts v)

pub parse_hosts-print_hosts :
    (r : MongoUri) (hosts : List (Bytes × ℤ)) (rest : Bytes)
    → All ValidHost hosts
    → hosts ≢ []
    → parse_hosts r (print_hosts hosts ++ b'/' ∷ rest)
      ≡ done (record r { hosts = r.hosts ++ hosts }, b'/' ∷ rest)
unfolding parse_hosts
parse_hosts-print_hosts r hosts rest v n =
    let free = print_hosts-Avoids b'/' hosts v (refl, λ e. ground arith) (λ e. ground arith) in
    rw
      (
        hosts_end-append (print_hosts hosts) rest free,
        take-append_left (print_hosts hosts) (b'/' ∷ rest),
        print_hosts-ne hosts v n,
      )
      (rw (split-hosts hosts v, parse_host_list-print_host r hosts v)
        (rw (drop-append_left (print_hosts hosts) (b'/' ∷ rest))))

has_invalid_byte-Avoids :
    (c : ℕ) (s : Bytes) → has_invalid_byte s ≡ false → is_invalid_byte c ≡ true → Avoids c s
unfolding has_invalid_byte
has_invalid_byte-Avoids c [] h e = tt
has_invalid_byte-Avoids c (x ∷ s) h e =
    ((λ d. ground arith), has_invalid_byte-Avoids c s (ground arith) e)

pub database-Avoids :
    (c : ℕ) (s : Bytes) → validate_database_name s ≡ true → is_invalid_byte c ≡ true → Avoids c s
unfolding validate_database_name
database-Avoids c s h e = has_invalid_byte-Avoids c s (ground arith) e

pub store_path-names :
    (r : MongoUri) (d c : Bytes)
    → Avoids b'/' d
    → store_path r (d ++ b'/' ∷ c) ≡ record r { database = d; collection = c }
unfolding store_path
store_path-names r d c h =
    rw (find-append b'/' d c h, store_path)
      (rw (drop-append_suc d b'/' c, take-append_left d (b'/' ∷ c)))

pub check_path-names :
    (r : MongoUri) (s : Bytes)
    → validate_database_name r.database ≡ true
    → validate_collection_name r.collection ≡ true
    → check_path r s ≡ done (r, s)
unfolding check_path
check_path-names r s d c = ground arith

pub parse_path-names :
    (r : MongoUri) (d c : Bytes)
    → validate_database_name d ≡ true
    → validate_collection_name c ≡ true
    → Avoids b'?' c
    → parse_database_collection r (b'/' ∷ (d ++ b'/' ∷ c))
      ≡ done (record r { database = d; collection = c }, [])
unfolding parse_database_collection
parse_path-names r d c hd hc q =
    rw
      (find-Avoids b'?' (d ++ b'/' ∷ c)
        (Avoids-append b'?' d (b'/' ∷ c) (database-Avoids b'?' d hd refl) ((λ e. ground arith), q)))
      (rw
        (
          take_all (d ++ b'/' ∷ c),
          drop_all (d ++ b'/' ∷ c),
          store_path-names r d c (database-Avoids b'/' d hd refl),
        )
        (check_path-names (record r { database = d; collection = c }) [] hd hc))

pub collection-ne : (s : Bytes) → validate_collection_name s ≡ true → is_empty s ≡ false
unfolding validate_collection_name
collection-ne s h = ground arith

pub database-ne : (s : Bytes) → validate_database_name s ≡ true → is_empty s ≡ false
unfolding validate_database_name
database-ne s h = ground arith

pub hosts-ne {ℓ} : {A : Type ℓ} (hs : List A) → hs ≢ [] → is_empty hs ≡ false
hosts-ne [] h = absurd (h refl)
hosts-ne (x ∷ hs) h = refl

safe_text :
    (u : MongoUri)
    → IsUsable u
    → u.username ≡ []
    → to_safe_string u
      ≡ protocol u.is_srv ++ (print_hosts u.hosts ++ b'/' ∷ (u.database ++ b'/' ∷ u.collection))
unfolding to_safe_string
safe_text u h n =
    ground (
      arith,
      database-ne u.database h.database_valid,
      collection-ne u.collection h.collection_valid,
    )

parse_steps-text :
    (u : MongoUri)
    → IsUsable u
    → Avoids b'?' u.collection
    → parse_steps
        (protocol u.is_srv ++ (print_hosts u.hosts ++ b'/' ∷ (u.database ++ b'/' ∷ u.collection)))
      ≡ done (record new_uri {
        is_srv = u.is_srv;
        hosts = u.hosts;
        database = u.database;
        collection = u.collection;
        is_valid = true;
      })
unfolding parse_steps
parse_steps-text u h q =
    let path = u.database ++ b'/' ∷ u.collection in
    let free =
      λ (c : ℕ) (k : IsQuiet c) (n : c ≢ b','). print_hosts-Avoids c u.hosts h.hosts_valid k n in
    let r = record new_uri { is_srv = u.is_srv } in
    rw
      (
        parse_protocol-protocol u.is_srv (print_hosts u.hosts ++ b'/' ∷ path),
        parse_credentials-hosts r (print_hosts u.hosts) path
            (free b'@' (refl, λ e. ground arith) (λ e. ground arith))
            (free b'/' (refl, λ e. ground arith) (λ e. ground arith)),
        parse_hosts-print_hosts r u.hosts path h.hosts_valid h.has_hosts,
        parse_path-names (record r { hosts = u.hosts }) u.database u.collection h.database_valid
            h.collection_valid q,
      )
      (unfold parse_options finish in
        rw (
          hosts-ne u.hosts h.has_hosts,
          database-ne u.database h.database_valid,
          collection-ne u.collection h.collection_valid,
        ))

pub protocol-ne : (b : Bool) (s : Bytes) → is_empty (protocol b ++ s) ≡ false
protocol-ne true s = refl
protocol-ne false s = refl

-- A usable URI with no user name, whose collection holds no `?`, is logged as a text from which
-- `parse` reads back its protocol, its hosts with their ports in order, its database and its
-- collection; the options are not logged, and come back as their defaults.
pub parse-to_safe_string :
    (u : MongoUri)
    → IsUsable u
    → u.username ≡ []
    → Avoids b'?' u.collection
    → parse (to_safe_string u) ≡ record new_uri {
      is_srv = u.is_srv;
      hosts = u.hosts;
      database = u.database;
      collection = u.collection;
      is_valid = true;
    }
unfolding parse
parse-to_safe_string u h n q = rw (safe_text u h n, protocol-ne u.is_srv _, parse_steps-text u h q)
