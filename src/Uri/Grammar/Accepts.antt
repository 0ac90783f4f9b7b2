-- ===== src/Uri/Grammar/Accepts.antt =====
-- `parse` accepts exactly the texts of the grammar.
use mongodb_engine.Base.{
  ℕ, ◌≡◌, ◌≢◌, ◌↔◌, refl, sym, ap, ◌∙◌, true, inl, inr, ◌⊎◌, [], ◌∷◌, ◌++◌, Bytes, Avoids, All,
  append_assoc, is_empty, Bool-cases, arith, subst,
}
use mongodb_engine.Uri.Defs.{new_uri, >>=-eq-done, done_inj, MongoUri, Outcome, failed, done, ◌>>=◌}
use mongodb_engine.Uri.Helpers.{split_string}
use mongodb_engine.Uri.Parse.{
  parse_hosts, parse_host_list, parse_database_collection, check_path, parse_options, finish,
  parse_steps, parse, result_of,
}
use mongodb_engine.Uri.Print.{protocol}
use mongodb_engine.Uri.Sound.{IsUsable, Ensures, parse_steps-IsUsable}
use mongodb_engine.Uri.Shape.Path.{parse-Shape}
use mongodb_engine.Uri.Grammar.{IsHost, IsUri, IsQuery, missing}
use mongodb_engine.Uri.Grammar.Hosts.{parse_host_list-IsHost}
use mongodb_engine.Uri.Grammar.Options.{parse_options-Stores, parse_options-IsQuery}
use mongodb_engine.Uri.Grammar.Text.{
  logged-hosts, authority-Splits, parse_hosts-slash, parse_path-slash,
}
use mongodb_engine.Uri.Grammar.Passes.{
  from_hosts, logged_in, parse_steps-login, finish-hosts, IsUri-Passes,
}

-- What the steps behind the credentials require.
record Required (hosts query : Bytes) : Type 0 where
  some_host : split_string hosts b',' ≢ []
  are_hosts : All IsHost (split_string hosts b',')
  is_query : IsQuery query

check_path_same :
    (r : MongoUri) (s : Bytes) (a : MongoUri × Bytes) → check_path r s ≡ done a → a ≡ (r, s)
unfolding check_path
check_path_same r s a h = ground arith

read-IsQuery :
    (r u : MongoUri) (query : Bytes)
    → (query ≡ []) ⊎ ((q : Bytes) × (query ≡ b'?' ∷ q))
    → parse_options r query ≡ done u
    → IsQuery query
read-IsQuery r u query (inl e) h = rw e missing
read-IsQuery r u query (inr (q, e)) h = rw e (parse_options-IsQuery r u q (rw e at h))

-- Without a host the end of the parse is not done.
no_host :
    (r p w q u : MongoUri) (query : Bytes)
    → r.hosts ≡ []
    → parse_host_list r [] ≡ done p
    → w.hosts ≡ p.hosts
    → IsQuery query
    → parse_options w query ≡ done q
    → finish q ≢ done u
unfolding parse_host_list
no_host r p w q u query n reads same is stores f =
    let (q', e, kept) = parse_options-Stores w query is in
    let read : r ≡ p = done_inj reads in
    let stored : q' ≡ q = done_inj (sym e ∙ stores) in
    let none_left : q.hosts ≡ [] =
      ap (λ (k : MongoUri). k.hosts) (sym stored)
      ∙ kept.hosts
      ∙ same
      ∙ ap (λ (k : MongoUri). k.hosts) (sym read)
      ∙ n in
    cc (sym (ap is_empty none_left) ∙ finish-hosts q u f)

hosts_read :
    (r : MongoUri) (hosts rest : Bytes) (a : MongoUri × Bytes)
    → Avoids b'/' hosts
    → parse_hosts r (hosts ++ b'/' ∷ rest) ≡ done a
    → (p : MongoUri) × (parse_host_list r (split_string hosts b',') ≡ done p)
      × (a ≡ (p, b'/' ∷ rest))
hosts_read r hosts rest a h e =
    let step = sym (parse_hosts-slash r hosts rest h) ∙ e in
    elim (Bool-cases (is_empty hosts)) [
      | inl n ↦ absurd (cc (rw n at step))
      | inr n ↦
          let (p, reads, g) =
            >>=-eq-done (parse_host_list r (split_string hosts b',')) (λ r'. done (r', b'/' ∷ rest))
              a (rw n at step) in
          (p, reads, sym (done_inj g))
    ]

from_hosts-Required :
    (r u : MongoUri) (hosts database collection query : Bytes)
    → r.hosts ≡ []
    → Avoids b'/' hosts
    → Avoids b'/' database
    → Avoids b'?' (database ++ b'/' ∷ collection)
    → (query ≡ []) ⊎ ((q : Bytes) × (query ≡ b'?' ∷ q))
    → from_hosts r (hosts ++ b'/' ∷ (database ++ b'/' ∷ (collection ++ query))) ≡ done u
    → Required hosts query
from_hosts-Required r u hosts database collection query n h d k t e =
    let names = database ++ b'/' ∷ (collection ++ query) in
    let start = hosts ++ b'/' ∷ names in
    let items = split_string hosts b',' in
    let (q, e3, ends) =
      >>=-eq-done
        (parse_hosts r start
          >>= (λ a. parse_database_collection a.0 a.1)
          >>= (λ a. parse_options a.0 a.1))
        finish u e in
    let (b, e2, stores) =
      >>=-eq-done (parse_hosts r start >>= (λ a. parse_database_collection a.0 a.1))
        (λ a. parse_options a.0 a.1) q e3 in
    let (a, e1, path) =
      >>=-eq-done (parse_hosts r start) (λ a. parse_database_collection a.0 a.1) b e2 in
    let (p, reads, here) = hosts_read r hosts names a h e1 in
    let w = record p { database = database; collection = collection } in
    let checked : check_path w query ≡ done b =
      sym (parse_path-slash p database collection query d k t) ∙ rw here at path in
    let there : b ≡ (w, query) = check_path_same w query b checked in
    let options : parse_options w query ≡ done q = rw there at stores in
    let is = read-IsQuery w q query t options in
    record {
      some_host =
          λ none_there. no_host r p w q u query n (rw none_there at reads) refl is options ends;
      are_hosts = parse_host_list-IsHost r p items reads;
      is_query = is;
    }

-- A parse that is valid has passed through all steps.
result-done :
    (m : Outcome MongoUri)
    → Ensures IsUsable m
    → (result_of m).is_valid ≡ true
    → m ≡ done (result_of m)
result-done (failed r) h v = absurd (cc (h.invalid))
result-done (done r) h v = refl

parse-done : (s : Bytes) → (parse s).is_valid ≡ true → parse_steps s ≡ done (parse s)
unfolding parse
parse-done s v = elim (Bool-cases (is_empty s)) [
  | inl e ↦ absurd (cc (rw e at v))
  | inr e ↦ rw e (result-done (parse_steps s) (parse_steps-IsUsable s) (rw e at v))
]

Avoids-right : (c : ℕ) (a b : Bytes) → Avoids c (a ++ b) → Avoids c b
Avoids-right c [] b h = h
Avoids-right c (x ∷ a) b h = Avoids-right c a b h.1

parse-IsUri : (s : Bytes) → (parse s).is_valid ≡ true → IsUri s
parse-IsUri s v =
    let u = parse s in
    let e = parse-done s v in
    let usable : IsUsable u = subst (Ensures IsUsable) e (parse_steps-IsUsable s) in
    let shape = parse-Shape s v in
    let parts = authority-Splits shape.authority shape.authority_no_slash in
    let names = u.database ++ b'/' ∷ (u.collection ++ shape.tail) in
    let splits : s ≡ protocol shape.is_srv ++ (parts.login ++ (parts.hosts ++ b'/' ∷ names)) =
      shape.splits
      ∙ ap (λ a. protocol shape.is_srv ++ (a ++ b'/' ∷ names)) parts.parts
      ∙ ap (λ a. protocol shape.is_srv ++ a)
          (append_assoc parts.login parts.hosts (b'/' ∷ names)) in
    let start = logged_in shape.is_srv parts.is_login in
    let required =
      from_hosts-Required start u parts.hosts u.database u.collection shape.tail
        (logged-hosts (record new_uri { is_srv = shape.is_srv }) parts.is_login) parts.no_slash
        shape.database_no_slash shape.path_no_query shape.tail_query
        (sym (
            parse_steps-login shape.is_srv parts.login parts.hosts names parts.is_login
              parts.no_slash)
          ∙ ap parse_steps (sym splits)
          ∙ e) in
    record {
      is_srv = shape.is_srv;
      login = parts.login;
      hosts = parts.hosts;
      database = u.database;
      collection = u.collection;
      query = shape.tail;
      splits = splits;
      is_login = parts.is_login;
      hosts_no_slash = parts.no_slash;
      some_host = required.some_host;
      are_hosts = required.are_hosts;
      is_database = usable.database_valid;
      is_collection = usable.collection_valid;
      collection_no_query =
          (Avoids-right b'?' u.database (b'/' ∷ u.collection) shape.path_no_query).1;
      is_query = required.is_query;
    }

-- `parse` accepts exactly the texts of the grammar, and reads the database and the collection of it.
-- Such a text is a protocol; a login, that is, credentials with none of `@`, `/` and `?` in front of
-- an `@`, or nothing where no `@` stands before the first `?` of the hosts; the hosts, with no `/`,
-- which commas separate and of which there is at least one, each a host name, alone or with a colon
-- and a text that `stoi` reads as a port; `/` and a database name; `/` and a collection name with no
-- `?`; and nothing more, or `?` and options with `&` between them, of which the two timeouts have a
-- number that `stoi` reads.
pub parse_iff :
    (s : Bytes)
    → (((parse s).is_valid ≡ true) ↔ IsUri s)
      × ((g : IsUri s) → ((parse s).database ≡ g.database) × ((parse s).collection ≡ g.collection))
parse_iff s = (
  (parse-IsUri s, λ g. ap (λ (u : MongoUri). u.is_valid) (IsUri-Passes s g).result),
  λ g.
      let p = IsUri-Passes s g in
      (
        ap (λ (u : MongoUri). u.database) p.result ∙ p.kept.database,
        ap (λ (u : MongoUri). u.collection) p.result ∙ p.kept.collection,
      ),
)
