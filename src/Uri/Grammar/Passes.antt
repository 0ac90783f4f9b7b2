-- ===== src/Uri/Grammar/Passes.antt =====
-- The texts of the grammar pass through all steps of the parser.
use mongodb_engine.Base.{
  List, ◌≡◌, ◌≢◌, refl, ap, ◌∙◌, Bool, true, false, inl, inr, ◌⊎◌, [], ◌∷◌, ◌++◌, Bytes, Avoids,
  Avoids-append, is_empty, Bool-cases, arith,
}
use mongodb_engine.Uri.Defs.{MongoUri, new_uri, Outcome, done, ◌>>=◌}
use mongodb_engine.Base.Int.{ℤ}
use mongodb_engine.Uri.Helpers.{split_string, split_from}
use mongodb_engine.Uri.Parse.{
  parse_host_list, parse_hosts, parse_database_collection, parse_options, finish, parse_steps,
  parse,
}
use mongodb_engine.Uri.Print.{protocol}
use mongodb_engine.Uri.RoundTrip.{
  parse_protocol-protocol, protocol-ne, database-Avoids, database-ne, collection-ne, hosts-ne,
  check_path-names,
}
use mongodb_engine.Uri.Grammar.{IsUri, IsQuery, missing, options, IsLogin}
use mongodb_engine.Uri.Grammar.Hosts.{parse_host_list_done}
use mongodb_engine.Uri.Grammar.Options.{Kept, parse_options-Stores}
use mongodb_engine.Uri.Grammar.Text.{
  logged, logged-hosts, parse_credentials-login, parse_hosts-slash, parse_path-slash,
}

-- The steps behind the credentials.
abbrev pub from_hosts : MongoUri → Bytes → Outcome MongoUri
from_hosts r s =
    parse_hosts r s
    >>= (λ a. parse_database_collection a.0 a.1)
    >>= (λ a. parse_options a.0 a.1)
    >>= finish

-- The URI, up to the hosts.
abbrev pub logged_in : Bool → {hosts login : Bytes} → IsLogin hosts login → MongoUri
logged_in is_srv l = logged (record new_uri { is_srv = is_srv }) l

pub parse_steps-login :
    (is_srv : Bool) (login hosts rest : Bytes)
    → (l : IsLogin hosts login) → Avoids b'/' hosts
    → parse_steps (protocol is_srv ++ (login ++ (hosts ++ b'/' ∷ rest)))
      ≡ from_hosts (logged_in is_srv l) (hosts ++ b'/' ∷ rest)
unfolding parse_steps
parse_steps-login is_srv login hosts rest l h =
    rw
      (
        parse_protocol-protocol is_srv (login ++ (hosts ++ b'/' ∷ rest)),
        parse_credentials-login (record new_uri { is_srv = is_srv }) login hosts rest l h,
      )
      refl

pub split-ne : (hosts : Bytes) → split_string hosts b',' ≢ [] → is_empty hosts ≡ false
unfolding split_string split_from
split-ne [] h = absurd (h refl)
split-ne (c ∷ s) h = refl

finish_done :
    (r : MongoUri)
    → is_empty r.hosts ≡ false
    → is_empty r.database ≡ false
    → is_empty r.collection ≡ false
    → finish r ≡ done (record r { is_valid = true })
unfolding finish
finish_done r h d c = rw (h, d, c) refl

pub finish-hosts : (r u : MongoUri) → finish r ≡ done u → is_empty r.hosts ≡ false
unfolding finish
finish-hosts r u e = elim (Bool-cases (is_empty r.hosts)) [
  | inl h ↦ absurd (cc (rw h at e))
  | inr h ↦ h
]

pub query_forms :
    {query : Bytes} → IsQuery query → (query ≡ []) ⊎ ((q : Bytes) × (query ≡ b'?' ∷ q))
query_forms missing = inl refl
query_forms (options q h) = inr (q, refl)

-- The URI, with these hosts, in front of the options.
abbrev pub named_in : {s : Bytes} → IsUri s → List (Bytes × ℤ) → MongoUri
named_in g hosts =
    let start = logged_in g.is_srv g.is_login in
    record start { hosts = hosts; database = g.database; collection = g.collection }

-- How a text of the grammar passes through the steps.
pub record Passes (s : Bytes) (g : IsUri s) : Type 0 where
  pub hosts : List (Bytes × ℤ)
  pub reads :
      parse_host_list (logged_in g.is_srv g.is_login) (split_string g.hosts b',')
      ≡ done (record (logged_in g.is_srv g.is_login) { hosts = hosts })
  pub some_host : is_empty hosts ≡ false
  pub uri : MongoUri
  pub stored : parse_options (named_in g hosts) g.query ≡ done uri
  pub kept : Kept (named_in g hosts) uri
  pub result : parse s ≡ record uri { is_valid = true }

parse_steps-done :
    (s : Bytes) (g : IsUri s) (hosts : List (Bytes × ℤ)) (uri : MongoUri)
    → parse_host_list (logged_in g.is_srv g.is_login) (split_string g.hosts b',')
      ≡ done (record (logged_in g.is_srv g.is_login) { hosts = hosts })
    → is_empty hosts ≡ false
    → parse_options (named_in g hosts) g.query ≡ done uri
    → Kept (named_in g hosts) uri
    → parse_steps s ≡ done (record uri { is_valid = true })
parse_steps-done s g hosts uri reads some_host stored kept =
    let names = g.database ++ b'/' ∷ (g.collection ++ g.query) in
    let start = logged_in g.is_srv g.is_login in
    let r = record start { hosts = hosts } in
    rw
      (
        g.splits,
        parse_steps-login g.is_srv g.login g.hosts names g.is_login g.hosts_no_slash,
        parse_hosts-slash start g.hosts names g.hosts_no_slash,
      )
      (rw (split-ne g.hosts g.some_host, reads)
        (rw
          (parse_path-slash r g.database g.collection g.query
            (database-Avoids b'/' g.database g.is_database refl)
            (Avoids-append b'?' g.database (b'/' ∷ g.collection)
              (database-Avoids b'?' g.database g.is_database refl)
              ((λ e. ground arith), g.collection_no_query))
            (query_forms g.is_query))
          (rw (check_path-names (named_in g hosts) g.query g.is_database g.is_collection, stored)
            (finish_done uri (ap is_empty kept.hosts ∙ some_host)
              (ap is_empty kept.database ∙ database-ne g.database g.is_database)
              (ap is_empty kept.collection ∙ collection-ne g.collection g.is_collection)))))

pub IsUri-Passes : (s : Bytes) (g : IsUri s) → Passes s g
unfolding parse
IsUri-Passes s g =
    let start = record new_uri { is_srv = g.is_srv } in
    let (hs, reads, same) =
      parse_host_list_done (logged_in g.is_srv g.is_login) (split_string g.hosts b',')
        g.are_hosts in
    let read : (logged_in g.is_srv g.is_login).hosts ++ hs ≡ hs =
      ap (λ x. x ++ hs) (logged-hosts start g.is_login) in
    let all = reads ∙ ap (λ x. done (record (logged_in g.is_srv g.is_login) { hosts = x })) read in
    let some_host = same ∙ hosts-ne (split_string g.hosts b',') g.some_host in
    let (uri, stored, kept) = parse_options-Stores (named_in g hs) g.query g.is_query in
    let filled : is_empty s ≡ false = rw (g.splits) (protocol-ne g.is_srv _) in
    record {
      hosts = hs;
      reads = all;
      some_host = some_host;
      uri = uri;
      stored = stored;
      kept = kept;
      result = rw filled (rw (parse_steps-done s g hs uri all some_host stored kept) refl);
    }
