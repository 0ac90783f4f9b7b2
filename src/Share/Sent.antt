-- ===== src/Share/Sent.antt =====
-- The URI that the share keeps for the driver, read by `MongoURIParser`: src/mongodb_share.cc with
-- src/mongodb_uri_parser.cc.
use mongodb_engine.Base.{
  ℕ, ◌≡◌, refl, ap, ◌∙◌, Bool, true, false, not, ◌⊎◌, [], ◌∷◌, ◌++◌, some, Bytes, Avoids,
  Avoids-append, is_empty, append_assoc, arith, subst,
}
use mongodb_engine.Share.Parse.{auth_suffix}
use mongodb_engine.Share.Parse.{mongodb_parse_connection_string}
use mongodb_engine.Uri.Defs.{MongoUri, new_uri, failed, done, ◌>>=◌}
use mongodb_engine.Uri.Parse.{parse, parse_steps, finish, parse_options}
use mongodb_engine.Uri.Grammar.{IsUri, IsLogin, absent, hidden, given}
use mongodb_engine.Uri.Grammar.Passes.{
  query_forms, split-ne, logged_in, named_in, parse_steps-login, Passes, IsUri-Passes,
}
use mongodb_engine.Uri.Grammar.Text.{logged-credited, parse_hosts-slash}
use mongodb_engine.Uri.Print.{protocol}
use mongodb_engine.Uri.Sound.{IsUsable, Ensures, parse_steps-IsUsable}
use mongodb_engine.Uri.RoundTrip.{protocol-ne, database-Avoids, database-ne}
use mongodb_engine.Uri.RoundTrip.Connection.{parse_database, finish_unnamed, no_collection}
use mongodb_engine.Share.Defs.{MongodbShare}
use mongodb_engine.Share.Agree.{parse-named}
use mongodb_engine.Uri.Grammar.Alike.{variant, IsSource, Tracks}
use mongodb_engine.Share.Suffix.{IsSuffix, suffix-Tracks, suffix-IsSuffix, IsSuffix-forms}

protocol_no_query : (b : Bool) → Avoids b'?' (protocol b)
protocol_no_query true = ground arith
protocol_no_query false = ground arith

login_no_slash : {hosts login : Bytes} → IsLogin hosts login → Avoids b'/' login
login_no_slash (absent a) = tt
login_no_slash (hidden front back e a q) = tt
login_no_slash (given creds l e a b q) =
    rw e (Avoids-append b'/' creds (b'@' ∷ []) b ((λ x. ground arith), tt))

login_no_query : {hosts login : Bytes} → IsLogin hosts login → Avoids b'?' login
login_no_query (absent a) = tt
login_no_query (hidden front back e a q) = tt
login_no_query (given creds l e a b q) =
    rw e (Avoids-append b'?' creds (b'@' ∷ []) q ((λ x. ground arith), tt))

-- What stands in front of the query.
abbrev front_of : {s : Bytes} → IsUri s → Bytes
front_of g =
    protocol g.is_srv ++ ((g.login ++ g.hosts) ++ b'/' ∷ (g.database ++ b'/' ∷ g.collection))

-- The text for the driver of a text of the grammar.
abbrev sent_text : {s : Bytes} → IsUri s → Bytes → Bytes
sent_text g suffix = protocol g.is_srv ++ (g.login ++ (g.hosts ++ b'/' ∷ (g.database ++ suffix)))

-- The URI up to the database, which is all that the driver's text names.
unnamed :
    (b : Bool) {hosts login : Bytes} (l : IsLogin hosts login) → (logged_in b l).collection ≡ []
unnamed b l =
    ap (λ (u : MongoUri). u.collection) (logged-credited (record new_uri { is_srv = b }) l)

no_source :
    (b : Bool) {hosts login : Bytes} (l : IsLogin hosts login) → (logged_in b l).auth_source ≡ []
no_source b l =
    ap (λ (u : MongoUri). u.auth_source) (logged-credited (record new_uri { is_srv = b }) l)

without_collection :
    (r : MongoUri) (database collection : Bytes)
    → r.collection ≡ []
    → record r { database = database }
      ≡ record (record r { database = database; collection = collection }) { collection = [] }
without_collection r database collection n =
    ap (λ c. record r { database = database; collection = c }) n

parse_steps-sent :
    (s suffix : Bytes) (g : IsUri s) (p : Passes s g)
    → (suffix ≡ []) ⊎ ((q : Bytes) × (suffix ≡ b'?' ∷ q))
    → parse_steps (sent_text g suffix)
      ≡ (parse_options (record (named_in g p.hosts) { collection = [] }) suffix >>= finish)
parse_steps-sent s suffix g p t =
    let start = logged_in g.is_srv g.is_login in
    let r = record start { hosts = p.hosts } in
    let rest = g.database ++ suffix in
    rw
      (
        parse_steps-login g.is_srv g.login g.hosts rest g.is_login g.hosts_no_slash,
        parse_hosts-slash start g.hosts rest g.hosts_no_slash,
      )
      (rw (split-ne g.hosts g.some_host, p.reads)
        (rw
          (
            parse_database r g.database suffix g.is_database (unnamed g.is_srv g.is_login) t,
            without_collection r g.database g.collection (unnamed g.is_srv g.is_login),
          )
          refl))

-- What the driver's text is to mean.
pub record Means (s w : Bytes) : Type 0 where
  pub source : Bytes
  pub reads : parse w ≡ record (parse s) {
    auth_source = source;
    collection = [];
    is_valid = false;
    error_message = no_collection;
  }
  pub is_source : IsSource (parse s) source

parse-sent :
    (s suffix : Bytes) (g : IsUri s) → IsSuffix g.query suffix → Means s (sent_text g suffix)
unfolding parse
parse-sent s suffix g is =
    let p = IsUri-Passes s g in
    let u = p.uri in
    let alike : Tracks [] (done u)
        (parse_options (record (named_in g p.hosts) { collection = [] }) suffix) =
      rw (p.stored) at (
        suffix-Tracks (named_in g p.hosts) g.query suffix (no_source g.is_srv g.is_login) g.is_query
          is) in
    let (source, e, h) = alike in
    let ends : parse_steps (sent_text g suffix)
        ≡ failed (record (variant u source []) { error_message = no_collection }) =
      parse_steps-sent s suffix g p (IsSuffix-forms g.is_query is)
      ∙ rw e (
          finish_unnamed (variant u source []) (ap is_empty p.kept.hosts ∙ p.some_host)
            (ap is_empty p.kept.database ∙ database-ne g.database g.is_database) refl) in
    let invalid : u.is_valid ≡ false =
      (subst (Ensures IsUsable) ends (parse_steps-IsUsable (sent_text g suffix))).invalid in
    record {
      source = source;
      reads =
          rw (protocol-ne g.is_srv _, ends, p.result)
            (ap (λ v. record (variant u source []) { is_valid = v; error_message = no_collection })
              invalid);
      is_source = rw (p.result) h;
    }

front_no_query : (s : Bytes) (g : IsUri s) → Avoids b'?' g.hosts → Avoids b'?' (front_of g)
front_no_query s g h = Avoids-append b'?' (protocol g.is_srv) _ (protocol_no_query g.is_srv) (
    Avoids-append b'?' (g.login ++ g.hosts) _
      (Avoids-append b'?' g.login g.hosts (login_no_query g.is_login) h)
      (
        (λ e. ground arith),
        Avoids-append b'?' g.database (b'/' ∷ g.collection)
            (database-Avoids b'?' g.database g.is_database refl)
            ((λ e. ground arith), g.collection_no_query),
      ))

-- Take a text of the grammar, with no `?` in its hosts, and memory. The parser of the share keeps a
-- text for the driver that `MongoURIParser::parse` reads as it reads the given one, in every field but
-- four: there is no collection, for which alone the text is refused, so that it is not valid and has
-- that message; and the source of the authentication is that of the given text, or `admin` where the
-- given text has none.
pub mongo_connection_string-Means :
    (alloc : ℕ → ℕ → Bool) (share : MongodbShare) (s : Bytes) (g : IsUri s)
    → ((k n : ℕ) → alloc k n ≡ true)
    → Avoids b'?' g.hosts
    → (w : Bytes) × ((mongodb_parse_connection_string alloc
          (some s)
          share).1.mongo_connection_string
        ≡ some w)
      × Means s w
mongo_connection_string-Means alloc share s g room h =
    let authority = g.login ++ g.hosts in
    let names = g.database ++ b'/' ∷ (g.collection ++ g.query) in
    let suffix = auth_suffix s (not (is_empty g.query)) in
    let whole : s ≡ front_of g ++ g.query = g.splits ∙ simp (append_assoc) in
    let is = suffix-IsSuffix s (front_of g) g.query whole (front_no_query s g h) g.is_query in
    let d = database-Avoids b'/' g.database g.is_database refl in
    let path =
      Avoids-append b'?' g.database (b'/' ∷ g.collection)
        (database-Avoids b'?' g.database g.is_database refl)
        ((λ e. ground arith), g.collection_no_query) in
    let kept =
      parse-named alloc room s share g.is_srv authority g.database g.collection g.query
        (g.splits ∙ simp (append_assoc))
        (Avoids-append b'/' g.login g.hosts (login_no_slash g.is_login) g.hosts_no_slash) d path
        (query_forms g.is_query) in
    (
      sent_text g suffix,
      ap (λ (r : ℕ × MongodbShare). r.1.mongo_connection_string) kept
          ∙ ap some (simp (append_assoc)),
      parse-sent s suffix g is,
    )
