-- ===== src/Handler/Connection.antt =====
-- When a connection is made, and what is left where it is not: src/ha_mongodb_handler.cc.
use mongodb_engine.Base.{
  ℕ, ◌≡◌, ◌⊎◌, refl, ap, ◌∙◌, true, false, none, some, Bytes, Bool-cases, Option-cases,
  option-known, inl, inr, arith,
}
use mongodb_engine.Share.Defs.{MongodbShare}
use mongodb_engine.Handler.Defs.{Code, Server, HaMongodb}
use mongodb_engine.Handler.Connect.{connect_client, connect_share, connect_to_mongodb}

-- All that a connection needs: a share that names a URI, a database and a collection, and a driver
-- that knows them.
pub record Connects (d : Server) (s : HaMongodb) : Type 0 where
  pub share : MongodbShare
  pub uri : Bytes
  pub database : Bytes
  pub collection : Bytes
  pub client : ℕ
  pub has_share : s.share ≡ some share
  pub has_uri : share.mongo_connection_string ≡ some uri
  pub names_database : share.database_name ≡ some database
  pub names_collection : share.collection_name ≡ some collection
  pub opens : d.client_new uri ≡ some client
  pub has_database : d.get_database client database ≡ true
  pub has_collection : d.get_collection database collection ≡ true

-- What a failed connection leaves.
abbrev pub Unconnected : Code × HaMongodb → Type 0
Unconnected r = (r.0 ≡ Code.failed) × (r.1.collection ≡ none)

abbrev pub connected : ℕ → Bytes → Bytes → HaMongodb → Code × HaMongodb
connected client database collection s =
    (Code.ok, record s { client = some client; collection = some (database, collection) })

-- Success, with all that it needs; or failure, with something missing.
abbrev pub Verdict : Server → HaMongodb → Code × HaMongodb → Type 0
Verdict d s r =
    ((h : Connects d s) × (r ≡ connected h.client h.database h.collection s))
    ⊎ (Unconnected r × ¬ Connects d s)

-- The driver's part.
record Opened (d : Server) (uri database collection : Bytes) (s : HaMongodb) : Type 0 where
  client : ℕ
  opens : d.client_new uri ≡ some client
  has_database : d.get_database client database ≡ true
  has_collection : d.get_collection database collection ≡ true
  result : connect_client d uri database collection s ≡ connected client database collection s

record Refused (d : Server) (uri database collection : Bytes) (s : HaMongodb) : Type 0 where
  failing : Unconnected (connect_client d uri database collection s)
  unknown :
      (client : ℕ)
      → d.client_new uri ≡ some client
      → d.get_database client database ≡ true
      → d.get_collection database collection ≡ false

connect_client_cases :
    (d : Server) (uri database collection : Bytes) (s : HaMongodb)
    → s.collection ≡ none
    → Opened d uri database collection s ⊎ Refused d uri database collection s
unfolding connect_client
connect_client_cases d uri database collection s n = elim (Option-cases (d.client_new uri)) [
  | inl e ↦
      inr (record { failing = rw (e, connect_client) (refl, n); unknown = λ k f g. absurd (cc) })
  | inr (client, e) ↦ elim (Bool-cases (d.get_database client database)) [
    | inr f ↦ inr (record {
      failing = rw (e, connect_client) (rw f (refl, n));
      unknown = λ k g h. absurd (ground (arith, e, f, g, h));
    })
    | inl f ↦ elim (Bool-cases (d.get_collection database collection)) [
      | inr g ↦ inr (record {
        failing = rw (e, connect_client) (rw f (rw g (refl, refl)));
        unknown = λ k h i. g;
      })
      | inl g ↦ inl (record {
        client = client;
        opens = e;
        has_database = f;
        has_collection = g;
        result = rw (e, connect_client) (rw f (rw g refl));
      })
    ]
  ]
]

client_cases :
    (d : Server) (s : HaMongodb) (share : MongodbShare) (uri database collection : Bytes)
    → s.share ≡ some share
    → share.mongo_connection_string ≡ some uri
    → share.database_name ≡ some database
    → share.collection_name ≡ some collection
    → s.collection ≡ none
    → Verdict d s (connect_client d uri database collection s)
client_cases d s share uri database collection a b e f n =
    elim (connect_client_cases d uri database collection s n) [
      | inl o ↦ inl (
        record {
          share = share;
          uri = uri;
          database = database;
          collection = collection;
          client = o.client;
          has_share = a;
          has_uri = b;
          names_database = e;
          names_collection = f;
          opens = o.opens;
          has_database = o.has_database;
          has_collection = o.has_collection;
        },
        o.result,
      )
      | inr r ↦ inr (
        r.failing,
        λ h.
            let u : uri ≡ h.uri = cc (a, b, h.has_share, h.has_uri) in
            let v : database ≡ h.database = cc (a, e, h.has_share, h.names_database) in
            let w : collection ≡ h.collection = cc (a, f, h.has_share, h.names_collection) in
            let no =
              r.unknown h.client (ap d.client_new u ∙ h.opens)
                (ap (d.get_database h.client) v ∙ h.has_database) in
            absurd (cc (no, v, w, h.has_collection)),
      )
    ]

-- `connect_to_mongodb` of a handler without a collection succeeds exactly if there is a share that
-- names a URI, a database and a collection and the driver knows them all; the handler then has that
-- client and that collection, and else it returns 1 and has no collection.
pub connect_cases :
    (d : Server) (s : HaMongodb) → s.collection ≡ none → Verdict d s (connect_to_mongodb d s)
unfolding connect_to_mongodb connect_share
connect_cases d s n =
    option-known (Verdict d s) s.share (λ a. inr ((refl, n), λ h. absurd (cc (a, h.has_share))))
      (λ share a.
        option-known (Verdict d s) share.mongo_connection_string
          (λ b. inr ((refl, n), λ h. absurd (cc (a, b, h.has_share, h.has_uri))))
          (λ uri b.
            option-known (Verdict d s) share.database_name
              (λ e. inr ((refl, n), λ h. absurd (cc (a, e, h.has_share, h.names_database))))
              (λ database e.
                option-known (Verdict d s) share.collection_name
                  (λ f. inr ((refl, n), λ h. absurd (cc (a, f, h.has_share, h.names_collection))))
                  (λ collection f. client_cases d s share uri database collection a b e f n))))
