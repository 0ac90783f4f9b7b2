-- ===== src/Engine.antt =====
-- From the text of a table to its rows: src/ha_mongodb_handler.cc, src/mongodb_share.cc and
-- src/mongodb_uri_parser.cc together.
pub mod Runs
mod Tests
use mongodb_engine.Base.{
  ◌<◌, ◌^◌, arith, ℕ, suc, ◌+◌, ◌≡◌, refl, sym, ap, ◌∙◌, Bool, true, false, not, List, [], ◌∷◌,
  ◌++◌, map, Option, none, some, Bytes, length, if◌then◌else◌, is_empty, ◌==◌, if-both, option-both,
  option-known,
}
use mongodb_engine.Uri.Parse.{parse}
use mongodb_engine.Share.Defs.{MongodbShare, zero_share}
use mongodb_engine.Share.Parse.{auth_suffix, mongodb_parse_connection_string}
use mongodb_engine.Share.Shape.{Names, parse-Names}
use mongodb_engine.Share.Agree.{Stores, parse-agrees}
use mongodb_engine.Handler.Defs.{
  Column, Code, Doc, Cursor, FindOpts, Server, HaMongodb, new_handler,
}
use mongodb_engine.Handler.Convert.{Cell}
use mongodb_engine.Handler.Connect.{
  open_table, open_parsed, get_share, less_one, free_share, disconnect_from_mongodb, close,
  connect_to_mongodb, connect_share, connect_client,
}
use mongodb_engine.Handler.Scan.{rnd_init, reset_for_scan, ensure_collection, begin_scan}
use mongodb_engine.Handler.Scanner.{Ask, Scanner, replies, answers}
use mongodb_engine.Handler.Scanner.Refines.{run_refines}
use mongodb_engine.Handler.FullScan.{read_all, row_of, end_code, scan_delivers}

-- What a server does with a URI, a database and a collection that it knows.
pub record Accepts (d : Server) (uri database collection : Bytes) : Type 0 where
  pub client : ℕ
  pub opens : d.client_new uri ≡ some client
  pub has_database : d.get_database client database ≡ true
  pub has_collection : d.get_collection database collection ≡ true

-- A share that names all that a connection needs.
pub record Ready (share : MongodbShare) (uri database collection : Bytes) : Type 0 where
  pub uri_is : share.mongo_connection_string ≡ some uri
  pub database_is : share.database_name ≡ some database
  pub collection_is : share.collection_name ≡ some collection

connect_accepted :
    (d : Server) (uri database collection : Bytes) (s : HaMongodb)
    → (a : Accepts d uri database collection)
    → connect_client d uri database collection s
      ≡ (Code.ok, record s { client = some a.client; collection = some (database, collection) })
connect_accepted d uri database collection s a =
    unfold connect_client in
    rw (a.opens, connect_client) (rw (a.has_database) (rw (a.has_collection) refl))

connect-Ready :
    (d : Server) (s : HaMongodb) (share : MongodbShare) (uri database collection : Bytes)
    → s.share ≡ some share
    → Ready share uri database collection
    → connect_to_mongodb d s ≡ connect_client d uri database collection s
unfolding connect_to_mongodb connect_share
connect-Ready d s share uri database collection f r =
    simp (f, connect_to_mongodb)
      (simp (r.uri_is, r.database_is, r.collection_is, connect_share) refl)

ensure_connects :
    (d : Server) (t : HaMongodb) (share : MongodbShare) (uri database collection : Bytes)
    → t.collection ≡ none
    → t.share ≡ some share
    → Ready share uri database collection
    → (a : Accepts d uri database collection)
    → ensure_collection d t
      ≡ (Code.ok, record t { client = some a.client; collection = some (database, collection) })
unfolding ensure_collection
ensure_connects d t share uri database collection g h r a =
    simp (g, ensure_collection)
      (connect-Ready d t share uri database collection h r
        ∙ connect_accepted d uri database collection t a)

-- A table scan that has to connect first goes on as if the handler were connected.
pub rnd_init_connects :
    (d : Server) (s : HaMongodb) (share : MongodbShare) (uri database collection : Bytes)
    → s.collection ≡ none
    → s.share ≡ some share
    → Ready share uri database collection
    → (a : Accepts d uri database collection)
    → rnd_init d true s
      ≡ rnd_init d true
          (record s { client = some a.client; collection = some (database, collection) })
unfolding rnd_init reset_for_scan ensure_collection
rnd_init_connects d s share uri database collection e f r a =
    ap (begin_scan d true)
      (ensure_connects d (reset_for_scan true s) share uri database collection e f r a)

-- What `open` makes of a text, as the parser's result.
abbrev opened : (ℕ → ℕ → Bool) → Bytes → ℕ × MongodbShare
opened alloc text =
    mongodb_parse_connection_string alloc (some text)
      (record zero_share { use_count = 1; parsed = false })

-- A handler as `close` leaves it: its other fields are as they were.
abbrev pub shut : HaMongodb → HaMongodb
shut s = record s {
  share = none;
  client = none;
  collection = none;
  cursor = none;
  current_doc = none;
}

freed : (t : HaMongodb) → record (free_share t) { share = none } ≡ record t { share = none }
unfolding free_share
freed t =
    let P : HaMongodb → Type 0 = λ u. record u { share = none } ≡ record t { share = none } in
    option-both P t.share refl (λ share. if-both P (less_one share.use_count == 0) refl refl)

pub close-shut : (s : HaMongodb) → (close s).1 ≡ shut s
unfolding close disconnect_from_mongodb
close-shut s =
    option-known (λ (r : Code × HaMongodb). r.1 ≡ shut s) s.share
      (λ e. ap (λ o. record (shut s) { share = o }) e)
      (λ share e. freed (disconnect_from_mongodb s))

-- A new handler is one that was closed.
close_new : (close new_handler).1 ≡ new_handler
close_new = close-shut new_handler

open_parses :
    (alloc : ℕ → ℕ → Bool) (text : Bytes) (s : HaMongodb)
    → (opened alloc text).0 ≡ 0
    → open_table true alloc (some text) (shut s)
      ≡ (Code.ok, record (shut s) { share = some (record (opened alloc text).1 { parsed = true }) })
unfolding open_table get_share open_parsed
open_parses alloc text s h = rw h refl

-- The URI that a connection sends to the driver.
abbrev sent : Option MongodbShare → Option Bytes
sent none = none
sent (some share) = share.mongo_connection_string

abbrev pub sent_by : HaMongodb → Option Bytes
sent_by s = sent s.share

-- A closed handler after `open`, and the same handler connected, in which a scan goes on alike.
pub record Session (alloc : ℕ → ℕ → Bool) (text : Bytes) (d : Server) (s : HaMongodb) : Type 0 where
  pub share : MongodbShare
  pub client : ℕ
  pub opening :
      open_table true alloc (some text) (shut s) ≡ (Code.ok, record (shut s) { share = some share })
  pub connecting :
      rnd_init d true (record (shut s) { share = some share })
      ≡ rnd_init d true (record (shut s) {
        share = some share;
        client = some client;
        collection = some ((parse text).database, (parse text).collection);
      })

-- Where there is memory, the parse is valid and the driver accepts the URI that `open` makes.
abbrev pub Welcomes : (ℕ → ℕ → Bool) → Bytes → Server → HaMongodb → Type 0
Welcomes alloc text d s =
    (uri : Bytes)
    → sent_by (open_table true alloc (some text) (close s).1).1 ≡ some uri
    → Accepts d uri (parse text).database (parse text).collection

pub session :
    (alloc : ℕ → ℕ → Bool) (text : Bytes) (d : Server) (s : HaMongodb)
    → ((k n : ℕ) → alloc k n ≡ true)
    → (parse text).is_valid ≡ true
    → Welcomes alloc text d s
    → Session alloc text d s
session alloc text d s room v accepts =
    let fresh = record zero_share { use_count = 1; parsed = false } in
    let stores = parse-agrees alloc room text fresh v in
    let named = parse-Names alloc text fresh stores.0 in
    let share = record (opened alloc text).1 { parsed = true } in
    let o = open_parses alloc text s stores.0 in
    let uri =
      named.authority ++ b'/' ∷ (named.database ++ auth_suffix text (not (is_empty named.tail))) in
    let sends : share.mongo_connection_string ≡ some uri =
      named.mongo_uri ∙ rw (room 3 (length uri + 1)) refl in
    let a = accepts uri (rw (close-shut s) (ap (λ k. sent_by k.1) o ∙ sends)) in
    record {
      share = share;
      client = a.client;
      opening = o;
      connecting =
          rnd_init_connects d (record (shut s) { share = some share }) share uri
            (parse text).database (parse text).collection refl refl
            (record { uri_is = sends; database_is = stores.1; collection_is = stores.2 }) a;
    }

-- A handler that was closed, whatever state it was in, and opens a text that `MongoURIParser::parse`
-- accepts, where there is memory, delivers in a table scan the rows of the documents of the collection
-- that the parse names, in the order of the driver's cursor for the empty filter, with no other call
-- in between, and then ends with the end of the file or the code of the cursor's error; as long as
-- the driver accepts the URI that `open` made of the text, with that database and that collection.
-- A new handler is such a one.
pub open_scan_delivers :
    (alloc : ℕ → ℕ → Bool) (text : Bytes) (d : Server) (docs : List Doc) (error : Option Bytes)
    (fields : List Column) (s : HaMongodb)
    → ((k n : ℕ) → alloc k n ≡ true)
    → (parse text).is_valid ≡ true
    → Welcomes alloc text d s
    → d.find (some ((parse text).database, (parse text).collection)) [] FindOpts.no_timeout
      ≡ some (record { documents = map some docs; error = error })
    → ((open_table true alloc (some text) (close s).1).0 ≡ Code.ok)
      × ((rnd_init d true (open_table true alloc (some text) (close s).1).1).0 ≡ Code.ok)
      × (read_all
            (suc (length docs))
            fields
            (rnd_init d true (open_table true alloc (some text) (close s).1).1).1
          ≡ (map (row_of fields) docs, end_code error))
open_scan_delivers alloc text d docs error fields s room v accepts f =
    let t = session alloc text d s room v accepts in
    let scan =
      scan_delivers d
        (record (shut s) {
          share = some t.share;
          client = some t.client;
          collection = some ((parse text).database, (parse text).collection);
        })
        ((parse text).database, (parse text).collection) docs error fields refl f in
    rw (close-shut s, t.opening)
      (
        refl,
        ap (λ k. k.0) t.connecting ∙ scan.0,
        ap (λ k. read_all (suc (length docs)) fields k.1) t.connecting ∙ scan.1,
      )
