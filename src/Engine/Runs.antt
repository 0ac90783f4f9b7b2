-- ===== src/Engine/Runs.antt =====
-- A handler that was closed and the abstract scanner.
use mongodb_engine.Base.{
  ◌<◌, ◌^◌, arith, ℕ, ◌≡◌, refl, ap, ◌∙◌, Bool, true, false, List, [], ◌∷◌, map, none, some, Bytes,
  length,
}
use mongodb_engine.Uri.Parse.{parse}
use mongodb_engine.Handler.Defs.{Column, Collection, Code, Doc, FindOpts, Server, HaMongodb}
use mongodb_engine.Handler.Connect.{open_table, close}
use mongodb_engine.Handler.Scan.{
  rnd_init, reset_for_scan, ensure_collection, begin_scan, start_tracking, document_scan,
}
use mongodb_engine.Handler.Scanner.{Ask, Scanner, replies, answers}
use mongodb_engine.Handler.Scanner.Refines.{run_refines}
use mongodb_engine.Handler.FullScan.{row_of}
use mongodb_engine.Engine.{Welcomes, shut, close-shut, session}

-- A scanner that is at rest and has a handler's position.
abbrev pub idle : HaMongodb → Scanner
idle s = record { reading = false; place = 0; ref = s.ref; spent = false }

-- The start of a table scan does not ask what the handler did before.
rested : HaMongodb → HaMongodb
rested s = record s { scan_position = 0; count_mode = false; lightweight_count_mode = false }

start-rested :
    (d : Server) (s : HaMongodb) (c : Collection)
    → s.collection ≡ some c
    → rnd_init d true s ≡ rnd_init d true (rested s)
unfolding rnd_init reset_for_scan ensure_collection begin_scan start_tracking document_scan rested
start-rested d s c e = simp (e)

-- Where there is memory, `MongoURIParser::parse` accepts the text, the driver accepts the URI that
-- `open` made of it with the database and the collection of the parse, and the driver gives the same
-- fewer than 2^64 documents with no error for every `find` with the empty filter on that
-- collection: a handler that was closed, whatever state it was in, and opens the text replies to the
-- start of a table scan, and to whatever MariaDB asks around that scan behind it, as the abstract
-- scanner of the rows. A new handler is such a one.
pub open_run_refines :
    (alloc : ℕ → ℕ → Bool) (text : Bytes) (d : Server) (docs : List Doc) (fields : List Column)
    (qs : List Ask) (s : HaMongodb)
    → ((k n : ℕ) → alloc k n ≡ true)
    → (parse text).is_valid ≡ true
    → Welcomes alloc text d s
    → ((o : FindOpts)
        → d.find (some ((parse text).database, (parse text).collection)) [] o
          ≡ some (record { documents = map some docs; error = none }))
    → length docs < 2 ^ 64
    → replies d fields (Ask.start ∷ qs) (open_table true alloc (some text) (close s).1).1
      ≡ answers (map (row_of fields) docs) (Ask.start ∷ qs) (idle s)
open_run_refines alloc text d docs fields qs s room v accepts whole few =
    let t = session alloc text d s room v accepts in
    let collection : Collection = ((parse text).database, (parse text).collection) in
    let connected : HaMongodb = record (shut s) {
      share = some t.share;
      client = some t.client;
      collection = some collection;
    } in
    rw (close-shut s, t.opening)
      (unfold replies in
        ap (λ (r : Code × HaMongodb). (r.0, none) ∷ replies d fields qs r.1)
          (t.connecting ∙ start-rested d connected collection refl)
        ∙ run_refines d fields collection docs whole few (Ask.start ∷ qs) (idle s)
            (rested connected)
            (unfold rested in
              record {
                connected = refl;
                held = refl;
                placed = refl;
                within = omega arith;
                marked = refl;
                uncounted = refl;
                full = refl;
              }))
