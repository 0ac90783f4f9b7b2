-- ===== src/Handler/Tests.antt =====
-- Runs of the handler, and the theorems at a concrete server.
use mongodb_engine.Base.{
  ℕ, ◌≡◌, ◌≢◌, map, ◌↔◌, refl, true, false, List, [], ◌∷◌, none, some, codes, arith, str_eq,
  is_empty, if◌then◌else◌, contains_sub, starts_with,
}
use mongodb_engine.Base.Int.{pos}
use mongodb_engine.Share.Defs.{zero_share}
use mongodb_engine.Handler.Defs.{
  Column, Code, Doc, BsonValue, Cursor, Collection, Server, HaMongodb, new_handler,
}
use mongodb_engine.Handler.Convert.{to_double, Cell, iter_find, convert_document_to_row}
use mongodb_engine.Handler.Scan.{rnd_init, rnd_next, position, rnd_pos, error_code}
use mongodb_engine.Handler.Stats.{Extra, cond_push, cond_pop, count_records}
use mongodb_engine.Handler.Ops.{Call, Reach, run}
use mongodb_engine.Handler.Modes.{Modes}
use mongodb_engine.Handler.Modes.Runs.{Reach-Modes}
use mongodb_engine.Handler.Rows.{cell_of, convert_document_to_row-null}
use mongodb_engine.Handler.FullScan.{read_all, row_of, scan_delivers}
use mongodb_engine.Handler.Seek.{Stands, position-rnd_pos}
use mongodb_engine.Handler.Connect.{connect_to_mongodb}
use mongodb_engine.Handler.Connection.{Verdict, connect_cases}
use mongodb_engine.Handler.Finite.{read_all_ends}
use mongodb_engine.Handler.IndexScan.{
  index_all, index_row_of, index_all_delivers, range_all, range_all_counts,
}
use mongodb_engine.Handler.Cursors.Runs.{Reach-lost}
use mongodb_engine.Handler.Scanner.{Ask, Scanner, replies, answers}
use mongodb_engine.Handler.Scanner.Refines.{run_refines}
use mongodb_engine.Handler.Pushdown.{rnd_init-cond_push, count_records-cond_push}

abbrev doc : ℕ → Doc
doc n = record {
  fields = (codes "a", BsonValue.int32 (pos n)) ∷ (codes "b", BsonValue.null) ∷ [];
  relaxed_json = none;
  canonical_json = none;
}

abbrev columns : List Column
columns =
    map (λ name. record { name = name; maybe_null = true })
      (codes "_id" ∷ codes "document" ∷ codes "a" ∷ codes "x" ∷ [])

abbrev cursor : Cursor
cursor = record { documents = some (doc 1) ∷ some (doc 2) ∷ []; error = none }

abbrev server : Server
server = record {
  client_new = λ s. some 1;
  get_database = λ c s. true;
  get_collection = λ d c. true;
  count_documents = λ c f. some (if is_empty f then 2 else 1);
  find = λ c f o. some cursor;
}

abbrev handle : Collection
handle = (codes "d", codes "c")

abbrev connected : HaMongodb
connected = record new_handler { client = some 1; collection = some handle }

abbrev scanning : HaMongodb
scanning = record connected { cursor = some cursor }

message : error_code (codes "Collection x not found") ≡ Code.no_such_table
unfolding error_code contains_sub starts_with
message = refl

scan_delivers_example :
    ((rnd_init server true connected).0 ≡ Code.ok)
    × (read_all 3 columns (rnd_init server true connected).1
        ≡ (row_of columns (doc 1) ∷ row_of columns (doc 2) ∷ [], Code.end_of_file))
scan_delivers_example =
    scan_delivers server connected handle (doc 1 ∷ doc 2 ∷ []) none columns refl refl

standing : Stands (doc 1 ∷ doc 2 ∷ []) 0 scanning
standing = (refl, refl, refl, refl)

position-rnd_pos_example :
    (rnd_pos server columns (some (position (rnd_next columns scanning).handler).ref) scanning).row
    ≡ (rnd_next columns scanning).row
position-rnd_pos_example =
    position-rnd_pos server columns handle [] (doc 2 ∷ []) (doc 1) 0 scanning scanning refl refl
      (omega arith) (record { here = refl; numbered = refl; uncounted = refl; full = refl })
      standing

Reach-Modes_example : Modes (run (Call.rnd_init server true) new_handler)
Reach-Modes_example = Reach-Modes (Reach.call Reach.fresh (Call.rnd_init server true))

rnd_init-cond_push_example :
    ((cond_push (some 9) connected).0 ≡ none)
    × (rnd_init server true (cond_push (some 9) connected).1 ≡ rnd_init server true connected)
rnd_init-cond_push_example = rnd_init-cond_push server 9 connected

count_records-cond_push_example :
    (count_records server (cond_push (some 9) connected).1 ≡ 1)
    × (count_records server (cond_pop (cond_push (some 9) connected).1) ≡ 2)
count_records-cond_push_example =
    count_records-cond_push server 9 connected handle 1 2 refl refl refl

abbrev column_x : Column
column_x = record { name = codes "x"; maybe_null = true }

rounds : to_double (pos 9007199254740993) ≡ pos 9007199254740992
rounds = refl

rounds_to_even : to_double (pos 9007199254740995) ≡ pos 9007199254740996
rounds_to_even = refl

keeps_int32 : to_double (pos 2147483647) ≡ pos 2147483647
keeps_int32 = refl

convert_document_to_row-null_example :
    (cell_of (codes "x") columns (row_of columns (doc 1)) ≡ some Cell.null)
    ↔ ((iter_find (codes "x") (doc 1).fields ≡ none) × (true ≡ true))
unfolding str_eq convert_document_to_row
convert_document_to_row-null_example =
    convert_document_to_row-null columns (doc 1) column_x (row_of columns (doc 1)) refl refl refl
      refl

abbrev asks : List Ask
asks =
    Ask.seek 1
    ∷ Ask.next
    ∷ Ask.next
    ∷ Ask.push (some 9)
    ∷ Ask.hint Extra.keyread
    ∷ Ask.next
    ∷ Ask.seek 7
    ∷ Ask.stop
    ∷ []

abbrev idle : Scanner
idle = record { reading = false; place = 0; ref = 0; spent = false }

run_refines_example :
    replies server columns asks connected
    ≡ answers (map (row_of columns) (doc 1 ∷ doc 2 ∷ [])) asks idle
run_refines_example =
    run_refines server columns handle (doc 1 ∷ doc 2 ∷ []) (λ o. refl) (omega arith) asks idle
      connected
      (record {
        connected = refl;
        held = refl;
        placed = refl;
        within = omega arith;
        marked = refl;
        uncounted = refl;
        full = refl;
      })

read_all_ends_example : (read_all 3 columns scanning).1 ≢ Code.ok
read_all_ends_example = read_all_ends columns scanning

index_all_delivers_example :
    index_all server 2 columns (record connected { key_read_mode = true })
    ≡ (map (index_row_of true columns) (doc 1 ∷ doc 2 ∷ []), Code.end_of_file)
index_all_delivers_example =
    index_all_delivers server (record connected { key_read_mode = true }) (doc 1 ∷ doc 2 ∷ []) none
      columns handle refl refl refl

range_all_counts_example : range_all server 3 connected ≡ (3, Code.end_of_file)
range_all_counts_example =
    range_all_counts server connected (doc 1 ∷ doc 2 ∷ []) none handle refl refl

abbrev scanned_once : Reach (run Call.rnd_end (run (Call.rnd_init server true) new_handler))
scanned_once = Reach.call (Reach.call Reach.fresh (Call.rnd_init server true)) Call.rnd_end

Reach-lost_example :
    (run Call.rnd_end (run (Call.rnd_init server true) new_handler)).lost_cursors ≡ 0
Reach-lost_example = Reach-lost scanned_once (tt, (refl, tt))

abbrev opened : HaMongodb
opened = record new_handler {
  share = some (record zero_share {
    mongo_connection_string = some (codes "mongodb://a/d");
    database_name = some (codes "d");
    collection_name = some (codes "c");
  });
}

connect_cases_example : Verdict server opened (connect_to_mongodb server opened)
connect_cases_example = connect_cases server opened refl
