-- ===== src/Engine/Tests.antt =====
-- The engine at a concrete server.
use mongodb_engine.Base.{
  arith, ◌↔◌, ◌≤◌, find, find_sub, starts_with, ◌≡◌, refl, true, List, [], ◌∷◌, map, none, some,
  codes,
}
use mongodb_engine.Base.Int.{pos}
use mongodb_engine.Share.Tests.{plenty, accepted}
use mongodb_engine.Handler.Defs.{Column, Code, Doc, BsonValue, Server, HaMongodb, new_handler}
use mongodb_engine.Handler.Connect.{
  free_share, open_table, close, get_share, open_parsed, connect_to_mongodb, connect_share,
  connect_client,
}
use mongodb_engine.Handler.Scan.{
  rnd_init, reset_for_scan, ensure_collection, begin_scan, start_tracking, document_scan, find_scan,
}
use mongodb_engine.Handler.FullScan.{read_all, row_of}
use mongodb_engine.Share.Parse.{
  store_names, parse_path, parse_text, mongodb_parse_connection_string,
}
use mongodb_engine.Handler.Ops.{Call, Reach, run}
use mongodb_engine.Handler.Uses.{uses, count_of, Reach-uses}
use mongodb_engine.Handler.Provenance.{IsNamed}
use mongodb_engine.Handler.Provenance.Runs.{Opened, Reach-IsNamed}
use mongodb_engine.Handler.Scanner.{Ask, replies, answers}
use mongodb_engine.Engine.{open_scan_delivers}
use mongodb_engine.Engine.Runs.{idle, open_run_refines}

abbrev doc : Doc
doc = record {
  fields = (codes "a", BsonValue.int32 (pos 1)) ∷ [];
  relaxed_json = none;
  canonical_json = none;
}

abbrev columns : List Column
columns = record { name = codes "a"; maybe_null = true } ∷ []

abbrev server : Server
server = record {
  client_new = λ s. some 1;
  get_database = λ c s. true;
  get_collection = λ d c. true;
  count_documents = λ c f. some 1;
  find = λ c f o. some (record { documents = some doc ∷ []; error = none });
}

-- A handler in the middle of a scan, with a condition that was pushed.
abbrev used : HaMongodb
used = record new_handler {
  collection = some (codes "d", codes "old");
  cursor = some (record { documents = []; error = none });
  pushed_condition = some ((codes "city", codes "Paris") ∷ []);
  count_mode = true;
  scan_position = 7;
  ref = 6;
}

open_scan_delivers_example :
    ((open_table true plenty (some (codes "mongodb://a/d/c")) (close used).1).0 ≡ Code.ok)
    × ((rnd_init server true
          (open_table true plenty (some (codes "mongodb://a/d/c")) (close used).1).1).0
        ≡ Code.ok)
    × (read_all 2 columns
          (rnd_init server true
            (open_table true plenty (some (codes "mongodb://a/d/c")) (close used).1).1).1
        ≡ (map (row_of columns) (doc ∷ []), Code.end_of_file))
open_scan_delivers_example =
    open_scan_delivers plenty (codes "mongodb://a/d/c") server (doc ∷ []) none columns used
      (λ k n. refl) accepted
      (λ uri e. record { client = 1; opens = refl; has_database = refl; has_collection = refl })
      refl

abbrev asks : List Ask
asks = Ask.next ∷ Ask.next ∷ Ask.seek 0 ∷ Ask.stop ∷ []

open_run_refines_example :
    replies server columns
      (Ask.start ∷ asks)
      (open_table true plenty (some (codes "mongodb://a/d/c")) (close used).1).1
    ≡ answers (map (row_of columns) (doc ∷ [])) (Ask.start ∷ asks) (idle used)
open_run_refines_example =
    open_run_refines plenty (codes "mongodb://a/d/c") server (doc ∷ []) columns asks used
      (λ k n. refl) accepted
      (λ uri e. record { client = 1; opens = refl; has_database = refl; has_collection = refl })
      (λ o. refl) (omega arith)

abbrev life : Reach (
    run
      (Call.rnd_init server true)
      (run (Call.open_table true plenty (some (codes "mongodb://a/d/c"))) new_handler))
life =
    Reach.call
      (Reach.call Reach.fresh (Call.open_table true plenty (some (codes "mongodb://a/d/c"))))
      (Call.rnd_init server true)

reads_d_c :
    (run
      (Call.rnd_init server true)
      (run (Call.open_table true plenty (some (codes "mongodb://a/d/c"))) new_handler)).collection
    ≡ some (codes "d", codes "c")
unfolding mongodb_parse_connection_string parse_text parse_path store_names find_sub find
    starts_with open_table get_share open_parsed rnd_init reset_for_scan ensure_collection
    connect_to_mongodb connect_share connect_client begin_scan start_tracking document_scan
    find_scan
reads_d_c = refl

Reach-IsNamed_example : IsNamed (Opened life) (codes "d", codes "c")
Reach-IsNamed_example = Reach-IsNamed life (codes "d", codes "c") reads_d_c

abbrev twice : Reach (
    run
      (Call.open_table true plenty (some (codes "mongodb://a/d/c")))
      (run (Call.open_table true plenty (some (codes "mongodb://a/d/c"))) new_handler))
twice =
    Reach.call
      (Reach.call Reach.fresh (Call.open_table true plenty (some (codes "mongodb://a/d/c"))))
      (Call.open_table true plenty (some (codes "mongodb://a/d/c")))

opened_twice : uses twice ≡ 2
unfolding mongodb_parse_connection_string parse_text parse_path store_names find_sub find
    starts_with open_table get_share open_parsed
opened_twice = refl

Reach-uses_example :
    (count_of
        (open_table true plenty
          (some (codes "mongodb://a/d/c"))
          (open_table true plenty (some (codes "mongodb://a/d/c")) new_handler).1).1.share
      ≡ uses twice)
    × (((free_share
            (open_table true plenty
              (some (codes "mongodb://a/d/c"))
              (open_table true plenty (some (codes "mongodb://a/d/c")) new_handler).1).1).share
          ≡ none)
        ↔ (uses twice ≤ 1))
Reach-uses_example = Reach-uses twice (omega (arith, opened_twice))
