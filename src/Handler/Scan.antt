-- ===== src/Handler/Scan.antt =====
-- Table scans and positions: src/ha_mongodb_handler.cc.
use mongodb_engine.Base.{
  ℕ, ◌+◌, ◌-◌, ◌%◌, ◌^◌, Bool, true, false, not, ◌&&◌, ◌||◌, List, [], ◌∷◌, map, Option, none, some,
  Bytes, codes, contains_sub, ltb, if◌then◌else◌,
}
use mongodb_engine.Handler.Defs.{
  Column, Code, Doc, Filter, Cursor, FindOpts, Server, HaMongodb, next_row, advanced,
}
use mongodb_engine.Handler.Connect.{connect_to_mongodb}
use mongodb_engine.Handler.Convert.{Cell, convert_document_to_row}

-- `bson_copy` of the pushed condition, or `bson_new`.
abbrev pub query_of : Option Filter → Filter
query_of none = []
query_of (some filter) = filter

abbrev pub is_there {ℓ} : {A : Type ℓ} → Option A → Bool
is_there none = false
is_there (some _) = true

-- `cursor = ...`, which every operation that has the driver open a cursor goes through: a cursor that is
-- still there is overwritten, and not destroyed.
abbrev pub lose : Option Cursor → ℕ → ℕ
lose none lost = lost
lose (some _) lost = lost + 1

abbrev pub assign_cursor : Option Cursor → HaMongodb → HaMongodb
assign_cursor cursor s = record s { cursor = cursor; lost_cursors = lose s.cursor s.lost_cursors }

-- `mongoc_cursor_destroy`, and the null pointer behind it.
abbrev pub destroy_cursor : HaMongodb → HaMongodb
destroy_cursor s = record s { cursor = none }

unfoldable pub reset_for_scan : Bool → HaMongodb → HaMongodb
reset_for_scan false s = record s { lightweight_count_mode = false; consecutive_rnd_next_calls = 0 }
reset_for_scan true s = record s {
  lightweight_count_mode = false;
  consecutive_rnd_next_calls = 0;
  count_mode = false;
  mongo_count_result = 0;
  mongo_count_returned = 0;
  pushed_condition = none;
}

unfoldable pub ensure_collection : Server → HaMongodb → Code × HaMongodb
ensure_collection d s = elim s.collection [ some _ ↦ (Code.ok, s) | none ↦ connect_to_mongodb d s ]

unfoldable pub start_tracking : Bool → HaMongodb → HaMongodb
start_tracking false s = s
start_tracking true s = record s { count_performance_tracking = true; documents_scanned = 0 }

-- The branch of `count_mode`.
unfoldable pub count_scan : Server → HaMongodb → Code × HaMongodb
count_scan d s = elim (d.count_documents s.collection (query_of s.pushed_condition)) [
  | none ↦ (Code.internal_error, s)
  | some count ↦ (Code.ok, record s { mongo_count_result = count; mongo_count_returned = 0 })
]

unfoldable pub find_scan : Server → FindOpts → HaMongodb → Code × HaMongodb
find_scan d opts s = elim (d.find s.collection (query_of s.pushed_condition) opts) [
  | none ↦ (Code.internal_error, assign_cursor none s)
  | some cursor ↦ (Code.ok, record (assign_cursor (some cursor) s) { current_doc = none })
]

-- The branch of documents. `use_mongodb_sort` is false.
unfoldable pub document_scan : Server → Bool → HaMongodb → Code × HaMongodb
document_scan d scan s =
    let t = record s { scan_position = 0 } in
    if is_there t.pushed_condition && scan
    then elim (d.count_documents t.collection (query_of t.pushed_condition)) [
      | none ↦ find_scan d FindOpts.no_timeout t
      | some count ↦
          find_scan d FindOpts.ids_only
            (record t { mongo_count_result = count; mongo_count_returned = 0 })
    ]
    else find_scan d FindOpts.no_timeout t

unfoldable pub begin_scan : Server → Bool → Code × HaMongodb → Code × HaMongodb
begin_scan d scan (Code.ok, s) =
    let t = start_tracking scan s in if t.count_mode then count_scan d t else document_scan d scan t
begin_scan d scan (code, s) = (code, s)

unfoldable pub rnd_init : Server → Bool → HaMongodb → Code × HaMongodb
rnd_init d scan s = begin_scan d scan (ensure_collection d (reset_for_scan scan s))

-- A read's result, the row that it left in the buffer, and the handler.
pub record Read : Type 0 where
  pub code : Code
  pub row : Option (List Cell)
  pub handler : HaMongodb

abbrev pub failing : Code → HaMongodb → Read
failing code s = record { code = code; row = none; handler = s }

-- What a read's error is for MariaDB, by the words of its message.
unfoldable pub error_code : Bytes → Code
error_code message =
    if contains_sub (codes "connection refused") message
      || contains_sub (codes "No suitable servers found") message
    then Code.no_connection
    else if contains_sub (codes "Authentication failed") message
        || contains_sub (codes "not authorized") message
    then Code.no_connection
    else if contains_sub (codes "Collection") message && contains_sub (codes "not found") message
    then Code.no_such_table
    else Code.internal_error

-- The counters that each `rnd_next` moves. The switch to the lightweight mode stands behind a `false`.
unfoldable pub count_call : HaMongodb → HaMongodb
count_call s = record s {
  consecutive_rnd_next_calls = s.consecutive_rnd_next_calls + 1;
  documents_scanned =
      if s.count_performance_tracking then next_row s.documents_scanned else s.documents_scanned;
}

unfoldable pub deliver : List Column → Option Doc → HaMongodb → Read
deliver fields doc s =
    if s.lightweight_count_mode
    then record {
      code = Code.ok;
      row = some (map (λ _. Cell.zeros) fields);
      handler = record s {
        scan_position = next_row s.scan_position;
        consecutive_rnd_next_calls = 0;
      };
    }
    else elim (convert_document_to_row fields doc) [
      | none ↦ failing Code.internal_error s
      | some row ↦ record {
        code = Code.ok;
        row = some row;
        handler = record s { scan_position = next_row s.scan_position };
      }
    ]

-- `current_doc` after a `mongoc_cursor_next` that finds nothing is read by no operation.
unfoldable pub next_document : List Column → Cursor → HaMongodb → Read
next_document fields cursor s = elim cursor.documents [
  | [] ↦ elim cursor.error [
    | none ↦ failing Code.end_of_file (record s { cursor = some (advanced none) })
    | some message ↦ failing (error_code message) s
  ]
  | d ∷ rest ↦
      let t = record s { cursor = some (record cursor { documents = rest }); current_doc = d } in
      if not (is_there d) then failing Code.internal_error t else deliver fields d t
]

-- `fields` are the table's columns.
unfoldable pub rnd_next : List Column → HaMongodb → Read
rnd_next fields s = if s.count_mode then failing Code.end_of_file s else elim s.cursor [
  | none ↦ failing Code.end_of_file (count_call s)
  | some cursor ↦ next_document fields cursor (count_call s)
]

unfoldable pub rnd_end : HaMongodb → Code × HaMongodb
rnd_end s = (
  Code.ok,
  record s {
    count_performance_tracking = false;
    consecutive_rnd_next_calls = 0;
    lightweight_count_mode = false;
    cursor = none;
    current_doc = none;
    count_mode = false;
    mongo_count_result = 0;
    mongo_count_returned = 0;
  },
)

-- `ref` has 8 bytes, so `my_store_ptr` and `my_get_ptr` keep all of a 64-bit position.
unfoldable pub position : HaMongodb → HaMongodb
position s = record s { ref = (s.scan_position + 2 ^ 64 - 1) % 2 ^ 64 }

-- The loop that skips documents: whether it gets to the target, where it stops, what is left. Where it
-- does not get there its last `mongoc_cursor_next` has found nothing.
unfoldable pub skip_to : ℕ → ℕ → List (Option Doc) → Bool × (ℕ × List (Option Doc))
skip_to target at [] = (not (ltb at target), (at, []))
skip_to target at (d ∷ ds) =
    let rest = skip_to target (next_row at) ds in
    if ltb at target then rest else (true, (at, d ∷ ds))

unfoldable pub seek : List Column → ℕ → HaMongodb → Read
seek fields target s = elim s.cursor [
  | none ↦ if ltb s.scan_position target then failing Code.key_not_found s else rnd_next fields s
  | some cursor ↦
      let skipped = skip_to target s.scan_position cursor.documents in
      let t = record s {
        cursor = some (record cursor { documents = skipped.1.1 });
        scan_position = skipped.1.0;
      } in
      if skipped.0
      then rnd_next fields t
      else failing Code.key_not_found (record t { cursor = some (advanced cursor.error) })
]

-- The rewind: the old cursor is destroyed.
unfoldable pub rewind : Server → List Column → ℕ → HaMongodb → Read
rewind d fields target s =
    if ltb target s.scan_position
    then (let t = destroy_cursor s in
        elim (d.find t.collection [] FindOpts.plain) [
          | none ↦ failing Code.internal_error (assign_cursor none t)
          | some cursor ↦
              seek fields target (record (assign_cursor (some cursor) t) { scan_position = 0 })
        ])
    else seek fields target s

unfoldable pub rewind_if : Server → List Column → ℕ → Code × HaMongodb → Read
rewind_if d fields target (Code.ok, s) = rewind d fields target s
rewind_if d fields target (code, s) = failing code s

unfoldable pub rnd_pos : Server → List Column → Option ℕ → HaMongodb → Read
rnd_pos d fields none s = failing Code.wrong_command s
rnd_pos d fields (some target) s =
    if not (is_there s.collection)
    then failing Code.wrong_command s
    else if not (is_there s.cursor)
    then rewind_if d fields target (rnd_init d true s)
    else rewind d fields target s
