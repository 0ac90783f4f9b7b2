-- ===== src/Handler/Index.antt =====
-- Index and range reads: src/ha_mongodb_handler.cc.
use mongodb_engine.Base.{ℕ, List, [], ◌∷◌, map, Option, none, some, if◌then◌else◌}
use mongodb_engine.Handler.Defs.{Column, Code, Doc, Cursor, FindOpts, Server, HaMongodb, advanced}
use mongodb_engine.Handler.Convert.{Cell, convert_document_to_row}
use mongodb_engine.Handler.Scan.{
  assign_cursor, destroy_cursor, Read, failing, query_of, ensure_collection,
}

unfoldable pub index_init : ℕ → HaMongodb → Code × HaMongodb
index_init keynr s = (Code.ok, record s { active_index = keynr })

-- The cleared row, or the document's.
unfoldable pub index_row : List Column → Option Doc → HaMongodb → Read
index_row fields doc s =
    if s.key_read_mode
    then record { code = Code.ok; row = some (map (λ _. Cell.zeros) fields); handler = s }
    else elim (convert_document_to_row fields doc) [
      | none ↦ failing Code.internal_error s
      | some row ↦ record { code = Code.ok; row = some row; handler = s }
    ]

-- The read that `index_read_map` and `index_next` share.
unfoldable pub index_fetch : List Column → Cursor → HaMongodb → Read
index_fetch fields cursor s = elim cursor.documents [
  | [] ↦ elim cursor.error [
    | none ↦ failing Code.end_of_file (record s { cursor = some (advanced none) })
    | some _ ↦ failing Code.internal_error s
  ]
  | d ∷ rest ↦
      index_row fields d
        (record s { cursor = some (record cursor { documents = rest }); current_doc = d })
]

unfoldable pub index_open : Server → List Column → HaMongodb → Read
index_open d fields s = elim s.cursor [
  | some cursor ↦ index_fetch fields cursor s
  | none ↦ elim (d.find s.collection (query_of s.pushed_condition) FindOpts.plain) [
    | none ↦ failing Code.internal_error (assign_cursor none s)
    | some cursor ↦
        index_fetch fields cursor
          (record (assign_cursor (some cursor) s) { current_doc = none; scan_position = 0 })
  ]
]

unfoldable pub index_connected : Server → List Column → Code × HaMongodb → Read
index_connected d fields (Code.ok, s) = index_open d fields s
index_connected d fields (code, s) = failing Code.internal_error s

-- The key, the parts of it and the flag are not used.
unfoldable pub index_read_map : Server → List Column → HaMongodb → Read
index_read_map d fields s = index_connected d fields (ensure_collection d s)

unfoldable pub index_read : Server → List Column → HaMongodb → Read
index_read d fields s = index_read_map d fields s

unfoldable pub index_next : List Column → HaMongodb → Read
index_next fields s = elim s.cursor [
  | none ↦ failing Code.end_of_file s
  | some cursor ↦ index_fetch fields cursor s
]

unfoldable pub index_end : HaMongodb → Code × HaMongodb
index_end s = (Code.ok, record (destroy_cursor s) { current_doc = none })

-- The collection may be null here.
unfoldable pub read_range_first : Server → HaMongodb → Code × HaMongodb
read_range_first d s =
    let t = destroy_cursor s in
    elim (d.find t.collection [] FindOpts.plain) [
      | none ↦ (Code.internal_error, assign_cursor none t)
      | some cursor ↦ (Code.ok, assign_cursor (some cursor) t)
    ]

unfoldable pub range_fetch : Cursor → HaMongodb → Code × HaMongodb
range_fetch cursor s = elim cursor.documents [
  | [] ↦ elim cursor.error [
    | none ↦ (Code.end_of_file, record s { cursor = some (advanced none) })
    | some _ ↦ (Code.internal_error, s)
  ]
  | d ∷ rest ↦
      (Code.ok, record s { cursor = some (record cursor { documents = rest }); current_doc = d })
]

-- No row is written, in either mode.
unfoldable pub read_range_next : HaMongodb → Code × HaMongodb
read_range_next s = elim s.cursor [
  | none ↦ (Code.end_of_file, s)
  | some cursor ↦ range_fetch cursor s
]
