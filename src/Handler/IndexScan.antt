-- ===== src/Handler/IndexScan.antt =====
-- Whole index scans and range reads: src/ha_mongodb_handler.cc.
use mongodb_engine.Base.{
  ℕ, suc, zero, ◌+◌, ◌≡◌, refl, ap, ◌∙◌, Bool, true, false, List, [], ◌∷◌, map, Option, none, some,
  Bytes, length, arith, if◌then◌else◌, option-known,
}
use mongodb_engine.Handler.Defs.{Column, Code, Doc, Cursor, Collection, FindOpts, Server, HaMongodb}
use mongodb_engine.Handler.Convert.{Cell, convert_document_to_row}
use mongodb_engine.Handler.Scan.{lose, Read, query_of, ensure_collection}
use mongodb_engine.Handler.FullScan.{gather, row_of}
use mongodb_engine.Handler.Index.{
  index_row, index_fetch, index_open, index_connected, index_read_map, index_next, read_range_first,
  range_fetch, read_range_next,
}

-- `index_next` until a read gives no row.
abbrev index_rest : ℕ → List Column → HaMongodb → List (List Cell) × Code
index_rest zero fields s = ([], Code.ok)
index_rest (suc n) fields s =
    let r = index_next fields s in gather r.row r.code (index_rest n fields r.handler)

-- The first read of an index scan, and those behind it.
abbrev pub index_all : Server → ℕ → List Column → HaMongodb → List (List Cell) × Code
index_all d n fields s =
    let r = index_read_map d fields s in gather r.row r.code (index_rest n fields r.handler)

-- In the key read mode a row is cleared and nothing is put into it.
abbrev pub index_row_of : Bool → List Column → Doc → List Cell
index_row_of key_read_mode fields doc =
    if key_read_mode then map (λ _. Cell.zeros) fields else row_of fields doc

abbrev pub index_end_code : Option Bytes → Code
index_end_code none = Code.end_of_file
index_end_code (some message) = Code.internal_error

abbrev cursor_of : List Doc → Option Bytes → Cursor
cursor_of docs error = record { documents = map some docs; error = error }

-- One call more, if it succeeds.
abbrev tally : Code → ℕ × Code → ℕ × Code
tally Code.ok rest = (rest.0 + 1, rest.1)
tally code rest = (0, code)

-- A read that has a document.
abbrev Gives : Bool → List Column → Doc → List Doc → Option Bytes → Read → Type 0
Gives mode fields doc rest error r =
    (r.row ≡ some (index_row_of mode fields doc))
    × (r.handler.cursor ≡ some (cursor_of rest error))
    × (r.handler.key_read_mode ≡ mode)

index_fetch-Gives :
    (fields : List Column) (doc : Doc) (rest : List Doc) (error : Option Bytes) (mode : Bool)
    (s : HaMongodb)
    → s.key_read_mode ≡ mode
    → Gives mode fields doc rest error (index_fetch fields (cursor_of (doc ∷ rest) error) s)
unfolding index_fetch index_row convert_document_to_row
index_fetch-Gives fields doc rest error true s e = simp (e) (refl, refl, refl)
index_fetch-Gives fields doc rest error false s e = simp (e) (refl, refl, refl)

index_next_step :
    (fields : List Column) (cursor : Cursor) (s : HaMongodb)
    → s.cursor ≡ some cursor
    → index_next fields s ≡ index_fetch fields cursor s
unfolding index_next
index_next_step fields cursor s e = simp (e, index_next) refl

-- A read and those behind it.
abbrev on : ℕ → List Column → Read → List (List Cell) × Code
on n fields r = gather r.row r.code (index_rest n fields r.handler)

fetched :
    (fields : List Column) (docs : List Doc) (error : Option Bytes) (mode : Bool) (s : HaMongodb)
    → s.key_read_mode ≡ mode
    → on (length docs) fields (index_fetch fields (cursor_of docs error) s)
      ≡ (map (index_row_of mode fields) docs, index_end_code error)
fetched fields [] none mode s e = unfold index_fetch in refl
fetched fields [] (some m) mode s e = unfold index_fetch in refl
fetched fields (doc ∷ rest) error mode s e =
    let r = index_fetch fields (cursor_of (doc ∷ rest) error) s in
    let g = index_fetch-Gives fields doc rest error mode s e in
    rw (g.0) (
      ap (λ p. (index_row_of mode fields doc ∷ p.0, p.1))
        (ap (on (length rest) fields) (index_next_step fields (cursor_of rest error) r.handler g.1)
          ∙ fetched fields rest error mode r.handler g.2))

index_read_map-opens :
    (d : Server) (s : HaMongodb) (cursor : Cursor) (fields : List Column) (c : Collection)
    → s.collection ≡ some c
    → s.cursor ≡ none
    → d.find (some c) (query_of s.pushed_condition) FindOpts.plain ≡ some cursor
    → index_read_map d fields s
      ≡ index_fetch fields cursor
          (record s { cursor = some cursor; current_doc = none; scan_position = 0 })
unfolding index_read_map
index_read_map-opens d s cursor fields c e n f =
    let g : d.find s.collection (query_of s.pushed_condition) FindOpts.plain ≡ some cursor =
      ap (λ k. d.find k (query_of s.pushed_condition) FindOpts.plain) e ∙ f in
    let connected : ensure_collection d s ≡ (Code.ok, s) =
      unfold ensure_collection in
      option-known (λ k. k ≡ (Code.ok, s)) s.collection (λ m. absurd (cc)) (λ k m. refl) in
    ap (index_connected d fields) connected
    ∙ unfold index_connected index_open in
      simp (n, index_open)
        (rw g (
          ap
            (λ k. index_fetch fields cursor (record s {
              cursor = some cursor;
              current_doc = none;
              scan_position = 0;
              lost_cursors = k;
            }))
            (ap (λ o. lose o s.lost_cursors) n)))

-- An index scan of a connected handler without an open cursor delivers the documents of the driver's
-- cursor for the pushed condition, or for the empty filter if there is none, in its order: a cleared
-- row for each in the key read mode, and its row otherwise; behind the last one it ends with the end of
-- the file or, whatever the cursor's error says, with an internal error.
pub index_all_delivers :
    (d : Server) (s : HaMongodb) (docs : List Doc) (error : Option Bytes) (fields : List Column)
    (c : Collection)
    → s.collection ≡ some c
    → s.cursor ≡ none
    → d.find (some c) (query_of s.pushed_condition) FindOpts.plain
      ≡ some (record { documents = map some docs; error = error })
    → index_all d (length docs) fields s
      ≡ (map (index_row_of s.key_read_mode fields) docs, index_end_code error)
index_all_delivers d s docs error fields c e n f =
    let t = record s {
      cursor = some (cursor_of docs error);
      current_doc = none;
      scan_position = 0;
    } in
    ap (on (length docs) fields) (index_read_map-opens d s (cursor_of docs error) fields c e n f)
    ∙ fetched fields docs error s.key_read_mode t refl

-- `read_range_next` until a call fails: how many succeed.
abbrev range_rest : ℕ → HaMongodb → ℕ × Code
range_rest zero s = (0, Code.ok)
range_rest (suc n) s = let r = read_range_next s in tally r.0 (range_rest n r.1)

-- A range read, and how many of its calls succeed.
abbrev pub range_all : Server → ℕ → HaMongodb → ℕ × Code
range_all d n s = let r = read_range_first d s in tally r.0 (range_rest n r.1)

read_range_next_step :
    (cursor : Cursor) (s : HaMongodb)
    → s.cursor ≡ some cursor
    → read_range_next s ≡ range_fetch cursor s
unfolding read_range_next
read_range_next_step cursor s e = simp (e, read_range_next) refl

-- A call and those behind it.
abbrev ranging : ℕ → Code × HaMongodb → ℕ × Code
ranging n r = tally r.0 (range_rest n r.1)

ranged :
    (docs : List Doc) (error : Option Bytes) (s : HaMongodb)
    → ranging (length docs) (range_fetch (cursor_of docs error) s)
      ≡ (length docs, index_end_code error)
unfolding range_fetch
ranged [] none s = refl
ranged [] (some m) s = refl
ranged (doc ∷ rest) error s =
    let t = record s { cursor = some (cursor_of rest error); current_doc = some doc } in
    let behind =
      ap (ranging (length rest)) (read_range_next_step (cursor_of rest error) t refl)
      ∙ ranged rest error t in
    ap (λ p. (p.0 + 1, p.1)) behind
    ∙ ap (λ k. (k, index_end_code error)) {x = length rest + 1} {y = suc (length rest)}
        (omega arith)

-- A range read of a connected handler has one call more that succeeds than the driver's cursor for the
-- empty filter has documents, since the first call reads none, whatever condition is pushed; behind
-- them it ends with the end of the file or, whatever the cursor's error says, with an internal error.
pub range_all_counts :
    (d : Server) (s : HaMongodb) (docs : List Doc) (error : Option Bytes) (c : Collection)
    → s.collection ≡ some c
    → d.find (some c) [] FindOpts.plain ≡ some (record { documents = map some docs; error = error })
    → range_all d (suc (length docs)) s ≡ (length docs + 1, index_end_code error)
unfolding read_range_first
range_all_counts d s docs error c e f =
    let g : d.find s.collection [] FindOpts.plain ≡ some (cursor_of docs error) =
      ap (λ k. d.find k [] FindOpts.plain) e ∙ f in
    let t = record s { cursor = some (cursor_of docs error) } in
    rw (g, read_range_first)
      (ap (λ p. (p.0 + 1, p.1))
        (ap (ranging (length docs)) (read_range_next_step (cursor_of docs error) t refl)
          ∙ ranged docs error t))
