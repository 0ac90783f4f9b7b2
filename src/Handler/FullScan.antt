-- ===== src/Handler/FullScan.antt =====
-- A whole scan of a table: src/ha_mongodb_handler.cc.
use mongodb_engine.Base.{
  ℕ, suc, zero, ◌≡◌, refl, sym, ap, ap₂, ◌∙◌, true, false, List, [], ◌∷◌, map, Option, none, some,
  Bytes, length, if-false, subst,
}
use mongodb_engine.Handler.Defs.{
  Column, Code, Doc, Cursor, Collection, FindOpts, Server, HaMongodb, next_row,
}
use mongodb_engine.Handler.Convert.{Cell, convert_field, convert_document_to_row}
use mongodb_engine.Handler.Scan.{
  Read, query_of, reset_for_scan, ensure_collection, start_tracking, find_scan, document_scan,
  begin_scan, rnd_init, error_code, count_call, deliver, next_document, rnd_next,
}

-- What is left to read, and the number of the next row.
pub record At (rest : List Doc) (error : Option Bytes) (k : ℕ) (s : HaMongodb) : Type 0 where
  pub here : s.cursor ≡ some (record { documents = map some rest; error = error })
  pub numbered : s.scan_position ≡ k
  pub uncounted : s.count_mode ≡ false
  pub full : s.lightweight_count_mode ≡ false

abbrev pub row_of : List Column → Doc → List Cell
row_of fields doc = map (convert_field doc) fields

-- How a scan ends.
abbrev pub end_code : Option Bytes → Code
end_code none = Code.end_of_file
end_code (some message) = error_code message

pub record Delivers (fields : List Column) (doc : Doc) (rest : List Doc) (error : Option Bytes)
    (k : ℕ) (r : Read) : Type 0 where
  pub succeeds : r.code ≡ Code.ok
  pub delivered : r.row ≡ some (row_of fields doc)
  pub moved : At rest error (next_row k) r.handler

deliver-Delivers :
    (fields : List Column) (doc : Doc) (rest : List Doc) (error : Option Bytes) (k : ℕ)
    (s : HaMongodb)
    → At rest error k s
    → Delivers fields doc rest error k (deliver fields (some doc) s)
unfolding deliver convert_document_to_row
deliver-Delivers fields doc rest error k s h =
    if-false (Delivers fields doc rest error k) s.lightweight_count_mode _ _ h.full (record {
      succeeds = refl;
      delivered = refl;
      moved = record {
        here = h.here;
        numbered = ap next_row h.numbered;
        uncounted = h.uncounted;
        full = h.full;
      };
    })

-- A read of a cursor that has a document delivers the document's row, and stands behind it.
pub rnd_next-Delivers :
    (fields : List Column) (doc : Doc) (rest : List Doc) (error : Option Bytes) (k : ℕ)
    (s : HaMongodb)
    → At (doc ∷ rest) error k s
    → Delivers fields doc rest error k (rnd_next fields s)
rnd_next-Delivers fields doc rest error k s h =
    subst (Delivers fields doc rest error k) (sym step) (
      deliver-Delivers fields doc rest error k
        (record (count_call s) {
          cursor = some (record { documents = map some rest; error = error });
          current_doc = some doc;
        })
        (unfold count_call in
          record { here = refl; numbered = h.numbered; uncounted = h.uncounted; full = h.full }))
  where
    step :
        rnd_next fields s
        ≡ deliver fields (some doc) (record (count_call s) {
          cursor = some (record { documents = map some rest; error = error });
          current_doc = some doc;
        })
    step = unfold rnd_next next_document in simp (h.uncounted, h.here)

rnd_next-end :
    (fields : List Column) (error : Option Bytes) (k : ℕ) (s : HaMongodb)
    → At [] error k s
    → ((rnd_next fields s).code ≡ end_code error) × ((rnd_next fields s).row ≡ none)
unfolding rnd_next next_document
rnd_next-end fields none k s h = simp (h.uncounted, h.here) (refl, refl)
rnd_next-end fields (some m) k s h = simp (h.uncounted, h.here) (refl, refl)

abbrev pub gather : Option (List Cell) → Code → List (List Cell) × Code → List (List Cell) × Code
gather none code rest = ([], code)
gather (some row) code rest = (row ∷ rest.0, rest.1)

-- What MariaDB does of a scan: it reads until a read gives no row.
abbrev pub read_all : ℕ → List Column → HaMongodb → List (List Cell) × Code
read_all zero fields s = ([], Code.ok)
read_all (suc n) fields s =
    let r = rnd_next fields s in gather r.row r.code (read_all n fields r.handler)

read_all-At :
    (fields : List Column) (rest : List Doc) (error : Option Bytes) (k : ℕ) (s : HaMongodb)
    → At rest error k s
    → read_all (suc (length rest)) fields s ≡ (map (row_of fields) rest, end_code error)
read_all-At fields [] error k s h = let e = rnd_next-end fields error k s h in rw (e.1, e.0)
read_all-At fields (doc ∷ rest) error k s h =
    let e = rnd_next-Delivers fields doc rest error k s h in
    rw (e.delivered) (
      ap (λ p. (row_of fields doc ∷ p.0, p.1))
        (read_all-At fields rest error (next_row k) (rnd_next fields s).handler e.moved))

abbrev cursor_of : List Doc → Option Bytes → Cursor
cursor_of docs error = record { documents = map some docs; error = error }

find_scan-At :
    (d : Server) (t : HaMongodb) (c : Collection) (docs : List Doc) (error : Option Bytes)
    → t.collection ≡ some c
    → t.pushed_condition ≡ none
    → t.scan_position ≡ 0
    → t.count_mode ≡ false
    → t.lightweight_count_mode ≡ false
    → d.find (some c) [] FindOpts.no_timeout ≡ some (cursor_of docs error)
    → ((find_scan d FindOpts.no_timeout t).0 ≡ Code.ok)
      × At docs error 0 (find_scan d FindOpts.no_timeout t).1
      × ((find_scan d FindOpts.no_timeout t).1.collection ≡ some c)
unfolding find_scan
find_scan-At d t c docs error e p n u l f =
    let g : d.find t.collection (query_of t.pushed_condition) FindOpts.no_timeout
        ≡ some (cursor_of docs error) =
      ap₂ (λ k q. d.find k (query_of q) FindOpts.no_timeout) e p ∙ f in
    rw (g, find_scan) (refl, record { here = refl; numbered = n; uncounted = u; full = l }, e)

pub rnd_init-At :
    (d : Server) (s : HaMongodb) (c : Collection) (docs : List Doc) (error : Option Bytes)
    → s.collection ≡ some c
    → d.find (some c) [] FindOpts.no_timeout
      ≡ some (record { documents = map some docs; error = error })
    → ((rnd_init d true s).0 ≡ Code.ok)
      × At docs error 0 (rnd_init d true s).1
      × ((rnd_init d true s).1.collection ≡ some c)
unfolding rnd_init reset_for_scan ensure_collection begin_scan start_tracking document_scan
rnd_init-At d s c docs error e f =
    simp (e) (find_scan-At d _ c docs error refl refl refl refl refl f)

-- A scan of a connected table delivers the row of each document that the driver's cursor for the
-- empty filter has, in its order, whatever was called before; behind the last one it ends with
-- the end of the file or, where the cursor has an error, with the code of its message.
pub scan_delivers :
    (d : Server) (s : HaMongodb) (c : Collection) (docs : List Doc) (error : Option Bytes)
    (fields : List Column)
    → s.collection ≡ some c
    → d.find (some c) [] FindOpts.no_timeout
      ≡ some (record { documents = map some docs; error = error })
    → ((rnd_init d true s).0 ≡ Code.ok)
      × (read_all (suc (length docs)) fields (rnd_init d true s).1
          ≡ (map (row_of fields) docs, end_code error))
scan_delivers d s c docs error fields e f =
    let h = rnd_init-At d s c docs error e f in
    (h.0, read_all-At fields docs error 0 (rnd_init d true s).1 h.1)
