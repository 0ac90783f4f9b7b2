-- ===== src/Handler/Scanner.antt =====
-- A handler's table scans against an abstract scanner of rows: src/ha_mongodb_handler.cc.
pub mod Elements
pub mod Simulation
pub mod Steps
pub mod Seeking
pub mod Refines
use mongodb_engine.Base.{
  ℕ, suc, zero, ◌+◌, ◌-◌, ◌%◌, ◌^◌, ◌==◌, Bool, true, false, List, [], ◌∷◌, Option, none, some,
  Bytes, length, if◌then◌else◌, ltb, not, ◌||◌,
}
use mongodb_engine.Handler.Defs.{Column, Code, Server, HaMongodb}
use mongodb_engine.Handler.Convert.{Cell}
use mongodb_engine.Handler.Scan.{Read, rnd_init, rnd_next, rnd_end, position, rnd_pos}
use mongodb_engine.Handler.Stats.{Extra, info, cond_push, cond_pop, extra}

-- What MariaDB asks of a handler around a scan: the reads, and what does not concern the rows.
pub data Ask : Type 0 where
  start next stop mark pop : Ask
  seek : ℕ → Ask
  push : Option ℕ → Ask
  hint : Extra → Ask
  inspect : Server → Ask

-- What it is told: a code, and a row where there is one.
abbrev pub Reply : Type 0
Reply = Code × Option (List Cell)

abbrev pub of_read : Read → Reply × HaMongodb
of_read r = ((r.code, r.row), r.handler)

abbrev pub of_code : Code × HaMongodb → Reply × HaMongodb
of_code r = ((r.0, none), r.1)

-- The handler's answer, on a server that does not change while it reads.
abbrev pub perform : Server → List Column → Ask → HaMongodb → Reply × HaMongodb
perform d fields Ask.start s = of_code (rnd_init d true s)
perform d fields Ask.next s = of_read (rnd_next fields s)
perform d fields Ask.stop s = of_code (rnd_end s)
perform d fields Ask.mark s = ((Code.ok, none), position s)
perform d fields (Ask.seek target) s = of_read (rnd_pos d fields (some target) s)
perform d fields (Ask.push cond) s = ((Code.ok, none), (cond_push cond s).1)
perform d fields Ask.pop s = ((Code.ok, none), cond_pop s)
perform d fields (Ask.hint operation) s = of_code (extra operation s)
perform d fields (Ask.inspect e) s = of_code (info e s)

unfoldable pub replies : Server → List Column → List Ask → HaMongodb → List Reply
replies d fields [] s = []
replies d fields (a ∷ as') s = let r = perform d fields a s in r.0 ∷ replies d fields as' r.1

-- The abstract scanner: whether a scan is on, the number of the next row, the stored position, and
-- whether a read of the scan has found no row.
pub record Scanner : Type 0 where
  pub reading : Bool
  pub place : ℕ
  pub ref : ℕ
  pub spent : Bool

abbrev pub get_elem? {ℓ} : {A : Type ℓ} → List A → ℕ → Option A
get_elem? [] i = none
get_elem? (x ∷ xs) zero = some x
get_elem? (x ∷ xs) (suc i) = get_elem? xs i

-- A row that is there is given, and the scanner moves behind it. Where there is none the scanner is
-- spent, which is an error the next time.
abbrev pub give : Option (List Cell) → ℕ → Scanner → Reply × Scanner
give none place a = (
  (if a.spent then Code.internal_error else Code.end_of_file, none),
  record a { reading = true; place = place; spent = true },
)
give (some row) place a = ((Code.ok, some row), record a { reading = true; place = place + 1 })

-- A row is given; the position behind the last row is one where there is none, and a position behind
-- that is not found, for which the scanner runs out of rows.
abbrev pub seek_on : List (List Cell) → ℕ → Scanner → Reply × Scanner
seek_on rows target a =
    if ltb (length rows) target
    then (
      (Code.key_not_found, none),
      record a { reading = true; place = length rows; spent = true },
    )
    else give (get_elem? rows target) target a

-- A scanner that does not read, or that stands behind the position, begins anew.
abbrev pub seek_row : List (List Cell) → ℕ → Scanner → Reply × Scanner
seek_row rows target a =
    if not a.reading || ltb target a.place
    then seek_on rows target (record a { reading = true; place = 0; spent = false })
    else seek_on rows target a

-- The abstract scanner knows the table's rows, and neither filters, nor modes, nor a cursor.
abbrev pub serve : List (List Cell) → Ask → Scanner → Reply × Scanner
serve rows Ask.start a = ((Code.ok, none), record a { reading = true; place = 0; spent = false })
serve rows Ask.next a =
    if a.reading then give (get_elem? rows a.place) a.place a else ((Code.end_of_file, none), a)
serve rows Ask.stop a = ((Code.ok, none), record a { reading = false })
serve rows Ask.mark a = ((Code.ok, none), record a { ref = (a.place + 2 ^ 64 - 1) % 2 ^ 64 })
serve rows (Ask.seek target) a = seek_row rows target a
serve rows _ a = ((Code.ok, none), a)

unfoldable pub answers : List (List Cell) → List Ask → Scanner → List Reply
answers rows [] a = []
answers rows (q ∷ qs) a = let r = serve rows q a in r.0 ∷ answers rows qs r.1
