-- ===== src/Handler/Modes/Scans.antt =====
-- The scans and the index reads keep the modes: src/ha_mongodb_handler.cc.
use mongodb_engine.Base.{
  ℕ, ◌≡◌, refl, ap, ◌∙◌, Bool, true, false, not, ◌&&◌, List, Option, none, some, if-both,
  option-both,
}
use mongodb_engine.Handler.Defs.{Column, Code, FindOpts, Server, HaMongodb}
use mongodb_engine.Handler.Scan.{
  assign_cursor, Read, is_there, query_of, reset_for_scan, ensure_collection, start_tracking,
  document_scan, begin_scan, rnd_init, rewind_if, rnd_pos,
}
use mongodb_engine.Handler.Index.{index_open, index_connected}
use mongodb_engine.Handler.Carry.{rewind-carries, index_fetch-carries}
use mongodb_engine.Handler.Modes.{
  Modes, Keeps, Keeps-refl, Keeps-Modes, Keeps-Blind, find_scan-Keeps, reset-Modes,
  ensure_collection-Modes, ensure_collection-pushed,
}

start_tracking-Keeps : (scan : Bool) (s : HaMongodb) → Keeps s (start_tracking scan s)
unfolding start_tracking
start_tracking-Keeps true s = Keeps-refl s
start_tracking-Keeps false s = Keeps-refl s

start_tracking-pushed :
    (scan : Bool) (s : HaMongodb) → (start_tracking scan s).pushed_condition ≡ s.pushed_condition
unfolding start_tracking
start_tracking-pushed true s = refl
start_tracking-pushed false s = refl

document_scan-Modes :
    (d : Server) (scan : Bool) (s : HaMongodb)
    → (is_there s.pushed_condition && scan) ≡ false
    → Modes s
    → Modes (document_scan d scan s).1
unfolding document_scan
document_scan-Modes d scan s e h = simp (e) (
    Keeps-Modes s _
      (find_scan-Keeps s d FindOpts.no_timeout (record s { scan_position = 0 }) (Keeps-refl s)) h)

begin_scan-Modes :
    (d : Server) (scan : Bool) (r : Code × HaMongodb)
    → (is_there r.1.pushed_condition && scan) ≡ false
    → Modes r.1
    → Modes (begin_scan d scan r).1
unfolding begin_scan
begin_scan-Modes d scan (Code.ok, s) e h =
    let t = start_tracking scan s in
    let k = Keeps-Modes s t (start_tracking-Keeps scan s) h in
    simp (k.uncounted) (
      document_scan-Modes d scan t (ap (λ p. is_there p && scan) (start_tracking-pushed scan s) ∙ e)
        k)
begin_scan-Modes d scan (_, s) e h = h

and_false : (b : Bool) → (b && false) ≡ false
and_false true = refl
and_false false = refl

unfiltered :
    (d : Server) (scan : Bool) (s : HaMongodb)
    → (is_there (ensure_collection d (reset_for_scan scan s)).1.pushed_condition && scan) ≡ false
unfolding reset_for_scan
unfiltered d true s =
    ap (λ p. is_there p && true) (ensure_collection-pushed d (reset_for_scan true s))
unfiltered d false s =
    and_false (is_there (ensure_collection d (reset_for_scan false s)).1.pushed_condition)

pub rnd_init-Modes :
    (d : Server) (scan : Bool) (s : HaMongodb) → Modes s → Modes (rnd_init d scan s).1
unfolding rnd_init
rnd_init-Modes d scan s h =
    begin_scan-Modes d scan (ensure_collection d (reset_for_scan scan s)) (unfiltered d scan s)
      (ensure_collection-Modes d (reset_for_scan scan s) (reset-Modes scan s h))

rewind_if-Modes :
    (d : Server) (fields : List Column) (target : ℕ) (r : Code × HaMongodb)
    → Modes r.1
    → Modes (rewind_if d fields target r).handler
unfolding rewind_if
rewind_if-Modes d fields target (Code.ok, s) h =
    Keeps-Modes s _ (rewind-carries (Keeps s) (Keeps-Blind s) d fields target s (Keeps-refl s)) h
rewind_if-Modes d fields target (_, s) h = h

pub rnd_pos-Modes :
    (d : Server) (fields : List Column) (pos : Option ℕ) (s : HaMongodb)
    → Modes s
    → Modes (rnd_pos d fields pos s).handler
unfolding rnd_pos
rnd_pos-Modes d fields none s h = h
rnd_pos-Modes d fields (some target) s h =
    let P : Read → Type 0 = λ r. Modes r.handler in
    if-both P (not (is_there s.collection)) h (
      if-both P (not (is_there s.cursor))
        (rewind_if-Modes d fields target (rnd_init d true s) (rnd_init-Modes d true s h))
        (Keeps-Modes s _ (rewind-carries (Keeps s) (Keeps-Blind s) d fields target s (Keeps-refl s))
          h))

index_open-Keeps :
    (d : Server) (fields : List Column) (s : HaMongodb) → Keeps s (index_open d fields s).handler
unfolding index_open
index_open-Keeps d fields s =
    let P : Read → Type 0 = λ r. Keeps s r.handler in
    option-both P s.cursor
      (option-both P (d.find s.collection (query_of s.pushed_condition) FindOpts.plain)
        (Keeps-refl s)
        (λ c.
          index_fetch-carries (Keeps s) (Keeps-Blind s) fields c
            (record (assign_cursor (some c) s) { current_doc = none; scan_position = 0 })
            (Keeps-refl s)))
      (λ c. index_fetch-carries (Keeps s) (Keeps-Blind s) fields c s (Keeps-refl s))

pub index_connected-Modes :
    (d : Server) (fields : List Column) (r : Code × HaMongodb)
    → Modes r.1
    → Modes (index_connected d fields r).handler
unfolding index_connected
index_connected-Modes d fields (Code.ok, s) h = Keeps-Modes s _ (index_open-Keeps d fields s) h
index_connected-Modes d fields (_, s) h = h
