-- ===== src/Handler/Cursors.antt =====
-- The cursors of the driver that a handler overwrites and does not destroy: src/ha_mongodb_handler.cc.
pub mod Runs
use mongodb_engine.Base.{
  ℕ, ◌+◌, ◌-◌, ◌==◌, ◌≡◌, ◌≢◌, ◌⊎◌, inl, inr, refl, sym, ap, ◌∙◌, Bool, true, false, not, ◌&&◌,
  List, [], Option, none, some, Bytes, if-both, option-both, option-known, Bool-cases, Option-cases,
  arith,
}
use mongodb_engine.Share.Defs.{MongodbShare}
use mongodb_engine.Share.Parse.{mongodb_parse_connection_string}
use mongodb_engine.Handler.Defs.{
  Column, Code, Cursor, Collection, FindOpts, Server, HaMongodb, new_handler,
}
use mongodb_engine.Handler.Connect.{
  get_share, free_share, open_parsed, open_table, disconnect_from_mongodb, close, connect_client,
  connect_share, connect_to_mongodb,
}
use mongodb_engine.Handler.Scan.{
  Read, is_there, lose, query_of, reset_for_scan, ensure_collection, start_tracking, count_scan,
  find_scan, document_scan, begin_scan, rnd_init, rnd_end, position, rewind_if, rnd_pos,
}
use mongodb_engine.Handler.Index.{
  index_init, index_row, index_fetch, index_open, index_connected, index_read_map, index_read,
  index_next, index_end, read_range_first, range_fetch, read_range_next,
}
use mongodb_engine.Translator.{translate_condition_to_bson}
use mongodb_engine.Handler.Stats.{
  info, has_text, cond_push, cond_pop, Extra, extra, reset, write_row, update_row, delete_row,
}
use mongodb_engine.Handler.Carry.{
  Blind, rnd_next-carries, rewind-carries, index_fetch-carries, index_next-carries,
  read_range_next-carries,
}
use mongodb_engine.Handler.Ops.{Call, run, Reach}

-- No cursor was lost that was not lost in the first state.
abbrev pub Same : HaMongodb → HaMongodb → Type 0
Same s t = t.lost_cursors ≡ s.lost_cursors

pub Same-Blind : (s : HaMongodb) → Blind (Same s)
Same-Blind s t cursor doc at calls scanned h = h

-- The connection keeps the cursor, too.
abbrev pub Rests : HaMongodb → HaMongodb → Type 0
Rests s t = (t.lost_cursors ≡ s.lost_cursors) × (t.cursor ≡ s.cursor)

pub ensure_collection-Rests : (d : Server) (s : HaMongodb) → Rests s (ensure_collection d s).1
unfolding ensure_collection connect_to_mongodb connect_share connect_client
ensure_collection-Rests d s =
    let P : Code × HaMongodb → Type 0 = λ r. Rests s r.1 in
    let h : Rests s s = (refl, refl) in
    option-both P s.collection
      (option-both P s.share h (λ share. option-both P share.mongo_connection_string h (λ u.
        option-both P share.database_name h (λ db. option-both P share.collection_name h (λ c.
          option-both P (d.client_new u) h (λ k.
            if-both P (not (d.get_database k db)) h
              (if-both P (not (d.get_collection db c)) h h)))))))
      (λ c. h)

find_scan-Same :
    (d : Server) (opts : FindOpts) (s t : HaMongodb)
    → Same s t
    → t.cursor ≡ none
    → Same s (find_scan d opts t).1
unfolding find_scan
find_scan-Same d opts s t h n =
    let e : lose t.cursor t.lost_cursors ≡ s.lost_cursors = ap (λ o. lose o t.lost_cursors) n ∙ h in
    option-both (λ (r : Code × HaMongodb). Same s r.1)
      (d.find t.collection (query_of t.pushed_condition) opts) e (λ c. e)

document_scan-Same :
    (d : Server) (scan : Bool) (s t : HaMongodb)
    → Same s t
    → t.cursor ≡ none
    → Same s (document_scan d scan t).1
unfolding document_scan
document_scan-Same d scan s t h n =
    let P : Code × HaMongodb → Type 0 = λ r. Same s r.1 in
    if-both P (is_there t.pushed_condition && scan)
      (option-both P (d.count_documents t.collection (query_of t.pushed_condition))
        (find_scan-Same d FindOpts.no_timeout s (record t { scan_position = 0 }) h n)
        (λ k.
          find_scan-Same d FindOpts.ids_only s
            (record t { scan_position = 0; mongo_count_result = k; mongo_count_returned = 0 }) h n))
      (find_scan-Same d FindOpts.no_timeout s (record t { scan_position = 0 }) h n)

track-Rests : (scan : Bool) (s : HaMongodb) → Rests s (start_tracking scan s)
unfolding start_tracking
track-Rests true s = (refl, refl)
track-Rests false s = (refl, refl)

begin_scan-Same :
    (d : Server) (scan : Bool) (s : HaMongodb) (r : Code × HaMongodb)
    → Same s r.1
    → r.1.cursor ≡ none
    → Same s (begin_scan d scan r).1
unfolding begin_scan count_scan
begin_scan-Same d scan s (Code.ok, t) h n =
    let u = start_tracking scan t in
    let (e, f) = track-Rests scan t in
    let P : Code × HaMongodb → Type 0 = λ r. Same s r.1 in
    if-both P u.count_mode
      (option-both P (d.count_documents u.collection (query_of u.pushed_condition)) (e ∙ h)
        (λ k. e ∙ h))
      (document_scan-Same d scan s u (e ∙ h) (f ∙ n))
begin_scan-Same d scan s (_, t) h n = h

reset-Rests : (scan : Bool) (s : HaMongodb) → Rests s (reset_for_scan scan s)
unfolding reset_for_scan
reset-Rests true s = (refl, refl)
reset-Rests false s = (refl, refl)

pub rnd_init-Same :
    (d : Server) (scan : Bool) (s : HaMongodb) → s.cursor ≡ none → Same s (rnd_init d scan s).1
unfolding rnd_init
rnd_init-Same d scan s n =
    let (e, f) = reset-Rests scan s in
    let (g, h) = ensure_collection-Rests d (reset_for_scan scan s) in
    begin_scan-Same d scan s (ensure_collection d (reset_for_scan scan s)) (g ∙ e) (h ∙ f ∙ n)

pub rewind_if-Same :
    (d : Server) (fields : List Column) (target : ℕ) (s : HaMongodb) (r : Code × HaMongodb)
    → Same s r.1
    → Same s (rewind_if d fields target r).handler
unfolding rewind_if
rewind_if-Same d fields target s (Code.ok, t) h =
    rewind-carries (Same s) (Same-Blind s) d fields target t h
rewind_if-Same d fields target s (_, t) h = h
