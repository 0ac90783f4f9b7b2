-- ===== src/Handler/Cursors/Runs.antt =====
-- Whole lives of a handler and the cursors that they lose.
use mongodb_engine.Base.{
  ℕ, ◌==◌, ◌≡◌, inl, inr, refl, ap, ◌∙◌, Bool, true, not, List, [], Option, none, some, Bytes,
  if-both, option-both, if-false, Option-cases,
}
use mongodb_engine.Share.Parse.{mongodb_parse_connection_string}
use mongodb_engine.Handler.Defs.{Column, Collection, Code, FindOpts, Server, HaMongodb}
use mongodb_engine.Handler.Connect.{
  less_one, get_share, free_share, open_parsed, open_table, disconnect_from_mongodb, close,
}
use mongodb_engine.Handler.Scan.{
  Read, is_there, ensure_collection, rnd_init, rnd_end, position, rnd_pos,
}
use mongodb_engine.Handler.Index.{
  index_init, index_read_map, index_read, index_end, read_range_first,
}
use mongodb_engine.Handler.Stats.{cond_pop, reset, write_row, update_row, delete_row}
use mongodb_engine.Handler.Carry.{
  rnd_next-carries, rewind-carries, index_next-carries, read_range_next-carries,
}
use mongodb_engine.Share.Defs.{MongodbShare}
use mongodb_engine.Handler.Steady.{index_connected-Holds, info-Holds, cond_push-Holds, extra-Holds}
use mongodb_engine.Handler.Ops.{Call, run, Reach}
use mongodb_engine.Handler.Cursors.{
  Same, Same-Blind, ensure_collection-Rests, rnd_init-Same, rewind_if-Same,
}

rnd_pos-Same :
    (d : Server) (fields : List Column) (pos : Option ℕ) (s : HaMongodb)
    → Same s (rnd_pos d fields pos s).handler
unfolding rnd_pos
rnd_pos-Same d fields none s = refl
rnd_pos-Same d fields (some target) s =
    let P : Read → Type 0 = λ r. Same s r.handler in
    let moves = rewind-carries (Same s) (Same-Blind s) d fields target s refl in
    if-both P (not (is_there s.collection)) refl (elim (Option-cases s.cursor) [
      | inl n ↦
          if-both P (not (is_there s.cursor))
            (rewind_if-Same d fields target s (rnd_init d true s) (rnd_init-Same d true s n)) moves
      | inr (c, e) ↦ if-false P (not (is_there s.cursor)) _ _ (ap (λ k. not (is_there k)) e) moves
    ])

free_share-Same : (s t : HaMongodb) → Same s t → Same s (free_share t)
unfolding free_share
free_share-Same s t h =
    option-both (Same s) t.share h (λ k. if-both (Same s) (less_one k.use_count == 0) h h)

open_table-Same :
    (room : Bool) (alloc : ℕ → ℕ → Bool) (text : Option Bytes) (s : HaMongodb)
    → Same s (open_table room alloc text s).1
unfolding open_table get_share open_parsed
open_table-Same room alloc text s =
    let P : Code × HaMongodb → Type 0 = λ k. Same s k.1 in
    let t = get_share room s in
    let h : Same s t = option-both (Same s) s.share (if-both (Same s) room refl refl) (λ k. refl) in
    option-both P t.share h (λ share.
      if-both P (not share.parsed)
        (if-both P (not ((mongodb_parse_connection_string alloc text share).0 == 0))
          (free_share-Same s
            (record t { share = some (mongodb_parse_connection_string alloc text share).1 }) h)
          h)
        h)

close-Same : (s : HaMongodb) → Same s (close s).1
unfolding close disconnect_from_mongodb
close-Same s =
    let t = disconnect_from_mongodb s in
    option-both (λ (k : Code × HaMongodb). Same s k.1) t.share refl
      (λ share. free_share-Same s t refl)

-- The first property as one of the fields that calls leave.
abbrev Lost : HaMongodb → Option MongodbShare → Option Collection → ℕ → Type 0
Lost s share collection lost = lost ≡ s.lost_cursors

-- A table scan is not begun while a cursor is open.
abbrev pub IsOrderly : Call → HaMongodb → Type 0
IsOrderly (Call.rnd_init d scan) s = s.cursor ≡ none
IsOrderly _ s = Unit {0}

run-Same : (c : Call) (s : HaMongodb) → IsOrderly c s → Same s (run c s)
unfolding index_init index_end read_range_first position cond_pop reset write_row update_row
    delete_row index_read index_read_map rnd_end
run-Same (Call.open_table room alloc text) s o = open_table-Same room alloc text s
run-Same Call.close s o = close-Same s
run-Same (Call.rnd_init d scan) s o = rnd_init-Same d scan s o
run-Same (Call.rnd_next fields) s o = rnd_next-carries (Same s) (Same-Blind s) fields s refl
run-Same Call.rnd_end s o = refl
run-Same Call.position s o = refl
run-Same (Call.rnd_pos d fields pos) s o = rnd_pos-Same d fields pos s
run-Same (Call.index_init keynr) s o = refl
run-Same (Call.index_read_map d fields) s o =
    index_connected-Holds (Lost s) d fields (ensure_collection d s) (ensure_collection-Rests d s).0
run-Same (Call.index_read d fields) s o =
    index_connected-Holds (Lost s) d fields (ensure_collection d s) (ensure_collection-Rests d s).0
run-Same (Call.index_next fields) s o = index_next-carries (Same s) (Same-Blind s) fields s refl
run-Same Call.index_end s o = refl
run-Same (Call.read_range_first d) s o =
    option-both (λ (r : Code × HaMongodb). Same s r.1) (d.find s.collection [] FindOpts.plain) refl
      (λ c. refl)
run-Same Call.read_range_next s o = read_range_next-carries (Same s) (Same-Blind s) s refl
run-Same (Call.info d) s o = info-Holds (Lost s) d s refl
run-Same (Call.cond_push cond) s o = cond_push-Holds (Lost s) cond s refl
run-Same Call.cond_pop s o = refl
run-Same (Call.extra operation) s o = extra-Holds (Lost s) operation s refl
run-Same Call.reset s o = refl
run-Same Call.write_row s o = refl
run-Same Call.update_row s o = refl
run-Same Call.delete_row s o = refl

abbrev pub Orderly : {s : HaMongodb} → Reach s → Type 0
Orderly Reach.fresh = Unit {0}
Orderly (Reach.call {s} r c) = IsOrderly c s × Orderly r

-- In a life of a handler in which no table scan is begun while a cursor is open, whatever else is
-- called and whatever the driver answers, no cursor that is still open is overwritten by another one
-- or by a null pointer.
pub Reach-lost : {s : HaMongodb} (r : Reach s) → Orderly r → s.lost_cursors ≡ 0
Reach-lost Reach.fresh o = refl
Reach-lost (Reach.call {s} r c) o = run-Same c s o.0 ∙ Reach-lost r o.1
