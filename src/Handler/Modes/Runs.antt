-- ===== src/Handler/Modes/Runs.antt =====
-- Whole lives of a handler: any calls, in any order.
use mongodb_engine.Base.{
  ℕ, refl, Bool, not, [], Option, none, some, Bytes, ◌==◌, if-both, option-both,
}
use mongodb_engine.Share.Defs.{MongodbShare}
use mongodb_engine.Share.Parse.{mongodb_parse_connection_string}
use mongodb_engine.Handler.Defs.{Code, FindOpts, Server, HaMongodb}
use mongodb_engine.Handler.Connect.{
  less_one, get_share, free_share, open_parsed, open_table, disconnect_from_mongodb, close,
}
use mongodb_engine.Handler.Scan.{query_of, ensure_collection, rnd_end, position}
use mongodb_engine.Handler.Index.{
  index_init, index_read_map, index_read, index_end, read_range_first,
}
use mongodb_engine.Translator.{translate_condition_to_bson}
use mongodb_engine.Handler.Stats.{
  info, cond_push, cond_pop, Extra, extra, reset, write_row, update_row, delete_row,
}
use mongodb_engine.Handler.Carry.{rnd_next-carries, index_next-carries, read_range_next-carries}
use mongodb_engine.Handler.Ops.{Call, run, Reach}
use mongodb_engine.Handler.Modes.{
  Modes, Keeps, Keeps-refl, Keeps-Modes, Keeps-Blind, ensure_collection-Modes,
}
use mongodb_engine.Handler.Modes.Scans.{rnd_init-Modes, rnd_pos-Modes, index_connected-Modes}

get_share-Keeps : (room : Bool) (s : HaMongodb) → Keeps s (get_share room s)
unfolding get_share
get_share-Keeps room s =
    option-both (Keeps s) s.share (if-both (Keeps s) room (Keeps-refl s) (Keeps-refl s))
      (λ k. Keeps-refl s)

free_share-Keeps : (s t : HaMongodb) → Keeps s t → Keeps s (free_share t)
unfolding free_share
free_share-Keeps s t h =
    option-both (Keeps s) t.share h (λ k. if-both (Keeps s) (less_one k.use_count == 0) h h)

open_parsed-Keeps :
    (s t : HaMongodb) (r : ℕ × MongodbShare) → Keeps s t → Keeps s (open_parsed t r).1
unfolding open_parsed
open_parsed-Keeps s t r h =
    if-both (λ (k : Code × HaMongodb). Keeps s k.1) (not (r.0 == 0))
      (free_share-Keeps s (record t { share = some r.1 }) h) h

open_table-Keeps :
    (room : Bool) (alloc : ℕ → ℕ → Bool) (text : Option Bytes) (s : HaMongodb)
    → Keeps s (open_table room alloc text s).1
unfolding open_table
open_table-Keeps room alloc text s =
    let t = get_share room s in
    let h = get_share-Keeps room s in
    option-both (λ (k : Code × HaMongodb). Keeps s k.1) t.share h
      (λ share.
        if-both (λ (k : Code × HaMongodb). Keeps s k.1) (not share.parsed)
          (open_parsed-Keeps s t (mongodb_parse_connection_string alloc text share) h) h)

close-Modes : (s : HaMongodb) → Modes s → Modes (close s).1
unfolding close disconnect_from_mongodb
close-Modes s h =
    let t = disconnect_from_mongodb s in
    let m : Modes t = record {
      uncounted = h.uncounted;
      full = h.full;
      no_count = h.no_count;
      unused = h.unused;
      together = refl;
    } in
    option-both (λ (k : Code × HaMongodb). Modes k.1) t.share m
      (λ share. Keeps-Modes t _ (free_share-Keeps t t (Keeps-refl t)) m)

rnd_end-Modes : (s : HaMongodb) → Modes s → Modes (rnd_end s).1
unfolding rnd_end
rnd_end-Modes s h = record {
  uncounted = refl;
  full = refl;
  no_count = refl;
  unused = h.unused;
  together = h.together;
}

info-Keeps : (d : Server) (s : HaMongodb) → Keeps s (info d s).1
unfolding info
info-Keeps d s =
    let P : Code × HaMongodb → Type 0 = λ r. Keeps s r.1 in
    if-both P _
      (option-both P (d.count_documents s.collection (query_of s.pushed_condition)) (Keeps-refl s)
        (λ n. Keeps-refl s))
      (Keeps-refl s)

cond_push-Keeps : (cond : Option ℕ) (s : HaMongodb) → Keeps s (cond_push cond s).1
unfolding cond_push translate_condition_to_bson
cond_push-Keeps none s = Keeps-refl s
cond_push-Keeps (some c) s = Keeps-refl s

extra-Modes : (operation : Extra) (s : HaMongodb) → Modes s → Modes (extra operation s).1
unfolding extra
extra-Modes Extra.reset_state s h = record {
  uncounted = refl;
  full = h.full;
  no_count = h.no_count;
  unused = h.unused;
  together = h.together;
}
extra-Modes Extra.keyread s h = Keeps-Modes s _ (Keeps-refl s) h
extra-Modes Extra.no_keyread s h = Keeps-Modes s _ (Keeps-refl s) h
extra-Modes (Extra.other n) s h = h

run-Modes : (c : Call) (s : HaMongodb) → Modes s → Modes (run c s)
unfolding index_init index_end read_range_first position cond_pop reset write_row update_row
    delete_row index_read index_read_map
run-Modes (Call.open_table room alloc text) s h =
    Keeps-Modes s _ (open_table-Keeps room alloc text s) h
run-Modes Call.close s h = close-Modes s h
run-Modes (Call.rnd_init d scan) s h = rnd_init-Modes d scan s h
run-Modes (Call.rnd_next fields) s h =
    Keeps-Modes s _ (rnd_next-carries (Keeps s) (Keeps-Blind s) fields s (Keeps-refl s)) h
run-Modes Call.rnd_end s h = rnd_end-Modes s h
run-Modes Call.position s h = Keeps-Modes s _ (Keeps-refl s) h
run-Modes (Call.rnd_pos d fields pos) s h = rnd_pos-Modes d fields pos s h
run-Modes (Call.index_init keynr) s h = Keeps-Modes s _ (Keeps-refl s) h
run-Modes (Call.index_read_map d fields) s h =
    index_connected-Modes d fields (ensure_collection d s) (ensure_collection-Modes d s h)
run-Modes (Call.index_read d fields) s h =
    index_connected-Modes d fields (ensure_collection d s) (ensure_collection-Modes d s h)
run-Modes (Call.index_next fields) s h =
    Keeps-Modes s _ (index_next-carries (Keeps s) (Keeps-Blind s) fields s (Keeps-refl s)) h
run-Modes Call.index_end s h = Keeps-Modes s _ (Keeps-refl s) h
run-Modes (Call.read_range_first d) s h =
    Keeps-Modes s _
      (option-both (λ (r : Code × HaMongodb). Keeps s r.1) (d.find s.collection [] FindOpts.plain)
        (Keeps-refl s) (λ c. Keeps-refl s))
      h
run-Modes Call.read_range_next s h =
    Keeps-Modes s _ (read_range_next-carries (Keeps s) (Keeps-Blind s) s (Keeps-refl s)) h
run-Modes (Call.info d) s h = Keeps-Modes s _ (info-Keeps d s) h
run-Modes (Call.cond_push cond) s h = Keeps-Modes s _ (cond_push-Keeps cond s) h
run-Modes Call.cond_pop s h = Keeps-Modes s _ (Keeps-refl s) h
run-Modes (Call.extra operation) s h = extra-Modes operation s h
run-Modes Call.reset s h = h
run-Modes Call.write_row s h = h
run-Modes Call.update_row s h = h
run-Modes Call.delete_row s h = h

-- After any calls of a new handler, with any answers of the driver: both count modes are off, no
-- count was ever stored or used, and the client and the collection are there together or not at all.
pub Reach-Modes : {s : HaMongodb} → Reach s → Modes s
Reach-Modes Reach.fresh = record {
  uncounted = refl;
  full = refl;
  no_count = refl;
  unused = refl;
  together = refl;
}
Reach-Modes (Reach.call {s} r c) = run-Modes c s (Reach-Modes r)
