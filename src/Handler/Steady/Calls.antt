-- ===== src/Handler/Steady/Calls.antt =====
-- The calls between an opening and a closing keep what connecting keeps of the share and the
-- collection: src/ha_mongodb_handler.cc.
use mongodb_engine.Base.{
  ℕ, Bool, true, not, ◌&&◌, List, [], Option, none, some, if-both, option-both,
}
use mongodb_engine.Share.Defs.{MongodbShare}
use mongodb_engine.Handler.Defs.{Column, Collection, Code, FindOpts, Server, HaMongodb}
use mongodb_engine.Handler.Scan.{
  count_scan, find_scan, document_scan, start_tracking, reset_for_scan, begin_scan, rewind_if, Read,
  is_there, query_of, ensure_collection, rnd_init, rnd_end, position, rnd_pos,
}
use mongodb_engine.Handler.Index.{
  index_init, index_read_map, index_read, index_end, read_range_first,
}
use mongodb_engine.Handler.Stats.{cond_pop, reset, write_row, update_row, delete_row}
use mongodb_engine.Handler.Carry.{
  rnd_next-carries, rewind-carries, index_next-carries, read_range_next-carries,
}
use mongodb_engine.Handler.Ops.{Call, run}
use mongodb_engine.Handler.Steady.{
  Holds-Blind, track-Holds, reset-Holds, index_connected-Holds, info-Holds, cond_push-Holds,
  extra-Holds,
}

-- A call that neither opens nor closes the table.
abbrev pub IsInner : Call → Type 0
IsInner (Call.open_table room alloc given) = ⊥
IsInner Call.close = ⊥
IsInner _ = Unit {0}

module _ (Q : Option MongodbShare → Option Collection → Type 0) where
  abbrev Q3 : Option MongodbShare → Option Collection → ℕ → Type 0
  Q3 share collection lost = Q share collection

  abbrev pub Keeps : HaMongodb → Type 0
  Keeps s = Q s.share s.collection

module _ (Q : Option MongodbShare → Option Collection → Type 0)
    (connects : (d : Server) (s : HaMongodb) → Keeps Q s → Keeps Q (ensure_collection d s).1) where
  find_scan-Keeps :
      (d : Server) (opts : FindOpts) (t : HaMongodb) → Keeps Q t → Keeps Q (find_scan d opts t).1
  unfolding find_scan
  find_scan-Keeps d opts t h =
      option-both (λ (r : Code × HaMongodb). Keeps Q r.1)
        (d.find t.collection (query_of t.pushed_condition) opts) h (λ c. h)

  document_scan-Keeps :
      (d : Server) (scan : Bool) (t : HaMongodb) → Keeps Q t → Keeps Q (document_scan d scan t).1
  unfolding document_scan
  document_scan-Keeps d scan t h =
      let P : Code × HaMongodb → Type 0 = λ r. Keeps Q r.1 in
      if-both P (is_there t.pushed_condition && scan)
        (option-both P (d.count_documents t.collection (query_of t.pushed_condition))
          (find_scan-Keeps d FindOpts.no_timeout (record t { scan_position = 0 }) h)
          (λ k.
            find_scan-Keeps d FindOpts.ids_only
              (record t { scan_position = 0; mongo_count_result = k; mongo_count_returned = 0 }) h))
        (find_scan-Keeps d FindOpts.no_timeout (record t { scan_position = 0 }) h)

  begin_scan-Keeps :
      (d : Server) (scan : Bool) (r : Code × HaMongodb)
      → Keeps Q r.1
      → Keeps Q (begin_scan d scan r).1
  unfolding begin_scan count_scan
  begin_scan-Keeps d scan (Code.ok, t) h =
      let P : Code × HaMongodb → Type 0 = λ r. Keeps Q r.1 in
      let u = start_tracking scan t in
      let k = track-Holds (Q3 Q) scan t h in
      if-both P u.count_mode
        (option-both P (d.count_documents u.collection (query_of u.pushed_condition)) k (λ n. k))
        (document_scan-Keeps d scan u k)
  begin_scan-Keeps d scan (_, t) h = h

  rnd_init-Keeps :
      (d : Server) (scan : Bool) (s : HaMongodb) → Keeps Q s → Keeps Q (rnd_init d scan s).1
  unfolding rnd_init
  rnd_init-Keeps d scan s h =
      begin_scan-Keeps d scan (ensure_collection d (reset_for_scan scan s))
        (connects d (reset_for_scan scan s) (reset-Holds (Q3 Q) scan s h))

  rewind_if-Keeps :
      (d : Server) (fields : List Column) (target : ℕ) (r : Code × HaMongodb)
      → Keeps Q r.1
      → Keeps Q (rewind_if d fields target r).handler
  unfolding rewind_if
  rewind_if-Keeps d fields target (Code.ok, t) h =
      rewind-carries (Keeps Q) (Holds-Blind (Q3 Q)) d fields target t h
  rewind_if-Keeps d fields target (_, t) h = h

  rnd_pos-Keeps :
      (d : Server) (fields : List Column) (pos : Option ℕ) (s : HaMongodb)
      → Keeps Q s
      → Keeps Q (rnd_pos d fields pos s).handler
  unfolding rnd_pos
  rnd_pos-Keeps d fields none s h = h
  rnd_pos-Keeps d fields (some target) s h =
      let P : Read → Type 0 = λ r. Keeps Q r.handler in
      if-both P (not (is_there s.collection)) h (
        if-both P (not (is_there s.cursor))
          (rewind_if-Keeps d fields target (rnd_init d true s) (rnd_init-Keeps d true s h))
          (rewind-carries (Keeps Q) (Holds-Blind (Q3 Q)) d fields target s h))

  pub run-Keeps : (c : Call) (s : HaMongodb) → IsInner c → Keeps Q s → Keeps Q (run c s)
  unfolding index_init index_end read_range_first position cond_pop reset write_row update_row
      delete_row index_read index_read_map rnd_end
  run-Keeps (Call.open_table room alloc text) s f h = absurd f
  run-Keeps Call.close s f h = absurd f
  run-Keeps (Call.rnd_init d scan) s f h = rnd_init-Keeps d scan s h
  run-Keeps (Call.rnd_next fields) s f h =
      rnd_next-carries (Keeps Q) (Holds-Blind (Q3 Q)) fields s h
  run-Keeps Call.rnd_end s f h = h
  run-Keeps Call.position s f h = h
  run-Keeps (Call.rnd_pos d fields pos) s f h = rnd_pos-Keeps d fields pos s h
  run-Keeps (Call.index_init keynr) s f h = h
  run-Keeps (Call.index_read_map d fields) s f h =
      index_connected-Holds (Q3 Q) d fields (ensure_collection d s) (connects d s h)
  run-Keeps (Call.index_read d fields) s f h =
      index_connected-Holds (Q3 Q) d fields (ensure_collection d s) (connects d s h)
  run-Keeps (Call.index_next fields) s f h =
      index_next-carries (Keeps Q) (Holds-Blind (Q3 Q)) fields s h
  run-Keeps Call.index_end s f h = h
  run-Keeps (Call.read_range_first d) s f h =
      option-both (λ (r : Code × HaMongodb). Keeps Q r.1) (d.find s.collection [] FindOpts.plain) h
        (λ c. h)
  run-Keeps Call.read_range_next s f h = read_range_next-carries (Keeps Q) (Holds-Blind (Q3 Q)) s h
  run-Keeps (Call.info d) s f h = info-Holds (Q3 Q) d s h
  run-Keeps (Call.cond_push cond) s f h = cond_push-Holds (Q3 Q) cond s h
  run-Keeps Call.cond_pop s f h = h
  run-Keeps (Call.extra operation) s f h = extra-Holds (Q3 Q) operation s h
  run-Keeps Call.reset s f h = h
  run-Keeps Call.write_row s f h = h
  run-Keeps Call.update_row s f h = h
  run-Keeps Call.delete_row s f h = h
