-- ===== src/Handler/Steady.antt =====
-- What the calls leave of a property of the share, the collection and the lost cursors, which few of
-- them touch: src/ha_mongodb_handler.cc.
pub mod Calls
use mongodb_engine.Base.{
  subst, sym, option-known, false, ℕ, Bool, true, ◌&&◌, List, [], Option, none, some, Bytes,
  if-both, option-both,
}
use mongodb_engine.Share.Defs.{MongodbShare}
use mongodb_engine.Handler.Defs.{Column, Collection, Code, FindOpts, Server, HaMongodb}
use mongodb_engine.Handler.Scan.{
  lose, assign_cursor, start_tracking, reset_for_scan, Read, is_there, query_of,
}
use mongodb_engine.Handler.Index.{index_open, index_connected}
use mongodb_engine.Translator.{translate_condition_to_bson}
use mongodb_engine.Handler.Stats.{info, has_text, cond_push, Extra, extra}
use mongodb_engine.Handler.Carry.{Blind, index_fetch-carries}

module _ (Q : Option MongodbShare → Option Collection → ℕ → Type 0) where
  abbrev pub Holds : HaMongodb → Type 0
  Holds s = Q s.share s.collection s.lost_cursors

  pub Holds-Blind : Blind Holds
  Holds-Blind s cursor doc at calls scanned h = h

  pub track-Holds : (scan : Bool) (s : HaMongodb) → Holds s → Holds (start_tracking scan s)
  unfolding start_tracking
  track-Holds true s h = h
  track-Holds false s h = h

  pub reset-Holds : (scan : Bool) (s : HaMongodb) → Holds s → Holds (reset_for_scan scan s)
  unfolding reset_for_scan
  reset-Holds true s h = h
  reset-Holds false s h = h

  pub index_connected-Holds :
      (d : Server) (fields : List Column) (r : Code × HaMongodb)
      → Holds r.1
      → Holds (index_connected d fields r).handler
  unfolding index_connected index_open
  index_connected-Holds d fields (Code.ok, t) h =
      let P : Read → Type 0 = λ r. Holds r.handler in
      option-known P t.cursor
        (λ n.
          let k : Q t.share t.collection (lose t.cursor t.lost_cursors) =
            subst (λ o. Q t.share t.collection (lose o t.lost_cursors)) (sym n) h in
          option-both P (d.find t.collection (query_of t.pushed_condition) FindOpts.plain) k (λ c.
            index_fetch-carries Holds Holds-Blind fields c
              (record (assign_cursor (some c) t) { current_doc = none; scan_position = 0 }) k))
        (λ c e. index_fetch-carries Holds Holds-Blind fields c t h)
  index_connected-Holds d fields (_, t) h = h

  pub info-Holds : (d : Server) (s : HaMongodb) → Holds s → Holds (info d s).1
  unfolding info
  info-Holds d s h =
      let P : Code × HaMongodb → Type 0 = λ r. Holds r.1 in
      if-both P (is_there s.client && is_there s.collection && has_text s.share)
        (option-both P (d.count_documents s.collection (query_of s.pushed_condition)) h (λ n. h)) h

  pub cond_push-Holds : (cond : Option ℕ) (s : HaMongodb) → Holds s → Holds (cond_push cond s).1
  unfolding cond_push
  cond_push-Holds none s h = h
  cond_push-Holds (some c) s h =
      if-both (λ (r : Option ℕ × HaMongodb). Holds r.1) (translate_condition_to_bson (some c) []).0
        h h

  pub extra-Holds : (operation : Extra) (s : HaMongodb) → Holds s → Holds (extra operation s).1
  unfolding extra
  extra-Holds Extra.reset_state s h = h
  extra-Holds Extra.keyread s h = h
  extra-Holds Extra.no_keyread s h = h
  extra-Holds (Extra.other n) s h = h
