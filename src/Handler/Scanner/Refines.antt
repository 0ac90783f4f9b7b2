-- ===== src/Handler/Scanner/Refines.antt =====
-- Whole runs of calls: src/ha_mongodb_handler.cc.
use mongodb_engine.Base.{
  ℕ, ◌+◌, ◌-◌, ◌%◌, ◌^◌, ◌<◌, ◌≡◌, refl, ap, ap₂, ◌∙◌, false, List, [], ◌∷◌, map, Option, none,
  some, length, Bool-cases, if-both, option-both, ◌&&◌, inl, inr,
}
use mongodb_engine.Handler.Defs.{Column, Code, Doc, Collection, FindOpts, Server, HaMongodb}
use mongodb_engine.Handler.Convert.{Cell}
use mongodb_engine.Handler.Scan.{is_there, rnd_next, rnd_end, position, query_of}
use mongodb_engine.Handler.Stats.{Extra, has_text, info, cond_push, cond_pop, extra}
use mongodb_engine.Translator.{translate_condition_to_bson}
use mongodb_engine.Handler.FullScan.{row_of}
use mongodb_engine.Handler.Scanner.{
  Ask, of_read, of_code, perform, replies, Scanner, serve, answers,
}
use mongodb_engine.Handler.Scanner.Simulation.{
  Simulates, Follows, rest_at, rows, rnd_next-idle, next-reading, stays-Follows,
}
use mongodb_engine.Handler.Scanner.Seeking.{start-Follows, rnd_pos-Follows}

module _ (d : Server) (fields : List Column) (c : Collection) (docs : List Doc)
    (whole : (o : FindOpts) → d.find (some c) [] o ≡ some (rest_at docs 0 false))
    (few : length docs < 2 ^ 64) where
  abbrev rs : List (List Cell)
  rs = rows d fields c docs whole few

  next-Follows :
      (a : Scanner) (s : HaMongodb)
      → Simulates docs c s a
      → Follows docs c (of_read (rnd_next fields s)) (serve rs Ask.next a)
  next-Follows a s h = elim (Bool-cases a.reading) [
    | inl e ↦ simp (e) (next-reading d fields c docs whole few a s h e)
    | inr e ↦ simp (e) (
        stays-Follows d fields c docs whole few a s h
          (rnd_next-idle fields s h.uncounted (h.held ∙ rw e refl)))
  ]

  kept :
      (a : Scanner) (s : HaMongodb)
      → Simulates docs c s a
      → (t : HaMongodb) → t.collection ≡ s.collection
      → t.cursor ≡ s.cursor
      → t.scan_position ≡ s.scan_position
      → t.ref ≡ s.ref
      → t.count_mode ≡ false
      → t.lightweight_count_mode ≡ false
      → Simulates docs c t a
  kept a s h t e f p r u l = record {
    connected = e ∙ h.connected;
    held = f ∙ h.held;
    placed = p ∙ h.placed;
    within = h.within;
    marked = r ∙ h.marked;
    uncounted = u;
    full = l;
  }

  extra-Follows :
      (operation : Extra) (a : Scanner) (s : HaMongodb)
      → Simulates docs c s a
      → Follows docs c (of_code (extra operation s)) ((Code.ok, none), a)
  unfolding extra
  extra-Follows Extra.reset_state a s h = (refl, kept a s h _ refl refl refl refl refl h.full)
  extra-Follows Extra.keyread a s h = (refl, kept a s h _ refl refl refl refl h.uncounted h.full)
  extra-Follows Extra.no_keyread a s h = (refl, kept a s h _ refl refl refl refl h.uncounted h.full)
  extra-Follows (Extra.other n) a s h = (refl, h)

  perform-Follows :
      (q : Ask) (a : Scanner) (s : HaMongodb)
      → Simulates docs c s a
      → Follows docs c (perform d fields q s) (serve rs q a)
  perform-Follows Ask.start a s h = start-Follows d fields c docs whole few a s h
  perform-Follows Ask.next a s h = next-Follows a s h
  perform-Follows Ask.stop a s h =
      unfold rnd_end in
      (
        refl,
        record {
          connected = h.connected;
          held = refl;
          placed = h.placed;
          within = h.within;
          marked = h.marked;
          uncounted = refl;
          full = refl;
        },
      )
  perform-Follows Ask.mark a s h =
      unfold position in
      (
        refl,
        record {
          connected = h.connected;
          held = h.held;
          placed = h.placed;
          within = h.within;
          marked = ap (λ k. (k + 2 ^ 64 - 1) % 2 ^ 64) h.placed;
          uncounted = h.uncounted;
          full = h.full;
        },
      )
  perform-Follows Ask.pop a s h =
      unfold cond_pop in (refl, kept a s h _ refl refl refl refl h.uncounted h.full)
  perform-Follows (Ask.seek target) a s h = rnd_pos-Follows d fields c docs whole few target a s h
  perform-Follows (Ask.push none) a s h = unfold cond_push in (refl, h)
  perform-Follows (Ask.push (some cond)) a s h =
      unfold cond_push in
      (
        refl,
        if-both (λ (r : Option ℕ × HaMongodb). Simulates docs c r.1 a)
            (translate_condition_to_bson (some cond) []).0
            (kept a s h _ refl refl refl refl h.uncounted h.full) h,
      )
  perform-Follows (Ask.hint operation) a s h = extra-Follows operation a s h
  perform-Follows (Ask.inspect e) a s h =
      unfold info in
      if-both (λ (r : Code × HaMongodb). Follows docs c (of_code r) ((Code.ok, none), a))
        (is_there s.client && is_there s.collection && has_text s.share)
        (option-both (λ (r : Code × HaMongodb). Follows docs c (of_code r) ((Code.ok, none), a))
          (e.count_documents s.collection (query_of s.pushed_condition))
          (refl, kept a s h _ refl refl refl refl h.uncounted h.full)
          (λ n. (refl, kept a s h _ refl refl refl refl h.uncounted h.full)))
        (refl, kept a s h _ refl refl refl refl h.uncounted h.full)

  -- In whatever order MariaDB asks a connected handler to start and to stop a table scan, for the next
  -- row, for the row at a position, to note the position, to take or to drop a condition, for the key
  -- read mode, to reset the modes and for statistics: it replies as the abstract scanner, which has
  -- the rows of the table's documents and no filter, mode or cursor, and for which the first read
  -- behind the rows is their end and a further one an error; as long as the driver gives the
  -- same fewer than 2^64 documents with no error for every `find` with the empty filter, and the
  -- handler and the scanner start in states that match.
  pub run_refines :
      (qs : List Ask) (a : Scanner) (s : HaMongodb)
      → Simulates docs c s a
      → replies d fields qs s ≡ answers (map (row_of fields) docs) qs a
  unfolding replies answers
  run_refines [] a s h = refl
  run_refines (q ∷ qs) a s h =
      let f = perform-Follows q a s h in
      ap₂ (λ x y. x ∷ y) f.0 (run_refines qs (serve rs q a).1 (perform d fields q s).1 f.1)
