-- ===== src/Handler/Scanner/Seeking.antt =====
-- The scan goes to a position: src/ha_mongodb_handler.cc.
use mongodb_engine.Base.{
  ℕ, ◌+◌, ◌-◌, ◌^◌, ◌≤◌, ◌<◌, ◌≡◌, refl, sym, ap, ◌∙◌, true, false, not, List, [], map, none, some,
  length, length-drop, drop, ltb, subst, Bool-cases, inl, inr, arith, if◌then◌else◌, ◌||◌, if-both,
  Option, some,
}
use mongodb_engine.Handler.Defs.{
  Column, Code, Doc, Collection, FindOpts, Server, HaMongodb, advanced,
}
use mongodb_engine.Handler.Convert.{Cell}
use mongodb_engine.Handler.Scan.{rnd_init, skip_to, seek, rewind, rnd_pos, failing}
use mongodb_engine.Handler.FullScan.{row_of, rnd_init-At}
use mongodb_engine.Handler.Seek.{seek_step, rewind_step, stay_step, rnd_pos_step}
use mongodb_engine.Handler.Scanner.{
  Ask, of_read, of_code, Scanner, get_elem?, give, seek_on, seek_row, serve,
}
use mongodb_engine.Handler.Scanner.Simulation.{
  ended_at, spent_error, Simulates, Follows, rest_at, rows, skip_to-short, next-reading, held_at,
  rnd_init-ref,
}
use mongodb_engine.Handler.Scanner.Elements.{drop-length, length-map}
use mongodb_engine.Handler.Scanner.Steps.{skip_to-drop, drop-drop, seek_short, rnd_pos_idle}

module _ (d : Server) (fields : List Column) (c : Collection) (docs : List Doc)
    (whole : (o : FindOpts) → d.find (some c) [] o ≡ some (rest_at docs 0 false))
    (few : length docs < 2 ^ 64) where
  abbrev rs : List (List Cell)
  rs = rows d fields c docs whole few

  -- The scan at a target that the table has, or behind its last row.
  give_same :
      (o : Option (List Cell)) (place : ℕ) (a : Scanner)
      → give o place a ≡ give o place (record a { reading = true; place = place })
  give_same none place a = refl
  give_same (some row) place a = refl

  seek_within :
      (target : ℕ) (a : Scanner) (s : HaMongodb)
      → Simulates docs c s a
      → a.reading ≡ true
      → a.place ≤ target
      → target ≤ length docs
      → Follows docs c (of_read (seek fields target s)) (seek_on rs target a)
  seek_within target a s h e l m =
      let n = target - a.place in
      let t : a.place + n ≡ target = omega arith in
      let found : skip_to target s.scan_position (map some (drop a.place docs))
          ≡ (true, (target, map some (drop target docs))) =
        ap (λ k. skip_to target k (map some (drop a.place docs))) h.placed
        ∙ subst
            (λ u.
              skip_to u a.place (map some (drop a.place docs))
              ≡ (true, (u, map some (drop u docs))))
            t
            (skip_to-drop n a.place (drop a.place docs) (omega (arith, length-drop a.place docs))
                (omega arith)
              ∙ ap (λ ds. (true, (a.place + n, map some ds))) (drop-drop n a.place docs)) in
      let size : length rs ≡ length docs = length-map (row_of fields) docs in
      let inside : ltb (length rs) target ≡ false = ground (arith, size) in
      let aim = record a { reading = true; place = target } in
      rw (inside, give_same (get_elem? rs target) target a)
        (subst (λ r. Follows docs c (of_read r) (give (get_elem? rs target) target aim))
          (sym (
            seek_step fields target (rest_at docs a.place a.spent) s (map some (drop target docs))
              (held_at d fields c docs whole few a s h e) found))
          (next-reading d fields c docs whole few aim _
            (record {
              connected = h.connected;
              held = refl;
              placed = refl;
              within = m;
              marked = h.marked;
              uncounted = h.uncounted;
              full = h.full;
            })
            refl))

  -- The scan runs out of documents in front of the target.
  seek_behind :
      (target : ℕ) (a : Scanner) (s : HaMongodb)
      → Simulates docs c s a
      → a.reading ≡ true
      → length docs < target
      → Follows docs c (of_read (seek fields target s)) (seek_on rs target a)
  seek_behind target a s h e m =
      let ds = map some (drop a.place docs) in
      let at : a.place + length ds ≡ length docs =
        omega (arith, length-map some (drop a.place docs), length-drop a.place docs, h.within) in
      let short : skip_to target s.scan_position ds ≡ (false, (length docs, [])) =
        ap (λ k. skip_to target k ds) h.placed
        ∙ skip_to-short target a.place ds (omega arith) (omega arith)
        ∙ ap (λ k. (not (ltb k target), (k, []))) at
        ∙ ap (λ b. (not b, (length docs, []))) {y = true} (ground arith) in
      let fail : seek fields target s
          ≡ failing Code.key_not_found (record s {
            cursor = some (advanced (spent_error a.spent));
            scan_position = length docs;
          }) =
        seek_short fields target (rest_at docs a.place a.spent) s [] (length docs)
          (held_at d fields c docs whole few a s h e) short in
      let size : length rs ≡ length docs = length-map (row_of fields) docs in
      let beyond : ltb (length rs) target ≡ true = ground (arith, size) in
      rw (fail) (
        rw (beyond, size)
          (
            refl,
            record {
              connected = h.connected;
              held = ended_at a.spent (drop (length docs) docs) (drop-length docs);
              placed = refl;
              within = omega arith;
              marked = h.marked;
              uncounted = h.uncounted;
              full = h.full;
            },
          ))

  seek-Follows :
      (target : ℕ) (a : Scanner) (s : HaMongodb)
      → Simulates docs c s a
      → a.reading ≡ true
      → a.place ≤ target
      → Follows docs c (of_read (seek fields target s)) (seek_on rs target a)
  seek-Follows target a s h e l = elim (Bool-cases (ltb (length docs) target)) [
    | inl m ↦ seek_behind target a s h e (ground arith)
    | inr m ↦ seek_within target a s h e l (ground arith)
  ]

  seek_row_again :
      (target : ℕ) (a : Scanner)
      → a.reading ≡ true
      → ltb target a.place ≡ false
      → seek_row rs target a ≡ seek_on rs target a
  seek_row_again target a e l =
      let stays : (not a.reading || ltb target a.place) ≡ false = rw (e, l) refl in
      ap
        (λ b.
          if b
          then seek_on rs target (record a { reading = true; place = 0; spent = false })
          else seek_on rs target a)
        stays

  rewind-Follows :
      (target : ℕ) (a : Scanner) (s : HaMongodb)
      → Simulates docs c s a
      → a.reading ≡ true
      → Follows docs c (of_read (rewind d fields target s)) (seek_row rs target a)
  rewind-Follows target a s h e = elim (Bool-cases (ltb target s.scan_position)) [
    | inl l ↦
        rw
          (rewind_step d fields target c (rest_at docs 0 false) s h.connected (whole FindOpts.plain)
            l)
          (rw (e, sym (ap (ltb target) h.placed) ∙ l)
            (seek-Follows target (record a { reading = true; place = 0; spent = false }) _
              (record {
                connected = h.connected;
                held = refl;
                placed = refl;
                within = omega arith;
                marked = h.marked;
                uncounted = h.uncounted;
                full = h.full;
              })
              refl (omega arith)))
    | inr l ↦ rw (stay_step d fields target s l) (
        subst (λ q. Follows docs c (of_read (seek fields target s)) q)
          (sym (seek_row_again target a e (sym (ap (ltb target) h.placed) ∙ l)))
          (seek-Follows target a s h e (ground (arith, h.placed))))
  ]

  pub start-Follows :
      (a : Scanner) (s : HaMongodb)
      → Simulates docs c s a
      → Follows docs c (of_code (rnd_init d true s)) (serve rs Ask.start a)
  start-Follows a s h =
      let t = rnd_init-At d s c docs none h.connected (whole FindOpts.no_timeout) in
      (
        ap (λ k. (k, none)) t.0,
        record {
          connected = t.2;
          held = t.1.here;
          placed = t.1.numbered;
          within = omega arith;
          marked = rnd_init-ref d s c h.connected ∙ h.marked;
          uncounted = t.1.uncounted;
          full = t.1.full;
        },
      )

  seek_row_fresh :
      (target : ℕ) (a : Scanner)
      → let b = record a { reading = true; place = 0; spent = false } in
        seek_row rs target b ≡ seek_on rs target b
  seek_row_fresh target a =
      let b = record a { reading = true; place = 0; spent = false } in
      if-both (λ q. q ≡ seek_on rs target b) (ltb target 0) refl refl

  pub rnd_pos-Follows :
      (target : ℕ) (a : Scanner) (s : HaMongodb)
      → Simulates docs c s a
      → Follows docs c (of_read (rnd_pos d fields (some target) s)) (seek_row rs target a)
  rnd_pos-Follows target a s h = elim (Bool-cases a.reading) [
    | inl e ↦
        rw
          (rnd_pos_step d fields target c (rest_at docs a.place a.spent) s h.connected
            (held_at d fields c docs whole few a s h e))
          (rewind-Follows target a s h e)
    | inr e ↦
        let t = rnd_init-At d s c docs none h.connected (whole FindOpts.no_timeout) in
        let start : rnd_pos d fields (some target) s
            ≡ rewind d fields target (rnd_init d true s).1 =
          rnd_pos_idle d fields target c s h.connected (h.held ∙ rw e refl) t.0 in
        rw (start, e)
          (subst (λ q. Follows docs c (of_read (rewind d fields target (rnd_init d true s).1)) q)
            (seek_row_fresh target a)
            (rewind-Follows target (record a { reading = true; place = 0; spent = false }) _
              (start-Follows a s h).1 refl))
  ]
