-- ===== src/Handler/Seek.antt =====
-- Rows that MariaDB comes back to: src/ha_mongodb_handler.cc.
use mongodb_engine.Base.{
  ℕ, suc, zero, ◌+◌, ◌^◌, ◌≤◌, ◌<◌, ◌≡◌, refl, sym, ap, ◌∙◌, true, false, List, [], ◌∷◌, ◌++◌, map,
  Option, none, some, Bytes, length, length-drop, drop, ltb, subst, Bool-cases, inl, inr, arith,
}
use mathlib.Core.List.{map-append}
use mongodb_engine.Handler.Defs.{
  Column, Doc, Cursor, Collection, FindOpts, Server, HaMongodb, next_row,
}
use mongodb_engine.Handler.Scan.{rnd_next, position, skip_to, seek, rewind, rnd_pos}
use mongodb_engine.Handler.FullScan.{At, Delivers, rnd_next-Delivers}

-- The loop stops in front of the target, if the documents behind the position are enough.
skip_to-append :
    (target at : ℕ) (skipped rest : List (Option Doc))
    → target ≡ at + length skipped
    → target < 2 ^ 64
    → skip_to target at (skipped ++ rest) ≡ (true, (target, rest))
unfolding skip_to
skip_to-append target at [] [] e h = ground arith
skip_to-append target at [] (d ∷ rest) e h = ground arith
skip_to-append target at (d ∷ ds) rest e h =
    let ih = skip_to-append target (at + 1) ds rest (omega arith) h in
    let n : next_row at ≡ at + 1 = ground arith in
    let l : ltb at target ≡ true = ground arith in rw l (rw n ih)

-- Where a scan stands at row `k` of the table's documents.
abbrev pub Stands : List Doc → ℕ → HaMongodb → Type 0
Stands docs k s =
    (s.cursor ≡ some (record { documents = map some (drop k docs); error = none }))
    × (s.scan_position ≡ k)
    × (s.count_mode ≡ false)
    × (s.lightweight_count_mode ≡ false)

-- The server gives these documents for every filter that is empty, in this order.
abbrev pub Stable : Server → Option Collection → List Doc → Type 0
Stable d c docs =
    d.find c [] FindOpts.plain ≡ some (record { documents = map some docs; error = none })

skip_to-map :
    (target k : ℕ) (skipped rest : List Doc) (doc : Doc)
    → target ≡ k + length skipped
    → target < 2 ^ 64
    → skip_to target k (map some (skipped ++ doc ∷ rest)) ≡ (true, (target, map some (doc ∷ rest)))
skip_to-map target k skipped rest doc e b =
    ap (skip_to target k) (map-append some skipped (doc ∷ rest))
    ∙ skip_to-append target k (map some skipped) (map some (doc ∷ rest))
        (e ∙ ap (λ n. k + n) (sym (length-map skipped))) b
  where
    length-map : (xs : List Doc) → length (map some xs) ≡ length xs
    length-map [] = refl
    length-map (x ∷ xs) = ap suc (length-map xs)

pub seek_step :
    (fields : List Column) (target : ℕ) (cursor : Cursor) (s : HaMongodb) (left : List (Option Doc))
    → s.cursor ≡ some cursor
    → skip_to target s.scan_position cursor.documents ≡ (true, (target, left))
    → seek fields target s
      ≡ rnd_next fields
          (record s { cursor = some (record cursor { documents = left }); scan_position = target })
seek_step fields target cursor s left e f = unfold seek in rw (e, seek) (rw f)

seek-ahead :
    (fields : List Column) (target k : ℕ) (skipped rest : List Doc) (doc : Doc) (s : HaMongodb)
    → target ≡ k + length skipped
    → target < 2 ^ 64
    → At (skipped ++ doc ∷ rest) none k s
    → Delivers fields doc rest none target (seek fields target s)
seek-ahead fields target k skipped rest doc s e b h =
    subst (Delivers fields doc rest none target)
      (sym (
        seek_step fields target
          (record { documents = map some (skipped ++ doc ∷ rest); error = none }) s
          (map some (doc ∷ rest)) h.here
          (ap (λ n. skip_to target n (map some (skipped ++ doc ∷ rest))) h.numbered
            ∙ skip_to-map target k skipped rest doc e b)))
      (rnd_next-Delivers fields doc rest none target _
        (record { here = refl; numbered = refl; uncounted = h.uncounted; full = h.full }))

pub rewind_step :
    (d : Server) (fields : List Column) (target : ℕ) (c : Collection) (cursor : Cursor)
    (s : HaMongodb)
    → s.collection ≡ some c
    → d.find (some c) [] FindOpts.plain ≡ some cursor
    → ltb target s.scan_position ≡ true
    → rewind d fields target s
      ≡ seek fields target (record s { cursor = some cursor; scan_position = 0 })
rewind_step d fields target c cursor s e f l =
    let g : d.find s.collection [] FindOpts.plain ≡ some cursor =
      ap (λ k. d.find k [] FindOpts.plain) e ∙ f in
    unfold rewind in rw (l, rewind) (rw g)

pub stay_step :
    (d : Server) (fields : List Column) (target : ℕ) (s : HaMongodb)
    → ltb target s.scan_position ≡ false
    → rewind d fields target s ≡ seek fields target s
unfolding rewind
stay_step d fields target s l = rw (l, rewind)

pub rnd_pos_step :
    (d : Server) (fields : List Column) (target : ℕ) (c : Collection) (cursor : Cursor)
    (s : HaMongodb)
    → s.collection ≡ some c
    → s.cursor ≡ some cursor
    → rnd_pos d fields (some target) s ≡ rewind d fields target s
rnd_pos_step d fields target c cursor s e f = unfold rnd_pos in simp (e, f)

drop-append :
    (k : ℕ) (before after : List Doc)
    → k ≤ length before
    → drop k (before ++ after) ≡ drop k before ++ after
drop-append zero before after h = refl
drop-append (suc k) [] after h = absurd (omega arith)
drop-append (suc k) (x ∷ before) after h = drop-append k before after (omega arith)

-- `rnd_pos` with the number of a row of a connected table delivers that row, wherever the scan stands,
-- as long as neither count mode is on, the driver gives the same documents for the empty filter, with
-- no error, and the number fits 64 bits; the scan then stands behind that row.
pub rnd_pos-Delivers :
    (d : Server) (fields : List Column) (c : Collection) (before rest : List Doc) (doc : Doc)
    (k : ℕ) (s : HaMongodb)
    → s.collection ≡ some c
    → Stable d (some c) (before ++ doc ∷ rest)
    → length before < 2 ^ 64
    → Stands (before ++ doc ∷ rest) k s
    → Delivers fields doc rest none (length before) (rnd_pos d fields (some (length before)) s)
rnd_pos-Delivers d fields c before rest doc k s e st b h =
    subst (Delivers fields doc rest none (length before))
      (sym (rnd_pos_step d fields (length before) c _ s e h.0))
      (elim (Bool-cases (ltb (length before) s.scan_position)) [
        | inl l ↦
            subst (Delivers fields doc rest none (length before))
              (sym (rewind_step d fields (length before) c _ s e st l))
              (seek-ahead fields (length before) 0 before rest doc _ (omega arith) b
                (record { here = refl; numbered = refl; uncounted = h.2; full = h.3 }))
        | inr l ↦
            let le : k ≤ length before = ground (arith, h.1) in
            subst (Delivers fields doc rest none (length before))
              (sym (stay_step d fields (length before) s l))
              (seek-ahead fields (length before) k (drop k before) rest doc s
                (ground (arith, length-drop k before)) b
                (record {
                  here =
                      h.0
                      ∙ ap (λ ds. some (record { documents = map some ds; error = none }))
                          (drop-append k before (doc ∷ rest) le);
                  numbered = h.1;
                  uncounted = h.2;
                  full = h.3;
                }))
      ])

position_lem :
    (rest : List Doc) (error : Option Bytes) (k : ℕ) (s : HaMongodb)
    → k < 2 ^ 64
    → At rest error (next_row k) s
    → (position s).ref ≡ k
unfolding position
position_lem rest error k s b h = ground (arith, h.numbered)

-- A row that a scan has just read and whose position is then taken is delivered again by `rnd_pos`
-- with that position, from any row `k` at which the scan of a connected table stands later, as long as
-- neither count mode is on, the driver gives the same documents for the empty filter, with no error,
-- and fewer than 2^64 rows stand before the row.
pub position-rnd_pos :
    (d : Server) (fields : List Column) (c : Collection) (before rest : List Doc) (doc : Doc)
    (k : ℕ) (s later : HaMongodb)
    → later.collection ≡ some c
    → Stable d (some c) (before ++ doc ∷ rest)
    → length before < 2 ^ 64
    → At (doc ∷ rest) none (length before) s
    → Stands (before ++ doc ∷ rest) k later
    → (rnd_pos d fields (some (position (rnd_next fields s).handler).ref) later).row
      ≡ (rnd_next fields s).row
position-rnd_pos d fields c before rest doc k s later e st b h u =
    let r = rnd_next-Delivers fields doc rest none (length before) s h in
    let p = position_lem rest none (length before) (rnd_next fields s).handler b r.moved in
    ap (λ n. (rnd_pos d fields (some n) later).row) p
    ∙ (rnd_pos-Delivers d fields c before rest doc k later e st b u).delivered
    ∙ sym r.delivered
