-- ===== src/Handler/Scanner/Simulation.antt =====
-- The handler gives the replies of the abstract scanner, whatever it is asked.
use mongodb_engine.Base.{
  ℕ, suc, ◌+◌, ◌^◌, ◌≤◌, ◌<◌, ◌≡◌, refl, sym, Bool, contains_sub, starts_with, ap, ap₂, ◌∙◌, true,
  false, not, List, [], ◌∷◌, map, Option, none, some, Bytes, length, drop, ltb, if◌then◌else◌,
  Option-cases, inl, inr, option-both, arith,
}
use mongodb_engine.Handler.Defs.{
  Column, Code, Doc, Cursor, completed, advanced, Collection, FindOpts, Server, HaMongodb, next_row,
}
use mongodb_engine.Handler.Convert.{Cell}
use mongodb_engine.Handler.Scan.{
  Read, rnd_init, rnd_next, skip_to, count_call, next_document, reset_for_scan, ensure_collection,
  begin_scan, start_tracking, error_code, document_scan, find_scan,
}
use mongodb_engine.Handler.FullScan.{Delivers, row_of, rnd_next-Delivers}
use mongodb_engine.Handler.Carry.{Blind, rnd_next-carries}
use mongodb_engine.Handler.Scanner.{Reply, of_read, Scanner, get_elem?, give}
use mongodb_engine.Handler.Scanner.Elements.{
  drop-get_elem?, get_elem?-none, get_elem?-lt, drop-length, get_elem?-map,
}

-- The loop runs out of documents in front of the target, or at it.
pub skip_to-short :
    (target at : ℕ) (ds : List (Option Doc))
    → at + length ds ≤ target
    → at + length ds < 2 ^ 64
    → skip_to target at ds ≡ (not (ltb (at + length ds) target), (at + length ds, []))
unfolding skip_to
skip_to-short target at [] h b = ground arith
skip_to-short target at (x ∷ ds) h b =
    let n : next_row at ≡ at + 1 = ground arith in
    let l : ltb at target ≡ true = ground arith in
    let m : at + 1 + length ds ≡ at + suc (length ds) = omega arith in
    rw l (
      rw n (
        skip_to-short target (at + 1) ds (omega arith) (omega arith)
        ∙ ap (λ k. (not (ltb k target), (k, []))) m))

abbrev pub spent_error : Bool → Option Bytes
spent_error spent = if spent then some completed else none

-- What a cursor of the driver has left of the documents at row `k`.
abbrev pub rest_at : List Doc → ℕ → Bool → Cursor
rest_at docs k spent = record { documents = map some (drop k docs); error = spent_error spent }

pub record Simulates (docs : List Doc) (c : Collection) (s : HaMongodb) (a : Scanner) : Type 0 where
  pub connected : s.collection ≡ some c
  pub held : s.cursor ≡ (if a.reading then some (rest_at docs a.place a.spent) else none)
  pub placed : s.scan_position ≡ a.place
  pub within : a.place ≤ length docs
  pub marked : s.ref ≡ a.ref
  pub uncounted : s.count_mode ≡ false
  pub full : s.lightweight_count_mode ≡ false

-- The same reply, and states that go on alike.
abbrev pub Follows : List Doc → Collection → Reply × HaMongodb → Reply × Scanner → Type 0
Follows docs c r q = (r.0 ≡ q.0) × Simulates docs c r.1 q.1

pub rnd_next-idle :
    (fields : List Column) (s : HaMongodb)
    → s.count_mode ≡ false
    → s.cursor ≡ none
    → rnd_next fields s ≡ record { code = Code.end_of_file; row = none; handler = count_call s }
unfolding rnd_next
rnd_next-idle fields s u e = simp (u, e)

completed_code : error_code completed ≡ Code.internal_error
unfolding error_code contains_sub starts_with
completed_code = refl

rnd_next-done :
    (fields : List Column) (s : HaMongodb) (spent : Bool)
    → s.count_mode ≡ false
    → s.cursor ≡ some (record { documents = []; error = spent_error spent })
    → rnd_next fields s ≡ record {
      code = if spent then Code.internal_error else Code.end_of_file;
      row = none;
      handler = record (count_call s) { cursor = some (advanced (spent_error spent)) };
    }
unfolding rnd_next next_document
rnd_next-done fields s false u e = simp (u, e) refl
rnd_next-done fields s true u e =
    let same : count_call s
        ≡ record (count_call s) { cursor = some (advanced (spent_error true)) } =
      unfold count_call in ap (λ k. record (count_call s) { cursor = k }) e in
    simp (u, e) (ap₂ (λ k t. record { code = k; row = none; handler = t }) completed_code same)

pub rnd_init-ref :
    (d : Server) (s : HaMongodb) (c : Collection)
    → s.collection ≡ some c
    → (rnd_init d true s).1.ref ≡ s.ref
unfolding rnd_init reset_for_scan ensure_collection begin_scan start_tracking document_scan
    find_scan
rnd_init-ref d s c e = simp (e) (
    option-both (λ (r : Code × HaMongodb). r.1.ref ≡ s.ref) (d.find (some c) [] FindOpts.no_timeout)
      refl (λ k. refl))

pub ended_at :
    (spent : Bool) (ds : List Doc)
    → ds ≡ []
    → some (advanced (spent_error spent))
      ≡ some (record { documents = map some ds; error = spent_error true })
ended_at true ds e =
    ap (λ k. some (record { documents = map some k; error = some completed })) (sym e)
ended_at false ds e =
    ap (λ k. some (record { documents = map some k; error = some completed })) (sym e)

module _ (d : Server) (fields : List Column) (c : Collection) (docs : List Doc)
    (whole : (o : FindOpts) → d.find (some c) [] o ≡ some (rest_at docs 0 false))
    (few : length docs < 2 ^ 64) where
  abbrev pub rows : List (List Cell)
  rows = map (row_of fields) docs

  abbrev Tied : ℕ → HaMongodb → Type 0
  Tied ref t = (t.collection ≡ some c) × (t.ref ≡ ref)

  Tied-Blind : (ref : ℕ) → Blind (Tied ref)
  Tied-Blind ref t cursor doc at calls scanned h = h

  -- A row that is delivered.
  delivered-Follows :
      (a : Scanner) (k : ℕ) (doc : Doc) (r : Read)
      → k < length docs
      → Tied a.ref r.handler
      → Delivers fields doc (drop (suc k) docs) (spent_error a.spent) k r
      → Follows docs c
          (of_read r)
          ((Code.ok, some (row_of fields doc)), record a { reading = true; place = k + 1 })
  delivered-Follows a k doc r l t h =
      let n : next_row k ≡ k + 1 = ground arith in
      let m : suc k ≡ k + 1 = omega arith in
      (
        ap₂ (λ x y. (x, y)) h.succeeds h.delivered,
        record {
          connected = t.0;
          held = h.moved.here ∙ ap (λ j. some (rest_at docs j a.spent)) m;
          placed = h.moved.numbered ∙ n;
          within = omega arith;
          marked = t.1;
          uncounted = h.moved.uncounted;
          full = h.moved.full;
        },
      )

  -- A read that finds no row.
  pub stays-Follows :
      (a : Scanner) (s : HaMongodb)
      → Simulates docs c s a
      → rnd_next fields s ≡ record { code = Code.end_of_file; row = none; handler = count_call s }
      → Follows docs c (of_read (rnd_next fields s)) ((Code.end_of_file, none), a)
  unfolding count_call
  stays-Follows a s h e = rw e (
    refl,
    record {
      connected = h.connected;
      held = h.held;
      placed = h.placed;
      within = h.within;
      marked = h.marked;
      uncounted = h.uncounted;
      full = h.full;
    },
  )

  pub held_at :
      (a : Scanner) (s : HaMongodb)
      → Simulates docs c s a
      → a.reading ≡ true
      → s.cursor ≡ some (rest_at docs a.place a.spent)
  held_at a s h e = h.held ∙ rw e

  -- A read behind the last row.
  ended-Follows :
      (a : Scanner) (s : HaMongodb)
      → Simulates docs c s a
      → a.reading ≡ true
      → drop a.place docs ≡ []
      → Follows docs c (of_read (rnd_next fields s)) (give none a.place a)
  unfolding count_call
  ended-Follows a s h e left =
      rw
        (rnd_next-done fields s a.spent h.uncounted (
          held_at a s h e
          ∙ ap (λ ds. some (record { documents = map some ds; error = spent_error a.spent })) left))
        (
          refl,
          record {
            connected = h.connected;
            held = ended_at a.spent (drop a.place docs) left;
            placed = h.placed;
            within = h.within;
            marked = h.marked;
            uncounted = h.uncounted;
            full = h.full;
          },
        )

  pub next-reading :
      (a : Scanner) (s : HaMongodb)
      → Simulates docs c s a
      → a.reading ≡ true
      → Follows docs c (of_read (rnd_next fields s)) (give (get_elem? rows a.place) a.place a)
  next-reading a s h e = elim (Option-cases (get_elem? docs a.place)) [
    | inl n ↦
        let left : drop a.place docs ≡ [] =
          ap (λ k. drop k docs) (get_elem?-none docs a.place h.within n) ∙ drop-length docs in
        rw (get_elem?-map (row_of fields) docs a.place, n) (ended-Follows a s h e left)
    | inr (doc, n) ↦
        rw (get_elem?-map (row_of fields) docs a.place, n)
          (delivered-Follows a a.place doc (rnd_next fields s) (get_elem?-lt docs a.place doc n)
            (rnd_next-carries (Tied a.ref) (Tied-Blind a.ref) fields s (h.connected, h.marked))
            (rnd_next-Delivers fields doc (drop (suc a.place) docs) (spent_error a.spent) a.place s
              (record {
                here =
                    held_at a s h e
                    ∙ ap
                        (λ ds.
                          some (record { documents = map some ds; error = spent_error a.spent }))
                        (drop-get_elem? docs a.place doc n);
                numbered = h.placed;
                uncounted = h.uncounted;
                full = h.full;
              })))
  ]
