-- ===== src/Handler/Scanner/Steps.antt =====
-- The parts of a search for a position: src/ha_mongodb_handler.cc.
use mongodb_engine.Base.{
  ℕ, suc, zero, ◌+◌, ◌^◌, ◌≤◌, ◌<◌, ◌≡◌, refl, sym, ap, ◌∙◌, true, false, List, [], ◌∷◌, map,
  Option, none, some, length, drop, ltb, subst, arith,
}
use mongodb_engine.Handler.Defs.{
  Column, Code, Doc, Cursor, Collection, Server, HaMongodb, advanced, next_row,
}
use mongodb_engine.Handler.Scan.{rnd_init, skip_to, seek, rewind, rewind_if, rnd_pos, failing}

-- The loop stops at the target that is not behind the last document.
pub skip_to-drop :
    (n k : ℕ) (xs : List Doc)
    → n ≤ length xs
    → k + n < 2 ^ 64
    → skip_to (k + n) k (map some xs) ≡ (true, (k + n, map some (drop n xs)))
unfolding skip_to
skip_to-drop zero k [] l b = ground arith
skip_to-drop zero k (x ∷ xs) l b = ground arith
skip_to-drop (suc n) k [] l b = absurd (omega arith)
skip_to-drop (suc n) k (x ∷ xs) l b =
    let m : next_row k ≡ k + 1 = ground arith in
    let u : ltb k (k + suc n) ≡ true = ground arith in
    let v : k + suc n ≡ (k + 1) + n = omega arith in
    rw u (
      rw m (
        subst (λ t. skip_to t (k + 1) (map some xs) ≡ (true, (t, map some (drop n xs)))) (sym v)
          (skip_to-drop n (k + 1) xs (omega arith) (omega arith))))

drop_nil {ℓ} : {A : Type ℓ} (n : ℕ) → drop {A = A} n [] ≡ []
drop_nil zero = refl
drop_nil (suc n) = refl

pub drop-drop {ℓ} : {A : Type ℓ} (n k : ℕ) (xs : List A) → drop n (drop k xs) ≡ drop (k + n) xs
drop-drop n zero xs = ap (λ m. drop m xs) (omega arith)
drop-drop n (suc k) [] = drop_nil n ∙ sym (drop_nil (suc k + n))
drop-drop n (suc k) (x ∷ xs) =
    drop-drop n k xs ∙ ap (λ m. drop m (x ∷ xs)) {x = suc (k + n)} {y = suc k + n} (omega arith)

-- The loop stops in front of the target.
pub seek_short :
    (fields : List Column) (target : ℕ) (cursor : Cursor) (s : HaMongodb) (left : List (Option Doc))
    (at : ℕ)
    → s.cursor ≡ some cursor
    → skip_to target s.scan_position cursor.documents ≡ (false, (at, left))
    → seek fields target s
      ≡ failing Code.key_not_found
          (record s { cursor = some (advanced cursor.error); scan_position = at })
seek_short fields target cursor s left at e f = unfold seek in rw (e, seek) (rw f refl)

-- Outside a scan, `rnd_pos` starts one.
pub rnd_pos_idle :
    (d : Server) (fields : List Column) (target : ℕ) (c : Collection) (s : HaMongodb)
    → s.collection ≡ some c
    → s.cursor ≡ none
    → (rnd_init d true s).0 ≡ Code.ok
    → rnd_pos d fields (some target) s ≡ rewind d fields target (rnd_init d true s).1
rnd_pos_idle d fields target c s e f g =
    unfold rnd_pos rewind_if in
    simp (e, f) (ap (λ k. rewind_if d fields target (k, (rnd_init d true s).1)) g)
