-- ===== src/Handler/Finite.antt =====
-- A scan comes to its end: src/ha_mongodb_handler.cc.
use mongodb_engine.Base.{
  ℕ, suc, zero, ◌+◌, ◌<◌, ◌≡◌, ◌≢◌, sym, ap, not, ◌||◌, ◌&&◌, List, [], ◌∷◌, Option, none, some,
  Bytes, codes, contains_sub, length, subst, if-both, option-both, option-known, arith,
}
use mongodb_engine.Handler.Defs.{Column, Code, Doc, Cursor, HaMongodb}
use mongodb_engine.Handler.Convert.{Cell, convert_document_to_row}
use mongodb_engine.Handler.Scan.{
  Read, is_there, error_code, count_call, deliver, next_document, rnd_next,
}
use mongodb_engine.Handler.FullScan.{gather, read_all}

-- What the driver's cursor can still give.
abbrev pub documents_of : Option Cursor → ℕ
documents_of none = 0
documents_of (some cursor) = length cursor.documents

abbrev pub remaining : HaMongodb → ℕ
remaining s = documents_of s.cursor

-- A read without a row fails; a read with a row has taken one document of `n`.
abbrev Decides : ℕ → Read → Type 0
Decides n r = elim r.row [ none ↦ r.code ≢ Code.ok | some _ ↦ remaining r.handler + 1 ≡ n ]

abbrev Fails : Code → Type 0
Fails c = c ≢ Code.ok

error_code_fails : (message : Bytes) → error_code message ≢ Code.ok
unfolding error_code
error_code_fails message =
    let lost : Code.no_connection ≢ Code.ok = λ e. absurd (cc) in
    let unknown : Code.no_such_table ≢ Code.ok = λ e. absurd (cc) in
    let broken : Code.internal_error ≢ Code.ok = λ e. absurd (cc) in
    if-both Fails
      (contains_sub (codes "connection refused") message
        || contains_sub (codes "No suitable servers found") message)
      lost
      (if-both Fails
        (contains_sub (codes "Authentication failed") message
          || contains_sub (codes "not authorized") message)
        lost
        (if-both Fails
          (contains_sub (codes "Collection") message && contains_sub (codes "not found") message)
          unknown broken))

deliver-Decides :
    (fields : List Column) (doc : Option Doc) (t : HaMongodb) (n : ℕ)
    → remaining t + 1 ≡ n
    → Decides n (deliver fields doc t)
unfolding deliver
deliver-Decides fields doc t n h =
    if-both (Decides n) t.lightweight_count_mode h
      (option-both (Decides n) (convert_document_to_row fields doc) (λ e. absurd (cc)) (λ row. h))

next_document-Decides :
    (fields : List Column) (cursor : Cursor) (t : HaMongodb)
    → Decides (length cursor.documents) (next_document fields cursor t)
unfolding next_document
next_document-Decides fields cursor t = go cursor.documents cursor.error
  where
    go :
        (ds : List (Option Doc)) (m : Option Bytes)
        → Decides (length ds) (next_document fields (record { documents = ds; error = m }) t)
    go [] none = λ e. absurd (cc)
    go [] (some message) = error_code_fails message
    go (d ∷ rest) m =
        if-both (Decides (length (d ∷ rest))) (not (is_there d)) (λ e. absurd (cc))
          (deliver-Decides fields d _ _ (omega arith))

rnd_next-Decides :
    (fields : List Column) (s : HaMongodb) → Decides (remaining s) (rnd_next fields s)
unfolding rnd_next
rnd_next-Decides fields s =
    if-both (Decides (remaining s)) s.count_mode (λ e. absurd (cc))
      (option-known (Decides (remaining s)) s.cursor (λ e k. absurd (cc))
        (λ cursor e.
          subst (λ n. Decides n (next_document fields cursor (count_call s)))
            (sym (ap documents_of e)) (next_document-Decides fields cursor (count_call s))))

gather_step :
    (fields : List Column) (n : ℕ) (r : Read) (left : ℕ)
    → Decides left r
    → left < suc n
    → ((t : HaMongodb) → remaining t < n → (read_all n fields t).1 ≢ Code.ok)
    → (gather r.row r.code (read_all n fields r.handler)).1 ≢ Code.ok
gather_step fields n r left h l next = go r.row h
  where
    go :
        (row : Option (List Cell))
        → Decides left (record { code = r.code; row = row; handler = r.handler })
        → (gather row r.code (read_all n fields r.handler)).1 ≢ Code.ok
    go none k = k
    go (some row) k = next r.handler (omega (arith, k))

-- However a handler stands, a scan that goes on until a read gives no row ends with a code other than
-- success, after at most one read more than its cursor has documents.
pub read_all_ends :
    (fields : List Column) (s : HaMongodb) → (read_all (suc (remaining s)) fields s).1 ≢ Code.ok
read_all_ends fields s = ends (suc (remaining s)) s (omega arith)
  where
    ends : (n : ℕ) (t : HaMongodb) → remaining t < n → (read_all n fields t).1 ≢ Code.ok
    ends zero t h = absurd (omega arith)
    ends (suc n) t h =
        gather_step fields n (rnd_next fields t) (remaining t) (rnd_next-Decides fields t) h
          (ends n)
