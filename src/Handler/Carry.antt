-- ===== src/Handler/Carry.antt =====
-- What the reads carry along: a property that does not look at the cursor, the document, the position
-- and the two counters of a read holds after each of them as it did before.
use mongodb_engine.Base.{ℕ, not, List, [], Option, none, some, ltb, if-both, option-both, list-both}
use mongodb_engine.Handler.Defs.{Column, Code, Doc, Cursor, FindOpts, Server, HaMongodb, advanced}
use mongodb_engine.Handler.Convert.{convert_document_to_row}
use mongodb_engine.Handler.Scan.{
  Read, is_there, count_call, deliver, next_document, rnd_next, skip_to, seek, rewind,
}
use mongodb_engine.Handler.Index.{index_row, index_fetch, index_next, range_fetch, read_range_next}

abbrev pub Blind : (HaMongodb → Type 0) → Type 0
Blind P =
    (s : HaMongodb) (cursor : Option Cursor) (doc : Option Doc) (at calls scanned : ℕ)
    → P s
    → P (record s {
      cursor = cursor;
      current_doc = doc;
      scan_position = at;
      consecutive_rnd_next_calls = calls;
      documents_scanned = scanned;
    })

module _ (P : HaMongodb → Type 0) (blind : Blind P) where
  abbrev PRead : Read → Type 0
  PRead r = P r.handler

  abbrev PPair : Code × HaMongodb → Type 0
  PPair r = P r.1

  ended : (t : HaMongodb) → P t → P (record t { cursor = some (advanced none) })
  ended t h =
      blind t (some (advanced none)) t.current_doc t.scan_position t.consecutive_rnd_next_calls
        t.documents_scanned h

  deliver-carries :
      (fields : List Column) (doc : Option Doc) (t : HaMongodb) → P t → PRead (deliver fields doc t)
  unfolding deliver
  deliver-carries fields doc t h =
      if-both PRead t.lightweight_count_mode
        (blind t t.cursor t.current_doc _ _ t.documents_scanned h)
        (option-both PRead (convert_document_to_row fields doc) h (λ row.
          blind t t.cursor t.current_doc _ t.consecutive_rnd_next_calls t.documents_scanned h))

  next_document-carries :
      (fields : List Column) (cursor : Cursor) (t : HaMongodb)
      → P t
      → PRead (next_document fields cursor t)
  unfolding next_document
  next_document-carries fields cursor t h =
      list-both PRead cursor.documents (option-both PRead cursor.error (ended t h) (λ m. h))
        (λ d rest.
          let u =
            blind t (some (record cursor { documents = rest })) d t.scan_position
              t.consecutive_rnd_next_calls t.documents_scanned h in
          if-both PRead (not (is_there d)) u (deliver-carries fields d _ u))

  pub rnd_next-carries : (fields : List Column) (t : HaMongodb) → P t → PRead (rnd_next fields t)
  unfolding rnd_next count_call
  rnd_next-carries fields t h =
      let u = blind t t.cursor t.current_doc t.scan_position _ _ h in
      if-both PRead t.count_mode h
        (option-both PRead t.cursor u (λ c. next_document-carries fields c (count_call t) u))

  seek-carries :
      (fields : List Column) (target : ℕ) (t : HaMongodb) → P t → PRead (seek fields target t)
  unfolding seek
  seek-carries fields target t h =
      option-both PRead t.cursor
        (if-both PRead (ltb t.scan_position target) h (rnd_next-carries fields t h))
        (λ c.
          let skipped = skip_to target t.scan_position c.documents in
          let u =
            blind t (some (record c { documents = skipped.1.1 })) t.current_doc skipped.1.0
              t.consecutive_rnd_next_calls t.documents_scanned h in
          if-both PRead skipped.0 (rnd_next-carries fields _ u) (
            blind t (some (advanced c.error)) t.current_doc skipped.1.0 t.consecutive_rnd_next_calls
              t.documents_scanned h))

  pub rewind-carries :
      (d : Server) (fields : List Column) (target : ℕ) (t : HaMongodb)
      → P t
      → PRead (rewind d fields target t)
  unfolding rewind
  rewind-carries d fields target t h =
      if-both PRead (ltb target t.scan_position)
        (option-both PRead (d.find t.collection [] FindOpts.plain)
          (blind t none t.current_doc t.scan_position t.consecutive_rnd_next_calls
            t.documents_scanned h)
          (λ c.
            seek-carries fields target _ (
              blind t (some c) t.current_doc 0 t.consecutive_rnd_next_calls t.documents_scanned h)))
        (seek-carries fields target t h)

  pub index_fetch-carries :
      (fields : List Column) (cursor : Cursor) (t : HaMongodb)
      → P t
      → PRead (index_fetch fields cursor t)
  unfolding index_fetch index_row
  index_fetch-carries fields cursor t h =
      list-both PRead cursor.documents (option-both PRead cursor.error (ended t h) (λ m. h))
        (λ d rest.
          let u =
            blind t (some (record cursor { documents = rest })) d t.scan_position
              t.consecutive_rnd_next_calls t.documents_scanned h in
          if-both PRead t.key_read_mode u
            (option-both PRead (convert_document_to_row fields d) u (λ row. u)))

  pub index_next-carries :
      (fields : List Column) (t : HaMongodb) → P t → PRead (index_next fields t)
  unfolding index_next
  index_next-carries fields t h =
      option-both PRead t.cursor h (λ c. index_fetch-carries fields c t h)

  range_fetch-carries : (cursor : Cursor) (t : HaMongodb) → P t → PPair (range_fetch cursor t)
  unfolding range_fetch
  range_fetch-carries cursor t h =
      list-both PPair cursor.documents (option-both PPair cursor.error (ended t h) (λ m. h))
        (λ d rest.
          blind t (some (record cursor { documents = rest })) d t.scan_position
            t.consecutive_rnd_next_calls t.documents_scanned h)

  pub read_range_next-carries : (t : HaMongodb) → P t → PPair (read_range_next t)
  unfolding read_range_next
  read_range_next-carries t h = option-both PPair t.cursor h (λ c. range_fetch-carries c t h)
