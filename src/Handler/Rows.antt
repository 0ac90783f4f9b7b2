-- ===== src/Handler/Rows.antt =====
-- The rows of documents: src/ha_mongodb_handler.cc.
use mongodb_engine.Base.{
  Bool-cases, if-false, ◌≡◌, ◌≢◌, ◌↔◌, refl, sym, ap, ◌∙◌, true, false, List, [], ◌∷◌, map, Option,
  none, some, Bytes, codes, str_eq, Option-cases, inl, inr, if◌then◌else◌,
}
use mongodb_engine.Handler.Defs.{Column, Doc, BsonValue}
use mongodb_engine.Handler.Convert.{
  Cell, iter_find, store_simple_value, convert_simple_field_from_document, convert_field,
  convert_document_to_row,
}

-- The cell of a column in a row.
abbrev pub cell_of : Bytes → List Column → List Cell → Option Cell
cell_of name (field ∷ fields) (cell ∷ row) =
    if str_eq field.name name then some cell else cell_of name fields row
cell_of name _ _ = none

-- The first column of that name.
abbrev pub column_of : Bytes → List Column → Option Column
column_of name [] = none
column_of name (field ∷ fields) =
    if str_eq field.name name then some field else column_of name fields

some_inj {ℓ} : {A : Type ℓ} {x y : A} → some x ≡ some y → x ≡ y
some_inj e = cc

cell_of-map :
    (name : Bytes) (column : Column) (fields : List Column) (doc : Doc)
    → column_of name fields ≡ some column
    → cell_of name fields (map (convert_field doc) fields) ≡ some (convert_field doc column)
cell_of-map name column [] doc h = absurd (cc (h))
cell_of-map name column (field ∷ fields) doc h = elim (Bool-cases (str_eq field.name name)) [
  | inl e ↦ rw e (ap some (ap (convert_field doc) (some_inj (rw e at h))))
  | inr e ↦ rw e (cell_of-map name column fields doc (rw e at h))
]

simple-not_null : (v : BsonValue) → store_simple_value v ≢ Cell.null
unfolding store_simple_value
simple-not_null (BsonValue.double _) e = absurd (cc)
simple-not_null (BsonValue.utf8 _) e = absurd (cc)
simple-not_null (BsonValue.document _) e = absurd (cc)
simple-not_null (BsonValue.array _) e = absurd (cc)
simple-not_null (BsonValue.binary _) e = absurd (cc)
simple-not_null (BsonValue.oid _) e = absurd (cc)
simple-not_null (BsonValue.bool _) e = absurd (cc)
simple-not_null (BsonValue.date_time _) e = absurd (cc)
simple-not_null BsonValue.null e = absurd (cc)
simple-not_null (BsonValue.int32 _) e = absurd (cc)
simple-not_null (BsonValue.int64 _) e = absurd (cc)
simple-not_null (BsonValue.other _ _) e = absurd (cc)

simple_null_iff :
    (doc : Doc) (column : Column)
    → (convert_simple_field_from_document doc column ≡ Cell.null)
      ↔ ((iter_find column.name doc.fields ≡ none) × (column.maybe_null ≡ true))
unfolding convert_simple_field_from_document
simple_null_iff doc column = elim (Option-cases (iter_find column.name doc.fields)) [
  | inl n ↦ elim (Bool-cases column.maybe_null) [
    | inl b ↦ rw (n, convert_simple_field_from_document) (rw b (λ e. (refl, refl), λ e. refl))
    | inr b ↦
        rw (n, convert_simple_field_from_document)
          (rw b (λ e. absurd (cc (e)), λ e. absurd (cc (e.1))))
  ]
  | inr (v, n) ↦
      rw (n, convert_simple_field_from_document)
        (λ e. absurd (simple-not_null v e), λ e. absurd (cc (e.0)))
]

row-cell :
    (fields : List Column) (doc : Doc) (name : Bytes) (column : Column) (row : List Cell)
    → column_of name fields ≡ some column
    → convert_document_to_row fields (some doc) ≡ some row
    → cell_of name fields row ≡ some (convert_field doc column)
unfolding convert_document_to_row
row-cell fields doc name column row h e =
    ap (cell_of name fields) (sym (some_inj e)) ∙ cell_of-map name column fields doc h

-- A column other than `_id` and `document` is null in the row of a document exactly if the document
-- has no value of that name and the column may be null: a BSON null is not a null of SQL.
pub convert_document_to_row-null :
    (fields : List Column) (doc : Doc) (column : Column) (row : List Cell)
    → column_of column.name fields ≡ some column
    → str_eq column.name (codes "_id") ≡ false
    → str_eq column.name (codes "document") ≡ false
    → convert_document_to_row fields (some doc) ≡ some row
    → (cell_of column.name fields row ≡ some Cell.null)
      ↔ ((iter_find column.name doc.fields ≡ none) × (column.maybe_null ≡ true))
unfolding convert_field
convert_document_to_row-null fields doc column row h i j e =
    let plain : convert_field doc column ≡ convert_simple_field_from_document doc column =
      if-false (λ c. c ≡ convert_simple_field_from_document doc column)
        (str_eq column.name (codes "_id")) _ _ i
        (if-false (λ c. c ≡ convert_simple_field_from_document doc column)
          (str_eq column.name (codes "document")) _ _ j refl) in
    let c : cell_of column.name fields row ≡ some (convert_simple_field_from_document doc column) =
      row-cell fields doc column.name column row h e ∙ ap some plain in
    rw c (
      λ k. (simple_null_iff doc column).0 (some_inj k),
      λ k. ap some ((simple_null_iff doc column).1 k),
    )
