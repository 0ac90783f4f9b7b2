-- ===== src/Schema/Again.antt =====
-- Documents that were analysed once add nothing: src/mongodb_schema.cc.
use mongodb_engine.Base.{
  ◌≡◌, refl, sym, ap, ◌∙◌, Bool, true, false, not, ◌&&◌, ◌⊎◌, inl, inr, List, [], ◌∷◌, Option, none,
  some, Bytes, modify, lookup, All, All-map, lookup-insert, lookup-modify, str_eq, str_eq_iff,
  str_eq_refl, Bool-cases, Option-cases, arith,
}
use mongodb_engine.Schema.Fields.{
  MongoFieldMapping, Document, Fields, new_mapping, refine_mapping, analyze_field, analyze_fields,
  analyze_document_structure,
}
use mongodb_engine.Schema.Names.{normalize_field_name, is_valid_sql_identifier}
use mongodb_engine.Schema.Registry.{analyze_all}
use mongodb_engine.Schema.Types.{
  FieldType, BsonType, infer_field_type, is_string, is_long, is_double,
}
use mongodb_engine.Schema.Keeps.{analyze_fields-keeps, analyze_all-keeps}
use mongodb_engine.Schema.Join.{join_type, refine-type}

-- A column of type `c` has nothing to learn from a value of type `t`.
abbrev settled : FieldType → FieldType → Bool
settled c t = not (is_long c && is_double t) && not (not (is_string c) && is_string t)

settled-refine :
    (t : FieldType) (m : MongoFieldMapping) → settled m.sql_type t ≡ true → refine_mapping t m ≡ m
unfolding refine_mapping
settled-refine t m h = ground arith

settled-join : (c t : FieldType) → settled (join_type c t) t ≡ true
settled-join c t = elim (Bool-cases (is_string t)) [
  | inl e ↦ rw e refl
  | inr e ↦ elim (Bool-cases (is_long c)) [ inl l ↦ ground arith | inr l ↦ ground arith ]
]

settled_self : (t : FieldType) → settled t t ≡ true
settled_self t = ground arith

settled-join_other : (c t u : FieldType) → settled c t ≡ true → settled (join_type c u) t ≡ true
settled-join_other c t u h = ground arith

-- The column of a value is there and has nothing to learn from it, or the value has no column.
abbrev Absorbs : Fields → Bytes × BsonType → Type 0
Absorbs fields e =
    (is_valid_sql_identifier (normalize_field_name e.0) ≡ false)
    ⊎ ((m : MongoFieldMapping) × (lookup (normalize_field_name e.0) fields ≡ some m)
        × (settled m.sql_type (infer_field_type e.1) ≡ true))

modify_same {ℓ} :
    {V : Type ℓ} (k : Bytes) (f : V → V) (m : List (Bytes × V)) (v : V)
    → lookup k m ≡ some v
    → f v ≡ v
    → modify k f m ≡ m
unfolding lookup modify
modify_same k f [] v h e = refl
modify_same k f ((j, w) ∷ m) v h e = elim (Bool-cases (str_eq j k)) [
  | inl b ↦
      let here : some w ≡ some v = rw (b, lookup) at h in
      let same : w ≡ v = cc in rw (b, modify, same, e) refl
  | inr b ↦ rw (b, modify) (ap (◌∷◌ (j, w)) (modify_same k f m v (rw (b, lookup) at h) e))
]

analyze_field-absorbed :
    (key : Bytes) (value : BsonType) (fields : Fields)
    → Absorbs fields (key, value)
    → analyze_field key value fields ≡ fields
unfolding analyze_field
analyze_field-absorbed key value fields (inl n) = rw n refl
analyze_field-absorbed key value fields (inr (m, there, h)) =
    elim (Bool-cases (is_valid_sql_identifier (normalize_field_name key))) [
      | inr n ↦ rw n refl
      | inl v ↦
          rw (v, there, analyze_field)
            (modify_same (normalize_field_name key) (refine_mapping (infer_field_type value)) fields
              m there (settled-refine (infer_field_type value) m h))
    ]

analyze_field-Absorbs :
    (key : Bytes) (value : BsonType) (fields : Fields)
    → Absorbs (analyze_field key value fields) (key, value)
unfolding analyze_field
analyze_field-Absorbs key value fields =
    let name = normalize_field_name key in
    let t = infer_field_type value in
    elim (Bool-cases (is_valid_sql_identifier name)) [
      | inr n ↦ inl n
      | inl v ↦ elim (Option-cases (lookup name fields)) [
        | inl n ↦
            rw (v, n, analyze_field)
              (inr (
                new_mapping name key value,
                lookup-insert name name (new_mapping name key value) fields ∙ rw (str_eq_refl name),
                unfold new_mapping in settled_self t,
              ))
        | inr (m, n) ↦
            rw (v, n, analyze_field)
              (inr (
                refine_mapping t m,
                lookup-modify name name (refine_mapping t) fields m n ∙ rw (str_eq_refl name),
                rw (refine-type t m) (settled-join m.sql_type t),
              ))
      ]
    ]

modified-Absorbs :
    (name : Bytes) (t : FieldType) (w : MongoFieldMapping) (fields : Fields) (e : Bytes × BsonType)
    (m : MongoFieldMapping)
    → lookup name fields ≡ some w
    → lookup (normalize_field_name e.0) fields ≡ some m
    → settled m.sql_type (infer_field_type e.1) ≡ true
    → Absorbs (modify name (refine_mapping t) fields) e
modified-Absorbs name t w fields e m n there h =
    let other = normalize_field_name e.0 in
    let found = lookup-modify name other (refine_mapping t) fields w n in
    elim (Bool-cases (str_eq name other)) [
      | inl b ↦
          let stored : lookup other fields ≡ some w = rw ((str_eq_iff name other).0 b) at n in
          let both : some w ≡ some m = sym stored ∙ there in
          let same : w ≡ m = cc in
          inr (
            refine_mapping t m,
            found ∙ rw (b, same) refl,
            rw (refine-type t m) (settled-join_other m.sql_type (infer_field_type e.1) t h),
          )
      | inr b ↦ inr (m, found ∙ rw b there, h)
    ]

-- What is absorbed stays absorbed.
analyze_field-stays :
    (key : Bytes) (value : BsonType) (fields : Fields) (e : Bytes × BsonType)
    → Absorbs fields e
    → Absorbs (analyze_field key value fields) e
unfolding analyze_field
analyze_field-stays key value fields e (inl n) = inl n
analyze_field-stays key value fields e (inr (m, there, h)) =
    let name = normalize_field_name key in
    let t = infer_field_type value in
    elim (Bool-cases (is_valid_sql_identifier name)) [
      | inr n ↦ rw n (inr (m, there, h))
      | inl v ↦ elim (Option-cases (lookup name fields)) [
        | inl n ↦
            rw (v, n, analyze_field)
              (inr (
                m,
                lookup-insert name (normalize_field_name e.0) (new_mapping name key value) fields
                    ∙ elim (Bool-cases (str_eq name (normalize_field_name e.0))) [
                      | inl b ↦
                          let missing : none ≡ some m =
                            rw (← (str_eq_iff name (normalize_field_name e.0)).0 b, n) at there in
                          absurd (cc)
                      | inr b ↦ rw b there
                    ],
                h,
              ))
        | inr (w, n) ↦
            rw (v, n, analyze_field)
              (modified-Absorbs name (infer_field_type value) w fields e m n there h)
      ]
    ]

-- The documents' values are all absorbed.
abbrev AbsorbsAll : Fields → List (Option Document) → Type 0
AbsorbsAll fields [] = Unit {0}
AbsorbsAll fields (none ∷ docs) = AbsorbsAll fields docs
AbsorbsAll fields (some doc ∷ docs) = All (Absorbs fields) doc × AbsorbsAll fields docs

analyze_fields-absorbed :
    (doc : Document) (fields : Fields)
    → All (Absorbs fields) doc
    → analyze_fields doc fields ≡ fields
unfolding analyze_fields
analyze_fields-absorbed [] fields h = refl
analyze_fields-absorbed ((key, value) ∷ doc) fields h =
    ap (analyze_fields doc) (analyze_field-absorbed key value fields h.0)
    ∙ analyze_fields-absorbed doc fields h.1

analyze_all-absorbed :
    (docs : List (Option Document)) (fields : Fields)
    → AbsorbsAll fields docs
    → analyze_all docs fields ≡ fields
unfolding analyze_all analyze_document_structure
analyze_all-absorbed [] fields h = refl
analyze_all-absorbed (none ∷ docs) fields h = analyze_all-absorbed docs fields h
analyze_all-absorbed (some doc ∷ docs) fields h =
    ap (analyze_all docs) (analyze_fields-absorbed doc fields h.0)
    ∙ analyze_all-absorbed docs fields h.1

analyze_fields-Absorbs :
    (doc : Document) (fields : Fields) → All (Absorbs (analyze_fields doc fields)) doc
unfolding analyze_fields
analyze_fields-Absorbs [] fields = tt
analyze_fields-Absorbs ((key, value) ∷ doc) fields = (
  analyze_fields-keeps (λ f. Absorbs f (key, value))
      (λ k v f. analyze_field-stays k v f (key, value)) doc (analyze_field key value fields)
      (analyze_field-Absorbs key value fields),
  analyze_fields-Absorbs doc (analyze_field key value fields),
)

analyze_field-stays_doc :
    (doc : Document) (key : Bytes) (value : BsonType) (fields : Fields)
    → All (Absorbs fields) doc
    → All (Absorbs (analyze_field key value fields)) doc
analyze_field-stays_doc doc key value fields h =
    All-map doc (λ e. analyze_field-stays key value fields e) h

analyze_all-Absorbs :
    (docs : List (Option Document)) (fields : Fields) → AbsorbsAll (analyze_all docs fields) docs
unfolding analyze_all analyze_document_structure
analyze_all-Absorbs [] fields = tt
analyze_all-Absorbs (none ∷ docs) fields = analyze_all-Absorbs docs fields
analyze_all-Absorbs (some doc ∷ docs) fields = (
  analyze_all-keeps (λ f. All (Absorbs f) doc) (analyze_field-stays_doc doc) docs
      (analyze_fields doc fields) (analyze_fields-Absorbs doc fields),
  analyze_all-Absorbs docs (analyze_fields doc fields),
)

analyze_field-stays_docs :
    (docs : List (Option Document)) (key : Bytes) (value : BsonType) (fields : Fields)
    → AbsorbsAll fields docs
    → AbsorbsAll (analyze_field key value fields) docs
analyze_field-stays_docs [] key value fields h = tt
analyze_field-stays_docs (none ∷ docs) key value fields h =
    analyze_field-stays_docs docs key value fields h
analyze_field-stays_docs (some doc ∷ docs) key value fields h = (
  analyze_field-stays_doc doc key value fields h.0,
  analyze_field-stays_docs docs key value fields h.1,
)

-- Documents that were analysed once change no mapping when they are analysed again, whatever the
-- fields were before and whichever documents were analysed in between.
pub analyze_all_again :
    (docs more : List (Option Document)) (fields : Fields)
    → analyze_all docs (analyze_all more (analyze_all docs fields))
      ≡ analyze_all more (analyze_all docs fields)
analyze_all_again docs more fields =
    analyze_all-absorbed docs (analyze_all more (analyze_all docs fields)) (
      analyze_all-keeps (λ f. AbsorbsAll f docs) (analyze_field-stays_docs docs) more
        (analyze_all docs fields) (analyze_all-Absorbs docs fields))
