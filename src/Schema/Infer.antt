-- ===== src/Schema/Infer.antt =====
-- What the analysis of documents makes of the field mappings.
use mongodb_engine.Base.{
  ◌≡◌, refl, sym, ◌∙◌, true, not, ◌&&◌, List, Option, Bytes, All, All-insert, All-modify, lookup,
  Bool-cases, Option-cases, inl, inr, arith,
}
use mongodb_engine.Schema.Fields.{
  MongoFieldMapping, Document, Fields, max_length_of, new_mapping, refine_mapping, analyze_field,
}
use mongodb_engine.Schema.Names.{normalize_field_name, is_valid_sql_identifier}
use mongodb_engine.Schema.Registry.{analyze_all}
use mongodb_engine.Schema.Keeps.{analyze_all-keeps}
use mongodb_engine.Schema.Types.{
  FieldType, BsonType, infer_field_type, same_type, is_string, is_long, is_double,
}

-- A mapping that stands under its key, of a column that SQL can name.
pub record IsColumn (f : Bytes × MongoFieldMapping) : Type 0 where
  pub named : f.1.sql_name ≡ f.0
  pub identifier : is_valid_sql_identifier f.0 ≡ true
  pub from_path : normalize_field_name f.1.mongo_path ≡ f.0
  pub nullable : f.1.is_nullable ≡ true
  pub sized : f.1.max_length ≡ max_length_of f.1.sql_type

new_mapping-IsColumn :
    (key : Bytes) (value : BsonType)
    → is_valid_sql_identifier (normalize_field_name key) ≡ true
    → IsColumn (normalize_field_name key, new_mapping (normalize_field_name key) key value)
unfolding new_mapping
new_mapping-IsColumn key value h = record {
  named = refl;
  identifier = h;
  from_path = refl;
  nullable = refl;
  sized = refl;
}

long-double : (c : FieldType) → is_long c ≡ true → max_length_of c ≡ max_length_of FieldType.double
unfolding max_length_of
long-double FieldType.long h = refl
long-double _ h = absurd (cc)

string-length : max_length_of FieldType.string ≡ 255
unfolding max_length_of
string-length = refl

refine-IsColumn :
    (t : FieldType) (j : Bytes) (m : MongoFieldMapping)
    → IsColumn (j, m)
    → IsColumn (j, refine_mapping t m)
unfolding refine_mapping
refine-IsColumn t j m h = elim (Bool-cases (same_type m.sql_type t)) [
  | inl e ↦ rw e h
  | inr e ↦ rw e (elim (Bool-cases (is_long m.sql_type && is_double t)) [
    | inl d ↦ rw d (record {
      named = h.named;
      identifier = h.identifier;
      from_path = h.from_path;
      nullable = h.nullable;
      sized = h.sized ∙ long-double m.sql_type (ground arith);
    })
    | inr d ↦ rw d (elim (Bool-cases (not (is_string m.sql_type) && is_string t)) [
      | inl g ↦ rw g (record {
        named = h.named;
        identifier = h.identifier;
        from_path = h.from_path;
        nullable = h.nullable;
        sized = sym string-length;
      })
      | inr g ↦ rw g h
    ])
  ])
]

analyze_field-IsColumn :
    (key : Bytes) (value : BsonType) (fields : Fields)
    → All IsColumn fields
    → All IsColumn (analyze_field key value fields)
unfolding analyze_field
analyze_field-IsColumn key value fields h =
    let name = normalize_field_name key in
    elim (Bool-cases (is_valid_sql_identifier name)) [
      | inr e ↦ rw e h
      | inl e ↦ rw e (elim (Option-cases (lookup name fields)) [
        | inl n ↦ rw n (
            All-insert IsColumn name (new_mapping name key value) fields
              (new_mapping-IsColumn key value e) h)
        | inr (m, n) ↦ rw n (
            All-modify IsColumn name (refine_mapping (infer_field_type value)) fields
              (refine-IsColumn (infer_field_type value)) h)
      ])
    ]

-- Whatever documents are analysed, each mapping stands under its SQL name, which is a valid
-- identifier and the normalised form of its path, may be null, and has the length of its type.
pub analyze_all-IsColumn :
    (docs : List (Option Document)) (fields : Fields)
    → All IsColumn fields
    → All IsColumn (analyze_all docs fields)
analyze_all-IsColumn docs fields h =
    analyze_all-keeps (All IsColumn) analyze_field-IsColumn docs fields h
