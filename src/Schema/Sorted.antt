-- ===== src/Schema/Sorted.antt =====
-- The order of the columns that src/mongodb_schema.cc infers, whose `std::map` is sorted by name.
use mongodb_engine.Base.{
  ◌≡◌, true, List, [], ◌∷◌, map, Option, Bytes, All, Sorted, insert-Sorted, modify-Sorted, lookup,
  lt_bytes, Bool-cases, Option-cases, inl, inr,
}
use mongodb_engine.Schema.Fields.{
  MongoFieldMapping, Document, Fields, new_mapping, refine_mapping, analyze_field,
}
use mongodb_engine.Schema.Names.{normalize_field_name, is_valid_sql_identifier}
use mongodb_engine.Schema.Registry.{analyze_all}
use mongodb_engine.Schema.Types.{BsonType, infer_field_type}
use mongodb_engine.Schema.Keeps.{analyze_all-keeps}
use mongodb_engine.Schema.Infer.{IsColumn}

analyze_field-Sorted :
    (key : Bytes) (value : BsonType) (fields : Fields)
    → Sorted fields
    → Sorted (analyze_field key value fields)
unfolding analyze_field
analyze_field-Sorted key value fields h =
    let name = normalize_field_name key in
    elim (Bool-cases (is_valid_sql_identifier name)) [
      | inr e ↦ rw e h
      | inl e ↦ rw e (elim (Option-cases (lookup name fields)) [
        | inl n ↦ rw n (insert-Sorted name (new_mapping name key value) fields h)
        | inr (m, n) ↦ rw n (modify-Sorted name (refine_mapping (infer_field_type value)) fields h)
      ])
    ]

-- Mappings whose names ascend.
abbrev pub Ascending : List MongoFieldMapping → Type 0
Ascending [] = Unit
Ascending (m ∷ ms) = All (λ n. lt_bytes m.sql_name n.sql_name ≡ true) ms × Ascending ms

before-map :
    (k : Bytes) (fs : Fields)
    → All IsColumn fs
    → All (λ f. lt_bytes k f.0 ≡ true) fs
    → All (λ n. lt_bytes k n.sql_name ≡ true) (map (λ f. f.1) fs)
before-map k [] c h = tt
before-map k (f ∷ fs) c h = (rw c.0.named h.0, before-map k fs c.1 h.1)

mappings-Ascending : (fs : Fields) → All IsColumn fs → Sorted fs → Ascending (map (λ f. f.1) fs)
mappings-Ascending [] c h = tt
mappings-Ascending (f ∷ fs) c h =
    (rw c.0.named (before-map f.0 fs c.1 h.0), mappings-Ascending fs c.1 h.1)

-- The inferred mappings have distinct names in ascending order.
pub analyze_all-Ascending :
    (docs : List (Option Document))
    → All IsColumn (analyze_all docs [])
    → Ascending (map (λ f. f.1) (analyze_all docs []))
analyze_all-Ascending docs c =
    mappings-Ascending (analyze_all docs []) c
      (analyze_all-keeps Sorted analyze_field-Sorted docs [] tt)
