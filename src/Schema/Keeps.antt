-- ===== src/Schema/Keeps.antt =====
-- The induction over the analysis of documents: src/mongodb_schema.cc.
use mongodb_engine.Base.{List, [], ◌∷◌, Option, none, some, Bytes}
use mongodb_engine.Schema.Fields.{
  Document, Fields, analyze_field, analyze_fields, analyze_document_structure,
}
use mongodb_engine.Schema.Registry.{analyze_all}
use mongodb_engine.Schema.Types.{BsonType}

-- A property that every step of the analysis keeps is kept by the whole.
module _ (P : Fields → Type 0)
    (step : (key : Bytes) (value : BsonType) (fields : Fields)
      → P fields
      → P (analyze_field key value fields)) where
  pub analyze_fields-keeps :
      (doc : Document) (fields : Fields) → P fields → P (analyze_fields doc fields)
  unfolding analyze_fields
  analyze_fields-keeps [] fields h = h
  analyze_fields-keeps ((key, value) ∷ doc) fields h =
      analyze_fields-keeps doc (analyze_field key value fields) (step key value fields h)

  pub analyze_all-keeps :
      (docs : List (Option Document)) (fields : Fields) → P fields → P (analyze_all docs fields)
  unfolding analyze_all analyze_document_structure
  analyze_all-keeps [] fields h = h
  analyze_all-keeps (none ∷ docs) fields h = analyze_all-keeps docs fields h
  analyze_all-keeps (some doc ∷ docs) fields h =
      analyze_all-keeps docs (analyze_fields doc fields) (analyze_fields-keeps doc fields h)
