-- ===== src/Schema/Fields.antt =====
-- Field mappings, and how a document refines them: `analyze_document_structure` of
-- src/mongodb_schema.cc.
use mongodb_engine.Base.{
  ℕ, Bool, true, false, not, ◌&&◌, List, [], ◌∷◌, Option, none, some, Bytes, insert, modify, lookup,
  if◌then◌else◌,
}
use mongodb_engine.Schema.Names.{normalize_field_name, is_valid_sql_identifier}
use mongodb_engine.Schema.Types.{
  FieldType, BsonType, infer_field_type, same_type, is_string, is_long, is_double,
}

-- `MongoFieldMapping`.
pub record MongoFieldMapping : Type 0 where
  pub sql_name : Bytes
  pub mongo_path : Bytes
  pub sql_type : FieldType
  pub is_virtual : Bool
  pub is_indexed : Bool
  pub is_nullable : Bool
  pub default_value : Bytes
  pub max_length : ℕ
  pub decimals : ℕ

-- The fields of a document in order: their keys and the types of their values.
abbrev pub Document : Type 0
Document = List (Bytes × BsonType)

abbrev pub Fields : Type 0
Fields = List (Bytes × MongoFieldMapping)

unfoldable pub max_length_of : FieldType → ℕ
max_length_of FieldType.string = 255
max_length_of FieldType.var_string = 255
max_length_of FieldType.blob = 65535
max_length_of FieldType.long_blob = 65535
max_length_of FieldType.medium_blob = 1048576
max_length_of _ = 0

unfoldable pub new_mapping : Bytes → Bytes → BsonType → MongoFieldMapping
new_mapping field_name key value = record {
  sql_name = field_name;
  mongo_path = key;
  sql_type = infer_field_type value;
  is_virtual = false;
  is_indexed = false;
  is_nullable = true;
  default_value = [];
  max_length = max_length_of (infer_field_type value);
  decimals = 0;
}

-- The branch of a field that is known: its type may become more general.
unfoldable pub refine_mapping : FieldType → MongoFieldMapping → MongoFieldMapping
refine_mapping inferred m =
    if not (same_type m.sql_type inferred)
    then (if is_long m.sql_type && is_double inferred
        then record m { sql_type = FieldType.double }
        else if not (is_string m.sql_type) && is_string inferred
        then record m { sql_type = FieldType.string; max_length = 255 }
        else m)
    else m

-- The body of the loop.
unfoldable pub analyze_field : Bytes → BsonType → Fields → Fields
analyze_field key value fields =
    let field_name = normalize_field_name key in
    if not (is_valid_sql_identifier field_name) then fields else elim (lookup field_name fields) [
      | none ↦ insert field_name (new_mapping field_name key value) fields
      | some m ↦ modify field_name (refine_mapping (infer_field_type value)) fields
    ]

unfoldable pub analyze_fields : Document → Fields → Fields
analyze_fields [] fields = fields
analyze_fields ((key, value) ∷ doc) fields = analyze_fields doc (analyze_field key value fields)

-- `none` is no document, or one that `bson_iter_init` refuses.
unfoldable pub analyze_document_structure : Option Document → Fields → Bool × Fields
analyze_document_structure none fields = (false, fields)
analyze_document_structure (some doc) fields = (true, analyze_fields doc fields)
