-- ===== src/Schema/Registry.antt =====
-- `MongoSchemaRegistry` and its cache: src/mongodb_schema.cc. Each use of the cache holds its mutex.
use mongodb_engine.Base.{
  ℕ, ◌+◌, ◌*◌, Bool, true, false, not, ◌&&◌, ◌||◌, List, [], ◌∷◌, ◌++◌, map, Option, none, some,
  Bytes, codes, insert, modify, lookup, length, take, is_empty, ltb, leb, if◌then◌else◌,
}
use mongodb_engine.Schema.Fields.{MongoFieldMapping, Document, Fields, analyze_document_structure}

-- `MongoSchemaCache`. Times are the steady clock's nanoseconds.
pub record MongoSchemaCache : Type 0 where
  pub collection_name : Bytes
  pub field_mappings : List MongoFieldMapping
  pub last_updated : ℕ
  pub expires_at : ℕ
  pub estimated_documents : ℕ
  pub average_document_size : ℕ
  pub is_valid : Bool

pub record MongoSchemaRegistry : Type 0 where
  pub schema_cache : List (Bytes × MongoSchemaCache)
  pub cache_ttl : ℕ
  pub schema_client : Option ℕ
  pub connection_string : Bytes

-- What the driver gives for the `$sample` pipeline: the documents, and whether the read behind the
-- last one is an error.
pub record SampleCursor : Type 0 where
  pub documents : List (Option Document)
  pub fails : Bool

-- What the driver answers: whether there is a handle of a collection, and the cursor of the pipeline.
pub record SchemaDriver : Type 0 where
  pub has_collection : Bytes → Bytes → Bool
  pub aggregate : Bytes → Bytes → Option SampleCursor

abbrev pub sample_size : ℕ
sample_size = 100

-- The result, and the copies of the documents that were read. The read behind the last document is
-- only made if there are at most `sample_size` of them.
unfoldable pub sample_collection_documents : Option SampleCursor → Bool × List (Option Document)
sample_collection_documents none = (false, [])
sample_collection_documents (some c) =
    let samples = take sample_size c.documents in
    let has_error = c.fails && leb (length c.documents) sample_size in
    (not has_error && not (is_empty samples), samples)

unfoldable pub analyze_all : List (Option Document) → Fields → Fields
analyze_all [] fields = fields
analyze_all (d ∷ ds) fields = analyze_all ds (analyze_document_structure d fields).1

unfoldable pub is_cache_valid : ℕ → MongoSchemaCache → Bool
is_cache_valid now cache = cache.is_valid && ltb now cache.expires_at

abbrev pub has_valid_cache : ℕ → Option MongoSchemaCache → Bool
has_valid_cache now none = false
has_valid_cache now (some cache) = is_cache_valid now cache

abbrev pub table_key : Bytes → Bytes → Bytes
table_key database_name collection_name = database_name ++ (codes "." ++ collection_name)

unfoldable pub new_cache : ℕ → ℕ → Bytes → List (Option Document) → MongoSchemaCache
new_cache now ttl collection_name samples = record {
  collection_name = collection_name;
  field_mappings = map (λ f. f.1) (analyze_all samples []);
  last_updated = now;
  expires_at = now + ttl * 1000000000;
  estimated_documents = length samples;
  average_document_size = 0;
  is_valid = true;
}

-- What a call leaves: its result and the registry. The copies of the documents, which a failure behind
-- the sampling does not destroy, are not part of it.
pub record Inferred : Type 0 where
  pub result : Bool
  pub registry : MongoSchemaRegistry

unfoldable pub infer_from_samples :
    ℕ → MongoSchemaRegistry → Bytes → Bytes → Bool × List (Option Document) → Inferred
infer_from_samples now r database_name collection_name sampled =
    if not sampled.0 || is_empty sampled.1
    then record { result = false; registry = r }
    else record {
      result = true;
      registry = record r {
        schema_cache =
            insert (table_key database_name collection_name)
              (new_cache now r.cache_ttl collection_name sampled.1) r.schema_cache;
      };
    }

-- The clock is read at `now` for the test of the cache and at `later` for the new entry.
unfoldable pub infer_schema_from_collection :
    SchemaDriver → ℕ → ℕ → Bytes → Bytes → MongoSchemaRegistry → Inferred
infer_schema_from_collection d now later database_name collection_name r = elim r.schema_client [
  | none ↦ record { result = false; registry = r }
  | some client ↦
      if has_valid_cache now (lookup (table_key database_name collection_name) r.schema_cache)
      then record { result = true; registry = r }
      else if not (d.has_collection database_name collection_name)
      then record { result = false; registry = r }
      else infer_from_samples later r database_name collection_name
          (sample_collection_documents (d.aggregate database_name collection_name))
]

unfoldable pub get_field_mappings :
    ℕ → Bytes → MongoSchemaRegistry → Option (List MongoFieldMapping)
get_field_mappings now table_name r = elim (lookup table_name r.schema_cache) [
  | none ↦ none
  | some cache ↦ if is_cache_valid now cache then some cache.field_mappings else none
]

unfoldable pub invalidate_cache : Bytes → MongoSchemaRegistry → MongoSchemaRegistry
invalidate_cache table_name r = elim (lookup table_name r.schema_cache) [
  | none ↦ r
  | some _ ↦ record r {
    schema_cache = modify table_name (λ c. record c { is_valid = false }) r.schema_cache;
  }
]

unfoldable pub clear_all_cache : MongoSchemaRegistry → MongoSchemaRegistry
clear_all_cache r = record r { schema_cache = [] }

-- The constructor; the client is what `mongoc_client_new_from_uri` gives, `none` for null, also where
-- the driver does not take the text.
unfoldable pub new_registry : (Bytes → Option ℕ) → Bytes → MongoSchemaRegistry
new_registry client_of connection_string = record {
  schema_cache = [];
  cache_ttl = 300;
  schema_client = client_of connection_string;
  connection_string = connection_string;
}

-- `global_schema_registries`.
abbrev pub Registries : Type 0
Registries = List (Bytes × MongoSchemaRegistry)

unfoldable pub get_or_create_schema_registry :
    (Bytes → Option ℕ) → Bytes → Registries → MongoSchemaRegistry × Registries
get_or_create_schema_registry client_of s registries = elim (lookup s registries) [
  | some registry ↦ (registry, registries)
  | none ↦ (new_registry client_of s, insert s (new_registry client_of s) registries)
]

unfoldable pub cleanup_all_schema_registries : Registries → Registries
cleanup_all_schema_registries registries = []
