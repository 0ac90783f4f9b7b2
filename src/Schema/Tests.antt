-- ===== src/Schema/Tests.antt =====
-- Runs of the schema inference, and the theorems at concrete documents.
use mongodb_engine.Base.{
  ◌+◌, ◌*◌, ◌≡◌, refl, Bool, true, false, not, ◌&&◌, List, [], ◌∷◌, map, Option, none, some, codes,
  lookup, str_eq, insert, length, is_empty, leb, ltb, if◌then◌else◌,
}
use mongodb_engine.Schema.Types.{BsonType}
use mongodb_engine.Schema.Names.{
  normalize_field_name, normalize_byte, guard_digit, is_valid_sql_identifier, all_word,
}
use mongodb_engine.Schema.Fields.{MongoFieldMapping, Document}
use mongodb_engine.Schema.Registry.{
  invalidate_cache, MongoSchemaRegistry, SchemaDriver, sample_collection_documents, analyze_all,
  infer_from_samples, infer_schema_from_collection, get_field_mappings, table_key, new_cache,
  new_registry, is_cache_valid,
}
use mongodb_engine.Schema.Normal.{is_valid-normalize}
use mongodb_engine.Schema.Again.{analyze_all_again}
use mongodb_engine.Schema.Lives.{Step, here, next, AreColumns, served-AreColumns}
use mongodb_engine.Schema.Join.{type_of, join_types, all_values, analyze_all-join}
use mathlib.Core.List.{Perm}
use mathlib.Core.List.Perm
use mongodb_engine.Schema.Order.{is_column, is_text, analyze_all-Perm}
use mongodb_engine.Schema.Cache.{Misses, infer-get, infer_fails, get-invalidate}

abbrev docs : List (Option Document)
docs = some ((codes "a", BsonType.int32) ∷ []) ∷ some ((codes "a", BsonType.double) ∷ []) ∷ []

abbrev registry : MongoSchemaRegistry
registry = record {
  schema_cache = [];
  cache_ttl = 300;
  schema_client = some 1;
  connection_string = [];
}

abbrev driver : Bool → SchemaDriver
driver fails = record {
  has_collection = λ d c. true;
  aggregate = λ d c. some (record { documents = docs; fails = fails });
}

misses : Misses 0 (table_key (codes "d") (codes "c")) registry
unfolding lookup
misses = record { client = 1; connected = refl; stale = refl }

infers :
    (infer_schema_from_collection (driver false) 0 0 (codes "d") (codes "c") registry).result ≡ true
unfolding infer_schema_from_collection lookup infer_from_samples sample_collection_documents
infers = refl

valid_a : is_valid_sql_identifier (codes "a") ≡ true
unfolding is_valid_sql_identifier all_word
valid_a = refl

is_valid-normalize_example :
    is_valid_sql_identifier (normalize_field_name (codes "9 x"))
    ≡ (not (is_empty (codes "9 x")) && leb (length (normalize_field_name (codes "9 x"))) 64)
is_valid-normalize_example = is_valid-normalize (codes "9 x")

abbrev fresh : MongoSchemaRegistry
fresh = new_registry (λ s. some 1) []

-- The second field of the document is the first column.
abbrev two_fields : SchemaDriver
two_fields = record {
  has_collection = λ d c. true;
  aggregate = λ d c. some (record {
    documents = some ((codes "b", BsonType.int32) ∷ (codes "a", BsonType.double) ∷ []) ∷ [];
    fails = false;
  });
}

abbrev two : List (Option Document)
two = some ((codes "a", BsonType.utf8) ∷ (codes "b", BsonType.int64) ∷ []) ∷ none ∷ []

abbrev inferred : MongoSchemaRegistry
inferred = (infer_schema_from_collection two_fields 0 0 (codes "d") (codes "c") fresh).registry

abbrev columns : List MongoFieldMapping
columns =
    map (λ f. f.1)
      (analyze_all (sample_collection_documents (two_fields.aggregate (codes "d") (codes "c"))).1
        [])

serves : get_field_mappings 5 (table_key (codes "d") (codes "c")) inferred ≡ some columns
unfolding get_field_mappings infer_schema_from_collection lookup infer_from_samples new_cache
    sample_collection_documents new_registry insert str_eq is_cache_valid
serves = refl

served-AreColumns_example : AreColumns columns
served-AreColumns_example =
    served-AreColumns (λ s. some 1) [] 5 (table_key (codes "d") (codes "c")) columns
      (next here (Step.infers fresh two_fields 0 0 (codes "d") (codes "c"))) serves

analyze_all-join_example :
    type_of (lookup (codes "a") (analyze_all docs []))
    ≡ join_types none (all_values (codes "a") docs)
analyze_all-join_example = analyze_all-join (codes "a") docs valid_a

valid_normal : is_valid_sql_identifier (normalize_field_name (codes "a")) ≡ true
unfolding is_valid_sql_identifier all_word normalize_field_name guard_digit normalize_byte
valid_normal = refl

infer-get_example :
    get_field_mappings 5
      (table_key (codes "d") (codes "c"))
      (infer_schema_from_collection (driver false) 0 0 (codes "d") (codes "c") registry).registry
    ≡ (if ltb 5 (0 + 300 * 1000000000)
        then some (
            map
              (λ f. f.1)
              (analyze_all
                (sample_collection_documents ((driver false).aggregate (codes "d") (codes "c"))).1
                []))
        else none)
infer-get_example =
    infer-get (driver false) 0 0 5 (codes "d") (codes "c") registry misses refl infers

abbrev backwards : List (Option Document)
backwards = some ((codes "a", BsonType.double) ∷ []) ∷ some ((codes "a", BsonType.int32) ∷ []) ∷ []

swapped : Perm docs backwards
swapped = Perm.swap _ _ []

analyze_all-Perm_example :
    (is_column (type_of (lookup (codes "a") (analyze_all docs [])))
      ≡ is_column (type_of (lookup (codes "a") (analyze_all backwards []))))
    × (is_text (type_of (lookup (codes "a") (analyze_all docs [])))
        ≡ is_text (type_of (lookup (codes "a") (analyze_all backwards []))))
analyze_all-Perm_example = analyze_all-Perm (codes "a") docs backwards valid_a swapped

-- The first documents again, behind others.
analyze_all_again_example :
    analyze_all docs (analyze_all two (analyze_all docs [])) ≡ analyze_all two (analyze_all docs [])
analyze_all_again_example = analyze_all_again docs two []

fails :
    (infer_schema_from_collection (driver true) 0 0 (codes "d") (codes "c") registry).result ≡ false
unfolding infer_schema_from_collection lookup infer_from_samples sample_collection_documents
fails = refl

infer_fails_example :
    (infer_schema_from_collection (driver true) 0 0 (codes "d") (codes "c") registry).registry
    ≡ registry
infer_fails_example = infer_fails (driver true) 0 0 (codes "d") (codes "c") registry fails

get-invalidate_example :
    get_field_mappings 5 (codes "x") (invalidate_cache (codes "d.c") registry)
    ≡ (if str_eq (codes "d.c") (codes "x") then none else get_field_mappings 5 (codes "x") registry)
get-invalidate_example = get-invalidate 5 (codes "d.c") (codes "x") registry
