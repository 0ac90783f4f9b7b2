-- ===== src/Schema/Lives.antt =====
-- Whole lives of a registry: any calls of its methods, in any order.
use mongodb_engine.Base.{
  ℕ, ◌≡◌, sym, Bool, false, not, ◌||◌, List, [], ◌∷◌, map, Option, none, some, Bytes, All, lookup,
  str_eq, is_empty, All-insert, All-modify, subst, if-both, option-both, Bool-cases, Option-cases,
  inl, inr,
}
use mongodb_engine.Schema.Fields.{MongoFieldMapping, Document, Fields}
use mongodb_engine.Schema.Registry.{
  MongoSchemaCache, MongoSchemaRegistry, SchemaDriver, Inferred, sample_collection_documents,
  analyze_all, is_cache_valid, has_valid_cache, table_key, new_cache, infer_from_samples,
  infer_schema_from_collection, get_field_mappings, invalidate_cache, clear_all_cache, new_registry,
}
use mongodb_engine.Schema.Sorted.{Ascending, analyze_all-Ascending}
use mongodb_engine.Schema.Infer.{IsColumn, analyze_all-IsColumn}

-- One call that may change the registry; inference comes with what the driver answers.
pub data Step : MongoSchemaRegistry → MongoSchemaRegistry → Type 0 where
  infers :
      (r : MongoSchemaRegistry) (d : SchemaDriver) (now later : ℕ) (database collection : Bytes)
      → Step r (infer_schema_from_collection d now later database collection r).registry
  invalidates : (r : MongoSchemaRegistry) (key : Bytes) → Step r (invalidate_cache key r)
  clears : (r : MongoSchemaRegistry) → Step r (clear_all_cache r)

pub data Reach (r : MongoSchemaRegistry) : MongoSchemaRegistry → Type 0 where
  here : Reach r r
  next : {p q : MongoSchemaRegistry} → Reach r p → Step p q → Reach r q

-- A mapping of a column that SQL can name.
abbrev pub IsMapping : MongoFieldMapping → Type 0
IsMapping m = IsColumn (m.sql_name, m)

-- The columns of a table: SQL can name each, and the names ascend.
abbrev pub AreColumns : List MongoFieldMapping → Type 0
AreColumns ms = All IsMapping ms × Ascending ms

abbrev Cached : Bytes × MongoSchemaCache → Type 0
Cached e = AreColumns e.1.field_mappings

abbrev Inv : MongoSchemaRegistry → Type 0
Inv r = All Cached r.schema_cache

mappings-IsMapping : (fs : Fields) → All IsColumn fs → All IsMapping (map (λ f. f.1) fs)
mappings-IsMapping [] h = tt
mappings-IsMapping (f ∷ fs) h =
    (subst (λ n. IsColumn (n, f.1)) (sym h.0.named) h.0, mappings-IsMapping fs h.1)

analyze_all-AreColumns :
    (docs : List (Option Document)) → AreColumns (map (λ f. f.1) (analyze_all docs []))
analyze_all-AreColumns docs =
    let columns = analyze_all-IsColumn docs [] tt in
    (mappings-IsMapping (analyze_all docs []) columns, analyze_all-Ascending docs columns)

infer_from_samples-Inv :
    (now : ℕ) (r : MongoSchemaRegistry) (database collection : Bytes)
    (sampled : Bool × List (Option Document))
    → Inv r
    → Inv (infer_from_samples now r database collection sampled).registry
unfolding infer_from_samples new_cache
infer_from_samples-Inv now r database collection sampled h =
    if-both (λ (i : Inferred). Inv i.registry) (not sampled.0 || is_empty sampled.1) h
      (All-insert Cached (table_key database collection)
        (new_cache now r.cache_ttl collection sampled.1) r.schema_cache
        (analyze_all-AreColumns sampled.1) h)

infer-Inv :
    (d : SchemaDriver) (now later : ℕ) (database collection : Bytes) (r : MongoSchemaRegistry)
    → Inv r
    → Inv (infer_schema_from_collection d now later database collection r).registry
unfolding infer_schema_from_collection
infer-Inv d now later database collection r h =
    let P : Inferred → Type 0 = λ i. Inv i.registry in
    option-both P r.schema_client h (λ client.
      if-both P (has_valid_cache now (lookup (table_key database collection) r.schema_cache)) h (
        if-both P (not (d.has_collection database collection)) h (
          infer_from_samples-Inv later r database collection
            (sample_collection_documents (d.aggregate database collection)) h)))

invalidate-Inv : (key : Bytes) (r : MongoSchemaRegistry) → Inv r → Inv (invalidate_cache key r)
unfolding invalidate_cache
invalidate-Inv key r h =
    option-both Inv (lookup key r.schema_cache) h (λ c.
      All-modify Cached key (λ e. record e { is_valid = false }) r.schema_cache (λ j v p. p) h)

Step-Inv : {p q : MongoSchemaRegistry} → Step p q → Inv p → Inv q
unfolding clear_all_cache
Step-Inv (infers r d now later database collection) h =
    infer-Inv d now later database collection r h
Step-Inv (invalidates r key) h = invalidate-Inv key r h
Step-Inv (clears r) h = tt

Reach-Inv :
    (client_of : Bytes → Option ℕ) (s : Bytes) {r : MongoSchemaRegistry}
    → Reach (new_registry client_of s) r
    → Inv r
unfolding new_registry
Reach-Inv client_of s here = tt
Reach-Inv client_of s (next r st) = Step-Inv st (Reach-Inv client_of s r)

lookup-Cached :
    (key : Bytes) (m : List (Bytes × MongoSchemaCache)) (c : MongoSchemaCache)
    → All Cached m
    → lookup key m ≡ some c
    → AreColumns c.field_mappings
unfolding lookup
lookup-Cached key [] c h e = absurd (cc)
lookup-Cached key ((k, v) ∷ m) c h e = elim (Bool-cases (str_eq k key)) [
  | inl b ↦
      let same : some v ≡ some c = rw (b, lookup) at e in
      let found : v ≡ c = cc in
      subst (λ (x : MongoSchemaCache). AreColumns x.field_mappings) found h.0
  | inr b ↦ lookup-Cached key m c h.1 (rw (b, lookup) at e)
]

-- In any life of a new registry, whatever the driver answers: the mappings that `get_field_mappings`
-- serves for any table have distinct names, which ascend in the order of their bytes; and each has a
-- valid SQL name, which is the normalised form of its path, may be null, and has the length of its
-- type.
pub served-AreColumns :
    (client_of : Bytes → Option ℕ) (s : Bytes) {r : MongoSchemaRegistry} (now : ℕ) (key : Bytes)
    (mappings : List MongoFieldMapping)
    → Reach (new_registry client_of s) r
    → get_field_mappings now key r ≡ some mappings
    → AreColumns mappings
unfolding get_field_mappings
served-AreColumns client_of s {r} now key mappings life e =
    elim (Option-cases (lookup key r.schema_cache)) [
      | inl n ↦ let missing : none ≡ some mappings = rw (n, get_field_mappings) at e in absurd (cc)
      | inr (cache, n) ↦ elim (Bool-cases (is_cache_valid now cache)) [
        | inl b ↦
            let same : some cache.field_mappings ≡ some mappings =
              rw (n, b, get_field_mappings) at e in
            let served : cache.field_mappings ≡ mappings = cc in
            subst AreColumns served
              (lookup-Cached key r.schema_cache cache (Reach-Inv client_of s life) n)
        | inr b ↦
            let missing : none ≡ some mappings = rw (n, b, get_field_mappings) at e in absurd (cc)
      ]
    ]
