-- ===== src/Schema/Cache.antt =====
-- The cache of schemas over time.
use mongodb_engine.Base.{
  ℕ, ◌+◌, ◌*◌, ◌≡◌, ◌≢◌, sym, ap, ◌∙◌, Bool, true, false, not, ◌||◌, List, [], map, Option, none,
  some, Bytes, insert, modify, lookup, lookup-insert, lookup-modify, str_eq, str_eq_iff,
  str_eq_refl, is_empty, ltb, if◌then◌else◌, Bool-cases, Option-cases, inl, inr, ◌⊎◌, arith,
}
use mongodb_engine.Schema.Fields.{MongoFieldMapping, Document}
use mongodb_engine.Schema.Registry.{
  MongoSchemaCache, MongoSchemaRegistry, SchemaDriver, sample_collection_documents, analyze_all,
  is_cache_valid, has_valid_cache, table_key, new_cache, infer_from_samples,
  infer_schema_from_collection, get_field_mappings, invalidate_cache,
}

-- The registry is connected, and has no valid entry for the table.
pub record Misses (now : ℕ) (key : Bytes) (r : MongoSchemaRegistry) : Type 0 where
  pub client : ℕ
  pub connected : r.schema_client ≡ some client
  pub stale : has_valid_cache now (lookup key r.schema_cache) ≡ false

-- What a lookup serves of what it finds.
abbrev served : ℕ → Option MongoSchemaCache → Option (List MongoFieldMapping)
served now none = none
served now (some cache) = if is_cache_valid now cache then some cache.field_mappings else none

get-lookup :
    (t : ℕ) (key : Bytes) (r : MongoSchemaRegistry)
    → get_field_mappings t key r ≡ served t (lookup key r.schema_cache)
unfolding get_field_mappings
get-lookup t key r = elim (Option-cases (lookup key r.schema_cache)) [
  | inl n ↦ rw (n, get_field_mappings)
  | inr (v, n) ↦ rw (n, get_field_mappings)
]

infer-miss :
    (d : SchemaDriver) (now later : ℕ) (db c : Bytes) (r : MongoSchemaRegistry)
    → Misses now (table_key db c) r
    → d.has_collection db c ≡ true
    → infer_schema_from_collection d now later db c r
      ≡ infer_from_samples later r db c (sample_collection_documents (d.aggregate db c))
unfolding infer_schema_from_collection
infer-miss d now later db c r m h = ground (arith, m.connected, m.stale, h)

samples-result :
    (later : ℕ) (r : MongoSchemaRegistry) (db c : Bytes) (s : Bool × List (Option Document))
    → (infer_from_samples later r db c s).result ≡ true
    → (infer_from_samples later r db c s).registry ≡ record r {
      schema_cache = insert (table_key db c) (new_cache later r.cache_ttl c s.1) r.schema_cache;
    }
unfolding infer_from_samples
samples-result later r db c s h = elim (Bool-cases (not s.0 || is_empty s.1)) [
  | inl e ↦ ground arith
  | inr e ↦ rw e
]

get-new :
    (later t : ℕ) (r : MongoSchemaRegistry) (db c : Bytes) (samples : List (Option Document))
    → get_field_mappings t (table_key db c) (record r {
      schema_cache = insert (table_key db c) (new_cache later r.cache_ttl c samples) r.schema_cache;
    })
      ≡ (if ltb t (later + r.cache_ttl * 1000000000)
          then some (map (λ f. f.1) (analyze_all samples []))
          else none)
unfolding is_cache_valid new_cache
get-new later t r db c samples =
    get-lookup t (table_key db c) (record r {
      schema_cache = insert (table_key db c) (new_cache later r.cache_ttl c samples) r.schema_cache;
    })
    ∙ rw (
      lookup-insert (table_key db c) (table_key db c) (new_cache later r.cache_ttl c samples)
          r.schema_cache,
      str_eq_refl (table_key db c),
    )

sampled-registry :
    (later : ℕ) (r : MongoSchemaRegistry) (db c : Bytes) (s : Bool × List (Option Document))
    → (infer_from_samples later r db c s).result ≡ false
    → (infer_from_samples later r db c s).registry ≡ r
unfolding infer_from_samples
sampled-registry later r db c s h = elim (Bool-cases (not s.0 || is_empty s.1)) [
  | inl e ↦ rw e
  | inr e ↦ ground arith
]

sampled-others :
    (later : ℕ) (r : MongoSchemaRegistry) (db c key : Bytes) (s : Bool × List (Option Document))
    → table_key db c ≢ key
    → lookup key (infer_from_samples later r db c s).registry.schema_cache
      ≡ lookup key r.schema_cache
unfolding infer_from_samples
sampled-others later r db c key s ne = elim (Bool-cases (not s.0 || is_empty s.1)) [
  | inl e ↦ rw e
  | inr e ↦
      rw (e, lookup-insert (table_key db c) key (new_cache later r.cache_ttl c s.1) r.schema_cache)
        (ground (arith, str_eq_iff (table_key db c) key))
]

-- The four ways that an inference can go.
infer-cases :
    (d : SchemaDriver) (now later : ℕ) (db c : Bytes) (r : MongoSchemaRegistry)
    → (infer_schema_from_collection d now later db c r
        ≡ infer_from_samples later r db c (sample_collection_documents (d.aggregate db c)))
      ⊎ ((infer_schema_from_collection d now later db c r).registry ≡ r)
unfolding infer_schema_from_collection
infer-cases d now later db c r = elim (Option-cases r.schema_client) [
  | inl e ↦ inr (ground (arith, e))
  | inr (k, e) ↦ elim (Bool-cases (has_valid_cache now (lookup (table_key db c) r.schema_cache))) [
    | inl f ↦ inr (ground (arith, e, f))
    | inr f ↦ elim (Bool-cases (d.has_collection db c)) [
      | inl g ↦ inl (ground (arith, e, f, g))
      | inr g ↦ inr (ground (arith, e, f, g))
    ]
  ]
]

-- A schema that is inferred anew, by a registry that is connected and has no valid entry of the table,
-- and for a collection that the driver has a handle of, is served until its time to live is over, and
-- not after: its mappings are those of the sampled documents.
pub infer-get :
    (d : SchemaDriver) (now later t : ℕ) (db c : Bytes) (r : MongoSchemaRegistry)
    → Misses now (table_key db c) r
    → d.has_collection db c ≡ true
    → (infer_schema_from_collection d now later db c r).result ≡ true
    → get_field_mappings t
        (table_key db c)
        (infer_schema_from_collection d now later db c r).registry
      ≡ (if ltb t (later + r.cache_ttl * 1000000000)
          then some
              (map (λ f. f.1) (analyze_all (sample_collection_documents (d.aggregate db c)).1 []))
          else none)
infer-get d now later t db c r m h ok =
    let s = sample_collection_documents (d.aggregate db c) in
    let e = infer-miss d now later db c r m h in
    ap (λ i. get_field_mappings t (table_key db c) i.registry) e
    ∙ ap (get_field_mappings t (table_key db c))
        (samples-result later r db c s (ap (λ i. i.result) (sym e) ∙ ok))
    ∙ get-new later t r db c s.1

-- An inference that fails leaves the registry as it was, whatever the reason.
pub infer_fails :
    (d : SchemaDriver) (now later : ℕ) (db c : Bytes) (r : MongoSchemaRegistry)
    → (infer_schema_from_collection d now later db c r).result ≡ false
    → (infer_schema_from_collection d now later db c r).registry ≡ r
infer_fails d now later db c r h = elim (infer-cases d now later db c r) [
  | inr e ↦ e
  | inl e ↦
      ap (λ i. i.registry) e
      ∙ sampled-registry later r db c (sample_collection_documents (d.aggregate db c))
          (ap (λ i. i.result) (sym e) ∙ h)
]

-- No inference touches the entry of another table.
infer_others :
    (d : SchemaDriver) (now later : ℕ) (db c key : Bytes) (r : MongoSchemaRegistry)
    → table_key db c ≢ key
    → lookup key (infer_schema_from_collection d now later db c r).registry.schema_cache
      ≡ lookup key r.schema_cache
infer_others d now later db c key r ne = elim (infer-cases d now later db c r) [
  | inr e ↦ ap (λ q. lookup key q.schema_cache) e
  | inl e ↦
      ap (λ i. lookup key i.registry.schema_cache) e
      ∙ sampled-others later r db c key (sample_collection_documents (d.aggregate db c)) ne
]

modified :
    (t : ℕ) (key other : Bytes) (v : MongoSchemaCache) (r : MongoSchemaRegistry)
    → lookup key r.schema_cache ≡ some v
    → served t (lookup other (modify key (λ c. record c { is_valid = false }) r.schema_cache))
      ≡ (if str_eq key other then none else served t (lookup other r.schema_cache))
unfolding is_cache_valid
modified t key other v r n =
    rw (lookup-modify key other (λ c. record c { is_valid = false }) r.schema_cache v n)
      (elim (Bool-cases (str_eq key other)) [ inl e ↦ rw e | inr e ↦ rw e ])

served-invalidate :
    (t : ℕ) (key other : Bytes) (r : MongoSchemaRegistry)
    → served t (lookup other (invalidate_cache key r).schema_cache)
      ≡ (if str_eq key other then none else served t (lookup other r.schema_cache))
unfolding invalidate_cache
served-invalidate t key other r = elim (Option-cases (lookup key r.schema_cache)) [
  | inl n ↦
      rw (invalidate_cache, n)
        (elim (Bool-cases (str_eq key other)) [
          | inl e ↦ rw (e, ← (str_eq_iff key other).0 e, n)
          | inr e ↦ rw e
        ])
  | inr (v, n) ↦ rw (invalidate_cache, n) (modified t key other v r n)
]

-- Invalidating a table hides its mappings at all times, and leaves the other tables alone.
pub get-invalidate :
    (t : ℕ) (key other : Bytes) (r : MongoSchemaRegistry)
    → get_field_mappings t other (invalidate_cache key r)
      ≡ (if str_eq key other then none else get_field_mappings t other r)
get-invalidate t key other r =
    get-lookup t other (invalidate_cache key r)
    ∙ served-invalidate t key other r
    ∙ elim (Bool-cases (str_eq key other)) [
      | inl e ↦ rw e
      | inr e ↦ rw e (sym (get-lookup t other r))
    ]
