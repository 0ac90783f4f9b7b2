-- ===== src/Schema/Join.antt =====
-- The type that a column gets from the values of one document.
use mongodb_engine.Base.{
  ◌≡◌, refl, ap, ◌∙◌, true, false, not, ◌&&◌, List, [], ◌∷◌, ◌++◌, Option, none, some, Bytes,
  lookup, lookup-insert, lookup-modify, str_eq, str_eq_iff, str_eq_refl, if◌then◌else◌, Bool-cases,
  Option-cases, inl, inr, arith,
}
use mongodb_engine.Schema.Fields.{
  MongoFieldMapping, Document, Fields, new_mapping, refine_mapping, analyze_field, analyze_fields,
  analyze_document_structure,
}
use mongodb_engine.Schema.Names.{normalize_field_name, is_valid_sql_identifier}
use mongodb_engine.Schema.Registry.{analyze_all}
use mongodb_engine.Schema.Types.{
  FieldType, BsonType, infer_field_type, same_type, is_string, is_long, is_double, type_code,
}

-- The types that the values of one column have in a document, in order.
abbrev pub values_of : Bytes → Document → List FieldType
values_of name [] = []
values_of name ((key, value) ∷ doc) =
    if str_eq (normalize_field_name key) name
    then infer_field_type value ∷ values_of name doc
    else values_of name doc

-- Text wins over everything; a double wins over a 32-bit integer; else the first type stays.
abbrev pub join_type : FieldType → FieldType → FieldType
join_type current inferred =
    if is_string inferred
    then FieldType.string
    else if is_long current && is_double inferred
    then FieldType.double
    else current

abbrev pub join_types : Option FieldType → List FieldType → Option FieldType
join_types t [] = t
join_types none (x ∷ xs) = join_types (some x) xs
join_types (some t) (x ∷ xs) = join_types (some (join_type t x)) xs

abbrev pub type_of : Option MongoFieldMapping → Option FieldType
type_of none = none
type_of (some m) = some m.sql_type

-- One column of the tests on types.
refine_code : FieldType → FieldType → FieldType
refine_code c t =
    if not (same_type c t)
    then (if is_long c && is_double t
        then FieldType.double
        else if not (is_string c) && is_string t
        then FieldType.string
        else c)
    else c

string-code : (t : FieldType) → is_string t ≡ true → t ≡ FieldType.string
string-code FieldType.string h = refl
string-code _ h = absurd (cc)

double-code : (t : FieldType) → is_double t ≡ true → t ≡ FieldType.double
double-code FieldType.double h = refl
double-code _ h = absurd (cc)

pub long-code : (t : FieldType) → is_long t ≡ true → t ≡ FieldType.long
long-code FieldType.long h = refl
long-code _ h = absurd (cc)

join-string : (c t : FieldType) → is_string t ≡ true → refine_code c t ≡ FieldType.string
unfolding refine_code type_code
join-string FieldType.string t h = rw (string-code t h)
join-string _ t h = rw (string-code t h) (ground arith)

join-double :
    (c t : FieldType)
    → is_string t ≡ false
    → refine_code c t ≡ (if is_long c && is_double t then FieldType.double else c)
unfolding refine_code type_code
join-double c t h = elim (Bool-cases (is_long c)) [
  | inl l ↦ elim (Bool-cases (is_double t)) [
    | inl d ↦ rw (long-code c l, double-code t d)
    | inr d ↦ rw (d, h) (ground arith)
  ]
  | inr l ↦ rw (l, h) (ground arith)
]

refine_code-join : (c t : FieldType) → refine_code c t ≡ join_type c t
refine_code-join c t = elim (Bool-cases (is_string t)) [
  | inl e ↦ rw e (join-string c t e)
  | inr e ↦ rw e (join-double c t e)
]

pub refine-type :
    (t : FieldType) (m : MongoFieldMapping) → (refine_mapping t m).sql_type ≡ join_type m.sql_type t
refine-type t m = same ∙ refine_code-join m.sql_type t
  where
    same : (refine_mapping t m).sql_type ≡ refine_code m.sql_type t
    same = unfold refine_mapping refine_code in ground arith

type_at : Bytes → Fields → Option FieldType
type_at name fields = type_of (lookup name fields)

fresh-type :
    (k name key : Bytes) (value : BsonType) (fields : Fields)
    → lookup k fields ≡ none
    → type_of (if str_eq k name then some (new_mapping k key value) else lookup name fields) ≡ (
        if str_eq k name
        then join_types (type_of (lookup name fields)) (infer_field_type value ∷ [])
        else type_of (lookup name fields))
unfolding new_mapping
fresh-type k name key value fields n = elim (Bool-cases (str_eq k name)) [
  | inl e ↦ rw (e, ← (str_eq_iff k name).0 e, n)
  | inr e ↦ rw e
]

known-type :
    (k name : Bytes) (t : FieldType) (m : MongoFieldMapping) (fields : Fields)
    → lookup k fields ≡ some m
    → type_of (if str_eq k name then some (refine_mapping t m) else lookup name fields) ≡ (
        if str_eq k name
        then join_types (type_of (lookup name fields)) (t ∷ [])
        else type_of (lookup name fields))
known-type k name t m fields n = elim (Bool-cases (str_eq k name)) [
  | inl e ↦ rw (e, ← (str_eq_iff k name).0 e, n) (ap some (refine-type t m))
  | inr e ↦ rw e
]

join-cons :
    (t : Option FieldType) (x : FieldType) (xs : List FieldType)
    → join_types (join_types t (x ∷ [])) xs ≡ join_types t (x ∷ xs)
join-cons none x xs = refl
join-cons (some t) x xs = refl

analyze_field-type :
    (name key : Bytes) (value : BsonType) (fields : Fields)
    → is_valid_sql_identifier name ≡ true
    → type_at name (analyze_field key value fields) ≡ (
        if str_eq (normalize_field_name key) name
        then join_types (type_at name fields) (infer_field_type value ∷ [])
        else type_at name fields)
unfolding type_at analyze_field
analyze_field-type name key value fields v =
    let k = normalize_field_name key in
    elim (Bool-cases (is_valid_sql_identifier k)) [
      | inr e ↦ rw e (ground (arith, str_eq_iff k name))
      | inl e ↦ rw e (elim (Option-cases (lookup k fields)) [
        | inl n ↦
            rw (n, lookup-insert k name (new_mapping k key value) fields)
              (fresh-type k name key value fields n)
        | inr (m, n) ↦
            rw (n, lookup-modify k name (refine_mapping (infer_field_type value)) fields m n)
              (known-type k name (infer_field_type value) m fields n)
      ])
    ]

analyze_fields-type :
    (name : Bytes) (doc : Document) (fields : Fields)
    → is_valid_sql_identifier name ≡ true
    → type_at name (analyze_fields doc fields)
      ≡ join_types (type_at name fields) (values_of name doc)
unfolding analyze_fields
analyze_fields-type name [] fields v = refl
analyze_fields-type name ((key, value) ∷ doc) fields v =
    analyze_fields-type name doc (analyze_field key value fields) v
    ∙ elim (Bool-cases (str_eq (normalize_field_name key) name)) [
      | inl e ↦
          rw (analyze_field-type name key value fields v, e) (join-cons (type_at name fields) _ _)
      | inr e ↦ rw (analyze_field-type name key value fields v, e)
    ]

abbrev pub all_values : Bytes → List (Option Document) → List FieldType
all_values name [] = []
all_values name (none ∷ docs) = all_values name docs
all_values name (some doc ∷ docs) = values_of name doc ++ all_values name docs

join-append :
    (t : Option FieldType) (xs ys : List FieldType)
    → join_types (join_types t xs) ys ≡ join_types t (xs ++ ys)
join-append t [] ys = refl
join-append none (x ∷ xs) ys = join-append (some x) xs ys
join-append (some t) (x ∷ xs) ys = join-append (some (join_type t x)) xs ys

analyze_all-type :
    (name : Bytes) (docs : List (Option Document)) (fields : Fields)
    → is_valid_sql_identifier name ≡ true
    → type_at name (analyze_all docs fields)
      ≡ join_types (type_at name fields) (all_values name docs)
unfolding analyze_all analyze_document_structure
analyze_all-type name [] fields v = refl
analyze_all-type name (none ∷ docs) fields v = analyze_all-type name docs fields v
analyze_all-type name (some doc ∷ docs) fields v =
    analyze_all-type name docs (analyze_fields doc fields) v
    ∙ rw (analyze_fields-type name doc fields v)
        (join-append (type_at name fields) (values_of name doc) (all_values name docs))

-- The column of a valid name is there exactly if some value of the documents has that normalised
-- name, and its type is that of the first such value, joined with the types of the others in turn:
-- text wins over everything, a double over a 32-bit integer, and else the type stays.
pub analyze_all-join :
    (name : Bytes) (docs : List (Option Document))
    → is_valid_sql_identifier name ≡ true
    → type_of (lookup name (analyze_all docs [])) ≡ join_types none (all_values name docs)
unfolding type_at lookup
analyze_all-join name docs v = analyze_all-type name docs [] v

-- A column of 32-bit and of 64-bit integers has the type of whichever comes first, so the inferred
-- type need not be the more general one.
integers_keep_first :
    (key : Bytes)
    → is_valid_sql_identifier (normalize_field_name key) ≡ true
    → (type_of (
          lookup
            (normalize_field_name key)
            (analyze_all (some ((key, BsonType.int32) ∷ (key, BsonType.int64) ∷ []) ∷ []) []))
        ≡ some FieldType.long)
      × (type_of (
            lookup
              (normalize_field_name key)
              (analyze_all (some ((key, BsonType.int64) ∷ (key, BsonType.int32) ∷ []) ∷ []) []))
          ≡ some FieldType.longlong)
integers_keep_first key v =
    let name = normalize_field_name key in
    (
      analyze_all-join name (some ((key, BsonType.int32) ∷ (key, BsonType.int64) ∷ []) ∷ []) v
          ∙ rw (str_eq_refl name) (unfold infer_field_type in refl),
      analyze_all-join name (some ((key, BsonType.int64) ∷ (key, BsonType.int32) ∷ []) ∷ []) v
          ∙ rw (str_eq_refl name) (unfold infer_field_type in refl),
    )
