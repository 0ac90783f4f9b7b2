-- ===== src/Handler/Convert.antt =====
-- From documents to rows: src/ha_mongodb_handler.cc.
use mongodb_engine.Base.{
  ℕ, suc, zero, ◌*◌, ◌%◌, ◌^◌, ◌==◌, ◌&&◌, ◌||◌, ltb, ◌+◌, ◌/◌, List, [], ◌∷◌, ◌++◌, map, Option,
  none, some, Bytes, codes, str_eq, take, if◌then◌else◌,
}
use mongodb_engine.Base.Int.{ℤ, pos, negsuc, neg, to_string}
use mongodb_engine.Handler.Defs.{Column, Doc, BsonValue}

-- What a field holds: null, the zero bytes of the cleared buffer, or what its `store` was last given.
-- The buffer is `record[0]` of the table, where the fields' null bits are.
pub data Cell : Type 0 where
  null zeros : Cell
  number : ℤ → Cell
  timestamp : ℤ → Cell
  real : ℕ → Cell
  text : Bytes → Cell

-- `bson_iter_find`: the first value of that key.
unfoldable pub iter_find : Bytes → List (Bytes × BsonValue) → Option BsonValue
iter_find key [] = none
iter_find key ((k, v) ∷ fields) = if str_eq k key then some v else iter_find key fields

-- A text where there is one; else the field stays zero.
abbrev pub store_json : Option Bytes → Cell
store_json none = Cell.zeros
store_json (some s) = Cell.text s

-- The number of a type in the BSON specification.
unfoldable pub iter_type : BsonValue → ℕ
iter_type (BsonValue.double _) = 1
iter_type (BsonValue.utf8 _) = 2
iter_type (BsonValue.document _) = 3
iter_type (BsonValue.array _) = 4
iter_type (BsonValue.binary _) = 5
iter_type (BsonValue.oid _) = 7
iter_type (BsonValue.bool _) = 8
iter_type (BsonValue.date_time _) = 9
iter_type BsonValue.null = 10
iter_type (BsonValue.int32 _) = 16
iter_type (BsonValue.int64 _) = 18
iter_type (BsonValue.other code _) = code

-- `Field::set_null`, which does nothing where the column is `NOT NULL`: the field stays zero.
abbrev pub set_null : Column → Cell
set_null field = if field.maybe_null then Cell.null else Cell.zeros

-- How many low bits a double, which has 53 of them, leaves out of a number: at most 11 of 64.
abbrev low_bits : ℕ → ℕ → ℕ
low_bits zero n = 0
low_bits (suc k) n = let rest = low_bits k (n / 2) in if ltb n (2 ^ 53) then 0 else rest + 1

-- The multiple of `unit` that is nearest to `n`, and the even one of two.
abbrev nearest_even : ℕ → ℕ → ℕ
nearest_even unit n =
    let q = n / unit in
    let r = n % unit in
    if ltb (r + r) unit || (r + r == unit && q % 2 == 0) then q * unit else (q + 1) * unit

-- `store` with one integer is `Field::store(double)`: the number is rounded to a double. Those of 32 bits
-- stay as they are.
abbrev pub to_double : ℤ → ℤ
to_double (pos n) = pos (nearest_even (2 ^ low_bits 11 n) n)
to_double (negsuc n) = neg (nearest_even (2 ^ low_bits 11 (n + 1)) (n + 1))

unfoldable pub store_simple_value : BsonValue → Cell
store_simple_value (BsonValue.int32 n) = Cell.number n
store_simple_value (BsonValue.int64 n) = Cell.number (to_double n)
store_simple_value (BsonValue.double bits) = Cell.real bits
store_simple_value (BsonValue.utf8 s) = Cell.text s
store_simple_value v =
    Cell.text (codes "[BSON_TYPE_" ++ (to_string (pos (iter_type v)) ++ codes "]"))

unfoldable pub convert_simple_field_from_document : Doc → Column → Cell
convert_simple_field_from_document doc field = elim (iter_find field.name doc.fields) [
  | none ↦ set_null field
  | some v ↦ store_simple_value v
]

unfoldable pub store_id_value : Doc → BsonValue → Cell
store_id_value doc (BsonValue.oid s) = Cell.text s
store_id_value doc (BsonValue.utf8 s) = Cell.text s
store_id_value doc (BsonValue.int32 n) = Cell.number n
store_id_value doc (BsonValue.int64 n) = Cell.number (to_double n)
store_id_value doc _ = store_json doc.canonical_json

unfoldable pub convert_mongodb_id_field : Doc → Column → Cell
convert_mongodb_id_field doc field = elim (iter_find (codes "_id") doc.fields) [
  | none ↦ set_null field
  | some v ↦ store_id_value doc v
]

-- The literal that stands for a document without a JSON form; `store` is given the length 37.
abbrev pub conversion_error : Bytes
conversion_error = codes "{\"error\":\"Failed to convert BSON to JSON\"}"

unfoldable pub convert_full_document_field : Doc → Cell
convert_full_document_field doc = elim doc.relaxed_json [
  | some json ↦ Cell.text json
  | none ↦ elim doc.canonical_json [
    | some json ↦ Cell.text json
    | none ↦ Cell.text (take 37 conversion_error)
  ]
]

-- One turn of the loop over the table's fields; the branch of the document is the same code as
-- `convert_full_document_field`.
unfoldable pub convert_field : Doc → Column → Cell
convert_field doc field =
    if str_eq field.name (codes "_id")
    then convert_mongodb_id_field doc field
    else if str_eq field.name (codes "document")
    then convert_full_document_field doc
    else convert_simple_field_from_document doc field

-- The buffer is there; `none` is the result 1.
unfoldable pub convert_document_to_row : List Column → Option Doc → Option (List Cell)
convert_document_to_row fields none = none
convert_document_to_row fields (some doc) = some (map (convert_field doc) fields)

-- Division of a signed number, rounded towards 0.
abbrev pub div_toward_zero : ℤ → ℕ → ℤ
div_toward_zero (pos n) m = pos (n / m)
div_toward_zero (negsuc n) m = neg ((n + 1) / m)

-- `convert_bson_value_to_field`, where the iterator and the field are there.
unfoldable pub convert_bson_value_to_field : BsonValue → Cell
convert_bson_value_to_field (BsonValue.utf8 s) = Cell.text s
convert_bson_value_to_field (BsonValue.int32 n) = Cell.number n
convert_bson_value_to_field (BsonValue.int64 n) = Cell.number (to_double n)
convert_bson_value_to_field (BsonValue.double bits) = Cell.real bits
convert_bson_value_to_field (BsonValue.bool b) = Cell.number (pos (if b then 1 else 0))
convert_bson_value_to_field (BsonValue.date_time ms) = Cell.timestamp (div_toward_zero ms 1000)
convert_bson_value_to_field (BsonValue.oid s) = Cell.text s
convert_bson_value_to_field (BsonValue.document json) = store_json json
convert_bson_value_to_field (BsonValue.array json) = store_json json
convert_bson_value_to_field (BsonValue.binary s) = Cell.text s
convert_bson_value_to_field BsonValue.null = Cell.null
convert_bson_value_to_field (BsonValue.other code json) = store_json json
