-- ===== src/Schema/Types.antt =====
-- Field types, and the conversions between BSON types and MariaDB types: src/mongodb_schema.cc.
use mongodb_engine.Base.{ℕ, ◌+◌, ◌==◌, Bytes, codes, Bool, true, false}

-- The types of MariaDB fields that the code names; the other members of the enumeration are `other`.
pub data FieldType : Type 0 where
  tiny short long longlong float double newdecimal : FieldType
  string var_string blob long_blob medium_blob : FieldType
  datetime timestamp date time : FieldType
  other : ℕ → FieldType

-- The types of BSON values that the code names; the others carry their number.
pub data BsonType : Type 0 where
  double utf8 document array binary bool date_time null int32 timestamp int64 decimal128 oid :
      BsonType
  other : ℕ → BsonType

-- `infer_field_type` of a value that is there; of none it is `string`.
unfoldable pub infer_field_type : BsonType → FieldType
infer_field_type BsonType.double = FieldType.double
infer_field_type BsonType.utf8 = FieldType.string
infer_field_type BsonType.document = FieldType.medium_blob
infer_field_type BsonType.array = FieldType.medium_blob
infer_field_type BsonType.binary = FieldType.blob
infer_field_type BsonType.bool = FieldType.tiny
infer_field_type BsonType.date_time = FieldType.datetime
infer_field_type BsonType.null = FieldType.string
infer_field_type BsonType.int32 = FieldType.long
infer_field_type BsonType.timestamp = FieldType.timestamp
infer_field_type BsonType.int64 = FieldType.longlong
infer_field_type BsonType.decimal128 = FieldType.newdecimal
infer_field_type BsonType.oid = FieldType.string
infer_field_type (BsonType.other n) = FieldType.string

-- `MYSQL_TYPE_JSON` is `MYSQL_TYPE_LONG_BLOB` where MariaDB's headers do not define it as a macro,
-- which they do not: there it is no member of the enumeration, and here it is the file's constant.
unfoldable pub bson_type_to_mysql_type : BsonType → FieldType
bson_type_to_mysql_type BsonType.double = FieldType.double
bson_type_to_mysql_type BsonType.utf8 = FieldType.string
bson_type_to_mysql_type BsonType.document = FieldType.long_blob
bson_type_to_mysql_type BsonType.array = FieldType.long_blob
bson_type_to_mysql_type BsonType.binary = FieldType.blob
bson_type_to_mysql_type BsonType.bool = FieldType.tiny
bson_type_to_mysql_type BsonType.date_time = FieldType.datetime
bson_type_to_mysql_type BsonType.int32 = FieldType.long
bson_type_to_mysql_type BsonType.timestamp = FieldType.timestamp
bson_type_to_mysql_type BsonType.int64 = FieldType.longlong
bson_type_to_mysql_type BsonType.decimal128 = FieldType.newdecimal
bson_type_to_mysql_type BsonType.oid = FieldType.string
bson_type_to_mysql_type _ = FieldType.string

unfoldable pub mysql_type_to_string : FieldType → Bytes
mysql_type_to_string FieldType.tiny = codes "TINYINT"
mysql_type_to_string FieldType.short = codes "SMALLINT"
mysql_type_to_string FieldType.long = codes "INT"
mysql_type_to_string FieldType.longlong = codes "BIGINT"
mysql_type_to_string FieldType.float = codes "FLOAT"
mysql_type_to_string FieldType.double = codes "DOUBLE"
mysql_type_to_string FieldType.newdecimal = codes "DECIMAL"
mysql_type_to_string FieldType.string = codes "VARCHAR"
mysql_type_to_string FieldType.var_string = codes "VARCHAR"
mysql_type_to_string FieldType.blob = codes "BLOB"
mysql_type_to_string FieldType.long_blob = codes "LONGBLOB"
mysql_type_to_string FieldType.medium_blob = codes "MEDIUMBLOB"
mysql_type_to_string FieldType.datetime = codes "DATETIME"
mysql_type_to_string FieldType.timestamp = codes "TIMESTAMP"
mysql_type_to_string FieldType.date = codes "DATE"
mysql_type_to_string FieldType.time = codes "TIME"
mysql_type_to_string (FieldType.other n) = codes "VARCHAR"

-- The number of a type, by which `==` tells types apart.
unfoldable pub type_code : FieldType → ℕ
type_code FieldType.tiny = 0
type_code FieldType.short = 1
type_code FieldType.long = 2
type_code FieldType.longlong = 3
type_code FieldType.float = 4
type_code FieldType.double = 5
type_code FieldType.newdecimal = 6
type_code FieldType.string = 7
type_code FieldType.var_string = 8
type_code FieldType.blob = 9
type_code FieldType.long_blob = 10
type_code FieldType.medium_blob = 11
type_code FieldType.datetime = 12
type_code FieldType.timestamp = 13
type_code FieldType.date = 14
type_code FieldType.time = 15
type_code (FieldType.other n) = 16 + n

abbrev pub same_type : FieldType → FieldType → Bool
same_type a b = type_code a == type_code b

abbrev pub is_string : FieldType → Bool
is_string FieldType.string = true
is_string _ = false

abbrev pub is_long : FieldType → Bool
is_long FieldType.long = true
is_long _ = false

abbrev pub is_double : FieldType → Bool
is_double FieldType.double = true
is_double _ = false
