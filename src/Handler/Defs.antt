-- ===== src/Handler/Defs.antt =====
-- The state of `ha_mongodb` (include/ha_mongodb.h), and what the MongoDB C driver answers it.
use mongodb_engine.Base.{ℕ, ◌+◌, ◌%◌, ◌^◌, Bool, false, List, [], Option, none, some, Bytes, codes}
use mongodb_engine.Base.Int.{ℤ}
use mongodb_engine.Share.Defs.{MongodbShare}

-- What a handler's operation returns: MariaDB's `HA_ERR_` constants; `failed` is 1.
pub data Code : Type 0 where
  ok failed end_of_file internal_error no_connection no_such_table : Code
  wrong_command key_not_found out_of_mem : Code

-- A value of a document as the driver's iterator gives it. A double is its bits, an object id its 24
-- digits; a nested document, an array and a value of another type come with their canonical JSON,
-- which is `none` where the driver returns null for it.
pub data BsonValue : Type 0 where
  double : ℕ → BsonValue
  utf8 : Bytes → BsonValue
  document : Option Bytes → BsonValue
  array : Option Bytes → BsonValue
  binary : Bytes → BsonValue
  oid : Bytes → BsonValue
  bool : Bool → BsonValue
  date_time : ℤ → BsonValue
  null : BsonValue
  int32 : ℤ → BsonValue
  int64 : ℤ → BsonValue
  other : ℕ → Option Bytes → BsonValue

-- A document, with the driver's two JSON forms of it.
pub record Doc : Type 0 where
  pub fields : List (Bytes × BsonValue)
  pub relaxed_json : Option Bytes
  pub canonical_json : Option Bytes

-- A field of the table: its name, and whether the column may be null.
pub record Column : Type 0 where
  pub name : Bytes
  pub maybe_null : Bool

-- A filter is a conjunction of fields with a text.
abbrev pub Filter : Type 0
Filter = List (Bytes × Bytes)

-- What is left of a cursor, and the error behind its last document. A document is `none` where the
-- driver gives a null pointer.
pub record Cursor : Type 0 where
  pub documents : List (Option Doc)
  pub error : Option Bytes

-- The driver's error for a further `mongoc_cursor_next` on a cursor that has come to its end.
abbrev pub completed : Bytes
completed = codes "Cannot advance a completed or failed cursor."

-- A cursor after a `mongoc_cursor_next` that found nothing: an error that it has stays, and where it
-- had none the next call makes this one.
abbrev pub advanced : Option Bytes → Cursor
advanced none = record { documents = []; error = some completed }
advanced (some message) = record { documents = []; error = some message }

-- The handle of a collection: the names of its database and of itself.
abbrev pub Collection : Type 0
Collection = Bytes × Bytes

-- The options of a `find`: none; a batch of 1000 without a time limit; only the `_id`, in batches of 100.
pub data FindOpts : Type 0 where
  plain no_timeout ids_only : FindOpts

-- What the driver answers while one operation runs. A collection that is `none` is a null pointer; a
-- count is `none` where it is negative.
pub record Server : Type 0 where
  pub client_new : Bytes → Option ℕ
  pub get_database : ℕ → Bytes → Bool
  pub get_collection : Bytes → Bytes → Bool
  pub count_documents : Option Collection → Filter → Option ℕ
  pub find : Option Collection → Filter → FindOpts → Option Cursor

-- The fields of the class that the code uses; of `stats` those that are not constants, and `ref` of
-- the base class. `lost_cursors` is no field: it counts the cursors that were overwritten and not
-- destroyed. The constructor leaves the remote error as it finds it, which is `none` here.
-- `consecutive_rnd_next_calls` is an `int` whose overflow C++ leaves undefined.
pub record HaMongodb : Type 0 where
  pub share : Option MongodbShare
  pub client : Option ℕ
  pub collection : Option Collection
  pub cursor : Option Cursor
  pub current_doc : Option Doc
  pub key_read_mode : Bool
  pub count_mode : Bool
  pub active_index : ℕ
  pub mongo_count_result : ℕ
  pub mongo_count_returned : ℕ
  pub consecutive_rnd_next_calls : ℕ
  pub lightweight_count_mode : Bool
  pub documents_scanned : ℕ
  pub optimized_count_operations : ℕ
  pub count_performance_tracking : Bool
  pub pushed_condition : Option Filter
  pub scan_position : ℕ
  pub ref : ℕ
  pub records : ℕ
  pub data_file_length : ℕ
  pub remote_error_number : Option Code
  pub remote_error_buf : Bytes
  pub lost_cursors : ℕ

-- The constructor.
abbrev pub new_handler : HaMongodb
new_handler = record {
  share = none;
  client = none;
  collection = none;
  cursor = none;
  current_doc = none;
  key_read_mode = false;
  count_mode = false;
  active_index = 0;
  mongo_count_result = 0;
  mongo_count_returned = 0;
  consecutive_rnd_next_calls = 0;
  lightweight_count_mode = false;
  documents_scanned = 0;
  optimized_count_operations = 0;
  count_performance_tracking = false;
  pushed_condition = none;
  scan_position = 0;
  ref = 0;
  records = 0;
  data_file_length = 0;
  remote_error_number = none;
  remote_error_buf = [];
  lost_cursors = 0;
}

-- `++` of a 64-bit counter.
abbrev pub next_row : ℕ → ℕ
next_row n = (n + 1) % 2 ^ 64
