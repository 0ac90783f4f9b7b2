-- ===== src/Share/Defs.antt =====
-- `MONGODB_SHARE` of include/ha_mongodb.h: the fields that the code reads or writes.
use mongodb_engine.Base.{ℕ, Bool, false, Option, none, Bytes}

-- A `char *` is `none` where it is null.
pub record MongodbShare : Type 0 where
  pub parsed : Bool
  pub connection_string : Option Bytes
  pub mongo_connection_string : Option Bytes
  pub database_name : Option Bytes
  pub collection_name : Option Bytes
  pub use_count : ℕ

-- A share that `my_malloc` has filled with zeros.
abbrev pub zero_share : MongodbShare
zero_share = record {
  parsed = false;
  connection_string = none;
  mongo_connection_string = none;
  database_name = none;
  collection_name = none;
  use_count = 0;
}
