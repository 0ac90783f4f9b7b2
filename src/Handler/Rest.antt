-- ===== src/Handler/Rest.antt =====
-- The handler's methods that do nothing yet, and its two that nothing calls: src/ha_mongodb_handler.cc.
use mongodb_engine.Base.{
  ℕ, ◌==◌, Bool, false, not, Option, none, some, Bytes, codes, is_empty, if◌then◌else◌,
}
use mongodb_engine.Share.Defs.{MongodbShare}
use mongodb_engine.Share.Parse.{mongodb_parse_connection_string}
use mongodb_engine.Handler.Defs.{Code, HaMongodb}

unfoldable pub create : HaMongodb → Code × HaMongodb
create s = (Code.ok, s)

unfoldable pub delete_table : HaMongodb → Code × HaMongodb
delete_table s = (Code.ok, s)

unfoldable pub external_lock : HaMongodb → Code × HaMongodb
external_lock s = (Code.ok, s)

-- The locks are those that it is given.
unfoldable pub store_lock : ℕ → HaMongodb → ℕ × HaMongodb
store_lock to s = (to, s)

unfoldable pub get_error_message : Code → Bytes → HaMongodb → Bool × Bytes
get_error_message error buf s = (false, buf)

-- Static methods.
unfoldable pub commit : Code
commit = Code.ok

unfoldable pub rollback : Code
rollback = Code.ok

-- `MONGODB_RECORDS_IN_RANGE`, whatever the range.
unfoldable pub records_in_range : HaMongodb → ℕ
records_in_range s = 2

unfoldable pub stash_remote_error : HaMongodb → Code × HaMongodb
stash_remote_error s = (
  Code.no_connection,
  record s {
    remote_error_number = some Code.no_connection;
    remote_error_buf = codes "MongoDB operation failed";
  },
)

-- What the method makes of a parse; `room` says whether `my_strdup` has memory.
unfoldable pub keep_parsed : Bool → HaMongodb → ℕ × MongodbShare → Code × HaMongodb
keep_parsed room s parsed =
    if not (parsed.0 == 0) then (Code.failed, record s { share = some parsed.1 }) else (
      Code.ok,
      record s {
        share = some (record parsed.1 {
          mongo_connection_string = if room then parsed.1.connection_string else none;
        });
      },
    )

-- The method, which `open` passes over for the function of the same task.
unfoldable pub parse_connection_string :
    Bool → (ℕ → ℕ → Bool) → Option Bytes → HaMongodb → Code × HaMongodb
parse_connection_string room alloc none s = (Code.failed, s)
parse_connection_string room alloc (some text) s =
    if is_empty text then (Code.failed, s) else elim s.share [
      | none ↦ (Code.failed, s)
      | some share ↦ keep_parsed room s (mongodb_parse_connection_string alloc (some text) share)
    ]
