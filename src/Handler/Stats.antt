-- ===== src/Handler/Stats.antt =====
-- Statistics, pushed conditions and modes: src/ha_mongodb_handler.cc.
use mongodb_engine.Base.{
  ℕ, ◌*◌, ◌%◌, ◌^◌, Bool, true, false, not, ◌&&◌, [], Option, none, some, ltb, if◌then◌else◌,
}
use mongodb_engine.Share.Defs.{MongodbShare}
use mongodb_engine.Handler.Defs.{Code, Server, HaMongodb}
use mongodb_engine.Handler.Scan.{query_of, is_there}
use mongodb_engine.Translator.{translate_condition_to_bson}

-- The share is there and has its text.
abbrev pub has_text : Option MongodbShare → Bool
has_text none = false
has_text (some share) = is_there share.connection_string

abbrev pub mean_rec_length : ℕ
mean_rec_length = 512

-- The flag is only printed.
unfoldable pub info : Server → HaMongodb → Code × HaMongodb
info d s =
    let t = record s { records = 0; data_file_length = 0 } in
    if is_there t.client && is_there t.collection && has_text t.share
    then elim (d.count_documents t.collection (query_of t.pushed_condition)) [
      | none ↦ (Code.ok, t)
      | some n ↦
          (Code.ok, record t { records = n; data_file_length = (n * mean_rec_length) % 2 ^ 64 })
    ]
    else (Code.ok, t)

-- The method `records`.
unfoldable pub count_records : Server → HaMongodb → ℕ
count_records d s =
    if not (is_there s.collection)
    then 0
    else elim (d.count_documents s.collection (query_of s.pushed_condition)) [
      | none ↦ 0
      | some n ↦ n
    ]

unfoldable pub estimate_rows_upper_bound : HaMongodb → ℕ
estimate_rows_upper_bound s = if ltb 0 s.records then s.records else 1000

-- What is left for MariaDB to test; `bson_new` does not fail.
unfoldable pub cond_push : Option ℕ → HaMongodb → Option ℕ × HaMongodb
cond_push none s = (none, s)
cond_push (some cond) s =
    let translated = translate_condition_to_bson (some cond) [] in
    if translated.0
    then (none, record s { pushed_condition = some translated.1 })
    else (some cond, s)

unfoldable pub cond_pop : HaMongodb → HaMongodb
cond_pop s = record s { pushed_condition = none }

-- The members of `ha_extra_function` that change something; the others are only printed.
pub data Extra : Type 0 where
  reset_state keyread no_keyread : Extra
  other : ℕ → Extra

unfoldable pub extra : Extra → HaMongodb → Code × HaMongodb
extra Extra.reset_state s = (Code.ok, record s { key_read_mode = false; count_mode = false })
extra Extra.keyread s = (Code.ok, record s { key_read_mode = true })
extra Extra.no_keyread s = (Code.ok, record s { key_read_mode = false })
extra (Extra.other n) s = (Code.ok, s)

unfoldable pub reset : HaMongodb → Code × HaMongodb
reset s = (Code.ok, s)

-- `write_row`, `update_row` and `delete_row`.
unfoldable pub write_row : HaMongodb → Code × HaMongodb
write_row s = (Code.wrong_command, s)

unfoldable pub update_row : HaMongodb → Code × HaMongodb
update_row s = (Code.wrong_command, s)

unfoldable pub delete_row : HaMongodb → Code × HaMongodb
delete_row s = (Code.wrong_command, s)
