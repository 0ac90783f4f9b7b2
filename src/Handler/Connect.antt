-- ===== src/Handler/Connect.antt =====
-- `open` (here `open_table`), `close`, the share and the connection: src/ha_mongodb_handler.cc.
use mongodb_engine.Base.{
  ℕ, ◌+◌, ◌-◌, ◌%◌, ◌^◌, ◌==◌, Bool, true, false, not, Option, none, some, Bytes, if◌then◌else◌,
}
use mongodb_engine.Share.Defs.{MongodbShare, zero_share}
use mongodb_engine.Share.Parse.{mongodb_parse_connection_string}
use mongodb_engine.Handler.Defs.{Code, Server, HaMongodb}

-- `--` of an `unsigned int`.
abbrev pub less_one : ℕ → ℕ
less_one n = (n + 2 ^ 32 - 1) % 2 ^ 32

-- `room` says whether `my_malloc` has memory.
unfoldable pub get_share : Bool → HaMongodb → HaMongodb
get_share room s = elim s.share [
  | none ↦
      if room
      then record s { share = some (record zero_share { use_count = 1; parsed = false }) }
      else s
  | some share ↦ record s {
    share = some (record share { use_count = (share.use_count + 1) % 2 ^ 32 });
  }
]

unfoldable pub free_share : HaMongodb → HaMongodb
free_share s = elim s.share [
  | none ↦ s
  | some share ↦
      if less_one share.use_count == 0
      then record s { share = none }
      else record s { share = some (record share { use_count = less_one share.use_count }) }
]

unfoldable pub open_parsed : HaMongodb → ℕ × MongodbShare → Code × HaMongodb
open_parsed s parsed =
    if not (parsed.0 == 0)
    then (Code.internal_error, free_share (record s { share = some parsed.1 }))
    else (Code.ok, record s { share = some (record parsed.1 { parsed = true }) })

-- `alloc` is `alloc_root`'s memory for the parser, and the text is the table's connection string.
unfoldable pub open_table : Bool → (ℕ → ℕ → Bool) → Option Bytes → HaMongodb → Code × HaMongodb
open_table room alloc connect_string s =
    let t = get_share room s in
    elim t.share [
      | none ↦ (Code.out_of_mem, t)
      | some share ↦
          if not share.parsed
          then open_parsed t (mongodb_parse_connection_string alloc connect_string share)
          else (Code.ok, t)
    ]

unfoldable pub disconnect_from_mongodb : HaMongodb → HaMongodb
disconnect_from_mongodb s = record s {
  cursor = none;
  collection = none;
  client = none;
  current_doc = none;
}

unfoldable pub close : HaMongodb → Code × HaMongodb
close s =
    let t = disconnect_from_mongodb s in
    elim t.share [
      | none ↦ (Code.ok, t)
      | some _ ↦ (Code.ok, record (free_share t) { share = none })
    ]

-- The driver's part of `connect_to_mongodb`; a client that is of no use is destroyed.
unfoldable pub connect_client : Server → Bytes → Bytes → Bytes → HaMongodb → Code × HaMongodb
connect_client d uri database_name collection_name s = elim (d.client_new uri) [
  | none ↦ (Code.failed, record s { client = none })
  | some client ↦
      if not (d.get_database client database_name)
      then (Code.failed, record s { client = none })
      else if not (d.get_collection database_name collection_name)
      then (Code.failed, record s { client = none; collection = none })
      else (
        Code.ok,
        record s { client = some client; collection = some (database_name, collection_name) },
      )
]

unfoldable pub connect_share : Server → MongodbShare → HaMongodb → Code × HaMongodb
connect_share d share s = elim share.mongo_connection_string [
  | none ↦ (Code.failed, s)
  | some uri ↦ elim share.database_name [
    | none ↦ (Code.failed, s)
    | some database_name ↦ elim share.collection_name [
      | none ↦ (Code.failed, s)
      | some collection_name ↦ connect_client d uri database_name collection_name s
    ]
  ]
]

unfoldable pub connect_to_mongodb : Server → HaMongodb → Code × HaMongodb
connect_to_mongodb d s = elim s.share [
  | none ↦ (Code.failed, s)
  | some share ↦ connect_share d share s
]
