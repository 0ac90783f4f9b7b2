-- ===== src/Handler/Ops.antt =====
-- The calls of MariaDB that read or change a handler's state, in any order: src/ha_mongodb_handler.cc.
use mongodb_engine.Base.{ℕ, Bool, List, Option, Bytes}
use mongodb_engine.Handler.Defs.{Column, Server, HaMongodb, new_handler}
use mongodb_engine.Handler.Connect
use mongodb_engine.Handler.Scan
use mongodb_engine.Handler.Index
use mongodb_engine.Handler.Stats
use mongodb_engine.Handler.Stats.{Extra}

-- Each call comes with what the driver and the allocator answer while it runs.
pub data Call : Type 0 where
  open_table : Bool → (ℕ → ℕ → Bool) → Option Bytes → Call
  close rnd_end position index_end read_range_next cond_pop reset write_row update_row delete_row :
      Call
  rnd_init : Server → Bool → Call
  rnd_next index_next : List Column → Call
  rnd_pos : Server → List Column → Option ℕ → Call
  index_init : ℕ → Call
  index_read_map index_read : Server → List Column → Call
  read_range_first info : Server → Call
  cond_push : Option ℕ → Call
  extra : Extra → Call

abbrev pub run : Call → HaMongodb → HaMongodb
run (Call.open_table room alloc text) s = (Connect.open_table room alloc text s).1
run Call.close s = (Connect.close s).1
run (Call.rnd_init d scan) s = (Scan.rnd_init d scan s).1
run (Call.rnd_next fields) s = (Scan.rnd_next fields s).handler
run Call.rnd_end s = (Scan.rnd_end s).1
run Call.position s = Scan.position s
run (Call.rnd_pos d fields pos) s = (Scan.rnd_pos d fields pos s).handler
run (Call.index_init keynr) s = (Index.index_init keynr s).1
run (Call.index_read_map d fields) s = (Index.index_read_map d fields s).handler
run (Call.index_read d fields) s = (Index.index_read d fields s).handler
run (Call.index_next fields) s = (Index.index_next fields s).handler
run Call.index_end s = (Index.index_end s).1
run (Call.read_range_first d) s = (Index.read_range_first d s).1
run Call.read_range_next s = (Index.read_range_next s).1
run (Call.info d) s = (Stats.info d s).1
run (Call.cond_push cond) s = (Stats.cond_push cond s).1
run Call.cond_pop s = Stats.cond_pop s
run (Call.extra operation) s = (Stats.extra operation s).1
run Call.reset s = (Stats.reset s).1
run Call.write_row s = (Stats.write_row s).1
run Call.update_row s = (Stats.update_row s).1
run Call.delete_row s = (Stats.delete_row s).1

-- The states of one handler.
pub data Reach : HaMongodb → Type 0 where
  fresh : Reach new_handler
  call : {s : HaMongodb} → Reach s → (c : Call) → Reach (run c s)
