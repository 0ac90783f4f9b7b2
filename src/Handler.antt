-- ===== src/Handler.antt =====
-- The table handler `ha_mongodb`: include/ha_mongodb.h and src/ha_mongodb_handler.cc.
pub mod Defs
pub mod Connect
pub mod Convert
pub mod Scan
pub mod Index
pub mod Stats
pub mod Rest
pub mod Ops
pub mod Carry
pub mod Steady
pub mod Connection
pub mod Provenance
pub mod Uses
pub mod Modes
pub mod Cursors
pub mod Rows
pub mod FullScan
pub mod Finite
pub mod IndexScan
pub mod Seek
pub mod Scanner
pub mod Pushdown
mod Tests
