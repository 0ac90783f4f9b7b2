-- ===== src/Share.antt =====
-- src/mongodb_share.cc: the connection string of a table.
pub mod Defs
pub mod Parse
pub mod Shape
pub mod Agree
pub mod Suffix
pub mod Sent
pub mod Tests
