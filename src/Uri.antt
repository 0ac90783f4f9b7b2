-- ===== src/Uri.antt =====
-- include/mongodb_uri_parser.h and src/mongodb_uri_parser.cc: connection strings.
pub mod Defs
pub mod Helpers
pub mod Validate
pub mod Parse
pub mod Print
pub mod Sound
pub mod Mask
pub mod Decode
pub mod Hostname
pub mod Split
pub mod RoundTrip
pub mod Shape
pub mod Grammar
pub mod Tests
