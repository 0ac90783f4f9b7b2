-- ===== src/Schema.antt =====
-- include/mongodb_schema.h and src/mongodb_schema.cc: the schema registry.
pub mod Types
pub mod Names
pub mod Fields
pub mod Registry
pub mod Normal
pub mod Keeps
pub mod Infer
pub mod Join
pub mod Order
pub mod Sorted
pub mod Lives
pub mod Again
pub mod Cache
pub mod Tests
