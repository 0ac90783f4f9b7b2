-- ===== src/Pool.antt =====
-- include/mongodb_connection.h and src/mongodb_connection.cc: the connection pool.
pub mod Defs
pub mod Ops
pub mod Global
pub mod Invariant
pub mod Leases
pub mod Exclusive
pub mod Bounds
pub mod Progress
pub mod Clients
pub mod Registry
pub mod Tests
