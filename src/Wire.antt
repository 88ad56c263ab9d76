-- ===== src/Wire.antt =====
-- The wire-protocol server, directory wire.
pub mod Bson
pub mod Cursors
pub mod Update
mod Tests
