-- ===== src/Store.antt =====
-- The document store of db/store.go.
pub mod Indexes
pub mod Writes
pub mod Sorting
pub mod Parallel
mod Tests
