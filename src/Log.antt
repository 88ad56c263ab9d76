-- ===== src/Log.antt =====
-- The record log of db/filev2.go: frames, the records they hold, and the scan of a file.
pub mod Extern
pub mod Record
pub mod Scan
pub mod Writer
mod Tests
