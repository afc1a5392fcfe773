-- ===== src/Sync.antt =====
-- src/sync.rs
pub mod Node
pub mod Insert
pub mod Diff
pub mod TreeSet
mod Tests
