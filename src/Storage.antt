-- ===== src/Storage.antt =====
-- src/storage.rs and the table that the migrations make
pub mod Table
pub mod Store
pub mod History
pub mod Uris
pub mod Retention
pub mod Query
mod Tests
