-- ===== src/Types.antt =====
-- src/types.rs
pub mod Data
pub mod Premint
mod Tests
