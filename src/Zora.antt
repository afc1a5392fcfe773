-- ===== src/Zora.antt =====
-- src/premints/zora_premint
pub mod Premint
pub mod Claims
mod Tests
