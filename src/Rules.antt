-- ===== src/Rules.antt =====
-- src/rules.rs and src/premints/zora_premint/rules.rs
pub mod Evaluation
pub mod Context
pub mod General
pub mod Signed
pub mod Engine
mod Tests
