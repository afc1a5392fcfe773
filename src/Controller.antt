-- ===== src/Controller.antt =====
-- src/controller.rs
pub mod State
pub mod Events
pub mod Commands
pub mod Inserts
pub mod Broadcasts
pub mod Claims
pub mod Runs
pub mod Tasks
pub mod Races
pub mod Interface
pub mod Fixtures
mod Tests
