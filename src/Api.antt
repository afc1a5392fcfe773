-- ===== src/Api.antt =====
-- src/api
pub mod Routes
pub mod Admin
pub mod Router
pub mod Submissions
pub mod Effects
pub mod Access
pub mod Service
pub mod Summaries
mod Tests
