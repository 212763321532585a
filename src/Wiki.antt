-- ===== src/Wiki.antt =====
-- The crate `omnifuse-wiki` (crates/omnifuse-wiki/src).
pub mod Page
pub mod PageIndex
pub mod Error
pub mod State
pub mod Meta
pub mod Session
pub mod Upload
pub mod Refresh
pub mod Facade
