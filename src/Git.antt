-- ===== src/Git.antt =====
-- The crate `omnifuse-git` (crates/omnifuse-git/src).
pub mod Text
pub mod Words
pub mod Error
pub mod Command
pub mod Engine
pub mod Ops
pub mod Lifecycle
pub mod Url
pub mod Source
pub mod Backend
