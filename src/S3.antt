-- ===== src/S3.antt =====
-- The crate `omnifuse-s3` (crates/omnifuse-s3/src).
pub mod Path
pub mod Manifest
pub mod Error
pub mod Session
pub mod Put
pub mod Upload
pub mod Refresh
pub mod Facade
pub mod State
pub mod Init
