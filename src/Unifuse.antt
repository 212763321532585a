-- ===== src/Unifuse.antt =====
-- The crate `unifuse` (crates/unifuse/src).
pub mod Inode
pub mod Types
pub mod Session
pub mod Rfuse3
