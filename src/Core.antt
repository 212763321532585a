-- ===== src/Core.antt =====
-- The crate `omnifuse-core` (crates/omnifuse-core/src).
pub mod TextMerge
pub mod Directories
pub mod Vfs
pub mod PersistentCache
pub mod DirtyIndex
pub mod Backend
pub mod SyncEngine
pub mod FileSystem
pub mod Buffer
pub mod BufferManager
pub mod FileMutations
