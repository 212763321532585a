-- ===== src/Lib.antt =====
-- OmniFuse mounts a remote store (a git repository, a wiki, an S3 bucket) as a local directory. File
-- calls change buffers in memory and a working copy on disk; a sync engine hands the changed files to
-- a backend, which uploads them and brings remote changes back. This library models the core of that
-- program as executable functions and proves what they promise.
--
-- The parts and their files:
--   Prelude        shared names: results, lists, finite maps, sets, machine words
--   FilePath       std::path: components, join, prefixes
--   Core/TextMerge         crates/omnifuse-core/src/text_merge.rs
--   Core/DirtyIndex        crates/omnifuse-core/src/dirty_index.rs
--   Core/Backend           crates/omnifuse-core/src/backend.rs, the trait as an interface
--   Core/FileSystem        std::fs and tokio::fs as an interface with its laws
--   Core/Buffer            crates/omnifuse-core/src/buffer.rs, FileBuffer
--   Core/BufferManager     crates/omnifuse-core/src/buffer.rs, FileBufferManager
--   Core/FileMutations     crates/omnifuse-core/src/file_mutations.rs
--   Core/SyncEngine        crates/omnifuse-core/src/sync_engine.rs
--   S3/Path, S3/Manifest, S3/Error   crates/omnifuse-s3/src/path.rs, manifest.rs, error.rs
--   S3/State, S3/Session   crates/omnifuse-s3/src/session.rs: state and store; ManifestStore
--   S3/Init, S3/Put, S3/Upload, S3/Refresh   crates/omnifuse-s3/src/session.rs: initialize, sync_dirty,
--                          refresh_remote and what they call
--   S3/Facade              crates/omnifuse-s3/src/lib.rs, the backend that the engine calls
--   Core/Vfs               crates/omnifuse-core/src/vfs.rs: OmniFuseVfs; Core/Vfs/Session its session
--                          interface, Core/Vfs/Mounted that interface as the adapter calls it
--   Core/PersistentCache   crates/omnifuse-core/src/persistent_cache.rs; Core/PersistentCache/Walk and Evict
--                          its walk over the blobs, its eviction, put and open
--   Core/Directories       the calls on directories, links, times and extended attributes, as an interface
--   Unifuse/Inode          crates/unifuse/src/inode.rs
--   Unifuse/Types, Unifuse/Session   crates/unifuse/src/types.rs, session.rs
--   Unifuse/Rfuse3         crates/unifuse/src/rfuse3_adapter.rs: conversions; Unifuse/Rfuse3/Calls, Xattr
--                          and Copy the calls of the kernel
--   Wiki/Page, Wiki/PageIndex, Wiki/Error, Wiki/Meta   crates/omnifuse-wiki/src/page.rs, page_index.rs,
--                          error.rs, meta.rs
--   Wiki/State, Wiki/Session, Wiki/Upload, Wiki/Refresh   crates/omnifuse-wiki/src/session.rs and models.rs:
--                          state, reading and taking over pages, sync_dirty, refresh_remote
--   Wiki/Facade            crates/omnifuse-wiki/src/lib.rs, the backend that the engine calls
--   Git/Error, Git/Command, Git/Engine   crates/omnifuse-git/src/error.rs, engine.rs; Git/Command the
--                          program git as an interface, Git/Text and Git/Words the texts that are read
--   Git/Ops, Git/Lifecycle crates/omnifuse-git/src/ops.rs, sync_lifecycle.rs
--   Git/Url, Git/Source    crates/omnifuse-git/src/repo_source.rs, and the start of a lifecycle
--   Git/Backend            crates/omnifuse-git/src/lib.rs, tracking.rs
--   Tests          the theorems at concrete data
-- A child module, such as Core/Buffer/Write, holds proofs about its parent.
--
-- How they interact: FileMutations edits the buffers of BufferManager and queues the path for
-- SyncEngine. SyncEngine collects dirty paths, keeps the DirtyIndex, calls Backend.sync when a file is
-- closed, flushed or has been quiet for the debounce time, and Backend.refresh_remote with the
-- DirtyIndex as the test of protected paths. S3/Facade, Wiki/Facade and Git/Backend implement these two
-- calls, the first two over Core/TextMerge, the last over the program git. The adapter Unifuse/Rfuse3
-- takes the kernel's calls on inodes and handles to the session of Core/Vfs, by the numbers of
-- Unifuse/Inode; Core/Vfs keeps the open handles and calls FileMutations.
--
-- Conventions. Numbers are natural numbers; where the code adds 64-bit counters the wrap-around or
-- the saturation is written out, and a cast to fewer bits is a remainder. A state-changing method is
-- a function from a state to a result and a state, so the state that a failed call leaves is kept. A
-- text and a file name are their bytes, and where the code turns a name into text (to_string_lossy),
-- from_utf8_lossy of Core/TextMerge/Utf8 does. A path is its components, so that a slash at its end,
-- as new_path.join("") of rename_subtree leaves it, is not kept. DashMap, HashMap and BTreeMap are association lists with
-- unique keys; no theorem depends on their order. A shared buffer (Arc<FileBuffer>) is an index into
-- a heap, so that a handle that outlives its cache entry still names its buffer. A panic (overflow of
-- a vector's capacity) is `none`. Times are numbers; the clock is an argument.
--
-- Bounds and fuel. The loops of maybe_evict and copy_file_range are not structural. The fuel of the
-- first is twice the length of the queue plus one: a round either shortens the queue or uses up one of
-- the attempts, of which there are as many as the queue is long at first. The loop of copy_file_range
-- has the number of bytes to copy plus one as fuel: every round but the last copies a byte at least.
-- The upload loop of S3, which makes at most three attempts, and the push loop of git recur on the
-- attempts left.
--
-- Simplifications. Locks are left out: one method runs without another in between, and the two
-- workers of the engine take turns by whole rounds. The upload's background write to the object
-- cache happens at once. Event identifiers and times, logging and metrics sent elsewhere are left
-- out. Outside code is a parameter: the file system, the backend of the engine, OpenDAL's operator,
-- the persistent cache as the S3 and the wiki session see it, the client of the wiki, the program git,
-- SHA-256, diffy::merge and the JSON encoder.
--
-- Not modelled: the adapter for Windows and the mounting itself, the ignore patterns of git, the
-- offline start of the wiki session and its client, the daemon, the command line and the desktop
-- application.
pub mod Prelude
pub mod FilePath
pub mod Core
pub mod S3
pub mod Git
pub mod Wiki
pub mod Unifuse
mod Tests
