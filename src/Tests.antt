-- ===== src/Tests.antt =====
-- The theorems at concrete data. No code of the repository is modelled here.
mod Disk
mod Buffers
mod Files
mod Engine
mod S3
mod Inodes
mod Polls
mod Vfs
mod Mount
mod Cache
mod Wiki
mod Git
