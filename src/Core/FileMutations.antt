-- ===== src/Core/FileMutations.antt =====
-- The file mutation pipeline (crates/omnifuse-core/src/file_mutations.rs): open files, the buffer
-- cache, the disk, the queue to the sync engine and the events for the user. On Unix.
pub mod Close
pub mod Queue
use omni_fuse.Prelude.{
  ℕ, ◌+◌, ◌/◌, ◌%◌, ◌^◌, Bool, true, false, ◌||◌, List, [], ◌∷◌, ◌++◌, Option, none, some,
  if◌then◌else◌, leb, length, Fallible, ok, err,
}
use omni_fuse.FilePath.{FilePath, join}
use omni_fuse.Unifuse.Types.{FileType, FileAttr, directory, symlink_type, regular_file}
use omni_fuse.Core.FileSystem.{FileSystem, Metadata}
use omni_fuse.Core.Buffer
use omni_fuse.Core.Buffer.{Bytes, FileBuffer}
use omni_fuse.Core.BufferManager
use omni_fuse.Core.BufferManager.{Cache, BufferId, update_at}
use omni_fuse.Core.SyncEngine.{FsEvent, file_modified, file_closed}

-- `mode() as u16 & 0o7777`
unfoldable pub unix_perm : Metadata → ℕ
unix_perm meta = meta.mode % 2 ^ 16 % 2 ^ 12

-- `nlink() as u32`
unfoldable pub unix_nlink : Metadata → ℕ
unix_nlink meta = meta.nlink % 2 ^ 32

unfoldable pub metadata_to_attr : Metadata → ℕ → FileAttr
unfolding unix_perm unix_nlink
metadata_to_attr meta now = record {
  size = meta.len;
  blocks = (meta.len + 511) / 512;
  atime = BufferManager.or_now meta.accessed now;
  mtime = BufferManager.or_now meta.modified now;
  ctime = BufferManager.or_now meta.modified now;
  crtime = BufferManager.or_now meta.created now;
  kind = if meta.is_dir then directory else if meta.is_symlink then symlink_type else regular_file;
  perm = unix_perm meta;
  nlink = unix_nlink meta;
  uid = meta.uid;
  gid = meta.gid;
  rdev = 0;
  flags = 0;
}

-- The events for the user: kind, path and bytes.
pub data FileEvent : Type 0 where
  file_create file_delete file_change file_flush : FilePath → FileEvent
  file_written : FilePath → ℕ → FileEvent
  file_rename : FilePath → FilePath → FileEvent
  queue_drop : FileEvent

-- The pipeline's fields. `queue` and `capacity` are the channel of the `DirtySink`; a closed
-- channel has no receiver.
pub record Pipeline (F : FileSystem) : Type 0 where
  pub local_dir : FilePath
  pub cache : Cache F
  pub queue : List FsEvent
  pub capacity : ℕ
  pub closed : Bool
  pub events : List FileEvent

-- `OpenFileMutation`. Its `dirty_notified` is written and never read.
pub record OpenFile : Type 0 where
  pub path : FilePath
  pub full_path : FilePath
  pub buffer : BufferId
  pub dirty_notified : Bool

-- A fallible step over the pipeline, which may change it also when it fails.
abbrev pub M : FileSystem → Type 0 → Type 0
M F A = Pipeline F → Fallible F.IoError A × Pipeline F

module _ {F : FileSystem} where
  infixl 5 ◌>>=◌ ◌>>◌
  abbrev pub ◌>>=◌ : {A B : Type 0} → M F A → (A → M F B) → M F B
  ◌>>=◌ m f s = let (result, s') = m s in elim result [ err e ↦ (err e, s') | ok a ↦ f a s' ]

  abbrev pub ◌>>◌ : {B : Type 0} → M F (Unit {0}) → M F B → M F B
  m >> k = m >>= λ _. k

  abbrev pub pure : {A : Type 0} → A → M F A
  pure a s = (ok a, s)

  -- A call that reads the disk, one that writes it, and one of the buffer manager.
  abbrev pub ask : {A : Type 0} → (F.State → Fallible F.IoError A) → M F A
  ask f s = (f s.cache.disk, s)

  abbrev pub on_disk : {A : Type 0} → (F.State → Fallible F.IoError A × F.State) → M F A
  on_disk f s =
      let (result, disk) = f s.cache.disk in
      (result, record s { cache = record (s.cache) { disk = disk } })

  abbrev pub on_cache : {A : Type 0} → (Cache F → Fallible F.IoError A × Cache F) → M F A
  on_cache f s = let (result, cache) = f s.cache in (result, record s { cache = cache })

  abbrev pub change_cache : (Cache F → Cache F) → M F (Unit {0})
  change_cache f s = (ok tt, record s { cache = f s.cache })

  unfoldable pub full_path : FilePath → Pipeline F → FilePath
  full_path path s = join s.local_dir path

  abbrev pub emit : FileEvent → M F (Unit {0})
  emit event s = (ok tt, record s { events = s.events ++ (event ∷ []) })

  -- `DirtySink::send`: `try_send` refuses when the queue is full or has no receiver. Tells whether
  -- the event was sent.
  unfoldable pub send : FsEvent → Pipeline F → Bool × Pipeline F
  send event s =
      if s.closed || leb s.capacity (length s.queue)
      then (false, s)
      else (true, record s { queue = s.queue ++ (event ∷ []) })

  -- `send`, and the warning if the event was dropped.
  unfoldable pub send_or_warn : FsEvent → M F (Unit {0})
  send_or_warn event s =
      let (sent, s') = send event s in if sent then (ok tt, s') else emit queue_drop s'

  unfoldable pub queue_modified : FilePath → M F (Unit {0})
  queue_modified path = send_or_warn (file_modified path)

  unfoldable pub mark_modified : FilePath → M F (Unit {0})
  unfolding queue_modified
  mark_modified path = queue_modified path >> emit (file_change path)

  unfoldable pub mark_closed : FilePath → M F (Unit {0})
  mark_closed path = send_or_warn (file_closed path)

  unfoldable pub open_file : FilePath → ℕ → M F OpenFile
  open_file path now s =
      (do
        buffer ← on_cache (BufferManager.get_or_load (full_path path s) now)
        pure (record {
          path = path;
          full_path = full_path path s;
          buffer = buffer;
          dirty_notified = false;
        }))
        s

  -- `buffer_manager.cache` cannot fail.
  abbrev cached : BufferId × Cache F → Fallible F.IoError BufferId × Cache F
  cached (id, cache) = (ok id, cache)

  unfoldable pub create_file : FilePath → ℕ → ℕ → M F (OpenFile × FileAttr)
  create_file path mode now s =
      let full = full_path path s in
      (do
        on_disk (F.write full [])
        on_disk (F.set_permissions full mode)
        buffer ← on_cache (λ c. cached (BufferManager.cache_with_mtime full [] now c))
        mark_modified path
        emit (file_create path)
        meta ← ask (F.symlink_metadata full)
        pure (
          record { path = path; full_path = full; buffer = buffer; dirty_notified = true },
          metadata_to_attr meta now,
        ))
        s

  unfoldable pub unlink : FilePath → M F (Unit {0})
  unlink path s =
      let full = full_path path s in
      (do
        change_cache (BufferManager.remove full)
        on_disk (F.remove_file full)
        queue_modified path
        emit (file_delete path))
        s

  unfoldable pub rename : FilePath → FilePath → M F (Unit {0})
  rename from to s =
      let full_from = full_path from s in
      let full_to = full_path to s in
      (do
        on_disk (F.rename full_from full_to)
        change_cache (BufferManager.remove full_from)
        queue_modified from
        queue_modified to
        emit (file_rename from to))
        s

  unfoldable pub symlink : FilePath → FilePath → ℕ → M F FileAttr
  symlink target link now s =
      let full_link = full_path link s in
      (do
        on_disk (F.symlink target full_link)
        meta ← ask (F.symlink_metadata full_link)
        queue_modified link
        pure (metadata_to_attr meta now))
        s

  unfoldable pub read : OpenFile → ℕ → ℕ → Pipeline F → Option Bytes
  read f offset size s = Buffer.read (s.cache.heap f.buffer) offset size

  abbrev pub put_buffer : BufferId → FileBuffer → Pipeline F → Pipeline F
  put_buffer id b s = record s { cache = record (s.cache) { heap = update_at id b s.cache.heap } }

  -- `write`: the number of bytes as a `u32`; `none` if the buffer's write panics.
  unfoldable pub write : OpenFile → ℕ → Bytes → ℕ → Pipeline F → Option (ℕ × Pipeline F)
  write f offset bytes now s = elim (Buffer.write (s.cache.heap f.buffer) offset bytes now) [
    | none ↦ none
    | some (b, n) ↦ some (
      n % 2 ^ 32,
      ((mark_modified f.path >> emit (file_written f.path n)) (put_buffer f.buffer b s)).1,
    )
  ]

  unfoldable pub truncate : OpenFile → ℕ → ℕ → M F FileAttr
  truncate f size now s =
      (do
        on_disk (F.set_len f.full_path size)
        mark_modified f.path
        meta ← ask (F.symlink_metadata f.full_path)
        pure (metadata_to_attr meta now))
        (put_buffer f.buffer (Buffer.truncate (s.cache.heap f.buffer) size now) s)

  unfoldable pub flush : OpenFile → M F (Unit {0})
  flush f = do on_cache (BufferManager.flush f.full_path); emit (file_flush f.path)

  unfoldable pub close : OpenFile → M F (Unit {0})
  close f = do flush f; mark_closed f.path
