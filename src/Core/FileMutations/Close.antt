-- ===== src/Core/FileMutations/Close.antt =====
-- What is on disk after an open file is closed (crates/omnifuse-core/src/file_mutations.rs).
use omni_fuse.Prelude.{
  ℕ, ◌<◌, true, false, [], ◌∷◌, ◌++◌, none, some, ◌≡◌, refl, inl, inr, arith, list_eq, list_beq_iff,
  length, take, drop, Fallible, ok, Option-cases, Fallible-cases, take_all,
}
use omni_fuse.Prelude.Map.{lookup, lookup-erase}
use omni_fuse.FilePath.{FilePath, component_eq}
use omni_fuse.Core.FileSystem.{FileSystem, IsLawful}
use omni_fuse.Core.Buffer
use omni_fuse.Core.Buffer.{Bytes, FileBuffer}
use omni_fuse.Core.Buffer.Write.{write_stretch}
use omni_fuse.Core.BufferManager
use omni_fuse.Core.BufferManager.{Cache, BufferId, update_at}
use omni_fuse.Core.BufferManager.Flush.{flush_lem}
use omni_fuse.Core.SyncEngine.{FsEvent, file_modified, file_closed}
use omni_fuse.Unifuse.Types.{FileAttr}
use omni_fuse.Core.FileMutations.{
  file_flush, Pipeline, OpenFile, full_path, send, send_or_warn, queue_modified, mark_modified,
  mark_closed, rename, write, truncate, flush, close, put_buffer,
}

dirty-write :
    (b t : FileBuffer) (offset n : ℕ) (bytes : Bytes) (now : ℕ)
    → Buffer.write b offset bytes now ≡ some (t, n)
    → t.dirty ≡ true
unfolding Buffer.write
dirty-write b t offset n bytes now h = ground arith

truncated_same :
    (b : FileBuffer) (size now : ℕ)
    → length b.content < size
    → ((Buffer.truncate b size now).content ≡ b.content)
      × ((Buffer.truncate b size now).dirty ≡ true)
unfolding Buffer.truncate
truncated_same b size now h = (take_all b.content size (omega arith), refl)

module _ {F : FileSystem} where
  -- Notices touch neither the cache nor the outcome.
  record Quiet (s : Pipeline F) (r : Fallible F.IoError (Unit {0}) × Pipeline F) : Type 0 where
    succeeds : r.0 ≡ ok tt
    cache : r.1.cache ≡ s.cache

  send_or_warn-Quiet : (event : FsEvent) (s : Pipeline F) → Quiet s (send_or_warn event s)
  unfolding send_or_warn send
  send_or_warn-Quiet event s = ground arith

  mark_modified-Quiet : (path : FilePath) (s : Pipeline F) → Quiet s (mark_modified path s)
  unfolding mark_modified
  mark_modified-Quiet path s = ground (arith, send_or_warn-Quiet (file_modified path) s)

  -- A write changes one buffer of the cache, which is dirty then, and nothing else of the cache.
  cache-write :
      (f : OpenFile) (offset : ℕ) (bytes : Bytes) (now n : ℕ) (s t : Pipeline F)
      → write f offset bytes now s ≡ some (n, t)
      → (t.cache.buffers ≡ s.cache.buffers)
        × (t.cache.disk ≡ s.cache.disk)
        × ((t.cache.heap f.buffer).dirty ≡ true)
  unfolding write
  cache-write f offset bytes now n s t done =
      elim (Option-cases (Buffer.write (s.cache.heap f.buffer) offset bytes now)) [
        | inl fault ↦ ground arith
        | inr ((b, m), wrote) ↦ ground (
          arith,
          mark_modified-Quiet f.path (put_buffer f.buffer b s),
          dirty-write (s.cache.heap f.buffer) b offset m bytes now wrote,
        )
      ]

  -- Closing is flushing the buffer that is cached for the path.
  cache-close :
      (f : OpenFile) (s : Pipeline F)
      → ((close f s).0 ≡ (BufferManager.flush f.full_path s.cache).0)
        × ((close f s).1.cache ≡ (BufferManager.flush f.full_path s.cache).1)
  unfolding close flush mark_closed
  cache-close f s = elim (Fallible-cases (BufferManager.flush f.full_path s.cache).0) [
    | inl (e, failed) ↦ ground arith
    | inr (_, flushed) ↦ ground (
      arith,
      send_or_warn-Quiet (file_closed f.path) (record s {
        cache = (BufferManager.flush f.full_path s.cache).1;
        events = s.events ++ (file_flush f.path ∷ []);
      }),
    )
  ]

  cache-flush :
      (f : OpenFile) (s : Pipeline F)
      → ((flush f s).0 ≡ (BufferManager.flush f.full_path s.cache).0)
        × ((flush f s).1.cache ≡ (BufferManager.flush f.full_path s.cache).1)
  unfolding flush
  cache-flush f s = ground arith

  flush_absent :
      (path : FilePath) (c : Cache F)
      → lookup path c.buffers ≡ none
      → BufferManager.flush path c ≡ (ok tt, c)
  unfolding BufferManager.flush BufferManager.get
  flush_absent path c h = rw (h, BufferManager.flush)

  -- The bytes written are in the buffer of the open file.
  stretch-write :
      (f : OpenFile) (offset : ℕ) (bytes : Bytes) (now n : ℕ) (s t : Pipeline F)
      → write f offset bytes now s ≡ some (n, t)
      → take (length bytes) (drop offset (t.cache.heap f.buffer).content) ≡ bytes
  unfolding write
  stretch-write f offset bytes now n s t done =
      elim (Option-cases (Buffer.write (s.cache.heap f.buffer) offset bytes now)) [
        | inl fault ↦ absurd (ground arith)
        | inr ((b, m), wrote) ↦ ground (
          arith,
          mark_modified-Quiet f.path (put_buffer f.buffer b s),
          write_stretch (s.cache.heap f.buffer) b offset m bytes now wrote,
        )
      ]

  -- If the buffer of an open file is the one cached for its path, a write followed by a successful
  -- close puts the buffer's content on disk and leaves it clean. That content has the written bytes
  -- at the offset of the write.
  pub close-write :
      IsLawful F
      → (f : OpenFile) (offset : ℕ) (bytes : Bytes) (now n : ℕ) (s t : Pipeline F)
      → lookup f.full_path s.cache.buffers ≡ some f.buffer
      → write f offset bytes now s ≡ some (n, t)
      → (close f t).0 ≡ ok tt
      → (F.read f.full_path (close f t).1.cache.disk ≡ ok (t.cache.heap f.buffer).content)
        × (take (length bytes) (drop offset (t.cache.heap f.buffer).content) ≡ bytes)
        × (((close f t).1.cache.heap f.buffer).dirty ≡ false)
  close-write lawful f offset bytes now n s t cached wrote closed =
      let (same, _, dirty) = cache-write f offset bytes now n s t wrote in
      ground (
        arith,
        cache-close f t,
        flush_lem lawful f.full_path f.buffer t.cache (ground arith) dirty,
        stretch-write f offset bytes now n s t wrote,
      )

  -- If the cache has dropped the buffer of an open file, a write followed by a close reports
  -- success, though the disk is as before the write and the written buffer is still dirty.
  pub close-write_dropped :
      (f : OpenFile) (offset : ℕ) (bytes : Bytes) (now n : ℕ) (s t : Pipeline F)
      → lookup f.full_path s.cache.buffers ≡ none
      → write f offset bytes now s ≡ some (n, t)
      → ((close f t).0 ≡ ok tt)
        × ((close f t).1.cache.disk ≡ s.cache.disk)
        × (((close f t).1.cache.heap f.buffer).dirty ≡ true)
  close-write_dropped f offset bytes now n s t dropped wrote =
      let (same, disk, dirty) = cache-write f offset bytes now n s t wrote in
      ground (arith, cache-close f t, flush_absent f.full_path t.cache (ground arith))

  remove_lem :
      (path : FilePath) (c : Cache F)
      → let c' = BufferManager.remove path c in
        (lookup path c'.buffers ≡ none) × (c'.heap ≡ c.heap) × (c'.disk ≡ c.disk)
  unfolding BufferManager.remove
  remove_lem path c = ground (arith, lookup-erase path path c.buffers, list_beq_iff path path)

  -- A renamed file leaves the cache.
  cache-rename :
      (from to : FilePath) (s : Pipeline F)
      → (rename from to s).0 ≡ ok tt
      → let t = (rename from to s).1 in
        (lookup (full_path from s) t.cache.buffers ≡ none)
        × (t.cache.heap ≡ s.cache.heap)
        × (t.cache.disk ≡ (F.rename (full_path from s) (full_path to s) s.cache.disk).1)
  unfolding rename queue_modified
  cache-rename from to s done =
      elim (Fallible-cases (F.rename (full_path from s) (full_path to s) s.cache.disk).0) [
        | inl (e, failed) ↦ ground arith
        | inr (_, renamed) ↦
            let moved : Cache F = record (s.cache) {
              disk = (F.rename (full_path from s) (full_path to s) s.cache.disk).1;
            } in
            let s1 : Pipeline F = record s {
              cache = BufferManager.remove (full_path from s) moved;
            } in
            ground (
              arith,
              remove_lem (full_path from s) moved,
              send_or_warn-Quiet (file_modified from) s1,
              send_or_warn-Quiet (file_modified to) (send_or_warn (file_modified from) s1).1,
            )
      ]

  -- Renaming an open file drops its unsaved buffer: a later close reports success, writes nothing
  -- to disk, and leaves the buffer as dirty as it was.
  pub close-rename :
      (f : OpenFile) (from to : FilePath) (s : Pipeline F)
      → f.full_path ≡ full_path from s
      → (rename from to s).0 ≡ ok tt
      → let t = (rename from to s).1 in
        ((close f t).0 ≡ ok tt)
        × ((close f t).1.cache.disk ≡ (F.rename (full_path from s) (full_path to s) s.cache.disk).1)
        × (((close f t).1.cache.heap f.buffer).dirty ≡ (s.cache.heap f.buffer).dirty)
  close-rename f from to s at done =
      let t = (rename from to s).1 in
      let (gone, heap, disk) = cache-rename from to s done in
      ground (arith, cache-close f t, flush_absent f.full_path t.cache (ground arith))

  cache-truncate :
      (f : OpenFile) (size now : ℕ) (s : Pipeline F) {attr : FileAttr}
      → (truncate f size now s).0 ≡ ok attr
      → let t = (truncate f size now s).1 in
        (t.cache.buffers ≡ s.cache.buffers)
        × (t.cache.heap f.buffer ≡ Buffer.truncate (s.cache.heap f.buffer) size now)
  unfolding truncate
  cache-truncate f size now s done =
      let b = Buffer.truncate (s.cache.heap f.buffer) size now in
      let s0 = put_buffer f.buffer b s in
      elim (Fallible-cases (F.set_len f.full_path size s.cache.disk).0) [
        | inl (e, failed) ↦ ground arith
        | inr (_, set) ↦
            let s1 : Pipeline F = record s0 {
              cache = record (s0.cache) { disk = (F.set_len f.full_path size s.cache.disk).1 };
            } in
            ground (arith, mark_modified-Quiet f.path s1)
      ]

  -- A truncation that extends an open file is undone by the flush that follows: on disk is the
  -- content from before the truncation, which is shorter than the size asked for.
  pub flush-truncate :
      IsLawful F
      → (f : OpenFile) (size now : ℕ) (s : Pipeline F) {attr : FileAttr}
      → lookup f.full_path s.cache.buffers ≡ some f.buffer
      → length (s.cache.heap f.buffer).content < size
      → (truncate f size now s).0 ≡ ok attr
      → (flush f (truncate f size now s).1).0 ≡ ok tt
      → F.read f.full_path (flush f (truncate f size now s).1).1.cache.disk
        ≡ ok (s.cache.heap f.buffer).content
  flush-truncate lawful f size now s cached grows done flushed =
      let t = (truncate f size now s).1 in
      let (same, held) = cache-truncate f size now s done in
      ground (
        arith,
        cache-flush f t,
        truncated_same (s.cache.heap f.buffer) size now grows,
        flush_lem lawful f.full_path f.buffer t.cache (ground arith),
      )
