-- ===== src/Core/BufferManager/Flush.antt =====
-- What a flush leaves in the cache and on disk (crates/omnifuse-core/src/buffer.rs).
use omni_fuse.Prelude.{
  true, false, ◌&&◌, not, List, [], ◌∷◌, some, ◌≡◌, refl, ◌⊎◌, arith, list_eq, nat_eq, contains,
  if◌then◌else◌, eqb, Fallible, ok, is_ok,
}
use omni_fuse.Prelude.Map.{Map, lookup, values}
use omni_fuse.FilePath.{FilePath, component_eq}
use omni_fuse.Core.FileSystem.{FileSystem, IsLawful}
use omni_fuse.Core.Buffer
use omni_fuse.Core.Buffer.{Bytes, FileBuffer}
use omni_fuse.Core.BufferManager.{
  BufferId, Heap, Cache, get, flush_buffer, flush, dirty_ids, dirty_buffers, flush_each, flush_all,
  clear,
}

module _ {F : FileSystem} where
  -- A buffer is dirty after a write to disk exactly if it was dirty and the write failed.
  flush_buffer-dirty :
      (path : FilePath) (id j : BufferId) (s : Cache F)
      → ((flush_buffer path id s).1.heap j).dirty
        ≡ ((s.heap j).dirty && not (eqb j id && is_ok (flush_buffer path id s).0))
  unfolding flush_buffer Buffer.mark_clean Buffer.sync_mtime
  flush_buffer-dirty path id j s = ground arith

  flush_buffer-content :
      (path : FilePath) (id j : BufferId) (s : Cache F)
      → ((flush_buffer path id s).1.heap j).content ≡ (s.heap j).content
  unfolding flush_buffer Buffer.mark_clean Buffer.sync_mtime
  flush_buffer-content path id j s = ground arith

  flush_buffer-buffers :
      (path : FilePath) (id : BufferId) (s : Cache F)
      → (flush_buffer path id s).1.buffers ≡ s.buffers
  unfolding flush_buffer
  flush_buffer-buffers path id s = ground arith

  flush_buffer-disk :
      IsLawful F
      → (path : FilePath) (id : BufferId) (s : Cache F) → (flush_buffer path id s).0 ≡ ok tt
      → F.read path (flush_buffer path id s).1.disk ≡ ok (s.heap id).content
  unfolding flush_buffer
  flush_buffer-disk lawful path id s done =
      ground (arith, lawful.read-write path (s.heap id).content s.disk)

  -- What a write of buffer `id` to `path` leaves behind.
  abbrev Flushed : FilePath → BufferId → Cache F → Fallible F.IoError (Unit {0}) × Cache F → Type 0
  Flushed path id s (r, t) =
      ((t.heap id).dirty ≡ not (is_ok r))
      × ((t.heap id).content ≡ (s.heap id).content)
      × ((is_ok r ≡ false) ⊎ (F.read path t.disk ≡ ok (t.heap id).content))

  flush_buffer-Flushed :
      IsLawful F
      → (path : FilePath) (id : BufferId) (s : Cache F) → (s.heap id).dirty ≡ true
      → Flushed path id s (flush_buffer path id s)
  flush_buffer-Flushed lawful path id s dirty = (
    ground (arith, flush_buffer-dirty path id id s),
    flush_buffer-content path id id s,
    ground (arith, flush_buffer-disk lawful path id s, flush_buffer-content path id id s),
  )

  -- A successful flush of a dirty file leaves its buffer clean, with the same content, and that
  -- content on disk. After a failed one the buffer is still dirty, with the same content.
  pub flush_lem :
      IsLawful F
      → (path : FilePath) (id : BufferId) (s : Cache F) → lookup path s.buffers ≡ some id
      → (s.heap id).dirty ≡ true
      → let t = (flush path s).1 in
        ((t.heap id).dirty ≡ not (is_ok (flush path s).0))
        × ((t.heap id).content ≡ (s.heap id).content)
        × ((is_ok (flush path s).0 ≡ false) ⊎ (F.read path t.disk ≡ ok (t.heap id).content))
  flush_lem lawful path id s cached dirty =
      let e : flush path s ≡ flush_buffer path id s =
        unfold flush get in rw (cached, flush, dirty) in
      rw e (flush_buffer-Flushed lawful path id s dirty)

  -- The loop of `flush_all`, if it ends well, cleans what it goes through, and nothing else.
  flush_each-dirty :
      (ids : List BufferId) (j : BufferId) (s : Cache F)
      → (flush_each ids s).0 ≡ ok tt
      → ((flush_each ids s).1.heap j).dirty ≡ ((s.heap j).dirty && not (contains ids j))
  unfolding flush_each contains
  flush_each-dirty [] j s done = ground arith
  flush_each-dirty (id ∷ ids) j s done = ground (
    arith,
    flush_buffer-dirty (s.heap id).path id j s,
    flush_each-dirty ids j (flush_buffer (s.heap id).path id s).1,
  )

  flush_each-buffers :
      (ids : List BufferId) (s : Cache F) → (flush_each ids s).1.buffers ≡ s.buffers
  unfolding flush_each
  flush_each-buffers [] s = refl
  flush_each-buffers (id ∷ ids) s = ground (
    arith,
    flush_buffer-buffers (s.heap id).path id s,
    flush_each-buffers ids (flush_buffer (s.heap id).path id s).1,
  )

contains-dirty_ids :
    (heap : Heap) (ids : List BufferId) (j : BufferId)
    → contains (dirty_ids heap ids) j ≡ (contains ids j && (heap j).dirty)
unfolding dirty_ids contains
contains-dirty_ids heap [] j = refl
contains-dirty_ids heap (id ∷ ids) j = ground (arith, contains-dirty_ids heap ids j)

contains-values :
    (m : Map FilePath BufferId) (p : FilePath) (id : BufferId)
    → lookup p m ≡ some id
    → contains (values m) id ≡ true
unfolding contains lookup values
contains-values [] p id h = cc
contains-values ((q, j) ∷ m) p id h = ground (arith, contains-values m p id)

module _ {F : FileSystem} where
  -- After a successful `flush_all` no cached buffer is dirty.
  pub flush_all_clean :
      (s : Cache F) (p : FilePath) (id : BufferId)
      → (flush_all s).0 ≡ ok tt
      → lookup p (flush_all s).1.buffers ≡ some id
      → ((flush_all s).1.heap id).dirty ≡ false
  unfolding flush_all dirty_buffers
  flush_all_clean s p id done cached =
      let ids = dirty_ids s.heap (values s.buffers) in
      ground (
        arith,
        flush_each-dirty ids id s,
        flush_each-buffers ids s,
        contains-dirty_ids s.heap (values s.buffers) id,
        contains-values s.buffers p id,
      )

  -- `clear` empties the cache exactly if every dirty buffer could be written; otherwise it drops no
  -- buffer.
  pub buffers-clear :
      (s : Cache F) → (clear s).1.buffers ≡ (if is_ok (flush_all s).0 then [] else s.buffers)
  unfolding clear flush_all
  buffers-clear s = ground (arith, flush_each-buffers (dirty_buffers s) s)
