-- ===== src/Core/BufferManager/Load.antt =====
-- Loading files into the cache, and the count of its memory (crates/omnifuse-core/src/buffer.rs).
use omni_fuse.Prelude.{
  ℕ, ◌+◌, ◌^◌, ◌<◌, true, false, ◌||◌, not, [], ◌∷◌, Option, none, some, ◌≡◌, refl, ◌⊎◌, inl, inr,
  arith, list_eq, nat_eq, list_beq_iff, if◌then◌else◌, length, wrapping_add, Fallible, ok,
  Fallible-cases,
}
use omni_fuse.Prelude.Map.{Map, lookup, insert, lookup-insert}
use omni_fuse.FilePath.{FilePath, component_eq}
use omni_fuse.Core.FileSystem.{FileSystem}
use omni_fuse.Core.Buffer
use omni_fuse.Core.Buffer.{Bytes, FileBuffer}
use omni_fuse.Core.BufferManager.{
  BufferId, Heap, update_at, Cache, get, maybe_evict, insert_buffer, cache_with_mtime, touch,
  remove, load_from_disk, disk_mtime, is_stale, or_now, get_or_load,
}

-- The bytes that the cached buffers report.
abbrev pub resident_bytes : Heap → Map FilePath BufferId → ℕ
resident_bytes heap [] = 0
resident_bytes heap ((path, id) ∷ m) = (heap id).size + resident_bytes heap m

-- Every cached buffer has an index below the next one.
abbrev pub AllBelow : BufferId → Map FilePath BufferId → Type 0
AllBelow n [] = Unit
AllBelow n ((path, id) ∷ m) = (id < n) × AllBelow n m

-- The size of a buffer that an insertion replaces.
abbrev pub replaced_size : Heap → Option BufferId → ℕ
replaced_size heap none = 0
replaced_size heap (some id) = (heap id).size

resident-update :
    (heap : Heap) (n : BufferId) (b : FileBuffer) (m : Map FilePath BufferId)
    → AllBelow n m
    → resident_bytes (update_at n b heap) m ≡ resident_bytes heap m
resident-update heap n b [] h = refl
resident-update heap n b ((path, id) ∷ m) h = ground (arith, resident-update heap n b m h.1)

resident-insert :
    (heap : Heap) (path : FilePath) (n : BufferId) (b : FileBuffer) (m : Map FilePath BufferId)
    → AllBelow n m
    → resident_bytes (update_at n b heap) (insert path n m) + replaced_size heap (lookup path m)
      ≡ resident_bytes heap m + b.size
unfolding insert lookup
resident-insert heap path n b [] h = ground arith
resident-insert heap path n b ((q, id) ∷ m) h =
    ground (arith, resident-insert heap path n b m h.1, resident-update heap n b m h.1)

module _ {F : FileSystem} where
  -- With the eviction switched off, a count that was right and no overflow, caching a file counts
  -- its bytes on top of what was counted: the count stays that of the cached
  -- buffers if the path is new, and exceeds it by the old buffer's bytes if the path was cached.
  pub memory-cache_with_mtime :
      (path : FilePath) (content : Bytes) (mtime : ℕ) (s : Cache F)
      → s.config.lru_eviction_enabled ≡ false
      → AllBelow s.next_id s.buffers
      → s.memory_usage ≡ resident_bytes s.heap s.buffers
      → s.memory_usage + length content < 2 ^ 64
      → let t = (cache_with_mtime path content mtime s).1 in
        t.memory_usage
        ≡ resident_bytes t.heap t.buffers + replaced_size s.heap (lookup path s.buffers)
  unfolding cache_with_mtime insert_buffer wrapping_add Buffer.with_mtime
  memory-cache_with_mtime path content mtime s off below counted small = rw off (
      ground (
        arith,
        resident-insert s.heap path s.next_id (Buffer.with_mtime path content mtime) s.buffers
            below,
      ))

  disk-remove : (path : FilePath) (s : Cache F) → (remove path s).disk ≡ s.disk
  unfolding remove
  disk-remove path s = ground arith

  inserted :
      (path : FilePath) (content : Bytes) (mtime : ℕ) (s : Cache F)
      → let (id, t) = insert_buffer path content mtime s in
        (lookup path t.buffers ≡ some id)
        × ((t.heap id).content ≡ content)
        × ((t.heap id).dirty ≡ false)
  unfolding insert_buffer Buffer.with_mtime
  inserted path content mtime s =
      ground (arith, lookup-insert path path s.next_id s.buffers, list_beq_iff path path)

  abbrev Loaded : FilePath → F.State → Fallible F.IoError BufferId × Cache F → BufferId → Type 0
  Loaded path disk (r, t) id =
      (lookup path t.buffers ≡ some id)
      × (F.read path disk ≡ ok (t.heap id).content)
      × ((t.heap id).dirty ≡ false)

  loaded :
      (path : FilePath) (mtime : ℕ) (s : Cache F) (id : BufferId)
      → (load_from_disk path mtime s).0 ≡ ok id
      → Loaded path s.disk (load_from_disk path mtime s) id
  unfolding load_from_disk cache_with_mtime
  loaded path mtime s id done = elim (Fallible-cases (F.read path s.disk)) [
    | inl (e, fault) ↦ ground arith
    | inr (content, found) ↦
        let e = if s.config.lru_eviction_enabled then maybe_evict (length content) s else s in
        ground (arith, inserted path content mtime e)
  ]

  -- The miss: the file is looked up and read.
  get_or_load_miss :
      (path : FilePath) (now : ℕ) (s : Cache F) (id : BufferId)
      → lookup path s.buffers ≡ none
      → (get_or_load path now s).0 ≡ ok id
      → Loaded path s.disk (get_or_load path now s) id
  unfolding get_or_load get
  get_or_load_miss path now s id miss done = elim (Fallible-cases (F.metadata path s.disk)) [
    | inl (e, fault) ↦ ground arith
    | inr (meta, found) ↦ ground (arith, loaded path (or_now meta.modified now) s id)
  ]

  -- What `get_or_load` returns is the buffer that is cached for the path. Either it was cached
  -- before and is dirty or not older than the file on disk, and no buffer has changed; or it is a
  -- clean buffer that holds the file's content on disk.
  pub get_or_load_lem :
      (path : FilePath) (now : ℕ) (s : Cache F) (id : BufferId)
      → (get_or_load path now s).0 ≡ ok id
      → let t = (get_or_load path now s).1 in
        (lookup path t.buffers ≡ some id)
        × (((lookup path s.buffers ≡ some id)
              × (t.heap ≡ s.heap)
              × (((s.heap id).dirty || not (is_stale (disk_mtime path s) (s.heap id).mtime))
                  ≡ true))
            ⊎ ((F.read path s.disk ≡ ok (t.heap id).content) × ((t.heap id).dirty ≡ false)))
  unfolding get_or_load get touch
  get_or_load_lem path now s id done = ground (
    arith,
    loaded path (or_now (disk_mtime path s) now) (remove path s) id,
    disk-remove path s,
    loaded path now s id,
    get_or_load_miss path now s id,
  )
