-- ===== src/Core/BufferManager.antt =====
-- The cache of file buffers with LRU eviction (crates/omnifuse-core/src/buffer.rs,
-- `FileBufferManager`). An `Arc<FileBuffer>` is its index into a heap of buffers, so that an open
-- file and the cache can share a buffer, and an open file can hold one that the cache has dropped.
-- Each method runs without interleaving. The clock's answer is an argument.
pub mod Evict
pub mod Flush
pub mod Load
use omni_fuse.Prelude.{
  ℕ, zero, suc, ◌+◌, ◌-◌, ◌*◌, ◌%◌, u64_mod, Bool, false, List, [], ◌∷◌, ◌++◌, Option, none, some,
  Eq, ◌==◌, list_eq, nat_eq, if◌then◌else◌, leb, ltb, length, wrapping_add, saturating_add,
  Fallible, ok, err, eqb,
}
use omni_fuse.Prelude.Map.{Map, lookup, insert, erase, values}
use omni_fuse.FilePath.{FilePath, component_eq}
use omni_fuse.Core.FileSystem.{FileSystem}
use omni_fuse.Core.Buffer
use omni_fuse.Core.Buffer.{Bytes, FileBuffer}

pub record BufferConfig : Type 0 where
  pub max_memory_mb : ℕ
  pub lru_eviction_enabled : Bool

-- The product of two words of 64 bits wraps around.
unfoldable pub max_memory_bytes : BufferConfig → ℕ
max_memory_bytes config = config.max_memory_mb * 1024 * 1024 % u64_mod

abbrev pub BufferId : Type 0
BufferId = ℕ

abbrev pub Heap : Type 0
Heap = BufferId → FileBuffer

abbrev pub update_at : BufferId → FileBuffer → Heap → Heap
update_at id b heap j = if eqb j id then b else heap j

-- The manager's fields, the heap of buffers, and the disk.
pub record Cache (F : FileSystem) : Type 0 where
  pub buffers : Map FilePath BufferId
  pub lru_order : List FilePath
  pub memory_usage : ℕ
  pub config : BufferConfig
  pub heap : Heap
  pub next_id : BufferId
  pub disk : F.State

-- `lru.iter().position(|p| p == path)` and `lru.remove(pos)`
unfoldable pub remove_first : FilePath → List FilePath → List FilePath
remove_first path [] = []
remove_first path (p ∷ lru) =
    let rest = remove_first path lru in if p == path then lru else p ∷ rest

-- The locals of the loop of `maybe_evict`.
pub record Eviction : Type 0 where
  pub lru : List FilePath
  pub resident : Map FilePath BufferId
  pub usage : ℕ
  pub attempts : ℕ

-- How one round of the loop ends: by leaving the loop, or by going on.
pub data Turn : Type 0 where
  stop : Eviction → Turn
  continue : Eviction → Turn

module _ (heap : Heap) (max_memory additional max_attempts : ℕ) where
  abbrev pub fits : Eviction → Bool
  fits e = leb (saturating_add e.usage additional) max_memory

  -- A dirty buffer goes to the back of the queue; after `max_attempts` of them the loop gives up.
  unfoldable pub requeue : FilePath → List FilePath → Eviction → Turn
  requeue oldest rest e =
      let e' : Eviction = record e { lru = rest ++ (oldest ∷ []); attempts = e.attempts + 1 } in
      if leb max_attempts (e.attempts + 1) then stop e' else continue e'

  unfoldable pub evict_oldest : FilePath → List FilePath → Eviction → Turn
  unfolding requeue
  evict_oldest oldest rest e = elim (lookup oldest e.resident) [
    | none ↦ continue (record e { lru = rest })
    | some id ↦
        if (heap id).dirty
        then requeue oldest rest e
        else continue (record e {
          lru = rest;
          resident = erase oldest e.resident;
          usage = e.usage - (heap id).size;
        })
  ]

  evict_next : List FilePath → Eviction → Turn
  unfolding evict_oldest
  evict_next [] e = stop e
  evict_next (oldest ∷ rest) e = evict_oldest oldest rest e

  -- One round of the loop: its test, and its body.
  unfoldable pub evict_turn : Eviction → Turn
  unfolding evict_next
  evict_turn e = if fits e then stop e else evict_next e.lru e

  -- The loop; `none` is out of fuel.
  unfoldable pub evict_loop : ℕ → Eviction → Option Eviction
  evict_loop zero e = none
  evict_loop (suc fuel) e = elim (evict_turn e) [
    | stop e' ↦ some e'
    | continue e' ↦ evict_loop fuel e'
  ]

abbrev pub is_stale : Option ℕ → ℕ → Bool
is_stale none cached_mtime = false
is_stale (some disk_mtime') cached_mtime = ltb cached_mtime disk_mtime'

abbrev pub or_now : Option ℕ → ℕ → ℕ
or_now none now = now
or_now (some mtime) now = mtime

-- After a successful write of the buffer: `mark_clean`, and `sync_mtime` if the disk has a time.
abbrev pub settle : Option ℕ → FileBuffer → FileBuffer
settle none b = Buffer.mark_clean b
settle (some mtime) b = Buffer.sync_mtime (Buffer.mark_clean b) mtime

dirty_ids : Heap → List BufferId → List BufferId
dirty_ids heap [] = []
dirty_ids heap (id ∷ ids) =
    let rest = dirty_ids heap ids in if (heap id).dirty then id ∷ rest else rest

module _ {F : FileSystem} where
  unfoldable pub get : FilePath → Cache F → Option BufferId
  get path s = lookup path s.buffers

  abbrev pub evict_fuel : Cache F → ℕ
  evict_fuel s = suc (length s.lru_order + length s.lru_order)

  abbrev pub eviction_of : Cache F → Eviction
  eviction_of s = record {
    lru = s.lru_order;
    resident = s.buffers;
    usage = s.memory_usage;
    attempts = 0;
  }

  -- Runs only if the new bytes do not fit.
  unfoldable pub maybe_evict : ℕ → Cache F → Cache F
  unfolding evict_loop
  maybe_evict additional s =
      let max_memory = max_memory_bytes s.config in
      let max_attempts = length s.lru_order in
      if fits s.heap max_memory additional max_attempts (eviction_of s)
      then s
      else elim (evict_loop s.heap max_memory additional max_attempts (evict_fuel s)
          (eviction_of s)) [
            | none ↦ s
            | some e ↦ record s { lru_order = e.lru; buffers = e.resident; memory_usage = e.usage }
          ]

  -- The part of `cache_with_mtime` after the eviction.
  unfoldable pub insert_buffer : FilePath → Bytes → ℕ → Cache F → BufferId × Cache F
  insert_buffer path content mtime s =
      let id = s.next_id in
      (
        id,
        record s {
          buffers = insert path id s.buffers;
          lru_order = s.lru_order ++ (path ∷ []);
          memory_usage = wrapping_add s.memory_usage (length content);
          heap = update_at id (Buffer.with_mtime path content mtime) s.heap;
          next_id = id + 1;
        },
      )

  unfoldable pub cache_with_mtime : FilePath → Bytes → ℕ → Cache F → BufferId × Cache F
  cache_with_mtime path content mtime s =
      let evicted = if s.config.lru_eviction_enabled then maybe_evict (length content) s else s in
      insert_buffer path content mtime evicted

  unfoldable pub touch : FilePath → Cache F → Cache F
  touch path s = record s { lru_order = remove_first path s.lru_order ++ (path ∷ []) }

  unfoldable pub remove : FilePath → Cache F → Cache F
  remove path s = elim (lookup path s.buffers) [
    | none ↦ s
    | some id ↦ record s {
      buffers = erase path s.buffers;
      memory_usage = s.memory_usage - (s.heap id).size;
      lru_order = remove_first path s.lru_order;
    }
  ]

  -- Reads the file and caches it.
  unfoldable pub load_from_disk : FilePath → ℕ → Cache F → Fallible F.IoError BufferId × Cache F
  load_from_disk path mtime s = elim (F.read path s.disk) [
    | err e ↦ (err e, s)
    | ok content ↦ let (id, s') = cache_with_mtime path content mtime s in (ok id, s')
  ]

  -- The time of the last change on disk, if `metadata` and `modified` answer.
  abbrev pub disk_mtime : FilePath → Cache F → Option ℕ
  disk_mtime path s = elim (F.metadata path s.disk) [ err e ↦ none | ok meta ↦ meta.modified ]

  unfoldable pub get_or_load : FilePath → ℕ → Cache F → Fallible F.IoError BufferId × Cache F
  unfolding load_from_disk
  get_or_load path now s = elim (get path s) [
    | some id ↦
        if (s.heap id).dirty
        then (ok id, touch path s)
        else if is_stale (disk_mtime path s) (s.heap id).mtime
        then load_from_disk path (or_now (disk_mtime path s) now) (remove path s)
        else (ok id, touch path s)
    | none ↦ elim (F.metadata path s.disk) [
      | err e ↦ (err e, s)
      | ok meta ↦ load_from_disk path (or_now meta.modified now) s
    ]
  ]

  -- Writes one dirty buffer to a path.
  unfoldable pub flush_buffer :
      FilePath → BufferId → Cache F → Fallible F.IoError (Unit {0}) × Cache F
  flush_buffer path id s =
      let (result, disk) = F.write path (s.heap id).content s.disk in
      let written = record s { disk = disk } in
      elim result [
        | err e ↦ (err e, written)
        | ok _ ↦ (
          ok tt,
          record written {
            heap = update_at id (settle (disk_mtime path written) (s.heap id)) s.heap;
          },
        )
      ]

  unfoldable pub flush : FilePath → Cache F → Fallible F.IoError (Unit {0}) × Cache F
  unfolding flush_buffer
  flush path s = elim (get path s) [
    | none ↦ (ok tt, s)
    | some id ↦ if (s.heap id).dirty then flush_buffer path id s else (ok tt, s)
  ]

  unfoldable pub dirty_buffers : Cache F → List BufferId
  unfolding dirty_ids
  dirty_buffers s = dirty_ids s.heap (values s.buffers)

  -- The loop of `flush_all`; `?` leaves it at the first error.
  unfoldable pub flush_each : List BufferId → Cache F → Fallible F.IoError (Unit {0}) × Cache F
  flush_each [] s = (ok tt, s)
  flush_each (id ∷ ids) s =
      let (result, s') = flush_buffer (s.heap id).path id s in
      elim result [ err e ↦ (err e, s') | ok _ ↦ flush_each ids s' ]

  unfoldable pub flush_all : Cache F → Fallible F.IoError (Unit {0}) × Cache F
  unfolding flush_each dirty_buffers
  flush_all s = flush_each (dirty_buffers s) s

  unfoldable pub clear : Cache F → Fallible F.IoError (Unit {0}) × Cache F
  unfolding flush_all
  clear s =
      let (result, s') = flush_all s in
      elim result [
        | err e ↦ (err e, s')
        | ok _ ↦ (ok tt, record s' { buffers = []; memory_usage = 0; lru_order = [] })
      ]

-- `FileBufferManager::new`
unfoldable pub new : {F : FileSystem} → BufferConfig → F.State → Cache F
new config disk = record {
  buffers = [];
  lru_order = [];
  memory_usage = 0;
  config = config;
  heap = λ _. Buffer.with_mtime [] [] 0;
  next_id = 0;
  disk = disk;
}
