-- ===== src/Tests/Buffers.antt =====
-- Buffers and the buffer cache at concrete data.
use omni_fuse.Prelude.{
  ℕ, ◌+◌, ◌≤◌, ◌<◌, ◌^◌, Bool, true, false, List, [], ◌∷◌, Option, none, some, ◌≡◌, refl, arith,
  Fallible, ok, err, length, list_beq_iff, list_eq, inl, inr, ◌⊎◌, is_ok, not, ◌↔◌, if◌then◌else◌,
  get_elem?, ◌||◌, leb, saturating_add, isize_max,
}
use omni_fuse.Prelude.Map.{Map, lookup, insert, erase}
use omni_fuse.FilePath.{FilePath, component_eq}
use omni_fuse.Core.Buffer.{FileBuffer, write, read, resize, grow, copy_into}
use omni_fuse.Core.Buffer.Write.{write_bytes, read-write}
use omni_fuse.Core.Buffer.Size.{write_at, apply}
use omni_fuse.Core.BufferManager.{
  Cache, Eviction, evict_loop, evict_fuel, eviction_of, is_stale, disk_mtime, BufferConfig,
  max_memory_bytes, maybe_evict, cache_with_mtime, get_or_load, flush, flush_all, clear,
}
use omni_fuse.Core.BufferManager
use omni_fuse.Core.BufferManager.Evict.{maybe_evict_room, maybe_evict_dirty}
use omni_fuse.Core.BufferManager.Evict.Rounds.{all_dirty}
use omni_fuse.Core.BufferManager.Flush.{flush_lem}
use omni_fuse.Tests.Disk.{memory_files, memory_files-IsLawful, a_full}

abbrev old : FileBuffer
old = record { path = a_full; content = 1 ∷ 2 ∷ 3 ∷ []; dirty = false; mtime = 0; size = 3 }

abbrev edited : FileBuffer
edited = record { path = a_full; content = 1 ∷ 7 ∷ 3 ∷ []; dirty = true; mtime = 5; size = 3 }

edit_old : write old 1 (7 ∷ []) 5 ≡ some (edited, 1)
unfolding write resize grow copy_into omni_fuse.Prelude.wrapping_add
edit_old = refl

read-write_example : read edited 1 1 ≡ some (7 ∷ [])
read-write_example =
    read-write old edited 1 (7 ∷ []) 5 1 (ground arith) (ground arith) (ground arith) edit_old

edit_applied : apply (write_at 1 (7 ∷ [])) 5 old ≡ some edited
unfolding apply write resize grow copy_into omni_fuse.Prelude.wrapping_add
edit_applied = refl

write_bytes_example :
    (t : FileBuffer) × (write old 4 (7 ∷ []) 5 ≡ some (t, 1))
    × (t.dirty ≡ true)
    × (t.size ≡ length t.content)
    × (get_elem? t.content 3 ≡ some 0)
write_bytes_example = write_bytes old 4 (7 ∷ []) 5 (ground arith) 3

abbrev config : BufferConfig
config = record { max_memory_mb = 1; lru_eviction_enabled = true }

abbrev unlimited : BufferConfig
unlimited = record { max_memory_mb = 1; lru_eviction_enabled = false }

-- `a` is cached, dirty and older on disk.
abbrev cache : BufferConfig → FileBuffer → Cache memory_files
cache settings b = record {
  buffers = (a_full, 0) ∷ [];
  lru_order = a_full ∷ [];
  memory_usage = 3;
  config = settings;
  heap = λ _. b;
  next_id = 1;
  disk = (a_full, 1 ∷ 2 ∷ 3 ∷ []) ∷ [];
}

maybe_evict_room_example :
    ((e : Eviction) × (evict_loop
          (cache config edited).heap
          (max_memory_bytes config)
          1048576
          (length (cache config edited).lru_order)
          (evict_fuel (cache config edited))
          (eviction_of (cache config edited))
        ≡ some e))
    × (((leb
            (saturating_add (maybe_evict 1048576 (cache config edited)).memory_usage 1048576)
            (max_memory_bytes config)
          || all_dirty
              (cache config edited).heap
              (maybe_evict 1048576 (cache config edited)).buffers
              (maybe_evict 1048576 (cache config edited)).lru_order)
        ≡ true))
maybe_evict_room_example = maybe_evict_room 1048576 (cache config edited)

maybe_evict_dirty_example :
    (lookup a_full (maybe_evict 1048576 (cache config edited)).buffers ≡ some 0)
    × ((maybe_evict 1048576 (cache config edited)).heap ≡ (cache config edited).heap)
unfolding lookup omni_fuse.Prelude.list_beq omni_fuse.FilePath.component_beq
maybe_evict_dirty_example = maybe_evict_dirty 1048576 (cache config edited) a_full refl

flush_lem_example :
    (((flush a_full (cache config edited)).1.heap 0).dirty
      ≡ not (is_ok (flush a_full (cache config edited)).0))
    × (((flush a_full (cache config edited)).1.heap 0).content ≡ 1 ∷ 7 ∷ 3 ∷ [])
    × ((is_ok (flush a_full (cache config edited)).0 ≡ false)
        ⊎ (memory_files.read a_full (flush a_full (cache config edited)).1.disk
            ≡ ok ((flush a_full (cache config edited)).1.heap 0).content))
unfolding lookup omni_fuse.Prelude.list_beq omni_fuse.FilePath.component_beq
flush_lem_example = flush_lem memory_files-IsLawful a_full 0 (cache config edited) refl refl

flush_all-ok : (flush_all (cache config edited)).0 ≡ ok tt
unfolding flush_all omni_fuse.Prelude.Map.values BufferManager.flush_buffer
flush_all-ok = refl

flush_all-keeps : lookup a_full (flush_all (cache config edited)).1.buffers ≡ some 0
unfolding flush_all lookup omni_fuse.Prelude.Map.values BufferManager.flush_buffer
    omni_fuse.Prelude.list_beq omni_fuse.FilePath.component_beq
flush_all-keeps = refl

get_or_load_hit : (get_or_load a_full 9 (cache config old)).0 ≡ ok 0
unfolding get_or_load BufferManager.get lookup omni_fuse.Prelude.list_beq
    omni_fuse.FilePath.component_beq
get_or_load_hit = refl
