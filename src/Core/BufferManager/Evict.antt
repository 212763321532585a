-- ===== src/Core/BufferManager/Evict.antt =====
-- The eviction as a whole (crates/omnifuse-core/src/buffer.rs, `maybe_evict`).
pub mod Rounds
use omni_fuse.Prelude.{
  ℕ, zero, suc, ◌+◌, ◌-◌, ◌≤◌, ◌<◌, Bool, true, false, ◌&&◌, ◌||◌, List, [], ◌∷◌, ◌++◌, Option,
  none, some, ◌≡◌, refl, sym, ◌⊎◌, inl, inr, arith, list_eq, nat_eq, list_beq_iff, leb, length,
  length-append, saturating_add, Bool-cases, Option-cases,
}
use omni_fuse.Prelude.Map.{Map, lookup, erase, lookup-erase}
use mathlib.Core.List.{append_assoc, append-nil}
use mathlib.Core.Path.{subst}
use omni_fuse.FilePath.{FilePath, component_eq}
use omni_fuse.Core.FileSystem.{FileSystem}
use omni_fuse.Core.BufferManager.{
  max_memory_bytes, BufferId, Heap, Cache, Eviction, Turn, stop, continue, fits, requeue,
  evict_next, evict_turn, evict_loop, evict_fuel, eviction_of, maybe_evict,
}
use omni_fuse.Core.BufferManager.Evict.Rounds.{
  is_dirty_at, all_dirty, Inv, measure, loop-IsDone, loop_keeps,
}

module _ {F : FileSystem} (additional : ℕ) (s : Cache F) where
  start_loop :
      (e : Eviction) × (evict_loop s.heap
          (max_memory_bytes s.config)
          additional
          (length s.lru_order)
          (evict_fuel s)
          (eviction_of s)
        ≡ some e)
      × ((fits s.heap (max_memory_bytes s.config) additional (length s.lru_order) e
            || all_dirty s.heap e.resident e.lru)
          ≡ true)
  unfolding measure
  start_loop =
      loop-IsDone s.heap (max_memory_bytes s.config) additional (length s.lru_order) (evict_fuel s)
        s.lru_order [] (eviction_of s)
        (record { queue = sym (append-nil s.lru_order); dirty = refl; room = omega arith })
        (omega arith)

  -- The loop of the eviction ends within its fuel, and after the eviction the new bytes fit into the
  -- memory limit, or all buffers in the queue are dirty.
  pub maybe_evict_room :
      ((e : Eviction) × (evict_loop s.heap
            (max_memory_bytes s.config)
            additional
            (length s.lru_order)
            (evict_fuel s)
            (eviction_of s)
          ≡ some e))
      × ((leb
              (saturating_add (maybe_evict additional s).memory_usage additional)
              (max_memory_bytes s.config)
            || all_dirty s.heap
                (maybe_evict additional s).buffers
                (maybe_evict additional s).lru_order)
          ≡ true)
  unfolding maybe_evict
  maybe_evict_room = ((start_loop.0, start_loop.1), ground (arith, start_loop))

  -- Eviction drops no dirty buffer, and changes no buffer's content.
  pub maybe_evict_dirty :
      (p : FilePath)
      → is_dirty_at s.heap s.buffers p ≡ true
      → (lookup p (maybe_evict additional s).buffers ≡ lookup p s.buffers)
        × ((maybe_evict additional s).heap ≡ s.heap)
  unfolding maybe_evict
  maybe_evict_dirty p d = ground (
    arith,
    start_loop,
    loop_keeps s.heap (max_memory_bytes s.config) additional (length s.lru_order) p (evict_fuel s)
        (eviction_of s) start_loop.0 d,
  )
