-- ===== src/Core/SyncEngine/Debounce.antt =====
-- The debounce timer of `dirty_worker` (crates/omnifuse-core/src/sync_engine.rs).
use omni_fuse.Prelude.{
  ℕ, ◌+◌, true, false, [], ◌∷◌, ◌≡◌, arith, contains, list_eq, list_beq_iff, if◌then◌else◌, leb,
}
use omni_fuse.Prelude.Set
use omni_fuse.FilePath.{FilePath, component_eq}
use omni_fuse.Core.Backend.{Backend}
use omni_fuse.Core.SyncEngine.{
  file_modified, flush, Selected, received, deadline_passed, Engine, note_dirty, sync_if_triggered,
  dirty_worker_round,
}
use omni_fuse.Core.SyncEngine.Delivery.{
  handed_over, backend-do_sync, tracked_of, is_empty_of_contains, backend-sync_if_triggered,
}

module _ (B : Backend) (debounce_duration far_future : ℕ) where
  abbrev pub round : Selected → ℕ → Engine B → Engine B
  round = dirty_worker_round B debounce_duration far_future

  -- In a running worker with no sync pending, a modified file waits: the round that reads the event calls no backend
  -- and sets the deadline; the timer does nothing before the deadline, and from the deadline on it
  -- hands over the tracked dirty files, that file among them if it is tracked.
  pub file_modified-debounces :
      (p : FilePath) (now later elapsed : ℕ) (s : Engine B)
      → s.running ≡ true
      → s.trigger_sync ≡ false
      → let t = round (received (file_modified p) now) elapsed s in
        (t.backend ≡ s.backend)
        × (contains t.dirty_set p ≡ true)
        × (t.debounce_deadline ≡ now + debounce_duration)
        × ((round (deadline_passed later) elapsed t).backend ≡ (
            if leb (now + debounce_duration) later
            then handed_over B (tracked_of B t) s.backend
            else s.backend))
  unfolding dirty_worker_round sync_if_triggered note_dirty
  file_modified-debounces p now later elapsed s running idle =
      let waiting = Set.insert p s.dirty_set in
      let member : contains waiting p ≡ true =
        ground (arith, Set.contains-insert s.dirty_set p p, list_beq_iff p p) in
      ground (
        arith,
        member,
        is_empty_of_contains waiting p member,
        backend-sync_if_triggered B elapsed
            (record (note_dirty B p s) { trigger_sync = true; debounce_deadline = far_future }),
        backend-do_sync B elapsed
            (record (note_dirty B p s) { trigger_sync = true; debounce_deadline = far_future }),
      )

  -- In a running worker, a flush that finds no dirty file stays pending: the next modified file, if it is tracked, is
  -- handed to the backend at once, without the debounce time.
  pub flush-then-file_modified :
      (p : FilePath) (now now' elapsed elapsed' : ℕ) (s : Engine B)
      → s.running ≡ true
      → s.dirty_set ≡ []
      → B.should_track p ≡ true
      → (round
          (received (file_modified p) now')
          elapsed'
          (round (received flush now) elapsed s)).backend
        ≡ (B.sync (p ∷ []) s.backend).1
  unfolding dirty_worker_round sync_if_triggered note_dirty Set.insert contains
  flush-then-file_modified p now now' elapsed elapsed' s running empty tracked = ground (
    arith,
    backend-do_sync B elapsed' (record (note_dirty B p (record s { trigger_sync = true })) {
      debounce_deadline = now' + debounce_duration;
    }),
  )
