-- ===== src/Core/SyncEngine/Protected.antt =====
-- The protection that `dirty_worker` gives to local changes
-- (crates/omnifuse-core/src/sync_engine.rs).
use omni_fuse.Prelude.{
  ℕ, ◌+◌, Bool, true, ◌||◌, not, List, [], ◌∷◌, ◌≡◌, refl, ◌∙◌, arith, contains, list_eq,
  list_beq_iff, Fallible, ok, err, keep, contains-keep,
}
use omni_fuse.Prelude.Set
use omni_fuse.FilePath.{FilePath, component_eq}
use omni_fuse.Core.Backend.{Backend, RemoteRefreshResult, SyncResult}
use omni_fuse.Core.DirtyIndex.{is_protected, is_protected_self, contains-mark_dirty}
use omni_fuse.Core.SyncEngine.{
  file_modified, file_closed, flush, shutdown, Selected, received, channel_closed, deadline_passed,
  Engine, finish_sync, sync_files, do_sync, note_dirty, final_sync, sync_if_triggered,
  dirty_worker_round, finish_poll, poll_worker_round, Round, dirty_round, poll_round, run_round,
  run_rounds, start, note_slow_sync, note_slow_poll,
}

module _ (B : Backend) (p : FilePath) where
  -- A path that waits in the dirty set is in the dirty index.
  abbrev keeps : Engine B → Bool
  keeps s = not (contains s.dirty_set p) || contains s.dirty_index p

  finish_sync-keeps :
      (files : List FilePath) (result : Fallible B.Error SyncResult) (s : Engine B)
      → s.dirty_set ≡ []
      → (not (contains files p) || contains s.dirty_index p) ≡ true
      → keeps (finish_sync B files result s) ≡ true
  unfolding finish_sync contains
  finish_sync-keeps files (ok (SyncResult.success n)) s empty h = ground arith
  finish_sync-keeps files (ok (SyncResult.conflict n c)) s empty h = ground arith
  finish_sync-keeps files (ok SyncResult.offline) s empty h =
      ground (arith, Set.contains-extend s.dirty_set files p)
  finish_sync-keeps files (err e) s empty h =
      ground (arith, Set.contains-extend s.dirty_set files p)

  note_slow_sync-keeps : (elapsed : ℕ) (s : Engine B) → keeps (note_slow_sync B elapsed s) ≡ keeps s
  unfolding note_slow_sync
  note_slow_sync-keeps elapsed s = ground arith

  sync_files-keeps :
      (files : List FilePath) (elapsed : ℕ) (s : Engine B)
      → s.dirty_set ≡ []
      → (not (contains files p) || contains s.dirty_index p) ≡ true
      → keeps (sync_files B files elapsed s) ≡ true
  unfolding sync_files
  sync_files-keeps files elapsed s empty h =
      note_slow_sync-keeps elapsed _ ∙ finish_sync-keeps files (B.sync files s.backend).0 _ empty h

  module _ (tracked : B.should_track p ≡ true) where
    do_sync-keeps :
        (elapsed : ℕ) (s : Engine B) → keeps s ≡ true → keeps (do_sync B elapsed s) ≡ true
    unfolding do_sync contains
    do_sync-keeps elapsed s h = ground (
      arith,
      contains-keep B.should_track s.dirty_set p,
      sync_files-keeps (keep B.should_track s.dirty_set) elapsed (record s { dirty_set = [] }) refl,
    )

    note_dirty-keeps :
        (path : FilePath) (s : Engine B) → keeps s ≡ true → keeps (note_dirty B path s) ≡ true
    unfolding note_dirty
    note_dirty-keeps path s h = ground (
      arith,
      Set.contains-insert s.dirty_set path p,
      contains-mark_dirty s.dirty_index path p,
      list_beq_iff p path,
    )

    sync_if_triggered-keeps :
        (elapsed : ℕ) (s : Engine B) → keeps s ≡ true → keeps (sync_if_triggered B elapsed s) ≡ true
    unfolding sync_if_triggered
    sync_if_triggered-keeps elapsed s h = ground (arith, do_sync-keeps elapsed s h)

    final_sync-keeps :
        (elapsed : ℕ) (s : Engine B) → keeps s ≡ true → keeps (final_sync B elapsed s) ≡ true
    unfolding final_sync
    final_sync-keeps elapsed s h = ground (arith, do_sync-keeps elapsed s h)

    finish_poll-keeps :
        (result : Fallible B.Error RemoteRefreshResult) (s : Engine B)
        → keeps (finish_poll B result s) ≡ keeps s
    unfolding finish_poll
    finish_poll-keeps (ok RemoteRefreshResult.unchanged) s = refl
    finish_poll-keeps _ s = ground arith

    note_slow_poll-keeps :
        (elapsed : ℕ) (s : Engine B) → keeps (note_slow_poll B elapsed s) ≡ keeps s
    unfolding note_slow_poll
    note_slow_poll-keeps elapsed s = ground arith

    poll_worker_round-keeps :
        (elapsed : ℕ) (s : Engine B) → keeps s ≡ true → keeps (poll_worker_round B elapsed s) ≡ true
    unfolding poll_worker_round
    poll_worker_round-keeps elapsed s h = note_slow_poll-keeps elapsed _ ∙ finish_poll-keeps _ _ ∙ h

    module _ (debounce_duration far_future : ℕ) where
      dirty_worker_round-keeps :
          (selected : Selected) (elapsed : ℕ) (s : Engine B)
          → keeps s ≡ true
          → keeps (dirty_worker_round B debounce_duration far_future selected elapsed s) ≡ true
      unfolding dirty_worker_round
      dirty_worker_round-keeps (received (file_modified path) now) elapsed s h = ground (
        arith,
        sync_if_triggered-keeps elapsed
            (record (note_dirty B path s) { debounce_deadline = now + debounce_duration })
            (note_dirty-keeps path s h),
      )
      dirty_worker_round-keeps (received (file_closed path) now) elapsed s h = ground (
        arith,
        sync_if_triggered-keeps elapsed (record (note_dirty B path s) { trigger_sync = true })
            (note_dirty-keeps path s h),
      )
      dirty_worker_round-keeps (received flush now) elapsed s h =
          ground (arith, sync_if_triggered-keeps elapsed (record s { trigger_sync = true }) h)
      dirty_worker_round-keeps (received shutdown now) elapsed s h =
          ground (arith, final_sync-keeps elapsed s h)
      dirty_worker_round-keeps channel_closed elapsed s h =
          ground (arith, final_sync-keeps elapsed s h)
      dirty_worker_round-keeps (deadline_passed now) elapsed s h = ground (
        arith,
        sync_if_triggered-keeps elapsed
            (record s { trigger_sync = true; debounce_deadline = far_future }) h,
      )

      run_rounds-keeps :
          (rounds : List Round) (s : Engine B)
          → keeps s ≡ true
          → keeps (run_rounds B debounce_duration far_future rounds s) ≡ true
      unfolding run_rounds run_round
      run_rounds-keeps [] s h = h
      run_rounds-keeps (dirty_round selected elapsed ∷ rounds) s h =
          run_rounds-keeps rounds _ (dirty_worker_round-keeps selected elapsed s h)
      run_rounds-keeps (poll_round elapsed ∷ rounds) s h =
          run_rounds-keeps rounds _ (poll_worker_round-keeps elapsed s h)

-- Whatever the two workers do from the start, a tracked path that waits for a sync is protected
-- from remote refresh.
pub run_rounds-is_protected :
    (B : Backend) (debounce_duration far_future : ℕ) (rounds : List Round) (backend : B.State)
    (p : FilePath)
    → B.should_track p ≡ true
    → contains
        (run_rounds B debounce_duration far_future rounds (start B backend far_future)).dirty_set
        p
      ≡ true
    → is_protected
        (run_rounds B debounce_duration far_future rounds (start B backend far_future)).dirty_index
        p
      ≡ true
unfolding start contains
run_rounds-is_protected B debounce_duration far_future rounds backend p tracked waits =
    is_protected_self _ p (
      ground (
        arith,
        run_rounds-keeps B p tracked debounce_duration far_future rounds
            (start B backend far_future) refl,
      ))
