-- ===== src/Core/SyncEngine/Delivery.antt =====
-- What reaches the backend, and what a sync leaves behind
-- (crates/omnifuse-core/src/sync_engine.rs).
use omni_fuse.Prelude.{
  ℕ, Bool, true, false, ◌&&◌, not, List, [], ◌∷◌, ◌≡◌, refl, sym, ap, ◌∙◌, arith, contains, list_eq,
  list_beq_iff, Fallible, ok, err, if◌then◌else◌, is_empty, keep, contains-keep,
}
use omni_fuse.Prelude.Set
use omni_fuse.FilePath.{FilePath, component_eq}
use omni_fuse.Core.Backend.{Backend, SyncResult}
use omni_fuse.Core.DirtyIndex.{
  DirtyIndex, mark_dirty, mark_clean, contains-mark_dirty, contains-mark_clean,
}
use omni_fuse.Core.SyncEngine.{
  file_closed, shutdown, received, channel_closed, Engine, clean_all, settle_conflicts, finish_sync,
  sync_files, do_sync, note_dirty, final_sync, sync_if_triggered, dirty_worker_round,
  note_slow_sync,
}

contains-clean_all :
    (files : List FilePath) (index : DirtyIndex) (p : FilePath)
    → contains (clean_all files index) p ≡ (contains index p && not (contains files p))
unfolding clean_all contains
contains-clean_all [] index p = ground arith
contains-clean_all (file ∷ files) index p =
    ground
      (arith, contains-clean_all files (mark_clean file index) p, contains-mark_clean index file p)

contains-settle_conflicts :
    (c files : List FilePath) (index : DirtyIndex) (p : FilePath)
    → contains (settle_conflicts c files index) p
      ≡ (if contains files p then contains c p else contains index p)
unfolding settle_conflicts contains
contains-settle_conflicts c [] index p = refl
contains-settle_conflicts c (file ∷ files) index p = ground (
  arith,
  contains-settle_conflicts c files (mark_dirty file index) p,
  contains-settle_conflicts c files (mark_clean file index) p,
  contains-mark_clean index file p,
  contains-mark_dirty index file p,
  list_beq_iff p file,
)

-- Whether a path waits for another sync, and whether it is in the dirty index, after a sync of
-- `files`.
abbrev pub waits_after : {E : Type 0} → Fallible E SyncResult → List FilePath → FilePath → Bool
waits_after (ok (SyncResult.success _)) files p = false
waits_after (ok (SyncResult.conflict _ _)) files p = false
waits_after (ok SyncResult.offline) files p = contains files p
waits_after (err _) files p = contains files p

abbrev pub dirty_after :
    {E : Type 0} → Fallible E SyncResult → List FilePath → DirtyIndex → FilePath → Bool
dirty_after (ok (SyncResult.success _)) files index p = contains index p && not (contains files p)
dirty_after (ok (SyncResult.conflict _ c)) files index p =
    if contains files p then contains c p else contains index p
dirty_after (ok SyncResult.offline) files index p = contains index p
dirty_after (err _) files index p = contains index p

pub is_empty_of_contains :
    (xs : List FilePath) (p : FilePath) → contains xs p ≡ true → is_empty xs ≡ false
unfolding contains
is_empty_of_contains [] p h = sym h
is_empty_of_contains (x ∷ xs) p h = refl

module _ (B : Backend) where
  abbrev pub tracked_of : Engine B → List FilePath
  tracked_of s = keep B.should_track s.dirty_set

  contains-finish_sync :
      (files : List FilePath) (result : Fallible B.Error SyncResult) (s : Engine B) (p : FilePath)
      → s.dirty_set ≡ []
      → (contains (finish_sync B files result s).dirty_set p ≡ waits_after result files p)
        × (contains (finish_sync B files result s).dirty_index p
            ≡ dirty_after result files s.dirty_index p)
  unfolding finish_sync contains
  contains-finish_sync files (ok (SyncResult.success n)) s p empty =
      (ground arith, contains-clean_all files s.dirty_index p)
  contains-finish_sync files (ok (SyncResult.conflict n c)) s p empty =
      (ground arith, contains-settle_conflicts c files s.dirty_index p)
  contains-finish_sync files (ok SyncResult.offline) s p empty =
      (ground (arith, Set.contains-extend s.dirty_set files p), refl)
  contains-finish_sync files (err e) s p empty =
      (ground (arith, Set.contains-extend s.dirty_set files p), refl)

  backend-finish_sync :
      (files : List FilePath) (result : Fallible B.Error SyncResult) (s : Engine B)
      → (finish_sync B files result s).backend ≡ s.backend
  unfolding finish_sync
  backend-finish_sync files (ok (SyncResult.success n)) s = refl
  backend-finish_sync files (ok (SyncResult.conflict n c)) s = refl
  backend-finish_sync files (ok SyncResult.offline) s = refl
  backend-finish_sync files (err e) s = refl

  record SameSets (s t : Engine B) : Type 0 where
    waiting : s.dirty_set ≡ t.dirty_set
    index : s.dirty_index ≡ t.dirty_index
    held : s.backend ≡ t.backend

  note_slow_sync-SameSets : (elapsed : ℕ) (s : Engine B) → SameSets (note_slow_sync B elapsed s) s
  unfolding note_slow_sync
  note_slow_sync-SameSets elapsed s = ground arith

  backend-sync_files :
      (files : List FilePath) (elapsed : ℕ) (s : Engine B)
      → (sync_files B files elapsed s).backend ≡ (B.sync files s.backend).1
  unfolding sync_files
  backend-sync_files files elapsed s =
      (note_slow_sync-SameSets elapsed _).held
      ∙ backend-finish_sync files (B.sync files s.backend).0 _

  contains-sync_files :
      (files : List FilePath) (elapsed : ℕ) (s : Engine B) (p : FilePath)
      → s.dirty_set ≡ []
      → (contains (sync_files B files elapsed s).dirty_set p
          ≡ waits_after (B.sync files s.backend).0 files p)
        × (contains (sync_files B files elapsed s).dirty_index p
            ≡ dirty_after (B.sync files s.backend).0 files s.dirty_index p)
  unfolding sync_files
  contains-sync_files files elapsed s p empty =
      let result = (B.sync files s.backend).0 in
      let parts = contains-finish_sync files result _ p empty in
      let same = note_slow_sync-SameSets elapsed _ in
      (ap (λ q. contains q p) same.waiting ∙ parts.0, ap (λ q. contains q p) same.index ∙ parts.1)

  -- A sync hands the tracked dirty files, if there are any, to the backend, and sorts them by its answer: after
  -- success none waits and none of them is in the index; after conflicts exactly those of them in
  -- conflict are in the index; offline, or after an error, all of them wait again and the index is
  -- as before.
  pub do_sync_outcome :
      (elapsed : ℕ) (s : Engine B) (p : FilePath)
      → is_empty (tracked_of s) ≡ false
      → ((do_sync B elapsed s).backend ≡ (B.sync (tracked_of s) s.backend).1)
        × (contains (do_sync B elapsed s).dirty_set p
            ≡ waits_after (B.sync (tracked_of s) s.backend).0 (tracked_of s) p)
        × (contains (do_sync B elapsed s).dirty_index p
            ≡ dirty_after (B.sync (tracked_of s) s.backend).0 (tracked_of s) s.dirty_index p)
  unfolding do_sync
  do_sync_outcome elapsed s p some_tracked =
      let drained : Engine B = record s { dirty_set = [] } in
      rw some_tracked (
        backend-sync_files (tracked_of s) elapsed drained,
        (contains-sync_files (tracked_of s) elapsed drained p refl).0,
        (contains-sync_files (tracked_of s) elapsed drained p refl).1,
      )

  -- Handed over, or nothing tracked to hand over.
  abbrev pub handed_over : List FilePath → B.State → B.State
  handed_over files backend = if is_empty files then backend else (B.sync files backend).1

  pub backend-do_sync :
      (elapsed : ℕ) (s : Engine B)
      → (do_sync B elapsed s).backend ≡ handed_over (tracked_of s) s.backend
  unfolding do_sync
  backend-do_sync elapsed s =
      ground (arith, backend-sync_files (tracked_of s) elapsed (record s { dirty_set = [] }))

  pub backend-sync_if_triggered :
      (elapsed : ℕ) (s : Engine B)
      → (sync_if_triggered B elapsed s).backend ≡ (
          if s.trigger_sync && not (is_empty s.dirty_set)
          then handed_over (tracked_of s) s.backend
          else s.backend)
  unfolding sync_if_triggered
  backend-sync_if_triggered elapsed s = ground (arith, backend-do_sync elapsed s)

  module _ (debounce_duration far_future : ℕ) where
    -- A running worker hands a tracked file over to the backend in the round in which the file is
    -- closed, together with the other tracked dirty files.
    pub file_closed-syncs :
        (p : FilePath) (now elapsed : ℕ) (s : Engine B)
        → s.running ≡ true
        → B.should_track p ≡ true
        → let files = keep B.should_track (Set.insert p s.dirty_set) in
          (contains files p ≡ true)
          × ((dirty_worker_round B debounce_duration far_future
                (received (file_closed p) now)
                elapsed
                s).backend
              ≡ (B.sync files s.backend).1)
    unfolding dirty_worker_round sync_if_triggered note_dirty
    file_closed-syncs p now elapsed s running tracked =
        let waiting = Set.insert p s.dirty_set in
        let member : contains waiting p ≡ true =
          ground (arith, Set.contains-insert s.dirty_set p p, list_beq_iff p p) in
        let handed : contains (keep B.should_track waiting) p ≡ true =
          ground (arith, contains-keep B.should_track waiting p) in
        ground (
          arith,
          is_empty_of_contains waiting p member,
          is_empty_of_contains (keep B.should_track waiting) p handed,
          backend-sync_if_triggered elapsed (record (note_dirty B p s) { trigger_sync = true }),
        )

    -- On shutdown, or when the channel ends, the worker hands over what it still holds and stops.
    pub shutdown-syncs :
        (now elapsed : ℕ) (s : Engine B)
        → s.running ≡ true
        → let t =
            dirty_worker_round B debounce_duration far_future (received shutdown now) elapsed s in
          (t.running ≡ false)
          × (t.backend ≡ handed_over (tracked_of s) s.backend)
          × (dirty_worker_round B debounce_duration far_future channel_closed elapsed s ≡ t)
    unfolding dirty_worker_round final_sync
    shutdown-syncs now elapsed s running = ground (arith, backend-do_sync elapsed s)
