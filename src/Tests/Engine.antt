-- ===== src/Tests/Engine.antt =====
-- The sync engine at concrete data: a backend that records what it is asked to synchronize.
use omni_fuse.Prelude.{
  true, false, List, [], ◌∷◌, ◌++◌, ◌≡◌, refl, ok, list_eq, list_beq, contains, keep,
}
use omni_fuse.Prelude.Set
use omni_fuse.FilePath.{FilePath, normal, component_eq}
use omni_fuse.Core.Backend.{Backend, RemoteRefreshResult, SyncResult}
use omni_fuse.Core.DirtyIndex.{is_protected}
use omni_fuse.Core.SyncEngine.{
  FsEvent, file_modified, file_closed, flush, shutdown, Selected, received, channel_closed,
  deadline_passed, Engine, do_sync, note_dirty, sync_if_triggered, dirty_worker_round, run_round,
  run_rounds, start, Round, dirty_round, poll_round,
}
use omni_fuse.Core.SyncEngine.Delivery.{
  do_sync_outcome, file_closed-syncs, shutdown-syncs, handed_over, tracked_of, waits_after,
  dirty_after,
}
use omni_fuse.Core.SyncEngine.Protected.{run_rounds-is_protected}
use omni_fuse.Tests.Disk.{a_rel, b_rel}

-- Every synchronization ends in a conflict on all files.
abbrev recorder : Backend
recorder = record {
  State = List (List FilePath);
  Error = Unit;
  Code = Unit;
  sync = λ files s. (ok (SyncResult.conflict 0 files), s ++ (files ∷ []));
  refresh_remote = λ request s. (ok RemoteRefreshResult.unchanged, s);
  should_track = λ path. true;
  classify_error = λ e. e;
}

abbrev idle : Engine recorder
idle = start recorder [] 1000000

abbrev waiting : Engine recorder
waiting = record idle { dirty_set = a_rel ∷ []; dirty_index = a_rel ∷ [] }

do_sync_outcome_example :
    ((do_sync recorder 7 waiting).backend ≡ (recorder.sync (tracked_of recorder waiting) []).1)
    × (contains (do_sync recorder 7 waiting).dirty_set a_rel
        ≡ waits_after
            (recorder.sync (tracked_of recorder waiting) []).0
            (tracked_of recorder waiting)
            a_rel)
    × (contains (do_sync recorder 7 waiting).dirty_index a_rel
        ≡ dirty_after
            (recorder.sync (tracked_of recorder waiting) []).0
            (tracked_of recorder waiting)
            (a_rel ∷ [])
            a_rel)
unfolding start
do_sync_outcome_example = do_sync_outcome recorder 7 waiting a_rel refl

file_closed-syncs_example :
    (contains (keep recorder.should_track (Set.insert b_rel (a_rel ∷ []))) b_rel ≡ true)
    × ((dirty_worker_round recorder 500 1000000 (received (file_closed b_rel) 9) 7 waiting).backend
        ≡ (recorder.sync (keep recorder.should_track (Set.insert b_rel (a_rel ∷ []))) []).1)
unfolding start
file_closed-syncs_example = file_closed-syncs recorder 500 1000000 b_rel 9 7 waiting refl refl

shutdown-syncs_example :
    ((dirty_worker_round recorder 500 1000000 (received shutdown 9) 7 waiting).running ≡ false)
    × ((dirty_worker_round recorder 500 1000000 (received shutdown 9) 7 waiting).backend
        ≡ handed_over recorder (tracked_of recorder waiting) [])
    × (dirty_worker_round recorder 500 1000000 channel_closed 7 waiting
        ≡ dirty_worker_round recorder 500 1000000 (received shutdown 9) 7 waiting)
unfolding start
shutdown-syncs_example = shutdown-syncs recorder 500 1000000 9 7 waiting refl

abbrev rounds : List Round
rounds = dirty_round (received (file_modified a_rel) 9) 7 ∷ poll_round 7 ∷ []

still_dirty :
    contains (run_rounds recorder 500 1000000 rounds (start recorder [] 1000000)).dirty_set a_rel
    ≡ true
unfolding run_rounds contains run_round omni_fuse.Core.SyncEngine.poll_worker_round
    omni_fuse.Core.SyncEngine.note_slow_poll omni_fuse.Core.SyncEngine.finish_poll
    dirty_worker_round start sync_if_triggered note_dirty Set.insert list_beq
    omni_fuse.FilePath.component_beq
still_dirty = refl

run_rounds-is_protected_example :
    is_protected
      (run_rounds recorder 500 1000000 rounds (start recorder [] 1000000)).dirty_index
      a_rel
    ≡ true
run_rounds-is_protected_example =
    run_rounds-is_protected recorder 500 1000000 rounds [] a_rel refl still_dirty
