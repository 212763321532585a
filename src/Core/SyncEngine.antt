-- ===== src/Core/SyncEngine.antt =====
-- The synchronization engine (crates/omnifuse-core/src/sync_engine.rs): the loop body of
-- `dirty_worker`, `do_sync`, and the loop body of `poll_worker`. What `select!` picks, the clock
-- and the time that a call takes are inputs. The two workers share the dirty index and the backend.
pub mod Protected
pub mod Delivery
pub mod Debounce
use omni_fuse.Prelude.{
  ℕ, ◌+◌, Bool, true, false, ◌&&◌, not, List, [], ◌∷◌, ◌++◌, Option, none, some, Eq, contains,
  list_eq, fetch_add_one, Fallible, ok, err, if◌then◌else◌, ltb, leb, length, is_empty, keep,
}
use omni_fuse.Prelude.Set
use omni_fuse.FilePath.{FilePath, component_eq}
use omni_fuse.Core.DirtyIndex.{DirtyIndex, mark_dirty, mark_clean, is_protected}
use omni_fuse.Core.Backend.{
  Backend, RemoteApplyMode, RemoteRefresh, RemoteRefreshResult, RemoteDeferReason, SyncResult,
}

pub data FsEvent : Type 0 where
  file_modified file_closed : FilePath → FsEvent
  flush shutdown : FsEvent

-- What `select!` yields: an event with the time at which it is handled, the end of the channel,
-- or the debounce timer.
pub data Selected : Type 0 where
  received : FsEvent → ℕ → Selected
  channel_closed : Selected
  deadline_passed : ℕ → Selected

-- Milliseconds.
abbrev slow_iteration_threshold : ℕ
slow_iteration_threshold = 5000

pub record WorkerMetrics : Type 0 where
  pub poll_iterations : ℕ
  pub sync_iterations : ℕ
  pub slow_poll_count : ℕ
  pub slow_sync_count : ℕ

-- The events emitted to the sink, without their identifiers and times.
pub data Emitted (Code : Type 0) : Type 0 where
  sync_start : (dirty iteration : ℕ) (path : Option FilePath) → Emitted Code
  sync_done : (synced conflicts : ℕ) → Emitted Code
  conflict : (paths : List FilePath) → Emitted Code
  sync_defer : (dirty : ℕ) → Emitted Code
  sync_fail : (dirty : ℕ) → Code → Emitted Code
  remote_poll : (iteration : ℕ) → Emitted Code
  remote_change : (changed deleted : ℕ) → Emitted Code
  remote_defer : (affected : List FilePath) → RemoteDeferReason → Emitted Code
  remote_offline : Emitted Code
  remote_fail : Code → Emitted Code

abbrev first : List FilePath → Option FilePath
first [] = none
first (path ∷ _) = some path

-- `for file in &files { dirty_index.mark_clean(file); }`
unfoldable pub clean_all : List FilePath → DirtyIndex → DirtyIndex
clean_all [] index = index
clean_all (file ∷ files) index = clean_all files (mark_clean file index)

-- The loop over the files after a sync with conflicts.
unfoldable pub settle_conflicts : List FilePath → List FilePath → DirtyIndex → DirtyIndex
settle_conflicts conflict_set [] index = index
settle_conflicts conflict_set (file ∷ files) index =
    settle_conflicts conflict_set files
      (if contains conflict_set file then mark_dirty file index else mark_clean file index)

-- What the two workers share, and the locals of `dirty_worker`.
pub record Engine (B : Backend) : Type 0 where
  pub dirty_set : List FilePath
  pub dirty_index : DirtyIndex
  pub trigger_sync : Bool
  pub debounce_deadline : ℕ
  pub running : Bool
  pub metrics : WorkerMetrics
  pub backend : B.State
  pub events : List (Emitted B.Code)

-- The request of a poll.
unfoldable pub poll_request : DirtyIndex → RemoteRefresh
poll_request index = record {
  protected_paths = is_protected index;
  mode = RemoteApplyMode.apply_safe;
}

module _ (B : Backend) where
  abbrev emit : Emitted B.Code → Engine B → Engine B
  emit event s = record s { events = s.events ++ (event ∷ []) }

  -- The `match` on the result of `backend.sync`.
  unfoldable pub finish_sync : List FilePath → Fallible B.Error SyncResult → Engine B → Engine B
  finish_sync files (ok (SyncResult.success synced_files)) s =
      emit (sync_done synced_files 0) (record s { dirty_index = clean_all files s.dirty_index })
  finish_sync files (ok (SyncResult.conflict synced_files conflict_files)) s =
      emit (sync_done synced_files (length conflict_files)) (
        emit (conflict conflict_files)
          (record s { dirty_index = settle_conflicts conflict_files files s.dirty_index }))
  finish_sync files (ok SyncResult.offline) s =
      let dirty_set = Set.extend s.dirty_set files in
      emit (sync_defer (length dirty_set)) (record s { dirty_set = dirty_set })
  finish_sync files (err error) s =
      let dirty_set = Set.extend s.dirty_set files in
      emit (sync_fail (length dirty_set) (B.classify_error error))
        (record s { dirty_set = dirty_set })

  -- The count of slow iterations; `elapsed` is the time that the sync took.
  unfoldable pub note_slow_sync : ℕ → Engine B → Engine B
  note_slow_sync elapsed s =
      if ltb slow_iteration_threshold elapsed
      then record s {
        metrics = record (s.metrics) { slow_sync_count = fetch_add_one s.metrics.slow_sync_count };
      }
      else s

  -- The part of `do_sync` after the early return.
  unfoldable pub sync_files : List FilePath → ℕ → Engine B → Engine B
  sync_files files elapsed s =
      let iteration = fetch_add_one s.metrics.sync_iterations in
      let started =
        emit (sync_start (length files) iteration (first files))
          (record s { metrics = record (s.metrics) { sync_iterations = iteration } }) in
      let (result, backend) = B.sync files s.backend in
      note_slow_sync elapsed (finish_sync files result (record started { backend = backend }))

  -- `do_sync`: drains the dirty set, and syncs what the backend tracks of it.
  unfoldable pub do_sync : ℕ → Engine B → Engine B
  do_sync elapsed s =
      let files = keep B.should_track s.dirty_set in
      let drained = record s { dirty_set = [] } in
      if is_empty files then drained else sync_files files elapsed drained

  -- The two effects of a modified or closed file on the sets.
  unfoldable pub note_dirty : FilePath → Engine B → Engine B
  note_dirty path s = record s {
    dirty_index = if B.should_track path then mark_dirty path s.dirty_index else s.dirty_index;
    dirty_set = Set.insert path s.dirty_set;
  }

  -- `Shutdown`, or the end of the channel: the final sync and `break`.
  unfoldable pub final_sync : ℕ → Engine B → Engine B
  final_sync elapsed s =
      let synced = if is_empty s.dirty_set then s else do_sync elapsed s in
      record synced { running = false }

  -- The test at the end of the loop body.
  unfoldable pub sync_if_triggered : ℕ → Engine B → Engine B
  sync_if_triggered elapsed s =
      if s.trigger_sync && not (is_empty s.dirty_set)
      then record (do_sync elapsed s) { trigger_sync = false }
      else s

  module _ (debounce_duration far_future : ℕ) where
    -- One round of the loop of `dirty_worker`. A finished worker takes no more rounds, and the
    -- timer branch is enabled only with a dirty file and from the deadline on.
    unfoldable pub dirty_worker_round : Selected → ℕ → Engine B → Engine B
    dirty_worker_round selected elapsed s = if not s.running then s else elim selected [
      | received event now ↦ elim event [
        | file_modified path ↦
            sync_if_triggered elapsed
              (record (note_dirty path s) { debounce_deadline = now + debounce_duration })
        | file_closed path ↦
            sync_if_triggered elapsed (record (note_dirty path s) { trigger_sync = true })
        | flush ↦ sync_if_triggered elapsed (record s { trigger_sync = true })
        | shutdown ↦ final_sync elapsed s
      ]
      | channel_closed ↦ final_sync elapsed s
      | deadline_passed now ↦
          if not (is_empty s.dirty_set) && leb s.debounce_deadline now
          then sync_if_triggered elapsed
              (record s { trigger_sync = true; debounce_deadline = far_future })
          else s
    ]

  -- The `match` on the result of `backend.refresh_remote`.
  unfoldable pub finish_poll : Fallible B.Error RemoteRefreshResult → Engine B → Engine B
  finish_poll (ok RemoteRefreshResult.unchanged) s = s
  finish_poll (ok (RemoteRefreshResult.applied changed deleted)) s =
      if ltb 0 (length changed + length deleted)
      then emit (remote_change (length changed) (length deleted)) s
      else s
  finish_poll (ok (RemoteRefreshResult.deferred affected reason)) s =
      emit (remote_defer affected reason) s
  finish_poll (ok RemoteRefreshResult.offline) s = emit remote_offline s
  finish_poll (err error) s = emit (remote_fail (B.classify_error error)) s

  -- The count of slow iterations of `poll_worker`.
  unfoldable pub note_slow_poll : ℕ → Engine B → Engine B
  note_slow_poll elapsed s =
      if ltb slow_iteration_threshold elapsed
      then record s {
        metrics = record (s.metrics) { slow_poll_count = fetch_add_one s.metrics.slow_poll_count };
      }
      else s

  -- One round of the loop of `poll_worker`, after its sleep.
  unfoldable pub poll_worker_round : ℕ → Engine B → Engine B
  poll_worker_round elapsed s =
      let iteration = fetch_add_one s.metrics.poll_iterations in
      let started =
        emit (remote_poll iteration)
          (record s { metrics = record (s.metrics) { poll_iterations = iteration } }) in
      let (result, backend) = B.refresh_remote (poll_request s.dirty_index) s.backend in
      note_slow_poll elapsed (finish_poll result (record started { backend = backend }))

-- The workers take turns: a round of either one, with what its `select!` yields and the time that
-- its call of the backend takes.
pub data Round : Type 0 where
  dirty_round : Selected → ℕ → Round
  poll_round : ℕ → Round

module _ (B : Backend) (debounce_duration far_future : ℕ) where
  unfoldable pub run_round : Round → Engine B → Engine B
  run_round (dirty_round selected elapsed) s =
      dirty_worker_round B debounce_duration far_future selected elapsed s
  run_round (poll_round elapsed) s = poll_worker_round B elapsed s

  unfoldable pub run_rounds : List Round → Engine B → Engine B
  run_rounds [] s = s
  run_rounds (round ∷ rounds) s = run_rounds rounds (run_round round s)

-- `start_with_session`: the state in which the workers begin.
unfoldable pub start : (B : Backend) → B.State → ℕ → Engine B
start B backend far_future = record {
  dirty_set = [];
  dirty_index = [];
  trigger_sync = false;
  debounce_deadline = far_future;
  running = true;
  metrics = record {
    poll_iterations = 0;
    sync_iterations = 0;
    slow_poll_count = 0;
    slow_sync_count = 0;
  };
  backend = backend;
  events = [];
}
