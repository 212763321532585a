-- ===== src/S3/Facade/Polls.antt =====
-- The polls of the sync engine over the S3 backend (crates/omnifuse-core/src/sync_engine.rs,
-- `poll_worker`; crates/omnifuse-s3/src/lib.rs).
use omni_fuse.Prelude.{
  ℕ, Bool, true, false, List, [], Option, some, ◌≡◌, refl, arith, Fallible, ok, err, contains, keep,
  contains-keep, list_eq,
}
use omni_fuse.FilePath.{FilePath, component_eq}
use omni_fuse.Core.Backend.{Backend, RemoteRefreshResult}
use omni_fuse.Core.DirtyIndex.{is_protected}
use omni_fuse.Core.SyncEngine.{
  Engine, Round, run_rounds, start, poll_request, poll_worker_round, note_slow_poll, finish_poll,
}
use omni_fuse.Core.SyncEngine.Protected.{run_rounds-is_protected}
use omni_fuse.S3.Path.{is_internal_path}
use omni_fuse.S3.State.{Env, S3Session}
use omni_fuse.S3.Refresh.{refresh_remote}
use omni_fuse.S3.Refresh.Protected.{refresh_remote_applied}
use omni_fuse.S3.Facade.{s3_backend, with_session}

not_kept :
    (guard : FilePath → Bool) (paths : List FilePath) (path : FilePath)
    → keep guard paths ≡ []
    → guard path ≡ true
    → contains paths path ≡ false
unfolding contains
not_kept guard paths path nothing guarded =
    let none_kept : contains (keep guard paths) path ≡ false = rw (nothing) refl in
    ground (arith, contains-keep guard paths path, none_kept)

backend-finish_poll :
    (B : Backend) (result : Fallible B.Error RemoteRefreshResult) (s : Engine B)
    → (finish_poll B result s).backend ≡ s.backend
unfolding finish_poll
backend-finish_poll B (ok RemoteRefreshResult.unchanged) s = refl
backend-finish_poll B (ok (RemoteRefreshResult.applied changed deleted)) s = ground arith
backend-finish_poll B (ok (RemoteRefreshResult.deferred affected reason)) s = refl
backend-finish_poll B (ok RemoteRefreshResult.offline) s = refl
backend-finish_poll B (err e) s = refl

backend-poll_worker_round :
    (B : Backend) (elapsed : ℕ) (s : Engine B)
    → (poll_worker_round B elapsed s).backend
      ≡ (B.refresh_remote (poll_request s.dirty_index) s.backend).1
unfolding poll_worker_round note_slow_poll
backend-poll_worker_round B elapsed s = grind (arith, backend-finish_poll)

polled :
    (E : Env) (elapsed : ℕ) (s : S3Session E) (engine : Engine (s3_backend E))
    → engine.backend ≡ some s
    → (poll_worker_round (s3_backend E) elapsed engine).backend
      ≡ some (refresh_remote (poll_request engine.dirty_index) s).1
unfolding with_session
polled E elapsed s engine attached =
    ground (arith, backend-poll_worker_round (s3_backend E) elapsed engine)

module _ (E : Env) (debounce_duration far_future : ℕ) (rounds : List Round)
    (session : Option (S3Session E)) where
  -- The engine over the S3 backend, after any rounds of its workers.
  abbrev pub engine_after : Engine (s3_backend E)
  engine_after =
      run_rounds (s3_backend E) debounce_duration far_future rounds
        (start (s3_backend E) session far_future)

  -- Whatever rounds the workers have run, if the refresh of an S3 bucket with the engine's own request
  -- applies remote changes, the next poll leaves the session in the state of this refresh, and it lists
  -- no file that waits to be synchronized, internal files aside, neither as changed nor as deleted.
  pub poll-keeps_waiting :
      (elapsed : ℕ) (path : FilePath) (s : S3Session E) (changed deleted : List FilePath)
      → is_internal_path path ≡ false
      → contains engine_after.dirty_set path ≡ true
      → engine_after.backend ≡ some s
      → (refresh_remote (poll_request engine_after.dirty_index) s).0
        ≡ ok (RemoteRefreshResult.applied changed deleted)
      → ((poll_worker_round (s3_backend E) elapsed engine_after).backend
          ≡ some (refresh_remote (poll_request engine_after.dirty_index) s).1)
        × (contains changed path ≡ false)
        × (contains deleted path ≡ false)
  unfolding poll_worker_round poll_request
  poll-keeps_waiting elapsed path s changed deleted external waiting attached applied =
      let guarded =
        run_rounds-is_protected (s3_backend E) debounce_duration far_future rounds session path
          (ground (arith, external)) waiting in
      let (no_changed, no_deleted) =
        refresh_remote_applied (poll_request engine_after.dirty_index) s changed deleted applied in
      let guard = is_protected engine_after.dirty_index in
      (
        polled E elapsed s engine_after attached,
        not_kept guard changed path no_changed guarded,
        not_kept guard deleted path no_deleted guarded,
      )
