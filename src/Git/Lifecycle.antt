-- ===== src/Git/Lifecycle.antt =====
-- The synchronization with a git remote (crates/omnifuse-git/src/sync_lifecycle.rs).
pub mod Delivery
pub mod Detect
use omni_fuse.Prelude.{
  ℕ, Bool, true, false, not, List, [], Option, none, some, ◌==◌, list_eq, nat_eq, if◌then◌else◌,
  is_empty, length, keep, Fallible, ok, err,
}
use omni_fuse.FilePath.{FilePath, Name, component_eq}
use omni_fuse.Core.Backend.{RemoteApplyMode, RemoteDeferReason, RemoteRefresh, RemoteRefreshResult}
use omni_fuse.S3.Error.{Code}
use omni_fuse.Git.Error.{AnyError, classify_git_error, is_nothing_to_commit}
use omni_fuse.Git.Command.{Git, diff_names}
use omni_fuse.Git.Engine.{
  G, GitEngine, MergeResult, fast_forward, merged, to_lines, run_in, ◌>>=◌, ◌>>◌, pure, fetch, pull,
  get_head_commit, get_remote_head,
}
use omni_fuse.Git.Ops.{auto_commit, push_with_retry, check_remote}

pub data GitSync : Type 0 where
  success : (synced_files : ℕ) → GitSync
  conflict : (files : List FilePath) → GitSync
  offline : GitSync

pub data GitRefresh : Type 0 where
  no_change : GitRefresh
  applied : (files : List FilePath) (merge : MergeResult) → GitRefresh
  conflict : (files : List FilePath) → GitRefresh
  offline : GitRefresh

-- `GitSyncLifecycle` without its tracking rules. The path of the repository is the engine's.
pub record GitSyncLifecycle : Type 0 where
  pub engine : GitEngine
  pub max_push_retries : ℕ

abbrev pub is_offline : AnyError → Bool
is_offline e = elim (classify_git_error e) [
  | none ↦ false
  | some code ↦ elim code [
    | Code.offline ↦ true
    | Code.timeout ↦ false
    | Code.auth_failed ↦ false
    | Code.permission_denied ↦ false
    | Code.not_found ↦ false
    | Code.conflict ↦ false
    | Code.rate_limited ↦ false
    | Code.invalid_config ↦ false
    | Code.invalid_input ↦ false
    | Code.fs_io ↦ false
    | Code.backend_command_failed ↦ false
    | Code.protocol_violation ↦ false
    | Code.internal ↦ false
  ]
]

-- What a failed push means for the dirty files.
unfoldable pub push_error : List FilePath → AnyError → Fallible AnyError GitSync
push_error dirty e = elim (classify_git_error e) [
  | none ↦ err e
  | some code ↦ elim code [
    | Code.conflict ↦ ok (GitSync.conflict dirty)
    | Code.offline ↦ ok GitSync.offline
    | Code.timeout ↦ err e
    | Code.auth_failed ↦ err e
    | Code.permission_denied ↦ err e
    | Code.not_found ↦ err e
    | Code.rate_limited ↦ err e
    | Code.invalid_config ↦ err e
    | Code.invalid_input ↦ err e
    | Code.fs_io ↦ err e
    | Code.backend_command_failed ↦ err e
    | Code.protocol_violation ↦ err e
    | Code.internal ↦ err e
  ]
]

abbrev pub pushed_as : List FilePath → Fallible AnyError (Unit {0}) → Fallible AnyError GitSync
pushed_as dirty (ok _) = ok (success (length dirty))
pushed_as dirty (err e) = push_error dirty e

-- `refresh_remote` after the merge.
abbrev pub refreshed : List FilePath → MergeResult → GitRefresh
refreshed files (MergeResult.conflict conflicts) = GitRefresh.conflict conflicts
refreshed files MergeResult.up_to_date = applied files MergeResult.up_to_date
refreshed files fast_forward = applied files fast_forward
refreshed files (merged hash) = applied files (merged hash)

abbrev pub refresh_result : GitRefresh → RemoteRefreshResult
refresh_result no_change = RemoteRefreshResult.unchanged
refresh_result (applied files merge) = RemoteRefreshResult.applied files []
refresh_result (GitRefresh.conflict files) =
    RemoteRefreshResult.deferred files RemoteDeferReason.conflict
refresh_result GitRefresh.offline = RemoteRefreshResult.offline

module _ {g : Git} where
  -- The push that follows a commit, also where there was nothing to commit.
  unfoldable pub push_dirty : GitSyncLifecycle → List FilePath → G g GitSync
  push_dirty lifecycle dirty s =
      let (pushed, t) = push_with_retry lifecycle.engine lifecycle.max_push_retries s in
      (pushed_as dirty pushed, t)

  unfoldable pub sync_local : GitSyncLifecycle → List FilePath → G g GitSync
  sync_local lifecycle dirty s =
      let (committed, t) = auto_commit lifecycle.engine dirty s in
      elim committed [
        | ok hash ↦ push_dirty lifecycle dirty t
        | err e ↦ if not (is_nothing_to_commit e) then (err e, t) else push_dirty lifecycle dirty t
      ]

  unfoldable pub diff_files_between : GitSyncLifecycle → (from to : Name) → G g (List FilePath)
  diff_files_between lifecycle from to = do
    output ← run_in lifecycle.engine.repo_path (diff_names from to)
    if not output.success then pure [] else pure (to_lines lifecycle.engine.repo_path output.stdout)

  -- `refresh_remote` once something was fetched.
  abbrev pub pull_changes : GitSyncLifecycle → Name → Option Name → G g GitRefresh
  pull_changes lifecycle local_head none = pure no_change
  pull_changes lifecycle local_head (some remote_head) =
      if local_head == remote_head then pure no_change else do
        files ← diff_files_between lifecycle local_head remote_head
        merge ← pull lifecycle.engine
        pure (refreshed files merge)

  -- `refresh_remote` once the local head is known.
  unfoldable pub fetch_and_pull : GitSyncLifecycle → Name → G g GitRefresh
  fetch_and_pull lifecycle local_head s =
      let (fetched, t) = fetch lifecycle.engine s in
      elim fetched [
        | err e ↦ (if is_offline e then ok GitRefresh.offline else err e, t)
        | ok result ↦
            (do
              remote_head ← get_remote_head lifecycle.engine
              pull_changes lifecycle local_head remote_head)
              t
      ]

  unfoldable pub refresh_remote : GitSyncLifecycle → G g GitRefresh
  refresh_remote lifecycle = do
    local_head ← get_head_commit lifecycle.engine
    fetch_and_pull lifecycle local_head

  abbrev pub diff_heads : GitSyncLifecycle → Name → Option Name → G g (List FilePath)
  diff_heads lifecycle local_head none = pure []
  diff_heads lifecycle local_head (some remote_head) =
      if local_head == remote_head
      then pure []
      else diff_files_between lifecycle local_head remote_head

  unfoldable pub diff_remote_files : GitSyncLifecycle → G g (List FilePath)
  diff_remote_files lifecycle = do
    local_head ← get_head_commit lifecycle.engine
    remote_head ← get_remote_head lifecycle.engine
    diff_heads lifecycle local_head remote_head

  unfoldable pub changed_remote_files : GitSyncLifecycle → G g (List FilePath)
  changed_remote_files lifecycle = do
    changed ← check_remote lifecycle.engine
    if not changed then pure [] else diff_remote_files lifecycle

  abbrev pub apply_refresh : GitSyncLifecycle → G g RemoteRefreshResult
  apply_refresh lifecycle = do refresh ← refresh_remote lifecycle; pure (refresh_result refresh)

  -- `refresh_remote_protected` once the changed files are known.
  unfoldable pub refresh_files :
      GitSyncLifecycle → RemoteRefresh → List FilePath → G g RemoteRefreshResult
  refresh_files lifecycle request files =
      let guarded = keep request.protected_paths files in
      if is_empty files
      then pure RemoteRefreshResult.unchanged
      else if not (is_empty guarded)
      then pure (RemoteRefreshResult.deferred guarded RemoteDeferReason.protected_local_change)
      else elim request.mode [
        | RemoteApplyMode.detect_only ↦
            pure (RemoteRefreshResult.deferred files RemoteDeferReason.detect_only)
        | RemoteApplyMode.apply_safe ↦ apply_refresh lifecycle
      ]

  unfoldable pub refresh_remote_protected :
      GitSyncLifecycle → RemoteRefresh → G g RemoteRefreshResult
  refresh_remote_protected lifecycle request s =
      let (changed, t) = changed_remote_files lifecycle s in
      elim changed [
        | err e ↦ (if is_offline e then ok RemoteRefreshResult.offline else err e, t)
        | ok files ↦ refresh_files lifecycle request files t
      ]
