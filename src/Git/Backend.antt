-- ===== src/Git/Backend.antt =====
-- The git backend (crates/omnifuse-git/src/lib.rs) and its tracking rules (tracking.rs). The matching of
-- `.gitignore` patterns is a parameter, `is_ignored`.
use omni_fuse.Prelude.{
  Bool, true, false, not, ◌||◌, List, [], ◌∷◌, Option, none, some, ◌==◌, list_eq, nat_eq,
  if◌then◌else◌, Fallible, ok, err,
}
use omni_fuse.FilePath.{FilePath, normal, is_absolute, join, component_eq}
use omni_fuse.Core.Backend.{Backend, InitResult, SyncResult, RemoteRefresh, RemoteRefreshResult}
use omni_fuse.S3.Error.{Code}
use omni_fuse.Git.Error.{AnyError, git, not_initialized, classify_git_error}
use omni_fuse.Git.Words.{dot_git}
use omni_fuse.Git.Command.{Git}
use omni_fuse.Git.Engine.{Machine, G, ◌>>=◌, pure}
use omni_fuse.Git.Lifecycle.{GitSyncLifecycle, GitSync, sync_local, refresh_remote_protected}
use omni_fuse.Git.Source.{GitConfig, open_lifecycle}

-- Whether a component is `.git`.
unfoldable pub contains_git_directory : FilePath → Bool
contains_git_directory [] = false
contains_git_directory (c ∷ path) = c == normal dot_git || contains_git_directory path

-- `GitTrackingRules::accepts`
unfoldable pub accepts : (repo_path : FilePath) → (is_ignored : FilePath → Bool) → FilePath → Bool
accepts repo_path is_ignored path =
    if contains_git_directory path
    then false
    else not (is_ignored (if is_absolute path then path else join repo_path path))

-- The lifecycle is there once `init` succeeded; a second one is not put in its place.
pub record GitBackend : Type 0 where
  pub config : GitConfig
  pub lifecycle : Option GitSyncLifecycle

abbrev pub sync_result : GitSync → SyncResult
sync_result (GitSync.success n) = SyncResult.success n
sync_result (GitSync.conflict files) = SyncResult.conflict 0 files
sync_result GitSync.offline = SyncResult.offline

abbrev or_else : Option GitSyncLifecycle → GitSyncLifecycle → GitSyncLifecycle
or_else none opened = opened
or_else (some lifecycle) opened = lifecycle

abbrev or_internal : Option Code → Code
or_internal none = Code.internal
or_internal (some code) = code

unfoldable pub classify_error : AnyError → Code
classify_error e = or_internal (classify_git_error e)

unfoldable pub should_track : (is_ignored : FilePath → Bool) → GitBackend → FilePath → Bool
should_track is_ignored backend path =
    if contains_git_directory path then false else elim backend.lifecycle [
      | none ↦ true
      | some lifecycle ↦ accepts lifecycle.engine.repo_path is_ignored path
    ]

abbrev opened :
    GitBackend
    → Fallible AnyError (GitSyncLifecycle × InitResult)
    → Fallible AnyError InitResult × GitBackend
opened backend (err e) = (err e, backend)
opened backend (ok (lifecycle, init)) =
    (ok init, record backend { lifecycle = some (or_else backend.lifecycle lifecycle) })

module _ {g : Git} where
  unfoldable pub init :
      (local_dir : FilePath)
      → GitBackend × Machine g
      → Fallible AnyError InitResult × (GitBackend × Machine g)
  init local_dir (backend, s) =
      let (result, t) = open_lifecycle backend.config local_dir s in
      let (answer, backend') = opened backend result in (answer, (backend', t))

  -- `self.lifecycle()?`
  abbrev pub with_lifecycle :
      {A : Type 0} → (GitSyncLifecycle → G g A) → Option GitSyncLifecycle → G g A
  with_lifecycle f none s = (err (git not_initialized), s)
  with_lifecycle f (some lifecycle) s = f lifecycle s

  unfoldable pub sync : GitBackend → List FilePath → G g SyncResult
  sync backend dirty =
      with_lifecycle
        (λ lifecycle. sync_local lifecycle dirty >>= λ result. pure (sync_result result))
        backend.lifecycle

  unfoldable pub refresh_remote : GitBackend → RemoteRefresh → G g RemoteRefreshResult
  refresh_remote backend request =
      with_lifecycle (λ lifecycle. refresh_remote_protected lifecycle request) backend.lifecycle

-- The methods that the engine calls, between two calls of `init`.
abbrev pub git_backend : (g : Git) → (is_ignored : FilePath → Bool) → GitBackend → Backend
git_backend g is_ignored backend = record {
  State = Machine g;
  Error = AnyError;
  Code = Code;
  sync = sync backend;
  refresh_remote = refresh_remote backend;
  should_track = should_track is_ignored backend;
  classify_error = classify_error;
}
