-- ===== src/Git/Ops.antt =====
-- Operations on a repository (crates/omnifuse-git/src/ops.rs). The wait between two pushes is left out.
pub mod Retries
use omni_fuse.Prelude.{
  ℕ, zero, suc, Bool, not, List, [], ◌∷◌, Option, none, some, ◌==◌, list_eq, nat_eq, length,
  Fallible, ok, err,
}
use omni_fuse.FilePath.{FilePath, Name}
use omni_fuse.Git.Error.{AnyError, git, no_files_to_commit, conflict, push_rejected}
use omni_fuse.Git.Command.{Git}
use omni_fuse.Git.Engine.{
  Machine, G, GitEngine, FetchResult, updated, PushResult, rejected, no_remote, MergeResult,
  fast_forward, merged, ◌>>=◌, ◌>>◌, pure, fail, fetch, pull, push, stage, commit, get_head_commit,
  get_remote_head,
}

pub data StartupSyncResult : Type 0 where
  up_to_date : StartupSyncResult
  updated_from_remote : StartupSyncResult
  merge_created : StartupSyncResult
  conflicts : (files : List FilePath) → StartupSyncResult
  offline : StartupSyncResult

abbrev startup_of : Fallible AnyError MergeResult → StartupSyncResult
startup_of (ok MergeResult.up_to_date) = up_to_date
startup_of (ok fast_forward) = updated_from_remote
startup_of (ok (merged hash)) = merge_created
startup_of (ok (MergeResult.conflict files)) = conflicts files
startup_of (err e) = offline

abbrev pub differs_from : Name → Option Name → Bool
differs_from local_head none = Bool.false
differs_from local_head (some remote_head) = not (remote_head == local_head)

module _ {g : Git} where
  -- It fails in no case: an error of git counts as offline.
  unfoldable pub startup_sync : GitEngine → Machine g → StartupSyncResult × Machine g
  startup_sync engine s =
      let (fetched, t) = fetch engine s in
      elim fetched [
        | err e ↦ (offline, t)
        | ok FetchResult.up_to_date ↦ (up_to_date, t)
        | ok (updated commits) ↦ let (merge, u) = pull engine t in (startup_of merge, u)
      ]

  unfoldable pub commit_changes : GitEngine → List FilePath → (message : Name) → G g Name
  commit_changes engine [] message = fail (git no_files_to_commit)
  commit_changes engine (file ∷ files) message = do
    stage engine (file ∷ files)
    commit engine message

  unfoldable pub auto_commit : GitEngine → List FilePath → G g Name
  auto_commit engine files s = commit_changes engine files (g.auto_message (length files) s.state) s

  -- The loop of `push_with_retry`, by the retries left.
  unfoldable pub push_attempts : GitEngine → (max_retries left : ℕ) → G g (Unit {0})
  push_attempts engine max_retries zero s =
      let (pushed, t) = push engine s in
      elim pushed [
        | err e ↦ (err e, t)
        | ok PushResult.success ↦ (ok tt, t)
        | ok no_remote ↦ (ok tt, t)
        | ok rejected ↦ (err (git (push_rejected max_retries)), t)
      ]
  push_attempts engine max_retries (suc left) s =
      let (pushed, t) = push engine s in
      elim pushed [
        | err e ↦ (err e, t)
        | ok PushResult.success ↦ (ok tt, t)
        | ok no_remote ↦ (ok tt, t)
        | ok rejected ↦
            let (merge, u) = pull engine t in
            elim merge [
              | err e ↦ (err e, u)
              | ok (MergeResult.conflict files) ↦ (err (git (conflict files)), u)
              | ok MergeResult.up_to_date ↦ push_attempts engine max_retries left u
              | ok fast_forward ↦ push_attempts engine max_retries left u
              | ok (merged hash) ↦ push_attempts engine max_retries left u
            ]
      ]

  unfoldable pub push_with_retry : GitEngine → (max_retries : ℕ) → G g (Unit {0})
  push_with_retry engine max_retries = push_attempts engine max_retries max_retries

  unfoldable pub check_remote : GitEngine → G g Bool
  check_remote engine = do
    local_head ← get_head_commit engine
    fetch engine
    remote_head ← get_remote_head engine
    pure (differs_from local_head remote_head)
