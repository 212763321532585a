-- ===== src/Git/Error.antt =====
-- The errors of the git backend and their classes (crates/omnifuse-git/src/error.rs).
use omni_fuse.Prelude.{ℕ, Bool, true, false, List, Option, none, some}
use omni_fuse.FilePath.{FilePath, Name}
use omni_fuse.S3.Error.{Code}

-- The program that failed, `op` of `CommandFailed`.
pub data Operation : Type 0 where
  git_add git_commit git_rev_parse git_fetch git_pull git_push git_status : Operation

pub data GitError : Type 0 where
  not_initialized : GitError
  invalid_repository : FilePath → GitError
  nothing_to_commit : GitError
  no_files_to_commit : GitError
  network_unavailable : Name → GitError
  conflict : List FilePath → GitError
  push_rejected : (retries : ℕ) → GitError
  command_failed : Operation → Name → GitError

-- `anyhow::Error` by what `downcast_ref` finds in it.
pub data AnyError : Type 0 where
  git : GitError → AnyError
  other : AnyError

unfoldable pub classify_git_error : AnyError → Option Code
classify_git_error (git (network_unavailable message)) = some Code.offline
classify_git_error (git (conflict files)) = some Code.conflict
classify_git_error (git (push_rejected retries)) = some Code.conflict
classify_git_error (git (invalid_repository path)) = some Code.invalid_config
classify_git_error (git (command_failed op stderr)) = some Code.backend_command_failed
classify_git_error (git not_initialized) = some Code.internal
classify_git_error (git nothing_to_commit) = none
classify_git_error (git no_files_to_commit) = none
classify_git_error other = none

unfoldable pub is_nothing_to_commit : AnyError → Bool
is_nothing_to_commit (git nothing_to_commit) = true
is_nothing_to_commit _ = false
