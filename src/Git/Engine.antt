-- ===== src/Git/Engine.antt =====
-- The git engine (crates/omnifuse-git/src/engine.rs). A text of an error that is not one of git is left out.
pub mod Aborted
use omni_fuse.Prelude.{
  ℕ, Bool, not, ◌||◌, ◌&&◌, List, [], ◌∷◌, ◌++◌, Option, none, some, map, ◌==◌, list_eq, nat_eq,
  option_eq, if◌then◌else◌, is_empty, Fallible, ok, err,
}
use omni_fuse.FilePath.{FilePath, Name, normal, components, join, strip_prefix, component_eq}
use omni_fuse.Core.TextMerge.{Bytes}
use omni_fuse.Core.TextMerge.Utf8.{from_utf8_lossy}
use omni_fuse.Git.Command.{
  Command, Git, Output, add, commit_with, diff_unmerged, fetch_from, pull_rebase, push_to,
  rebase_abort, rev_parse, status_porcelain,
}
use omni_fuse.Git.Error.{
  AnyError, git, other, Operation, git_add, git_commit, git_rev_parse, git_fetch, git_pull,
  git_push, git_status, invalid_repository, nothing_to_commit, network_unavailable, command_failed,
}
use omni_fuse.Git.Text.{contains_text, trim, lines}
use omni_fuse.Git.Words
use omni_fuse.Git.Words.{dot_git, head, origin}

pub data FetchResult : Type 0 where
  up_to_date : FetchResult
  updated : (commits : ℕ) → FetchResult

pub data PushResult : Type 0 where
  success rejected no_remote : PushResult

pub data MergeResult : Type 0 where
  up_to_date : MergeResult
  fast_forward : MergeResult
  merged : (commit : Name) → MergeResult
  conflict : (files : List FilePath) → MergeResult

pub record GitEngine : Type 0 where
  pub repo_path : FilePath
  pub branch : Name
  pub remote : Name

-- The state of git, the repositories and the remote.
pub record Machine (g : Git) : Type 0 where
  pub state : g.State

abbrev pub G : Git → Type 0 → Type 0
G g A = Machine g → Fallible AnyError A × Machine g

-- `output().await?`
abbrev pub output_of : Option Output → Fallible AnyError Output
output_of none = err other
output_of (some output) = ok output

abbrev pub command_error : Operation → Output → AnyError
command_error op output = git (command_failed op (from_utf8_lossy output.stderr))

-- A path relative to the repository where it can be.
abbrev or_itself : FilePath → Option FilePath → FilePath
or_itself path none = path
or_itself path (some rel) = rel

abbrev pub to_lines : FilePath → Bytes → List FilePath
to_lines repo_path stdout =
    map (λ line. join repo_path (components line)) (lines (from_utf8_lossy stdout))

abbrev pub files_or_none : Fallible AnyError (List FilePath) → List FilePath
files_or_none (ok files) = files
files_or_none (err e) = []

abbrev commit_error : Output → AnyError
commit_error output =
    if contains_text Words.nothing_to_commit (from_utf8_lossy output.stdout)
      || contains_text Words.nothing_to_commit (from_utf8_lossy output.stderr)
    then git nothing_to_commit
    else command_error git_commit output

abbrev fetch_error : Output → AnyError
fetch_error output =
    let stderr = from_utf8_lossy output.stderr in
    if contains_text Words.could_not_resolve stderr || contains_text Words.connection_refused stderr
    then git (network_unavailable (trim stderr))
    else command_error git_fetch output

unfoldable pub is_conflict_output : Output → Bool
is_conflict_output output =
    let stdout = from_utf8_lossy output.stdout in
    let stderr = from_utf8_lossy output.stderr in
    contains_text Words.conflict_word stderr
    || (contains_text Words.automatic_merge_failed stderr
        || (contains_text Words.conflict_word stdout || contains_text Words.could_not_apply stderr))

module _ {g : Git} where
  infixl 5 ◌>>=◌ ◌>>◌
  abbrev pub ◌>>=◌ : {A B : Type 0} → G g A → (A → G g B) → G g B
  ◌>>=◌ m f s = let (result, t) = m s in elim result [ err e ↦ (err e, t) | ok a ↦ f a t ]

  abbrev pub ◌>>◌ : {A B : Type 0} → G g A → G g B → G g B
  m >> k = m >>= λ _. k

  abbrev pub pure : {A : Type 0} → A → G g A
  pure a s = (ok a, s)

  abbrev pub fail : {A : Type 0} → AnyError → G g A
  fail e s = (err e, s)

  abbrev pub run_in : FilePath → Command → G g Output
  run_in repo_path command s =
      let (output, state) = g.run repo_path command s.state in
      (output_of output, record { state = state })

  -- `GitEngine::new`
  unfoldable pub new_engine : FilePath → (branch : Name) → G g GitEngine
  new_engine repo_path branch s =
      if not (g.exists (repo_path ++ (normal dot_git ∷ [])) s.state)
      then (err (git (invalid_repository repo_path)), s)
      else (ok (record { repo_path = repo_path; branch = branch; remote = origin }), s)

  unfoldable pub stage : GitEngine → List FilePath → G g (Unit {0})
  stage engine files = do
    output ←
        run_in engine.repo_path
          (add (map (λ file. or_itself file (strip_prefix engine.repo_path file)) files))
    if not output.success then fail (command_error git_add output) else pure tt

  unfoldable pub get_head_commit : GitEngine → G g Name
  get_head_commit engine = do
    output ← run_in engine.repo_path (rev_parse head)
    if not output.success
        then fail (command_error git_rev_parse output)
        else pure (trim (from_utf8_lossy output.stdout))

  unfoldable pub get_remote_head : GitEngine → G g (Option Name)
  get_remote_head engine = do
    output ← run_in engine.repo_path (rev_parse (engine.remote ++ (b'/' ∷ engine.branch)))
    if not output.success then pure none else pure (some (trim (from_utf8_lossy output.stdout)))

  unfoldable pub commit : GitEngine → (message : Name) → G g Name
  commit engine message = do
    output ← run_in engine.repo_path (commit_with message)
    if not output.success then fail (commit_error output) else get_head_commit engine

  unfoldable pub fetch : GitEngine → G g FetchResult
  fetch engine = do
    before ← get_remote_head engine
    output ← run_in engine.repo_path (fetch_from engine.remote engine.branch)
    if not output.success then fail (fetch_error output) else (do
      after ← get_remote_head engine
      pure (if before == after then FetchResult.up_to_date else updated 1))

  unfoldable pub get_conflict_files : GitEngine → G g (List FilePath)
  get_conflict_files engine = do
    output ← run_in engine.repo_path diff_unmerged
    if not output.success then pure [] else pure (to_lines engine.repo_path output.stdout)

  -- The rebase is aborted, whatever comes of it, and then the files in conflict are asked for.
  unfoldable pub abort_rebase : GitEngine → G g MergeResult
  abort_rebase engine s =
      let aborted : Machine g = record {
        state = (g.run engine.repo_path rebase_abort s.state).1;
      } in
      let (files, t) = get_conflict_files engine aborted in
      (ok (MergeResult.conflict (files_or_none files)), t)

  -- `pull` once git succeeded.
  abbrev pulled : GitEngine → Bytes → G g MergeResult
  pulled engine stdout =
      if contains_text Words.already_up_to_date stdout
        || (contains_text Words.current_branch stdout && contains_text Words.is_up_to_date stdout)
      then pure MergeResult.up_to_date
      else if contains_text Words.fast_forward_word stdout
      then pure fast_forward
      else do commit ← get_head_commit engine; pure (merged commit)

  unfoldable pub pull : GitEngine → G g MergeResult
  pull engine = do
    output ← run_in engine.repo_path (pull_rebase engine.remote engine.branch)
    if not output.success
        then (if is_conflict_output output
            then abort_rebase engine
            else fail (command_error git_pull output))
        else pulled engine (from_utf8_lossy output.stdout)

  abbrev push_failed : Output → G g PushResult
  push_failed output =
      let stderr = from_utf8_lossy output.stderr in
      if contains_text Words.rejected_word stderr || contains_text Words.non_fast_forward stderr
      then pure rejected
      else if contains_text Words.no_push_destination stderr
      then pure no_remote
      else fail (command_error git_push output)

  unfoldable pub push : GitEngine → G g PushResult
  push engine = do
    output ← run_in engine.repo_path (push_to engine.remote engine.branch)
    if not output.success then push_failed output else pure PushResult.success

  unfoldable pub has_changes : GitEngine → G g Bool
  has_changes engine = do
    output ← run_in engine.repo_path status_porcelain
    if not output.success
        then fail (command_error git_status output)
        else pure (not (is_empty output.stdout))
