-- ===== src/Git/Source.antt =====
-- Where a repository comes from (crates/omnifuse-git/src/repo_source.rs, and `open` and `prepare_repo` of
-- sync_lifecycle.rs). The directory that a remote would be cached in otherwise is left out: the mount
-- always names one.
use omni_fuse.Prelude.{
  ℕ, Bool, true, false, not, ◌||◌, ◌&&◌, List, [], ◌∷◌, ◌++◌, ◌==◌, list_eq, nat_eq, if◌then◌else◌,
  is_empty, Fallible, ok, err,
}
use omni_fuse.FilePath.{FilePath, Name, normal, starts_with, component_eq}
use omni_fuse.Core.TextMerge.Utf8.{from_utf8_lossy}
use omni_fuse.Core.Backend.{InitResult}
use omni_fuse.Git.Error.{AnyError, other}
use omni_fuse.Git.Url.{RepoSource, local_repo, remote_repo, parse}
use omni_fuse.Git.Text.{contains_text}
use omni_fuse.Git.Words.{dot_git}
use omni_fuse.Git.Command.{
  Git, CloneCommand, clone_path, clone_branch, clone_default, status_porcelain, checkout,
  checkout_tracking, fetch_all, fetch_unshallow, Output,
}
use omni_fuse.Git.Engine.{Machine, G, output_of, run_in, ◌>>=◌, ◌>>◌, pure, fail, new_engine}
use omni_fuse.Git.Ops.{
  StartupSyncResult, updated_from_remote, merge_created, conflicts, startup_sync,
}
use omni_fuse.Git.Lifecycle.{GitSyncLifecycle}

abbrev not_found_word : Name
not_found_word = b'n' ∷ b'o' ∷ b't' ∷ b' ' ∷ b'f' ∷ b'o' ∷ b'u' ∷ b'n' ∷ b'd' ∷ []

abbrev no_remote_branch : Name
no_remote_branch =
    b'C' ∷ b'o' ∷ b'u' ∷ b'l' ∷ b'd' ∷ b' ' ∷ b'n' ∷ b'o' ∷ b't' ∷ b' ' ∷ b'f' ∷ b'i' ∷ b'n' ∷ b'd'
    ∷ b' ' ∷ b'r' ∷ b'e' ∷ b'm' ∷ b'o' ∷ b't' ∷ b'e' ∷ b' ' ∷ b'b' ∷ b'r' ∷ b'a' ∷ b'n' ∷ b'c'
    ∷ b'h' ∷ []

abbrev merge_head : Name
merge_head = b'M' ∷ b'E' ∷ b'R' ∷ b'G' ∷ b'E' ∷ b'_' ∷ b'H' ∷ b'E' ∷ b'A' ∷ b'D' ∷ []

abbrev cherry_pick_head : Name
cherry_pick_head =
    b'C' ∷ b'H' ∷ b'E' ∷ b'R' ∷ b'R' ∷ b'Y' ∷ b'_' ∷ b'P' ∷ b'I' ∷ b'C' ∷ b'K' ∷ b'_' ∷ b'H' ∷ b'E'
    ∷ b'A' ∷ b'D' ∷ []

abbrev revert_head : Name
revert_head = b'R' ∷ b'E' ∷ b'V' ∷ b'E' ∷ b'R' ∷ b'T' ∷ b'_' ∷ b'H' ∷ b'E' ∷ b'A' ∷ b'D' ∷ []

abbrev rebase_merge : Name
rebase_merge =
    b'r' ∷ b'e' ∷ b'b' ∷ b'a' ∷ b's' ∷ b'e' ∷ b'-' ∷ b'm' ∷ b'e' ∷ b'r' ∷ b'g' ∷ b'e' ∷ []

abbrev rebase_apply : Name
rebase_apply =
    b'r' ∷ b'e' ∷ b'b' ∷ b'a' ∷ b's' ∷ b'e' ∷ b'-' ∷ b'a' ∷ b'p' ∷ b'p' ∷ b'l' ∷ b'y' ∷ []

abbrev bisect_log : Name
bisect_log = b'B' ∷ b'I' ∷ b'S' ∷ b'E' ∷ b'C' ∷ b'T' ∷ b'_' ∷ b'L' ∷ b'O' ∷ b'G' ∷ []

abbrev stale_files : List Name
stale_files =
    merge_head ∷ cherry_pick_head ∷ revert_head ∷ rebase_merge ∷ rebase_apply ∷ bisect_log ∷ []

pub record GitConfig : Type 0 where
  pub source : Name
  pub branch : Name
  pub max_push_retries : ℕ
  pub local_dir : FilePath

-- `map_startup_sync` and `map_init`
abbrev pub init_of : StartupSyncResult → InitResult
init_of StartupSyncResult.up_to_date = InitResult.up_to_date
init_of updated_from_remote = InitResult.updated
init_of merge_created = InitResult.updated
init_of (conflicts files) = InitResult.conflicts files
init_of StartupSyncResult.offline = InitResult.offline

abbrev git_dir : FilePath → FilePath
git_dir path = path ++ (normal dot_git ∷ [])

abbrev parent : FilePath → FilePath
parent [] = []
parent (c ∷ []) = []
parent (c ∷ d ∷ path) = c ∷ parent (d ∷ path)

abbrev is_clean_status : Fallible AnyError Output → Bool
is_clean_status (err e) = false
is_clean_status (ok output) = output.success && is_empty output.stdout

module _ {g : Git} where
  abbrev done : Bool × g.State → Fallible AnyError (Unit {0}) × Machine g
  done (worked, state) = (if worked then ok tt else err other, record { state = state })

  abbrev create_dir_all : FilePath → G g (Unit {0})
  create_dir_all path s = done (g.create_dir_all path s.state)

  abbrev remove_dir_all : FilePath → G g (Unit {0})
  remove_dir_all path s = done (g.remove_dir_all path s.state)

  abbrev run_clone : CloneCommand → G g Output
  run_clone command s =
      let (output, state) = g.clone command s.state in (output_of output, record { state = state })

  unfoldable pub is_in_progress : FilePath → List Name → Machine g → Bool
  is_in_progress path [] s = false
  is_in_progress path (name ∷ names) s =
      g.exists (git_dir path ++ (normal name ∷ [])) s.state || is_in_progress path names s

  -- `worktree_health`, without the reason, which is only logged.
  unfoldable pub worktree_health : FilePath → Machine g → Bool × Machine g
  worktree_health path s = elim (is_in_progress path stale_files s) [
    | true ↦ (false, s)
    | false ↦ let (status, t) = run_in path status_porcelain s in (is_clean_status status, t)
  ]

  unfoldable pub clone_local : FilePath → FilePath → (branch : Name) → G g (Unit {0})
  clone_local path target branch = do
    output ← run_clone (clone_path branch path target)
    if not output.success then fail other else pure tt

  abbrev clone_from_default : Name → FilePath → Output → G g (Unit {0})
  clone_from_default url target failed =
      if contains_text not_found_word (from_utf8_lossy failed.stderr)
        || contains_text no_remote_branch (from_utf8_lossy failed.stderr)
      then (do
        output ← run_clone (clone_default url target)
        if not output.success then fail other else pure tt)
      else fail other

  -- The full history, if it can be had.
  abbrev unshallow : FilePath → G g (Unit {0})
  unshallow target s = (ok tt, record { state = (g.run target fetch_unshallow s.state).1 })

  unfoldable pub clone_repo : Name → FilePath → (branch : Name) → G g (Unit {0})
  clone_repo url target branch = do
    (if is_empty target then pure tt else create_dir_all (parent target))
    output ← run_clone (clone_branch branch url target)
    (if not output.success then clone_from_default url target output else pure tt)
    unshallow target

  unfoldable pub checkout_branch : FilePath → (branch : Name) → G g (Unit {0})
  checkout_branch target branch = do
    output ← run_in target (checkout branch)
    if output.success then pure tt else (do
      track ← run_in target (checkout_tracking branch)
      if track.success then pure tt else fail other)

  -- A fetch that fails is only logged.
  unfoldable pub fetch_updates : FilePath → G g (Unit {0})
  fetch_updates path = do output ← run_in path fetch_all; pure tt

  unfoldable pub ensure_local_repo : FilePath → G g FilePath
  ensure_local_repo path s =
      if not (g.exists path s.state)
      then (err other, s)
      else if not (g.exists (git_dir path) s.state)
      then (err other, s)
      else (ok path, s)

  -- A worktree that is there and healthy is reused, another one is removed.
  abbrev reuse_remote : Name → FilePath → (branch : Name) → Bool → G g (Unit {0})
  reuse_remote url target branch true = do fetch_updates target; checkout_branch target branch
  reuse_remote url target branch false = do remove_dir_all target; clone_repo url target branch

  unfoldable pub ensure_remote_repo : Name → FilePath → (branch : Name) → G g FilePath
  ensure_remote_repo url target branch s =
      (do
        (if g.exists (git_dir target) s.state
            then (λ t.
                let (healthy, u) = worktree_health target t in
                reuse_remote url target branch healthy u)
            else clone_repo url target branch)
        pure target)
        s

  abbrev reuse_local : FilePath → FilePath → (branch : Name) → Bool → G g (Unit {0})
  reuse_local path target branch true = pure tt
  reuse_local path target branch false = do
    remove_dir_all target
    create_dir_all target
    clone_local path target branch

  -- The clone of a local repository outside it.
  abbrev prepare_clone : FilePath → (branch : Name) → FilePath → G g FilePath
  prepare_clone path branch target = do
    create_dir_all target
    (λ s.
        if g.exists (git_dir target) s.state
        then (let (healthy, u) = worktree_health target s in
            reuse_local path target branch healthy u)
        else clone_local path target branch s)
    pure target

  unfoldable pub prepare_repo : RepoSource → (branch : Name) → FilePath → G g FilePath
  prepare_repo (local_repo path) branch target =
      if starts_with path target || target == path
      then ensure_local_repo path
      else prepare_clone path branch target
  prepare_repo (remote_repo url) branch target = ensure_remote_repo url target branch

  abbrev start : GitConfig → FilePath → G g (GitSyncLifecycle × InitResult)
  start config repo_path = do
    engine ← new_engine repo_path config.branch
    λ s.
        let (init, t) = startup_sync engine s in
        (
          ok (record { engine = engine; max_push_retries = config.max_push_retries }, init_of init),
          t,
        )

  -- `GitSyncLifecycle::open`
  unfoldable pub open_lifecycle :
      GitConfig → (local_dir : FilePath) → G g (GitSyncLifecycle × InitResult)
  open_lifecycle config local_dir = do
    repo_path ←
        prepare_repo (parse config.source) config.branch
          (if is_empty config.local_dir then local_dir else config.local_dir)
    start config repo_path
