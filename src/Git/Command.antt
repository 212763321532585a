-- ===== src/Git/Command.antt =====
-- The program git as the crate calls it (crates/omnifuse-git/src/engine.rs, repo_source.rs,
-- sync_lifecycle.rs): its argument lists, its output, and the program itself as an interface.
use omni_fuse.Prelude.{ℕ, Bool, List, Option}
use omni_fuse.FilePath.{FilePath, Name}
use omni_fuse.Core.TextMerge.{Bytes}

-- The argument lists that the crate gives to git.
pub data Command : Type 0 where
  -- `add FILE...`
  add : List FilePath → Command
  -- `commit -m MESSAGE`
  commit_with : (message : Name) → Command
  -- `rev-parse NAME`
  rev_parse : Name → Command
  -- `fetch REMOTE BRANCH`
  fetch_from : (remote branch : Name) → Command
  -- `pull --rebase REMOTE BRANCH`
  pull_rebase : (remote branch : Name) → Command
  -- `rebase --abort`
  rebase_abort : Command
  -- `push REMOTE BRANCH`
  push_to : (remote branch : Name) → Command
  -- `diff --name-only --diff-filter=U`
  diff_unmerged : Command
  -- `diff --name-only FROM TO`
  diff_names : (from to : Name) → Command
  -- `status --porcelain`
  status_porcelain : Command
  -- `checkout BRANCH`
  checkout : (branch : Name) → Command
  -- `checkout -B BRANCH --track origin/BRANCH`
  checkout_tracking : (branch : Name) → Command
  -- `fetch --all`
  fetch_all : Command
  -- `fetch --unshallow`
  fetch_unshallow : Command

-- `clone`, which runs in no repository, with its source as a text or a path.
pub data CloneCommand : Type 0 where
  -- `clone --branch BRANCH PATH TARGET`
  clone_path : (branch : Name) → FilePath → FilePath → CloneCommand
  -- `clone --branch BRANCH --single-branch --depth 1 URL TARGET`
  clone_branch : (branch url : Name) → FilePath → CloneCommand
  -- `clone --single-branch --depth 1 URL TARGET`
  clone_default : (url : Name) → FilePath → CloneCommand

pub record Output : Type 0 where
  pub success : Bool
  pub stdout : Bytes
  pub stderr : Bytes

-- The program git and the directories it works on. A program that cannot be started has no output.
-- `auto_message` is the message of `auto_commit` for a number of files, with the local time.
pub record Git : Type 1 where
  pub State : Type 0
  pub run : FilePath → Command → State → Option Output × State
  pub clone : CloneCommand → State → Option Output × State
  pub exists : FilePath → State → Bool
  pub create_dir_all : FilePath → State → Bool × State
  pub remove_dir_all : FilePath → State → Bool × State
  pub auto_message : ℕ → State → Name
