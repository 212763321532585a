-- ===== src/Git/Engine/Aborted.antt =====
-- The files that a conflict names (crates/omnifuse-git/src/engine.rs, `pull`).
use omni_fuse.Prelude.{List, [], Option, none, some, ◌≡◌, inl, inr, arith, ok, Option-cases}
use omni_fuse.FilePath.{FilePath}
use omni_fuse.Core.TextMerge.{Bytes}
use omni_fuse.Core.TextMerge.Utf8.{from_utf8_lossy}
use omni_fuse.Git.Text.{lines, pieces, lines_of}
use omni_fuse.Git.Command.{Git, Output, rebase_abort, diff_unmerged, pull_rebase}
use omni_fuse.Git.Engine.{
  Machine, GitEngine, MergeResult, to_lines, abort_rebase, get_conflict_files, pull,
  get_head_commit,
}

-- What git prints, or nothing.
abbrev pub printed : Option Output → Bytes
printed none = []
printed (some output) = output.stdout

-- After `git rebase --abort` no path of the repository is unmerged, as git documents it: the index is
-- the one from before the rebase.
abbrev pub AbortCleans : (g : Git) → FilePath → Type 0
AbortCleans g repo_path =
    (s : g.State)
    → printed (g.run repo_path diff_unmerged (g.run repo_path rebase_abort s).1).0 ≡ []

to_lines_empty :
    (repo_path : FilePath) (stdout : Bytes) → stdout ≡ [] → to_lines repo_path stdout ≡ []
unfolding lines pieces lines_of from_utf8_lossy
to_lines_empty repo_path stdout h = ground (arith, h)

module _ {g : Git} where
  abort_rebase-files :
      (engine : GitEngine) (s : Machine g)
      → AbortCleans g engine.repo_path
      → (abort_rebase engine s).0 ≡ ok (MergeResult.conflict [])
  unfolding abort_rebase get_conflict_files
  abort_rebase-files engine s cleans =
      let aborted = (g.run engine.repo_path rebase_abort s.state).1 in
      elim (Option-cases (g.run engine.repo_path diff_unmerged aborted).0) [
        | inl unstarted ↦ ground (arith, unstarted)
        | inr (output, printed) ↦
            ground (arith, printed, cleans s.state, to_lines_empty engine.repo_path output.stdout)
      ]

  -- A pull that hits a conflict names no file, if aborting the rebase leaves no path unmerged, because
  -- it asks for the unmerged files only after it aborted the rebase.
  pub pull-conflict_files :
      (engine : GitEngine) (s t : Machine g) (files : List FilePath)
      → AbortCleans g engine.repo_path
      → pull engine s ≡ (ok (MergeResult.conflict files), t)
      → files ≡ []
  unfolding pull get_head_commit
  pull-conflict_files engine s t files cleans h =
      let (ran, after) = g.run engine.repo_path (pull_rebase engine.remote engine.branch) s.state in
      elim (Option-cases ran) [
        | inl unstarted ↦ absurd (ground (arith, unstarted))
        | inr (output, answered) ↦
            ground (arith, answered, abort_rebase-files engine (record { state = after }) cleans)
      ]
