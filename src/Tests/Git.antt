-- ===== src/Tests/Git.antt =====
-- The git backend at concrete data: a git whose pulls all conflict, and whose state is the number of
-- pushes that are still rejected.
use omni_fuse.Prelude.{
  ℕ, zero, suc, Bool, true, false, List, [], ◌∷◌, ◌++◌, Option, none, some, ◌≡◌, refl, Fallible, ok,
  err, length, list_eq, nat_eq, ◌↔◌, arith,
}
use omni_fuse.FilePath.{FilePath, Name, normal, component_eq}
use omni_fuse.Core.Backend.{RemoteRefresh, RemoteApplyMode, RemoteRefreshResult, RemoteDeferReason}
use omni_fuse.Git.Words.{conflict_word, rejected_word}
use omni_fuse.Git.Command.{
  Git, Command, add, commit_with, rev_parse, fetch_from, pull_rebase, rebase_abort, push_to,
  diff_unmerged, diff_names, status_porcelain, checkout, checkout_tracking, fetch_all,
  fetch_unshallow, Output,
}
use omni_fuse.Git.Engine.{Machine, GitEngine, MergeResult, pull}
use omni_fuse.Git.Engine.Aborted.{pull-conflict_files}
use omni_fuse.Git.Ops.{push_with_retry, auto_commit}
use omni_fuse.Git.Ops.Retries.{Pushed, push_with_retry_iff}
use omni_fuse.Git.Lifecycle.{GitSyncLifecycle, sync_local, refresh_remote_protected}
use omni_fuse.Git.Lifecycle.Delivery.{is_committed, sync_local-Pushed}
use omni_fuse.Git.Lifecycle.Detect.{IsKept, refresh_put_off}
use omni_fuse.Tests.Disk.{mount, a_full}

abbrev printing : List ℕ → Option Output
printing text = some (record { success = true; stdout = text; stderr = [] })

abbrev failing : List ℕ → Option Output
failing text = some (record { success = false; stdout = text; stderr = text })

abbrev pushing : ℕ → Option Output × ℕ
pushing zero = (printing [], 0)
pushing (suc n) = (failing rejected_word, n)

-- The local head is named by the four bytes of HEAD, the remote one by other bytes.
abbrev run_command : Command → ℕ → Option Output × ℕ
run_command (add files) n = (printing [], n)
run_command (commit_with message) n = (printing [], n)
run_command (rev_parse name) n = (printing name, n)
run_command (fetch_from remote branch) n = (printing [], n)
run_command (pull_rebase remote branch) n = (failing conflict_word, n)
run_command rebase_abort n = (printing [], n)
run_command (push_to remote branch) n = pushing n
run_command diff_unmerged n = (printing [], n)
run_command (diff_names from to) n = (printing (b'a' ∷ 10 ∷ []), n)
run_command status_porcelain n = (printing [], n)
run_command (checkout branch) n = (printing [], n)
run_command (checkout_tracking branch) n = (printing [], n)
run_command fetch_all n = (printing [], n)
run_command fetch_unshallow n = (printing [], n)

abbrev conflicting_git : Git
conflicting_git = record {
  State = ℕ;
  run = λ path command n. run_command command n;
  clone = λ command n. (printing [], n);
  exists = λ path n. true;
  create_dir_all = λ path n. (true, n);
  remove_dir_all = λ path n. (true, n);
  auto_message = λ files n. [];
}

abbrev engine : GitEngine
engine = record { repo_path = mount; branch = b'm' ∷ []; remote = b'o' ∷ [] }

abbrev lifecycle : GitSyncLifecycle
lifecycle = record { engine = engine; max_push_retries = 3 }

abbrev machine : Machine conflicting_git
machine = record { state = 0 }

push_with_retry_iff_example :
    (push_with_retry engine 3 machine ≡ (ok tt, machine)) ↔ Pushed engine 3 machine machine
push_with_retry_iff_example = push_with_retry_iff engine 3 machine machine

pull-conflict_files_example : ◌≡◌ {A = List FilePath} [] []
unfolding pull omni_fuse.Git.Engine.is_conflict_output omni_fuse.Git.Text.contains_text
    omni_fuse.Core.TextMerge.Utf8.from_utf8_lossy omni_fuse.Git.Text.has_prefix
    omni_fuse.Git.Engine.abort_rebase omni_fuse.Git.Engine.get_conflict_files
    omni_fuse.Git.Text.lines
pull-conflict_files_example =
    pull-conflict_files {g = conflicting_git} engine machine machine [] (λ s. refl) refl

sync_local-Pushed_example :
    (is_committed (auto_commit engine (a_full ∷ []) machine).0 ≡ true)
    × ((1 ≡ length (a_full ∷ []))
        × Pushed engine 3 (auto_commit engine (a_full ∷ []) machine).1 machine)
unfolding sync_local auto_commit omni_fuse.Git.Ops.commit_changes omni_fuse.Git.Engine.stage
    omni_fuse.Git.Engine.commit omni_fuse.Git.Engine.get_head_commit
    omni_fuse.Git.Lifecycle.push_dirty push_with_retry omni_fuse.Git.Ops.push_attempts
    omni_fuse.Git.Engine.push
sync_local-Pushed_example = sync_local-Pushed lifecycle (a_full ∷ []) 1 machine machine refl

abbrev detect : RemoteRefresh
detect = record { protected_paths = λ path. false; mode = RemoteApplyMode.detect_only }

abbrev seen : RemoteRefreshResult
seen = RemoteRefreshResult.deferred (a_full ∷ []) RemoteDeferReason.detect_only

inspection_keeps : IsKept conflicting_git (λ n. n)
inspection_keeps path (rev_parse name) n h = refl
inspection_keeps path (fetch_from remote branch) n h = refl
inspection_keeps path (diff_names from to) n h = refl
inspection_keeps path (add files) n h = refl
inspection_keeps path (commit_with message) n h = refl
inspection_keeps path (pull_rebase remote branch) n h = refl
inspection_keeps path rebase_abort n h = refl
inspection_keeps path (push_to remote branch) n h = absurd (ground arith)
inspection_keeps path diff_unmerged n h = refl
inspection_keeps path status_porcelain n h = refl
inspection_keeps path (checkout branch) n h = refl
inspection_keeps path (checkout_tracking branch) n h = refl
inspection_keeps path fetch_all n h = refl
inspection_keeps path fetch_unshallow n h = refl

refresh_put_off_example :
    (refresh_remote_protected lifecycle detect machine).1.state ≡ machine.state
unfolding refresh_remote_protected omni_fuse.Git.Lifecycle.changed_remote_files
    omni_fuse.Git.Ops.check_remote omni_fuse.Git.Engine.get_head_commit omni_fuse.Git.Engine.fetch
    omni_fuse.Git.Engine.get_remote_head omni_fuse.Prelude.list_beq omni_fuse.Git.Text.trim
    omni_fuse.Core.TextMerge.Utf8.from_utf8_lossy omni_fuse.Git.Lifecycle.diff_remote_files
    omni_fuse.Git.Lifecycle.diff_files_between omni_fuse.Git.Lifecycle.refresh_files
    omni_fuse.Git.Text.lines omni_fuse.FilePath.join omni_fuse.FilePath.components
    omni_fuse.FilePath.collect_segments omni_fuse.FilePath.split omni_fuse.FilePath.is_absolute
    omni_fuse.FilePath.segment_component omni_fuse.FilePath.segment_components
    omni_fuse.Git.Engine.abort_rebase omni_fuse.Git.Engine.get_conflict_files
    omni_fuse.Git.Engine.is_conflict_output pull omni_fuse.Git.Error.classify_git_error
    omni_fuse.Git.Lifecycle.fetch_and_pull omni_fuse.Git.Lifecycle.refresh_remote
    omni_fuse.Git.Text.contains_text omni_fuse.Git.Text.has_prefix omni_fuse.Git.Text.is_blank
    omni_fuse.Git.Text.lines_of omni_fuse.Git.Text.pieces omni_fuse.Git.Text.trim_end
    omni_fuse.Git.Text.trim_start omni_fuse.Git.Text.without_return omni_fuse.Prelude.option_beq
refresh_put_off_example =
    refresh_put_off (λ n. n) inspection_keeps lifecycle detect machine seen refl refl
