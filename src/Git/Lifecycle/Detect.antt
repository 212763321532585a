-- ===== src/Git/Lifecycle/Detect.antt =====
-- What a refresh leaves alone (crates/omnifuse-git/src/sync_lifecycle.rs, `refresh_remote_protected`).
use omni_fuse.Prelude.{
  Bool, true, false, List, none, some, ◌≡◌, refl, inl, inr, arith, ok, Option-cases, Fallible-cases,
  list_eq, nat_eq,
}
use omni_fuse.FilePath.{FilePath, Name, component_eq}
use omni_fuse.Core.Backend.{RemoteDeferReason, RemoteRefresh, RemoteRefreshResult}
use omni_fuse.Git.Command.{Git, Command, rev_parse, fetch_from, diff_names}
use omni_fuse.Git.Engine.{Machine, GitEngine, fetch, get_head_commit, get_remote_head}
use omni_fuse.Git.Ops.{check_remote}
use omni_fuse.Git.Lifecycle.{
  GitSyncLifecycle, diff_files_between, diff_remote_files, changed_remote_files, refresh_files,
  refresh_remote_protected,
}

-- The commands that leave the working tree and the local branches alone, as git documents them.
abbrev pub is_inspection : Command → Bool
is_inspection (rev_parse name) = true
is_inspection (fetch_from remote branch) = true
is_inspection (diff_names from to) = true
is_inspection _ = false

-- A part of the state that these commands keep, such as the working tree.
abbrev pub IsKept : {V : Type 0} → (g : Git) → (g.State → V) → Type 0
IsKept g view =
    (path : FilePath) (command : Command) (s : g.State)
    → is_inspection command ≡ true
    → view (g.run path command s).1 ≡ view s

-- A refresh that was not applied, nor stopped by a conflict.
abbrev pub is_put_off : RemoteRefreshResult → Bool
is_put_off (RemoteRefreshResult.applied changed deleted) = false
is_put_off (RemoteRefreshResult.deferred affected RemoteDeferReason.conflict) = false
is_put_off (RemoteRefreshResult.deferred affected RemoteDeferReason.protected_local_change) = true
is_put_off (RemoteRefreshResult.deferred affected RemoteDeferReason.detect_only) = true
is_put_off RemoteRefreshResult.unchanged = false
is_put_off RemoteRefreshResult.offline = false

module _ {g : Git} {V : Type 0} (view : g.State → V) (kept : IsKept g view) where
  get_head_commit-view :
      (engine : GitEngine) (s : Machine g) → view (get_head_commit engine s).1.state ≡ view s.state
  unfolding get_head_commit
  get_head_commit-view engine s = grind (arith, kept)

  get_remote_head-view :
      (engine : GitEngine) (s : Machine g) → view (get_remote_head engine s).1.state ≡ view s.state
  unfolding get_remote_head
  get_remote_head-view engine s = grind (arith, kept)

  diff_files_between-view :
      (lifecycle : GitSyncLifecycle) (from to : Name) (s : Machine g)
      → view (diff_files_between lifecycle from to s).1.state ≡ view s.state
  unfolding diff_files_between
  diff_files_between-view lifecycle from to s = grind (arith, kept)

  fetch-view : (engine : GitEngine) (s : Machine g) → view (fetch engine s).1.state ≡ view s.state
  unfolding fetch
  fetch-view engine s =
      let t = (get_remote_head engine s).1 in
      let ran = g.run engine.repo_path (fetch_from engine.remote engine.branch) t.state in
      let u : Machine g = record { state = ran.1 } in
      let before = get_remote_head-view engine s in
      let after = get_remote_head-view engine u in
      let between = kept engine.repo_path (fetch_from engine.remote engine.branch) t.state refl in
      elim (Fallible-cases (get_remote_head engine s).0) [
        | inl (e, failed) ↦ ground (arith, failed, before)
        | inr (head, got) ↦ elim (Option-cases ran.0) [
          | inl unstarted ↦ ground (arith, got, unstarted, before, between)
          | inr (output, printed) ↦ ground (arith, got, printed, before, between, after)
        ]
      ]

  check_remote-view :
      (engine : GitEngine) (s : Machine g) → view (check_remote engine s).1.state ≡ view s.state
  unfolding check_remote
  check_remote-view engine s =
      let t = (get_head_commit engine s).1 in
      let u = (fetch engine t).1 in
      ground
        (arith, get_head_commit-view engine s, fetch-view engine t, get_remote_head-view engine u)

  diff_remote_files-view :
      (lifecycle : GitSyncLifecycle) (s : Machine g)
      → view (diff_remote_files lifecycle s).1.state ≡ view s.state
  unfolding diff_remote_files
  diff_remote_files-view lifecycle s =
      let engine = lifecycle.engine in
      let t = (get_head_commit engine s).1 in
      let u = (get_remote_head engine t).1 in
      let before = get_head_commit-view engine s in
      let between = get_remote_head-view engine t in
      elim (Fallible-cases (get_head_commit engine s).0) [
        | inl (e, failed) ↦ ground (arith, failed, before)
        | inr (local_head, got) ↦ elim (Fallible-cases (get_remote_head engine t).0) [
          | inl (e, failed) ↦ ground (arith, got, failed, before, between)
          | inr (none, asked) ↦ ground (arith, got, asked, before, between)
          | inr (some remote_head, asked) ↦ ground (
            arith,
            got,
            asked,
            before,
            between,
            diff_files_between-view lifecycle local_head remote_head u,
          )
        ]
      ]

  changed_remote_files-view :
      (lifecycle : GitSyncLifecycle) (s : Machine g)
      → view (changed_remote_files lifecycle s).1.state ≡ view s.state
  unfolding changed_remote_files
  changed_remote_files-view lifecycle s =
      let t = (check_remote lifecycle.engine s).1 in
      ground (arith, check_remote-view lifecycle.engine s, diff_remote_files-view lifecycle t)

  refresh_files-view :
      (lifecycle : GitSyncLifecycle) (request : RemoteRefresh) (files : List FilePath)
      (s : Machine g) (result : RemoteRefreshResult)
      → (refresh_files lifecycle request files s).0 ≡ ok result
      → is_put_off result ≡ true
      → view (refresh_files lifecycle request files s).1.state ≡ view s.state
  unfolding refresh_files
  refresh_files-view lifecycle request files s result h put_off = ground arith

  -- A refresh of the repository that is put off, because a changed path is protected or because the
  -- request only detects, keeps everything that the commands rev-parse, fetch and diff keep.
  pub refresh_put_off :
      (lifecycle : GitSyncLifecycle) (request : RemoteRefresh) (s : Machine g)
      (result : RemoteRefreshResult)
      → (refresh_remote_protected lifecycle request s).0 ≡ ok result
      → is_put_off result ≡ true
      → view (refresh_remote_protected lifecycle request s).1.state ≡ view s.state
  unfolding refresh_remote_protected
  refresh_put_off lifecycle request s result h put_off =
      let t = (changed_remote_files lifecycle s).1 in
      let before = changed_remote_files-view lifecycle s in
      elim (Fallible-cases (changed_remote_files lifecycle s).0) [
        | inl (e, failed) ↦ ground (arith, failed, before)
        | inr (files, changed) ↦
            ground (arith, changed, before, refresh_files-view lifecycle request files t result)
      ]
