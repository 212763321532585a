-- ===== src/Git/Lifecycle/Delivery.antt =====
-- What a reported success means (crates/omnifuse-git/src/sync_lifecycle.rs, `sync_local`).
use omni_fuse.Prelude.{
  ℕ, Bool, true, List, ◌≡◌, inl, inr, arith, Fallible, ok, err, Fallible-cases, length, Bool-cases,
}
use omni_fuse.FilePath.{FilePath}
use omni_fuse.Git.Error.{AnyError, is_nothing_to_commit}
use omni_fuse.Git.Command.{Git}
use omni_fuse.Git.Engine.{Machine}
use omni_fuse.Git.Ops.{auto_commit, push_with_retry}
use omni_fuse.Git.Ops.Retries.{Pushed, push_with_retry_iff}
use omni_fuse.Git.Lifecycle.{GitSyncLifecycle, GitSync, push_error, push_dirty, sync_local}

-- Whether the files were committed, or there was nothing to commit.
abbrev pub is_committed : {A : Type 0} → Fallible AnyError A → Bool
is_committed (ok hash) = true
is_committed (err e) = is_nothing_to_commit e

module _ {g : Git} where
  push_dirty-Pushed :
      (lifecycle : GitSyncLifecycle) (dirty : List FilePath) (n : ℕ) (s final : Machine g)
      → push_dirty lifecycle dirty s ≡ (ok (GitSync.success n), final)
      → (n ≡ length dirty) × Pushed lifecycle.engine lifecycle.max_push_retries s final
  unfolding push_dirty push_error
  push_dirty-Pushed lifecycle dirty n s final h =
      elim (Fallible-cases (push_with_retry lifecycle.engine lifecycle.max_push_retries s).0) [
        | inl (e, failed) ↦ absurd (ground (arith, failed))
        | inr (done, worked) ↦ (
          ground (arith, worked),
          (push_with_retry_iff lifecycle.engine lifecycle.max_push_retries s final).0
              (ground (arith, worked)),
        )
      ]

  -- When a synchronization of the repository reports success, the files were committed or there was
  -- nothing to commit, every file given is counted, and from the state after the commit a push was
  -- accepted, or found no remote, after at most the configured number of rejected pushes.
  pub sync_local-Pushed :
      (lifecycle : GitSyncLifecycle) (dirty : List FilePath) (n : ℕ) (s final : Machine g)
      → sync_local lifecycle dirty s ≡ (ok (GitSync.success n), final)
      → (is_committed (auto_commit lifecycle.engine dirty s).0 ≡ true)
        × ((n ≡ length dirty)
            × Pushed lifecycle.engine lifecycle.max_push_retries
                (auto_commit lifecycle.engine dirty s).1
                final)
  unfolding sync_local
  sync_local-Pushed lifecycle dirty n s final h =
      let t = (auto_commit lifecycle.engine dirty s).1 in
      elim (Fallible-cases (auto_commit lifecycle.engine dirty s).0) [
        | inl (e, failed) ↦ elim (Bool-cases (is_nothing_to_commit e)) [
          | inl nothing ↦ (
            ground (arith, failed, nothing),
            push_dirty-Pushed lifecycle dirty n t final (ground (arith, failed, nothing)),
          )
          | inr broken ↦ absurd (ground (arith, failed, broken))
        ]
        | inr (hash, committed) ↦ (
          ground (arith, committed),
          push_dirty-Pushed lifecycle dirty n t final (ground (arith, committed)),
        )
      ]
