-- ===== src/S3/Refresh/Protected.antt =====
-- The paths that an applied refresh lists (crates/omnifuse-s3/src/session.rs, `refresh_remote`,
-- `apply_remote_changes`).
use omni_fuse.Prelude.{
  Bool, List, [], ◌∷◌, map, Option, none, some, list_eq, nat_eq, ok, ◌≡◌, refl, arith, keep, inl,
  inr, Fallible-cases,
}
use omni_fuse.Prelude.Map.{lookup}
use omni_fuse.FilePath.{FilePath, components}
use omni_fuse.Core.TextMerge.{
  TextMergeDecision, upload_local, upload_merged, accept_remote, already_synced,
}
use omni_fuse.Core.Backend.{RemoteRefresh, RemoteRefreshResult}
use omni_fuse.S3.Path.{Key}
use omni_fuse.S3.Manifest.{Bytes, ObjectState, S3Manifest}
use omni_fuse.S3.State.{Env, S3Session}
use omni_fuse.S3.Init.{remote_entries}
use omni_fuse.S3.Refresh.{
  RemoteChange, modified, deleted, ApplyDecision, ChangeDecision, write_remote, write_merged,
  refresh_state, delete_local, apply, conflict, local_path_of, diff_remote, change_decision,
  merge_change, classify_modified, classify_remote_change, classify_each, apply_decision,
  apply_each, apply_remote_changes, refresh_changes, refresh_remote,
}

-- The local path of a decision.
abbrev rel_of : ApplyDecision → FilePath
rel_of (write_remote rel _ _ _) = rel
rel_of (write_merged rel _ _ _ _) = rel
rel_of (refresh_state rel _ _) = rel
rel_of (delete_local rel _) = rel

-- The local path that a decision or a conflict names.
abbrev decided_path : ChangeDecision → FilePath
decided_path (apply d) = rel_of d
decided_path (conflict rel) = rel

change_decision-decided_path :
    (rel : FilePath) (key : Key) (local remote : Bytes) (state : ObjectState)
    (d : TextMergeDecision)
    → decided_path (change_decision rel key local remote state d) ≡ rel
unfolding change_decision
change_decision-decided_path rel key local remote state upload_local = refl
change_decision-decided_path rel key local remote state (upload_merged text) = refl
change_decision-decided_path rel key local remote state (accept_remote text) = refl
change_decision-decided_path rel key local remote state already_synced = refl
change_decision-decided_path rel key local remote state TextMergeDecision.conflict = refl

module _ {E : Env} where
  merge_change-decided_path :
      (key : Key) (path : FilePath) (bytes : Bytes) (state : ObjectState) (s : S3Session E)
      (d : ChangeDecision)
      → (merge_change key path bytes state s).0 ≡ ok d
      → decided_path d ≡ components key
  unfolding merge_change
  merge_change-decided_path key path bytes state s d h = grind (arith, change_decision-decided_path)

  classify_modified-decided_path :
      (key : Key) (state : Option ObjectState) (s : S3Session E) (d : ChangeDecision)
      → (classify_modified key state s).0 ≡ ok d
      → decided_path d ≡ components key
  unfolding classify_modified
  classify_modified-decided_path key none s d h = ground arith
  classify_modified-decided_path key (some state) s d h = grind (arith, merge_change-decided_path)

  classify_remote_change-decided_path :
      (change : RemoteChange) (remote : S3Manifest) (s : S3Session E) (d : ChangeDecision)
      → (classify_remote_change change remote s).0 ≡ ok d
      → decided_path d ≡ local_path_of change
  unfolding classify_remote_change local_path_of
  classify_remote_change-decided_path (modified key) remote s d h =
      classify_modified-decided_path key (lookup key remote) s d h
  classify_remote_change-decided_path (deleted key) remote s d h = ground arith

  -- Without conflicts, the decisions are those of the changes, in order.
  classify_each-rel_of :
      (changes : List RemoteChange) (remote : S3Manifest) (s : S3Session E)
      (decisions : List ApplyDecision)
      → (classify_each changes remote s).0 ≡ ok (decisions, [])
      → map rel_of decisions ≡ map local_path_of changes
  unfolding classify_each
  classify_each-rel_of [] remote s decisions h = ground arith
  classify_each-rel_of (change ∷ changes) remote s decisions h =
      let s' = (classify_remote_change change remote s).1 in
      elim (Fallible-cases (classify_remote_change change remote s).0) [
        | inl (e, failed) ↦ ground (arith, failed)
        | inr (d, decided) ↦ elim (Fallible-cases (classify_each changes remote s').0) [
          | inl (e, failed) ↦ ground (arith, decided, failed)
          | inr (rest, worked) ↦ ground (
            arith,
            decided,
            worked,
            classify_remote_change-decided_path change remote s d,
            classify_each-rel_of changes remote s' rest.0,
          )
        ]
      ]

  apply_each-keep :
      (guarded : FilePath → Bool) (decisions : List ApplyDecision) (s : S3Session E)
      (changed removed : List FilePath)
      → (apply_each decisions s).0 ≡ ok (changed, removed)
      → keep guarded (map rel_of decisions) ≡ []
      → (keep guarded changed ≡ []) × (keep guarded removed ≡ [])
  unfolding apply_each
  apply_each-keep guarded [] s changed removed h unguarded = ground arith
  apply_each-keep guarded (decision ∷ decisions) s changed removed h unguarded =
      let s' = (apply_decision decision s).1 in
      elim (Fallible-cases (apply_decision decision s).0) [
        | inl (e, failed) ↦ ground (arith, failed)
        | inr (done, applied) ↦ elim (Fallible-cases (apply_each decisions s').0) [
          | inl (e, failed) ↦ ground (arith, applied, failed)
          | inr (rest, worked) ↦
              ground (arith, applied, worked, apply_each-keep guarded decisions s' rest.0 rest.1)
        ]
      ]

  apply_remote_changes-keep :
      (guarded : FilePath → Bool) (changes : List RemoteChange) (remote : S3Manifest)
      (s : S3Session E) (changed removed : List FilePath)
      → (apply_remote_changes changes remote s).0 ≡ ok (RemoteRefreshResult.applied changed removed)
      → keep guarded (map local_path_of changes) ≡ []
      → (keep guarded changed ≡ []) × (keep guarded removed ≡ [])
  unfolding apply_remote_changes
  apply_remote_changes-keep guarded changes remote s changed removed h unguarded =
      let s' = (classify_each changes remote s).1 in
      elim (Fallible-cases (classify_each changes remote s).0) [
        | inl (e, failed) ↦ ground (arith, failed)
        | inr ((decisions, []), worked) ↦ ground (
          arith,
          worked,
          classify_each-rel_of changes remote s decisions worked,
          apply_each-keep guarded decisions s' changed removed,
        )
        | inr ((decisions, path ∷ paths), worked) ↦ ground (arith, worked)
      ]

  refresh_changes-keep :
      (request : RemoteRefresh) (changes : List RemoteChange) (remote : S3Manifest)
      (s : S3Session E) (changed removed : List FilePath)
      → (refresh_changes request changes remote s).0
        ≡ ok (RemoteRefreshResult.applied changed removed)
      → (keep request.protected_paths changed ≡ []) × (keep request.protected_paths removed ≡ [])
  unfolding refresh_changes
  refresh_changes-keep request changes remote s changed removed h =
      ground
        (arith, apply_remote_changes-keep request.protected_paths changes remote s changed removed)

  -- A refresh that is applied lists only paths that are not protected, both among the changed and
  -- the deleted ones.
  pub refresh_remote_applied :
      (request : RemoteRefresh) (s : S3Session E) (changed removed : List FilePath)
      → (refresh_remote request s).0 ≡ ok (RemoteRefreshResult.applied changed removed)
      → (keep request.protected_paths changed ≡ []) × (keep request.protected_paths removed ≡ [])
  unfolding refresh_remote
  refresh_remote_applied request s changed removed h =
      let s' = (remote_entries s).1 in
      elim (Fallible-cases (remote_entries s).0) [
        | inl (e, failed) ↦ ground (arith, failed)
        | inr (remote, listed) ↦ ground (
          arith,
          listed,
          refresh_changes-keep request (diff_remote s'.manifest remote) remote s' changed removed,
        )
      ]
