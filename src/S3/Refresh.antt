-- ===== src/S3/Refresh.antt =====
-- The refresh from the remote (crates/omnifuse-s3/src/session.rs, `refresh_remote` to
-- `local_changed_from_base`).
pub mod Deferred
pub mod Protected
pub mod Diff
use omni_fuse.Prelude.{
  Bool, true, false, ◌&&◌, not, List, [], ◌∷◌, ◌++◌, map, Option, none, some, Eq, ◌==◌, list_eq,
  nat_eq, ok, err, if◌then◌else◌, is_empty, arith, keep,
}
use omni_fuse.Prelude.Map.{lookup, keys, contains_key}
use omni_fuse.FilePath.{FilePath, join, components}
use omni_fuse.Core.TextMerge.{
  TextMergeDecision, upload_local, upload_merged, accept_remote, already_synced,
}
use omni_fuse.Core.Backend.{RemoteRefresh, RemoteRefreshResult, RemoteDeferReason, RemoteApplyMode}
use omni_fuse.S3.Path.{Key}
use omni_fuse.S3.Error.{S3Error, s3}
use omni_fuse.S3.Manifest.{Bytes, ObjectState, S3Manifest, same_generation}
use omni_fuse.S3.State.{Env, S3Session, M, ◌>>=◌, ◌>>◌, pure, on_disk, ask_disk, try_disk}
use omni_fuse.S3.Session.{
  update_manifest, save_base, load_base, remove_base, save_synced_state, read_object_cached,
  local_path_exists, parent,
}
use omni_fuse.S3.Init.{remote_entries}
use omni_fuse.S3.Put.{bytes_or_empty, merge_decision}

pub data RemoteChange : Type 0 where
  modified : (object_path : Key) → RemoteChange
  deleted : (object_path : Key) → RemoteChange

pub data ApplyDecision : Type 0 where
  write_remote : FilePath → Key → (bytes : Bytes) → ObjectState → ApplyDecision
  write_merged : FilePath → Key → (merged base_bytes : Bytes) → ObjectState → ApplyDecision
  refresh_state : FilePath → Key → ObjectState → ApplyDecision
  delete_local : FilePath → Key → ApplyDecision

pub data ChangeDecision : Type 0 where
  apply : ApplyDecision → ChangeDecision
  conflict : FilePath → ChangeDecision

-- `PathBuf::from(object_path)`
unfoldable pub local_path_of : RemoteChange → FilePath
local_path_of (modified key) = components key
local_path_of (deleted key) = components key

abbrev pub same_as_base : Option ObjectState → ObjectState → Bool
same_as_base none state = false
same_as_base (some base) state = same_generation base state

unfoldable pub modified_entries : S3Manifest → S3Manifest → List RemoteChange
modified_entries manifest [] = []
modified_entries manifest ((key, state) ∷ remote) =
    let rest = modified_entries manifest remote in
    if same_as_base (lookup key manifest) state then rest else modified key ∷ rest

unfoldable pub deleted_entries : List Key → S3Manifest → List RemoteChange
deleted_entries [] remote = []
deleted_entries (key ∷ manifest_keys) remote =
    let rest = deleted_entries manifest_keys remote in
    if contains_key key remote then rest else deleted key ∷ rest

unfoldable pub diff_remote : S3Manifest → S3Manifest → List RemoteChange
unfolding modified_entries deleted_entries
diff_remote manifest remote =
    modified_entries manifest remote ++ deleted_entries (keys manifest) remote

-- The `match` on the decision of the merge.
unfoldable pub change_decision :
    FilePath → Key → (local remote : Bytes) → ObjectState → TextMergeDecision → ChangeDecision
change_decision rel key local remote state upload_local = apply (refresh_state rel key state)
change_decision rel key local remote state (upload_merged merged) =
    apply (write_merged rel key merged remote state)
change_decision rel key local remote state (accept_remote bytes) =
    apply (write_remote rel key bytes state)
change_decision rel key local remote state already_synced = apply (refresh_state rel key state)
change_decision rel key local remote state TextMergeDecision.conflict = conflict rel

module _ {E : Env} where
  unfoldable pub local_changed_from_base : Key → FilePath → S3Session E → Bool
  local_changed_from_base key local_path s = elim (load_base key s) [
    | none ↦ true
    | some base ↦ elim (E.files.read local_path s.disk) [
      | ok local ↦ not (local == base)
      | err _ ↦ true
    ]
  ]

  -- `local_path_exists(path)? && local_changed_from_base(path)`
  unfoldable pub exists_and_changed : Key → FilePath → M E Bool
  unfolding local_changed_from_base
  exists_and_changed key local_path = do
    there ← local_path_exists local_path
    λ s. (ok (there && local_changed_from_base key local_path s), s)

  unfoldable pub merge_change : Key → FilePath → Bytes → ObjectState → M E ChangeDecision
  unfolding change_decision
  merge_change key local_path remote_bytes state = do
    local_bytes ← ask_disk (E.files.read local_path)
    λ s. (
      ok (
          change_decision (components key) key local_bytes remote_bytes state
            (merge_decision E.merge (bytes_or_empty (load_base key s)) local_bytes remote_bytes)),
      s,
    )

  unfoldable pub classify_modified : Key → Option ObjectState → M E ChangeDecision
  unfolding exists_and_changed merge_change
  classify_modified key none s = (err (s3 (S3Error.conflict (components key))), s)
  classify_modified key (some state) s =
      let local_path = join s.local_dir (components key) in
      (do
        remote_bytes ← read_object_cached key state.etag
        changed ← exists_and_changed key local_path
        if changed
            then merge_change key local_path remote_bytes state
            else pure (apply (write_remote (components key) key remote_bytes state)))
        s

  unfoldable pub classify_remote_change : RemoteChange → S3Manifest → M E ChangeDecision
  unfolding classify_modified exists_and_changed
  classify_remote_change (modified key) remote s = classify_modified key (lookup key remote) s
  classify_remote_change (deleted key) remote s =
      (do
        changed ← exists_and_changed key (join s.local_dir (components key))
        pure (
            if changed
            then conflict (components key)
            else apply (delete_local (components key) key)))
        s

  -- The loop that sorts the changes into decisions and conflicts.
  unfoldable pub classify_each :
      List RemoteChange → S3Manifest → M E (List ApplyDecision × List FilePath)
  unfolding classify_remote_change
  classify_each [] remote = pure ([], [])
  classify_each (change ∷ changes) remote = do
    decision ← classify_remote_change change remote
    (decisions, conflicts) ← classify_each changes remote
    pure elim decision [
      | apply d ↦ (d ∷ decisions, conflicts)
      | conflict path ↦ (decisions, path ∷ conflicts)
    ]

  unfoldable pub write_local : FilePath → Bytes → M E (Unit {0})
  write_local rel bytes s =
      (do
        on_disk (E.files.create_dir_all (parent (join s.local_dir rel)))
        on_disk (E.files.write (join s.local_dir rel) bytes))
        s

  unfoldable pub apply_decision : ApplyDecision → M E (Unit {0})
  unfolding write_local
  apply_decision (write_remote rel key bytes state) s =
      (do write_local rel bytes; save_synced_state key state bytes) s
  apply_decision (write_merged rel key merged base_bytes state) s =
      (do write_local rel merged; save_base key base_bytes; update_manifest key (some state)) s
  apply_decision (refresh_state rel key state) s = update_manifest key (some state) s
  apply_decision (delete_local rel key) s =
      (do
        try_disk (E.files.remove_file (join s.local_dir rel))
        update_manifest key none
        remove_base key)
        s

  -- The decisions are applied in order, and the paths are listed by kind.
  unfoldable pub apply_each : List ApplyDecision → M E (List FilePath × List FilePath)
  unfolding apply_decision
  apply_each [] = pure ([], [])
  apply_each (decision ∷ decisions) = do
    apply_decision decision
    (changed, removed) ← apply_each decisions
    pure elim decision [
      | write_remote rel _ _ _ ↦ (rel ∷ changed, removed)
      | write_merged rel _ _ _ _ ↦ (rel ∷ changed, removed)
      | refresh_state rel _ _ ↦ (rel ∷ changed, removed)
      | delete_local rel _ ↦ (changed, rel ∷ removed)
    ]

  unfoldable pub apply_remote_changes : List RemoteChange → S3Manifest → M E RemoteRefreshResult
  unfolding classify_each apply_each
  apply_remote_changes changes remote = do
    (decisions, conflicts) ← classify_each changes remote
    if is_empty conflicts
        then (do
          (changed, removed) ← apply_each decisions
          pure (RemoteRefreshResult.applied changed removed))
        else pure (RemoteRefreshResult.deferred conflicts RemoteDeferReason.conflict)

  -- What happens once the changes are known.
  unfoldable pub refresh_changes :
      RemoteRefresh → List RemoteChange → S3Manifest → M E RemoteRefreshResult
  unfolding apply_remote_changes local_path_of
  refresh_changes request changes remote =
      let affected = map local_path_of changes in
      let guarded = keep request.protected_paths affected in
      if is_empty changes
      then pure RemoteRefreshResult.unchanged
      else if not (is_empty guarded)
      then pure (RemoteRefreshResult.deferred guarded RemoteDeferReason.protected_local_change)
      else elim (request.mode) [
        | RemoteApplyMode.detect_only ↦
            pure (RemoteRefreshResult.deferred affected RemoteDeferReason.detect_only)
        | RemoteApplyMode.apply_safe ↦ apply_remote_changes changes remote
      ]

  unfoldable pub refresh_remote : RemoteRefresh → M E RemoteRefreshResult
  unfolding refresh_changes diff_remote
  refresh_remote request = do
    remote ← remote_entries
    λ s. refresh_changes request (diff_remote s.manifest remote) remote s
