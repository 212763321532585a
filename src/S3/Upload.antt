-- ===== src/S3/Upload.antt =====
-- Uploads of the S3 session (crates/omnifuse-s3/src/session.rs, `sync_dirty` to
-- `upload_or_merge_once`, and `delete_remote`).
pub mod Remote
pub mod Conditional
pub mod Errors
pub mod Outcome
pub mod Counts
pub mod Retries
use omni_fuse.Prelude.{
  ℕ, zero, suc, ◌+◌, Bool, true, false, ◌&&◌, List, [], ◌∷◌, ◌++◌, Option, none, some, Eq, list_eq,
  nat_eq, ok, err, if◌then◌else◌, is_empty, ltb, arith,
}
use omni_fuse.FilePath.{FilePath, join}
use omni_fuse.Core.Backend.{SyncResult}
use omni_fuse.S3.Path.{Key, from_local}
use omni_fuse.S3.Error.{AnyError, Code, s3, precondition_failed, classify_s3_error}
use omni_fuse.S3.Manifest.{Bytes, ObjectState, required_etag, same_generation, state_beq}
use omni_fuse.S3.State.{Env, M, ◌>>=◌, ◌>>◌, pure, lift_path, lift_s3, ask_disk, change_remote}
use omni_fuse.S3.Session.{
  update_manifest, manifest_entry, remove_base, stat_object, local_path_exists, is_local_dir,
}
use omni_fuse.S3.Put.{
  put_create_and_record, put_update_and_record, conflict_at, merge_remote_drift,
  handle_remote_delete_during_upload, adopt_remote,
}

abbrev pub max_put_retries : ℕ
max_put_retries = 3

abbrev pub is_precondition_failed : AnyError → Bool
is_precondition_failed (s3 (precondition_failed _)) = true
is_precondition_failed _ = false

-- `remote_state.as_ref() == manifest_state.as_ref()`
abbrev pub states_equal : Option ObjectState → Option ObjectState → Bool
states_equal none none = true
states_equal (some a) (some b) = state_beq a b
states_equal none (some b) = false
states_equal (some a) none = false

abbrev sync_result : ℕ → List FilePath → SyncResult
sync_result synced conflicts =
    if is_empty conflicts then SyncResult.success synced else SyncResult.conflict synced conflicts

module _ {E : Env} where
  unfoldable pub upload_by_state :
      FilePath → Key → Bytes → Option ObjectState → Option ObjectState → M E (Unit {0})
  unfolding merge_remote_drift handle_remote_delete_during_upload adopt_remote put_create_and_record
      put_update_and_record
  upload_by_state local_rel key local_bytes (some base) (some current) =
      if same_generation base current
      then (do
        etag ← lift_s3 (required_etag base)
        put_update_and_record local_rel key etag local_bytes)
      else merge_remote_drift local_rel key local_bytes current
  upload_by_state local_rel key local_bytes (some base) none =
      handle_remote_delete_during_upload local_rel key local_bytes
  upload_by_state local_rel key local_bytes none (some current) =
      adopt_remote local_rel key local_bytes current
  upload_by_state local_rel key local_bytes none none =
      put_create_and_record local_rel key local_bytes

  unfoldable pub upload_or_merge_once : FilePath → Key → FilePath → M E (Unit {0})
  unfolding upload_by_state
  upload_or_merge_once local_rel key local_path s =
      (do
        local_bytes ← ask_disk (E.files.read local_path)
        remote_state ← stat_object key
        upload_by_state local_rel key local_bytes (manifest_entry key s) remote_state)
        s

  -- The attempts left of the loop of `upload_or_merge`.
  unfoldable pub upload_attempts : ℕ → FilePath → Key → FilePath → M E (Unit {0})
  unfolding upload_or_merge_once
  upload_attempts zero local_rel key local_path s = conflict_at local_rel s
  upload_attempts (suc n) local_rel key local_path s =
      let (result, s') = upload_or_merge_once local_rel key local_path s in
      let retry = upload_attempts n local_rel key local_path s' in
      elim result [
        | ok tt ↦ (ok tt, s')
        | err e ↦ if is_precondition_failed e && ltb 0 n then retry else (err e, s')
      ]

  unfoldable pub upload_or_merge : FilePath → Key → FilePath → M E (Unit {0})
  unfolding upload_attempts
  upload_or_merge = upload_attempts max_put_retries

  unfoldable pub delete_remote : FilePath → Key → M E (Unit {0})
  delete_remote local_rel key s = elim (manifest_entry key s) [
    | none ↦ (ok tt, s)
    | some base ↦
        (do
          remote_state ← stat_object key
          if states_equal remote_state (some base)
              then (do
                change_remote (E.operator.delete key)
                update_manifest key none
                remove_base key)
              else conflict_at local_rel)
          s
  ]

  -- Whether something was synchronized: a directory is skipped.
  unfoldable pub sync_one : FilePath → M E Bool
  unfolding upload_or_merge delete_remote
  sync_one path s =
      (do
        key ← lift_path (from_local path)
        let local_path = join s.local_dir path
        is_dir ← is_local_dir local_path
        if is_dir then pure false else (do
          there ← local_path_exists local_path
          if there then upload_or_merge path key local_path else delete_remote path key
          pure true))
        s

  -- The loop of `sync_dirty`, with its counters.
  unfoldable pub sync_each : List FilePath → ℕ → List FilePath → M E SyncResult
  unfolding sync_one
  sync_each [] synced conflicts s = (ok (sync_result synced conflicts), s)
  sync_each (path ∷ paths) synced conflicts s =
      let (result, s') = sync_one path s in
      elim result [
        | ok true ↦ sync_each paths (synced + 1) conflicts s'
        | ok false ↦ sync_each paths synced conflicts s'
        | err e ↦ elim (classify_s3_error e) [
          | Code.conflict ↦ sync_each paths synced (conflicts ++ (path ∷ [])) s'
          | Code.offline ↦ (ok SyncResult.offline, s')
          | _ ↦ (err e, s')
        ]
      ]

  unfoldable pub sync_dirty : List FilePath → M E SyncResult
  unfolding sync_each
  sync_dirty dirty_files = sync_each dirty_files 0 []
