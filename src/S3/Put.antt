-- ===== src/S3/Put.antt =====
-- Conditional writes, and the merge of a file with a changed object
-- (crates/omnifuse-s3/src/session.rs, `merge_remote_drift` to `put_update_and_record`).
use omni_fuse.Prelude.{
  [], Option, none, some, ◌==◌, list_eq, nat_eq, Fallible, ok, err, if◌then◌else◌,
}
use omni_fuse.FilePath.{FilePath, join}
use omni_fuse.Core.TextMerge.{
  Merge, TextMergeDecision, decide_text_merge, upload_local, upload_merged, accept_remote,
  already_synced,
}
use omni_fuse.Core.TextMerge.Utf8.{decode_utf8_text}
use omni_fuse.S3.Path.{Key}
use omni_fuse.S3.Error.{ErrorKind, S3Error, s3, opendal, precondition_failed}
use omni_fuse.S3.Manifest.{Bytes, ObjectState, required_etag}
use omni_fuse.S3.State.{
  ObjectMetadata, Env, M, ◌>>=◌, ◌>>◌, fail, lift_s3, on_disk, ask_remote, try_disk,
}
use omni_fuse.S3.Session.{
  object_state, update_manifest, load_base, remove_base, save_synced_state, read_object_cached,
  cache_after_upload,
}

unfoldable pub precondition_or_opendal : FilePath → ErrorKind → S3Error
precondition_or_opendal local_rel ErrorKind.condition_not_match = precondition_failed local_rel
precondition_or_opendal local_rel kind = opendal kind

-- `unwrap_or_default`
abbrev pub bytes_or_empty : Option Bytes → Bytes
bytes_or_empty none = []
bytes_or_empty (some bytes) = bytes

-- The decision, where the three contents are texts.
unfoldable pub merge_decision :
    (Bytes → Bytes → Bytes → Merge) → Bytes → Bytes → Bytes → TextMergeDecision
merge_decision merge base local remote = elim (decode_utf8_text base) [
  | none ↦ TextMergeDecision.conflict
  | some base ↦ elim (decode_utf8_text local) [
    | none ↦ TextMergeDecision.conflict
    | some local ↦ elim (decode_utf8_text remote) [
      | none ↦ TextMergeDecision.conflict
      | some remote ↦ decide_text_merge merge base local remote
    ]
  ]
]

module _ {E : Env} where
  -- A conditional write.
  abbrev on_remote :
      FilePath
      → (E.operator.State → Fallible ErrorKind ObjectMetadata × E.operator.State)
      → M E ObjectMetadata
  on_remote local_rel f s =
      let (result, remote) = f s.remote in
      elim result [
        | ok meta ↦ (ok meta, record s { remote = remote })
        | err kind ↦
            (err (s3 (precondition_or_opendal local_rel kind)), record s { remote = remote })
      ]

  unfoldable pub put_create_and_record : FilePath → Key → Bytes → M E (Unit {0})
  unfolding precondition_or_opendal
  put_create_and_record local_rel key bytes = do
    meta ← on_remote local_rel (E.operator.write_if_not_exists key bytes)
    let state = object_state key meta
    cache_after_upload key state.etag bytes
    save_synced_state key state bytes

  unfoldable pub put_update_and_record : FilePath → Key → Bytes → Bytes → M E (Unit {0})
  unfolding precondition_or_opendal
  put_update_and_record local_rel key etag bytes = do
    meta ← on_remote local_rel (E.operator.write_if_match key bytes etag)
    let state = object_state key meta
    cache_after_upload key state.etag bytes
    save_synced_state key state bytes

  abbrev pub conflict_at : FilePath → M E (Unit {0})
  conflict_at local_rel = fail (s3 (S3Error.conflict local_rel))

  -- The `match` on the decision of the merge.
  unfoldable pub act_on_merge :
      FilePath → Key → Bytes → ObjectState → TextMergeDecision → M E (Unit {0})
  unfolding put_update_and_record
  act_on_merge local_rel key local_bytes remote_state upload_local s =
      (do
        etag ← lift_s3 (required_etag remote_state)
        put_update_and_record local_rel key etag local_bytes)
        s
  act_on_merge local_rel key local_bytes remote_state (upload_merged merged) s =
      (do
        on_disk (E.files.write (join s.local_dir local_rel) merged)
        etag ← lift_s3 (required_etag remote_state)
        put_update_and_record local_rel key etag merged)
        s
  act_on_merge local_rel key local_bytes remote_state (accept_remote bytes) s =
      (do
        on_disk (E.files.write (join s.local_dir local_rel) bytes)
        save_synced_state key remote_state bytes)
        s
  act_on_merge local_rel key local_bytes remote_state already_synced s =
      save_synced_state key remote_state local_bytes s
  act_on_merge local_rel key local_bytes remote_state TextMergeDecision.conflict s =
      conflict_at local_rel s

  unfoldable pub merge_remote_drift : FilePath → Key → Bytes → ObjectState → M E (Unit {0})
  unfolding act_on_merge merge_decision
  merge_remote_drift local_rel key local_bytes remote_state s =
      let base_bytes = bytes_or_empty (load_base key s) in
      (do
        remote_bytes ← read_object_cached key remote_state.etag
        act_on_merge local_rel key local_bytes remote_state
            (merge_decision E.merge base_bytes local_bytes remote_bytes))
        s

  unfoldable pub handle_remote_delete_during_upload : FilePath → Key → Bytes → M E (Unit {0})
  handle_remote_delete_during_upload local_rel key local_bytes s =
      if bytes_or_empty (load_base key s) == local_bytes
      then (do
        try_disk (E.files.remove_file (join s.local_dir local_rel))
        update_manifest key none
        remove_base key)
          s
      else conflict_at local_rel s

  -- An object that the manifest does not know is taken over where it has the same content.
  unfoldable pub adopt_remote : FilePath → Key → Bytes → ObjectState → M E (Unit {0})
  adopt_remote local_rel key local_bytes remote_state = do
    remote_bytes ← read_object_cached key remote_state.etag
    if remote_bytes == local_bytes
        then (do
          meta ← ask_remote (E.operator.stat key)
          save_synced_state key (object_state key meta) local_bytes)
        else conflict_at local_rel
