-- ===== src/Tests/Polls.antt =====
-- A poll of the engine over the S3 backend at concrete data.
use omni_fuse.Prelude.{
  ℕ, Bool, true, false, List, [], ◌∷◌, Option, none, some, ◌≡◌, refl, ok, contains, list_eq,
}
use omni_fuse.Prelude.Map.{lookup, insert, erase}
use omni_fuse.FilePath.{FilePath, normal, component_eq}
use omni_fuse.Core.Backend.{RemoteRefreshResult}
use omni_fuse.Core.DirtyIndex.{is_protected}
use omni_fuse.Core.SyncEngine.{
  Round, dirty_round, received, file_modified, run_rounds, poll_request, poll_worker_round,
}
use omni_fuse.S3.Path.{is_internal_path}
use omni_fuse.S3.Manifest.{same_generation}
use omni_fuse.S3.Refresh.{refresh_remote, diff_remote}
use omni_fuse.S3.Facade.{s3_backend}
use omni_fuse.S3.Facade.Polls.{engine_after, poll-keeps_waiting}
use omni_fuse.Tests.Disk.{a_rel}
use omni_fuse.Tests.S3.{env, session, b_key, new_object}

abbrev rounds : List Round
rounds = dirty_round (received (file_modified a_rel) 9) 7 ∷ []

a_external : is_internal_path a_rel ≡ false
unfolding is_internal_path omni_fuse.FilePath.component_beq omni_fuse.Prelude.list_beq
a_external = refl

a_waits :
    contains (engine_after env 500 1000000 rounds (some (session new_object))).dirty_set a_rel
    ≡ true
unfolding run_rounds contains omni_fuse.Core.SyncEngine.run_round
    omni_fuse.Core.SyncEngine.dirty_worker_round omni_fuse.Core.SyncEngine.start
    omni_fuse.Core.SyncEngine.sync_if_triggered omni_fuse.Core.SyncEngine.note_dirty
    omni_fuse.Prelude.Set.insert omni_fuse.Prelude.list_beq omni_fuse.FilePath.component_beq
a_waits = refl

poll_applied :
    (refresh_remote
      (poll_request (engine_after env 500 1000000 rounds (some (session new_object))).dirty_index)
      (session new_object)).0
    ≡ ok (RemoteRefreshResult.applied ((normal b_key ∷ []) ∷ []) [])
unfolding refresh_remote omni_fuse.S3.Init.remote_entries omni_fuse.S3.Path.trim_end_matches
    omni_fuse.S3.Path.from_remote omni_fuse.S3.Path.validate_components
    omni_fuse.FilePath.is_absolute omni_fuse.FilePath.components omni_fuse.S3.Path.trim_matches
    omni_fuse.FilePath.collect_segments omni_fuse.FilePath.split
    omni_fuse.FilePath.segment_component omni_fuse.Prelude.list_beq omni_fuse.S3.Path.validate_each
    omni_fuse.FilePath.segment_components insert lookup omni_fuse.S3.Path.join_parts
    omni_fuse.FilePath.component_beq omni_fuse.Core.TextMerge.Utf8.decode_utf8_text
    omni_fuse.Core.TextMerge.decide_text_merge omni_fuse.Core.TextMerge.has_marker
    omni_fuse.Core.TextMerge.merge_result omni_fuse.Core.TextMerge.three_way_text_merge
    omni_fuse.FilePath.join erase omni_fuse.Prelude.Map.keys omni_fuse.S3.Init.collect_entries
    same_generation omni_fuse.S3.Path.to_local_path omni_fuse.S3.Path.trim_start_matches
    omni_fuse.S3.Refresh.apply_decision omni_fuse.S3.Refresh.apply_each
    omni_fuse.S3.Refresh.apply_remote_changes omni_fuse.S3.Refresh.change_decision
    omni_fuse.S3.Refresh.classify_each omni_fuse.S3.Refresh.classify_modified
    omni_fuse.S3.Refresh.classify_remote_change omni_fuse.S3.Refresh.deleted_entries diff_remote
    omni_fuse.S3.Refresh.exists_and_changed omni_fuse.S3.Refresh.local_changed_from_base
    omni_fuse.S3.Refresh.local_path_of omni_fuse.S3.Refresh.merge_change
    omni_fuse.S3.Refresh.modified_entries omni_fuse.S3.Refresh.refresh_changes
    omni_fuse.S3.Refresh.write_local omni_fuse.S3.Session.base_path
    omni_fuse.S3.Session.fetch_and_store omni_fuse.S3.Session.load_base
    omni_fuse.S3.Session.local_path_exists omni_fuse.S3.Session.object_state
    omni_fuse.S3.Session.parent omni_fuse.S3.Session.read_object_cached
    omni_fuse.S3.Session.remove_base omni_fuse.S3.Session.save_base
    omni_fuse.S3.Session.save_manifest omni_fuse.S3.Session.save_synced_state
    omni_fuse.S3.Session.update_manifest omni_fuse.S3.Put.merge_decision is_protected poll_request
    run_rounds omni_fuse.Core.SyncEngine.run_round omni_fuse.Core.SyncEngine.dirty_worker_round
    omni_fuse.Core.SyncEngine.note_dirty omni_fuse.Core.SyncEngine.start
    omni_fuse.Core.DirtyIndex.mark_dirty omni_fuse.FilePath.starts_with omni_fuse.Prelude.Set.insert
    is_internal_path contains omni_fuse.Core.SyncEngine.sync_if_triggered
    omni_fuse.Core.TextMerge.Utf8.from_utf8_lossy
poll_applied = refl

attached :
    (engine_after env 500 1000000 rounds (some (session new_object))).backend
    ≡ some (session new_object)
unfolding run_rounds omni_fuse.Core.SyncEngine.run_round
    omni_fuse.Core.SyncEngine.dirty_worker_round omni_fuse.Core.SyncEngine.start
    omni_fuse.Core.SyncEngine.sync_if_triggered omni_fuse.Core.SyncEngine.note_dirty
attached = refl

poll-keeps_waiting_example :
    ((poll_worker_round
        (s3_backend env)
        3
        (engine_after env 500 1000000 rounds (some (session new_object)))).backend
      ≡ some
          (refresh_remote
            (poll_request
              (engine_after env 500 1000000 rounds (some (session new_object))).dirty_index)
            (session new_object)).1)
    × (contains ((normal b_key ∷ []) ∷ []) a_rel ≡ false)
    × (contains [] a_rel ≡ false)
poll-keeps_waiting_example =
    poll-keeps_waiting env 500 1000000 rounds (some (session new_object)) 3 a_rel
      (session new_object) ((normal b_key ∷ []) ∷ []) [] a_external a_waits attached poll_applied
