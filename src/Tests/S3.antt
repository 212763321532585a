-- ===== src/Tests/S3.antt =====
-- The S3 session at concrete data: a remote in memory, whose ETags grow with every write.
use omni_fuse.Prelude.{
  ℕ, ◌+◌, Bool, true, false, List, [], ◌∷◌, ◌++◌, Option, none, some, Eq, ◌==◌, ◌≡◌, refl, arith,
  Fallible, ok, err, length, list_beq_iff, list_eq, nat_eq, if◌then◌else◌, keep,
}
use omni_fuse.Prelude.Map.{Map, lookup, insert, erase}
use omni_fuse.FilePath.{FilePath, normal, component_eq}
use omni_fuse.Core.Backend.{
  RemoteRefresh, RemoteApplyMode, RemoteRefreshResult, RemoteDeferReason, SyncResult,
}
use omni_fuse.S3.Path.{Key}
use omni_fuse.S3.Error.{ErrorKind}
use omni_fuse.S3.Manifest.{Bytes, S3Manifest, same_generation}
use omni_fuse.S3.State.{ObjectMetadata, Operator, ObjectCache, Env, S3Session}
use omni_fuse.S3.Upload.{upload_or_merge_once, sync_dirty}
use omni_fuse.S3.Upload.Conditional.{Conditional, upload_or_merge_once-Conditional}
use omni_fuse.S3.Upload.Errors.{conflicts, SameData}
use omni_fuse.S3.Upload.Outcome.{conflict-upload_or_merge_once}
use omni_fuse.S3.Upload.{upload_or_merge}
use omni_fuse.S3.Upload.Retries.{EndsWithAttempt, upload_or_merge-EndsWithAttempt}
use omni_fuse.S3.Upload.Counts.{accounted, sync_dirty-accounted}
use omni_fuse.S3.Refresh.{refresh_remote, diff_remote}
use omni_fuse.S3.Refresh.Deferred.{refresh_remote_deferred}
use omni_fuse.S3.Refresh.Protected.{refresh_remote_applied}
use omni_fuse.S3.Refresh.Diff.{agree, diff_remote-agree}
use omni_fuse.Tests.Disk.{memory_files, mount, a_rel, a_full}

-- An object is its ETag and its bytes.
abbrev Objects : Type 0
Objects = Map Key (Bytes × Bytes)

abbrev metadata_of : Bytes × Bytes → ObjectMetadata
metadata_of (etag, bytes) = record {
  is_file = true;
  etag = some etag;
  version = none;
  last_modified = none;
  content_length = length bytes;
}

abbrev stat_in : Option (Bytes × Bytes) → Fallible ErrorKind ObjectMetadata
stat_in none = err ErrorKind.not_found
stat_in (some object) = ok (metadata_of object)

abbrev read_in : Option (Bytes × Bytes) → Fallible ErrorKind Bytes
read_in none = err ErrorKind.not_found
read_in (some (etag, bytes)) = ok bytes

abbrev put : Key → Bytes → Bytes → Objects → Fallible ErrorKind ObjectMetadata × Objects
put key etag bytes objects = (ok (metadata_of (etag, bytes)), insert key (etag, bytes) objects)

abbrev put_over :
    Key
    → Bytes
    → Bytes
    → Objects
    → Option (Bytes × Bytes)
    → Fallible ErrorKind ObjectMetadata × Objects
put_over key bytes wanted objects none = (err ErrorKind.condition_not_match, objects)
put_over key bytes wanted objects (some (etag, old)) =
    if etag == wanted
    then put key (b'n' ∷ etag) bytes objects
    else (err ErrorKind.condition_not_match, objects)

abbrev put_new :
    Key → Bytes → Objects → Option (Bytes × Bytes) → Fallible ErrorKind ObjectMetadata × Objects
put_new key bytes objects none = put key (b'n' ∷ []) bytes objects
put_new key bytes objects (some _) = (err ErrorKind.condition_not_match, objects)

abbrev listing : Objects → List (Key × ObjectMetadata)
listing [] = []
listing ((key, object) ∷ objects) = (key, metadata_of object) ∷ listing objects

abbrev memory_operator : Operator
memory_operator = record {
  State = Objects;
  stat = λ key objects. stat_in (lookup key objects);
  read = λ key objects. read_in (lookup key objects);
  write_if_match = λ key bytes etag objects. put_over key bytes etag objects (lookup key objects);
  write_if_not_exists = λ key bytes objects. put_new key bytes objects (lookup key objects);
  delete = λ key objects. (ok tt, erase key objects);
  list_recursive = λ objects. ok (listing objects);
}

abbrev no_cache : ObjectCache
no_cache = record { State = Unit; get = λ key etag s. (none, s); put = λ key etag bytes s. s }

abbrev pub env : Env
env = record {
  operator = memory_operator;
  files = memory_files;
  objects = no_cache;
  merge = λ base local remote. ok (local ++ remote);
  to_json = λ manifest. [];
}

abbrev a_key : Key
a_key = b'a' ∷ []

-- The working copy holds `a`, which the session has not seen yet; `remote` is the remote.
abbrev pub session : Objects → S3Session env
session remote = record {
  local_dir = mount;
  manifest_path = mount ++ (normal (b'j' ∷ []) ∷ []);
  manifest_tmp = mount ++ (normal (b't' ∷ []) ∷ []);
  base_dir = mount ++ (normal (b'v' ∷ []) ∷ []);
  manifest = [];
  cache = none;
  remote = remote;
  disk = (a_full, 1 ∷ 2 ∷ []) ∷ [];
}

abbrev other_bytes : Objects
other_bytes = (a_key, (b'e' ∷ [], 3 ∷ [])) ∷ []

upload_or_merge_once-Conditional_example :
    Conditional env a_key
      (env.operator.stat a_key [])
      []
      (upload_or_merge_once a_rel a_key a_full (session [])).1.remote
upload_or_merge_once-Conditional_example =
    upload_or_merge_once-Conditional a_rel a_key a_full (session [])

conflicting : conflicts (upload_or_merge_once a_rel a_key a_full (session other_bytes)).0 ≡ true
unfolding upload_or_merge_once lookup omni_fuse.Prelude.list_beq omni_fuse.FilePath.component_beq
    omni_fuse.S3.Session.stat_object omni_fuse.S3.Session.manifest_entry
    omni_fuse.S3.Session.read_object_cached omni_fuse.S3.Session.object_state
conflicting = refl

conflict-upload_or_merge_once_example :
    SameData (upload_or_merge_once a_rel a_key a_full (session other_bytes)).1 (session other_bytes)
conflict-upload_or_merge_once_example =
    conflict-upload_or_merge_once a_rel a_key a_full (session other_bytes) conflicting

upload_or_merge-EndsWithAttempt_example :
    EndsWithAttempt a_rel a_key a_full 2
      (session other_bytes)
      (upload_or_merge a_rel a_key a_full (session other_bytes))
upload_or_merge-EndsWithAttempt_example =
    upload_or_merge-EndsWithAttempt a_rel a_key a_full (session other_bytes)

sync_conflicts :
    (sync_dirty (a_rel ∷ []) (session other_bytes)).0 ≡ ok (SyncResult.conflict 0 (a_rel ∷ []))
unfolding sync_dirty omni_fuse.S3.Path.from_local omni_fuse.S3.Path.validate_components
    omni_fuse.FilePath.is_absolute omni_fuse.S3.Path.validate_each omni_fuse.Prelude.list_beq
    omni_fuse.S3.Session.is_local_dir lookup omni_fuse.FilePath.join
    omni_fuse.FilePath.component_beq omni_fuse.S3.Session.local_path_exists
    omni_fuse.S3.Session.stat_object omni_fuse.S3.Path.join_parts
    omni_fuse.S3.Session.manifest_entry omni_fuse.S3.Session.read_object_cached
    omni_fuse.S3.Session.object_state omni_fuse.S3.Error.classify_s3_error
    omni_fuse.Core.TextMerge.Utf8.from_utf8_lossy
sync_conflicts = refl

sync_dirty-accounted_example : accounted (a_rel ∷ []) (SyncResult.conflict 0 (a_rel ∷ [])) ≡ true
sync_dirty-accounted_example =
    sync_dirty-accounted (a_rel ∷ []) (session other_bytes) (SyncResult.conflict 0 (a_rel ∷ []))
      sync_conflicts

abbrev request : (FilePath → Bool) → RemoteRefresh
request guarded = record { protected_paths = guarded; mode = RemoteApplyMode.apply_safe }

put_off :
    (refresh_remote (request (λ path. true)) (session other_bytes)).0
    ≡ ok (RemoteRefreshResult.deferred (a_rel ∷ []) RemoteDeferReason.protected_local_change)
unfolding refresh_remote omni_fuse.S3.Init.remote_entries omni_fuse.S3.Path.trim_end_matches
    omni_fuse.S3.Path.from_remote omni_fuse.S3.Path.validate_components
    omni_fuse.FilePath.is_absolute omni_fuse.FilePath.components omni_fuse.S3.Path.trim_matches
    omni_fuse.FilePath.collect_segments omni_fuse.FilePath.split
    omni_fuse.FilePath.segment_component omni_fuse.Prelude.list_beq omni_fuse.S3.Path.validate_each
    omni_fuse.FilePath.segment_components insert lookup omni_fuse.S3.Path.join_parts
    omni_fuse.Prelude.Map.keys omni_fuse.Core.TextMerge.Utf8.from_utf8_lossy
put_off = refl

refresh_remote_deferred_example :
    SameData (refresh_remote (request (λ path. true)) (session other_bytes)).1 (session other_bytes)
refresh_remote_deferred_example =
    refresh_remote_deferred (request (λ path. true)) (session other_bytes)
      (RemoteRefreshResult.deferred (a_rel ∷ []) RemoteDeferReason.protected_local_change) put_off
      refl

abbrev pub b_key : Key
b_key = b'b' ∷ []

abbrev pub new_object : Objects
new_object = (b_key, (b'e' ∷ [], 3 ∷ [])) ∷ []

applied_done :
    (refresh_remote (request (λ path. path == a_rel)) (session new_object)).0
    ≡ ok (RemoteRefreshResult.applied ((normal b_key ∷ []) ∷ []) [])
unfolding refresh_remote omni_fuse.S3.Init.remote_entries omni_fuse.S3.Path.trim_end_matches
    omni_fuse.S3.Path.from_remote omni_fuse.S3.Path.validate_components
    omni_fuse.FilePath.is_absolute omni_fuse.FilePath.components omni_fuse.S3.Path.trim_matches
    omni_fuse.FilePath.collect_segments omni_fuse.FilePath.split
    omni_fuse.FilePath.segment_component omni_fuse.Prelude.list_beq omni_fuse.S3.Path.validate_each
    omni_fuse.FilePath.segment_components insert lookup omni_fuse.S3.Path.join_parts
    omni_fuse.FilePath.component_beq omni_fuse.Core.TextMerge.Utf8.decode_utf8_text
    omni_fuse.Core.TextMerge.decide_text_merge omni_fuse.Core.TextMerge.has_marker
    omni_fuse.Core.TextMerge.merge_result omni_fuse.Core.TextMerge.three_way_text_merge
    omni_fuse.FilePath.join erase omni_fuse.Prelude.Map.keys omni_fuse.S3.Init.collect_entries
    same_generation omni_fuse.S3.Path.to_local_path omni_fuse.S3.Path.trim_start_matches
    omni_fuse.S3.Refresh.apply_decision omni_fuse.S3.Refresh.apply_each
    omni_fuse.S3.Refresh.apply_remote_changes omni_fuse.S3.Refresh.change_decision
    omni_fuse.S3.Refresh.classify_each omni_fuse.S3.Refresh.classify_modified
    omni_fuse.S3.Refresh.classify_remote_change omni_fuse.S3.Refresh.deleted_entries diff_remote
    omni_fuse.S3.Refresh.exists_and_changed omni_fuse.S3.Refresh.local_changed_from_base
    omni_fuse.S3.Refresh.local_path_of omni_fuse.S3.Refresh.merge_change
    omni_fuse.S3.Refresh.modified_entries omni_fuse.S3.Refresh.refresh_changes
    omni_fuse.S3.Refresh.write_local omni_fuse.S3.Session.base_path
    omni_fuse.S3.Session.fetch_and_store omni_fuse.S3.Session.load_base
    omni_fuse.S3.Session.local_path_exists omni_fuse.S3.Session.object_state
    omni_fuse.S3.Session.parent omni_fuse.S3.Session.read_object_cached
    omni_fuse.S3.Session.remove_base omni_fuse.S3.Session.save_base
    omni_fuse.S3.Session.save_manifest omni_fuse.S3.Session.save_synced_state
    omni_fuse.S3.Session.update_manifest omni_fuse.S3.Put.merge_decision
    omni_fuse.Core.TextMerge.Utf8.from_utf8_lossy
applied_done = refl

refresh_remote_applied_example :
    (keep (λ path. path == a_rel) ((normal b_key ∷ []) ∷ []) ≡ [])
    × (keep (λ path. path == a_rel) [] ≡ [])
refresh_remote_applied_example =
    refresh_remote_applied (request (λ path. path == a_rel)) (session new_object)
      ((normal b_key ∷ []) ∷ []) [] applied_done

abbrev known : S3Manifest
known =
    (
      a_key,
      record {
        object_path = a_key;
        etag = some (b'e' ∷ []);
        version = none;
        last_modified = none;
        content_length = 1;
      },
    )
    ∷ []

unchanged : diff_remote known known ≡ []
unfolding diff_remote lookup omni_fuse.Prelude.list_beq same_generation omni_fuse.Prelude.Map.keys
unchanged = refl

diff_remote-agree_example : agree (lookup a_key known) (lookup a_key known) ≡ true
diff_remote-agree_example = diff_remote-agree known known a_key unchanged
