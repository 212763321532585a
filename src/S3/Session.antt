-- ===== src/S3/Session.antt =====
-- The S3 session (crates/omnifuse-s3/src/session.rs): the store of the manifest and of base contents
-- (crates/omnifuse-s3/src/manifest.rs, `ManifestStore`), cached reads, and the initialization.
use omni_fuse.Prelude.{
  Bool, true, false, not, [], ◌∷◌, Option, none, some, ◌==◌, list_eq, nat_eq, Fallible, ok, err,
  if◌then◌else◌,
}
use omni_fuse.Prelude.Map.{lookup, insert, erase}
use omni_fuse.FilePath.{FilePath, join}
use omni_fuse.S3.Path.{Key, PathError, from_remote, to_local_path}
use omni_fuse.S3.Error.{ErrorKind, operator_error, other}
use omni_fuse.S3.Manifest.{Bytes, ObjectState, S3Manifest}
use omni_fuse.S3.State.{
  ObjectMetadata, Env, S3Session, M, ◌>>=◌, ◌>>◌, lift_path, on_disk, ask_remote, try_disk,
}

-- `path.parent()`, of a path with at least one component.
unfoldable pub parent : FilePath → FilePath
parent [] = []
parent (c ∷ []) = []
parent (c ∷ c' ∷ path) = c ∷ parent (c' ∷ path)

unfoldable pub object_state : Key → ObjectMetadata → ObjectState
object_state path meta = record {
  object_path = path;
  etag = meta.etag;
  version = meta.version;
  last_modified = meta.last_modified;
  content_length = meta.content_length;
}

abbrev pub with_state : Key → Option ObjectState → S3Manifest → S3Manifest
with_state key none manifest = erase key manifest
with_state key (some state) manifest = insert key state manifest

module _ {E : Env} where
  -- `ManifestStore::save`: a temporary file, and a rename.
  unfoldable pub save_manifest : S3Manifest → M E (Unit {0})
  save_manifest manifest s =
      (do
        on_disk (E.files.write s.manifest_tmp (E.to_json manifest))
        on_disk (E.files.rename s.manifest_tmp s.manifest_path))
        s

  unfoldable pub update_manifest : Key → Option ObjectState → M E (Unit {0})
  update_manifest key state s =
      let manifest = with_state key state s.manifest in
      save_manifest manifest (record s { manifest = manifest })

  unfoldable pub replace_manifest : S3Manifest → M E (Unit {0})
  replace_manifest manifest = do
    save_manifest manifest
    λ s. (ok tt, record s { manifest = manifest })

  unfoldable pub manifest_entry : Key → S3Session E → Option ObjectState
  manifest_entry key s = lookup key s.manifest

  unfoldable pub base_path : Key → S3Session E → Fallible PathError FilePath
  base_path key s = elim (from_remote key) [
    | err e ↦ err e
    | ok o ↦ ok (join s.base_dir (to_local_path o))
  ]

  unfoldable pub save_base : Key → Bytes → M E (Unit {0})
  save_base key bytes s =
      (do
        path ← lift_path (base_path key s)
        on_disk (E.files.create_dir_all (parent path))
        on_disk (E.files.write path bytes))
        s

  abbrev pub read_file : FilePath → S3Session E → Option Bytes
  read_file path s = elim (E.files.read path s.disk) [ err _ ↦ none | ok bytes ↦ some bytes ]

  unfoldable pub load_base : Key → S3Session E → Option Bytes
  load_base key s = elim (base_path key s) [ err _ ↦ none | ok path ↦ read_file path s ]

  unfoldable pub remove_base : Key → M E (Unit {0})
  remove_base key s = elim (base_path key s) [
    | err _ ↦ (ok tt, s)
    | ok path ↦ try_disk (E.files.remove_file path) s
  ]

  unfoldable pub save_synced_state : Key → ObjectState → Bytes → M E (Unit {0})
  save_synced_state key state bytes = do save_base key bytes; update_manifest key (some state)

  -- The cache is asked only with an ETag; a miss is read from the remote and stored.
  unfoldable pub fetch_and_store : Key → Bytes → M E Bytes
  fetch_and_store key etag s = elim (E.operator.read key s.remote) [
    | err kind ↦ (err (operator_error kind), s)
    | ok bytes ↦ elim (s.cache) [
      | none ↦ (ok bytes, s)
      | some objects ↦ (ok bytes, record s { cache = some (E.objects.put key etag bytes objects) })
    ]
  ]

  unfoldable pub read_object_cached : Key → Option Bytes → M E Bytes
  unfolding fetch_and_store
  read_object_cached key none s = ask_remote (E.operator.read key) s
  read_object_cached key (some etag) s = elim (s.cache) [
    | none ↦ ask_remote (E.operator.read key) s
    | some objects ↦
        let (found, objects') = E.objects.get key etag objects in
        elim found [
          | some bytes ↦ (ok bytes, record s { cache = some objects' })
          | none ↦ fetch_and_store key etag (record s { cache = some objects' })
        ]
  ]

  -- The background `put` after an upload, as if it ran at once.
  unfoldable pub cache_after_upload : Key → Option Bytes → Bytes → M E (Unit {0})
  cache_after_upload key none bytes s = (ok tt, s)
  cache_after_upload key (some etag) bytes s = elim (s.cache) [
    | none ↦ (ok tt, s)
    | some objects ↦ (ok tt, record s { cache = some (E.objects.put key etag bytes objects) })
  ]

  unfoldable pub stat_object : Key → M E (Option ObjectState)
  stat_object key s = elim (E.operator.stat key s.remote) [
    | ok meta ↦ (ok (some (object_state key meta)), s)
    | err ErrorKind.not_found ↦ (ok none, s)
    | err kind ↦ (err (operator_error kind), s)
  ]

  unfoldable pub local_path_exists : FilePath → M E Bool
  local_path_exists path s = elim (E.files.metadata path s.disk) [
    | ok _ ↦ (ok true, s)
    | err e ↦ if E.files.is_not_found e then (ok false, s) else (err other, s)
  ]

  unfoldable pub is_local_dir : FilePath → M E Bool
  is_local_dir path s = elim (E.files.metadata path s.disk) [
    | ok meta ↦ (ok meta.is_dir, s)
    | err e ↦ if E.files.is_not_found e then (ok false, s) else (err other, s)
  ]

  unfoldable pub local_bytes_differ : FilePath → Bytes → M E Bool
  local_bytes_differ path bytes s = elim (E.files.read path s.disk) [
    | ok existing ↦ (ok (not (existing == bytes)), s)
    | err e ↦ if E.files.is_not_found e then (ok true, s) else (err other, s)
  ]
