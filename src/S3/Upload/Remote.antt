-- ===== src/S3/Upload/Remote.antt =====
-- What each step of the session makes of the remote (crates/omnifuse-s3/src/session.rs).
use omni_fuse.Prelude.{Option, none, some, list_eq, nat_eq, ◌≡◌, refl, arith}
use omni_fuse.FilePath.{FilePath}
use omni_fuse.S3.Path.{Key}
use omni_fuse.S3.Manifest.{Bytes, ObjectState}
use omni_fuse.S3.State.{Env, S3Session}
use omni_fuse.S3.Session.{
  save_manifest, update_manifest, save_base, remove_base, save_synced_state, read_object_cached,
  cache_after_upload, stat_object,
}
use omni_fuse.S3.Put.{put_create_and_record, put_update_and_record}

module _ {E : Env} where
  pub save_synced_state-remote :
      (key : Key) (state : ObjectState) (bytes : Bytes) (s : S3Session E)
      → (save_synced_state key state bytes s).1.remote ≡ s.remote
  unfolding save_synced_state save_base update_manifest save_manifest
  save_synced_state-remote key state bytes s = ground arith

  pub update_manifest-remote :
      (key : Key) (state : Option ObjectState) (s : S3Session E)
      → (update_manifest key state s).1.remote ≡ s.remote
  unfolding update_manifest save_manifest
  update_manifest-remote key state s = ground arith

  pub cache_after_upload-remote :
      (key : Key) (etag : Option Bytes) (bytes : Bytes) (s : S3Session E)
      → (cache_after_upload key etag bytes s).1.remote ≡ s.remote
  unfolding cache_after_upload
  cache_after_upload-remote key none bytes s = refl
  cache_after_upload-remote key (some etag) bytes s = ground arith

  pub read_object_cached-remote :
      (key : Key) (etag : Option Bytes) (s : S3Session E)
      → (read_object_cached key etag s).1.remote ≡ s.remote
  unfolding read_object_cached
  read_object_cached-remote key none s = refl
  read_object_cached-remote key (some etag) s = ground arith

  pub put_create_and_record-remote :
      (rel : FilePath) (key : Key) (bytes : Bytes) (s : S3Session E)
      → (put_create_and_record rel key bytes s).1.remote
        ≡ (E.operator.write_if_not_exists key bytes s.remote).1
  unfolding put_create_and_record
  put_create_and_record-remote rel key bytes s =
      grind (arith, save_synced_state-remote, cache_after_upload-remote)

  pub put_update_and_record-remote :
      (rel : FilePath) (key : Key) (etag bytes : Bytes) (s : S3Session E)
      → (put_update_and_record rel key etag bytes s).1.remote
        ≡ (E.operator.write_if_match key bytes etag s.remote).1
  unfolding put_update_and_record
  put_update_and_record-remote rel key etag bytes s =
      grind (arith, save_synced_state-remote, cache_after_upload-remote)

  pub remove_base-remote : (key : Key) (s : S3Session E) → (remove_base key s).1.remote ≡ s.remote
  unfolding remove_base
  remove_base-remote key s = ground arith

  pub stat_object-remote : (key : Key) (s : S3Session E) → (stat_object key s).1.remote ≡ s.remote
  unfolding stat_object
  stat_object-remote key s = ground arith
