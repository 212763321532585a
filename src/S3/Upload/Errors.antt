-- ===== src/S3/Upload/Errors.antt =====
-- Which steps of an upload can end in a conflict (crates/omnifuse-s3/src/session.rs).
use omni_fuse.Prelude.{
  Bool, true, false, Option, none, some, list_eq, nat_eq, Fallible, ok, err, ◌≡◌, refl, arith,
}
use omni_fuse.FilePath.{FilePath}
use omni_fuse.S3.Path.{Key}
use omni_fuse.S3.Error.{ErrorKind, S3Error, AnyError, s3}
use omni_fuse.S3.Manifest.{Bytes, ObjectState, required_etag}
use omni_fuse.S3.State.{Env, S3Session, ◌>>=◌, ◌>>◌, lift_s3, as_io, as_operator}
use omni_fuse.S3.Session.{
  save_manifest, update_manifest, save_base, remove_base, save_synced_state, read_object_cached,
  cache_after_upload, stat_object,
}
use omni_fuse.S3.Put.{precondition_or_opendal, put_create_and_record, put_update_and_record}

abbrev pub conflict_error : AnyError → Bool
conflict_error (s3 (S3Error.conflict _)) = true
conflict_error _ = false

abbrev pub conflicts : {A : Type 0} → Fallible AnyError A → Bool
conflicts (ok _) = false
conflicts (err e) = conflict_error e

-- The local files, the remote objects and the manifest are the same.
abbrev pub SameData : {E : Env} → S3Session E → S3Session E → Type 0
SameData s s' = (s.disk ≡ s'.disk) × (s.remote ≡ s'.remote) × (s.manifest ≡ s'.manifest)

pub never_conflicting : {A : Type 0} {b : Bool} → b ≡ false → b ≡ true → A
never_conflicting never conflicting = ground arith

pub as_io-conflicts : {IoError A : Type 0} (r : Fallible IoError A) → conflicts (as_io r) ≡ false
as_io-conflicts (ok a) = refl
as_io-conflicts (err e) = refl

pub as_operator-conflicts :
    {A : Type 0} (r : Fallible ErrorKind A) → conflicts (as_operator r) ≡ false
as_operator-conflicts (ok a) = refl
as_operator-conflicts (err e) = refl

module _ {E : Env} where
  pub update_manifest-conflicts :
      (key : Key) (state : Option ObjectState) (s : S3Session E)
      → conflicts (update_manifest key state s).0 ≡ false
  unfolding update_manifest save_manifest
  update_manifest-conflicts key state s = ground arith

  pub save_synced_state-conflicts :
      (key : Key) (state : ObjectState) (bytes : Bytes) (s : S3Session E)
      → conflicts (save_synced_state key state bytes s).0 ≡ false
  unfolding save_synced_state save_base update_manifest save_manifest
  save_synced_state-conflicts key state bytes s = ground arith

  pub cache_after_upload-ok :
      (key : Key) (etag : Option Bytes) (bytes : Bytes) (s : S3Session E)
      → (cache_after_upload key etag bytes s).0 ≡ ok tt
  unfolding cache_after_upload
  cache_after_upload-ok key none bytes s = refl
  cache_after_upload-ok key (some etag) bytes s = ground arith

  pub put_create_and_record-conflicts :
      (rel : FilePath) (key : Key) (bytes : Bytes) (s : S3Session E)
      → conflicts (put_create_and_record rel key bytes s).0 ≡ false
  unfolding put_create_and_record precondition_or_opendal
  put_create_and_record-conflicts rel key bytes s =
      grind (arith, save_synced_state-conflicts, cache_after_upload-ok)

  pub put_update_and_record-conflicts :
      (rel : FilePath) (key : Key) (etag bytes : Bytes) (s : S3Session E)
      → conflicts (put_update_and_record rel key etag bytes s).0 ≡ false
  unfolding put_update_and_record precondition_or_opendal
  put_update_and_record-conflicts rel key etag bytes s =
      grind (arith, save_synced_state-conflicts, cache_after_upload-ok)

  pub read_object_cached-conflicts :
      (key : Key) (etag : Option Bytes) (s : S3Session E)
      → (conflicts (read_object_cached key etag s).0 ≡ false)
        × SameData (read_object_cached key etag s).1 s
  unfolding read_object_cached
  read_object_cached-conflicts key none s = ground arith
  read_object_cached-conflicts key (some etag) s = ground arith

  pub stat_object-conflicts :
      (key : Key) (s : S3Session E)
      → (conflicts (stat_object key s).0 ≡ false) × SameData (stat_object key s).1 s
  unfolding stat_object
  stat_object-conflicts key s = ground arith

  pub update_with_etag-conflicts :
      (rel : FilePath) (key : Key) (bytes : Bytes) (source : ObjectState) (s : S3Session E)
      → conflicts
          ((lift_s3 (required_etag source) >>= λ etag. put_update_and_record rel key etag bytes)
            s).0
        ≡ false
  unfolding required_etag
  update_with_etag-conflicts rel key bytes source s = grind (arith, put_update_and_record-conflicts)

  pub forget-conflicts :
      (key : Key) (s : S3Session E)
      → conflicts ((update_manifest key none >> remove_base key) s).0 ≡ false
  unfolding remove_base
  forget-conflicts key s = ground (arith, update_manifest-conflicts key none s)
