-- ===== src/S3/Upload/Outcome.antt =====
-- Upload attempts that end in a conflict (crates/omnifuse-s3/src/session.rs,
-- `upload_or_merge_once`).
use omni_fuse.Prelude.{
  true, false, Option, none, some, ◌==◌, list_eq, nat_eq, Fallible, ok, err, if◌then◌else◌, ◌≡◌,
  arith, inl, inr, Bool-cases,
}
use omni_fuse.FilePath.{FilePath, join}
use omni_fuse.Core.TextMerge.{
  TextMergeDecision, upload_local, upload_merged, accept_remote, already_synced,
}
use omni_fuse.S3.Path.{Key}
use omni_fuse.S3.Error.{S3Error, AnyError, s3}
use omni_fuse.S3.Manifest.{Bytes, ObjectState, same_generation}
use omni_fuse.S3.State.{
  Env, S3Session, M, ◌>>=◌, fail, as_io, as_operator, on_disk, ask_remote, try_disk,
}
use omni_fuse.S3.Session.{
  object_state, manifest_entry, load_base, remove_base, save_synced_state, read_object_cached,
  stat_object,
}
use omni_fuse.S3.Put.{
  bytes_or_empty, merge_decision, act_on_merge, merge_remote_drift,
  handle_remote_delete_during_upload, adopt_remote,
}
use omni_fuse.S3.Upload.{upload_by_state, upload_or_merge_once}
use omni_fuse.S3.Upload.Errors.{
  conflicts, SameData, never_conflicting, as_io-conflicts, as_operator-conflicts, forget-conflicts,
  put_create_and_record-conflicts, read_object_cached-conflicts, save_synced_state-conflicts,
  stat_object-conflicts, update_with_etag-conflicts,
}

module _ {E : Env} where
  -- A conflict, if there is one, left the data of `s0`.
  abbrev Harmless : S3Session E → {A : Type 0} → Fallible AnyError A × S3Session E → Type 0
  Harmless s0 (r, s) = conflicts r ≡ true → SameData s s0

  continue-Harmless :
      {A B : Type 0} (r : Fallible AnyError A) (f : A → M E B) (s s0 : S3Session E)
      → conflicts r ≡ false
      → ((a : A) → Harmless s0 (f a s))
      → Harmless s0 (((λ _. (r, s)) >>= f) s0)
  continue-Harmless (ok a) f s s0 never after = after a
  continue-Harmless (err e) f s s0 never after = λ conflicting. ground arith

  act_on_merge-Harmless :
      (rel : FilePath) (key : Key) (bytes : Bytes) (current : ObjectState) (d : TextMergeDecision)
      (s s0 : S3Session E)
      → SameData s s0
      → Harmless s0 (act_on_merge rel key bytes current d s)
  unfolding act_on_merge
  act_on_merge-Harmless rel key bytes current upload_local s s0 same =
      never_conflicting (update_with_etag-conflicts rel key bytes current s)
  act_on_merge-Harmless rel key bytes current (upload_merged text) s s0 same =
      never_conflicting (grind (arith, update_with_etag-conflicts))
  act_on_merge-Harmless rel key bytes current (accept_remote text) s s0 same =
      continue-Harmless (as_io (E.files.write (join s.local_dir rel) text s.disk).0)
        (λ _. save_synced_state key current text)
        (on_disk (E.files.write (join s.local_dir rel) text) s).1 s0
        (as_io-conflicts (E.files.write (join s.local_dir rel) text s.disk).0)
        λ _. never_conflicting (
          save_synced_state-conflicts key current text
            (on_disk (E.files.write (join s.local_dir rel) text) s).1)
  act_on_merge-Harmless rel key bytes current already_synced s s0 same =
      never_conflicting (save_synced_state-conflicts key current bytes s)
  act_on_merge-Harmless rel key bytes current TextMergeDecision.conflict s s0 same = λ _. same

  merge_remote_drift-Harmless :
      (rel : FilePath) (key : Key) (bytes : Bytes) (current : ObjectState) (s s0 : S3Session E)
      → SameData s s0
      → Harmless s0 (merge_remote_drift rel key bytes current s)
  unfolding merge_remote_drift
  merge_remote_drift-Harmless rel key bytes current s s0 same =
      let (never, kept) = read_object_cached-conflicts key current.etag s in
      continue-Harmless (read_object_cached key current.etag s).0
        (λ remote_bytes.
          act_on_merge rel key bytes current
            (merge_decision E.merge (bytes_or_empty (load_base key s)) bytes remote_bytes))
        (read_object_cached key current.etag s).1 s0 never
        λ remote_bytes.
          act_on_merge-Harmless rel key bytes current
            (merge_decision E.merge (bytes_or_empty (load_base key s)) bytes remote_bytes)
            (read_object_cached key current.etag s).1 s0 (ground arith)

  adopt_remote-Harmless :
      (rel : FilePath) (key : Key) (bytes : Bytes) (current : ObjectState) (s s0 : S3Session E)
      → SameData s s0
      → Harmless s0 (adopt_remote rel key bytes current s)
  unfolding adopt_remote
  adopt_remote-Harmless rel key bytes current s s0 same =
      let (never, kept) = read_object_cached-conflicts key current.etag s in
      continue-Harmless (read_object_cached key current.etag s).0
        (λ remote_bytes.
          if remote_bytes == bytes
          then (ask_remote (E.operator.stat key) >>= λ meta.
              save_synced_state key (object_state key meta) bytes)
          else fail (s3 (S3Error.conflict rel)))
        (read_object_cached key current.etag s).1 s0 never
        λ remote_bytes. elim (Bool-cases (remote_bytes == bytes)) [
          | inl agree ↦ rw (agree) (
              continue-Harmless
                (as_operator (E.operator.stat key (read_object_cached key current.etag s).1.remote))
                (λ meta. save_synced_state key (object_state key meta) bytes)
                (read_object_cached key current.etag s).1 s0
                (as_operator-conflicts
                  (E.operator.stat key (read_object_cached key current.etag s).1.remote))
                λ meta. never_conflicting (
                  save_synced_state-conflicts key (object_state key meta) bytes
                    (read_object_cached key current.etag s).1))
          | inr differ ↦ rw (differ) (λ _. ground arith)
        ]

  handle_remote_delete_during_upload-Harmless :
      (rel : FilePath) (key : Key) (bytes : Bytes) (s s0 : S3Session E)
      → SameData s s0
      → Harmless s0 (handle_remote_delete_during_upload rel key bytes s)
  unfolding handle_remote_delete_during_upload remove_base
  handle_remote_delete_during_upload-Harmless rel key bytes s s0 same =
      elim (Bool-cases (bytes_or_empty (load_base key s) == bytes)) [
        | inl agree ↦ rw (agree) (
            never_conflicting
              (forget-conflicts key (try_disk (E.files.remove_file (join s.local_dir rel)) s).1))
        | inr differ ↦ rw (differ) (λ _. same)
      ]

  upload_by_state-Harmless :
      (rel : FilePath) (key : Key) (bytes : Bytes) (base observed : Option ObjectState)
      (s s0 : S3Session E)
      → SameData s s0
      → Harmless s0 (upload_by_state rel key bytes base observed s)
  unfolding upload_by_state
  upload_by_state-Harmless rel key bytes (some base) (some current) s s0 same =
      elim (Bool-cases (same_generation base current)) [
        | inl agree ↦
            rw (agree) (never_conflicting (update_with_etag-conflicts rel key bytes base s))
        | inr drift ↦ rw (drift) (merge_remote_drift-Harmless rel key bytes current s s0 same)
      ]
  upload_by_state-Harmless rel key bytes (some base) none s s0 same =
      handle_remote_delete_during_upload-Harmless rel key bytes s s0 same
  upload_by_state-Harmless rel key bytes none (some current) s s0 same =
      adopt_remote-Harmless rel key bytes current s s0 same
  upload_by_state-Harmless rel key bytes none none s s0 same =
      never_conflicting (put_create_and_record-conflicts rel key bytes s)

  upload_read :
      (rel : FilePath) (key : Key) (r : Fallible E.files.IoError Bytes) (s : S3Session E)
      → Harmless s (
          ((λ _. (as_io r, s)) >>= λ bytes.
          stat_object key >>= upload_by_state rel key bytes (manifest_entry key s))
            s)
  upload_read rel key (err e) s = λ conflicting. ground arith
  upload_read rel key (ok bytes) s =
      let (never, kept) = stat_object-conflicts key s in
      continue-Harmless (stat_object key s).0 (upload_by_state rel key bytes (manifest_entry key s))
        (stat_object key s).1 s never
        λ observed.
          upload_by_state-Harmless rel key bytes (manifest_entry key s) observed
            (stat_object key s).1 s kept

  -- An attempt to upload that ends in a conflict has changed neither the local files, nor the
  -- remote objects, nor the manifest.
  pub conflict-upload_or_merge_once :
      (rel : FilePath) (key : Key) (path : FilePath) (s : S3Session E)
      → conflicts (upload_or_merge_once rel key path s).0 ≡ true
      → SameData (upload_or_merge_once rel key path s).1 s
  unfolding upload_or_merge_once
  conflict-upload_or_merge_once rel key path s conflicting =
      upload_read rel key (E.files.read path s.disk) s conflicting
