-- ===== src/S3/Upload/Conditional.antt =====
-- The writes of an upload attempt to the remote (crates/omnifuse-s3/src/session.rs,
-- `upload_or_merge_once`).
use omni_fuse.Prelude.{
  true, Option, none, some, ◌==◌, list_eq, nat_eq, Fallible, ok, err, if◌then◌else◌, ◌≡◌, refl,
  arith, inl, inr, Bool-cases, Option-cases, Fallible-cases, list_beq_iff, ◌∙◌,
}
use omni_fuse.FilePath.{FilePath, join}
use omni_fuse.Core.TextMerge.{
  TextMergeDecision, upload_local, upload_merged, accept_remote, already_synced,
}
use omni_fuse.S3.Path.{Key}
use omni_fuse.S3.Error.{ErrorKind, S3Error, AnyError, s3}
use omni_fuse.S3.Manifest.{Bytes, ObjectState, required_etag, same_generation}
use omni_fuse.S3.State.{
  ObjectMetadata, Env, S3Session, M, ◌>>=◌, fail, lift_s3, as_io, on_disk, ask_remote, try_disk,
}
use omni_fuse.S3.Session.{
  object_state, update_manifest, manifest_entry, load_base, remove_base, save_synced_state,
  read_object_cached, stat_object,
}
use omni_fuse.S3.Put.{
  bytes_or_empty, merge_decision, put_update_and_record, act_on_merge, merge_remote_drift,
  handle_remote_delete_during_upload, adopt_remote,
}
use omni_fuse.S3.Upload.{upload_by_state, upload_or_merge_once}
use omni_fuse.S3.Upload.Remote.{
  save_synced_state-remote, update_manifest-remote, read_object_cached-remote,
  put_create_and_record-remote, put_update_and_record-remote, remove_base-remote,
  stat_object-remote,
}

-- The remote is as it was, or took one conditional write that fits `observed`, what `stat` of the
-- operator answers for the object.
pub data Conditional (E : Env) (key : Key) (observed : Fallible ErrorKind ObjectMetadata)
    (remote remote' : E.operator.State) : Type 0 where
  untouched : remote' ≡ remote → Conditional E key observed remote remote'
  created :
      (bytes : Bytes)
      → observed ≡ err ErrorKind.not_found
      → remote' ≡ (E.operator.write_if_not_exists key bytes remote).1
      → Conditional E key observed remote remote'
  updated :
      (bytes etag : Bytes) (meta : ObjectMetadata)
      → observed ≡ ok meta
      → meta.etag ≡ some etag
      → remote' ≡ (E.operator.write_if_match key bytes etag remote).1
      → Conditional E key observed remote remote'

-- The same for a state of the object that was found, or none.
data OnState (E : Env) (key : Key) (observed : Option ObjectState)
    (remote remote' : E.operator.State) : Type 0 where
  state_untouched : remote' ≡ remote → OnState E key observed remote remote'
  state_created :
      (bytes : Bytes)
      → observed ≡ none
      → remote' ≡ (E.operator.write_if_not_exists key bytes remote).1
      → OnState E key observed remote remote'
  state_updated :
      (bytes etag : Bytes) (state : ObjectState)
      → observed ≡ some state
      → state.etag ≡ some etag
      → remote' ≡ (E.operator.write_if_match key bytes etag remote).1
      → OnState E key observed remote remote'

required_etag-etag :
    (state : ObjectState) (etag : Bytes) → required_etag state ≡ ok etag → state.etag ≡ some etag
unfolding required_etag
required_etag-etag state etag found = ground arith

same_generation-etag : (a b : ObjectState) → same_generation a b ≡ true → b.etag ≡ a.etag
unfolding same_generation
same_generation-etag a b same = elim (Option-cases a.etag) [
  | inl no_etag ↦ ground arith
  | inr (x, a_etag) ↦ elim (Option-cases b.etag) [
    | inl no_etag ↦ ground arith
    | inr (y, b_etag) ↦ ground (arith, list_beq_iff x y)
  ]
]

module _ {E : Env} where
  update_with_etag-OnState :
      (rel : FilePath) (key : Key) (bytes : Bytes) (source current : ObjectState)
      (s s0 : S3Session E)
      → current.etag ≡ source.etag
      → s.remote ≡ s0.remote
      → OnState E key
          (some current)
          s0.remote
          ((lift_s3 (required_etag source) >>= λ etag. put_update_and_record rel key etag bytes)
            s).1.remote
  update_with_etag-OnState rel key bytes source current s s0 same_etag same_remote =
      elim (Fallible-cases (required_etag source)) [
        | inl (e, missing) ↦ state_untouched (ground (arith, missing, same_remote))
        | inr (etag, found) ↦
            state_updated bytes etag current refl (same_etag ∙ required_etag-etag source etag found)
              (ground
                (arith, found, same_remote, put_update_and_record-remote rel key etag bytes s))
      ]

  continue-OnState :
      {A B : Type 0} (key : Key) (observed : Option ObjectState) (r : Fallible AnyError A)
      (f : A → M E B) (s s0 : S3Session E)
      → s.remote ≡ s0.remote
      → ((a : A) (s' : S3Session E)
          → s'.remote ≡ s0.remote
          → OnState E key observed s0.remote (f a s').1.remote)
      → OnState E key observed s0.remote (((λ _. (r, s)) >>= f) s0).1.remote
  continue-OnState key observed (ok a) f s s0 kept after = after a s kept
  continue-OnState key observed (err e) f s s0 kept after = state_untouched kept

  bind-OnState :
      {A B : Type 0} (key : Key) (observed : Option ObjectState) (m : M E A) (f : A → M E B)
      (s s0 : S3Session E)
      → (m s).1.remote ≡ s0.remote
      → ((a : A) (s' : S3Session E)
          → s'.remote ≡ s0.remote
          → OnState E key observed s0.remote (f a s').1.remote)
      → OnState E key observed s0.remote ((m >>= f) s).1.remote
  bind-OnState key observed m f s s0 kept after =
      continue-OnState key observed (m s).0 f (m s).1 s0 kept after

  act_on_merge-OnState :
      (rel : FilePath) (key : Key) (bytes : Bytes) (current : ObjectState) (d : TextMergeDecision)
      (s s0 : S3Session E)
      → s.remote ≡ s0.remote
      → OnState E key (some current) s0.remote (act_on_merge rel key bytes current d s).1.remote
  unfolding act_on_merge
  act_on_merge-OnState rel key bytes current upload_local s s0 same =
      update_with_etag-OnState rel key bytes current current s s0 refl same
  act_on_merge-OnState rel key bytes current (upload_merged text) s s0 same =
      bind-OnState key (some current) (on_disk (E.files.write (join s.local_dir rel) text))
        (λ _. lift_s3 (required_etag current) >>= λ etag. put_update_and_record rel key etag text) s
        s0 same λ _ s' same'. update_with_etag-OnState rel key text current current s' s0 refl same'
  act_on_merge-OnState rel key bytes current (accept_remote text) s s0 same =
      bind-OnState key (some current) (on_disk (E.files.write (join s.local_dir rel) text))
        (λ _. save_synced_state key current text) s s0 same
        λ _ s' same'. state_untouched (save_synced_state-remote key current text s' ∙ same')
  act_on_merge-OnState rel key bytes current already_synced s s0 same =
      state_untouched (ground (arith, save_synced_state-remote key current bytes s))
  act_on_merge-OnState rel key bytes current TextMergeDecision.conflict s s0 same =
      state_untouched same

  merge_remote_drift-OnState :
      (rel : FilePath) (key : Key) (bytes : Bytes) (current : ObjectState) (s s0 : S3Session E)
      → s.remote ≡ s0.remote
      → OnState E key (some current) s0.remote (merge_remote_drift rel key bytes current s).1.remote
  unfolding merge_remote_drift
  merge_remote_drift-OnState rel key bytes current s s0 same =
      bind-OnState key (some current) (read_object_cached key current.etag)
        (λ remote_bytes.
          act_on_merge rel key bytes current
            (merge_decision E.merge (bytes_or_empty (load_base key s)) bytes remote_bytes))
        s s0 (read_object_cached-remote key current.etag s ∙ same)
        λ remote_bytes s' same'. act_on_merge-OnState rel key bytes current _ s' s0 same'

  adopt_remote-OnState :
      (rel : FilePath) (key : Key) (bytes : Bytes) (current : ObjectState) (s s0 : S3Session E)
      → s.remote ≡ s0.remote
      → OnState E key (some current) s0.remote (adopt_remote rel key bytes current s).1.remote
  unfolding adopt_remote
  adopt_remote-OnState rel key bytes current s s0 same =
      bind-OnState key (some current) (read_object_cached key current.etag)
        (λ remote_bytes.
          if remote_bytes == bytes
          then (ask_remote (E.operator.stat key) >>= λ meta.
              save_synced_state key (object_state key meta) bytes)
          else fail (s3 (S3Error.conflict rel)))
        s s0 (read_object_cached-remote key current.etag s ∙ same)
        λ remote_bytes s' same'. elim (Bool-cases (remote_bytes == bytes)) [
          | inl agree ↦ rw (agree) (
              bind-OnState key (some current) (ask_remote (E.operator.stat key))
                (λ meta. save_synced_state key (object_state key meta) bytes) s' s0 same'
                λ meta s'' same''.
                  state_untouched (save_synced_state-remote key _ bytes s'' ∙ same''))
          | inr differ ↦ rw (differ) (state_untouched same')
        ]

  handle_remote_delete_during_upload-OnState :
      (rel : FilePath) (key : Key) (bytes : Bytes) (s s0 : S3Session E)
      → s.remote ≡ s0.remote
      → OnState E key none s0.remote (handle_remote_delete_during_upload rel key bytes s).1.remote
  unfolding handle_remote_delete_during_upload
  handle_remote_delete_during_upload-OnState rel key bytes s s0 same =
      elim (Bool-cases (bytes_or_empty (load_base key s) == bytes)) [
        | inl agree ↦ rw (agree) (
            bind-OnState key none (update_manifest key none) (λ _. remove_base key)
              (try_disk (E.files.remove_file (join s.local_dir rel)) s).1 s0
              (update_manifest-remote key none _ ∙ same)
              λ _ s' same'. state_untouched (remove_base-remote key s' ∙ same'))
        | inr differ ↦ rw (differ) (state_untouched same)
      ]

  upload_by_state-OnState :
      (rel : FilePath) (key : Key) (bytes : Bytes) (base observed : Option ObjectState)
      (s s0 : S3Session E)
      → s.remote ≡ s0.remote
      → OnState E key observed s0.remote (upload_by_state rel key bytes base observed s).1.remote
  unfolding upload_by_state
  upload_by_state-OnState rel key bytes (some base) (some current) s s0 same =
      elim (Bool-cases (same_generation base current)) [
        | inl agree ↦ rw (agree) (
            update_with_etag-OnState rel key bytes base current s s0
              (same_generation-etag base current agree) same)
        | inr drift ↦ rw (drift) (merge_remote_drift-OnState rel key bytes current s s0 same)
      ]
  upload_by_state-OnState rel key bytes (some base) none s s0 same =
      handle_remote_delete_during_upload-OnState rel key bytes s s0 same
  upload_by_state-OnState rel key bytes none (some current) s s0 same =
      adopt_remote-OnState rel key bytes current s s0 same
  upload_by_state-OnState rel key bytes none none s s0 same =
      state_created bytes refl (ground (arith, same, put_create_and_record-remote rel key bytes s))

  OnState-Conditional :
      (key : Key) (s s0 : S3Session E) (observed : Option ObjectState)
      → (stat_object key s0).0 ≡ ok observed
      → OnState E key observed s0.remote s.remote
      → Conditional E key (E.operator.stat key s0.remote) s0.remote s.remote
  unfolding stat_object object_state
  OnState-Conditional key s s0 observed found (state_untouched same) = untouched same
  OnState-Conditional key s s0 observed found (state_created bytes absent wrote) =
      created bytes (ground (arith, found, absent)) wrote
  OnState-Conditional key s s0 observed found (state_updated bytes etag state there tagged wrote) =
      elim (Fallible-cases (E.operator.stat key s0.remote)) [
        | inl (kind, failed) ↦ absurd (ground (arith, found, failed, there))
        | inr (meta, answered) ↦
            updated bytes etag meta answered (ground (arith, found, answered, there, tagged)) wrote
      ]

  upload_observed :
      (rel : FilePath) (key : Key) (bytes : Bytes) (base : Option ObjectState)
      (r : Fallible AnyError (Option ObjectState)) (s s0 : S3Session E)
      → s.remote ≡ s0.remote
      → (stat_object key s0).0 ≡ r
      → Conditional E key
          (E.operator.stat key s0.remote)
          s0.remote
          (((λ _. (r, s)) >>= upload_by_state rel key bytes base) s0).1.remote
  upload_observed rel key bytes base (ok observed) s s0 same found =
      OnState-Conditional key (upload_by_state rel key bytes base observed s).1 s0 observed found
        (upload_by_state-OnState rel key bytes base observed s s0 same)
  upload_observed rel key bytes base (err e) s s0 same found = untouched same

  upload_read :
      (rel : FilePath) (key : Key) (r : Fallible E.files.IoError Bytes) (s : S3Session E)
      → Conditional E key
          (E.operator.stat key s.remote)
          s.remote
          (((λ _. (as_io r, s)) >>= λ bytes.
              stat_object key >>= upload_by_state rel key bytes (manifest_entry key s))
            s).1.remote
  upload_read rel key (err e) s = untouched refl
  upload_read rel key (ok bytes) s =
      upload_observed rel key bytes (manifest_entry key s) (stat_object key s).0
        (stat_object key s).1 s (stat_object-remote key s) refl

  -- One attempt to upload changes the remote in no way but by one conditional write: a creation that
  -- must not find an object, only if `stat` of the operator answers that there is none, or an update
  -- that demands the ETag of the object that `stat` found. If `stat` fails otherwise, the remote is as
  -- it was.
  pub upload_or_merge_once-Conditional :
      (rel : FilePath) (key : Key) (path : FilePath) (s : S3Session E)
      → Conditional E key
          (E.operator.stat key s.remote)
          s.remote
          (upload_or_merge_once rel key path s).1.remote
  unfolding upload_or_merge_once
  upload_or_merge_once-Conditional rel key path s = upload_read rel key (E.files.read path s.disk) s
