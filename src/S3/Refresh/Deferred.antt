-- ===== src/S3/Refresh/Deferred.antt =====
-- Refreshes that are put off (crates/omnifuse-s3/src/session.rs, `refresh_remote`).
use omni_fuse.Prelude.{
  Bool, true, false, List, [], ◌∷◌, Option, none, some, list_eq, nat_eq, Fallible, ok, err, ◌≡◌,
  refl, arith, inl, inr, Fallible-cases,
}
use omni_fuse.Prelude.Map.{lookup}
use omni_fuse.FilePath.{FilePath}
use omni_fuse.Core.Backend.{RemoteRefresh, RemoteRefreshResult}
use omni_fuse.S3.Path.{Key}
use omni_fuse.S3.Error.{AnyError}
use omni_fuse.S3.Manifest.{Bytes, ObjectState, S3Manifest}
use omni_fuse.S3.State.{Env, S3Session, M, ◌>>=◌}
use omni_fuse.S3.Session.{local_path_exists}
use omni_fuse.S3.Init.{remote_entries}
use omni_fuse.S3.Refresh.{
  RemoteChange, modified, deleted, diff_remote, exists_and_changed, merge_change, classify_modified,
  classify_remote_change, classify_each, apply_remote_changes, refresh_changes, refresh_remote,
}
use omni_fuse.S3.Upload.Errors.{SameData, read_object_cached-conflicts}

abbrev pub is_applied : RemoteRefreshResult → Bool
is_applied (RemoteRefreshResult.applied _ _) = true
is_applied _ = false

module _ {E : Env} where
  remote_entries-SameData : (s : S3Session E) → SameData (remote_entries s).1 s
  unfolding remote_entries
  remote_entries-SameData s = ground arith

  continue-SameData :
      {A B : Type 0} (r : Fallible AnyError A) (f : A → M E B) (s s0 : S3Session E)
      → SameData s s0
      → ((a : A) → SameData (f a s).1 s0)
      → SameData (((λ _. (r, s)) >>= f) s0).1 s0
  continue-SameData (ok a) f s s0 same after = after a
  continue-SameData (err e) f s s0 same after = same

  exists_and_changed-state :
      (key : Key) (path : FilePath) (s : S3Session E) → (exists_and_changed key path s).1 ≡ s
  unfolding exists_and_changed local_path_exists
  exists_and_changed-state key path s = ground arith

  merge_change-state :
      (key : Key) (path : FilePath) (bytes : Bytes) (state : ObjectState) (s : S3Session E)
      → (merge_change key path bytes state s).1 ≡ s
  unfolding merge_change
  merge_change-state key path bytes state s = ground arith

  classify_modified-SameData :
      (key : Key) (state : Option ObjectState) (s : S3Session E)
      → SameData (classify_modified key state s).1 s
  unfolding classify_modified
  classify_modified-SameData key none s = (refl, refl, refl)
  classify_modified-SameData key (some state) s =
      grind (arith, read_object_cached-conflicts, exists_and_changed-state, merge_change-state)

  classify_remote_change-SameData :
      (change : RemoteChange) (remote : S3Manifest) (s : S3Session E)
      → SameData (classify_remote_change change remote s).1 s
  unfolding classify_remote_change
  classify_remote_change-SameData (modified key) remote s =
      classify_modified-SameData key (lookup key remote) s
  classify_remote_change-SameData (deleted key) remote s = grind (arith, exists_and_changed-state)

  classify_each-SameData :
      (changes : List RemoteChange) (remote : S3Manifest) (s : S3Session E)
      → SameData (classify_each changes remote s).1 s
  unfolding classify_each
  classify_each-SameData [] remote s = (refl, refl, refl)
  classify_each-SameData (change ∷ changes) remote s =
      let s' = (classify_remote_change change remote s).1 in
      ground (
        arith,
        classify_remote_change-SameData change remote s,
        classify_each-SameData changes remote s',
      )

  apply_remote_changes-SameData :
      (changes : List RemoteChange) (remote : S3Manifest) (s : S3Session E)
      (result : RemoteRefreshResult)
      → (apply_remote_changes changes remote s).0 ≡ ok result
      → is_applied result ≡ false
      → SameData (apply_remote_changes changes remote s).1 s
  unfolding apply_remote_changes
  apply_remote_changes-SameData changes remote s result h not_applied =
      ground (arith, classify_each-SameData changes remote s)

  refresh_changes-SameData :
      (request : RemoteRefresh) (changes : List RemoteChange) (remote : S3Manifest)
      (s : S3Session E) (result : RemoteRefreshResult)
      → (refresh_changes request changes remote s).0 ≡ ok result
      → is_applied result ≡ false
      → SameData (refresh_changes request changes remote s).1 s
  unfolding refresh_changes
  refresh_changes-SameData request changes remote s result h not_applied =
      ground (arith, apply_remote_changes-SameData changes remote s result)

  -- A refresh that answers that nothing changed, or that puts the changes off, because a path is
  -- protected, because the request only detects, or because a change conflicts, has changed
  -- neither the local files, nor the remote objects, nor the manifest.
  pub refresh_remote_deferred :
      (request : RemoteRefresh) (s : S3Session E) (result : RemoteRefreshResult)
      → (refresh_remote request s).0 ≡ ok result
      → is_applied result ≡ false
      → SameData (refresh_remote request s).1 s
  unfolding refresh_remote
  refresh_remote_deferred request s result h not_applied =
      elim (Fallible-cases (remote_entries s).0) [
        | inl (e, failed) ↦ ground (arith, failed, remote_entries-SameData s)
        | inr (remote, listed) ↦
            let s' = (remote_entries s).1 in
            let changes = diff_remote s'.manifest remote in
            ground (
              arith,
              listed,
              refresh_changes-SameData request changes remote s' result,
              remote_entries-SameData s,
            )
      ]
