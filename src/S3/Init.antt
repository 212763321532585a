-- ===== src/S3/Init.antt =====
-- The first fill of the working copy (crates/omnifuse-s3/src/session.rs, `initialize`).
use omni_fuse.Prelude.{
  ℕ, ◌+◌, Bool, ◌&&◌, not, List, [], ◌∷◌, list_eq, nat_eq, Fallible, ok, err, if◌then◌else◌,
  is_empty, ltb, eqb,
}
use omni_fuse.Prelude.Map.{insert}
use omni_fuse.FilePath.{join}
use omni_fuse.Core.Backend.{InitResult}
use omni_fuse.S3.Path.{Key, PathError, from_remote, to_local_path, trim_end_matches}
use omni_fuse.S3.Manifest.{ObjectState, S3Manifest}
use omni_fuse.S3.State.{ObjectMetadata, Env, M, ◌>>=◌, ◌>>◌, pure, lift_path, on_disk, ask_remote}
use omni_fuse.S3.Session.{
  object_state, replace_manifest, save_base, read_object_cached, local_bytes_differ, parent,
}

-- The loop of `remote_entries` over the listing; the entries before are in `entries`.
unfoldable pub collect_entries :
    List (Key × ObjectMetadata) → S3Manifest → Fallible PathError S3Manifest
collect_entries [] entries = ok entries
collect_entries ((path, meta) ∷ listing) entries =
    let skipped = collect_entries listing entries in
    let key = trim_end_matches path in
    if not meta.is_file then skipped else if is_empty key then skipped else elim (from_remote key) [
      | err e ↦ err e
      | ok key ↦ collect_entries listing (insert key (object_state key meta) entries)
    ]

-- The result, by whether there was a manifest and by how many files changed.
abbrev init_result : Bool → ℕ → InitResult
init_result had_manifest changed =
    if not had_manifest && ltb 0 changed
    then InitResult.fresh
    else if eqb changed 0
    then InitResult.up_to_date
    else InitResult.updated

module _ {E : Env} where
  unfoldable pub remote_entries : M E S3Manifest
  unfolding collect_entries
  remote_entries = do
    listing ← ask_remote E.operator.list_recursive
    lift_path (collect_entries listing [])

  -- One turn of the loop of `materialize_remote`: the bytes are written where they differ.
  unfoldable pub materialize_one : Key → ObjectState → M E (Key × Bool)
  materialize_one path state s =
      (do
        key ← lift_path (from_remote path)
        let local_path = join s.local_dir (to_local_path key)
        on_disk (E.files.create_dir_all (parent local_path))
        bytes ← read_object_cached key state.etag
        needs_write ← local_bytes_differ local_path bytes
        if needs_write then on_disk (E.files.write local_path bytes) else pure tt
        save_base key bytes
        pure (key, needs_write))
        s

  unfoldable pub materialize_each : S3Manifest → S3Manifest → ℕ → M E (S3Manifest × ℕ)
  unfolding materialize_one
  materialize_each [] manifest changed = pure (manifest, changed)
  materialize_each ((path, state) ∷ remote) manifest changed = do
    (key, needs_write) ← materialize_one path state
    materialize_each remote (insert key state manifest)
        (if needs_write then changed + 1 else changed)

  unfoldable pub materialize_remote : S3Manifest → M E ℕ
  unfolding materialize_each
  materialize_remote remote = do
    (manifest, changed) ← materialize_each remote [] 0
    replace_manifest manifest
    pure changed

  unfoldable pub initialize : M E InitResult
  unfolding remote_entries materialize_remote
  initialize s =
      let (listed, s') = remote_entries s in
      elim listed [
        | err e ↦ if is_empty s'.manifest then (err e, s') else (ok InitResult.offline, s')
        | ok remote ↦
            (do
              changed ← materialize_remote remote
              pure (init_result (not (is_empty s'.manifest)) changed))
              s'
      ]
