-- ===== src/S3/Refresh/Diff.antt =====
-- What it means that a refresh finds no change (crates/omnifuse-s3/src/session.rs, `diff_remote`).
use omni_fuse.Prelude.{
  Bool, true, false, List, [], ◌∷◌, ◌++◌, Option, none, some, list_eq, nat_eq, ◌≡◌, refl, arith,
  inl, inr, Option-cases, list_beq_iff,
}
use omni_fuse.Prelude.Map.{lookup, keys, contains_key}
use omni_fuse.S3.Path.{Key}
use omni_fuse.S3.Manifest.{ObjectState, S3Manifest, same_generation}
use omni_fuse.S3.Refresh.{
  RemoteChange, same_as_base, modified_entries, deleted_entries, diff_remote,
}
use omni_fuse.Prelude.Map.{contains-keys}
use omni_fuse.Prelude.{contains}

-- The manifest and the listing agree on an object: neither has it, or both in one generation.
abbrev pub agree : Option ObjectState → Option ObjectState → Bool
agree none none = true
agree (some base) (some state) = same_generation base state
agree none (some state) = false
agree (some base) none = false

append_nil : (xs ys : List RemoteChange) → xs ++ ys ≡ [] → (xs ≡ []) × (ys ≡ [])
append_nil [] ys h = (refl, h)
append_nil (x ∷ xs) ys h = ground arith

modified_entries-nil :
    (manifest remote : S3Manifest) (key : Key) (state : ObjectState)
    → modified_entries manifest remote ≡ []
    → lookup key remote ≡ some state
    → same_as_base (lookup key manifest) state ≡ true
unfolding modified_entries lookup
modified_entries-nil manifest [] key state none_modified h = ground arith
modified_entries-nil manifest ((k, v) ∷ remote) key state none_modified h =
    ground (arith, modified_entries-nil manifest remote key state, list_beq_iff key k)

deleted_entries-nil :
    (ks : List Key) (remote : S3Manifest) (key : Key)
    → deleted_entries ks remote ≡ []
    → contains ks key ≡ true
    → contains_key key remote ≡ true
unfolding deleted_entries contains
deleted_entries-nil [] remote key none_deleted h = ground arith
deleted_entries-nil (k ∷ ks) remote key none_deleted h =
    ground (arith, deleted_entries-nil ks remote key, list_beq_iff key k)

-- If the comparison of the manifest with the listing finds no change, then the two agree on every
-- object: what the one lacks the other lacks too, and what both have is of the same generation.
pub diff_remote-agree :
    (manifest remote : S3Manifest) (key : Key)
    → diff_remote manifest remote ≡ []
    → agree (lookup key manifest) (lookup key remote) ≡ true
unfolding diff_remote
diff_remote-agree manifest remote key no_change =
    let (none_modified, none_deleted) =
      append_nil (modified_entries manifest remote) (deleted_entries (keys manifest) remote)
        no_change in
    elim (Option-cases (lookup key remote)) [
      | inl absent ↦ ground (
        arith,
        absent,
        contains-keys manifest key,
        deleted_entries-nil (keys manifest) remote key none_deleted,
      )
      | inr (state, there) ↦
          ground (arith, there, modified_entries-nil manifest remote key state none_modified there)
    ]
