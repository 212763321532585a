-- ===== src/S3/Path/Safe.antt =====
-- The safety of object paths, and the way from local paths and back
-- (crates/omnifuse-s3/src/path.rs).
use omni_fuse.Prelude.{
  Bool, true, false, ◌&&◌, not, List, [], ◌∷◌, ◌++◌, ◌==◌, list_eq, nat_eq, ok, is_empty, ◌≡◌, ◌≢◌,
  refl, sym, ap, ◌∙◌, arith, map, inl, inr, Fallible-cases,
}
use omni_fuse.FilePath.{
  FilePath, Name, root_dir, cur_dir, parent_dir, normal, is_absolute, components, split,
  collect_segments, segment_component, segment_components, component_eq, component_beq, join,
}
use omni_fuse.S3.Path.Names.{
  is_name, names_ok, as_text, is_utf8_path, as_text-is_utf8_path, is_name-from_utf8_lossy,
  split_name, split-append, names_ok-components,
}
use omni_fuse.S3.Path.{
  Key, vfs_name, validate_each, validate_components, join_parts, from_local, from_remote,
  to_local_path, is_internal_path, trim_matches,
}

-- A name that can be a part of an object path: `.vfs` cannot.
abbrev pub all_safe : List Name → Bool
all_safe [] = true
all_safe (part ∷ parts) = (is_name part && not (part == vfs_name)) && all_safe parts

abbrev pub without_cur_dir : FilePath → FilePath
without_cur_dir [] = []
without_cur_dir (cur_dir ∷ path) = without_cur_dir path
without_cur_dir (c ∷ path) = c ∷ without_cur_dir path

split-join_parts :
    (part : Name) (parts : List Name)
    → all_safe (part ∷ parts) ≡ true
    → split (join_parts (part ∷ parts)) ≡ part ∷ parts
unfolding join_parts
split-join_parts part [] safe = split_name part (ground arith)
split-join_parts part (part' ∷ parts) safe =
    split-append part (join_parts (part' ∷ parts)) (ground arith)
    ∙ ap (◌∷◌ part) (split-join_parts part' parts (ground arith))

segment-safe :
    (first : Bool) (part : Name)
    → is_name part ≡ true
    → segment_component first part ≡ normal part ∷ []
unfolding segment_component
segment-safe first [] h = absurd (ground arith)
segment-safe first (b ∷ text) h = ground arith

segments-safe :
    (parts : List Name) → all_safe parts ≡ true → segment_components parts ≡ map normal parts
unfolding segment_components
segments-safe [] safe = refl
segments-safe (part ∷ parts) safe =
    rw (segment-safe false part (ground arith))
      (ap (◌∷◌ (normal part)) (segments-safe parts (ground arith)))

validate_each-safe :
    (path p : FilePath) (parts : List Name)
    → names_ok p ≡ true
    → validate_each path p ≡ ok parts
    → (all_safe parts ≡ true) × (map normal parts ≡ without_cur_dir (as_text p))
unfolding validate_each
validate_each-safe path [] parts wf done = ground arith
validate_each-safe path (normal name ∷ rest) parts wf done =
    elim (Fallible-cases (validate_each path rest)) [
      | inl (e, refused) ↦ ground arith
      | inr (parts', each) ↦ ground (
        arith,
        validate_each-safe path rest parts' (ground arith) each,
        is_name-from_utf8_lossy name,
      )
    ]
validate_each-safe path (cur_dir ∷ rest) parts wf done = validate_each-safe path rest parts wf done
validate_each-safe path (parent_dir ∷ rest) parts wf done = cc
validate_each-safe path (root_dir ∷ rest) parts wf done = cc

collect-safe :
    (parts : List Name) → all_safe parts ≡ true → collect_segments parts ≡ map normal parts
unfolding collect_segments
collect-safe [] safe = refl
collect-safe ([] ∷ parts) safe = absurd (ground arith)
collect-safe ((b ∷ text) ∷ parts) safe =
    rw (segment-safe true (b ∷ text) (ground arith))
      (ap (◌∷◌ (normal (b ∷ text))) (segments-safe parts (ground arith)))

-- The local path of joined parts.
to_local-join_parts :
    (part : Name) (parts : List Name)
    → all_safe (part ∷ parts) ≡ true
    → to_local_path (join_parts (part ∷ parts)) ≡ map normal (part ∷ parts)
unfolding to_local_path
to_local-join_parts part parts safe =
    rw (split-join_parts part parts safe) (collect-safe (part ∷ parts) safe)

internal-safe :
    (parts : List Name) → all_safe parts ≡ true → is_internal_path (map normal parts) ≡ false
unfolding is_internal_path component_beq
internal-safe [] safe = refl
internal-safe (part ∷ parts) safe = ground (arith, internal-safe parts)

join-safe :
    (base : FilePath) (parts : List Name) → join base (map normal parts) ≡ base ++ map normal parts
unfolding join is_absolute
join-safe base [] = refl
join-safe base (part ∷ parts) = refl

-- What `validate_components` accepts.
validate_components-safe :
    (p : FilePath) (parts : List Name)
    → names_ok p ≡ true
    → validate_components p ≡ ok parts
    → (all_safe parts ≡ true)
      × (map normal parts ≡ without_cur_dir (as_text p))
      × (is_empty parts ≡ false)
unfolding validate_components
validate_components-safe p parts wf done = elim (Fallible-cases (validate_each p p)) [
  | inl (e, refused) ↦ ground arith
  | inr (parts', each) ↦ ground (arith, validate_each-safe p p parts' wf each)
]

record SafeParts (parts : List Name) (o : Key) (base : FilePath) : Type 0 where
  inside : join base (to_local_path o) ≡ base ++ map normal parts
  external : is_internal_path (to_local_path o) ≡ false
  nonempty : to_local_path o ≢ []
  same : to_local_path o ≡ map normal parts

joined-safe :
    (parts : List Name) (o : Key) (base : FilePath)
    → all_safe parts ≡ true
    → is_empty parts ≡ false
    → join_parts parts ≡ o
    → SafeParts parts o base
joined-safe [] o base safe some_part e = absurd (ground arith)
joined-safe (part ∷ parts) o base safe some_part e =
    let local : to_local_path o ≡ map normal (part ∷ parts) =
      ap to_local_path (sym e) ∙ to_local-join_parts part parts safe in
    record {
      inside = rw local (join-safe base (part ∷ parts));
      external = rw local (internal-safe (part ∷ parts) safe);
      nonempty = λ h. cc (sym local ∙ h);
      same = local;
    }

-- A remote key that is accepted names a file below the local directory: its local path is one or more
-- plain names, each without a slash, not empty and none of `.`, `..` and `.vfs`, and joined to the local
-- directory it is that directory and these names below it. So it cannot leave the directory, and it is
-- no internal path.
pub from_remote-safe :
    (key o : Key) (local_dir : FilePath)
    → from_remote key ≡ ok o
    → (names : List Name) × (all_safe names ≡ true)
      × (to_local_path o ≡ map normal names)
      × (join local_dir (to_local_path o) ≡ local_dir ++ map normal names)
      × (is_internal_path (to_local_path o) ≡ false)
      × (to_local_path o ≢ [])
unfolding from_remote
from_remote-safe key o local_dir done =
    let p = components (trim_matches key) in
    elim (Fallible-cases (validate_components p)) [
      | inl (e, refused) ↦ absurd (ground arith)
      | inr (parts, accepted) ↦
          let (safe, _, some_part) =
            validate_components-safe p parts (names_ok-components (trim_matches key)) accepted in
          let s = joined-safe parts o local_dir safe some_part (ground arith) in
          (parts, safe, s.same, s.inside, s.external, s.nonempty)
    ]

-- A local path whose names are UTF-8 comes back from its object path if it is accepted, without its `.`
-- components.
pub to_local-from_local :
    (path : FilePath) (o : Key)
    → names_ok path ≡ true
    → is_utf8_path path ≡ true
    → from_local path ≡ ok o
    → to_local_path o ≡ without_cur_dir path
unfolding from_local
to_local-from_local path o wf utf8 done = elim (Fallible-cases (validate_components path)) [
  | inl (e, refused) ↦ absurd (ground arith)
  | inr (parts, accepted) ↦
      let (safe, same, some_part) = validate_components-safe path parts wf accepted in
      (joined-safe parts o [] safe some_part (ground arith)).same
      ∙ same
      ∙ ap without_cur_dir (as_text-is_utf8_path path utf8)
]
