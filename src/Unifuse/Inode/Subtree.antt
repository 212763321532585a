-- ===== src/Unifuse/Inode/Subtree.antt =====
-- Where the inodes of a renamed directory lead (crates/unifuse/src/inode.rs, `rename_subtree`).
use omni_fuse.Prelude.{
  ℕ, ◌≡◌, refl, Bool, true, false, ◌&&◌, ◌||◌, List, [], ◌∷◌, none, some, ◌==◌, list_eq, nat_eq,
  option_eq, option_beq_iff, if◌then◌else◌, arith, Option-cases, inl, inr, list_beq_iff, eqb,
  eqb_iff,
}
use omni_fuse.Prelude.Map.{Map, lookup, lookup-insert}
use omni_fuse.FilePath.{FilePath, component_eq, strip_prefix, join}
use omni_fuse.Unifuse.Inode.{
  InodeMap, get_path, get_inode, move_entry, subtree_updates, apply_updates, rename_subtree,
}

-- Every entry of the one map is in the other.
abbrev pub all_backed : Map ℕ FilePath → Map FilePath ℕ → Bool
all_backed inodes [] = true
all_backed inodes ((path, inode) ∷ entries) =
    lookup inode inodes == some path && all_backed inodes entries

-- The path of an entry once `old_path` is renamed.
abbrev pub moved : FilePath → FilePath → FilePath → FilePath
moved old_path new_path path = elim (strip_prefix old_path path) [
  | none ↦ path
  | some suffix ↦ join new_path suffix
]

-- Whether an update is for the inode, and whether all of those lead to `target`.
abbrev has_update : ℕ → List (ℕ × (FilePath × FilePath)) → Bool
has_update inode [] = false
has_update inode ((j, (old, new')) ∷ updates) = eqb inode j || has_update inode updates

abbrev pub leads_to : ℕ → FilePath → List (ℕ × (FilePath × FilePath)) → Bool
leads_to inode target [] = true
leads_to inode target ((j, (old, new')) ∷ updates) =
    (if eqb inode j then target == new' else true) && leads_to inode target updates

apply_updates-lookup :
    (updates : List (ℕ × (FilePath × FilePath))) (m : InodeMap) (inode : ℕ) (target : FilePath)
    → leads_to inode target updates ≡ true
    → lookup inode (apply_updates updates m).inode_to_path
      ≡ (if has_update inode updates then some target else lookup inode m.inode_to_path)
unfolding apply_updates
apply_updates-lookup [] m inode target h = refl
apply_updates-lookup ((j, (old, new')) ∷ updates) m inode target h = ground (
  arith,
  apply_updates-lookup updates (move_entry j old new' m) inode target,
  lookup-insert inode j new' m.inode_to_path,
  list_beq_iff target new',
  eqb_iff inode j,
)

pub lookup-backed :
    (inodes : Map ℕ FilePath) (entries : Map FilePath ℕ) (path : FilePath) (inode : ℕ)
    → all_backed inodes entries ≡ true
    → lookup path entries ≡ some inode
    → lookup inode inodes ≡ some path
unfolding lookup
lookup-backed inodes [] path inode backed h = ground arith
lookup-backed inodes ((p, j) ∷ entries) path inode backed h = ground (
  arith,
  lookup-backed inodes entries path inode,
  option_beq_iff (lookup j inodes) (some p),
  list_beq_iff path p,
)

module _ (old_path new_path : FilePath) (inodes : Map ℕ FilePath) where
  pub updates-leads_to :
      (entries : Map FilePath ℕ) (path : FilePath) (inode : ℕ)
      → all_backed inodes entries ≡ true
      → lookup inode inodes ≡ some path
      → leads_to inode (moved old_path new_path path) (subtree_updates old_path new_path entries)
        ≡ true
  unfolding subtree_updates
  updates-leads_to [] path inode backed h = refl
  updates-leads_to ((p, j) ∷ entries) path inode backed h =
      let same = updates-leads_to entries path inode in
      elim (Option-cases (strip_prefix old_path p)) [
        | inl outside ↦ ground (arith, outside, same)
        | inr (suffix, inside) ↦ ground (
          arith,
          inside,
          same,
          option_beq_iff (lookup j inodes) (some p),
          list_beq_iff (moved old_path new_path path) (join new_path suffix),
          eqb_iff inode j,
        )
      ]

  has_update-inside :
      (entries : Map FilePath ℕ) (path suffix : FilePath) (inode : ℕ)
      → lookup path entries ≡ some inode
      → strip_prefix old_path path ≡ some suffix
      → has_update inode (subtree_updates old_path new_path entries) ≡ true
  unfolding subtree_updates lookup
  has_update-inside [] path suffix inode h inside = ground arith
  has_update-inside ((p, j) ∷ entries) path suffix inode h inside =
      elim (Option-cases (strip_prefix old_path p)) [
        | inl outside ↦
            ground
              (arith, outside, has_update-inside entries path suffix inode, list_beq_iff path p)
        | inr (rest, there) ↦ ground (
          arith,
          there,
          has_update-inside entries path suffix inode,
          list_beq_iff path p,
          eqb_iff inode j,
        )
      ]

-- If every registered path is backed by its inode, then after a directory is renamed the inode of
-- every path that was registered leads to the right path: below the new name if it was at or below
-- the old one, and to the same path otherwise.
pub rename_subtree-moved :
    (old_path new_path : FilePath) (m : InodeMap) (path : FilePath) (inode : ℕ)
    → all_backed m.inode_to_path m.path_to_inode ≡ true
    → get_inode path m ≡ some inode
    → get_path inode (rename_subtree old_path new_path m) ≡ some (moved old_path new_path path)
unfolding get_inode get_path rename_subtree
rename_subtree-moved old_path new_path m path inode backed h =
    let at = lookup-backed m.inode_to_path m.path_to_inode path inode backed h in
    let leads =
      updates-leads_to old_path new_path m.inode_to_path m.path_to_inode path inode backed at in
    let updates = subtree_updates old_path new_path m.path_to_inode in
    elim (Option-cases (strip_prefix old_path path)) [
      | inl outside ↦ ground (
        arith,
        outside,
        at,
        apply_updates-lookup updates m inode (moved old_path new_path path) leads,
      )
      | inr (suffix, inside) ↦ ground (
        arith,
        inside,
        has_update-inside old_path new_path m.inode_to_path m.path_to_inode path suffix inode h
            inside,
        apply_updates-lookup updates m inode (moved old_path new_path path) leads,
      )
    ]
