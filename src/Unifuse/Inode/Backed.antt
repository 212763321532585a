-- ===== src/Unifuse/Inode/Backed.antt =====
-- How the changes of the table act on its entries (crates/unifuse/src/inode.rs).
use omni_fuse.Prelude.{
  ℕ, ◌≡◌, refl, Bool, true, ◌&&◌, ◌||◌, List, [], ◌∷◌, none, some, ◌==◌, list_eq, nat_eq, option_eq,
  option_beq_iff, arith, Option-cases, inl, inr, list_beq_iff, eqb_iff,
}
use omni_fuse.Prelude.Map.{Map, lookup, insert, erase, lookup-insert, lookup-erase}
use omni_fuse.FilePath.{FilePath, component_eq, strip_prefix}
use omni_fuse.Unifuse.Inode.{InodeMap, move_entry, subtree_updates, apply_updates, rename_subtree}
use omni_fuse.Unifuse.Inode.Subtree.{all_backed, leads_to, updates-leads_to}

-- A new entry whose inode leads to its path.
pub backed-insert_path :
    (inodes : Map ℕ FilePath) (entries : Map FilePath ℕ) (path : FilePath) (inode : ℕ)
    → all_backed inodes entries ≡ true
    → lookup inode inodes ≡ some path
    → all_backed inodes (insert path inode entries) ≡ true
unfolding insert
backed-insert_path inodes [] path inode backed at =
    ground (arith, option_beq_iff (lookup inode inodes) (some path))
backed-insert_path inodes ((p, j) ∷ entries) path inode backed at = ground (
  arith,
  option_beq_iff (lookup inode inodes) (some path),
  backed-insert_path inodes entries path inode,
)

-- An inode that led nowhere leads to a path.
pub backed-insert_inode :
    (inodes : Map ℕ FilePath) (entries : Map FilePath ℕ) (path : FilePath) (inode : ℕ)
    → all_backed inodes entries ≡ true
    → lookup inode inodes ≡ none
    → all_backed (insert inode path inodes) entries ≡ true
backed-insert_inode inodes [] path inode backed free = refl
backed-insert_inode inodes ((p, j) ∷ entries) path inode backed free = ground (
  arith,
  option_beq_iff (lookup j inodes) (some p),
  option_beq_iff (lookup j (insert inode path inodes)) (some p),
  lookup-insert j inode path inodes,
  eqb_iff j inode,
  backed-insert_inode inodes entries path inode,
)

-- A path goes, and its inode with it.
pub backed-erase :
    (inodes : Map ℕ FilePath) (entries : Map FilePath ℕ) (path : FilePath) (inode : ℕ)
    → all_backed inodes entries ≡ true
    → lookup inode inodes ≡ some path
    → all_backed (erase inode inodes) (erase path entries) ≡ true
unfolding erase
backed-erase inodes [] path inode backed at = refl
backed-erase inodes ((p, j) ∷ entries) path inode backed at = ground (
  arith,
  option_beq_iff (lookup j inodes) (some p),
  option_beq_iff (lookup j (erase inode inodes)) (some p),
  lookup-erase j inode inodes,
  eqb_iff j inode,
  list_beq_iff path p,
  backed-erase inodes entries path inode,
)

-- Whether the inode leads to the old or to the new path.
abbrev leads_to_either : Map ℕ FilePath → ℕ → FilePath → FilePath → Bool
leads_to_either inodes inode old new' =
    lookup inode inodes == some old || lookup inode inodes == some new'

backed-redirect :
    (inodes : Map ℕ FilePath) (entries : Map FilePath ℕ) (inode : ℕ) (old new' : FilePath)
    → all_backed inodes entries ≡ true
    → leads_to_either inodes inode old new' ≡ true
    → all_backed (insert inode new' inodes) (erase old entries) ≡ true
unfolding erase
backed-redirect inodes [] inode old new' backed at = refl
backed-redirect inodes ((p, j) ∷ entries) inode old new' backed at = ground (
  arith,
  option_beq_iff (lookup j inodes) (some p),
  option_beq_iff (lookup inode inodes) (some old),
  option_beq_iff (lookup inode inodes) (some new'),
  option_beq_iff (lookup j (insert inode new' inodes)) (some p),
  lookup-insert j inode new' inodes,
  eqb_iff j inode,
  list_beq_iff old p,
  backed-redirect inodes entries inode old new',
)

pub backed-move_entry :
    (m : InodeMap) (inode : ℕ) (old new' : FilePath)
    → all_backed m.inode_to_path m.path_to_inode ≡ true
    → leads_to_either m.inode_to_path inode old new' ≡ true
    → all_backed
        (move_entry inode old new' m).inode_to_path
        (move_entry inode old new' m).path_to_inode
      ≡ true
unfolding move_entry
backed-move_entry m inode old new' backed at =
    backed-insert_path (insert inode new' m.inode_to_path) (erase old m.path_to_inode) new' inode
      (backed-redirect m.inode_to_path m.path_to_inode inode old new' backed at)
      (ground (arith, lookup-insert inode inode new' m.inode_to_path, eqb_iff inode inode))

-- Updates that can be made one after the other: the inode of each leads to its old or new path, and
-- later updates of one inode have the same new path.
abbrev are_ready : Map ℕ FilePath → List (ℕ × (FilePath × FilePath)) → Bool
are_ready inodes [] = true
are_ready inodes ((j, (old, new')) ∷ updates) =
    leads_to_either inodes j old new' && (leads_to j new' updates && are_ready inodes updates)

are_ready-insert :
    (inodes : Map ℕ FilePath) (updates : List (ℕ × (FilePath × FilePath))) (j : ℕ) (new' : FilePath)
    → are_ready inodes updates ≡ true
    → leads_to j new' updates ≡ true
    → are_ready (insert j new' inodes) updates ≡ true
are_ready-insert inodes [] j new' ready leads = refl
are_ready-insert inodes ((i, (o, n)) ∷ updates) j new' ready leads = ground (
  arith,
  option_beq_iff (lookup i (insert j new' inodes)) (some n),
  lookup-insert i j new' inodes,
  eqb_iff j i,
  list_beq_iff new' n,
  are_ready-insert inodes updates j new',
)

backed-apply_updates :
    (updates : List (ℕ × (FilePath × FilePath))) (m : InodeMap)
    → all_backed m.inode_to_path m.path_to_inode ≡ true
    → are_ready m.inode_to_path updates ≡ true
    → all_backed (apply_updates updates m).inode_to_path (apply_updates updates m).path_to_inode
      ≡ true
unfolding apply_updates
backed-apply_updates [] m backed ready = backed
backed-apply_updates ((j, (old, new')) ∷ updates) m backed ready =
    backed-apply_updates updates (move_entry j old new' m)
      (backed-move_entry m j old new' backed (ground arith))
      (are_ready-insert m.inode_to_path updates j new' (ground arith) (ground arith))

module _ (old_path new_path : FilePath) (inodes : Map ℕ FilePath) where
  are_ready-updates :
      (entries : Map FilePath ℕ)
      → all_backed inodes entries ≡ true
      → are_ready inodes (subtree_updates old_path new_path entries) ≡ true
  unfolding subtree_updates
  are_ready-updates [] backed = refl
  are_ready-updates ((p, j) ∷ entries) backed = elim (Option-cases (strip_prefix old_path p)) [
    | inl outside ↦ ground (arith, outside, are_ready-updates entries)
    | inr (suffix, inside) ↦ ground (
      arith,
      inside,
      option_beq_iff (lookup j inodes) (some p),
      are_ready-updates entries,
      updates-leads_to old_path new_path inodes entries p j,
    )
  ]

pub backed-rename_subtree :
    (old_path new_path : FilePath) (m : InodeMap)
    → all_backed m.inode_to_path m.path_to_inode ≡ true
    → all_backed
        (rename_subtree old_path new_path m).inode_to_path
        (rename_subtree old_path new_path m).path_to_inode
      ≡ true
unfolding rename_subtree
backed-rename_subtree old_path new_path m backed =
    backed-apply_updates (subtree_updates old_path new_path m.path_to_inode) m backed
      (are_ready-updates old_path new_path m.inode_to_path m.path_to_inode backed)
