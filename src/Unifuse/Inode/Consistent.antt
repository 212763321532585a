-- ===== src/Unifuse/Inode/Consistent.antt =====
-- The two maps of the table against each other (crates/unifuse/src/inode.rs).
use omni_fuse.Prelude.{
  ℕ, ◌≡◌, Bool, true, false, some, list_eq, nat_eq, option_beq_iff, if◌then◌else◌, arith,
  Option-cases, inl, inr, eqb_iff,
}
use omni_fuse.Prelude.Map.{lookup, insert, lookup-insert, is_some}
use omni_fuse.FilePath.{FilePath, component_eq}
use omni_fuse.Unifuse.Inode.{
  NodeKind, InodeMap, new, compute_inode, get_or_insert, get_path, get_inode, remove, rename,
  rename_subtree, clear,
}
use omni_fuse.Unifuse.Inode.Backed.{
  backed-insert_path, backed-insert_inode, backed-erase, backed-move_entry, backed-rename_subtree,
}
use omni_fuse.Unifuse.Inode.Subtree.{all_backed, lookup-backed}

-- The path of the inode of a path is that path, so no two paths share an inode.
abbrev pub IsConsistent : InodeMap → Type 0
IsConsistent m =
    (path : FilePath) (inode : ℕ) → get_inode path m ≡ some inode → get_path inode m ≡ some path

pub data Op : Type 0 where
  insert_op : FilePath → NodeKind → Op
  remove_op : FilePath → Op
  rename_op rename_subtree_op : FilePath → FilePath → Op
  clear_op : Op

unfoldable pub run : Op → InodeMap → InodeMap
run (insert_op path kind) m = (get_or_insert path kind m).1
run (remove_op path) m = remove path m
run (rename_op old_path new_path) m = rename old_path new_path m
run (rename_subtree_op old_path new_path) m = rename_subtree old_path new_path m
run clear_op m = clear m

-- An insertion of a path that is not there meets no inode in use.
abbrev pub no_collision : Op → InodeMap → Bool
no_collision (insert_op path kind) m =
    if is_some (get_inode path m)
    then true
    else if is_some (get_path (compute_inode path kind) m)
    then false
    else true
no_collision _ m = true

-- If every path that is registered is the one that its inode leads to, this holds again after any
-- operation that changes the table: an insertion of a path that is there, or whose computed inode is not
-- in use, a removal, a renaming, a renaming of all paths at and below a directory, and clearing.
pub run-consistent :
    (op : Op) (m : InodeMap)
    → all_backed m.inode_to_path m.path_to_inode ≡ true
    → no_collision op m ≡ true
    → all_backed (run op m).inode_to_path (run op m).path_to_inode ≡ true
unfolding run get_inode get_path get_or_insert remove rename clear new lookup
run-consistent (insert_op p kind) m backed fresh =
    let inode = compute_inode p kind in
    elim (Option-cases (lookup p m.path_to_inode)) [
      | inl absent ↦ ground (
        arith,
        absent,
        backed-insert_inode m.inode_to_path m.path_to_inode p inode backed,
        backed-insert_path (insert inode p m.inode_to_path) m.path_to_inode p inode,
        lookup-insert inode inode p m.inode_to_path,
        eqb_iff inode inode,
      )
      | inr (j, there) ↦ ground (arith, there)
    ]
run-consistent (remove_op p) m backed fresh = elim (Option-cases (lookup p m.path_to_inode)) [
  | inl absent ↦ ground (arith, absent)
  | inr (j, there) ↦ ground (
    arith,
    there,
    backed-erase m.inode_to_path m.path_to_inode p j backed,
    lookup-backed m.inode_to_path m.path_to_inode p j backed there,
  )
]
run-consistent (rename_op p q) m backed fresh = elim (Option-cases (lookup p m.path_to_inode)) [
  | inl absent ↦ ground (arith, absent)
  | inr (j, there) ↦ ground (
    arith,
    there,
    backed-move_entry m j p q backed,
    option_beq_iff (lookup j m.inode_to_path) (some p),
    lookup-backed m.inode_to_path m.path_to_inode p j backed there,
  )
]
run-consistent (rename_subtree_op p q) m backed fresh = backed-rename_subtree p q m backed
run-consistent clear_op m backed fresh = ground (arith, option_beq_iff (some m.root) (some m.root))
