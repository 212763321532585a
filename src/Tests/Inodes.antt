-- ===== src/Tests/Inodes.antt =====
-- The table of inodes at concrete data.
use omni_fuse.Prelude.{
  ℕ, ◌≡◌, ◌≢◌, ◌<◌, ◌^◌, ◌↔◌, refl, Bool, true, false, List, [], ◌∷◌, Option, none, some, arith,
  list_eq, nat_eq, list_beq_iff, eqb_iff,
}
use omni_fuse.Prelude.Map.{lookup}
use omni_fuse.FilePath.{FilePath, root_dir, normal, component_eq}
use omni_fuse.Unifuse.Inode.{InodeMap}
use omni_fuse.Unifuse.Inode.Consistent.{rename_subtree_op, run, run-consistent}
use omni_fuse.Unifuse.Inode.Subtree.{all_backed}
use omni_fuse.Tests.Disk.{mount, a_full}

-- The directory of the mount, at inode 7, and the file `a` in it, at 8.
abbrev pub table : InodeMap
table = record {
  inode_to_path = (7, mount) ∷ (8, a_full) ∷ [];
  path_to_inode = (mount, 7) ∷ (a_full, 8) ∷ [];
  root = root_dir ∷ [];
}

abbrev renamed : FilePath
renamed = root_dir ∷ normal (b'n' ∷ []) ∷ []

-- The directory is renamed, with the file in it.
run-consistent_example :
    all_backed
      (run (rename_subtree_op mount renamed) table).inode_to_path
      (run (rename_subtree_op mount renamed) table).path_to_inode
    ≡ true
unfolding lookup omni_fuse.Prelude.option_beq omni_fuse.Prelude.list_beq
    omni_fuse.FilePath.component_beq
run-consistent_example = run-consistent (rename_subtree_op mount renamed) table refl refl
