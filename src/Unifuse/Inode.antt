-- ===== src/Unifuse/Inode.antt =====
-- The table of inodes and paths (crates/unifuse/src/inode.rs).
pub mod Backed
pub mod Consistent
pub mod Number
pub mod Subtree
use Prim.Native.Nat.{bit_xor}
use omni_fuse.Prelude.{
  ℕ, ◌-◌, ◌*◌, ◌%◌, Bool, ◌||◌, List, [], ◌∷◌, ◌++◌, Option, none, some, Eq, ◌==◌, list_eq, nat_eq,
  if◌then◌else◌, eqb, is_empty, u64_mod,
}
use omni_fuse.Core.TextMerge.Utf8.{from_utf8_lossy}
use omni_fuse.Prelude.Map.{Map, lookup, insert, erase}
use omni_fuse.FilePath.{
  FilePath, Name, Component, root_dir, cur_dir, parent_dir, normal, component_eq, strip_prefix,
  join,
}

abbrev pub root_inode : ℕ
root_inode = 1

abbrev pub fnv_offset : ℕ
fnv_offset = 14695981039346656037

abbrev pub fnv_prime : ℕ
fnv_prime = 1099511628211

pub data NodeKind : Type 0 where
  file dir : NodeKind

pub record InodeMap : Type 0 where
  pub inode_to_path : Map ℕ FilePath
  pub path_to_inode : Map FilePath ℕ
  pub root : FilePath

unfoldable pub new : FilePath → InodeMap
new root = record {
  inode_to_path = (root_inode, root) ∷ [];
  path_to_inode = (root, root_inode) ∷ [];
  root = root;
}

abbrev component_text : Component → Name
component_text root_dir = []
component_text cur_dir = b'.' ∷ []
component_text parent_dir = b'.' ∷ b'.' ∷ []
component_text (normal name) = name

-- The bytes of a path.
unfoldable pub path_text : FilePath → Name
path_text [] = []
path_text (root_dir ∷ []) = b'/' ∷ []
path_text (component ∷ []) = component_text component
path_text (component ∷ component' ∷ path) =
    component_text component ++ (b'/' ∷ path_text (component' ∷ path))

abbrev pub is_root_text : Name → Bool
is_root_text text = is_empty text || (text == (b'/' ∷ []) || text == (b'.' ∷ []))

-- The loop of FNV-1a over the bytes left.
unfoldable pub fnv : List ℕ → ℕ → ℕ
fnv [] h = h
fnv (b ∷ bytes) h = fnv bytes (bit_xor h b * fnv_prime % u64_mod)

abbrev pub kind_prefix : NodeKind → Name
kind_prefix file = b'f' ∷ b':' ∷ []
kind_prefix dir = b'd' ∷ b':' ∷ []

-- The hash avoids the root's inode, and 0.
abbrev pub avoid_reserved : ℕ → ℕ
avoid_reserved h =
    let moved = if eqb h root_inode then 2 else h in if eqb moved 0 then u64_mod - 1 else moved

unfoldable pub compute_inode : FilePath → NodeKind → ℕ
unfolding fnv path_text
compute_inode path kind =
    let text = from_utf8_lossy (path_text path) in
    if is_root_text text
    then root_inode
    else avoid_reserved (fnv (kind_prefix kind ++ text) fnv_offset)

abbrev pub register : ℕ → FilePath → InodeMap → InodeMap
register inode path m = record m {
  inode_to_path = insert inode path m.inode_to_path;
  path_to_inode = insert path inode m.path_to_inode;
}

-- A collision is only logged: the new path replaces the old one.
unfoldable pub get_or_insert : FilePath → NodeKind → InodeMap → ℕ × InodeMap
get_or_insert path kind m = elim (lookup path m.path_to_inode) [
  | some inode ↦ (inode, m)
  | none ↦ (compute_inode path kind, register (compute_inode path kind) path m)
]

unfoldable pub get_path : ℕ → InodeMap → Option FilePath
get_path inode m = lookup inode m.inode_to_path

unfoldable pub get_inode : FilePath → InodeMap → Option ℕ
get_inode path m = lookup path m.path_to_inode

unfoldable pub remove : FilePath → InodeMap → InodeMap
remove path m = elim (lookup path m.path_to_inode) [
  | none ↦ m
  | some inode ↦ record m {
    inode_to_path = erase inode m.inode_to_path;
    path_to_inode = erase path m.path_to_inode;
  }
]

-- The path of `inode` goes from `old_path` to `new_path`.
unfoldable pub move_entry : ℕ → FilePath → FilePath → InodeMap → InodeMap
move_entry inode old_path new_path m = record m {
  inode_to_path = insert inode new_path m.inode_to_path;
  path_to_inode = insert new_path inode (erase old_path m.path_to_inode);
}

unfoldable pub rename : FilePath → FilePath → InodeMap → InodeMap
unfolding move_entry
rename old_path new_path m = elim (lookup old_path m.path_to_inode) [
  | none ↦ m
  | some inode ↦ move_entry inode old_path new_path m
]

-- The entries at and below `old_path`, with their new paths. That of `old_path` itself is
-- `new_path.join("")`: `new_path` with a slash at its end, which is the same path by its components.
unfoldable pub subtree_updates :
    FilePath → FilePath → Map FilePath ℕ → List (ℕ × (FilePath × FilePath))
subtree_updates old_path new_path [] = []
subtree_updates old_path new_path ((path, inode) ∷ entries) =
    let rest = subtree_updates old_path new_path entries in
    elim (strip_prefix old_path path) [
      | none ↦ rest
      | some suffix ↦ (inode, (path, join new_path suffix)) ∷ rest
    ]

unfoldable pub apply_updates : List (ℕ × (FilePath × FilePath)) → InodeMap → InodeMap
unfolding move_entry
apply_updates [] m = m
apply_updates ((inode, (old, new')) ∷ updates) m =
    apply_updates updates (move_entry inode old new' m)

unfoldable pub rename_subtree : FilePath → FilePath → InodeMap → InodeMap
unfolding subtree_updates apply_updates
rename_subtree old_path new_path m =
    apply_updates (subtree_updates old_path new_path m.path_to_inode) m

unfoldable pub clear : InodeMap → InodeMap
unfolding new
clear m = new m.root
