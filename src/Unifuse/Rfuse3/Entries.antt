-- ===== src/Unifuse/Rfuse3/Entries.antt =====
-- What the inodes of replies stand for (crates/unifuse/src/rfuse3_adapter.rs).
use omni_fuse.Prelude.{
  ℕ, ◌/◌, ◌≤◌, ◌≡◌, true, some, inl, inr, arith, list_eq, nat_eq, eqb_iff, eqb, ok, Fallible-cases,
  Option-cases, Bool-cases,
}
use Prim.Native.Nat.{bit_and}
use omni_fuse.Prelude.Map.{lookup-insert}
use omni_fuse.Prelude.Map
use omni_fuse.FilePath.{FilePath, Name, join, components, component_eq}
use omni_fuse.Unifuse.Inode
use omni_fuse.Unifuse.Inode.{
  NodeKind, file, dir, get_inode, rename_subtree, InodeMap, get_path, get_or_insert, compute_inode,
}
use omni_fuse.Unifuse.Inode.Backed.{backed-rename_subtree}
use omni_fuse.Unifuse.Inode.Consistent.{IsConsistent}
use omni_fuse.Unifuse.Inode.Subtree.{all_backed, moved, rename_subtree-moved}
use omni_fuse.Unifuse.Session.{SessionFs}
use omni_fuse.Unifuse.Types.{FsMutation, mkdir_node, create_node, symlink_node, rename_node}
use omni_fuse.Unifuse.Rfuse3.{
  decode_open_flags, write_only, ReplyAttr, Adapter, R, nanos, i64_max, system_time_to_timestamp,
  timestamp_to_system_time, to_rfuse3_attr,
}
use omni_fuse.Unifuse.Rfuse3.Calls.{
  ◌>>=◌, pure, resolve_path, child, lookup, mkdir, mknod, symlink, create, rename, rename_with,
  s_ifmt, s_ifreg, entry_at,
}

-- A time goes through a timestamp and back unchanged, unless its seconds exceed a signed word.
pub timestamp_roundtrip :
    (time : ℕ)
    → time / nanos ≤ i64_max
    → timestamp_to_system_time (system_time_to_timestamp time) ≡ time
unfolding timestamp_to_system_time system_time_to_timestamp
timestamp_roundtrip time small = ground arith

get_path-get_or_insert :
    (path : FilePath) (kind : NodeKind) (m : InodeMap)
    → IsConsistent m
    → get_path (get_or_insert path kind m).0 (get_or_insert path kind m).1 ≡ some path
unfolding get_path get_or_insert Inode.get_inode
get_path-get_or_insert path kind m consistent =
    elim (Option-cases (Map.lookup path m.path_to_inode)) [
      | inl absent ↦ ground (
        arith,
        lookup-insert (compute_inode path kind) (compute_inode path kind) path m.inode_to_path,
        eqb_iff (compute_inode path kind) (compute_inode path kind),
      )
      | inr (inode, there) ↦ ground (arith, consistent path inode)
    ]

-- The calls that reply with an entry.
pub data EntryCall : Type 0 where
  lookup_call : EntryCall
  mkdir_call mknod_call : (mode : ℕ) → EntryCall
  create_call : (mode flags : ℕ) → EntryCall
  symlink_call : (target : Name) → EntryCall

module _ {S : SessionFs} where
  unfoldable pub reply_to : EntryCall → ℕ → Name → R S ReplyAttr
  reply_to lookup_call parent name = lookup parent name
  reply_to (mkdir_call mode) parent name = mkdir parent name mode
  reply_to (mknod_call mode) parent name = mknod parent name mode
  reply_to (create_call mode flags) parent name = do
    created ← create parent name mode flags
    pure created.attr
  reply_to (symlink_call target) parent name = symlink parent name target

  entry_at-resolves :
      (path : FilePath) (kind : NodeKind) (mutation : FsMutation) (entry : ReplyAttr)
      (s t : Adapter S)
      → IsConsistent s.inode_map
      → entry_at path kind mutation s ≡ (ok entry, t)
      → get_path entry.ino t.inode_map ≡ some path
  unfolding to_rfuse3_attr
  entry_at-resolves path kind mutation entry s t consistent done =
      elim (Fallible-cases (S.mutate mutation s.inner).0) [
        | inl (e, failed) ↦ absurd (ground arith)
        | inr (meta, changed) ↦ grind (arith, get_path-get_or_insert)
      ]

  -- The inode in the reply to a lookup, a creation of any kind or a link stands for the child's path
  -- from then on, if the parent's inode stands for its path and the table is consistent.
  pub reply_to-resolves :
      (call : EntryCall) (parent : ℕ) (name : Name) (parent_path : FilePath) (entry : ReplyAttr)
      (s t : Adapter S)
      → IsConsistent s.inode_map
      → get_path parent s.inode_map ≡ some parent_path
      → reply_to call parent name s ≡ (ok entry, t)
      → get_path entry.ino t.inode_map ≡ some (join parent_path (components name))
  unfolding reply_to lookup mkdir mknod create symlink child resolve_path to_rfuse3_attr
  reply_to-resolves lookup_call parent name parent_path entry s t consistent at done =
      let path = join parent_path (components name) in
      elim (Fallible-cases (S.lookup path s.inner).0) [
        | inl (e, failed) ↦ absurd (ground arith)
        | inr (meta, found) ↦ grind (arith, get_path-get_or_insert)
      ]
  reply_to-resolves (mkdir_call mode) parent name parent_path entry s t consistent at done =
      let path = join parent_path (components name) in
      entry_at-resolves path dir (mkdir_node path mode) entry s t consistent (ground arith)
  reply_to-resolves (mknod_call mode) parent name parent_path entry s t consistent at done =
      let path = join parent_path (components name) in
      let node = create_node path write_only (bit_and mode 511) in
      elim (Bool-cases (eqb (bit_and mode s_ifmt) s_ifreg)) [
        | inl regular ↦ entry_at-resolves path file node entry s t consistent (ground arith)
        | inr special ↦ absurd (ground arith)
      ]
  reply_to-resolves (create_call mode flags) parent name parent_path entry s t consistent at done =
      let path = join parent_path (components name) in
      let node = create_node path (decode_open_flags flags) mode in
      elim (Fallible-cases (S.mutate node s.inner).0) [
        | inl (e, failed) ↦ absurd (ground arith)
        | inr (meta, made) ↦
            elim (Fallible-cases
              (S.open_node path (decode_open_flags flags) (S.mutate node s.inner).1).0) [
                | inl (e, failed) ↦ absurd (ground arith)
                | inr (opened, got) ↦ grind (arith, get_path-get_or_insert)
              ]
      ]
  reply_to-resolves (symlink_call target) parent name parent_path entry s t consistent at done =
      let path = join parent_path (components name) in
      entry_at-resolves path file (symlink_node (components target) path) entry s t consistent
        (ground arith)

  -- If every path that the table knows is the one that its inode stands for, then after a successful
  -- rename the inode of every path that was known stands for the right path: below the new name if the
  -- path was at or below the old one, and for the same path otherwise. After the rename, too, every path
  -- that the table knows is the one that its inode stands for. Paths are the same here if their
  -- components are: a slash at the end does not count.
  pub rename-resolves :
      (origin_parent : ℕ) (origin_name : Name) (parent : ℕ) (name : Name) (old new' path : FilePath)
      (inode : ℕ) (s t : Adapter S)
      → get_path origin_parent s.inode_map ≡ some old
      → get_path parent s.inode_map ≡ some new'
      → all_backed s.inode_map.inode_to_path s.inode_map.path_to_inode ≡ true
      → get_inode path s.inode_map ≡ some inode
      → rename origin_parent origin_name parent name s ≡ (ok tt, t)
      → (get_path inode t.inode_map
          ≡ some (moved (join old (components origin_name)) (join new' (components name)) path))
        × (all_backed t.inode_map.inode_to_path t.inode_map.path_to_inode ≡ true)
  unfolding rename rename_with child resolve_path
  rename-resolves origin_parent origin_name parent name old new' path inode s t from to backed known
        done =
      let old_path = join old (components origin_name) in
      let new_path = join new' (components name) in
      elim (Fallible-cases (S.mutate (rename_node old_path new_path 0) s.inner).0) [
        | inl (e, failed) ↦ absurd (ground arith)
        | inr (meta, renamed) ↦
            let after : t.inode_map ≡ rename_subtree old_path new_path s.inode_map = ground arith in
            ground (
              arith,
              rename_subtree-moved old_path new_path s.inode_map path inode backed known,
              backed-rename_subtree old_path new_path s.inode_map backed,
            )
      ]
