-- ===== src/Unifuse/Rfuse3.antt =====
-- The adapter from the inodes and handles of the kernel to a session file system
-- (crates/unifuse/src/rfuse3_adapter.rs), on Linux. Replies hold what the source computes; the time to
-- live and the generation are constants. A time is a number of nanoseconds since the epoch, and a
-- signed word is its bits. Sums of 64-bit numbers wrap around, as in a release build.
pub mod Calls
pub mod Xattr
pub mod Entries
pub mod Handles
pub mod Listing
pub mod Copy
use Prim.Native.Nat.{bit_and}
use omni_fuse.Prelude.{
  ℕ, zero, suc, ◌+◌, ◌-◌, ◌*◌, ◌/◌, ◌%◌, ◌^◌, min, Bool, false, not, ◌||◌, List, [], ◌∷◌, ◌++◌,
  Option, none, some, list_eq, nat_eq, if◌then◌else◌, eqb, ltb, leb, length, take, u64_mod,
  wrapping_add, saturating_add, Fallible, ok, err,
}
use omni_fuse.Prelude.Map.{Map, insert, erase}
use omni_fuse.Prelude.Map
use omni_fuse.FilePath.{FilePath, Name, join, components}
use omni_fuse.Unifuse.Inode
use omni_fuse.Unifuse.Inode.{InodeMap, NodeKind, file, dir, root_inode, path_text}
use omni_fuse.Unifuse.Session.{SessionFs}
use omni_fuse.Unifuse.Types.{
  FsError, to_errno, enoent, ebadf, erange, enotsup, FileType, regular_file, directory,
  symlink_type, FileAttr, OpenFlags, StatFs, NodeMeta, OpenedNode, flush_mode, fsync_mode, released,
  DirEntryMeta, DirPage, FsMutation, create_node, mkdir_node, unlink_node, rmdir_node, rename_node,
  symlink_node, set_attr, set_xattr, remove_xattr,
}

abbrev pub max_write : ℕ
max_write = 1024 * 1024

abbrev pub i64_max : ℕ
i64_max = 2 ^ 63 - 1

abbrev pub nanos : ℕ
nanos = 1000000000

-- `Timestamp`, its seconds as the bits of an `i64`.
pub record Timestamp : Type 0 where
  pub sec : ℕ
  pub nsec : ℕ

unfoldable pub system_time_to_timestamp : ℕ → Timestamp
system_time_to_timestamp time = record {
  sec = if leb (time / nanos) i64_max then time / nanos else 0;
  nsec = time % nanos;
}

unfoldable pub timestamp_to_system_time : Timestamp → ℕ
timestamp_to_system_time ts = (if leb ts.sec i64_max then ts.sec else 0) * nanos + ts.nsec

-- The file types of rfuse3 are those of unifuse.
pub record ReplyAttr : Type 0 where
  pub ino : ℕ
  pub size : ℕ
  pub blocks : ℕ
  pub atime : Timestamp
  pub mtime : Timestamp
  pub ctime : Timestamp
  pub kind : FileType
  pub perm : ℕ
  pub nlink : ℕ
  pub uid : ℕ
  pub gid : ℕ
  pub rdev : ℕ
  pub blksize : ℕ

unfoldable pub to_rfuse3_attr : FileAttr → ℕ → ReplyAttr
unfolding system_time_to_timestamp
to_rfuse3_attr attr ino = record {
  ino = ino;
  size = attr.size;
  blocks = attr.blocks;
  atime = system_time_to_timestamp attr.atime;
  mtime = system_time_to_timestamp attr.mtime;
  ctime = system_time_to_timestamp attr.ctime;
  kind = attr.kind;
  perm = attr.perm;
  nlink = attr.nlink;
  uid = attr.uid;
  gid = attr.gid;
  rdev = attr.rdev;
  blksize = 512;
}

unfoldable pub to_node_kind : FileType → NodeKind
to_node_kind directory = dir
to_node_kind _ = file

pub data ReplyXattr : Type 0 where
  xattr_size : ℕ → ReplyXattr
  xattr_data : List ℕ → ReplyXattr

unfoldable pub xattr_reply : List ℕ → ℕ → Fallible ℕ ReplyXattr
xattr_reply bytes size =
    if eqb size 0
    then ok (xattr_size (length bytes % 2 ^ 32))
    else if ltb size (length bytes)
    then err erange
    else ok (xattr_data bytes)

-- The flags of `open` on Linux: `O_ACCMODE` is 3, `O_APPEND` 1024, `O_TRUNC` 512, `O_CREAT` 64 and
-- `O_EXCL` 128.
unfoldable pub decode_open_flags : ℕ → OpenFlags
decode_open_flags flags =
    let access_mode = bit_and flags 3 in
    record {
      read = eqb access_mode 0 || eqb access_mode 2;
      write = eqb access_mode 1 || eqb access_mode 2;
      append = not (eqb (bit_and flags 1024) 0);
      truncate = not (eqb (bit_and flags 512) 0);
      create = not (eqb (bit_and flags 64) 0);
      exclusive = not (eqb (bit_and flags 128) 0);
    }

abbrev pub write_only : OpenFlags
write_only = record {
  read = false;
  write = not false;
  append = false;
  truncate = false;
  create = false;
  exclusive = false;
}

-- An entry of a directory as the kernel reads it; the offset is the index of the entry after it.
pub record DirectoryEntry : Type 0 where
  pub inode : ℕ
  pub kind : FileType
  pub name : Name
  pub offset : ℕ

pub record Created : Type 0 where
  pub attr : ReplyAttr
  pub fh : ℕ

pub record Adapter (S : SessionFs) : Type 0 where
  pub inner : S.State
  pub inode_map : InodeMap
  pub open_nodes : Map ℕ OpenedNode

abbrev pub R : SessionFs → Type 0 → Type 0
R S A = Adapter S → Fallible ℕ A × Adapter S

-- How a call that can panic and can loop ends.
pub data Outcome (A : Type 0) : Type 0 where
  finished : A → Outcome A
  panicked unfinished : Outcome A
