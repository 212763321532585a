-- ===== src/Unifuse/Types.antt =====
-- The types that a file system and its mount exchange (crates/unifuse/src/types.rs, session.rs). A
-- time is a number.
use omni_fuse.Prelude.{ℕ, ◌+◌, ◌/◌, Bool, List, Option, none, some}
use omni_fuse.FilePath.{FilePath, Name}

pub data FsError (IoError : Type 0) : Type 0 where
  not_found permission_denied already_exists not_a_directory is_a_directory not_empty
        not_supported :
      FsError IoError
  io : IoError → FsError IoError
  other : List ℕ → FsError IoError

-- The error numbers of the C library, on Linux.
abbrev pub enoent : ℕ
enoent = 2

abbrev pub eio : ℕ
eio = 5

abbrev pub ebadf : ℕ
ebadf = 9

abbrev pub eacces : ℕ
eacces = 13

abbrev pub eexist : ℕ
eexist = 17

abbrev pub enotdir : ℕ
enotdir = 20

abbrev pub eisdir : ℕ
eisdir = 21

abbrev pub erange : ℕ
erange = 34

abbrev pub enotempty : ℕ
enotempty = 39

abbrev pub enotsup : ℕ
enotsup = 95

abbrev number_or_eio : Option ℕ → ℕ
number_or_eio none = eio
number_or_eio (some n) = n

-- `raw_os_error` is the standard library's.
unfoldable pub to_errno : {IoError : Type 0} → (IoError → Option ℕ) → FsError IoError → ℕ
to_errno raw_os_error not_found = enoent
to_errno raw_os_error permission_denied = eacces
to_errno raw_os_error already_exists = eexist
to_errno raw_os_error not_a_directory = enotdir
to_errno raw_os_error is_a_directory = eisdir
to_errno raw_os_error not_empty = enotempty
to_errno raw_os_error not_supported = enotsup
to_errno raw_os_error (io e) = number_or_eio (raw_os_error e)
to_errno raw_os_error (other text) = eio

pub data FileType : Type 0 where
  regular_file directory symlink_type block_device char_device named_pipe socket : FileType

pub record FileAttr : Type 0 where
  pub size : ℕ
  pub blocks : ℕ
  pub atime : ℕ
  pub mtime : ℕ
  pub ctime : ℕ
  pub crtime : ℕ
  pub kind : FileType
  pub perm : ℕ
  pub nlink : ℕ
  pub uid : ℕ
  pub gid : ℕ
  pub rdev : ℕ
  pub flags : ℕ

unfoldable pub regular : ℕ → ℕ → ℕ → FileAttr
regular size perm now = record {
  size = size;
  blocks = (size + 511) / 512;
  atime = now;
  mtime = now;
  ctime = now;
  crtime = now;
  kind = regular_file;
  perm = perm;
  nlink = 1;
  uid = 0;
  gid = 0;
  rdev = 0;
  flags = 0;
}

unfoldable pub directory_attr : ℕ → ℕ → FileAttr
directory_attr perm now = record {
  size = 0;
  blocks = 0;
  atime = now;
  mtime = now;
  ctime = now;
  crtime = now;
  kind = directory;
  perm = perm;
  nlink = 2;
  uid = 0;
  gid = 0;
  rdev = 0;
  flags = 0;
}

-- `FileHandle(u64)`
abbrev pub FileHandle : Type 0
FileHandle = ℕ

pub record DirEntry : Type 0 where
  pub name : Name
  pub kind : FileType

pub record OpenFlags : Type 0 where
  pub read : Bool
  pub write : Bool
  pub append : Bool
  pub truncate : Bool
  pub create : Bool
  pub exclusive : Bool

pub record StatFs : Type 0 where
  pub blocks : ℕ
  pub bfree : ℕ
  pub bavail : ℕ
  pub files : ℕ
  pub ffree : ℕ
  pub bsize : ℕ
  pub namelen : ℕ

pub record NodeMeta : Type 0 where
  pub path : FilePath
  pub attr : FileAttr

pub record OpenedNode : Type 0 where
  pub path : FilePath
  pub handle : FileHandle
  pub kind : FileType
  pub attr : FileAttr

pub data FlushMode : Type 0 where
  flush_mode : FlushMode
  fsync_mode : (datasync : Bool) → FlushMode

pub data CloseReason : Type 0 where
  released released_dir cleanup : CloseReason

pub record DirPageRequest : Type 0 where
  pub offset : ℕ
  pub limit : Option ℕ

pub record DirEntryMeta : Type 0 where
  pub name : Name
  pub kind : FileType
  pub meta : Option NodeMeta

abbrev pub entry_meta : DirEntry → DirEntryMeta
entry_meta entry = record { name = entry.name; kind = entry.kind; meta = none }

pub record DirPage : Type 0 where
  pub entries : List DirEntryMeta
  pub next_offset : Option ℕ

abbrev pub all_entries : List DirEntryMeta → DirPage
all_entries entries = record { entries = entries; next_offset = none }

-- `FsMutation`; times are optional.
pub data FsMutation : Type 0 where
  create_node : (path : FilePath) (flags : OpenFlags) (mode : ℕ) → FsMutation
  mkdir_node : (path : FilePath) (mode : ℕ) → FsMutation
  unlink_node : (path : FilePath) → FsMutation
  rmdir_node : (path : FilePath) → FsMutation
  rename_node : (from to : FilePath) (flags : ℕ) → FsMutation
  symlink_node : (target link : FilePath) → FsMutation
  readlink_node : (path : FilePath) → FsMutation
  set_attr : (path : FilePath) (size atime mtime mode : Option ℕ) → FsMutation
  set_xattr : (path : FilePath) (name : Name) (value : List ℕ) (flags : ℕ) → FsMutation
  remove_xattr : (path : FilePath) (name : Name) → FsMutation
