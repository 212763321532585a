-- ===== src/Tests/Disk.antt =====
-- A file system in memory: the files and their contents. Every write succeeds.
use omni_fuse.Prelude.{
  ℕ, true, false, List, [], ◌∷◌, Option, none, some, arith, Fallible, ok, err, length, take,
  replicate, ◌++◌, list_beq_iff, list_eq,
}
use omni_fuse.Prelude.Map.{Map, lookup, insert, erase, lookup-insert}
use omni_fuse.FilePath.{FilePath, root_dir, normal, component_eq}
use omni_fuse.Core.FileSystem.{FileSystem, Metadata, IsLawful}

pub data NotFound : Type 0 where
  not_found : NotFound

abbrev pub Files : Type 0
Files = Map FilePath (List ℕ)

abbrev meta_of : Option (List ℕ) → Fallible NotFound Metadata
meta_of none = err not_found
meta_of (some bytes) = ok (record {
  len = length bytes;
  accessed = some 0;
  modified = some 0;
  created = none;
  is_dir = false;
  is_symlink = false;
  mode = 33188;
  nlink = 1;
  uid = 0;
  gid = 0;
})

abbrev bytes_of : Option (List ℕ) → Fallible NotFound (List ℕ)
bytes_of none = err not_found
bytes_of (some bytes) = ok bytes

abbrev move_bytes :
    FilePath → FilePath → Files → Option (List ℕ) → Fallible NotFound (Unit {0}) × Files
move_bytes from to files none = (err not_found, files)
move_bytes from to files (some bytes) = (ok tt, insert to bytes (erase from files))

abbrev cut_bytes : FilePath → ℕ → Files → Option (List ℕ) → Fallible NotFound (Unit {0}) × Files
cut_bytes path n files none = (err not_found, files)
cut_bytes path n files (some bytes) = (ok tt, insert path (take n (bytes ++ replicate n 0)) files)

abbrev pub memory_files : FileSystem
memory_files = record {
  State = Files;
  IoError = NotFound;
  is_not_found = λ _. true;
  metadata = λ path files. meta_of (lookup path files);
  symlink_metadata = λ path files. meta_of (lookup path files);
  read = λ path files. bytes_of (lookup path files);
  write = λ path bytes files. (ok tt, insert path bytes files);
  remove_file = λ path files. (ok tt, erase path files);
  rename = λ from to files. move_bytes from to files (lookup from files);
  symlink = λ target link files. (ok tt, files);
  create_dir_all = λ path files. (ok tt, files);
  set_len = λ path n files. cut_bytes path n files (lookup path files);
  set_permissions = λ path mode files. (ok tt, files);
}

pub memory_files-IsLawful : IsLawful memory_files
memory_files-IsLawful = record {
  read-write = λ p bytes s _. ground (arith, lookup-insert p p bytes s, list_beq_iff p p);
  read-write_ne = λ p q bytes s other. ground (arith, lookup-insert q p bytes s, list_beq_iff q p);
}

-- `a`, `b`, and `a` under the directory of the mount.
abbrev pub a_rel : FilePath
a_rel = normal (b'a' ∷ []) ∷ []

abbrev pub b_rel : FilePath
b_rel = normal (b'b' ∷ []) ∷ []

abbrev pub mount : FilePath
mount = root_dir ∷ normal (b'm' ∷ []) ∷ []

abbrev pub a_full : FilePath
a_full = root_dir ∷ normal (b'm' ∷ []) ∷ normal (b'a' ∷ []) ∷ []
