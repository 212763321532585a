-- ===== src/Core/PersistentCache.antt =====
-- The persistent cache (crates/omnifuse-core/src/persistent_cache.rs, `FilesystemCache`): blobs on disk
-- under the hashes of their keys, with eviction by age. An eviction that a call spawns runs at once.
-- SHA-256 as text in hexadecimal, the process's number and the clock's answers are parameters.
pub mod Walk
pub mod Evict
pub mod Budget
pub mod Store
pub mod Truth
pub mod Age
pub mod Lookup
use omni_fuse.Prelude.{
  ℕ, Bool, ◌||◌, List, [], ◌∷◌, ◌++◌, Option, none, some, ◌==◌, list_eq, nat_eq, if◌then◌else◌,
  length, take, is_empty, fetch_add_one, Fallible, ok, err, is_ok,
}
use omni_fuse.FilePath.{FilePath, Name, normal, component_eq}
use omni_fuse.Core.FileSystem.{FileSystem, Metadata}

-- `v1`, the name of the marker file, and `.tmp.`
abbrev pub schema_version : Name
schema_version = b'v' ∷ b'1' ∷ []

abbrev pub schema_marker_file : Name
schema_marker_file =
    b'.' ∷ b'o' ∷ b'm' ∷ b'n' ∷ b'i' ∷ b'f' ∷ b'u' ∷ b's' ∷ b'e' ∷ b'-' ∷ b'c' ∷ b'a' ∷ b'c' ∷ b'h'
    ∷ b'e' ∷ b'-' ∷ b'v' ∷ b'e' ∷ b'r' ∷ b's' ∷ b'i' ∷ b'o' ∷ b'n' ∷ []

abbrev pub tmp_mark : Name
tmp_mark = b'.' ∷ b't' ∷ b'm' ∷ b'p' ∷ b'.' ∷ []

abbrev pub eviction_put_interval : ℕ
eviction_put_interval = 64

abbrev pub max_cache_walk_depth : ℕ
max_cache_walk_depth = 8

pub record CacheKey : Type 0 where
  pub instance_hash : Name
  pub path : List ℕ
  pub version : List ℕ

-- An entry of a directory, with what asking for its type and its metadata yields.
pub record WalkEntry (IoError : Type 0) : Type 0 where
  pub file_name : Name
  pub is_dir : Fallible IoError Bool
  pub is_file : Bool
  pub meta : Fallible IoError Metadata

-- What the cache asks of the file system besides its interface, and of its other surroundings.
-- `touch` opens a file to write and sets its time.
pub record CacheCalls (F : FileSystem) : Type 0 where
  pub hex_sha256 : List ℕ → Name
  pub tmp_suffix : ℕ → Name
  pub touch : FilePath → ℕ → F.State → Fallible F.IoError (Unit {0}) × F.State
  pub read_dir :
      FilePath → F.State → Fallible F.IoError (List (Fallible F.IoError (WalkEntry F.IoError)))
  pub remove_dir_all : FilePath → F.State → Fallible F.IoError (Unit {0}) × F.State

-- The fields, the counter of temporary files, and the disk.
pub record FilesystemCache (F : FileSystem) : Type 0 where
  pub root : FilePath
  pub max_bytes : ℕ
  pub put_counter : ℕ
  pub eviction_in_flight : Bool
  pub tmp_counter : ℕ
  pub disk : F.State

pub record BlobEntry : Type 0 where
  pub path : FilePath
  pub mtime : ℕ
  pub size : ℕ

-- The blobs found and the total of their sizes.
pub record Collected : Type 0 where
  pub files : List BlobEntry
  pub total : ℕ

-- `name.contains(part)`
unfoldable pub has_part : Name → Name → Bool
has_part part [] = is_empty part
has_part part (b ∷ name) = take (length part) (b ∷ name) == part || has_part part name

module _ {F : FileSystem} (C : CacheCalls F) where
  abbrev pub exists : FilePath → F.State → Bool
  exists path disk = is_ok (F.metadata path disk)

  -- The directory of a blob, and its file name.
  unfoldable pub blob_dir : CacheKey → FilesystemCache F → FilePath
  blob_dir key s =
      let path_hash = C.hex_sha256 key.path in
      s.root ++ (normal key.instance_hash ∷ normal (take 2 path_hash) ∷ normal path_hash ∷ [])

  unfoldable pub blob_path : CacheKey → FilesystemCache F → FilePath
  unfolding blob_dir
  blob_path key s = blob_dir key s ++ (normal (C.hex_sha256 key.version) ∷ [])

  -- `read_blob_and_touch`
  unfoldable pub read_blob_and_touch :
      FilePath → ℕ → F.State → Fallible F.IoError (Option (List ℕ)) × F.State
  read_blob_and_touch path now disk = elim (F.read path disk) [
    | ok bytes ↦ (ok (some bytes), (C.touch path now disk).1)
    | err e ↦ (if F.is_not_found e then ok none else err e, disk)
  ]

  abbrev found : Fallible F.IoError (Option (List ℕ)) → Option (List ℕ)
  found (err e) = none
  found (ok bytes) = bytes

  unfoldable pub get : CacheKey → ℕ → FilesystemCache F → Option (List ℕ) × FilesystemCache F
  unfolding read_blob_and_touch
  get key now s =
      let (result, disk) = read_blob_and_touch (blob_path key s) now s.disk in
      (found result, record s { disk = disk })

  abbrev pub tmp_name : Name → ℕ → Name
  tmp_name name counter = name ++ (tmp_mark ++ C.tmp_suffix counter)

  -- Publishes the temporary file; if that fails, another writer may have published the blob.
  unfoldable pub publish : FilePath → FilePath → F.State → Fallible F.IoError (Unit {0}) × F.State
  publish tmp_path path disk =
      let (renamed, disk1) = F.rename tmp_path path disk in
      elim renamed [
        | ok _ ↦ (ok tt, disk1)
        | err e ↦
            if exists path disk1
            then (ok tt, (F.remove_file tmp_path disk1).1)
            else (err e, (F.remove_file tmp_path disk1).1)
      ]

  -- `write_blob_atomic`, given the directory and the file name of the blob; the counter it leaves.
  unfoldable pub write_blob_atomic :
      FilePath → Name → List ℕ → ℕ → ℕ → F.State → Fallible F.IoError (Unit {0}) × ℕ × F.State
  unfolding publish
  write_blob_atomic dir name bytes now counter disk =
      let path = dir ++ (normal name ∷ []) in
      if exists path disk
      then (ok tt, counter, (C.touch path now disk).1)
      else let (made, disk1) = F.create_dir_all dir disk in
        elim made [
          | err e ↦ (err e, counter, disk1)
          | ok _ ↦
              let tmp_path = dir ++ (normal (tmp_name name counter) ∷ []) in
              let (wrote, disk2) = F.write tmp_path bytes disk1 in
              elim wrote [
                | err e ↦ (err e, fetch_add_one counter, disk2)
                | ok _ ↦
                    let (published, disk3) = publish tmp_path path disk2 in
                    (published, fetch_add_one counter, disk3)
              ]
        ]
