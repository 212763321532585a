-- ===== src/Tests/Vfs.antt =====
-- The virtual file system at concrete data: a directory with a file, a hidden file and `.git`.
use omni_fuse.Prelude.{
  ℕ, false, not, List, [], ◌∷◌, none, some, ◌≡◌, ◌≢◌, refl, arith, Fallible, ok, err, map, nat_eq,
  list_eq, list_beq, ◌==◌,
}
use omni_fuse.Prelude.Map.{lookup}
use omni_fuse.FilePath.{FilePath, Name, normal, component_eq}
use omni_fuse.Core.Backend.{Backend, success, unchanged}
use omni_fuse.Core.Directories.{Directories, RawEntry}
use omni_fuse.Core.FileMutations.{OpenFile}
use omni_fuse.Core.Vfs
use omni_fuse.Core.Vfs.{Vfs, readdir, open_path, full_path, git_dir}
use omni_fuse.Core.Vfs.Calls.{
  Call, open_call, write_call, release_call, fsync_call, unlink_call, perform_all, releases,
}
use omni_fuse.Core.Vfs.Handles.{lookup-perform_all, open_path_unique}
use omni_fuse.Core.Vfs.Listing.{read_pages, read_pages-readdir}
use omni_fuse.Unifuse.Types.{DirEntry, regular_file, entry_meta, StatFs}
use omni_fuse.Tests.Disk.{memory_files, b_rel, NotFound, not_found, a_rel, mount}
use omni_fuse.Tests.Files.{cached, open_a, pipeline}

abbrev raw : Name → RawEntry NotFound
raw name = record {
  file_name = name;
  file_type = ok (record { is_dir = false; is_symlink = false });
}

-- What the root holds: `.git`, `a`, `b` and `c`.
abbrev pub listing : List (Fallible NotFound (RawEntry NotFound))
listing = ok (raw git_dir) ∷ ok (raw (b'a' ∷ [])) ∷ ok (raw (b'b' ∷ [])) ∷ ok (raw (b'c' ∷ [])) ∷ []

abbrev numbers : StatFs
numbers = record {
  blocks = 8;
  bfree = 4;
  bavail = 4;
  files = 2;
  ffree = 1;
  bsize = 4096;
  namelen = 255;
}

abbrev pub memory_directories : Directories memory_files
memory_directories = record {
  read_dir = λ path files. ok listing;
  create_dir = λ path files. (ok tt, files);
  remove_dir = λ path files. (ok tt, files);
  read_link = λ path files. err not_found;
  open_to_read = λ path files. ok tt;
  set_modified = λ path time files. (ok tt, files);
  xattr_set = λ path name value files. (err not_found, files);
  xattr_get = λ path name files. ok none;
  xattr_list = λ path files. ok [];
  xattr_remove = λ path name files. (err not_found, files);
  statvfs = λ path files. ok numbers;
}

-- A backend that does not track `b`.
abbrev pub no_b : Backend
no_b = record {
  State = ℕ;
  Error = ℕ;
  Code = ℕ;
  sync = λ files s. (ok (success 0), s);
  refresh_remote = λ refresh s. (ok unchanged, s);
  should_track = λ path. not (path == (normal (b'b' ∷ []) ∷ []));
  classify_error = λ e. e;
}

-- `a` is open under the handle 1.
abbrev pub vfs : Vfs memory_files
vfs = record {
  local_dir = mount;
  pipeline = pipeline cached;
  open_files = (1, open_a) ∷ [];
  next_fh = 2;
}

abbrev entry : Name → DirEntry
entry name = record { name = name; kind = regular_file }

abbrev pub shown : List DirEntry
shown = entry (b'a' ∷ []) ∷ entry (b'c' ∷ []) ∷ []

readdir_done : readdir memory_directories no_b [] vfs ≡ (ok shown, vfs)
unfolding readdir Vfs.read_entries Vfs.is_hidden list_beq omni_fuse.FilePath.join
    omni_fuse.FilePath.components omni_fuse.FilePath.collect_segments omni_fuse.FilePath.split
    omni_fuse.FilePath.segment_component omni_fuse.FilePath.component_beq
    omni_fuse.FilePath.segment_components Vfs.raw_kind omni_fuse.Core.TextMerge.Utf8.from_utf8_lossy
readdir_done = refl

read_pages-readdir_example :
    read_pages memory_directories no_b [] 1 3 0 vfs ≡ (ok (map entry_meta shown), vfs)
read_pages-readdir_example =
    read_pages-readdir memory_directories no_b [] 1 vfs shown (omega arith) readdir_done

-- Another handle of the same file is opened, written through and released.
abbrev calls : List Call
calls =
    open_call a_rel 5
    ∷ write_call a_rel 2 0 (9 ∷ []) 6
    ∷ fsync_call a_rel 1 6
    ∷ unlink_call b_rel
    ∷ release_call a_rel 2 7
    ∷ []

not_released : releases 1 calls ≡ false
unfolding releases omni_fuse.Core.Vfs.Calls.released_by
not_released = refl

lookup-perform_all_example :
    lookup 1 (perform_all memory_directories no_b calls vfs).open_files ≡ some open_a
unfolding lookup
lookup-perform_all_example =
    lookup-perform_all memory_directories no_b calls vfs 1 (omega arith) (omega arith) not_released

abbrev opened : Vfs memory_files
opened =
    (open_path a_rel 5
      (perform_all memory_directories no_b [] (Vfs.new_vfs mount (pipeline cached)))).1

open_done :
    open_path a_rel 5 (perform_all memory_directories no_b [] (Vfs.new_vfs mount (pipeline cached)))
    ≡ (ok 1, opened)
unfolding open_path omni_fuse.Core.FileMutations.open_file omni_fuse.Core.BufferManager.get_or_load
    omni_fuse.Core.BufferManager.get lookup perform_all Vfs.new_vfs list_beq
    omni_fuse.Core.FileMutations.full_path omni_fuse.FilePath.join omni_fuse.FilePath.component_beq
open_done = refl

open_path_unique_example :
    (lookup 1
        (perform_all memory_directories no_b [] (Vfs.new_vfs mount (pipeline cached))).open_files
      ≡ none)
    × ((file : OpenFile) × (lookup 1 opened.open_files ≡ some file) × (file.path ≡ a_rel))
    × ((g : ℕ)
        → g ≢ 1
        → lookup g opened.open_files
          ≡ lookup g
              (perform_all memory_directories no_b []
                (Vfs.new_vfs mount (pipeline cached))).open_files)
open_path_unique_example =
    open_path_unique memory_directories no_b mount (pipeline cached) [] a_rel 5 1 opened
      (omega arith) open_done
