-- ===== src/Tests/Files.antt =====
-- The file mutation pipeline and the paths at concrete data.
use omni_fuse.Prelude.{
  map, ℕ, ◌+◌, ◌≤◌, Bool, true, false, List, [], ◌∷◌, ◌++◌, Option, none, some, ◌≡◌, ◌≢◌, refl,
  arith, Fallible, ok, err, length, take, drop, list_beq_iff, list_eq, list_beq, not, ◌↔◌,
  if◌then◌else◌, contains,
}
use omni_fuse.Prelude.Map.{lookup}
use omni_fuse.FilePath.{FilePath, Name, Component, normal, cur_dir, join, starts_with, component_eq}
use omni_fuse.Core.Buffer.{FileBuffer}
use omni_fuse.Core.Buffer
use omni_fuse.Core.BufferManager.{Cache}
use omni_fuse.Core.FileMutations.{
  OpenFile, Pipeline, FileEvent, queue_drop, file_change, file_written, full_path, write, close,
  flush, rename, truncate,
}
use omni_fuse.Core.FileMutations.Close.{
  close-write, close-write_dropped, close-rename, flush-truncate,
}
use omni_fuse.Core.FileMutations.Queue.{queue-write}
use omni_fuse.Core.SyncEngine.{file_modified}
use omni_fuse.Unifuse.Types.{FileAttr, regular_file}
use omni_fuse.Core.TextMerge.{Merge, upload_merged, decide_text_merge}
use omni_fuse.Core.TextMerge.Policy.{decide_text_merge-iff-Justified, Justified}
use omni_fuse.S3.Path.{from_remote, from_local, to_local_path, is_internal_path}
use omni_fuse.S3.Path.Safe.{all_safe, from_remote-safe, to_local-from_local}
use omni_fuse.Tests.Disk.{memory_files, memory_files-IsLawful, a_rel, b_rel, a_full, mount}

abbrev unsaved : FileBuffer
unsaved = record { path = a_full; content = 1 ∷ 7 ∷ 3 ∷ []; dirty = true; mtime = 0; size = 3 }

abbrev pub cached : Cache memory_files
cached = record {
  buffers = (a_full, 0) ∷ [];
  lru_order = a_full ∷ [];
  memory_usage = 3;
  config = record { max_memory_mb = 1; lru_eviction_enabled = true };
  heap = λ _. unsaved;
  next_id = 1;
  disk = (a_full, 1 ∷ 2 ∷ 3 ∷ []) ∷ [];
}

abbrev evicted : Cache memory_files
evicted = record cached { buffers = []; lru_order = []; memory_usage = 0 }

abbrev pub pipeline : Cache memory_files → Pipeline memory_files
pipeline cache = record {
  local_dir = mount;
  cache = cache;
  queue = [];
  capacity = 4;
  closed = false;
  events = [];
}

abbrev pub open_a : OpenFile
open_a = record { path = a_rel; full_path = a_full; buffer = 0; dirty_notified = false }

-- The pipeline once two bytes are written at 2.
abbrev written : Cache memory_files → Pipeline memory_files
written cache = elim (write open_a 2 (8 ∷ 9 ∷ []) 5 (pipeline cache)) [
  | none ↦ pipeline cache
  | some (_, t) ↦ t
]

write_done : write open_a 2 (8 ∷ 9 ∷ []) 5 (pipeline cached) ≡ some (2, written cached)
unfolding write Buffer.write omni_fuse.Prelude.wrapping_add Buffer.copy_into Buffer.grow
write_done = refl

write_done_evicted : write open_a 2 (8 ∷ 9 ∷ []) 5 (pipeline evicted) ≡ some (2, written evicted)
unfolding write Buffer.write omni_fuse.Prelude.wrapping_add Buffer.copy_into Buffer.grow
write_done_evicted = refl

close_done : (close open_a (written cached)).0 ≡ ok tt
unfolding close flush omni_fuse.Core.BufferManager.flush omni_fuse.Core.BufferManager.get lookup
    write Buffer.write omni_fuse.Prelude.wrapping_add Buffer.copy_into Buffer.grow
    omni_fuse.Core.FileMutations.mark_modified omni_fuse.Core.FileMutations.send_or_warn
    omni_fuse.Core.FileMutations.send list_beq omni_fuse.FilePath.component_beq
    omni_fuse.Core.FileMutations.mark_closed
close_done = refl

close-write_example :
    (memory_files.read a_full (close open_a (written cached)).1.cache.disk
      ≡ ok ((written cached).cache.heap 0).content)
    × (take 2 (drop 2 ((written cached).cache.heap 0).content) ≡ 8 ∷ 9 ∷ [])
    × (((close open_a (written cached)).1.cache.heap 0).dirty ≡ false)
unfolding lookup list_beq omni_fuse.FilePath.component_beq
close-write_example =
    close-write memory_files-IsLawful open_a 2 (8 ∷ 9 ∷ []) 5 2 (pipeline cached) (written cached)
      refl write_done close_done

close-write_dropped_example :
    ((close open_a (written evicted)).0 ≡ ok tt)
    × ((close open_a (written evicted)).1.cache.disk ≡ evicted.disk)
    × (((close open_a (written evicted)).1.cache.heap 0).dirty ≡ true)
unfolding lookup
close-write_dropped_example =
    close-write_dropped open_a 2 (8 ∷ 9 ∷ []) 5 2 (pipeline evicted) (written evicted) refl
      write_done_evicted

path_of_a : a_full ≡ full_path a_rel (pipeline cached)
unfolding full_path join
path_of_a = refl

rename_done : (rename a_rel b_rel (pipeline cached)).0 ≡ ok tt
unfolding rename lookup list_beq full_path join omni_fuse.FilePath.component_beq
    omni_fuse.Core.FileMutations.queue_modified omni_fuse.Core.FileMutations.send_or_warn
    omni_fuse.Core.FileMutations.send
rename_done = refl

close-rename_example :
    ((close open_a (rename a_rel b_rel (pipeline cached)).1).0 ≡ ok tt)
    × ((close open_a (rename a_rel b_rel (pipeline cached)).1).1.cache.disk
        ≡ (memory_files.rename
            (full_path a_rel (pipeline cached))
            (full_path b_rel (pipeline cached))
            cached.disk).1)
    × (((close open_a (rename a_rel b_rel (pipeline cached)).1).1.cache.heap 0).dirty ≡ true)
close-rename_example = close-rename open_a a_rel b_rel (pipeline cached) path_of_a rename_done

abbrev grown : FileAttr
grown = record {
  size = 9;
  blocks = 1;
  atime = 0;
  mtime = 0;
  ctime = 0;
  crtime = 5;
  kind = regular_file;
  perm = 420;
  nlink = 1;
  uid = 0;
  gid = 0;
  rdev = 0;
  flags = 0;
}

truncate_done : (truncate open_a 9 5 (pipeline cached)).0 ≡ ok grown
unfolding truncate lookup list_beq omni_fuse.FilePath.component_beq
    omni_fuse.Core.FileMutations.mark_modified omni_fuse.Core.FileMutations.send_or_warn
    omni_fuse.Core.FileMutations.send omni_fuse.Prelude.Map.insert
    omni_fuse.Core.FileMutations.metadata_to_attr
truncate_done = refl

flushed : (flush open_a (truncate open_a 9 5 (pipeline cached)).1).0 ≡ ok tt
unfolding flush truncate omni_fuse.Core.BufferManager.flush omni_fuse.Core.BufferManager.get lookup
    list_beq omni_fuse.FilePath.component_beq omni_fuse.Core.FileMutations.mark_modified
    omni_fuse.Core.FileMutations.send_or_warn omni_fuse.Core.FileMutations.send
    omni_fuse.Prelude.Map.insert Buffer.truncate
flushed = refl

flush-truncate_example :
    memory_files.read a_full (flush open_a (truncate open_a 9 5 (pipeline cached)).1).1.cache.disk
    ≡ ok (1 ∷ 7 ∷ 3 ∷ [])
unfolding lookup list_beq omni_fuse.FilePath.component_beq
flush-truncate_example =
    flush-truncate memory_files-IsLawful open_a 9 5 (pipeline cached) refl (omega arith)
      truncate_done flushed

queue-write_example :
    ((written cached).queue ≡ file_modified a_rel ∷ [])
    × ((written cached).events ≡ file_change a_rel ∷ file_written a_rel 2 ∷ [])
queue-write_example =
    queue-write open_a 2 (8 ∷ 9 ∷ []) 5 2 (pipeline cached) (written cached) write_done

-- A merge that keeps both additions.
abbrev append_merge : List ℕ → List ℕ → List ℕ → Merge
append_merge base local remote = ok (local ++ remote)

decide_text_merge-iff-Justified_example :
    (decide_text_merge append_merge (1 ∷ []) (2 ∷ []) (3 ∷ []) ≡ upload_merged (2 ∷ 3 ∷ []))
    ↔ Justified append_merge (1 ∷ []) (2 ∷ []) (3 ∷ []) (upload_merged (2 ∷ 3 ∷ []))
decide_text_merge-iff-Justified_example =
    decide_text_merge-iff-Justified append_merge (1 ∷ []) (2 ∷ []) (3 ∷ [])
      (upload_merged (2 ∷ 3 ∷ []))

-- `/a/./x` names the object `a/x`.
remote_name :
    from_remote (b'/' ∷ b'a' ∷ b'/' ∷ b'.' ∷ b'/' ∷ b'x' ∷ []) ≡ ok (b'a' ∷ b'/' ∷ b'x' ∷ [])
unfolding from_remote omni_fuse.S3.Path.validate_components omni_fuse.FilePath.is_absolute
    omni_fuse.FilePath.components omni_fuse.S3.Path.trim_matches omni_fuse.FilePath.collect_segments
    omni_fuse.FilePath.split omni_fuse.FilePath.segment_component list_beq
    omni_fuse.S3.Path.validate_each omni_fuse.FilePath.segment_components
    omni_fuse.S3.Path.join_parts omni_fuse.Core.TextMerge.Utf8.from_utf8_lossy
remote_name = refl

from_remote-safe_example :
    (names : List Name) × (all_safe names ≡ true)
    × (to_local_path (b'a' ∷ b'/' ∷ b'x' ∷ []) ≡ map normal names)
    × (join mount (to_local_path (b'a' ∷ b'/' ∷ b'x' ∷ [])) ≡ mount ++ map normal names)
    × (is_internal_path (to_local_path (b'a' ∷ b'/' ∷ b'x' ∷ [])) ≡ false)
    × (to_local_path (b'a' ∷ b'/' ∷ b'x' ∷ []) ≢ [])
from_remote-safe_example =
    from_remote-safe (b'/' ∷ b'a' ∷ b'/' ∷ b'.' ∷ b'/' ∷ b'x' ∷ []) (b'a' ∷ b'/' ∷ b'x' ∷ []) mount
      remote_name

local_name :
    from_local (cur_dir ∷ normal (b'a' ∷ []) ∷ normal (b'x' ∷ []) ∷ [])
    ≡ ok (b'a' ∷ b'/' ∷ b'x' ∷ [])
unfolding from_local omni_fuse.S3.Path.validate_components omni_fuse.FilePath.is_absolute
    omni_fuse.S3.Path.validate_each list_beq omni_fuse.S3.Path.join_parts
    omni_fuse.Core.TextMerge.Utf8.from_utf8_lossy
local_name = refl

to_local-from_local_example :
    to_local_path (b'a' ∷ b'/' ∷ b'x' ∷ []) ≡ normal (b'a' ∷ []) ∷ normal (b'x' ∷ []) ∷ []
unfolding list_beq omni_fuse.Core.TextMerge.Utf8.decode_utf8_text
to_local-from_local_example =
    to_local-from_local (cur_dir ∷ normal (b'a' ∷ []) ∷ normal (b'x' ∷ []) ∷ [])
      (b'a' ∷ b'/' ∷ b'x' ∷ []) refl refl local_name
