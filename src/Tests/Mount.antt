-- ===== src/Tests/Mount.antt =====
-- The adapter over the virtual file system at concrete data.
use omni_fuse.Prelude.{
  ℕ, ◌≤◌, true, false, List, [], ◌∷◌, none, some, ◌≡◌, ◌≢◌, refl, ap, arith, Fallible, ok, err, map,
  nat_eq, list_eq, list_beq, list_beq_iff,
}
use omni_fuse.Prelude.Map.{lookup}
use omni_fuse.FilePath.{FilePath, Name, normal, component_eq}
use omni_fuse.Core.FileMutations.{OpenFile}
use omni_fuse.Core.Vfs.Mounted.{vfs_session, vfs_session-IsBounded, mounted-release-write}
use omni_fuse.Unifuse.Inode.{get_path, get_inode}
use omni_fuse.Unifuse.Inode.Consistent.{IsConsistent}
use omni_fuse.Unifuse.Inode.Subtree.{all_backed}
use omni_fuse.Core.FileMutations.{metadata_to_attr}
use omni_fuse.Unifuse.Session.{SessionFs}
use omni_fuse.Unifuse.Types.{DirPage, all_entries, entry_meta, OpenedNode, regular, regular_file}
use omni_fuse.Unifuse.Rfuse3.{
  Adapter, ReplyAttr, to_rfuse3_attr, DirectoryEntry, finished, unfinished,
}
use omni_fuse.Unifuse.Rfuse3.Calls
use omni_fuse.Unifuse.Rfuse3.Copy.{copy_file_range, copy_file_range-ends}
use omni_fuse.Unifuse.Rfuse3.Entries.{reply_to, reply_to-resolves, rename-resolves, lookup_call}
use omni_fuse.Unifuse.Rfuse3.Handles.{on_handle, release_call, release-once}
use omni_fuse.Unifuse.Rfuse3.Listing.{readdir-positions, positions}
use omni_fuse.Tests.Disk.{memory_files, memory_files-IsLawful, a_rel, b_rel, a_full}
use omni_fuse.Tests.Files.{open_a}
use omni_fuse.Tests.Vfs.{memory_directories, no_b, vfs, shown}

abbrev session : SessionFs
session = vfs_session memory_directories no_b (λ e. some 2)

abbrev node_a : OpenedNode
node_a = record { path = a_rel; handle = 1; kind = regular_file; attr = regular 3 420 0 }

-- The root has the inode 1, and `a` is open.
abbrev mounted : Adapter session
mounted = record {
  inner = (5, vfs);
  inode_map = record {
    inode_to_path = (1, []) ∷ (7, a_rel) ∷ [];
    path_to_inode = ([], 1) ∷ (a_rel, 7) ∷ [];
    root = [];
  };
  open_nodes = (1, node_a) ∷ [];
}

abbrev written : Adapter session
written = elim (Calls.write 1 2 (8 ∷ 9 ∷ []) mounted) [ none ↦ mounted | some (_, t) ↦ t ]

write_done : Calls.write 1 2 (8 ∷ 9 ∷ []) mounted ≡ some (ok 2, written)
unfolding Calls.write lookup omni_fuse.Core.Vfs.Session.write_from omni_fuse.Core.Vfs.write
    omni_fuse.Core.Vfs.mutation_for_handle_or_path omni_fuse.Core.FileMutations.write
    omni_fuse.Core.Buffer.write omni_fuse.Prelude.wrapping_add omni_fuse.Core.Buffer.copy_into
    omni_fuse.Core.Buffer.grow
write_done = refl

abbrev released : Adapter session
released = (Calls.release 1 (record written { inner = (9, written.inner.1) })).1

release_succeeds : (Calls.release 1 (record written { inner = (9, written.inner.1) })).0 ≡ ok tt
unfolding Calls.release lookup Calls.write omni_fuse.Core.Vfs.Session.write_from
    omni_fuse.Core.Vfs.write omni_fuse.Core.Vfs.mutation_for_handle_or_path
    omni_fuse.Core.FileMutations.write omni_fuse.Core.Buffer.write omni_fuse.Prelude.wrapping_add
    omni_fuse.Core.Buffer.copy_into omni_fuse.Core.Buffer.grow
    omni_fuse.Core.Vfs.Session.session_close omni_fuse.Core.Vfs.release
    omni_fuse.Core.Vfs.removed_or_opened omni_fuse.Core.FileMutations.close
    omni_fuse.Core.FileMutations.flush omni_fuse.Core.BufferManager.flush
    omni_fuse.Core.BufferManager.flush_buffer omni_fuse.Core.BufferManager.get
    omni_fuse.Core.FileMutations.mark_closed omni_fuse.Core.FileMutations.mark_modified
    omni_fuse.Core.FileMutations.queue_modified omni_fuse.Core.FileMutations.send
    omni_fuse.Core.FileMutations.send_or_warn omni_fuse.FilePath.component_beq list_beq
    omni_fuse.Prelude.Map.erase omni_fuse.Prelude.Map.insert
release_succeeds = refl

release_done : Calls.release 1 (record written { inner = (9, written.inner.1) }) ≡ (ok tt, released)
release_done = ap (λ r. (r, released)) release_succeeds

mounted-release-write_example :
    (memory_files.read a_full released.inner.1.pipeline.cache.disk
      ≡ ok (written.inner.1.pipeline.cache.heap 0).content)
    × (lookup 1 released.open_nodes ≡ none)
    × (lookup 1 released.inner.1.open_files ≡ none)
unfolding lookup list_beq omni_fuse.FilePath.component_beq
mounted-release-write_example =
    mounted-release-write memory_directories no_b (λ e. some 2) memory_files-IsLawful 1 2 2 9
      (8 ∷ 9 ∷ []) node_a open_a mounted written released refl refl refl refl write_done
      release_done

release-once_example :
    (on_handle release_call 1 (Calls.release 1 mounted).1 ≡ (err 9, (Calls.release 1 mounted).1))
    × (Calls.read 1 0 4 (Calls.release 1 mounted).1 ≡ some (err 9, (Calls.release 1 mounted).1))
    × (Calls.write 1 0 (8 ∷ []) (Calls.release 1 mounted).1
        ≡ some (err 9, (Calls.release 1 mounted).1))
release-once_example = release-once release_call 1 0 4 (8 ∷ []) mounted

copy_file_range-ends_example :
    (copy_file_range 1 0 1 4 2 mounted ≢ unfinished)
    × ((n : ℕ) (t : Adapter session)
        → copy_file_range 1 0 1 4 2 mounted ≡ finished (ok n, t)
        → n ≤ 2)
copy_file_range-ends_example =
    copy_file_range-ends (vfs_session-IsBounded memory_directories no_b (λ e. some 2)) 1 0 1 4 2
      mounted

abbrev page : DirPage
page = all_entries (map entry_meta shown)

abbrev from_second : List DirectoryEntry
from_second = elim (Calls.readdir 1 2 mounted).0 [ err e ↦ [] | ok found ↦ found ]

page_read : (session.read_dir [] (record { offset = 0; limit = none }) mounted.inner).0 ≡ ok page
unfolding omni_fuse.Core.Vfs.Session.session_read_dir omni_fuse.Core.Vfs.readdir
    omni_fuse.Core.Vfs.read_entries omni_fuse.Core.Vfs.is_hidden list_beq omni_fuse.FilePath.join
    omni_fuse.FilePath.components omni_fuse.FilePath.collect_segments omni_fuse.FilePath.split
    omni_fuse.FilePath.segment_component omni_fuse.FilePath.component_beq
    omni_fuse.FilePath.segment_components omni_fuse.Core.Vfs.Session.page_of
    omni_fuse.Core.Vfs.raw_kind omni_fuse.Core.TextMerge.Utf8.from_utf8_lossy
page_read = refl

readdir_succeeds : (Calls.readdir 1 2 mounted).0 ≡ ok from_second
unfolding Calls.readdir Calls.resolve_path get_path lookup
    omni_fuse.Core.Vfs.Session.session_read_dir omni_fuse.Core.Vfs.readdir
    omni_fuse.Core.Vfs.read_entries omni_fuse.Core.Vfs.is_hidden list_beq omni_fuse.FilePath.join
    omni_fuse.FilePath.components omni_fuse.FilePath.collect_segments omni_fuse.FilePath.split
    omni_fuse.FilePath.segment_component omni_fuse.FilePath.component_beq
    omni_fuse.FilePath.segment_components Calls.list_entries omni_fuse.Core.Vfs.Session.page_of
    omni_fuse.Core.Vfs.raw_kind omni_fuse.FilePath.is_absolute omni_fuse.Prelude.Map.insert
    omni_fuse.Unifuse.Inode.get_or_insert omni_fuse.Unifuse.Rfuse3.to_node_kind
    omni_fuse.Core.TextMerge.Utf8.from_utf8_lossy
readdir_succeeds = refl

readdir_done : Calls.readdir 1 2 mounted ≡ (ok from_second, (Calls.readdir 1 2 mounted).1)
readdir_done = ap (λ r. (r, (Calls.readdir 1 2 mounted).1)) readdir_succeeds

readdir-positions_example : positions from_second ≡ (b'a' ∷ [], 3) ∷ (b'c' ∷ [], 4) ∷ []
unfolding get_path lookup omni_fuse.Unifuse.Rfuse3.Listing.numbered
readdir-positions_example =
    readdir-positions 1 2 [] page from_second mounted (Calls.readdir 1 2 mounted).1 refl page_read
      readdir_done

mounted-IsConsistent : IsConsistent mounted.inode_map
unfolding get_inode get_path lookup
mounted-IsConsistent path inode h = ground (arith, list_beq_iff path [], list_beq_iff path a_rel)

abbrev looked_up : Adapter session
looked_up = (reply_to lookup_call 1 (b'a' ∷ []) mounted).1

abbrev entry_a : ReplyAttr
entry_a =
    to_rfuse3_attr
      (metadata_to_attr
        (record {
          len = 3;
          accessed = some 0;
          modified = some 0;
          created = none;
          is_dir = false;
          is_symlink = false;
          mode = 33188;
          nlink = 1;
          uid = 0;
          gid = 0;
        })
        5)
      7

lookup_succeeds : (reply_to lookup_call 1 (b'a' ∷ []) mounted).0 ≡ ok entry_a
unfolding reply_to Calls.lookup Calls.child Calls.resolve_path get_path lookup
    omni_fuse.Core.Vfs.Session.session_lookup omni_fuse.Core.Vfs.getattr list_beq
    omni_fuse.Core.Vfs.full_path omni_fuse.FilePath.join omni_fuse.FilePath.components
    omni_fuse.FilePath.collect_segments omni_fuse.FilePath.split
    omni_fuse.FilePath.segment_component omni_fuse.FilePath.component_beq
    omni_fuse.FilePath.segment_components omni_fuse.Unifuse.Inode.get_or_insert metadata_to_attr
    omni_fuse.Core.FileMutations.unix_nlink omni_fuse.Core.FileMutations.unix_perm
    omni_fuse.FilePath.is_absolute omni_fuse.Prelude.Map.insert
    omni_fuse.Unifuse.Inode.compute_inode omni_fuse.Unifuse.Inode.fnv
    omni_fuse.Unifuse.Inode.path_text Calls.create Calls.mkdir Calls.mknod Calls.symlink
    omni_fuse.Unifuse.Rfuse3.decode_open_flags omni_fuse.Unifuse.Rfuse3.system_time_to_timestamp
    omni_fuse.Unifuse.Rfuse3.to_node_kind to_rfuse3_attr omni_fuse.Unifuse.Types.to_errno
    omni_fuse.Core.TextMerge.Utf8.from_utf8_lossy
lookup_succeeds = refl

lookup_done : reply_to lookup_call 1 (b'a' ∷ []) mounted ≡ (ok entry_a, looked_up)
lookup_done = ap (λ r. (r, looked_up)) lookup_succeeds

reply_to-resolves_example : get_path 7 looked_up.inode_map ≡ some a_rel
unfolding get_path lookup to_rfuse3_attr omni_fuse.FilePath.join omni_fuse.FilePath.components
    omni_fuse.FilePath.collect_segments omni_fuse.FilePath.split
    omni_fuse.FilePath.segment_component list_beq omni_fuse.FilePath.segment_components
reply_to-resolves_example =
    reply_to-resolves lookup_call 1 (b'a' ∷ []) [] entry_a mounted looked_up mounted-IsConsistent
      refl lookup_done

abbrev moved_away : Adapter session
moved_away = (Calls.rename 1 (b'a' ∷ []) 1 (b'b' ∷ []) mounted).1

rename_succeeds : (Calls.rename 1 (b'a' ∷ []) 1 (b'b' ∷ []) mounted).0 ≡ ok tt
unfolding Calls.rename Calls.rename_with Calls.child Calls.resolve_path get_path lookup
    omni_fuse.Core.Vfs.Session.mutate omni_fuse.Core.Vfs.rename omni_fuse.Core.FileMutations.rename
    list_beq omni_fuse.Core.FileMutations.full_path omni_fuse.FilePath.join
    omni_fuse.FilePath.components omni_fuse.FilePath.collect_segments omni_fuse.FilePath.split
    omni_fuse.FilePath.segment_component omni_fuse.FilePath.component_beq
    omni_fuse.FilePath.segment_components omni_fuse.Core.Buffer.truncate
    omni_fuse.Core.Buffer.with_mtime omni_fuse.Core.BufferManager.cache_with_mtime
    omni_fuse.Core.BufferManager.evict_loop omni_fuse.Core.BufferManager.evict_oldest
    omni_fuse.Core.BufferManager.evict_turn omni_fuse.Core.BufferManager.get
    omni_fuse.Core.BufferManager.get_or_load omni_fuse.Core.BufferManager.insert_buffer
    omni_fuse.Core.BufferManager.load_from_disk omni_fuse.Core.BufferManager.max_memory_bytes
    omni_fuse.Core.BufferManager.maybe_evict omni_fuse.Core.BufferManager.remove
    omni_fuse.Core.BufferManager.remove_first omni_fuse.Core.BufferManager.requeue
    omni_fuse.Core.BufferManager.touch omni_fuse.Core.FileMutations.create_file
    omni_fuse.Core.FileMutations.mark_modified metadata_to_attr
    omni_fuse.Core.FileMutations.open_file omni_fuse.Core.FileMutations.queue_modified
    omni_fuse.Core.FileMutations.send omni_fuse.Core.FileMutations.send_or_warn
    omni_fuse.Core.FileMutations.symlink omni_fuse.Core.FileMutations.truncate
    omni_fuse.Core.FileMutations.unix_nlink omni_fuse.Core.FileMutations.unix_perm
    omni_fuse.Core.FileMutations.unlink omni_fuse.Core.Vfs.full_path omni_fuse.Core.Vfs.getattr
    omni_fuse.Core.Vfs.mkdir omni_fuse.Core.Vfs.removexattr omni_fuse.Core.Vfs.rmdir
    omni_fuse.Core.Vfs.set_mode_unix omni_fuse.Core.Vfs.set_times_unix omni_fuse.Core.Vfs.setattr
    omni_fuse.Core.Vfs.setxattr omni_fuse.Core.Vfs.symlink omni_fuse.Core.Vfs.unlink
    omni_fuse.FilePath.is_absolute omni_fuse.FilePath.strip_prefix omni_fuse.Prelude.Map.erase
    omni_fuse.Prelude.Map.insert omni_fuse.Prelude.saturating_add omni_fuse.Prelude.wrapping_add
    omni_fuse.Unifuse.Inode.apply_updates omni_fuse.Unifuse.Inode.move_entry
    omni_fuse.Unifuse.Inode.rename_subtree omni_fuse.Unifuse.Inode.subtree_updates
    omni_fuse.Unifuse.Types.directory_attr regular omni_fuse.Unifuse.Types.to_errno
rename_succeeds = refl

rename_done : Calls.rename 1 (b'a' ∷ []) 1 (b'b' ∷ []) mounted ≡ (ok tt, moved_away)
rename_done = ap (λ r. (r, moved_away)) rename_succeeds

rename-resolves_example :
    (get_path 7 moved_away.inode_map ≡ some b_rel)
    × (all_backed moved_away.inode_map.inode_to_path moved_away.inode_map.path_to_inode ≡ true)
unfolding get_path lookup omni_fuse.Prelude.option_beq list_beq omni_fuse.FilePath.component_beq
    omni_fuse.Unifuse.Inode.get_inode omni_fuse.FilePath.strip_prefix omni_fuse.FilePath.join
    omni_fuse.FilePath.components omni_fuse.FilePath.collect_segments omni_fuse.FilePath.split
    omni_fuse.FilePath.segment_component omni_fuse.FilePath.segment_components
rename-resolves_example =
    rename-resolves 1 (b'a' ∷ []) 1 (b'b' ∷ []) [] [] a_rel 7 mounted moved_away refl refl refl refl
      rename_done
