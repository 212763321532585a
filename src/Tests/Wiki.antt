-- ===== src/Tests/Wiki.antt =====
-- The wiki session at concrete data: a remote in memory with one page under the root.
use omni_fuse.Prelude.{
  ℕ, true, false, List, [], ◌∷◌, ◌++◌, Option, none, some, ◌≡◌, ◌≢◌, refl, Fallible, ok, err,
  list_eq, nat_eq,
}
use omni_fuse.FilePath.{FilePath, Name, normal, component_eq}
use omni_fuse.Core.Backend.{RemoteRefresh, RemoteApplyMode, RemoteRefreshResult}
use omni_fuse.Core.TextMerge.{Bytes}
use omni_fuse.Wiki.Page.{PageRef, md}
use omni_fuse.Wiki.Page.Paths.{from_slug_collision}
use omni_fuse.Wiki.PageIndex.{PageSnapshot, PageEntry, empty_index, by_path, by_slug}
use omni_fuse.Wiki.PageIndex.Consistent.{Op, insert_op, remove_op, run, by_path-run}
use omni_fuse.Wiki.State.{PageNode, childless, PageFull, Outside, Session}
use omni_fuse.Wiki.Refresh.{refresh_remote}
use omni_fuse.Wiki.Refresh.Guard.{Outcome, refresh_remote-guards}
use omni_fuse.Tests.Disk.{memory_files, mount, a_full}

-- The pages `x` and `x.y`, with one local file.
abbrev x_full : FilePath
x_full = mount ++ (normal (b'x' ∷ b'.' ∷ md) ∷ [])

abbrev x_page : PageRef
x_page = record { slug = b'x' ∷ []; path = x_full }

abbrev dotted_page : PageRef
dotted_page = record { slug = b'x' ∷ b'.' ∷ b'y' ∷ []; path = x_full }

from_slug_collision_example : (x_full ≡ x_full) × (dotted_page.slug ≢ x_page.slug)
unfolding omni_fuse.Prelude.contains omni_fuse.Wiki.Page.from_slug omni_fuse.FilePath.is_absolute
    omni_fuse.Wiki.Page.is_valid_page_slug omni_fuse.Wiki.Page.no_bad_segment
    omni_fuse.FilePath.split omni_fuse.Prelude.list_beq omni_fuse.Wiki.Page.set_extension
    omni_fuse.FilePath.segment_components omni_fuse.FilePath.segment_component
    omni_fuse.Wiki.Page.file_stem omni_fuse.Wiki.Page.around_last_dot
from_slug_collision_example =
    from_slug_collision mount b'x' [] (b'y' ∷ []) x_page dotted_page refl refl refl refl refl refl

abbrev first : PageSnapshot
first = record { id = 1; title = b'T' ∷ []; modified_at = b'1' ∷ [] }

-- The second page takes the path of the first one over.
abbrev ops : List Op
ops = insert_op x_page first ∷ insert_op dotted_page first ∷ remove_op a_full ∷ []

abbrev dotted_entry : PageEntry
dotted_entry = record { page_ref = dotted_page; snapshot = first }

by_path-run_example :
    (dotted_entry.page_ref.path ≡ x_full)
    × (by_slug dotted_entry.page_ref.slug (run ops empty_index) ≡ some dotted_entry)
unfolding by_path omni_fuse.Prelude.Map.lookup run omni_fuse.Wiki.PageIndex.remove_path
    omni_fuse.Wiki.PageIndex.insert omni_fuse.Prelude.Map.insert omni_fuse.Prelude.list_beq
    omni_fuse.FilePath.component_beq
by_path-run_example = by_path-run ops x_full dotted_entry refl

abbrev full : PageFull
full = record { id = 1; title = b'T' ∷ []; modified_at = b'2' ∷ []; content = some (b'h' ∷ []) }

abbrev x_node : PageNode
x_node = record { id = 1; slug = b'x' ∷ []; title = b'T' ∷ []; modified_at = b'2' ∷ [] }

abbrev memory_wiki : Outside
memory_wiki = record {
  State = Unit;
  get_page_tree = λ root max_pages max_depth s. (ok (childless x_node), s);
  get_page_by_slug = λ slug s. (ok full, s);
  create_page = λ slug title content s. (ok full, s);
  update_page = λ id title content allow_merge s. (ok full, s);
  cache_get = λ slug revision s. (none, s);
  cache_put = λ slug revision bytes s. s;
  to_json = λ meta. ok [];
  from_json = λ bytes. none;
  merge = λ base local remote. ok (local ++ remote);
}

-- The remote has a page that the session does not know.
abbrev session : Session memory_files memory_wiki
session = record {
  config = record { root_slug = []; max_depth = 3; max_pages = 10 };
  local_dir = mount;
  page_index = empty_index;
  has_cache = false;
  disk = [];
  outside = tt;
}

abbrev refresh : RemoteRefresh
refresh = record { protected_paths = λ path. false; mode = RemoteApplyMode.apply_safe }

refresh_remote-guards_example :
    Outcome
      (λ _. false)
      (RemoteRefreshResult.applied (x_full ∷ []) [])
      (refresh_remote refresh session).1
      session
unfolding refresh_remote omni_fuse.Wiki.Refresh.poll_remote omni_fuse.Wiki.Refresh.poll_nodes
    omni_fuse.Wiki.Session.collect_tree_nodes omni_fuse.Wiki.Refresh.poll_node
    omni_fuse.Wiki.Page.from_slug omni_fuse.FilePath.is_absolute
    omni_fuse.Wiki.Page.is_valid_page_slug omni_fuse.Wiki.Page.new_slug
    omni_fuse.Wiki.Page.strip_suffix omni_fuse.Wiki.Page.replace_backslash
    omni_fuse.Prelude.list_beq omni_fuse.Wiki.Page.no_bad_segment omni_fuse.FilePath.split
    omni_fuse.Wiki.Session.snapshot_for by_path omni_fuse.Prelude.Map.lookup
    omni_fuse.Core.TextMerge.Utf8.decode_utf8_text omni_fuse.FilePath.component_beq
    omni_fuse.FilePath.segment_component omni_fuse.FilePath.segment_components
    omni_fuse.FilePath.strip_prefix omni_fuse.Prelude.Map.erase omni_fuse.Prelude.Map.insert
    omni_fuse.Unifuse.Inode.path_text omni_fuse.Wiki.Meta.base_path omni_fuse.Wiki.Meta.load_meta
    omni_fuse.Wiki.Meta.meta_path omni_fuse.Wiki.Meta.remove omni_fuse.Wiki.Meta.save_base
    omni_fuse.Wiki.Meta.save_meta omni_fuse.Wiki.Meta.slug_to_path omni_fuse.Wiki.Meta.with_suffix
    omni_fuse.Wiki.Page.around_last_dot omni_fuse.Wiki.Page.extension omni_fuse.Wiki.Page.file_stem
    omni_fuse.Wiki.Page.from_path omni_fuse.Wiki.Page.has_vfs_component
    omni_fuse.Wiki.Page.name_extension omni_fuse.Wiki.Page.set_extension
    omni_fuse.Wiki.PageIndex.insert omni_fuse.Wiki.PageIndex.remove_path
    omni_fuse.Wiki.Refresh.apply_change omni_fuse.Wiki.Refresh.apply_each
    omni_fuse.Wiki.Refresh.apply_remote omni_fuse.Wiki.Refresh.deleted_paths
    omni_fuse.Wiki.Refresh.modified_paths omni_fuse.Wiki.Refresh.refresh_batch
    omni_fuse.Wiki.Refresh.snapshot_for_path omni_fuse.Wiki.Session.cache_after_update
    omni_fuse.Wiki.Session.page_meta omni_fuse.Wiki.Session.read_page_cached
    omni_fuse.Wiki.Session.save_page_state
refresh_remote-guards_example =
    refresh_remote-guards refresh session (RemoteRefreshResult.applied (x_full ∷ []) []) refl
