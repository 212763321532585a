-- ===== src/Wiki/Refresh.antt =====
-- Remote changes of the wiki (crates/omnifuse-wiki/src/session.rs, `poll_remote`, `refresh_remote` and
-- `apply_remote`).
pub mod Guard
use omni_fuse.Prelude.{
  ℕ, ◌+◌, Bool, true, not, List, [], ◌∷◌, ◌++◌, Option, none, some, ◌==◌, list_eq, nat_eq,
  if◌then◌else◌, is_empty, keep, ok, err, map,
}
use omni_fuse.FilePath.{FilePath, component_eq}
use omni_fuse.Core.Backend.{RemoteApplyMode, RemoteDeferReason, RemoteRefresh, RemoteRefreshResult}
use omni_fuse.Core.FileSystem.{FileSystem}
use omni_fuse.Core.TextMerge.{Bytes}
use omni_fuse.Wiki.Meta.{save_base, remove, parent}
use omni_fuse.Wiki.Page.{PageRef, from_path}
use omni_fuse.Wiki.PageIndex
use omni_fuse.Wiki.PageIndex.{PageSnapshot}
use omni_fuse.Wiki.Session.{
  collect_tree_nodes, node_snapshot, page_of, read_page_cached, save_page_state, snapshot_for,
}
use omni_fuse.Wiki.State.{PageNode, Outside, W, ◌>>=◌, ◌>>◌, pure, remote, on_disk, change_index}

pub data RemoteChange : Type 0 where
  modified : (path : FilePath) (content : Bytes) → RemoteChange
  deleted : (path : FilePath) → RemoteChange

abbrev pub change_path : RemoteChange → FilePath
change_path (modified path content) = path
change_path (deleted path) = path

pub record RemoteBatch : Type 0 where
  pub changes : List RemoteChange
  pub snapshots : List (PageRef × PageSnapshot)

pub record ApplyReport : Type 0 where
  pub modified : ℕ
  pub deleted : ℕ

-- `snapshot_for_path`
unfoldable pub snapshot_for_path :
    FilePath → List (PageRef × PageSnapshot) → Option (PageRef × PageSnapshot)
snapshot_for_path path [] = none
snapshot_for_path path ((page, snapshot) ∷ snapshots) =
    let rest = snapshot_for_path path snapshots in
    if page.path == path then some (page, snapshot) else rest

unfoldable pub modified_paths : List RemoteChange → List FilePath
modified_paths [] = []
modified_paths (modified path content ∷ changes) = path ∷ modified_paths changes
modified_paths (deleted path ∷ changes) = modified_paths changes

unfoldable pub deleted_paths : List RemoteChange → List FilePath
deleted_paths [] = []
deleted_paths (modified path content ∷ changes) = deleted_paths changes
deleted_paths (deleted path ∷ changes) = path ∷ deleted_paths changes

-- `is_none_or`: no snapshot, or one of another time.
abbrev pub needs_update : Option PageSnapshot → PageNode → Bool
needs_update none node = true
needs_update (some snapshot) node = not (snapshot.modified_at == node.modified_at)

abbrev counted : RemoteChange → ApplyReport → ApplyReport
counted (modified path content) report = record report { modified = report.modified + 1 }
counted (deleted path) report = record report { deleted = report.deleted + 1 }

module _ {F : FileSystem} {O : Outside} where
  -- One turn of the loop of `poll_remote`.
  unfoldable pub poll_node : PageNode → RemoteBatch → W F O RemoteBatch
  poll_node node batch = do
    page ← page_of node.slug
    λ s.
        if needs_update (snapshot_for page s) node
        then (do
          content ← read_page_cached page.slug node.modified_at
          pure (record {
            changes = batch.changes ++ (modified page.path content ∷ []);
            snapshots = batch.snapshots ++ ((page, node_snapshot node) ∷ []);
          }))
            s
        else (ok batch, s)

  unfoldable pub poll_nodes : List PageNode → RemoteBatch → W F O RemoteBatch
  poll_nodes [] batch s = (ok batch, s)
  poll_nodes (node ∷ nodes) batch s =
      let (result, t) = poll_node node batch s in
      elim result [ err e ↦ (err e, t) | ok batch' ↦ poll_nodes nodes batch' t ]

  unfoldable pub poll_remote : W F O RemoteBatch
  poll_remote s =
      (do
        tree ← remote (O.get_page_tree s.config.root_slug s.config.max_pages s.config.max_depth)
        poll_nodes (collect_tree_nodes tree s.config.max_depth 0)
            (record { changes = []; snapshots = [] }))
        s

  abbrev save_modified : Option (PageRef × PageSnapshot) → Option PageRef → Bytes → W F O (Unit {0})
  save_modified (some (page, snapshot)) other content = save_page_state page snapshot content
  save_modified none (some page) content = save_base page.slug content
  save_modified none none content = pure tt

  abbrev forget_page : Option PageRef → FilePath → W F O (Unit {0})
  forget_page none path = pure tt
  forget_page (some page) path = do remove page.slug; change_index (PageIndex.remove_path path)

  -- The content was read as text, so that `from_utf8_lossy` changes nothing.
  unfoldable pub apply_change : List (PageRef × PageSnapshot) → RemoteChange → W F O (Unit {0})
  apply_change snapshots (modified path content) s =
      (do
        on_disk (F.create_dir_all (parent path))
        on_disk (F.write path content)
        save_modified (snapshot_for_path path snapshots) (from_path s.local_dir path) content)
        s
  apply_change snapshots (deleted path) s =
      forget_page (from_path s.local_dir path) path
        (record s { disk = (F.remove_file path s.disk).1 })

  unfoldable pub apply_each :
      List (PageRef × PageSnapshot) → List RemoteChange → ApplyReport → W F O ApplyReport
  apply_each snapshots [] report s = (ok report, s)
  apply_each snapshots (change ∷ changes) report s =
      let (result, t) = apply_change snapshots change s in
      elim result [
        | err e ↦ (err e, t)
        | ok _ ↦ apply_each snapshots changes (counted change report) t
      ]

  unfoldable pub apply_remote : RemoteBatch → W F O ApplyReport
  apply_remote batch =
      apply_each batch.snapshots batch.changes (record { modified = 0; deleted = 0 })

  -- `refresh_remote` once the changes are known.
  unfoldable pub refresh_batch : RemoteRefresh → RemoteBatch → W F O RemoteRefreshResult
  refresh_batch request batch s =
      let guarded = keep request.protected_paths (map change_path batch.changes) in
      let changed = modified_paths batch.changes in
      let gone = deleted_paths batch.changes in
      if is_empty batch.changes
      then (ok RemoteRefreshResult.unchanged, s)
      else if not (is_empty guarded)
      then (ok (RemoteRefreshResult.deferred guarded RemoteDeferReason.protected_local_change), s)
      else elim request.mode [
        | RemoteApplyMode.detect_only ↦
            (ok (RemoteRefreshResult.deferred (changed ++ gone) RemoteDeferReason.detect_only), s)
        | RemoteApplyMode.apply_safe ↦
            let (applied, t) = apply_remote batch s in
            elim applied [
              | err e ↦ (err e, t)
              | ok report ↦ (ok (RemoteRefreshResult.applied changed gone), t)
            ]
      ]

  unfoldable pub refresh_remote : RemoteRefresh → W F O RemoteRefreshResult
  refresh_remote request = do batch ← poll_remote; refresh_batch request batch
