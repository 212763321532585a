-- ===== src/Wiki/Upload.antt =====
-- Uploading dirty files (crates/omnifuse-wiki/src/session.rs, `sync_dirty` and what it calls).
use omni_fuse.Prelude.{
  ℕ, ◌+◌, Bool, true, false, List, [], ◌∷◌, ◌++◌, Option, none, some, ◌==◌, list_eq, nat_eq,
  if◌then◌else◌, is_empty, ok, err,
}
use omni_fuse.FilePath.{FilePath, is_absolute, join}
use omni_fuse.Core.Backend.{SyncResult}
use omni_fuse.Core.FileSystem.{FileSystem}
use omni_fuse.Core.TextMerge.{
  Bytes, TextMergeDecision, upload_local, upload_merged, accept_remote, already_synced,
  decide_text_merge,
}
use omni_fuse.S3.Error.{Code}
use omni_fuse.Wiki.Error.{classify_wiki_error}
use omni_fuse.Wiki.Meta.{load_base}
use omni_fuse.Wiki.Page.{PageRef, from_path}
use omni_fuse.Wiki.PageIndex.{PageSnapshot}
use omni_fuse.Wiki.State.{
  PageFull, Outside, Session, W, ◌>>=◌, ◌>>◌, pure, remote, on_disk, read_text,
}
use omni_fuse.Wiki.Session.{
  or_empty, snapshot_from_page, title_from_slug, save_page_state, snapshot_for,
}

module _ {F : FileSystem} {O : Outside} where
  unfoldable pub local_dirty_path : FilePath → Session F O → FilePath
  local_dirty_path path s = if is_absolute path then path else join s.local_dir path

  unfoldable pub create_remote_page : PageRef → Bytes → W F O (Unit {0})
  create_remote_page page content = do
    made ← remote (O.create_page page.slug (title_from_slug page.slug) content)
    save_page_state page (snapshot_from_page made) content

  unfoldable pub update_remote_page :
      PageSnapshot → PageRef → Bytes → (allow_merge update_local : Bool) → W F O (Unit {0})
  update_remote_page snapshot page content allow_merge update_local = do
    updated ← remote (O.update_page snapshot.id snapshot.title content allow_merge)
    (if update_local then on_disk (F.write page.path content) else pure tt)
    save_page_state page (snapshot_from_page updated) content

  -- What is done on a page that changed on both sides: whether it is synchronized, not in conflict.
  unfoldable pub act_on_merge :
      FilePath → PageRef → PageSnapshot → PageFull → Bytes → TextMergeDecision → W F O Bool
  act_on_merge path page snapshot remote_page local upload_local = do
    update_remote_page snapshot page local true false
    pure true
  act_on_merge path page snapshot remote_page local (upload_merged merged) = do
    update_remote_page snapshot page merged true false
    on_disk (F.write path merged)
    pure true
  act_on_merge path page snapshot remote_page local (accept_remote text) = do
    on_disk (F.write path text)
    save_page_state page (snapshot_from_page remote_page) text
    pure true
  act_on_merge path page snapshot remote_page local already_synced = do
    save_page_state page (snapshot_from_page remote_page) (or_empty remote_page.content)
    pure true
  act_on_merge path page snapshot remote_page local TextMergeDecision.conflict = do
    update_remote_page snapshot page local true false
    pure false

  abbrev sync_known : FilePath → PageRef → Bytes → PageSnapshot → W F O (Option Bool)
  sync_known path page local snapshot = do
    remote_page ← remote (O.get_page_by_slug page.slug)
    if remote_page.modified_at == snapshot.modified_at
        then (do update_remote_page snapshot page local false false; pure (some true))
        else (λ s.
            (do
              synced ← act_on_merge path page snapshot remote_page local (
                  decide_text_merge O.merge (or_empty (load_base page.slug s)) local
                    (or_empty remote_page.content))
              pure (some synced))
              s)

  abbrev sync_page : FilePath → PageRef → Bytes → Option PageSnapshot → W F O (Option Bool)
  sync_page path page local none = do create_remote_page page local; pure (some true)
  sync_page path page local (some snapshot) = sync_known path page local snapshot

  -- `sync_dirty_file`: `none` for a file that is no page.
  unfoldable pub sync_dirty_file : FilePath → W F O (Option Bool)
  sync_dirty_file dirty s =
      let path = local_dirty_path dirty s in
      elim (from_path s.local_dir path) [
        | none ↦ (ok none, s)
        | some page ↦
            (do local ← read_text path; λ t. sync_page path page local (snapshot_for page t) t) s
      ]

  -- The loop of `sync_dirty`; an offline remote ends it.
  unfoldable pub sync_each :
      List FilePath → (synced : ℕ) (conflicts : List FilePath) → W F O SyncResult
  sync_each [] synced conflicts s = (
    ok (
        if is_empty conflicts
        then SyncResult.success synced
        else SyncResult.conflict synced conflicts),
    s,
  )
  sync_each (path ∷ paths) synced conflicts s =
      let (result, t) = sync_dirty_file path s in
      elim result [
        | ok none ↦ sync_each paths synced conflicts t
        | ok (some true) ↦ sync_each paths (synced + 1) conflicts t
        | ok (some false) ↦ sync_each paths synced (conflicts ++ (path ∷ [])) t
        | err e ↦ elim (classify_wiki_error e) [
          | none ↦ (err e, t)
          | some Code.not_found ↦ sync_each paths synced conflicts t
          | some Code.permission_denied ↦ sync_each paths synced conflicts t
          | some Code.offline ↦ (ok SyncResult.offline, t)
          | some Code.conflict ↦ sync_each paths synced (conflicts ++ (path ∷ [])) t
          | some Code.timeout ↦ (err e, t)
          | some Code.auth_failed ↦ (err e, t)
          | some Code.rate_limited ↦ (err e, t)
          | some Code.invalid_config ↦ (err e, t)
          | some Code.invalid_input ↦ (err e, t)
          | some Code.fs_io ↦ (err e, t)
          | some Code.backend_command_failed ↦ (err e, t)
          | some Code.protocol_violation ↦ (err e, t)
          | some Code.internal ↦ (err e, t)
        ]
      ]

  unfoldable pub sync_dirty : List FilePath → W F O SyncResult
  sync_dirty paths = sync_each paths 0 []
