-- ===== src/Wiki/Refresh/Guard.antt =====
-- Protected paths of a refresh (crates/omnifuse-wiki/src/session.rs, `refresh_remote`).
use omni_fuse.Prelude.{
  ℕ, ◌≡◌, refl, true, false, Bool, List, [], ◌∷◌, Option, none, some, inl, inr, arith, list_eq,
  nat_eq, map, keep, ok, Fallible-cases, Option-cases,
}
use omni_fuse.FilePath.{FilePath}
use omni_fuse.Core.Backend.{RemoteRefresh, RemoteRefreshResult}
use omni_fuse.Core.FileSystem.{FileSystem}
use omni_fuse.Core.TextMerge.{Bytes}
use omni_fuse.Core.TextMerge.Utf8.{decode_utf8_text}
use omni_fuse.Wiki.Page.{Slug, from_slug, new_slug}
use omni_fuse.Wiki.Session.{collect_tree_nodes, read_and_cache, cached_or_read, read_page_cached}
use omni_fuse.Wiki.State.{PageNode, Outside, Session}
use omni_fuse.Wiki.Refresh.{
  RemoteChange, modified, deleted, change_path, RemoteBatch, modified_paths, deleted_paths,
  poll_node, poll_nodes, poll_remote, refresh_batch, refresh_remote,
}

abbrev pub is_applied : RemoteRefreshResult → Bool
is_applied (RemoteRefreshResult.applied _ _) = true
is_applied _ = false

-- No path is protected.
abbrev pub AllFree : (FilePath → Bool) → List FilePath → Type 0
AllFree guarded paths = keep guarded paths ≡ []

keep-modified_paths :
    (guarded : FilePath → Bool) (changes : List RemoteChange)
    → keep guarded (map change_path changes) ≡ []
    → AllFree guarded (modified_paths changes) × AllFree guarded (deleted_paths changes)
unfolding modified_paths deleted_paths
keep-modified_paths guarded [] free = (refl, refl)
keep-modified_paths guarded (modified path content ∷ changes) free =
    ground (arith, keep-modified_paths guarded changes)
keep-modified_paths guarded (deleted path ∷ changes) free =
    ground (arith, keep-modified_paths guarded changes)

module _ {F : FileSystem} {O : Outside} where
  -- The same local files and the same index.
  abbrev pub SameFiles : Session F O → Session F O → Type 0
  SameFiles t s = (t.disk ≡ s.disk) × (t.page_index ≡ s.page_index)

  read_and_cache-SameFiles :
      (slug : Slug) (revision : List ℕ) (s : Session F O)
      → SameFiles (read_and_cache slug revision s).1 s
  read_and_cache-SameFiles slug revision s =
      elim (Fallible-cases (O.get_page_by_slug slug s.outside).0) [
        | inl (e, failed) ↦ ground (arith, failed)
        | inr (page, got) ↦ ground (arith, got)
      ]

  cached_or_read-SameFiles :
      (slug : Slug) (revision : List ℕ) (hit : Option Bytes) (s : Session F O)
      → SameFiles (cached_or_read slug revision hit s).1 s
  cached_or_read-SameFiles slug revision none s = read_and_cache-SameFiles slug revision s
  cached_or_read-SameFiles slug revision (some bytes) s =
      elim (Option-cases (decode_utf8_text bytes)) [
        | inl broken ↦ ground (arith, broken, read_and_cache-SameFiles slug revision s)
        | inr (text, valid) ↦ ground (arith, valid)
      ]

  read_page_cached-SameFiles :
      (slug : Slug) (revision : List ℕ) (s : Session F O)
      → SameFiles (read_page_cached slug revision s).1 s
  unfolding read_page_cached
  read_page_cached-SameFiles slug revision s =
      let (hit, outside) = O.cache_get slug revision s.outside in
      let cached = cached_or_read-SameFiles slug revision hit (record s { outside = outside }) in
      elim (Fallible-cases (O.get_page_by_slug slug s.outside).0) [
        | inl (e, failed) ↦ ground (arith, failed, cached)
        | inr (page, got) ↦ ground (arith, got, cached)
      ]

  poll_node-SameFiles :
      (node : PageNode) (batch : RemoteBatch) (s : Session F O)
      → SameFiles (poll_node node batch s).1 s
  unfolding poll_node
  poll_node-SameFiles node batch s =
      elim (Option-cases (from_slug s.local_dir (new_slug node.slug))) [
        | inl unknown ↦ ground (arith, unknown)
        | inr (page, known) ↦
            let same = read_page_cached-SameFiles page.slug node.modified_at s in
            elim (Fallible-cases (read_page_cached page.slug node.modified_at s).0) [
              | inl (e, failed) ↦ ground (arith, known, failed, same)
              | inr (content, read) ↦ ground (arith, known, read, same)
            ]
      ]

  poll_nodes-SameFiles :
      (nodes : List PageNode) (batch : RemoteBatch) (s : Session F O)
      → SameFiles (poll_nodes nodes batch s).1 s
  unfolding poll_nodes
  poll_nodes-SameFiles [] batch s = (refl, refl)
  poll_nodes-SameFiles (node ∷ nodes) batch s =
      let t = (poll_node node batch s).1 in
      let same = poll_node-SameFiles node batch s in
      elim (Fallible-cases (poll_node node batch s).0) [
        | inl (e, failed) ↦ ground (arith, failed, same)
        | inr (batch', polled) ↦ ground (arith, polled, same, poll_nodes-SameFiles nodes batch' t)
      ]

  poll_remote-SameFiles : (s : Session F O) → SameFiles (poll_remote s).1 s
  unfolding poll_remote
  poll_remote-SameFiles s =
      let got =
        O.get_page_tree s.config.root_slug s.config.max_pages s.config.max_depth s.outside in
      elim (Fallible-cases got.0) [
        | inl (e, failed) ↦ ground (arith, failed)
        | inr (tree, fetched) ↦ ground (
          arith,
          fetched,
          poll_nodes-SameFiles (collect_tree_nodes tree s.config.max_depth 0)
              (record { changes = []; snapshots = [] }) (record s { outside = got.1 }),
        )
      ]

  refresh_batch-SameFiles :
      (request : RemoteRefresh) (batch : RemoteBatch) (s : Session F O)
      (result : RemoteRefreshResult)
      → is_applied result ≡ false
      → (refresh_batch request batch s).0 ≡ ok result
      → SameFiles (refresh_batch request batch s).1 s
  unfolding refresh_batch
  refresh_batch-SameFiles request batch s result not_applied h = ground arith

  refresh_batch-free :
      (request : RemoteRefresh) (batch : RemoteBatch) (s : Session F O)
      (changed gone : List FilePath)
      → (refresh_batch request batch s).0 ≡ ok (RemoteRefreshResult.applied changed gone)
      → AllFree request.protected_paths changed × AllFree request.protected_paths gone
  unfolding refresh_batch
  refresh_batch-free request batch s changed gone h =
      ground (arith, keep-modified_paths request.protected_paths batch.changes)

  refresh_remote_deferred :
      (request : RemoteRefresh) (s : Session F O) (result : RemoteRefreshResult)
      → is_applied result ≡ false
      → (refresh_remote request s).0 ≡ ok result
      → SameFiles (refresh_remote request s).1 s
  unfolding refresh_remote
  refresh_remote_deferred request s result not_applied h =
      let t = (poll_remote s).1 in
      elim (Fallible-cases (poll_remote s).0) [
        | inl (e, failed) ↦ absurd (ground (arith, failed))
        | inr (batch, polled) ↦ ground (
          arith,
          polled,
          poll_remote-SameFiles s,
          refresh_batch-SameFiles request batch t result not_applied,
        )
      ]

  refresh_remote_free :
      (request : RemoteRefresh) (s : Session F O) (changed gone : List FilePath)
      → (refresh_remote request s).0 ≡ ok (RemoteRefreshResult.applied changed gone)
      → AllFree request.protected_paths changed × AllFree request.protected_paths gone
  unfolding refresh_remote
  refresh_remote_free request s changed gone h =
      let t = (poll_remote s).1 in
      elim (Fallible-cases (poll_remote s).0) [
        | inl (e, failed) ↦ absurd (ground (arith, failed))
        | inr (batch, polled) ↦
            ground (arith, polled, refresh_batch-free request batch t changed gone)
      ]

  -- What the result of a refresh promises of the state after and before it: an applied one that the
  -- paths it lists are free, any other one that the local files and the index are the same.
  abbrev pub Outcome : (FilePath → Bool) → RemoteRefreshResult → Session F O → Session F O → Type 0
  Outcome guarded (RemoteRefreshResult.applied changed gone) t s =
      AllFree guarded changed × AllFree guarded gone
  Outcome guarded RemoteRefreshResult.unchanged t s = SameFiles t s
  Outcome guarded (RemoteRefreshResult.deferred paths reason) t s = SameFiles t s
  Outcome guarded RemoteRefreshResult.offline t s = SameFiles t s

  -- A refresh of the wiki that is applied lists only paths that are not protected, among the changed
  -- and the deleted ones. One that answers that nothing changed, that puts the changes off, or that
  -- the remote is offline, has changed neither the local files nor the index of pages.
  pub refresh_remote-guards :
      (request : RemoteRefresh) (s : Session F O) (result : RemoteRefreshResult)
      → (refresh_remote request s).0 ≡ ok result
      → Outcome request.protected_paths result (refresh_remote request s).1 s
  refresh_remote-guards request s (RemoteRefreshResult.applied changed gone) h =
      refresh_remote_free request s changed gone h
  refresh_remote-guards request s RemoteRefreshResult.unchanged h =
      refresh_remote_deferred request s RemoteRefreshResult.unchanged refl h
  refresh_remote-guards request s (RemoteRefreshResult.deferred paths reason) h =
      refresh_remote_deferred request s (RemoteRefreshResult.deferred paths reason) refl h
  refresh_remote-guards request s RemoteRefreshResult.offline h =
      refresh_remote_deferred request s RemoteRefreshResult.offline refl h
