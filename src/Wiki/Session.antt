-- ===== src/Wiki/Session.antt =====
-- The wiki session (crates/omnifuse-wiki/src/session.rs): reading pages and taking the
-- page tree over. The cache is written at once where the source spawns a task.
use omni_fuse.Prelude.{
  ℕ, ◌+◌, Bool, true, not, ◌||◌, List, [], ◌∷◌, ◌++◌, Option, none, some, ◌==◌, list_eq, nat_eq,
  if◌then◌else◌, leb, eqb, Fallible, ok, err,
}
use omni_fuse.FilePath.{FilePath, Name, split}
use omni_fuse.Core.Backend.{InitResult}
use omni_fuse.Core.FileSystem.{FileSystem}
use omni_fuse.Core.TextMerge.{Bytes}
use omni_fuse.Core.TextMerge.Utf8.{decode_utf8_text}
use omni_fuse.Wiki.Error.{AnyError, other}
use omni_fuse.Wiki.Meta.{save_meta, load_meta, save_base, parent}
use omni_fuse.Wiki.Page.{Slug, PageRef, new_slug, from_slug}
use omni_fuse.Wiki.PageIndex
use omni_fuse.Wiki.PageIndex.{PageSnapshot, PageIndex, PageEntry, empty_index}
use omni_fuse.Wiki.State.{
  PageNode, PageTree, childless, parent_of, PageForest, no_more, child, PageFull, PageMeta, Outside,
  Session, W, ◌>>=◌, ◌>>◌, pure, remote, on_disk, change_index,
}

abbrev pub or_empty : Option Bytes → Bytes
or_empty none = []
or_empty (some text) = text

unfoldable mutual
  pub collect_tree_nodes : PageTree → (max_depth depth : ℕ) → List PageNode
  collect_tree_nodes (childless node) max_depth depth = node ∷ []
  collect_tree_nodes (parent_of node children) max_depth depth =
      let below = collect_children children max_depth (depth + 1) in
      if leb max_depth depth then node ∷ [] else node ∷ below

  pub collect_children : PageForest → (max_depth depth : ℕ) → List PageNode
  collect_children no_more max_depth depth = []
  collect_children (child tree forest) max_depth depth =
      collect_tree_nodes tree max_depth depth ++ collect_children forest max_depth depth

unfoldable pub page_meta : PageRef → PageSnapshot → PageMeta
page_meta page snapshot = record {
  id = snapshot.id;
  title = snapshot.title;
  slug = page.slug;
  modified_at = snapshot.modified_at;
}

unfoldable pub snapshot_from_page : PageFull → PageSnapshot
snapshot_from_page page = record {
  id = page.id;
  title = page.title;
  modified_at = page.modified_at;
}

unfoldable pub spaced : Name → Name
spaced [] = []
spaced (b ∷ name) = (if eqb b b'-' || eqb b b'_' then b' ' else b) ∷ spaced name

unfoldable pub last_segment : List Name → Name
last_segment [] = []
last_segment (segment ∷ []) = segment
last_segment (segment ∷ segment' ∷ segments) = last_segment (segment' ∷ segments)

-- `slug.rsplit('/').next()` with its dashes replaced
unfoldable pub title_from_slug : Slug → Name
title_from_slug slug = spaced (last_segment (split slug))

abbrev pub node_snapshot : PageNode → PageSnapshot
node_snapshot node = record { id = node.id; title = node.title; modified_at = node.modified_at }

abbrev found_page : Option PageRef → Fallible AnyError PageRef
found_page none = err other
found_page (some page) = ok page

-- What a snapshot of the metadata keeps.
abbrev snapshot_of : Option PageMeta → Option PageSnapshot
snapshot_of none = none
snapshot_of (some meta) =
    some (record { id = meta.id; title = meta.title; modified_at = meta.modified_at })

module _ {F : FileSystem} {O : Outside} where
  -- A page read from the remote and stored in the cache.
  abbrev pub read_and_cache : Slug → Name → W F O Bytes
  read_and_cache slug revision = do
    page ← remote (O.get_page_by_slug slug)
    λ s. (
      ok (or_empty page.content),
      record s { outside = O.cache_put slug revision (or_empty page.content) s.outside },
    )

  -- Bytes of the cache that are no text count as missing.
  abbrev text_or_read : Slug → Name → Option Bytes → W F O Bytes
  text_or_read slug revision none = read_and_cache slug revision
  text_or_read slug revision (some text) = pure text

  abbrev pub cached_or_read : Slug → Name → Option Bytes → W F O Bytes
  cached_or_read slug revision none = read_and_cache slug revision
  cached_or_read slug revision (some bytes) = text_or_read slug revision (decode_utf8_text bytes)

  -- `read_page_cached` with a revision, as every caller does.
  unfoldable pub read_page_cached : Slug → (revision : Name) → W F O Bytes
  read_page_cached slug revision s =
      if s.has_cache
      then (let (hit, outside) = O.cache_get slug revision s.outside in
          cached_or_read slug revision hit (record s { outside = outside }))
      else (do page ← remote (O.get_page_by_slug slug); pure (or_empty page.content)) s

  unfoldable pub cache_after_update : Slug → (revision : Name) → Bytes → W F O (Unit {0})
  cache_after_update slug revision content s = (
    ok tt,
    if s.has_cache then record s { outside = O.cache_put slug revision content s.outside } else s,
  )

  unfoldable pub save_page_state : PageRef → PageSnapshot → Bytes → W F O (Unit {0})
  save_page_state page snapshot content = do
    save_meta page.slug (page_meta page snapshot)
    save_base page.slug content
    cache_after_update page.slug snapshot.modified_at content
    change_index (PageIndex.insert page snapshot)

  -- Whether the local file differs; a missing file does.
  unfoldable pub local_text_differ : FilePath → Bytes → W F O Bool
  local_text_differ path content s = elim (F.read path s.disk) [
    | err e ↦ (if F.is_not_found e then ok true else err other, s)
    | ok bytes ↦ elim (decode_utf8_text bytes) [
      | none ↦ (err other, s)
      | some existing ↦ (ok (not (existing == content)), s)
    ]
  ]

  abbrev pub page_of : Slug → W F O PageRef
  page_of slug s = (found_page (from_slug s.local_dir (new_slug slug)), s)

  -- Whether the local file changed, and the index with the page.
  unfoldable pub materialize_node : PageNode → PageIndex → W F O (Bool × PageIndex)
  materialize_node node index = do
    page ← page_of node.slug
    content ← read_page_cached page.slug node.modified_at
    changed ← local_text_differ page.path content
    on_disk (F.create_dir_all (parent page.path))
    on_disk (F.write page.path content)
    save_meta page.slug (page_meta page (node_snapshot node))
    save_base page.slug content
    pure (changed, PageIndex.insert page (node_snapshot node) index)

  unfoldable pub materialize_nodes : List PageNode → ℕ → PageIndex → W F O (ℕ × PageIndex)
  materialize_nodes [] changed index = pure (changed, index)
  materialize_nodes (node ∷ nodes) changed index = do
    done ← materialize_node node index
    materialize_nodes nodes (if done.0 then changed + 1 else changed) done.1

  -- The part of `initialize` once the tree is loaded.
  unfoldable pub load_tree : PageTree → W F O InitResult
  load_tree tree s =
      (do
        loaded ← materialize_nodes (collect_tree_nodes tree s.config.max_depth 0) 0 empty_index
        change_index (λ index. loaded.1)
        pure (if eqb loaded.0 0 then InitResult.up_to_date else InitResult.updated))
        s

  unfoldable pub snapshot_for : PageRef → Session F O → Option PageSnapshot
  snapshot_for page s = elim (PageIndex.by_path page.path s.page_index) [
    | some entry ↦ some entry.snapshot
    | none ↦ snapshot_of (load_meta page.slug s)
  ]
