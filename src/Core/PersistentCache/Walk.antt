-- ===== src/Core/PersistentCache/Walk.antt =====
-- Finding the blobs of the cache (crates/omnifuse-core/src/persistent_cache.rs, `collect_blobs`).
use omni_fuse.Prelude.{
  ℕ, zero, suc, true, false, ◌||◌, List, [], ◌∷◌, ◌++◌, Option, none, some, ◌==◌, list_eq, nat_eq,
  if◌then◌else◌, not, saturating_add, Fallible, ok, err,
}
use omni_fuse.Core.TextMerge.Utf8.{from_utf8_lossy}
use omni_fuse.FilePath.{FilePath, normal}
use omni_fuse.Core.FileSystem.{FileSystem}
use omni_fuse.Core.PersistentCache.{
  CacheCalls, WalkEntry, Collected, schema_marker_file, tmp_mark, has_part, exists,
  max_cache_walk_depth,
}

-- An entry that is a file: skipped if it is the marker or temporary, or if its metadata fail. An unknown
-- time counts as the epoch.
unfoldable pub collect_file : {E : Type 0} → FilePath → WalkEntry E → Collected → Collected
collect_file path entry found =
    let name = from_utf8_lossy entry.file_name in
    if name == schema_marker_file || has_part tmp_mark name then found else elim entry.meta [
      | err e ↦ found
      | ok meta ↦ record {
        files =
            found.files
            ++ (record { path = path; mtime = time_or_epoch meta.modified; size = meta.len } ∷ []);
        total = saturating_add found.total meta.len;
      }
    ]
  where
    time_or_epoch : Option ℕ → ℕ
    time_or_epoch none = 0
    time_or_epoch (some t) = t

-- The loop over the entries of a directory; `walk` is the walk of a directory in it.
unfoldable pub collect_entries :
    {E : Type 0}
    → (FilePath → Collected → Fallible E Collected)
    → FilePath
    → List (Fallible E (WalkEntry E))
    → Collected
    → Fallible E Collected
collect_entries walk root [] found = ok found
collect_entries walk root (err e ∷ entries) found = collect_entries walk root entries found
collect_entries walk root (ok entry ∷ entries) found =
    let path = root ++ (normal entry.file_name ∷ []) in
    elim entry.is_dir [
      | err e ↦ collect_entries walk root entries found
      | ok true ↦ elim (walk path found) [
        | err e ↦ err e
        | ok found' ↦ collect_entries walk root entries found'
      ]
      | ok false ↦
          collect_entries walk root entries
            (if entry.is_file then collect_file path entry found else found)
    ]

module _ {F : FileSystem} (C : CacheCalls F) where
  -- `depth_left` is the depth that may still be walked.
  unfoldable pub collect_blobs_at :
      (depth_left : ℕ) → FilePath → F.State → Collected → Fallible F.IoError Collected
  collect_blobs_at zero root disk found = ok found
  collect_blobs_at (suc depth_left) root disk found =
      if not (exists C root disk) then ok found else elim (C.read_dir root disk) [
        | err e ↦ err e
        | ok entries ↦
            collect_entries (λ path. collect_blobs_at depth_left path disk) root entries found
      ]

  unfoldable pub collect_blobs : FilePath → F.State → Fallible F.IoError Collected
  collect_blobs root disk =
      collect_blobs_at max_cache_walk_depth root disk (record { files = []; total = 0 })
