-- ===== src/Core/PersistentCache/Evict.antt =====
-- Eviction, writing and opening (crates/omnifuse-core/src/persistent_cache.rs, `evict_to_budget`, `put`,
-- `open`).
use omni_fuse.Prelude.{
  ℕ, none, some, ◌-◌, ◌%◌, true, false, List, [], ◌∷◌, ◌++◌, ◌==◌, list_eq, nat_eq, if◌then◌else◌,
  not, eqb, leb, fetch_add_one, Fallible, ok, err,
}
use omni_fuse.FilePath.{FilePath, normal}
use omni_fuse.Core.FileSystem.{FileSystem}
use omni_fuse.Core.TextMerge.Utf8.{decode_utf8_text}
use omni_fuse.Core.PersistentCache.{
  CacheCalls, CacheKey, WalkEntry, FilesystemCache, BlobEntry, schema_marker_file, schema_version,
  exists, blob_dir, write_blob_atomic, eviction_put_interval,
}
use omni_fuse.Core.PersistentCache.Walk.{collect_blobs}

-- `sort_by_key(|entry| entry.mtime)`, which is stable.
unfoldable pub insert_by_mtime : BlobEntry → List BlobEntry → List BlobEntry
insert_by_mtime e [] = e ∷ []
insert_by_mtime e (f ∷ files) =
    let rest = insert_by_mtime e files in if leb e.mtime f.mtime then e ∷ f ∷ files else f ∷ rest

unfoldable pub sort_by_mtime : List BlobEntry → List BlobEntry
sort_by_mtime [] = []
sort_by_mtime (e ∷ files) = insert_by_mtime e (sort_by_mtime files)

module _ (F : FileSystem) where
  -- The loop of `evict_to_budget`; a file that cannot be removed is skipped.
  unfoldable pub evict_each : ℕ → List BlobEntry → F.State → F.State
  evict_each over [] disk = disk
  evict_each over (entry ∷ files) disk =
      if eqb over 0
      then disk
      else let (removed, disk') = F.remove_file entry.path disk in
        elim removed [
          | ok _ ↦ evict_each (over - entry.size) files disk'
          | err e ↦ evict_each over files disk'
        ]

module _ {F : FileSystem} (C : CacheCalls F) where
  unfoldable pub evict_to_budget :
      FilesystemCache F → Fallible F.IoError (Unit {0}) × FilesystemCache F
  evict_to_budget s = elim (collect_blobs C s.root s.disk) [
    | err e ↦ (err e, s)
    | ok found ↦ if leb found.total s.max_bytes then (ok tt, s) else (
      ok tt,
      record s {
        disk = evict_each F (found.total - s.max_bytes) (sort_by_mtime found.files) s.disk;
      },
    )
  ]

  -- `spawn_eviction_if_needed`, the eviction run at once; its error is only logged.
  unfoldable pub spawn_eviction_if_needed : FilesystemCache F → FilesystemCache F
  spawn_eviction_if_needed s =
      if s.eviction_in_flight
      then s
      else record (evict_to_budget (record s { eviction_in_flight = true })).1 {
        eviction_in_flight = false;
      }

  unfoldable pub count_put : FilesystemCache F → FilesystemCache F
  count_put s =
      let counted = record s { put_counter = fetch_add_one s.put_counter } in
      if eqb (counted.put_counter % eviction_put_interval) 0
      then spawn_eviction_if_needed counted
      else counted

  -- What `write_blob_atomic` leaves of the cache.
  abbrev pub wrote_blob :
      CacheKey → List ℕ → ℕ → FilesystemCache F → Fallible F.IoError (Unit {0}) × FilesystemCache F
  wrote_blob key bytes now s =
      let (result, counter, disk) =
        write_blob_atomic C (blob_dir C key s) (C.hex_sha256 key.version) bytes now s.tmp_counter
          s.disk in
      (result, record s { tmp_counter = counter; disk = disk })

  unfoldable pub put :
      CacheKey → List ℕ → ℕ → FilesystemCache F → Fallible F.IoError (Unit {0}) × FilesystemCache F
  put key bytes now s =
      let (result, s') = wrote_blob key bytes now s in
      elim result [ err e ↦ (err e, s') | ok _ ↦ (ok tt, count_put s') ]

  -- The loop of `reset_cache_root`.
  unfoldable pub remove_entries :
      FilePath
      → List (Fallible F.IoError (WalkEntry F.IoError))
      → F.State
      → Fallible F.IoError (Unit {0}) × F.State
  remove_entries root [] disk = (ok tt, disk)
  remove_entries root (err e ∷ entries) disk = (err e, disk)
  remove_entries root (ok entry ∷ entries) disk =
      let path = root ++ (normal entry.file_name ∷ []) in
      if entry.file_name == schema_marker_file
      then remove_entries root entries disk
      else elim entry.is_dir [
        | err e ↦ (err e, disk)
        | ok is_dir ↦
            let (removed, disk') =
              if is_dir then C.remove_dir_all path disk else F.remove_file path disk in
            elim removed [ err e ↦ (err e, disk') | ok _ ↦ remove_entries root entries disk' ]
      ]

  unfoldable pub reset_cache_root : FilePath → F.State → Fallible F.IoError (Unit {0}) × F.State
  reset_cache_root root disk =
      if not (exists C root disk) then F.create_dir_all root disk else elim (C.read_dir root disk) [
        | err e ↦ (err e, disk)
        | ok entries ↦ remove_entries root entries disk
      ]

  abbrev reset_and_mark : FilePath → FilePath → F.State → Fallible F.IoError (Unit {0}) × F.State
  reset_and_mark root marker disk =
      let (reset, disk') = reset_cache_root root disk in
      elim reset [ err e ↦ (err e, disk') | ok _ ↦ F.write marker schema_version disk' ]

  -- `trim` is that of the standard library, and `invalid_data` the error of `read_to_string` on bytes that
  -- are not text.
  unfoldable pub ensure_schema :
      (trim : List ℕ → List ℕ)
      → (invalid_data : F.IoError) → FilePath
      → F.State
      → Fallible F.IoError (Unit {0}) × F.State
  ensure_schema trim invalid_data root disk =
      let (made, disk1) = F.create_dir_all root disk in
      let marker = root ++ (normal schema_marker_file ∷ []) in
      elim made [
        | err e ↦ (err e, disk1)
        | ok _ ↦ elim (F.read marker disk1) [
          | ok existing ↦ elim (decode_utf8_text existing) [
            | none ↦ (err invalid_data, disk1)
            | some text ↦
                if trim text == schema_version
                then (ok tt, disk1)
                else reset_and_mark root marker disk1
          ]
          | err e ↦ if F.is_not_found e then reset_and_mark root marker disk1 else (err e, disk1)
        ]
      ]

  unfoldable pub open_cache :
      (trim : List ℕ → List ℕ)
      → (invalid_data : F.IoError) → FilePath
      → (max_bytes tmp_counter : ℕ) → F.State
      → Fallible F.IoError (FilesystemCache F) × F.State
  open_cache trim invalid_data base max_bytes tmp_counter disk =
      let (schema, disk1) = ensure_schema trim invalid_data base disk in
      let root = base ++ (normal schema_version ∷ []) in
      elim schema [
        | err e ↦ (err e, disk1)
        | ok _ ↦
            let (made, disk2) = F.create_dir_all root disk1 in
            elim made [
              | err e ↦ (err e, disk2)
              | ok _ ↦
                  let opened = spawn_eviction_if_needed (record {
                    root = root;
                    max_bytes = max_bytes;
                    put_counter = 0;
                    eviction_in_flight = false;
                    tmp_counter = tmp_counter;
                    disk = disk2;
                  }) in
                  (ok opened, opened.disk)
            ]
      ]
