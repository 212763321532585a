-- ===== src/Core/PersistentCache/Budget.antt =====
-- What an eviction removes (crates/omnifuse-core/src/persistent_cache.rs, `evict_to_budget`).
use omni_fuse.Prelude.{
  ℕ, min, u64_mod, saturating_add, sym, ap, zero, suc, ◌+◌, ◌-◌, ◌≤◌, ◌<◌, ◌≡◌, refl, List, [], ◌∷◌,
  ◌++◌, inl, inr, arith, list_eq, nat_eq, eqb, leb, Fallible, ok, err, Fallible-cases, Bool-cases,
}
use omni_fuse.FilePath.{FilePath, normal}
use omni_fuse.Core.FileSystem.{FileSystem}
use omni_fuse.Core.PersistentCache.{
  CacheCalls, WalkEntry, exists, max_cache_walk_depth, FilesystemCache, BlobEntry, Collected,
}
use omni_fuse.Core.PersistentCache.Walk.{
  collect_file, collect_entries, collect_blobs_at, collect_blobs,
}
use omni_fuse.Core.PersistentCache.Evict.{sort_by_mtime, evict_each, evict_to_budget}
use omni_fuse.Core.PersistentCache.Age.{
  sizes, OldestFirst, Sorted-OldestFirst, Sorted-sort, sizes-sort,
}

module _ (F : FileSystem) where
  abbrev pub remove_each : List BlobEntry → F.State → F.State
  remove_each [] disk = disk
  remove_each (e ∷ files) disk = remove_each files (F.remove_file e.path disk).1

  -- The files can be removed one after the other.
  abbrev pub CanRemove : List BlobEntry → F.State → Type 0
  CanRemove [] disk = Unit {0}
  CanRemove (e ∷ files) disk =
      ((F.remove_file e.path disk).0 ≡ ok tt) × CanRemove files (F.remove_file e.path disk).1

  -- A prefix of the files is removed: enough of them, and none if none is over.
  record Evicted (over : ℕ) (files : List BlobEntry) (disk disk' : F.State) : Type 0 where
    removed : List BlobEntry
    kept : List BlobEntry
    split : files ≡ removed ++ kept
    disk_is : disk' ≡ remove_each removed disk
    enough : sizes kept ≤ sizes files - over

  evict_each-Evicted :
      (over : ℕ) (files : List BlobEntry) (disk : F.State)
      → CanRemove files disk
      → Evicted over files disk (evict_each F over files disk)
  unfolding evict_each
  evict_each-Evicted over [] disk can = record {
    removed = [];
    kept = [];
    split = refl;
    disk_is = refl;
    enough = omega arith;
  }
  evict_each-Evicted over (e ∷ files) disk (gone, can) = elim (Bool-cases (eqb over 0)) [
    | inl done ↦ record {
      removed = [];
      kept = e ∷ files;
      split = refl;
      disk_is = ground arith;
      enough = ground arith;
    }
    | inr more ↦
        let rest = evict_each-Evicted (over - e.size) files (F.remove_file e.path disk).1 can in
        record {
          removed = e ∷ rest.removed;
          kept = rest.kept;
          split = ap (◌∷◌ e) rest.split;
          disk_is = ground (arith, gone, rest.disk_is);
          enough = ground (arith, rest.enough);
        }
  ]

sizes-append :
    (files : List BlobEntry) (e : BlobEntry) → sizes (files ++ (e ∷ [])) ≡ sizes files + e.size
sizes-append [] e = omega arith
sizes-append (f ∷ files) e = omega (arith, sizes-append files e)

-- The total is the sum of the sizes, up to the largest word.
abbrev IsTotal : Collected → Type 0
IsTotal found = found.total ≡ min (sizes found.files) (u64_mod - 1)

collect_file-IsTotal :
    {E : Type 0} (path : FilePath) (entry : WalkEntry E) (found : Collected)
    → IsTotal found
    → IsTotal (collect_file path entry found)
unfolding collect_file saturating_add
collect_file-IsTotal path entry found h = elim (Fallible-cases entry.meta) [
  | inl (e, failed) ↦ ground arith
  | inr (meta, read) ↦ grind (arith, sizes-append)
]

collect_entries-IsTotal :
    {E : Type 0} (walk : FilePath → Collected → Fallible E Collected) (root : FilePath)
    (entries : List (Fallible E (WalkEntry E))) (found found' : Collected)
    → ((path : FilePath) (c c' : Collected) → IsTotal c → walk path c ≡ ok c' → IsTotal c')
    → IsTotal found
    → collect_entries walk root entries found ≡ ok found'
    → IsTotal found'
unfolding collect_entries
collect_entries-IsTotal walk root [] found found' walks h done = ground arith
collect_entries-IsTotal walk root (err e ∷ entries) found found' walks h done =
    collect_entries-IsTotal walk root entries found found' walks h done
collect_entries-IsTotal walk root (ok entry ∷ entries) found found' walks h done =
    let path = root ++ (normal entry.file_name ∷ []) in
    elim (Fallible-cases entry.is_dir) [
      | inl (e, failed) ↦
          collect_entries-IsTotal walk root entries found found' walks h (ground arith)
      | inr (is_dir, typed) ↦ elim (Bool-cases is_dir) [
        | inl dir ↦ elim (Fallible-cases (walk path found)) [
          | inl (e, failed) ↦ absurd (ground arith)
          | inr (more, walked) ↦
              collect_entries-IsTotal walk root entries more found' walks
                (walks path found more h walked) (ground arith)
        ]
        | inr other ↦ elim (Bool-cases entry.is_file) [
          | inl file ↦
              collect_entries-IsTotal walk root entries (collect_file path entry found) found' walks
                (collect_file-IsTotal path entry found h) (ground arith)
          | inr special ↦
              collect_entries-IsTotal walk root entries found found' walks h (ground arith)
        ]
      ]
    ]

module _ {F : FileSystem} (C : CacheCalls F) where
  collect_blobs_at-IsTotal :
      (depth_left : ℕ) (root : FilePath) (disk : F.State) (found found' : Collected)
      → IsTotal found
      → collect_blobs_at C depth_left root disk found ≡ ok found'
      → IsTotal found'
  unfolding collect_blobs_at
  collect_blobs_at-IsTotal zero root disk found found' h done = ground arith
  collect_blobs_at-IsTotal (suc depth_left) root disk found found' h done =
      elim (Bool-cases (exists C root disk)) [
        | inr missing ↦ ground arith
        | inl there ↦ elim (Fallible-cases (C.read_dir root disk)) [
          | inl (e, failed) ↦ absurd (ground arith)
          | inr (entries, listed) ↦
              collect_entries-IsTotal (λ path. collect_blobs_at C depth_left path disk) root entries
                found found' (λ path c c'. collect_blobs_at-IsTotal depth_left path disk c c') h
                (ground arith)
        ]
      ]

  collect_blobs-IsTotal :
      (root : FilePath) (disk : F.State) (found : Collected)
      → collect_blobs C root disk ≡ ok found
      → IsTotal found
  unfolding collect_blobs
  collect_blobs-IsTotal root disk found done =
      collect_blobs_at-IsTotal max_cache_walk_depth root disk (record { files = []; total = 0 })
        found (ground arith) done

  -- An eviction whose walk succeeds removes the oldest blobs, and what is left fits the budget, if the
  -- blobs found can be removed one after the other, oldest first. If the blobs fit it before, nothing is
  -- removed. The sizes of the blobs must sum up to less than 2^64.
  pub evict_to_budget-fits :
      (s : FilesystemCache F) (found : Collected)
      → collect_blobs C s.root s.disk ≡ ok found
      → CanRemove F (sort_by_mtime found.files) s.disk
      → sizes found.files < u64_mod
      → let t = (evict_to_budget C s).1 in
        (removed : List BlobEntry) × (kept : List BlobEntry) × (sort_by_mtime found.files
          ≡ removed ++ kept)
        × (t.disk ≡ remove_each F removed s.disk)
        × (sizes kept ≤ s.max_bytes)
        × OldestFirst removed kept
        × (sizes found.files ≤ s.max_bytes → removed ≡ [])
  unfolding evict_to_budget OldestFirst
  evict_to_budget-fits s found walked can bound =
      let total = collect_blobs-IsTotal s.root s.disk found walked in
      let sorted = sort_by_mtime found.files in
      let same = sizes-sort found.files in
      elim (Bool-cases (leb found.total s.max_bytes)) [
        | inl under ↦ ([], sorted, refl, ground arith, ground (arith, same), tt, λ _. refl)
        | inr over ↦
            let e = evict_each-Evicted F (found.total - s.max_bytes) sorted s.disk can in
            (
              e.removed,
              e.kept,
              e.split,
              ground (arith, e.disk_is),
              ground (arith, same, e.enough),
              Sorted-OldestFirst e.removed e.kept (rw (sym e.split) (Sorted-sort found.files)),
              λ small. absurd (ground arith),
            )
      ]
