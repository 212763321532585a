-- ===== src/Core/PersistentCache/Age.antt =====
-- The blobs in the order of their times (crates/omnifuse-core/src/persistent_cache.rs).
use omni_fuse.Prelude.{
  ℕ, ◌+◌, ◌≤◌, ◌≡◌, refl, List, [], ◌∷◌, ◌++◌, inl, inr, arith, list_eq, nat_eq, leb, Bool-cases,
}
use omni_fuse.Core.PersistentCache.{BlobEntry}
use omni_fuse.Core.PersistentCache.Evict.{insert_by_mtime, sort_by_mtime}

abbrev pub sizes : List BlobEntry → ℕ
sizes [] = 0
sizes (e ∷ files) = e.size + sizes files

-- Every entry is at least as new as the time.
unfoldable pub AtLeast : ℕ → List BlobEntry → Type 0
AtLeast t [] = Unit {0}
AtLeast t (e ∷ files) = (t ≤ e.mtime) × AtLeast t files

-- The entries are in the order of their times.
unfoldable pub Sorted : List BlobEntry → Type 0
Sorted [] = Unit {0}
Sorted (e ∷ files) = AtLeast e.mtime files × Sorted files

-- No entry of the second list is older than one of the first.
unfoldable pub OldestFirst : List BlobEntry → List BlobEntry → Type 0
OldestFirst [] kept = Unit {0}
OldestFirst (e ∷ removed) kept = AtLeast e.mtime kept × OldestFirst removed kept

AtLeast-le : (t u : ℕ) (files : List BlobEntry) → t ≤ u → AtLeast u files → AtLeast t files
unfolding AtLeast
AtLeast-le t u [] h all = tt
AtLeast-le t u (e ∷ files) h (here, all) = (omega arith, AtLeast-le t u files h all)

AtLeast-insert :
    (t : ℕ) (e : BlobEntry) (files : List BlobEntry)
    → t ≤ e.mtime
    → AtLeast t files
    → AtLeast t (insert_by_mtime e files)
unfolding AtLeast insert_by_mtime
AtLeast-insert t e [] h all = (h, tt)
AtLeast-insert t e (f ∷ files) h (here, all) = elim (Bool-cases (leb e.mtime f.mtime)) [
  | inl first ↦ rw first (h, (here, all))
  | inr later ↦ rw later (here, AtLeast-insert t e files h all)
]

AtLeast-append : (t : ℕ) (xs ys : List BlobEntry) → AtLeast t (xs ++ ys) → AtLeast t ys
unfolding AtLeast
AtLeast-append t [] ys all = all
AtLeast-append t (x ∷ xs) ys (here, all) = AtLeast-append t xs ys all

pub Sorted-OldestFirst :
    (removed kept : List BlobEntry) → Sorted (removed ++ kept) → OldestFirst removed kept
unfolding Sorted OldestFirst
Sorted-OldestFirst [] kept sorted = tt
Sorted-OldestFirst (e ∷ removed) kept (all, sorted) =
    (AtLeast-append e.mtime removed kept all, Sorted-OldestFirst removed kept sorted)

Sorted-insert :
    (e : BlobEntry) (files : List BlobEntry) → Sorted files → Sorted (insert_by_mtime e files)
unfolding Sorted insert_by_mtime AtLeast
Sorted-insert e [] sorted = (tt, tt)
Sorted-insert e (f ∷ files) (all, sorted) = elim (Bool-cases (leb e.mtime f.mtime)) [
  | inl first ↦
      rw first ((ground arith, AtLeast-le e.mtime f.mtime files (ground arith) all), (all, sorted))
  | inr later ↦
      rw later (AtLeast-insert f.mtime e files (ground arith) all, Sorted-insert e files sorted)
]

pub Sorted-sort : (files : List BlobEntry) → Sorted (sort_by_mtime files)
unfolding Sorted sort_by_mtime
Sorted-sort [] = tt
Sorted-sort (e ∷ files) = Sorted-insert e (sort_by_mtime files) (Sorted-sort files)

sizes-insert :
    (e : BlobEntry) (files : List BlobEntry)
    → sizes (insert_by_mtime e files) ≡ e.size + sizes files
unfolding insert_by_mtime
sizes-insert e [] = refl
sizes-insert e (f ∷ files) = ground (arith, sizes-insert e files)

pub sizes-sort : (files : List BlobEntry) → sizes (sort_by_mtime files) ≡ sizes files
unfolding sort_by_mtime
sizes-sort [] = refl
sizes-sort (e ∷ files) = ground (arith, sizes-insert e (sort_by_mtime files), sizes-sort files)
