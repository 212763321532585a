-- ===== src/Tests/Cache.antt =====
-- The persistent cache at concrete data, on the file system in memory. The hash shifts every byte.
use omni_fuse.Prelude.{
  ℕ, ◌+◌, ◌%◌, Option-cases, inl, inr, ◌<◌, ◌≤◌, ◌≡◌, ◌≢◌, refl, ap, true, false, List, [], ◌∷◌,
  ◌++◌, Option, none, some, arith, list_eq, nat_eq, list_beq, list_beq_iff, contains, map,
  if◌then◌else◌, Fallible, ok, err, fetch_add_one, eqb, u64_mod,
}
use omni_fuse.Prelude.Map.{lookup, insert, erase, lookup-insert, lookup-erase}
use omni_fuse.FilePath.{FilePath, Name, normal, root_dir, component_eq}
use omni_fuse.Core.PersistentCache.{
  CacheCalls, CacheKey, WalkEntry, FilesystemCache, BlobEntry, Collected, blob_path, get,
  eviction_put_interval,
}
use omni_fuse.Core.PersistentCache.Age.{OldestFirst, sizes}
use omni_fuse.Core.PersistentCache.Budget.{remove_each, CanRemove, evict_to_budget-fits}
use omni_fuse.Core.PersistentCache.Evict.{put, evict_to_budget, sort_by_mtime}
use omni_fuse.Core.PersistentCache.Lookup.{get-put}
use omni_fuse.Core.PersistentCache.Store.{IsStore, AgreesOnHashes}
use omni_fuse.Core.PersistentCache.Truth.{
  IsTrue, CacheOp, put_op, get_op, evict_op, run_ops, get-run_ops,
}
use omni_fuse.Core.PersistentCache.Walk.{collect_blobs}
use omni_fuse.Tests.Disk.{NotFound, memory_files, memory_files-IsLawful, mount}

abbrev shift : List ℕ → Name
shift [] = []
shift (b ∷ bytes) = (b + 100) ∷ shift bytes

abbrev blob : Name → ℕ → WalkEntry NotFound
blob name len = record {
  file_name = name;
  is_dir = ok false;
  is_file = true;
  meta = ok (record {
    len = len;
    accessed = none;
    modified = some len;
    created = none;
    is_dir = false;
    is_symlink = false;
    mode = 0;
    nlink = 1;
    uid = 0;
    gid = 0;
  });
}

-- Two blobs, of 30 and of 20 bytes, which are also their times.
abbrev memory_calls : CacheCalls memory_files
memory_calls = record {
  hex_sha256 = shift;
  tmp_suffix = λ n. [];
  touch = λ path now files. (ok tt, files);
  read_dir = λ path files. ok (ok (blob (b'x' ∷ []) 30) ∷ ok (blob (b'y' ∷ []) 20) ∷ []);
  remove_dir_all = λ path files. (ok tt, files);
}

shift_no_dot : (a : List ℕ) → contains (shift a) b'.' ≡ false
unfolding contains
shift_no_dot [] = refl
shift_no_dot (x ∷ a) = ground (arith, shift_no_dot a)

memory-IsStore : IsStore memory_files memory_calls
memory-IsStore = record {
  read-touch = λ p q now d. refl;
  read-create_dir_all = λ p q d bytes h. h;
  read-rename = λ p q d bytes there done. elim (Option-cases (lookup p d)) [
    | inl gone ↦ absurd (ground arith)
    | inr (found, at) ↦ ground (arith, lookup-insert q q found (erase p d), list_beq_iff q q)
  ];
  read-rename_ne = λ p q r d bytes there from to. elim (Option-cases (lookup p d)) [
    | inl gone ↦ ground arith
    | inr (found, at) ↦ ground (
      arith,
      lookup-insert r q found (erase p d),
      lookup-erase r p d,
      list_beq_iff r p,
      list_beq_iff r q,
    )
  ];
  read-rename_failed = λ p q r d e failed. ground arith;
  read-remove = λ p q d bytes h. ground (arith, lookup-erase q p d);
  exists-create_dir_all = λ p name d. refl;
  exists-write_ne =
      λ p q bytes d other. ground (arith, lookup-insert q p bytes d, list_beq_iff q p);
  exists-rename_failed = λ p q r d e failed. ground arith;
  no_dot = shift_no_dot;
}

abbrev key : CacheKey
key = record { instance_hash = b'i' ∷ []; path = 1 ∷ []; version = 2 ∷ [] }

abbrev empty : FilesystemCache memory_files
empty = record {
  root = mount;
  max_bytes = 40;
  put_counter = 0;
  eviction_in_flight = false;
  tmp_counter = 0;
  disk = [];
}

put_done : (put memory_calls key (7 ∷ 8 ∷ []) 5 empty).0 ≡ ok tt
unfolding put omni_fuse.Core.PersistentCache.write_blob_atomic lookup list_beq
    omni_fuse.Core.PersistentCache.blob_dir omni_fuse.FilePath.component_beq insert
put_done = refl

early : eqb (fetch_add_one empty.put_counter % eviction_put_interval) 0 ≡ false
unfolding fetch_add_one
early = refl

get-put_example :
    (get memory_calls key 6 (put memory_calls key (7 ∷ 8 ∷ []) 5 empty).1).0 ≡ some (7 ∷ 8 ∷ [])
unfolding lookup list_beq blob_path omni_fuse.FilePath.component_beq
get-put_example =
    get-put memory_calls memory-IsStore memory_files-IsLawful key (7 ∷ 8 ∷ []) 5 6 empty put_done
      early

-- Every key has the same bytes.
abbrev truth : CacheKey → List ℕ
truth k = 7 ∷ 8 ∷ []

-- So keys whose hashes coincide have the same bytes.
truth-agrees : AgreesOnHashes memory_calls truth
truth-agrees k l instance path version = refl

empty-IsTrue : IsTrue memory_calls truth empty
unfolding lookup
empty-IsTrue k bytes h = absurd (ground arith)

abbrev ops : List CacheOp
ops = put_op key 1 ∷ evict_op ∷ get_op key 2 ∷ []

hit : (get memory_calls key 3 (run_ops memory_calls truth ops empty)).0 ≡ some (7 ∷ 8 ∷ [])
unfolding get lookup run_ops omni_fuse.Core.PersistentCache.Truth.run_op evict_to_budget
    collect_blobs omni_fuse.Core.PersistentCache.Walk.collect_blobs_at put
    omni_fuse.Core.PersistentCache.write_blob_atomic insert list_beq
    omni_fuse.Core.PersistentCache.blob_dir omni_fuse.FilePath.component_beq
    omni_fuse.Core.PersistentCache.Evict.count_put fetch_add_one erase blob_path
    omni_fuse.Core.PersistentCache.Evict.evict_each
    omni_fuse.Core.PersistentCache.Evict.insert_by_mtime sort_by_mtime
    omni_fuse.Core.PersistentCache.Evict.spawn_eviction_if_needed
    omni_fuse.Core.PersistentCache.Walk.collect_entries
    omni_fuse.Core.PersistentCache.Walk.collect_file omni_fuse.Core.PersistentCache.has_part
    omni_fuse.Core.TextMerge.Utf8.from_utf8_lossy omni_fuse.Core.PersistentCache.publish
    omni_fuse.Core.PersistentCache.read_blob_and_touch omni_fuse.Prelude.saturating_add
    omni_fuse.Prelude.wrapping_add
hit = refl

get-run_ops_example : 7 ∷ 8 ∷ [] ≡ truth key
get-run_ops_example =
    get-run_ops memory_calls truth memory-IsStore memory_files-IsLawful truth-agrees ops empty key 3
      (7 ∷ 8 ∷ []) empty-IsTrue hit

abbrev full : FilesystemCache memory_files
full = record empty { disk = (mount, []) ∷ [] }

abbrev two_blobs : Collected
two_blobs = record {
  files =
      record { path = mount ++ (normal (b'x' ∷ []) ∷ []); mtime = 30; size = 30 }
      ∷ record { path = mount ++ (normal (b'y' ∷ []) ∷ []); mtime = 20; size = 20 }
      ∷ [];
  total = 50;
}

walked : collect_blobs memory_calls full.root full.disk ≡ ok two_blobs
unfolding collect_blobs omni_fuse.Core.PersistentCache.Walk.collect_blobs_at lookup list_beq
    omni_fuse.FilePath.component_beq omni_fuse.Core.PersistentCache.Walk.collect_entries
    omni_fuse.Core.PersistentCache.Walk.collect_file omni_fuse.Core.PersistentCache.has_part
    omni_fuse.Core.TextMerge.Utf8.from_utf8_lossy omni_fuse.Prelude.saturating_add
walked = refl

both_removed : CanRemove memory_files (sort_by_mtime two_blobs.files) full.disk
unfolding sort_by_mtime omni_fuse.Core.PersistentCache.Evict.insert_by_mtime
both_removed = (refl, (refl, tt))

evict_to_budget-fits_example :
    (removed : List BlobEntry) × (kept : List BlobEntry) × (sort_by_mtime two_blobs.files
      ≡ removed ++ kept)
    × ((evict_to_budget memory_calls full).1.disk ≡ remove_each memory_files removed full.disk)
    × (sizes kept ≤ 40)
    × OldestFirst removed kept
    × (sizes two_blobs.files ≤ 40 → removed ≡ [])
evict_to_budget-fits_example =
    evict_to_budget-fits memory_calls full two_blobs walked both_removed (omega arith)
