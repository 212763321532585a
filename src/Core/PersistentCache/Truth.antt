-- ===== src/Core/PersistentCache/Truth.antt =====
-- Which bytes a lookup can find (crates/omnifuse-core/src/persistent_cache.rs, `get` and `put`).
use omni_fuse.Prelude.{
  ℕ, ◌-◌, ◌%◌, ◌≡◌, ◌≢◌, refl, true, List, [], ◌∷◌, ◌++◌, some, inl, inr, ◌⊎◌, arith, list_eq,
  nat_eq, list_beq, list_beq_iff, eqb, leb, fetch_add_one, ok, Fallible-cases, Bool-cases,
}
use omni_fuse.FilePath.{FilePath, normal, component_eq}
use omni_fuse.Core.FileSystem.{FileSystem, IsLawful}
use omni_fuse.Core.PersistentCache.{
  CacheCalls, CacheKey, FilesystemCache, BlobEntry, exists, blob_dir, blob_path,
  read_blob_and_touch, get, tmp_name, publish, write_blob_atomic, eviction_put_interval,
}
use omni_fuse.Core.PersistentCache.Walk.{collect_blobs}
use omni_fuse.Core.PersistentCache.Evict.{
  sort_by_mtime, evict_each, evict_to_budget, spawn_eviction_if_needed, count_put, wrote_blob, put,
}
use omni_fuse.Core.PersistentCache.Store.{
  IsStore, AgreesOnHashes, blob_path-agrees, tmp_path_ne, blob_path_lem, blob_path-root,
}

-- A lookup, a store of the right bytes of a key, and an eviction.
pub data CacheOp : Type 0 where
  get_op put_op : (key : CacheKey) (now : ℕ) → CacheOp
  evict_op : CacheOp

module _ {F : FileSystem} (C : CacheCalls F) (truth : CacheKey → List ℕ) where
  -- Every blob that can be read has the bytes of its key.
  abbrev pub IsTrue : FilesystemCache F → Type 0
  IsTrue s =
      (key : CacheKey) (bytes : List ℕ)
      → F.read (blob_path C key s) s.disk ≡ ok bytes
      → bytes ≡ truth key

  unfoldable pub run_op : CacheOp → FilesystemCache F → FilesystemCache F
  run_op (get_op key now) s = (get C key now s).1
  run_op (put_op key now) s = (put C key (truth key) now s).1
  run_op evict_op s = (evict_to_budget C s).1

  unfoldable pub run_ops : List CacheOp → FilesystemCache F → FilesystemCache F
  run_ops [] s = s
  run_ops (op ∷ ops) s = run_ops ops (run_op op s)

  -- A step that keeps the root and adds no content at the blobs' paths.
  record Forgets (s t : FilesystemCache F) : Type 0 where
    root : t.root ≡ s.root
    read :
        (key : CacheKey) (bytes : List ℕ)
        → F.read (blob_path C key s) t.disk ≡ ok bytes
        → F.read (blob_path C key s) s.disk ≡ ok bytes

  Forgets-IsTrue : (s t : FilesystemCache F) → Forgets s t → IsTrue s → IsTrue t
  Forgets-IsTrue s t f true_s key bytes held =
      true_s key bytes (f.read key bytes (ground (arith, blob_path-root C key s t f.root)))

  module _ (store : IsStore F C) where
    evict_each-read :
        (over : ℕ) (files : List BlobEntry) (q : FilePath) (bytes : List ℕ) (disk : F.State)
        → F.read q (evict_each F over files disk) ≡ ok bytes
        → F.read q disk ≡ ok bytes
    unfolding evict_each
    evict_each-read over [] q bytes disk h = h
    evict_each-read over (e ∷ files) q bytes disk h =
        let gone = (F.remove_file e.path disk).1 in
        elim (Bool-cases (eqb over 0)) [
          | inl done ↦ ground arith
          | inr more ↦ elim (Fallible-cases (F.remove_file e.path disk).0) [
            | inl (error, failed) ↦
                store.read-remove e.path q disk bytes
                  (evict_each-read over files q bytes gone (ground arith))
            | inr (_, removed) ↦
                store.read-remove e.path q disk bytes
                  (evict_each-read (over - e.size) files q bytes gone (ground arith))
          ]
        ]

    evict-Forgets : (s : FilesystemCache F) → Forgets s (evict_to_budget C s).1
    unfolding evict_to_budget
    evict-Forgets s = elim (Fallible-cases (collect_blobs C s.root s.disk)) [
      | inl (e, failed) ↦ record { root = ground arith; read = λ key bytes h. ground arith }
      | inr (found, walked) ↦ elim (Bool-cases (leb found.total s.max_bytes)) [
        | inl under ↦ record { root = ground arith; read = λ key bytes h. ground arith }
        | inr over ↦ record {
          root = ground arith;
          read = λ key bytes h.
              evict_each-read (found.total - s.max_bytes) (sort_by_mtime found.files)
                (blob_path C key s) bytes s.disk (ground arith);
        }
      ]
    ]

    count_put-Forgets : (s : FilesystemCache F) → Forgets s (count_put C s)
    unfolding count_put spawn_eviction_if_needed
    count_put-Forgets s =
        let counted : FilesystemCache F = record s { put_counter = fetch_add_one s.put_counter } in
        let marked : FilesystemCache F = record counted { eviction_in_flight = true } in
        let evicted = evict-Forgets marked in
        elim (Bool-cases (eqb (counted.put_counter % eviction_put_interval) 0)) [
          | inr skipped ↦ record {
            root = ground arith;
            read = λ key bytes h. ground (arith, blob_path-root C key s counted refl);
          }
          | inl due ↦ elim (Bool-cases s.eviction_in_flight) [
            | inl running ↦ record {
              root = ground arith;
              read = λ key bytes h. ground (arith, blob_path-root C key s counted refl);
            }
            | inr idle ↦ record {
              root = ground (arith, evicted.root);
              read = λ key bytes h.
                  ground (arith, evicted.read key bytes, blob_path-root C key s marked refl);
            }
          ]
        ]

    get-Forgets : (key : CacheKey) (now : ℕ) (s : FilesystemCache F) → Forgets s (get C key now s).1
    unfolding get read_blob_and_touch
    get-Forgets key now s = record {
      root = ground arith;
      read = λ k bytes h.
          ground (arith, store.read-touch (blob_path C key s) (blob_path C k s) now s.disk);
    }

    -- What is read at the path of a blob after a blob was written was there, or is what was written.
    read-write_blob_atomic :
        IsLawful F
        → (key k : CacheKey) (bytes bytes' : List ℕ) (now : ℕ) (s : FilesystemCache F)
        → let r =
            write_blob_atomic C
              (blob_dir C key s)
              (C.hex_sha256 key.version)
              bytes
              now
              s.tmp_counter
              s.disk in
          F.read (blob_path C k s) r.2 ≡ ok bytes'
          → (F.read (blob_path C k s) s.disk ≡ ok bytes')
            ⊎ ((blob_path C k s ≡ blob_path C key s) × (bytes' ≡ bytes))
    unfolding write_blob_atomic publish
    read-write_blob_atomic lawful key k bytes bytes' now s h =
        let name = C.hex_sha256 key.version in
        let dir = blob_dir C key s in
        let p : FilePath = dir ++ (normal name ∷ []) in
        let q = blob_path C k s in
        let tmp : FilePath = dir ++ (normal (tmp_name C name s.tmp_counter) ∷ []) in
        let d1 = (F.create_dir_all dir s.disk).1 in
        let d2 = (F.write tmp bytes d1).1 in
        let d3 = (F.rename tmp p d2).1 in
        let apart : q ≢ tmp = tmp_path_ne C store dir name s.tmp_counter k s in
        let made = store.read-create_dir_all dir q s.disk bytes' in
        let beside = lawful.read-write_ne tmp q bytes d1 apart in
        elim (Bool-cases (exists C p s.disk)) [
          | inl there ↦ inl (ground (arith, store.read-touch p q now s.disk))
          | inr missing ↦ elim (Fallible-cases (F.create_dir_all dir s.disk).0) [
            | inl (e, failed) ↦ inl (ground arith)
            | inr (_, created) ↦ elim (Fallible-cases (F.write tmp bytes d1).0) [
              | inl (e, failed) ↦ inl (ground arith)
              | inr (_, wrote) ↦ elim (Fallible-cases (F.rename tmp p d2).0) [
                | inl (e, failed) ↦
                    let kept = store.read-rename_failed tmp p q d2 e failed in
                    let removed = store.read-remove tmp q d3 bytes' in inl (ground arith)
                | inr (_, renamed) ↦
                    let there = lawful.read-write tmp bytes d1 wrote in
                    elim (Bool-cases (list_beq q p)) [
                      | inl same ↦ inr (
                          ground (
                            arith,
                            blob_path_lem C key s,
                            list_beq_iff q p,
                            store.read-rename tmp p d2 bytes there renamed,
                          ))
                      | inr other ↦ inl (
                          ground (
                            arith,
                            list_beq_iff q p,
                            store.read-rename_ne tmp p q d2 bytes there apart,
                          ))
                    ]
              ]
            ]
          ]
        ]

    put-IsTrue :
        IsLawful F
        → AgreesOnHashes C truth
        → (key : CacheKey) (now : ℕ) (s : FilesystemCache F) → IsTrue s
        → IsTrue (put C key (truth key) now s).1
    unfolding put
    put-IsTrue lawful agrees key now s true_s =
        let r = wrote_blob C key (truth key) now s in
        let wrote : IsTrue r.1 = λ k bytes h.
          elim (read-write_blob_atomic lawful key k (truth key) bytes now s
            (ground (arith, blob_path-root C k s r.1 refl))) [
              | inl before ↦ true_s k bytes before
              | inr (same, fresh) ↦ ground (arith, blob_path-agrees C truth k key s agrees same)
            ] in
        elim (Fallible-cases r.0) [
          | inl (e, failed) ↦ λ k bytes h. wrote k bytes (ground arith)
          | inr (_, done) ↦
              let counted = Forgets-IsTrue r.1 (count_put C r.1) (count_put-Forgets r.1) wrote in
              λ k bytes h. counted k bytes (ground arith)
        ]

    run_op-IsTrue :
        IsLawful F
        → AgreesOnHashes C truth
        → (op : CacheOp) (s : FilesystemCache F) → IsTrue s
        → IsTrue (run_op op s)
    unfolding run_op
    run_op-IsTrue lawful agrees (get_op key now) s true_s =
        Forgets-IsTrue s (get C key now s).1 (get-Forgets key now s) true_s
    run_op-IsTrue lawful agrees (put_op key now) s true_s =
        put-IsTrue lawful agrees key now s true_s
    run_op-IsTrue lawful agrees evict_op s true_s =
        Forgets-IsTrue s (evict_to_budget C s).1 (evict-Forgets s) true_s

    run_ops-IsTrue :
        IsLawful F
        → AgreesOnHashes C truth
        → (ops : List CacheOp) (s : FilesystemCache F) → IsTrue s
        → IsTrue (run_ops ops s)
    unfolding run_ops
    run_ops-IsTrue lawful agrees [] s true_s = true_s
    run_ops-IsTrue lawful agrees (op ∷ ops) s true_s =
        run_ops-IsTrue lawful agrees ops (run_op op s) (run_op-IsTrue lawful agrees op s true_s)

    -- The cache implements a partial view of the bytes that belong to the keys. Through any lookups, any
    -- stores of the bytes of a key, failed ones and their evictions included, and any evictions, a lookup
    -- finds nothing or exactly the bytes of its key, if this was so of every blob at the start. Assumed are
    -- a file system whose calls do what `IsLawful` and `IsStore` say, with no writer besides the cache and
    -- no links, a hash written without dots, and that keys of one instance with the same hashes have the
    -- same bytes.
    pub get-run_ops :
        IsLawful F
        → AgreesOnHashes C truth
        → (ops : List CacheOp) (s : FilesystemCache F) (key : CacheKey) (now : ℕ) (bytes : List ℕ)
        → IsTrue s
        → (get C key now (run_ops ops s)).0 ≡ some bytes
        → bytes ≡ truth key
    unfolding get read_blob_and_touch
    get-run_ops lawful agrees ops s key now bytes true_s hit =
        let t = run_ops ops s in
        elim (Fallible-cases (F.read (blob_path C key t) t.disk)) [
          | inl (e, missing) ↦ absurd (ground arith)
          | inr (held, read) ↦
              ground (arith, run_ops-IsTrue lawful agrees ops s true_s key held read)
        ]
