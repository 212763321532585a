-- ===== src/Core/PersistentCache/Lookup.antt =====
-- A lookup after a store (crates/omnifuse-core/src/persistent_cache.rs, `get` and `put`).
use omni_fuse.Prelude.{
  ℕ, ◌%◌, ◌≡◌, false, List, [], ◌∷◌, ◌++◌, Option, none, some, inl, inr, arith, list_eq, nat_eq,
  if◌then◌else◌, eqb, fetch_add_one, Fallible, ok, err, Fallible-cases, Bool-cases,
}
use omni_fuse.FilePath.{FilePath, normal, component_eq}
use omni_fuse.Core.FileSystem.{FileSystem, IsLawful}
use omni_fuse.Core.PersistentCache.{
  CacheCalls, CacheKey, FilesystemCache, exists, blob_dir, blob_path, read_blob_and_touch, get,
  tmp_name, publish, write_blob_atomic, eviction_put_interval,
}
use omni_fuse.Core.PersistentCache.Evict.{count_put, wrote_blob, put}
use omni_fuse.Core.PersistentCache.Store.{IsStore, tmp_path_ne, blob_path_lem, blob_path-root}

module _ {F : FileSystem} (C : CacheCalls F) (store : IsStore F C) where
  read_back-write_blob_atomic :
      IsLawful F
      → (key : CacheKey) (bytes : List ℕ) (now : ℕ) (s : FilesystemCache F)
      → let r =
          write_blob_atomic C
            (blob_dir C key s)
            (C.hex_sha256 key.version)
            bytes
            now
            s.tmp_counter
            s.disk in
        r.0 ≡ ok tt
        → F.read (blob_path C key s) r.2 ≡ (
            if exists C (blob_path C key s) s.disk
            then F.read (blob_path C key s) s.disk
            else ok bytes)
  unfolding write_blob_atomic publish
  read_back-write_blob_atomic lawful key bytes now s done =
      let name = C.hex_sha256 key.version in
      let dir = blob_dir C key s in
      let p : FilePath = dir ++ (normal name ∷ []) in
      let tmp : FilePath = dir ++ (normal (tmp_name C name s.tmp_counter) ∷ []) in
      let d1 = (F.create_dir_all dir s.disk).1 in
      let d2 = (F.write tmp bytes d1).1 in
      let d3 = (F.rename tmp p d2).1 in
      let at = blob_path_lem C key s in
      let apart = tmp_path_ne C store dir name s.tmp_counter key s in
      elim (Bool-cases (exists C p s.disk)) [
        | inl there ↦ ground (arith, store.read-touch p p now s.disk)
        | inr missing ↦ elim (Fallible-cases (F.create_dir_all dir s.disk).0) [
          | inl (e, failed) ↦ absurd (ground arith)
          | inr (_, created) ↦ elim (Fallible-cases (F.write tmp bytes d1).0) [
            | inl (e, failed) ↦ absurd (ground arith)
            | inr (_, wrote) ↦ elim (Fallible-cases (F.rename tmp p d2).0) [
              | inl (e, failed) ↦ absurd (
                  ground (
                    arith,
                    store.exists-rename_failed tmp p p d2 e failed,
                    store.exists-create_dir_all dir name s.disk,
                    store.exists-write_ne tmp p bytes d1,
                  ))
              | inr (_, renamed) ↦ ground (
                arith,
                store.read-rename tmp p d2 bytes (lawful.read-write tmp bytes d1 wrote) renamed,
              )
            ]
          ]
        ]
      ]

  abbrev readable : Fallible F.IoError (List ℕ) → Option (List ℕ)
  readable (ok bytes) = some bytes
  readable (err e) = none

  get_lem :
      (key : CacheKey) (now : ℕ) (s : FilesystemCache F)
      → (get C key now s).0 ≡ readable (F.read (blob_path C key s) s.disk)
  unfolding get read_blob_and_touch
  get_lem key now s = ground arith

  -- A store that succeeds and is not followed by an eviction is found by the next lookup: with the bytes
  -- stored, or, if something existed at the path of the blob, as it was found before. Assumed are a file
  -- system whose calls do what `IsLawful` and `IsStore` say, with no writer besides the cache and no
  -- links, and a hash written without dots.
  pub get-put :
      IsLawful F
      → (key : CacheKey) (bytes : List ℕ) (now later : ℕ) (s : FilesystemCache F)
      → (put C key bytes now s).0 ≡ ok tt
      → eqb (fetch_add_one s.put_counter % eviction_put_interval) 0 ≡ false
      → let t = (put C key bytes now s).1 in
        (get C key later t).0
        ≡ (if exists C (blob_path C key s) s.disk then (get C key later s).0 else some bytes)
  unfolding put count_put
  get-put lawful key bytes now later s done early =
      let r = wrote_blob C key bytes now s in
      let t = (put C key bytes now s).1 in
      elim (Fallible-cases r.0) [
        | inl (e, failed) ↦ absurd (ground arith)
        | inr (_, wrote) ↦
            let disk : t.disk ≡ r.1.disk = ground arith in
            let root : t.root ≡ s.root = ground arith in
            ground (
              arith,
              get_lem key later t,
              get_lem key later s,
              blob_path-root C key s t root,
              read_back-write_blob_atomic lawful key bytes now s wrote,
            )
      ]
