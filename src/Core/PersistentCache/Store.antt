-- ===== src/Core/PersistentCache/Store.antt =====
-- What the cache relies on, and its paths (crates/omnifuse-core/src/persistent_cache.rs).
use omni_fuse.Prelude.{
  ℕ, ◌≡◌, ◌≢◌, refl, false, List, [], ◌∷◌, ◌++◌, Option, none, some, arith, list_eq, nat_eq,
  contains, contains-append, take, ok, err,
}
use mathlib.Core.List.{append_assoc}
use omni_fuse.FilePath.{FilePath, Name, Component, normal, component_eq}
use omni_fuse.Core.FileSystem.{FileSystem}
use omni_fuse.Core.PersistentCache.{
  CacheCalls, CacheKey, FilesystemCache, exists, blob_dir, blob_path, tmp_name, tmp_mark,
}

-- What the cache relies on. Touching a file changes no content, and creating directories and removing
-- files add none. A renamed file has its content under the new name, and other files keep theirs; a
-- renaming that fails changes nothing. Creating a directory makes nothing exist below it, and writing a
-- file makes no other exist. The hash is written without dots.
pub record IsStore (F : FileSystem) (C : CacheCalls F) : Type 0 where
  pub read-touch :
      (p q : FilePath) (now : ℕ) (d : F.State) → F.read q (C.touch p now d).1 ≡ F.read q d
  pub read-create_dir_all :
      (p q : FilePath) (d : F.State) (bytes : List ℕ)
      → F.read q (F.create_dir_all p d).1 ≡ ok bytes
      → F.read q d ≡ ok bytes
  pub read-rename :
      (p q : FilePath) (d : F.State) (bytes : List ℕ)
      → F.read p d ≡ ok bytes
      → (F.rename p q d).0 ≡ ok tt
      → F.read q (F.rename p q d).1 ≡ ok bytes
  pub read-rename_ne :
      (p q r : FilePath) (d : F.State) (bytes : List ℕ)
      → F.read p d ≡ ok bytes
      → r ≢ p
      → r ≢ q
      → F.read r (F.rename p q d).1 ≡ F.read r d
  pub read-rename_failed :
      (p q r : FilePath) (d : F.State) (e : F.IoError)
      → (F.rename p q d).0 ≡ err e
      → F.read r (F.rename p q d).1 ≡ F.read r d
  pub read-remove :
      (p q : FilePath) (d : F.State) (bytes : List ℕ)
      → F.read q (F.remove_file p d).1 ≡ ok bytes
      → F.read q d ≡ ok bytes
  pub exists-create_dir_all :
      (p : FilePath) (name : Name) (d : F.State)
      → exists C (p ++ (normal name ∷ [])) (F.create_dir_all p d).1
        ≡ exists C (p ++ (normal name ∷ [])) d
  pub exists-write_ne :
      (p q : FilePath) (bytes : List ℕ) (d : F.State)
      → q ≢ p
      → exists C q (F.write p bytes d).1 ≡ exists C q d
  pub exists-rename_failed :
      (p q r : FilePath) (d : F.State) (e : F.IoError)
      → (F.rename p q d).0 ≡ err e
      → exists C r (F.rename p q d).1 ≡ exists C r d
  pub no_dot : (a : List ℕ) → contains (C.hex_sha256 a) b'.' ≡ false

-- Keys of one instance whose hashes coincide have the same bytes.
abbrev pub AgreesOnHashes : {F : FileSystem} → CacheCalls F → (CacheKey → List ℕ) → Type 0
AgreesOnHashes C truth =
    (k l : CacheKey)
    → k.instance_hash ≡ l.instance_hash
    → C.hex_sha256 k.path ≡ C.hex_sha256 l.path
    → C.hex_sha256 k.version ≡ C.hex_sha256 l.version
    → truth k ≡ truth l

last : FilePath → Option Component
last [] = none
last (c ∷ []) = some c
last (c ∷ d ∷ p) = last (d ∷ p)

last-append : (p : FilePath) (c : Component) → last (p ++ (c ∷ [])) ≡ some c
unfolding last
last-append [] c = refl
last-append (d ∷ []) c = refl
last-append (d ∷ e ∷ p) c = last-append (e ∷ p) c

append_cancel : (p q r : FilePath) → p ++ q ≡ p ++ r → q ≡ r
append_cancel [] q r h = h
append_cancel (c ∷ p) q r h = append_cancel p q r (ground arith)

module _ {F : FileSystem} (C : CacheCalls F) where
  -- Keys with one path have the same bytes.
  pub blob_path-agrees :
      (truth : CacheKey → List ℕ) (k l : CacheKey) (s : FilesystemCache F)
      → AgreesOnHashes C truth
      → blob_path C k s ≡ blob_path C l s
      → truth k ≡ truth l
  unfolding blob_path blob_dir
  blob_path-agrees truth k l s agrees h =
      let k_end = normal (take 2 (C.hex_sha256 k.path)) ∷ normal (C.hex_sha256 k.path) ∷ [] in
      let l_end = normal (take 2 (C.hex_sha256 l.path)) ∷ normal (C.hex_sha256 l.path) ∷ [] in
      let k_version : FilePath = normal (C.hex_sha256 k.version) ∷ [] in
      let l_version : FilePath = normal (C.hex_sha256 l.version) ∷ [] in
      let flat : s.root ++ (normal k.instance_hash ∷ (k_end ++ k_version))
          ≡ s.root ++ (normal l.instance_hash ∷ (l_end ++ l_version)) =
        ground (
          arith,
          append_assoc s.root (normal k.instance_hash ∷ k_end) k_version,
          append_assoc s.root (normal l.instance_hash ∷ l_end) l_version,
        ) in
      let parts =
        append_cancel s.root (normal k.instance_hash ∷ (k_end ++ k_version))
          (normal l.instance_hash ∷ (l_end ++ l_version)) flat in
      agrees k l (ground arith) (ground arith) (ground arith)

module _ {F : FileSystem} (C : CacheCalls F) (store : IsStore F C) where
  pub tmp_path_ne :
      (dir : FilePath) (name : Name) (counter : ℕ) (key : CacheKey) (s : FilesystemCache F)
      → blob_path C key s ≢ dir ++ (normal (tmp_name C name counter) ∷ [])
  unfolding blob_path contains
  tmp_path_ne dir name counter key s = λ same.
      let tmp = tmp_name C name counter in
      let hash = C.hex_sha256 key.version in
      let ends : normal hash ≡ normal tmp =
        ground
          (arith, last-append (blob_dir C key s) (normal hash), last-append dir (normal tmp)) in
      ground (
        arith,
        store.no_dot key.version,
        contains-append name (tmp_mark ++ C.tmp_suffix counter) b'.',
      )

module _ {F : FileSystem} (C : CacheCalls F) where
  pub blob_path_lem :
      (key : CacheKey) (s : FilesystemCache F)
      → blob_path C key s ≡ blob_dir C key s ++ (normal (C.hex_sha256 key.version) ∷ [])
  unfolding blob_path
  blob_path_lem key s = refl

  pub blob_path-root :
      (key : CacheKey) (s t : FilesystemCache F)
      → t.root ≡ s.root
      → blob_path C key t ≡ blob_path C key s
  unfolding blob_path blob_dir
  blob_path-root key s t same = rw same
