-- ===== src/Core/Vfs/Handles.antt =====
-- The table of open files (crates/omnifuse-core/src/vfs.rs, `open`, `create`, `write`, `release`).
use omni_fuse.Prelude.{
  ℕ, ◌+◌, ◌<◌, ◌≤◌, false, List, [], ◌∷◌, none, some, ◌≡◌, ◌≢◌, refl, inl, inr, arith, list_eq,
  nat_eq, eqb_iff, length, u64_mod, ok, Fallible-cases, Option-cases,
}
use omni_fuse.Prelude.Map.{lookup, insert, erase, lookup-insert, lookup-erase}
use omni_fuse.FilePath.{FilePath, component_eq}
use omni_fuse.Core.FileSystem.{FileSystem, IsLawful}
use omni_fuse.Core.Directories.{Directories}
use omni_fuse.Core.Backend.{Backend}
use omni_fuse.Core.Buffer.{Bytes}
use omni_fuse.Core.BufferManager
use omni_fuse.Core.FileMutations
use omni_fuse.Core.FileMutations.{OpenFile}
use omni_fuse.Core.FileMutations.Close.{close-write}
use omni_fuse.Core.Vfs
use omni_fuse.Core.Vfs.{
  Vfs, open_path, create, write, flush, release, removed_or_opened, mutation_for_handle_or_path,
  alloc_fh, through, fsync, getattr, setattr, set_times_unix, set_mode_unix, lookup_child, readdir,
  rmdir, unlink, readlink, listxattr, mkdir, rename, symlink, statfs, setxattr, getxattr,
  removexattr,
}
use omni_fuse.Unifuse.Types.{FileHandle}
use omni_fuse.Core.Vfs.Calls.{
  Call, releases, IsFresh, Step-IsFresh, Step-count, Step-lookup, perform, perform_all,
  perform-Step,
}

module _ {F : FileSystem} where
  new-IsFresh : (dir : FilePath) (p : FileMutations.Pipeline F) → IsFresh (Vfs.new_vfs dir p)
  unfolding Vfs.new_vfs lookup
  new-IsFresh dir p fh above = refl

  opened_path :
      (path : FilePath) (now : ℕ) (p : FileMutations.Pipeline F) (file : OpenFile)
      → (FileMutations.open_file path now p).0 ≡ ok file
      → file.path ≡ path
  unfolding FileMutations.open_file
  opened_path path now p file done =
      elim (Fallible-cases
        (BufferManager.get_or_load (FileMutations.full_path path p) now p.cache).0) [
          | inl (e, failed) ↦ ground arith
          | inr (id, loaded) ↦ ground arith
        ]

  -- A write through an open handle, followed by its release without an error, puts the whole content
  -- of its buffer on disk, if that buffer is the one cached for its path. The handle is closed then,
  -- and every other handle names what it did.
  pub release-write :
      IsLawful F
      → (path path' : FilePath) (fh : FileHandle) (offset : ℕ) (bytes : Bytes) (now now' n : ℕ)
        (file : OpenFile) (s t u : Vfs F)
      → lookup fh s.open_files ≡ some file
      → lookup file.full_path s.pipeline.cache.buffers ≡ some file.buffer
      → write path fh offset bytes now s ≡ some (ok n, t)
      → release path' fh now' t ≡ (ok tt, u)
      → (F.read file.full_path u.pipeline.cache.disk
          ≡ ok (t.pipeline.cache.heap file.buffer).content)
        × (lookup fh u.open_files ≡ none)
        × ((g : FileHandle) → g ≢ fh → lookup g u.open_files ≡ lookup g s.open_files)
  unfolding write release removed_or_opened mutation_for_handle_or_path
  release-write lawful path path' fh offset bytes now now' n file s t u held cached wrote released =
      elim (Option-cases (FileMutations.write file offset bytes now s.pipeline)) [
        | inl fault ↦ absurd (ground arith)
        | inr ((m, q), done) ↦
            let after : t ≡ record s { pipeline = q } = ground arith in
            let still : lookup fh t.open_files ≡ some file = ground arith in
            let table : u.open_files ≡ erase fh s.open_files = ground arith in
            let piped : u.pipeline ≡ (FileMutations.close file q).1 = ground arith in
            let fine : (FileMutations.close file q).0 ≡ ok tt = ground arith in
            let (on_disk, _, _) =
              close-write lawful file offset bytes now m s.pipeline q cached done fine in
            (
              ground arith,
              ground (arith, lookup-erase fh fh s.open_files, eqb_iff fh fh),
              λ g other. ground (arith, lookup-erase g fh s.open_files, eqb_iff g fh),
            )
      ]

module _ {F : FileSystem} (D : Directories F) (backend : Backend) where
  perform_all-IsFresh :
      (calls : List Call) (s : Vfs F)
      → s.next_fh + length calls < u64_mod
      → IsFresh s
      → IsFresh (perform_all D backend calls s)
  unfolding perform_all
  perform_all-IsFresh [] s bound fresh = fresh
  perform_all-IsFresh (call ∷ calls) s bound fresh =
      let step = perform-Step D backend call s in
      let count = Step-count call s (perform D backend call s) step (omega arith) in
      perform_all-IsFresh calls (perform D backend call s) (omega arith)
        (Step-IsFresh call s (perform D backend call s) step (omega arith) fresh)

  -- A handle that was given out names the same open file, or none, through any calls that do not
  -- release it, as long as they are too few for the counter of 64 bits to wrap around.
  pub lookup-perform_all :
      (calls : List Call) (s : Vfs F) (fh : FileHandle)
      → fh < s.next_fh
      → s.next_fh + length calls < u64_mod
      → releases fh calls ≡ false
      → lookup fh (perform_all D backend calls s).open_files ≡ lookup fh s.open_files
  unfolding perform_all releases
  lookup-perform_all [] s fh old bound held = refl
  lookup-perform_all (call ∷ calls) s fh old bound held =
      let t = perform D backend call s in
      let step = perform-Step D backend call s in
      let count = Step-count call s t step (omega arith) in
      ground (
        arith,
        Step-lookup call s t fh step old,
        lookup-perform_all calls t fh (omega arith) (omega arith),
      )

  perform_all-count :
      (calls : List Call) (s : Vfs F)
      → s.next_fh + length calls < u64_mod
      → (perform_all D backend calls s).next_fh ≤ s.next_fh + length calls
  unfolding perform_all
  perform_all-count [] s bound = omega arith
  perform_all-count (call ∷ calls) s bound =
      let count =
        Step-count call s (perform D backend call s) (perform-Step D backend call s)
          (omega arith) in
      omega (arith, perform_all-count calls (perform D backend call s))

  -- After any calls on a new file system, fewer than 2^64 - 2 of them, a successful opening gives a
  -- handle that names no open file yet. From then on it names an open file with the path, and every
  -- other handle names what it did.
  pub open_path_unique :
      (dir : FilePath) (p : FileMutations.Pipeline F) (calls : List Call) (path : FilePath)
      (now : ℕ) (fh : FileHandle) (t : Vfs F)
      → length calls + 2 < u64_mod
      → let s = perform_all D backend calls (Vfs.new_vfs dir p) in
        open_path path now s ≡ (ok fh, t)
        → (lookup fh s.open_files ≡ none)
          × ((file : OpenFile) × (lookup fh t.open_files ≡ some file) × (file.path ≡ path))
          × ((g : FileHandle) → g ≢ fh → lookup g t.open_files ≡ lookup g s.open_files)
  unfolding open_path alloc_fh Vfs.new_vfs
  open_path_unique dir p calls path now fh t bound done =
      let s0 = Vfs.new_vfs dir p in
      let s = perform_all D backend calls s0 in
      let count = perform_all-count calls s0 (omega arith) in
      let fresh = perform_all-IsFresh calls s0 (omega arith) (new-IsFresh dir p) in
      elim (Fallible-cases (FileMutations.open_file path now s.pipeline).0) [
        | inl (e, failed) ↦ absurd (ground arith)
        | inr (file, found) ↦
            let at : fh ≡ s.next_fh = ground arith in
            let table : t.open_files ≡ insert s.next_fh file s.open_files = ground arith in
            (
              ground (arith, fresh fh),
              (
                file,
                ground (arith, lookup-insert fh s.next_fh file s.open_files, eqb_iff fh s.next_fh),
                opened_path path now s.pipeline file found,
              ),
              λ g other.
                  ground (arith, lookup-insert g s.next_fh file s.open_files, eqb_iff g s.next_fh),
            )
      ]
