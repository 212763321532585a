-- ===== src/Core/Vfs/Mounted.antt =====
-- The virtual file system behind the adapter (crates/omnifuse-core/src/vfs.rs and
-- crates/unifuse/src/rfuse3_adapter.rs): the session that the adapter calls is that of `OmniFuseVfs`.
use omni_fuse.Prelude.{
  ℕ, ◌≤◌, ◌%◌, ◌^◌, min, Option, none, some, ◌≡◌, inl, inr, arith, nat_eq, eqb_iff, list_eq, length,
  length-take, Fallible, ok, Option-cases, Fallible-cases,
}
use omni_fuse.Prelude.Map
use omni_fuse.Prelude.Map.{lookup, lookup-erase}
use omni_fuse.FilePath.{FilePath, component_eq}
use omni_fuse.Core.Backend.{Backend}
use omni_fuse.Core.Buffer
use omni_fuse.Core.Buffer.{Bytes}
use omni_fuse.Core.Directories.{Directories}
use omni_fuse.Core.FileMutations
use omni_fuse.Core.FileMutations.{OpenFile}
use omni_fuse.Core.FileMutations.Queue.{count-write}
use omni_fuse.Core.FileSystem.{FileSystem, IsLawful}
use omni_fuse.Core.Vfs
use omni_fuse.Core.Vfs.{Vfs, V, mutation_for_handle_or_path}
use omni_fuse.Core.Vfs.Handles.{release-write}
use omni_fuse.Core.Vfs.Session.{
  session_lookup, session_open, read_into, write_from, session_flush, session_close,
  session_read_dir, mutate,
}
use omni_fuse.Unifuse.Rfuse3.{Adapter}
use omni_fuse.Unifuse.Rfuse3.Calls
use omni_fuse.Unifuse.Rfuse3.Copy.{IsBounded}
use omni_fuse.Unifuse.Session.{SessionFs}
use omni_fuse.Unifuse.Types.{FsError, OpenedNode}

module _ {F : FileSystem} where
  -- The state of the session is the time and the file system.
  abbrev pub timed :
      {A : Type 0} → (ℕ → V F A) → (ℕ × Vfs F) → Fallible (FsError F.IoError) A × (ℕ × Vfs F)
  timed call (now, s) = let (result, t) = call now s in (result, (now, t))

  abbrev pub timed_or_panic :
      {A : Type 0}
      → (ℕ → Vfs F → Option (Fallible (FsError F.IoError) A × Vfs F))
      → (ℕ × Vfs F)
      → Option (Fallible (FsError F.IoError) A × (ℕ × Vfs F))
  timed_or_panic call (now, s) = elim (call now s) [
    | none ↦ none
    | some (result, t) ↦ some (result, (now, t))
  ]

module _ {F : FileSystem} where
  length-read_into :
      (file : OpenedNode) (offset count now : ℕ) (bytes : Bytes) (s t : Vfs F)
      → read_into file offset count now s ≡ some (ok bytes, t)
      → length bytes ≤ count
  unfolding read_into
  length-read_into file offset count now bytes s t done =
      elim (Option-cases (Vfs.read file.path file.handle offset (count % 2 ^ 32) now s)) [
        | inl fault ↦ absurd (ground arith)
        | inr ((r, u), read) ↦ elim (Fallible-cases r) [
          | inl (e, failed) ↦ absurd (ground arith)
          | inr (whole, fine) ↦ ground (arith, length-take (min (length whole) count) whole)
        ]
      ]

  count-write_vfs :
      (path : FilePath) (fh offset now n : ℕ) (bytes : Bytes) (s t : Vfs F)
      → Vfs.write path fh offset bytes now s ≡ some (ok n, t)
      → n ≤ length bytes
  unfolding Vfs.write FileMutations.write
  count-write_vfs path fh offset now n bytes s t done =
      elim (Fallible-cases (mutation_for_handle_or_path path fh now s).0) [
        | inl (e, failed) ↦ absurd (ground arith)
        | inr (file, found) ↦
            let b = (mutation_for_handle_or_path path fh now s).1.pipeline.cache.heap file.buffer in
            elim (Option-cases (Buffer.write b offset bytes now)) [
              | inl fault ↦ absurd (ground arith)
              | inr ((b', m), wrote) ↦ ground (arith, count-write b b' offset m bytes now wrote)
            ]
      ]

module _ {F : FileSystem} (D : Directories F) (backend : Backend)
    (raw_os_error : F.IoError → Option ℕ) where
  abbrev pub vfs_session : SessionFs
  vfs_session = record {
    State = ℕ × Vfs F;
    IoError = F.IoError;
    raw_os_error = raw_os_error;
    lookup = λ path. timed (session_lookup path);
    open_node = λ path flags. timed (session_open path);
    read_into = λ file offset out_len. timed_or_panic (read_into file offset out_len);
    write_from = λ file offset bytes. timed_or_panic (write_from file offset bytes);
    flush = λ file mode. timed (session_flush file mode);
    close = λ file reason. timed (session_close file);
    read_dir = λ path page. timed (λ now. session_read_dir D backend path page);
    mutate = λ mutation. timed (mutate D mutation);
    read_link = λ path. timed (λ now. Vfs.readlink D path);
    get_xattr = λ path name. timed (λ now. Vfs.getxattr D path name);
    list_xattr = λ path. timed (λ now. Vfs.listxattr D path);
    statfs = timed (λ now. Vfs.statfs D);
  }

  -- A write through the mounted file system and a release of its handle that succeeds, with any time
  -- passing between them, put the whole content of the file's buffer on disk, if the buffer is the one
  -- cached for its path. The handle is then unknown to the adapter and to the file system.
  pub mounted-release-write :
      IsLawful F
      → (fh offset n later : ℕ) (bytes : Bytes) (node : OpenedNode) (file : OpenFile)
        (a b c : Adapter vfs_session)
      → lookup fh a.open_nodes ≡ some node
      → node.handle ≡ fh
      → lookup fh a.inner.1.open_files ≡ some file
      → lookup file.full_path a.inner.1.pipeline.cache.buffers ≡ some file.buffer
      → Calls.write fh offset bytes a ≡ some (ok n, b)
      → Calls.release fh (record b { inner = (later, b.inner.1) }) ≡ (ok tt, c)
      → (F.read file.full_path c.inner.1.pipeline.cache.disk
          ≡ ok (b.inner.1.pipeline.cache.heap file.buffer).content)
        × (lookup fh c.open_nodes ≡ none)
        × (lookup fh c.inner.1.open_files ≡ none)
  unfolding Calls.write Calls.release write_from session_close
  mounted-release-write lawful fh offset n later bytes node file a b c known same held cached wrote
        released =
      elim (Option-cases (Vfs.write node.path node.handle offset bytes a.inner.0 a.inner.1)) [
        | inl fault ↦ absurd (ground arith)
        | inr ((r, t), done) ↦ elim (Fallible-cases r) [
          | inl (e, failed) ↦ absurd (ground arith)
          | inr (m, fine) ↦
              let after : b ≡ record a { inner = (a.inner.0, t) } = ground arith in
              elim (Fallible-cases (Vfs.release node.path node.handle later t).0) [
                | inl (e, failed) ↦ absurd (ground arith)
                | inr (_, closed) ↦
                    let gone : c.open_nodes ≡ Map.erase fh a.open_nodes = ground arith in
                    let left : c.inner.1 ≡ (Vfs.release node.path node.handle later t).1 =
                      ground arith in
                    let (on_disk, unheld, _) =
                      release-write lawful node.path node.path fh offset bytes a.inner.0 later m
                        file a.inner.1 t c.inner.1 held cached (ground arith) (ground arith) in
                    (
                      ground arith,
                      ground (arith, lookup-erase fh fh a.open_nodes, eqb_iff fh fh),
                      unheld,
                    )
              ]
        ]
      ]

  -- The session keeps within the bytes that the adapter asks it to read and write.
  pub vfs_session-IsBounded : IsBounded vfs_session
  unfolding write_from
  vfs_session-IsBounded = record {
    length-read_into = λ file offset count bytes s t done.
        elim (Option-cases (read_into file offset count s.0 s.1)) [
          | inl fault ↦ absurd (ground arith)
          | inr ((r, u), read) ↦ length-read_into file offset count s.0 bytes s.1 u (ground arith)
        ];
    count-write_from = λ file offset n bytes s t done.
        elim (Option-cases (Vfs.write file.path file.handle offset bytes s.0 s.1)) [
          | inl fault ↦ absurd (ground arith)
          | inr ((r, u), wrote) ↦
              count-write_vfs file.path file.handle offset s.0 n bytes s.1 u (ground arith)
        ];
  }
