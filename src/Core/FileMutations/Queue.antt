-- ===== src/Core/FileMutations/Queue.antt =====
-- What reaches the queue of the sync engine (crates/omnifuse-core/src/file_mutations.rs).
use omni_fuse.Prelude.{
  ℕ, ◌≤◌, Bool, ◌||◌, not, [], ◌∷◌, ◌++◌, some, ◌≡◌, inl, inr, arith, list_eq, if◌then◌else◌, leb,
  length, length-append, Option-cases,
}
use mathlib.Core.List.{append_assoc}
use omni_fuse.FilePath.{FilePath, component_eq}
use omni_fuse.Core.FileSystem.{FileSystem}
use omni_fuse.Core.Buffer
use omni_fuse.Core.Buffer.{Bytes, FileBuffer}
use omni_fuse.Core.SyncEngine.{FsEvent, file_modified}
use omni_fuse.Core.FileMutations.{
  file_change, file_written, queue_drop, Pipeline, OpenFile, send, send_or_warn, queue_modified,
  mark_modified, mark_closed, create_file, unlink, rename, symlink, write, truncate, flush, close,
}

pub count-write :
    (b t : FileBuffer) (offset n : ℕ) (bytes : Bytes) (now : ℕ)
    → Buffer.write b offset bytes now ≡ some (t, n)
    → n ≡ length bytes
unfolding Buffer.write
count-write b t offset n bytes now h = ground arith

-- The operations of the pipeline that take a path or an open file.
pub data Call : Type 0 where
  create_call : FilePath → ℕ → ℕ → Call
  unlink_call : FilePath → Call
  rename_call : FilePath → FilePath → Call
  symlink_call : FilePath → FilePath → ℕ → Call
  truncate_call : OpenFile → ℕ → ℕ → Call
  close_call : OpenFile → Call

module _ {F : FileSystem} where
  -- Whether the queue takes one more event: it has a receiver, and is not full.
  abbrev pub accepts : Pipeline F → Bool
  accepts s = not (s.closed || leb s.capacity (length s.queue))

  -- A written file is queued for the sync engine if the queue accepts it; otherwise the user sees a
  -- warning. In both cases the change and the number of bytes are reported.
  pub queue-write :
      (f : OpenFile) (offset : ℕ) (bytes : Bytes) (now n : ℕ) (s t : Pipeline F)
      → write f offset bytes now s ≡ some (n, t)
      → (t.queue ≡ (if accepts s then s.queue ++ (file_modified f.path ∷ []) else s.queue))
        × (t.events
            ≡ (if accepts s then s.events else s.events ++ (queue_drop ∷ []))
              ++ (file_change f.path ∷ file_written f.path (length bytes) ∷ []))
  unfolding write mark_modified send_or_warn send
  queue-write f offset bytes now n s t done =
      elim (Option-cases (Buffer.write (s.cache.heap f.buffer) offset bytes now)) [
        | inl fault ↦ ground arith
        | inr ((b, m), wrote) ↦
            let counted = count-write (s.cache.heap f.buffer) b offset m bytes now wrote in
            ground (
              arith,
              counted,
              append_assoc s.events (file_change f.path ∷ []) (file_written f.path m ∷ []),
              append_assoc (s.events ++ (queue_drop ∷ [])) (file_change f.path ∷ [])
                  (file_written f.path m ∷ []),
            )
      ]

  unfoldable pub perform : Call → Pipeline F → Pipeline F
  perform (create_call path mode now) s = (create_file path mode now s).1
  perform (unlink_call path) s = (unlink path s).1
  perform (rename_call from to) s = (rename from to s).1
  perform (symlink_call target link now) s = (symlink target link now s).1
  perform (truncate_call f size now) s = (truncate f size now s).1
  perform (close_call f) s = (close f s).1

  abbrev IsBounded : Pipeline F → Type 0
  IsBounded s = length s.queue ≤ s.capacity

  send_or_warn-IsBounded :
      (event : FsEvent) (s : Pipeline F) → IsBounded s → IsBounded (send_or_warn event s).1
  unfolding send_or_warn send
  send_or_warn-IsBounded event s h = ground (arith, length-append s.queue (event ∷ []))

  -- A queue that holds no more than its capacity still does so after any operation that queues
  -- events: creation, removal, renaming, linking, truncation and closing.
  pub perform-bounded :
      (call : Call) (s : Pipeline F)
      → length s.queue ≤ s.capacity
      → length (perform call s).queue ≤ (perform call s).capacity
  unfolding perform create_file unlink rename symlink truncate close flush mark_closed mark_modified
      queue_modified
  perform-bounded (create_call path mode now) s h = grind (arith, send_or_warn-IsBounded)
  perform-bounded (unlink_call path) s h = grind (arith, send_or_warn-IsBounded)
  perform-bounded (rename_call from to) s h = grind (arith, send_or_warn-IsBounded)
  perform-bounded (symlink_call target link now) s h = grind (arith, send_or_warn-IsBounded)
  perform-bounded (truncate_call f size now) s h = grind (arith, send_or_warn-IsBounded)
  perform-bounded (close_call f) s h = grind (arith, send_or_warn-IsBounded)
