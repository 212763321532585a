-- ===== src/Core/BufferManager/Evict/Rounds.antt =====
-- The rounds of the eviction loop and their measure (crates/omnifuse-core/src/buffer.rs,
-- `maybe_evict`).
use omni_fuse.Prelude.{
  ℕ, zero, suc, ◌+◌, ◌-◌, ◌≤◌, ◌<◌, Bool, true, false, ◌&&◌, ◌||◌, List, [], ◌∷◌, ◌++◌, Option,
  none, some, ◌≡◌, refl, sym, ◌⊎◌, inl, inr, arith, list_eq, nat_eq, list_beq_iff, leb, length,
  length-append, Bool-cases, Option-cases,
}
use omni_fuse.Prelude.Map.{Map, lookup, erase, lookup-erase}
use mathlib.Core.List.{append_assoc}
use mathlib.Core.Path.{subst}
use omni_fuse.FilePath.{FilePath, component_eq}
use omni_fuse.Core.BufferManager.{
  BufferId, Heap, Eviction, Turn, stop, continue, fits, requeue, evict_next, evict_turn, evict_loop,
}

-- Whether the buffer of a path is dirty.
abbrev pub is_dirty_at : Heap → Map FilePath BufferId → FilePath → Bool
is_dirty_at heap buffers path = elim (lookup path buffers) [
  | none ↦ false
  | some id ↦ (heap id).dirty
]

abbrev pub all_dirty : Heap → Map FilePath BufferId → List FilePath → Bool
all_dirty heap buffers [] = true
all_dirty heap buffers (path ∷ lru) = is_dirty_at heap buffers path && all_dirty heap buffers lru

all_dirty-append :
    (heap : Heap) (buffers : Map FilePath BufferId) (xs ys : List FilePath)
    → all_dirty heap buffers (xs ++ ys) ≡ (all_dirty heap buffers xs && all_dirty heap buffers ys)
all_dirty-append heap buffers [] ys = refl
all_dirty-append heap buffers (x ∷ xs) ys = ground (arith, all_dirty-append heap buffers xs ys)

-- A clean path that goes leaves the dirty ones dirty.
all_dirty-erase :
    (heap : Heap) (buffers : Map FilePath BufferId) (path : FilePath) (lru : List FilePath)
    → is_dirty_at heap buffers path ≡ false
    → all_dirty heap buffers lru ≡ true
    → all_dirty heap (erase path buffers) lru ≡ true
all_dirty-erase heap buffers path [] clean h = refl
all_dirty-erase heap buffers path (p ∷ lru) clean h = ground (
  arith,
  all_dirty-erase heap buffers path lru clean,
  lookup-erase p path buffers,
  list_beq_iff p path,
)

module _ (heap : Heap) (max_memory additional max_attempts : ℕ) where
  abbrev pub turn : Eviction → Turn
  turn = evict_turn heap max_memory additional max_attempts

  abbrev pub loop : ℕ → Eviction → Option Eviction
  loop = evict_loop heap max_memory additional max_attempts

  abbrev pub enough : Eviction → Bool
  enough = fits heap max_memory additional max_attempts

  unfoldable pub measure : Eviction → ℕ
  measure e = length e.lru + (max_attempts - e.attempts)

  -- The queue is a part that the loop has not visited yet, and a part that it found dirty.
  pub record Inv (unseen seen : List FilePath) (e : Eviction) : Type 0 where
    pub queue : e.lru ≡ unseen ++ seen
    pub dirty : all_dirty heap e.resident seen ≡ true
    pub room : length unseen + e.attempts ≤ max_attempts

  abbrev pub IsDone : Eviction → Type 0
  IsDone e = (enough e || all_dirty heap e.resident e.lru) ≡ true

  -- A round ends the loop as it should, or goes on with less to do.
  abbrev Outcome : ℕ → Turn → Type 0
  Outcome n t =
      ((e : Eviction) × (t ≡ stop e) × IsDone e)
      ⊎ ((e : Eviction) × (unseen : List FilePath) × (seen : List FilePath) × (t ≡ continue e)
          × Inv unseen seen e
          × (measure e < n))

  abbrev requeued : FilePath → List FilePath → Eviction → Eviction
  requeued p rest e = record e { lru = rest ++ (p ∷ []); attempts = e.attempts + 1 }

  -- With nothing left to visit, all of the queue is dirty.
  requeue_last :
      (p : FilePath) (seen : List FilePath) (e : Eviction)
      → is_dirty_at heap e.resident p ≡ true
      → all_dirty heap e.resident seen ≡ true
      → Outcome
          (suc (length seen) + (max_attempts - e.attempts))
          (requeue heap max_memory additional max_attempts p seen e)
  unfolding requeue measure
  requeue_last p seen e d ds =
      let all : all_dirty heap e.resident (seen ++ (p ∷ [])) ≡ true =
        ground (arith, all_dirty-append heap e.resident seen (p ∷ [])) in
      elim (Bool-cases (leb max_attempts (e.attempts + 1))) [
        | inl full ↦ inl (requeued p seen e, rw full, ground (arith, all))
        | inr more ↦ inr (
          requeued p seen e,
          [],
          seen ++ (p ∷ []),
          rw more,
          record { queue = refl; dirty = all; room = ground arith },
          ground (arith, length-append seen (p ∷ [])),
        )
      ]

  requeue_more :
      (p x : FilePath) (unseen seen : List FilePath) (e : Eviction)
      → is_dirty_at heap e.resident p ≡ true
      → all_dirty heap e.resident seen ≡ true
      → suc (suc (length unseen)) + e.attempts ≤ max_attempts
      → Outcome
          (suc (length ((x ∷ unseen) ++ seen)) + (max_attempts - e.attempts))
          (requeue heap max_memory additional max_attempts p ((x ∷ unseen) ++ seen) e)
  unfolding requeue measure
  requeue_more p x unseen seen e d ds room =
      let more : leb max_attempts (e.attempts + 1) ≡ false = ground arith in
      inr (
        requeued p ((x ∷ unseen) ++ seen) e,
        x ∷ unseen,
        seen ++ (p ∷ []),
        rw more,
        record {
          queue = append_assoc (x ∷ unseen) seen (p ∷ []);
          dirty = ground (arith, all_dirty-append heap e.resident seen (p ∷ []));
          room = omega arith;
        },
        omega (arith, length-append ((x ∷ unseen) ++ seen) (p ∷ [])),
      )

  requeue_lem :
      (p : FilePath) (unseen seen : List FilePath) (e : Eviction)
      → is_dirty_at heap e.resident p ≡ true
      → all_dirty heap e.resident seen ≡ true
      → suc (length unseen) + e.attempts ≤ max_attempts
      → Outcome
          (suc (length (unseen ++ seen)) + (max_attempts - e.attempts))
          (requeue heap max_memory additional max_attempts p (unseen ++ seen) e)
  requeue_lem p [] seen e d ds room = requeue_last p seen e d ds
  requeue_lem p (x ∷ unseen) seen e d ds room = requeue_more p x unseen seen e d ds room

  abbrev dropped : FilePath → BufferId → List FilePath → Eviction → Eviction
  dropped p id rest e = record e {
    lru = rest;
    resident = erase p e.resident;
    usage = e.usage - (heap id).size;
  }

  abbrev next : List FilePath → Eviction → Turn
  next = evict_next heap max_memory additional max_attempts

  next_gone :
      (p : FilePath) (rest : List FilePath) (e : Eviction)
      → lookup p e.resident ≡ none
      → next (p ∷ rest) e ≡ continue (record e { lru = rest })
  unfolding evict_next
  next_gone p rest e h = ground arith

  next_dirty :
      (p : FilePath) (rest : List FilePath) (e : Eviction)
      → is_dirty_at heap e.resident p ≡ true
      → next (p ∷ rest) e ≡ requeue heap max_memory additional max_attempts p rest e
  unfolding evict_next
  next_dirty p rest e d = ground arith

  next_clean :
      (p : FilePath) (rest : List FilePath) (e : Eviction) (id : BufferId)
      → lookup p e.resident ≡ some id
      → (heap id).dirty ≡ false
      → next (p ∷ rest) e ≡ continue (dropped p id rest e)
  unfolding evict_next
  next_clean p rest e id h c = ground arith

  next_lem :
      (unseen seen : List FilePath) (e : Eviction)
      → e.lru ≡ unseen ++ seen
      → all_dirty heap e.resident seen ≡ true
      → length unseen + e.attempts ≤ max_attempts
      → Outcome (length (unseen ++ seen) + (max_attempts - e.attempts)) (next (unseen ++ seen) e)
  unfolding measure
  next_lem [] [] e q ds room = inl (e, unfold evict_next in refl, rw q (ground arith))
  next_lem [] (p ∷ seen) e q ds room =
      let n : ℕ = suc (length seen) + (max_attempts - e.attempts) in
      subst (Outcome n) (sym (next_dirty p seen e (ground arith)))
        (requeue_last p seen e (ground arith) (ground arith))
  next_lem (p ∷ unseen) seen e q ds room =
      let n : ℕ = suc (length (unseen ++ seen)) + (max_attempts - e.attempts) in
      elim (Option-cases (lookup p e.resident)) [
        | inl gone ↦ inr (
          record e { lru = unseen ++ seen },
          unseen,
          seen,
          next_gone p (unseen ++ seen) e gone,
          record { queue = refl; dirty = ds; room = omega arith },
          omega arith,
        )
        | inr (id, found) ↦ elim (Bool-cases (heap id).dirty) [
          | inl d ↦
              subst (Outcome n) (sym (next_dirty p (unseen ++ seen) e (ground arith)))
                (requeue_lem p unseen seen e (ground arith) ds room)
          | inr c ↦ inr (
            dropped p id (unseen ++ seen) e,
            unseen,
            seen,
            next_clean p (unseen ++ seen) e id found c,
            record {
              queue = refl;
              dirty = all_dirty-erase heap e.resident p seen (ground arith) ds;
              room = omega arith;
            },
            omega arith,
          )
        ]
      ]

  turn_lem :
      (unseen seen : List FilePath) (e : Eviction)
      → Inv unseen seen e
      → Outcome (measure e) (turn e)
  unfolding evict_turn measure
  turn_lem unseen seen e inv = elim (Bool-cases (enough e)) [
    | inl done ↦ rw done (inl (e, refl, ground arith))
    | inr more ↦ rw more (
        subst (λ l. Outcome (length l + (max_attempts - e.attempts)) (next l e)) (sym inv.queue)
          (next_lem unseen seen e inv.queue inv.dirty inv.room))
  ]

  -- The loop ends, with the new bytes fitting or with nothing but dirty buffers in the queue.
  pub loop-IsDone :
      (fuel : ℕ) (unseen seen : List FilePath) (e : Eviction)
      → Inv unseen seen e
      → measure e < fuel
      → (e' : Eviction) × (loop fuel e ≡ some e') × IsDone e'
  unfolding evict_loop
  loop-IsDone zero unseen seen e inv h = absurd (omega arith)
  loop-IsDone (suc fuel) unseen seen e inv h = elim (turn_lem unseen seen e inv) [
    | inl (e', stops, done) ↦ (e', rw (stops, evict_loop), done)
    | inr (e', unseen', seen', goes, inv', less) ↦
        let (e'', ends, done) = loop-IsDone fuel unseen' seen' e' inv' (omega arith) in
        (e'', rw (goes, evict_loop) ends, done)
  ]

  abbrev left : Turn → Eviction
  left (stop e) = e
  left (continue e) = e

  -- A round drops no dirty buffer.
  next_keeps :
      (p : FilePath) (lru : List FilePath) (e : Eviction)
      → is_dirty_at heap e.resident p ≡ true
      → lookup p (left (next lru e)).resident ≡ lookup p e.resident
  unfolding evict_next requeue
  next_keeps p [] e d = refl
  next_keeps p (q ∷ rest) e d = ground (arith, lookup-erase p q e.resident, list_beq_iff p q)

  turn_keeps :
      (p : FilePath) (e : Eviction)
      → is_dirty_at heap e.resident p ≡ true
      → lookup p (left (turn e)).resident ≡ lookup p e.resident
  unfolding evict_turn
  turn_keeps p e d = elim (Bool-cases (enough e)) [
    | inl done ↦ rw done
    | inr more ↦ rw more (next_keeps p e.lru e d)
  ]

  pub loop_keeps :
      (p : FilePath) (fuel : ℕ) (e e' : Eviction)
      → is_dirty_at heap e.resident p ≡ true
      → loop fuel e ≡ some e'
      → lookup p e'.resident ≡ lookup p e.resident
  unfolding evict_loop
  loop_keeps p zero e e' d h = cc
  loop_keeps p (suc fuel) e e' d h =
      ground (arith, turn_keeps p e d, loop_keeps p fuel (left (turn e)) e')
