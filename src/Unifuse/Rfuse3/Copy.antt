-- ===== src/Unifuse/Rfuse3/Copy.antt =====
-- Copies from one open file to another (crates/unifuse/src/rfuse3_adapter.rs, `copy_file_range`).
use omni_fuse.Prelude.{
  ℕ, refl, List, ◌<◌, ◌≤◌, ◌≡◌, ◌≢◌, inl, inr, arith, Bool-cases, Option-cases, Fallible-cases,
  true, false, zero, suc, ◌+◌, ◌-◌, min, Option, none, some, nat_eq, if◌then◌else◌, eqb, ltb,
  length, wrapping_add, Fallible, ok, err,
}
use omni_fuse.Prelude.Map
use omni_fuse.Unifuse.Session.{SessionFs}
use omni_fuse.Unifuse.Types.{ebadf, to_errno, OpenedNode}
use omni_fuse.Unifuse.Rfuse3.{max_write, Adapter, Outcome, finished, panicked, unfinished}

module _ (S : SessionFs) where
  -- One round of the loop of `copy_file_range`: how many bytes were read, and how many written; nothing
  -- is written if nothing was read.
  unfoldable pub copy_round :
      (input output : OpenedNode) (from to count : ℕ)
      → S.State
      → Option (Fallible ℕ (ℕ × ℕ) × S.State)
  copy_round input output from to count s = elim (S.read_into input from count s) [
    | none ↦ none
    | some (err e, t) ↦ some (err (to_errno S.raw_os_error e), t)
    | some (ok bytes, t) ↦
        if eqb (length bytes) 0
        then some (ok (0, 0), t)
        else elim (S.write_from output to bytes t) [
          | none ↦ none
          | some (err e, u) ↦ some (err (to_errno S.raw_os_error e), u)
          | some (ok written, u) ↦ some (ok (length bytes, written), u)
        ]
  ]

  -- The loop, on fuel.
  unfoldable pub copy_loop :
      (input output : OpenedNode) (off_in off_out len : ℕ)
      → (fuel copied : ℕ) → S.State
      → Outcome (Fallible ℕ ℕ × S.State)
  copy_loop input output off_in off_out len zero copied s = unfinished
  copy_loop input output off_in off_out len (suc fuel) copied s = elim (ltb copied len) [
    | false ↦ finished (ok copied, s)
    | true ↦
        elim (copy_round input output (wrapping_add off_in copied) (wrapping_add off_out copied)
          (min (len - copied) max_write) s) [
            | none ↦ panicked
            | some (err e, t) ↦ finished (err e, t)
            | some (ok (read, written), t) ↦ elim (eqb read 0) [
              | true ↦ finished (ok copied, t)
              | false ↦ elim (ltb written read) [
                | true ↦ finished (ok (copied + written), t)
                | false ↦ copy_loop input output off_in off_out len fuel (copied + written) t
              ]
            ]
          ]
  ]

module _ {S : SessionFs} where
  abbrev renew : Adapter S → Outcome (Fallible ℕ ℕ × S.State) → Outcome (Fallible ℕ ℕ × Adapter S)
  renew s (finished (result, inner)) = finished (result, record s { inner = inner })
  renew s panicked = panicked
  renew s unfinished = unfinished

  -- The fuel is the length and one: every further round copies a byte at least.
  unfoldable pub copy_file_range :
      (fh_in off_in fh_out off_out len : ℕ) → Adapter S → Outcome (Fallible ℕ ℕ × Adapter S)
  copy_file_range fh_in off_in fh_out off_out len s = elim (Map.lookup fh_in s.open_nodes) [
    | none ↦ finished (err ebadf, s)
    | some input ↦ elim (Map.lookup fh_out s.open_nodes) [
      | none ↦ finished (err ebadf, s)
      | some output ↦ renew s (copy_loop S input output off_in off_out len (suc len) 0 s.inner)
    ]
  ]

-- A read yields no more bytes than asked for, and a write no larger count than the bytes given.
pub record IsBounded (S : SessionFs) : Type 0 where
  pub length-read_into :
      (file : OpenedNode) (offset count : ℕ) (bytes : List ℕ) (s t : S.State)
      → S.read_into file offset count s ≡ some (ok bytes, t)
      → length bytes ≤ count
  pub count-write_from :
      (file : OpenedNode) (offset n : ℕ) (bytes : List ℕ) (s t : S.State)
      → S.write_from file offset bytes s ≡ some (ok n, t)
      → n ≤ length bytes

module _ (S : SessionFs) where
  copy_round_bounded :
      IsBounded S
      → (input output : OpenedNode) (from to count read written : ℕ) (s t : S.State)
      → copy_round S input output from to count s ≡ some (ok (read, written), t)
      → (read ≤ count) × (written ≤ read)
  unfolding copy_round
  copy_round_bounded bounded input output from to count read written s t done =
      elim (Option-cases (S.read_into input from count s)) [
        | inl fault ↦ absurd (ground arith)
        | inr ((r, u), got) ↦ elim (Fallible-cases r) [
          | inl (e, failed) ↦ absurd (ground arith)
          | inr (bytes, fine) ↦
              let small = bounded.length-read_into input from count bytes s u (ground arith) in
              elim (Option-cases (S.write_from output to bytes u)) [
                | inl fault ↦ ground arith
                | inr ((w, v), put) ↦ elim (Fallible-cases w) [
                  | inl (e, failed) ↦ ground arith
                  | inr (n, wrote) ↦
                      let fewer = bounded.count-write_from output to n bytes u v (ground arith) in
                      ground arith
                ]
              ]
        ]
      ]

  -- The loop ends by itself while there is fuel for the bytes that are left, and never copies more.
  record IsComplete (len : ℕ) (r : Outcome (Fallible ℕ ℕ × S.State)) : Type 0 where
    ends : r ≢ unfinished
    at_most : (n : ℕ) (t : S.State) → r ≡ finished (ok n, t) → n ≤ len

  copy_loop-IsComplete :
      IsBounded S
      → (input output : OpenedNode) (off_in off_out len fuel copied : ℕ) (s : S.State)
      → len - copied < fuel
      → copied ≤ len
      → IsComplete len (copy_loop S input output off_in off_out len fuel copied s)
  unfolding copy_loop
  copy_loop-IsComplete bounded input output off_in off_out len zero copied s enough within =
      absurd (omega arith)
  copy_loop-IsComplete bounded input output off_in off_out len (suc fuel) copied s enough within =
      let from = wrapping_add off_in copied in
      let to = wrapping_add off_out copied in
      let count = min (len - copied) max_write in
      elim (Bool-cases (ltb copied len)) [
        | inr done ↦ record { ends = ground arith; at_most = λ n t h. ground arith }
        | inl more ↦ elim (Option-cases (copy_round S input output from to count s)) [
          | inl fault ↦ record { ends = ground arith; at_most = λ n t h. ground arith }
          | inr ((r, u), round) ↦ elim (Fallible-cases r) [
            | inl (e, failed) ↦ record { ends = ground arith; at_most = λ n t h. ground arith }
            | inr ((read, written), fine) ↦
                let fewer =
                  copy_round_bounded bounded input output from to count read written s u
                    (ground arith) in
                elim (Bool-cases (eqb read 0)) [
                  | inl empty ↦ record { ends = ground arith; at_most = λ n t h. ground arith }
                  | inr some_read ↦ elim (Bool-cases (ltb written read)) [
                    | inl short ↦ record { ends = ground arith; at_most = λ n t h. ground arith }
                    | inr full ↦
                        let rest =
                          copy_loop-IsComplete bounded input output off_in off_out len fuel
                            (copied + written) u (ground arith) (ground arith) in
                        record {
                          ends = ground (arith, rest.ends);
                          at_most = λ n t h. ground (arith, rest.at_most n t);
                        }
                  ]
                ]
          ]
        ]
      ]

module _ {S : SessionFs} where
  renew_complete :
      (s : Adapter S) (len : ℕ) (r : Outcome (Fallible ℕ ℕ × S.State))
      → IsComplete S len r
      → (renew s r ≢ unfinished)
        × ((n : ℕ) (t : Adapter S) → renew s r ≡ finished (ok n, t) → n ≤ len)
  renew_complete s len (finished (ok n, inner)) whole =
      (ground arith, λ m t h. ground (arith, whole.at_most n inner refl))
  renew_complete s len (finished (err e, inner)) whole = (ground arith, λ m t h. ground arith)
  renew_complete s len panicked whole = (ground arith, λ m t h. ground arith)
  renew_complete s len unfinished whole = absurd (whole.ends refl)

  -- Copying between open files ends: one more round than there are bytes to copy is enough. It copies at
  -- most the length asked for, if reads and writes keep within the bytes asked for and given.
  pub copy_file_range-ends :
      IsBounded S
      → (fh_in off_in fh_out off_out len : ℕ) (s : Adapter S)
      → (copy_file_range fh_in off_in fh_out off_out len s ≢ unfinished)
        × ((n : ℕ) (t : Adapter S)
            → copy_file_range fh_in off_in fh_out off_out len s ≡ finished (ok n, t)
            → n ≤ len)
  unfolding copy_file_range
  copy_file_range-ends bounded fh_in off_in fh_out off_out len s =
      elim (Option-cases (Map.lookup fh_in s.open_nodes)) [
        | inl unknown ↦ (ground arith, λ n t h. ground arith)
        | inr (input, known) ↦ elim (Option-cases (Map.lookup fh_out s.open_nodes)) [
          | inl unknown ↦ (ground arith, λ n t h. ground arith)
          | inr (output, out) ↦
              let r = copy_loop S input output off_in off_out len (suc len) 0 s.inner in
              let whole =
                copy_loop-IsComplete S bounded input output off_in off_out len (suc len) 0 s.inner
                  (omega arith) (omega arith) in
              let e : copy_file_range fh_in off_in fh_out off_out len s ≡ renew s r =
                ground arith in
              rw e (renew_complete s len r whole)
        ]
      ]
