-- ===== src/S3/Upload/Retries.antt =====
-- The retries of an upload (crates/omnifuse-s3/src/session.rs, `upload_or_merge`).
use omni_fuse.Prelude.{
  ℕ, zero, suc, Bool, true, false, ◌&&◌, Fallible, ok, err, if◌then◌else◌, ltb, ◌≡◌, refl, arith,
  ◌⊎◌, inl, inr, Bool-cases, Fallible-cases, ◌≤◌, ◌<◌, ◌∙◌,
}
use omni_fuse.FilePath.{FilePath}
use omni_fuse.S3.Path.{Key}
use omni_fuse.S3.Error.{AnyError}
use omni_fuse.S3.State.{Env, S3Session}
use omni_fuse.S3.Upload.{
  is_precondition_failed, upload_or_merge_once, upload_attempts, upload_or_merge,
}

-- The attempt ended in a failed precondition.
abbrev pub lost_race : {A : Type 0} → Fallible AnyError A → Bool
lost_race (ok _) = false
lost_race (err e) = is_precondition_failed e

module _ {E : Env} (rel : FilePath) (key : Key) (path : FilePath) where
  -- The state in which the attempt with number `k` starts, counted from 0.
  unfoldable pub before_attempt : ℕ → S3Session E → S3Session E
  before_attempt zero s = s
  before_attempt (suc k) s = before_attempt k (upload_or_merge_once rel key path s).1

  -- The attempt that `out` is the outcome of, among `n + 1` at most: those before it lost a race,
  -- and it did not, unless it was the last.
  abbrev pub EndsWithAttempt : ℕ → S3Session E → Fallible AnyError (Unit {0}) × S3Session E → Type 0
  EndsWithAttempt n s out =
      (k : ℕ) × (k ≤ n)
      × (out ≡ upload_or_merge_once rel key path (before_attempt k s))
      × ((j : ℕ)
          → j < k
          → lost_race (upload_or_merge_once rel key path (before_attempt j s)).0 ≡ true)
      × ((k ≡ n) ⊎ (lost_race out.0 ≡ false))

  upload_attempts_step :
      (n : ℕ) (s : S3Session E)
      → upload_attempts (suc n) rel key path s ≡ (
          if lost_race (upload_or_merge_once rel key path s).0 && ltb 0 n
          then upload_attempts n rel key path (upload_or_merge_once rel key path s).1
          else upload_or_merge_once rel key path s)
  unfolding upload_attempts
  upload_attempts_step n s = elim (Fallible-cases (upload_or_merge_once rel key path s).0) [
    | inl (e, failed) ↦ ground (arith, failed)
    | inr (a, worked) ↦ ground (arith, worked)
  ]

  -- The attempts after one that lost a race.
  lost_before :
      (k : ℕ) (s : S3Session E)
      → lost_race (upload_or_merge_once rel key path s).0 ≡ true
      → ((j : ℕ)
          → j < k
          → lost_race
              (upload_or_merge_once rel key path
                (before_attempt j (upload_or_merge_once rel key path s).1)).0
            ≡ true)
      → (j : ℕ) → j < suc k
      → lost_race (upload_or_merge_once rel key path (before_attempt j s)).0 ≡ true
  unfolding before_attempt
  lost_before k s lost before zero h = lost
  lost_before k s lost before (suc j) h = before j (omega arith)

  upload_attempts-EndsWithAttempt :
      (n : ℕ) (s : S3Session E) → EndsWithAttempt n s (upload_attempts (suc n) rel key path s)
  unfolding before_attempt
  upload_attempts-EndsWithAttempt zero s = (
    0,
    omega arith,
    ground (arith, upload_attempts_step 0 s),
    (λ j h. absurd (omega arith)),
    inl refl,
  )
  upload_attempts-EndsWithAttempt (suc n) s =
      elim (Bool-cases (lost_race (upload_or_merge_once rel key path s).0)) [
        | inl lost ↦
            let s' = (upload_or_merge_once rel key path s).1 in
            let (k, bound, outcome, before, last) = upload_attempts-EndsWithAttempt n s' in
            let step : upload_attempts (suc (suc n)) rel key path s
                ≡ upload_attempts (suc n) rel key path s' =
              ground (arith, upload_attempts_step (suc n) s) in
            (suc k, omega arith, step ∙ outcome, lost_before k s lost before, ground (arith, step))
        | inr kept ↦
            let step : upload_attempts (suc (suc n)) rel key path s
                ≡ upload_or_merge_once rel key path s =
              ground (arith, upload_attempts_step (suc n) s) in
            (0, omega arith, step, (λ j h. absurd (omega arith)), inr (ground (arith, step)))
      ]

  -- An upload ends with the outcome of one attempt, the third at the latest: every attempt before
  -- it failed on a precondition, and if it is not the third, it did not.
  pub upload_or_merge-EndsWithAttempt :
      (s : S3Session E) → EndsWithAttempt 2 s (upload_or_merge rel key path s)
  unfolding upload_or_merge
  upload_or_merge-EndsWithAttempt s = upload_attempts-EndsWithAttempt 2 s
