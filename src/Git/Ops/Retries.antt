-- ===== src/Git/Ops/Retries.antt =====
-- The loop of `push_with_retry` (crates/omnifuse-git/src/ops.rs).
use omni_fuse.Prelude.{
  ℕ, zero, suc, ◌≤◌, Bool, true, false, ◌≡◌, refl, inl, inr, ◌⊎◌, arith, Fallible, ok, err,
  Bool-cases, ◌↔◌,
}
use omni_fuse.Git.Error.{AnyError}
use omni_fuse.Git.Command.{Git}
use omni_fuse.Git.Engine.{
  Machine, GitEngine, PushResult, rejected, no_remote, MergeResult, fast_forward, merged, push,
  pull,
}
use omni_fuse.Git.Ops.{push_attempts, push_with_retry}

-- Whether a pull merged the remote's commits.
abbrev pub is_merge : Fallible AnyError MergeResult → Bool
is_merge (err e) = false
is_merge (ok MergeResult.up_to_date) = true
is_merge (ok fast_forward) = true
is_merge (ok (merged hash)) = true
is_merge (ok (MergeResult.conflict files)) = false

abbrev pub is_accepted : Fallible AnyError PushResult → Bool
is_accepted (err e) = false
is_accepted (ok PushResult.success) = true
is_accepted (ok no_remote) = true
is_accepted (ok rejected) = false

push-cases :
    (r : Fallible AnyError PushResult)
    → (is_accepted r ≡ true) ⊎ ((r ≡ ok rejected) ⊎ ((e : AnyError) × (r ≡ err e)))
push-cases (err e) = inr (inr (e, refl))
push-cases (ok PushResult.success) = inl refl
push-cases (ok no_remote) = inl refl
push-cases (ok rejected) = inr (inl refl)

module _ {g : Git} (engine : GitEngine) where
  -- `n` pushes, each rejected and followed by a pull that merged.
  pub data Rejections : ℕ → Machine g → Machine g → Type 0 where
    none_yet : (s : Machine g) → Rejections 0 s s
    rejection :
        (n : ℕ) (s t : Machine g)
        → (push engine s).0 ≡ ok rejected
        → is_merge (pull engine (push engine s).1).0 ≡ true
        → Rejections n (pull engine (push engine s).1).1 t
        → Rejections (suc n) s t

  -- At most so many rejected pushes, and then one that git accepts or for which there is no remote.
  pub record Pushed (max_retries : ℕ) (s final : Machine g) : Type 0 where
    pub retries : ℕ
    pub last : Machine g
    pub bounded : retries ≤ max_retries
    pub rejections : Rejections retries s last
    pub accepted : is_accepted (push engine last).0 ≡ true
    pub ends : (push engine last).1 ≡ final

  push_attempts-Pushed :
      (max_retries left : ℕ) (s final : Machine g)
      → push_attempts engine max_retries left s ≡ (ok tt, final)
      → Pushed left s final
  unfolding push_attempts
  push_attempts-Pushed max_retries zero s final h = record {
    retries = 0;
    last = s;
    bounded = ground arith;
    rejections = none_yet s;
    accepted = ground arith;
    ends = ground arith;
  }
  push_attempts-Pushed max_retries (suc left) s final h =
      let t = (push engine s).1 in
      let u = (pull engine t).1 in
      elim (push-cases (push engine s).0) [
        | inl accepted ↦ record {
          retries = 0;
          last = s;
          bounded = ground arith;
          rejections = none_yet s;
          accepted = accepted;
          ends = ground (arith, accepted);
        }
        | inr (inl refused) ↦ elim (Bool-cases (is_merge (pull engine t).0)) [
          | inl merges ↦
              let rest =
                push_attempts-Pushed max_retries left u final (ground (arith, refused, merges)) in
              record {
                retries = suc rest.retries;
                last = rest.last;
                bounded = ground (arith, rest.bounded);
                rejections = rejection rest.retries s rest.last refused merges rest.rejections;
                accepted = rest.accepted;
                ends = rest.ends;
              }
          | inr stops ↦ absurd (ground (arith, refused, stops))
        ]
        | inr (inr (e, failed)) ↦ absurd (ground (arith, failed))
      ]

  push_attempts-Rejections :
      (max_retries left n : ℕ) (s t final : Machine g)
      → n ≤ left
      → Rejections n s t
      → is_accepted (push engine t).0 ≡ true
      → (push engine t).1 ≡ final
      → push_attempts engine max_retries left s ≡ (ok tt, final)
  unfolding push_attempts
  push_attempts-Rejections max_retries zero _ _ _ final bound (none_yet s) accepted ends =
      ground (arith, accepted)
  push_attempts-Rejections max_retries (suc left) _ _ _ final bound (none_yet s) accepted ends =
      ground (arith, accepted)
  push_attempts-Rejections max_retries zero _ _ _ final bound (rejection m s t refused merges rest)
        accepted ends =
      absurd (ground arith)
  push_attempts-Rejections max_retries (suc left) _ _ _ final bound
        (rejection m s t refused merges rest) accepted ends =
      let u = (pull engine (push engine s).1).1 in
      let after =
        push_attempts-Rejections max_retries left m u t final (ground arith) rest accepted ends in
      ground (arith, refused, merges, after)

  -- Pushing with retries succeeds exactly if, after at most `max_retries` pushes that were rejected
  -- and each followed by a pull that merged, a push is accepted or finds no remote to push to, and it
  -- ends in the state that this push leaves.
  pub push_with_retry_iff :
      (max_retries : ℕ) (s final : Machine g)
      → (push_with_retry engine max_retries s ≡ (ok tt, final)) ↔ Pushed max_retries s final
  unfolding push_with_retry
  push_with_retry_iff max_retries s final = (
    push_attempts-Pushed max_retries max_retries s final,
    λ p.
        push_attempts-Rejections max_retries max_retries p.retries s p.last final p.bounded
          p.rejections p.accepted p.ends,
  )
