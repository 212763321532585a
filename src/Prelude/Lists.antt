-- ===== src/Prelude/Lists.antt =====
-- Lists measured and indexed by native numbers, under the library's names.
use Prim.Native.Nat.{ℕ, zero, suc, ◌+◌, ◌-◌, ◌≤◌, ◌<◌, min}
use mathlib.Core.Path.{◌≡◌, refl, ap, sym, ◌∙◌}
use mathlib.Core.Bool.{Bool, true, false, ◌&&◌, ◌||◌}
use mathlib.Core.List.{List, [], ◌∷◌, ◌++◌}
use mathlib.Core.Option.{Option, none, some}
use native.Mathlib.Omega.{arith}
use omni_fuse.Prelude.Tests.{ltb, if◌then◌else◌}
use omni_fuse.Prelude.Equality.{Eq, contains}

module _ {ℓ} {A : Type ℓ} where
  abbrev pub length : List A → ℕ
  length [] = 0
  length (x ∷ xs) = suc (length xs)

  abbrev pub get_elem? : List A → ℕ → Option A
  get_elem? [] i = none
  get_elem? (x ∷ xs) zero = some x
  get_elem? (x ∷ xs) (suc i) = get_elem? xs i

  abbrev pub take : ℕ → List A → List A
  take zero xs = []
  take (suc n) [] = []
  take (suc n) (x ∷ xs) = x ∷ take n xs

  abbrev pub drop : ℕ → List A → List A
  drop zero xs = xs
  drop (suc n) [] = []
  drop (suc n) (x ∷ xs) = drop n xs

  abbrev pub replicate : ℕ → A → List A
  replicate zero a = []
  replicate (suc n) a = a ∷ replicate n a

  -- `Iterator::filter`
  abbrev pub keep : (A → Bool) → List A → List A
  keep p [] = []
  keep p (x ∷ xs) = let rest = keep p xs in if p x then x ∷ rest else rest

  abbrev pub is_empty : List A → Bool
  is_empty [] = true
  is_empty (x ∷ xs) = false

  pub length-append : (xs ys : List A) → length (xs ++ ys) ≡ length xs + length ys
  length-append [] ys = omega arith
  length-append (x ∷ xs) ys = omega (arith, length-append xs ys)

  pub length-take : (n : ℕ) (xs : List A) → length (take n xs) ≡ min n (length xs)
  length-take zero xs = omega arith
  length-take (suc n) [] = omega arith
  length-take (suc n) (x ∷ xs) = omega (arith, length-take n xs)

  pub drop_all : (xs : List A) (n : ℕ) → length xs ≤ n → drop n xs ≡ []
  drop_all [] zero h = refl
  drop_all [] (suc n) h = refl
  drop_all (x ∷ xs) zero h = absurd (omega arith)
  drop_all (x ∷ xs) (suc n) h = drop_all xs n (omega arith)

  pub length-drop : (n : ℕ) (xs : List A) → length (drop n xs) ≡ length xs - n
  length-drop zero xs = omega arith
  length-drop (suc n) [] = omega arith
  length-drop (suc n) (x ∷ xs) = omega (arith, length-drop n xs)

  pub length-replicate : (n : ℕ) (a : A) → length (replicate n a) ≡ n
  length-replicate zero a = refl
  length-replicate (suc n) a = ap suc (length-replicate n a)

  pub take_all : (xs : List A) (n : ℕ) → length xs ≤ n → take n xs ≡ xs
  take_all [] zero h = refl
  take_all [] (suc n) h = refl
  take_all (x ∷ xs) zero h = absurd (omega arith)
  take_all (x ∷ xs) (suc n) h = ap (◌∷◌ x) (take_all xs n (omega arith))

  pub get_elem?-append_left :
      (xs ys : List A) (i : ℕ) → i < length xs → get_elem? (xs ++ ys) i ≡ get_elem? xs i
  get_elem?-append_left [] ys i h = absurd (omega arith)
  get_elem?-append_left (x ∷ xs) ys zero h = refl
  get_elem?-append_left (x ∷ xs) ys (suc i) h = get_elem?-append_left xs ys i (omega arith)

  pub get_elem?-append_right :
      (xs ys : List A) (i : ℕ) → get_elem? (xs ++ ys) (length xs + i) ≡ get_elem? ys i
  get_elem?-append_right [] ys i = let e : 0 + i ≡ i = omega arith in rw e
  get_elem?-append_right (x ∷ xs) ys i =
      let e : suc (length xs) + i ≡ suc (length xs + i) = omega arith in
      rw e (get_elem?-append_right xs ys i)

  pub get_elem?-take :
      (n : ℕ) (xs : List A) (i : ℕ) → i < n → get_elem? (take n xs) i ≡ get_elem? xs i
  get_elem?-take zero xs i h = absurd (omega arith)
  get_elem?-take (suc n) [] i h = refl
  get_elem?-take (suc n) (x ∷ xs) zero h = refl
  get_elem?-take (suc n) (x ∷ xs) (suc i) h = get_elem?-take n xs i (omega arith)

  pub get_elem?-drop :
      (n : ℕ) (xs : List A) (i : ℕ) → get_elem? (drop n xs) i ≡ get_elem? xs (n + i)
  get_elem?-drop zero xs i = let e : 0 + i ≡ i = omega arith in rw e
  get_elem?-drop (suc n) [] i = refl
  get_elem?-drop (suc n) (x ∷ xs) i =
      let e : suc n + i ≡ suc (n + i) = omega arith in rw e (get_elem?-drop n xs i)

  pub take-append_exact : (xs ys : List A) → take (length xs) (xs ++ ys) ≡ xs
  take-append_exact [] ys = refl
  take-append_exact (x ∷ xs) ys = ap (◌∷◌ x) (take-append_exact xs ys)

  pub drop-append_exact : (xs ys : List A) → drop (length xs) (xs ++ ys) ≡ ys
  drop-append_exact [] ys = refl
  drop-append_exact (x ∷ xs) ys = drop-append_exact xs ys

-- A stretch of a list replaced by another list.
module _ {A : Type 0} (xs mid : List A) (i : ℕ) (within : i + length mid ≤ length xs) where
  abbrev pub splice : List A
  splice = take i xs ++ (mid ++ drop (i + length mid) xs)

  pub length-splice : length splice ≡ length xs
  length-splice = omega (
    arith,
    length-append (take i xs) (mid ++ drop (i + length mid) xs),
    length-append mid (drop (i + length mid) xs),
    length-take i xs,
    length-drop (i + length mid) xs,
  )

  pub take-drop-splice : take (length mid) (drop i splice) ≡ mid
  take-drop-splice =
      let e : length (take i xs) ≡ i = omega (arith, length-take i xs) in
      let after = mid ++ drop (i + length mid) xs in
      ap (λ n. take (length mid) (drop n splice)) (sym e)
      ∙ (ap (take (length mid)) (drop-append_exact (take i xs) after) ∙ take-append_exact mid _)

  splice_left : (j : ℕ) → j < i → get_elem? splice j ≡ get_elem? xs j
  splice_left j h =
      get_elem?-append_left (take i xs) _ j (omega (arith, length-take i xs))
      ∙ get_elem?-take i xs j h

  splice_at :
      (j k : ℕ) → j ≡ i + k → get_elem? splice j ≡ get_elem? (mid ++ drop (i + length mid) xs) k
  splice_at j k e =
      let e' : j ≡ length (take i xs) + k = omega (arith, length-take i xs) in
      rw e' (get_elem?-append_right (take i xs) _ k)

  splice_mid : (j : ℕ) → i ≤ j → j < i + length mid → get_elem? splice j ≡ get_elem? mid (j - i)
  splice_mid j h k =
      splice_at j (j - i) (omega arith) ∙ get_elem?-append_left mid _ (j - i) (omega arith)

  splice_right : (j : ℕ) → i + length mid ≤ j → get_elem? splice j ≡ get_elem? xs j
  splice_right j h =
      let k : ℕ = j - i - length mid in
      let e : j - i ≡ length mid + k = omega arith in
      let e' : (i + length mid) + k ≡ j = omega arith in
      splice_at j (j - i) (omega arith)
      ∙ (ap (get_elem? (mid ++ drop (i + length mid) xs)) e ∙ get_elem?-append_right mid _ k)
      ∙ (get_elem?-drop (i + length mid) xs k ∙ ap (get_elem? xs) e')

  pub get_elem?-splice :
      (j : ℕ)
      → get_elem? splice j ≡ (
          if ltb j i
          then get_elem? xs j
          else if ltb j (i + length mid)
          then get_elem? mid (j - i)
          else get_elem? xs j)
  get_elem?-splice j = ground (arith, splice_left j, splice_mid j, splice_right j)

module _ {ℓ} {A : Type ℓ} ⦃e : Eq A⦄ where
  pub contains-append :
      (xs ys : List A) (a : A) → contains (xs ++ ys) a ≡ (contains xs a || contains ys a)
  unfolding contains
  contains-append [] ys a = refl
  contains-append (x ∷ xs) ys a = ground (arith, contains-append xs ys a)

  pub contains-keep :
      (p : A → Bool) (xs : List A) (a : A) → contains (keep p xs) a ≡ (contains xs a && p a)
  unfolding contains
  contains-keep p [] a = refl
  contains-keep p (x ∷ xs) a = ground (arith, contains-keep p xs a, e.beq_iff a x)
