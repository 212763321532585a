-- ===== src/Prelude/Set.antt =====
-- Finite sets as lists: Rust's `HashSet`, with the list's order for the iteration order.
use mathlib.Core.Path.{◌≡◌, refl}
use mathlib.Core.Bool.{◌&&◌, ◌||◌, not}
use mathlib.Core.List.{List, [], ◌∷◌}
use native.Mathlib.Omega.{arith}
use omni_fuse.Prelude.Tests.{if◌then◌else◌}
use omni_fuse.Prelude.Equality.{Eq, ◌==◌, contains}
use omni_fuse.Prelude.Lists.{keep, contains-keep}

module _ {ℓ} {A : Type ℓ} ⦃e : Eq A⦄ where
  unfoldable pub insert : A → List A → List A
  insert a s = if contains s a then s else a ∷ s

  unfoldable pub remove : A → List A → List A
  remove a s = keep (λ b. not (b == a)) s

  -- `set.extend(items)`
  unfoldable pub extend : List A → List A → List A
  extend s [] = s
  extend s (a ∷ items) = insert a (extend s items)

  pub contains-insert : (s : List A) (a b : A) → contains (insert a s) b ≡ (b == a || contains s b)
  unfolding insert contains
  contains-insert s a b = ground (arith, e.beq_iff b a)

  pub contains-remove :
      (s : List A) (a b : A) → contains (remove a s) b ≡ (contains s b && not (b == a))
  unfolding remove
  contains-remove s a b = contains-keep (λ c. not (c == a)) s b

  pub contains-extend :
      (s items : List A) (b : A) → contains (extend s items) b ≡ (contains items b || contains s b)
  unfolding extend contains
  contains-extend s [] b = refl
  contains-extend s (a ∷ items) b =
      ground (arith, contains-insert (extend s items) a b, contains-extend s items b)
