-- ===== src/Prelude/Results.antt =====
-- Rust's `Result`, with the type of the error first.
use mathlib.Core.Path.{◌≡◌, refl}
use mathlib.Core.Logic.{◌⊎◌, inl, inr}
use mathlib.Core.Bool.{Bool, true, false}

pub data Fallible (Error A : Type 0) : Type 0 where
  ok : A → Fallible Error A
  err : Error → Fallible Error A

infixl 5 ◌>>=◌
abbrev pub ◌>>=◌ :
    {Error A B : Type 0} → Fallible Error A → (A → Fallible Error B) → Fallible Error B
ok a >>= f = f a
err e >>= f = err e

abbrev pub is_ok : {Error A : Type 0} → Fallible Error A → Bool
is_ok (ok a) = true
is_ok (err e) = false

pub Fallible-cases :
    {Error A : Type 0} (r : Fallible Error A) → ((e : Error) × (r ≡ err e)) ⊎ ((a : A) × (r ≡ ok a))
Fallible-cases (ok a) = inr (a, refl)
Fallible-cases (err e) = inl (e, refl)
