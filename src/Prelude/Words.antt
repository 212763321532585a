-- ===== src/Prelude/Words.antt =====
-- Machine words: `u64`, `usize` on a 64-bit target, and the atomic counters.
use Prim.Native.Nat.{ℕ, ◌+◌, ◌-◌, ◌%◌, ◌^◌, min}

abbrev pub u64_mod : ℕ
u64_mod = 2 ^ 64

-- The largest length of a `Vec`.
abbrev pub isize_max : ℕ
isize_max = 2 ^ 63 - 1

-- `fetch_add(n)` on an atomic word.
unfoldable pub wrapping_add : ℕ → ℕ → ℕ
wrapping_add a b = (a + b) % u64_mod

unfoldable pub fetch_add_one : ℕ → ℕ
unfolding wrapping_add
fetch_add_one n = wrapping_add n 1

unfoldable pub saturating_add : ℕ → ℕ → ℕ
saturating_add a b = min (a + b) (u64_mod - 1)
