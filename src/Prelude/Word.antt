-- ===== src/Prelude/Word.antt =====
-- Machine words: `usize` on a 64-bit target, with the wrap-around of a release build and of the
-- atomics' `fetch_add` and `fetch_sub`.
use Prim.Native.Nat.{ℕ, ◌+◌, ◌-◌, ◌%◌, ◌^◌, ◌<◌}
use mathlib.Core.Path.{◌≡◌}
use native.Mathlib.Omega.{arith}

abbrev pub usize_mod : ℕ
usize_mod = 2 ^ 64

abbrev pub u32_mod : ℕ
u32_mod = 2 ^ 32

abbrev pub wrapping_add : ℕ → ℕ → ℕ
wrapping_add a b = (a + b) % usize_mod

abbrev pub wrapping_sub : ℕ → ℕ → ℕ
wrapping_sub a b = (a + usize_mod - b) % usize_mod

pub wrapping_sub-add :
    (a b : ℕ) → a < usize_mod → b < usize_mod → wrapping_sub (wrapping_add a b) b ≡ a
wrapping_sub-add a b h k = omega arith
