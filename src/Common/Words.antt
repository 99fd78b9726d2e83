-- ===== src/Common/Words.antt =====
-- Unsigned 64-bit words as native numbers: sums and differences wrap at 2 ^ 64.
use Prim.Native.Nat.{ℕ, ◌+◌, ◌-◌, ◌%◌, ◌^◌, ◌≤◌, ◌<◌}
use mathlib.Core.Path.{◌≡◌}
use native.Mathlib.Omega.{arith}

abbrev pub u64_mod : ℕ
u64_mod = 2 ^ 64

unfoldable pub add64 : ℕ → ℕ → ℕ
add64 a b = (a + b) % u64_mod

unfoldable pub sub64 : ℕ → ℕ → ℕ
sub64 a b = (a + u64_mod - b) % u64_mod

-- A difference that does not go below zero is the true one.
pub sub64-eq-sub : (a b : ℕ) → b ≤ a → a < u64_mod → sub64 a b ≡ a - b
unfolding sub64
sub64-eq-sub a b h k = omega arith

-- Adding to a wrapped total gives the wrapped true total.
pub add64-mod : (a b : ℕ) → add64 (a % u64_mod) b ≡ (a + b) % u64_mod
unfolding add64
add64-mod a b = omega arith
