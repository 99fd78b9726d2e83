-- ===== src/Common/Family.antt =====
-- Sums over the first members of a family of numbers, and a family changed at one index.
use Prim.Native.Nat.{ℕ, zero, suc, ◌+◌, ◌<◌}
use mathlib.Core.Path.{◌≡◌, refl, ap}
use mathlib.Core.Logic.{◌≢◌}
use native.Mathlib.Decide.{ℕ_discrete}
use native.Mathlib.Omega.{arith}

unfoldable pub sum_below : ℕ → (ℕ → ℕ) → ℕ
sum_below zero f = 0
sum_below (suc n) f = sum_below n f + f n

pub sum_below-equal :
    (n : ℕ) (f g : ℕ → ℕ) → ((i : ℕ) → i < n → f i ≡ g i) → sum_below n f ≡ sum_below n g
unfolding sum_below
sum_below-equal zero f g h = refl
sum_below-equal (suc n) f g h =
    omega (arith, h n (omega arith), sum_below-equal n f g (λ i lt. h i (omega arith)))

-- two families that differ at one index
pub sum_below-change :
    (n i : ℕ) (f g : ℕ → ℕ)
    → i < n
    → ((k : ℕ) → k < n → k ≢ i → f k ≡ g k)
    → sum_below n f + g i ≡ sum_below n g + f i
unfolding sum_below
sum_below-change zero i f g lt h = absurd (omega arith)
sum_below-change (suc n) i f g lt h = elim (ℕ_discrete n i) [
  | yes last ↦
      let same = sum_below-equal n f g (λ k below. h k (omega arith) (λ e. omega arith)) in
      omega (arith, same, ap f last, ap g last)
  | no other ↦ omega (
    arith,
    h n (omega arith) other,
    sum_below-change n i f g (omega arith) (λ k below. h k (omega arith)),
  )
]

pub sum_below-zero : (n : ℕ) (f : ℕ → ℕ) → ((i : ℕ) → i < n → f i ≡ 0) → sum_below n f ≡ 0
unfolding sum_below
sum_below-zero zero f h = refl
sum_below-zero (suc n) f h =
    omega (arith, h n (omega arith), sum_below-zero n f (λ i lt. h i (omega arith)))
