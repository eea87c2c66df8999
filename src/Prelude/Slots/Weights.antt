-- ===== src/Prelude/Slots/Weights.antt =====
-- The weights of the first `n` slots, added up.
use Prim.Native.Nat.{ℕ, zero, suc, ◌+◌, ◌≤◌, ◌<◌}
use mathlib.Core.Path.{◌≡◌, refl}
use native.Mathlib.Decide.{dec_lt, ℕ_discrete}
use native.Mathlib.Omega.{arith}
use code_runner.Prelude.Slots.{place}

module _ {P : Type 0} (weight : P → ℕ) where
  pub total : ℕ → (ℕ → P) → ℕ
  total zero slots = 0
  total (suc n) slots = weight (slots n) + total n slots

  total-place_of_le :
      (n : ℕ) (slots : ℕ → P) (i : ℕ) (p : P) → n ≤ i → total n (place slots i p) ≡ total n slots
  unfolding total
  total-place_of_le zero slots i p h = refl
  total-place_of_le (suc n) slots i p h = ground (arith, total-place_of_le n slots i p)

  -- a move of one slot trades its weight
  pub total-place :
      (n : ℕ) (slots : ℕ → P) (i : ℕ) (p : P)
      → i < n
      → total n (place slots i p) + weight (slots i) ≡ total n slots + weight p
  unfolding total
  total-place zero slots i p h = absurd (omega arith)
  total-place (suc n) slots i p h = elim (dec_lt i n) [
    | yes below ↦ ground (arith, total-place n slots i p below)
    | no above ↦ ground (arith, total-place_of_le n slots i p)
  ]

  pub total_le : ((p : P) → weight p ≤ 1) → (n : ℕ) (slots : ℕ → P) → total n slots ≤ n
  unfolding total
  total_le small zero slots = omega arith
  total_le small (suc n) slots = omega (arith, small (slots n), total_le small n slots)

  pub total_zero :
      (n : ℕ) (slots : ℕ → P) → ((i : ℕ) → i < n → weight (slots i) ≡ 0) → total n slots ≡ 0
  unfolding total
  total_zero zero slots h = refl
  total_zero (suc n) slots h =
      omega (arith, h n (omega arith), total_zero n slots (λ i below. h i (omega arith)))

  pub total_at : (n : ℕ) (slots : ℕ → P) (i : ℕ) → i < n → weight (slots i) ≤ total n slots
  unfolding total
  total_at zero slots i h = absurd (omega arith)
  total_at (suc n) slots i h = elim (ℕ_discrete i n) [
    | yes here ↦ ground arith
    | no below ↦ omega (arith, total_at n slots i (omega arith))
  ]

pub total_monotone :
    {P : Type 0} (light heavy : P → ℕ) (n : ℕ) (slots : ℕ → P)
    → ((p : P) → light p ≤ heavy p)
    → total light n slots ≤ total heavy n slots
unfolding total
total_monotone light heavy zero slots h = omega arith
total_monotone light heavy (suc n) slots h =
    omega (arith, h (slots n), total_monotone light heavy n slots h)
