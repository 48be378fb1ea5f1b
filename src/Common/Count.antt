-- ===== src/Common/Count.antt =====
-- How many numbers below a bound pass a test.
use Prim.Native.Nat.{ℕ, zero, suc, ◌+◌, ◌≤◌, ◌<◌}
use mathlib.Core.Path.{◌≡◌, refl}
use mathlib.Core.Logic.{◌≢◌}
use mathlib.Core.Bool.{Bool}
use native.Mathlib.Omega.{arith}
use native.Mathlib.Decide.{ℕ_discrete}
use devxdao_m.Common.Tests.{if◌then◌else◌}

unfoldable pub count_below : ℕ → (ℕ → Bool) → ℕ
count_below zero p = 0
count_below (suc n) p = (if p n then 1 else 0) + count_below n p

pub count_below-le : (n : ℕ) (p : ℕ → Bool) → count_below n p ≤ n
unfolding count_below
count_below-le zero p = omega arith
count_below-le (suc n) p = ground (arith, count_below-le n p)

pub count_below_cong :
    (n : ℕ) (p q : ℕ → Bool) → ((i : ℕ) → i < n → p i ≡ q i) → count_below n p ≡ count_below n q
unfolding count_below
count_below_cong zero p q h = refl
count_below_cong (suc n) p q h =
    ground (arith, h n, count_below_cong n p q (λ i l. h i (omega arith)))

-- 1 for a test that passes.
abbrev pub bit : Bool → ℕ
bit b = if b then 1 else 0

-- Two tests that agree but at one number.
pub count_below_move :
    (n i : ℕ) (p q : ℕ → Bool)
    → i < n
    → ((j : ℕ) → j ≢ i → p j ≡ q j)
    → count_below n q + bit (p i) ≡ count_below n p + bit (q i)
unfolding count_below
count_below_move zero i p q lt same = elim lt [ ]
count_below_move (suc n) i p q lt same = elim (ℕ_discrete n i) [
  | yes e ↦ ground (arith, at_i p e, at_i q e, count_below_cong n p q (λ j l. same j (omega arith)))
  | no ne ↦ ground (arith, same n ne, count_below_move n i p q (omega arith) same)
]
  where
    at_i : (r : ℕ → Bool) → n ≡ i → r n ≡ r i
    at_i r e = cc
