-- ===== src/Prelude/Sum.antt =====
-- Sums over an array that is indexed by a small identifier.
use Prim.Native.Nat.{ℕ, zero, suc, ◌+◌, ◌≤◌, ◌<◌}
use mathlib.Core.Path.{◌≡◌, refl}
use native.Mathlib.Omega.{arith}
use nfvnice_source.Prelude.Maps.{update}

unfoldable pub sum_below : ℕ → (ℕ → ℕ) → ℕ
sum_below zero f = 0
sum_below (suc n) f = sum_below n f + f n

-- Changing one element changes the sum by the difference.
module _ {ℓ} {A : Type ℓ} (m : A → ℕ) (h : ℕ → A) (j : ℕ) (v : A) where
  pub sum_update_out :
      (n : ℕ) → n ≤ j → sum_below n (λ i. m (update h j v i)) ≡ sum_below n (λ i. m (h i))
  unfolding sum_below
  sum_update_out zero le = refl
  sum_update_out (suc n) le = ground (arith, sum_update_out n)

  pub sum_update :
      (n : ℕ)
      → j < n
      → sum_below n (λ i. m (update h j v i)) + m (h j) ≡ sum_below n (λ i. m (h i)) + m v
  unfolding sum_below
  sum_update zero lt = absurd (omega arith)
  sum_update (suc n) lt = ground (arith, sum_update n, sum_update_out n)
