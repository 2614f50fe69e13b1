-- ===== src/Prelude/Maps.antt =====
-- Arrays that are indexed by a small identifier, as functions; the integers that C functions return.
use Prim.Native.Nat.{ℕ}
use mathlib.Core.Path.{◌≡◌}
use mathlib.Core.Logic.{◌≢◌}
use native.Mathlib.Omega.{arith}
use nfvnice_source.Prelude.Tests.{◌==◌, if◌then◌else◌}

-- `a[i] = v`.
abbrev pub update {ℓ} : {A : Type ℓ} → (ℕ → A) → ℕ → A → ℕ → A
update a i v j = if j == i then v else a j

module _ {ℓ} {A : Type ℓ} (a : ℕ → A) (v : A) where
  pub update_self : (i : ℕ) → update a i v i ≡ v
  update_self i = ground arith

  pub update_ne : (i j : ℕ) → j ≢ i → update a i v j ≡ a j
  update_ne i j h = ground arith

-- An `int` return value; `negsuc n` is -(n + 1).
pub data ℤ : Type 0 where
  pos : ℕ → ℤ
  negsuc : ℕ → ℤ
