-- ===== src/Prelude/Circle.antt =====
-- Circular buffers whose heads go back to 0 at `m`: the items between two heads, oldest first.
use Prim.Native.Nat.{ℕ, zero, suc, ◌+◌, ◌-◌, ◌%◌, ◌≤◌, ◌<◌}
use mathlib.Core.Path.{◌≡◌, refl, sym, ap, ap₂, ◌∙◌}
use mathlib.Core.Logic.{◌≢◌}
use mathlib.Core.List.{List, [], ◌∷◌, ◌++◌}
use native.Mathlib.Omega.{arith}
use native.Mathlib.Nat.{mod-eq_of_lt}
use native.Mathlib.Decide.{ℕ_discrete}
use nfvnice_source.Prelude.Tests.{ltb, ◌==◌, if◌then◌else◌}
use nfvnice_source.Prelude.Lists.{length, get_or, set, get_or-set_self, get_or-set_ne}

-- `if((++h) == m) h = 0`.
abbrev pub succ : ℕ → ℕ → ℕ
succ m h = if h + 1 == m then 0 else h + 1

-- `(h + 1) % m`, which the program writes too.
pub succ-mod : (m h : ℕ) → h < m → (h + 1) % m ≡ succ m h
succ-mod m h hh = elim (ℕ_discrete (h + 1) m) [
  | yes e ↦ grind arith
  | no ne ↦ grind (arith, mod-eq_of_lt)
]

-- The head after `k` such steps.
pub advance : ℕ → ℕ → ℕ → ℕ
advance m h zero = h
advance m h (suc k) = advance m (succ m h) k

pub advance-zero : (m h : ℕ) → advance m h 0 ≡ h
unfolding advance
advance-zero m h = refl

pub advance-suc : (m h k : ℕ) → advance m h (suc k) ≡ advance m (succ m h) k
unfolding advance
advance-suc m h k = refl

pub advance_lem :
    (m k h : ℕ) → h < m → k ≤ m → advance m h k ≡ (if ltb (h + k) m then h + k else h + k - m)
unfolding advance
advance_lem m zero h hh hk = ground arith
advance_lem m (suc k) h hh hk = ground (arith, advance_lem m k (succ m h))

-- One more step at the far end.
pub succ-advance : (m k h : ℕ) → h < m → suc k ≤ m → advance m h (suc k) ≡ succ m (advance m h k)
succ-advance m k h hh hk = ground (arith, advance_lem m k h, advance_lem m (suc k) h)

pub advance-lt : (m k h : ℕ) → h < m → k ≤ m → advance m h k < m
advance-lt m k h hh hk = ground (arith, advance_lem m k h)

pub advance-ne : (m k h : ℕ) → h < m → 0 < k → k < m → advance m h k ≢ h
advance-ne m k h hh hk lt e = ground (arith, advance_lem m k h)

pub advance_injective : (m i k h : ℕ) → h < m → i < k → k < m → advance m h i ≢ advance m h k
advance_injective m i k h hh lo hi e = ground (arith, advance_lem m i h, advance_lem m k h)

-- A whole turn.
pub advance-turn : (m h : ℕ) → h < m → advance m h m ≡ h
advance-turn m h hh = ground (arith, advance_lem m m h)

module _ {ℓ} {A : Type ℓ} (m : ℕ) (d : A) where
  -- The `n` items from index `h` on.
  pub window : List A → ℕ → ℕ → List A
  window xs h zero = []
  window xs h (suc n) = get_or xs h d ∷ window xs (succ m h) n

  pub window-suc :
      (xs : List A) (h n : ℕ) → window xs h (suc n) ≡ get_or xs h d ∷ window xs (succ m h) n
  unfolding window
  window-suc xs h n = refl

  pub window-zero : (xs : List A) (h : ℕ) → window xs h 0 ≡ []
  unfolding window
  window-zero xs h = refl

  pub length-window : (xs : List A) (h n : ℕ) → length (window xs h n) ≡ n
  unfolding window
  length-window xs h zero = refl
  length-window xs h (suc n) = ap suc (length-window xs (succ m h) n)

  -- A write at the far end appends an item.
  pub window-set :
      (xs : List A) (v : A) (n h : ℕ)
      → m ≤ length xs
      → h < m
      → n < m
      → window (set xs (advance m h n) v) h (suc n) ≡ window xs h n ++ v ∷ []
  unfolding window
  window-set xs v zero h hm hh hn = rw (advance-zero, get_or-set_self xs h v d (omega arith))
  window-set xs v (suc n) h hm hh hn =
      ap₂ ◌∷◌ (get_or-set_ne xs v d (advance-ne m (suc n) h hh (omega arith) hn)) (
        ap (λ i. window (set xs i v) (succ m h) (suc n)) (advance-suc m h n)
        ∙ window-set xs v n (succ m h) hm (ground arith) (omega arith))

  -- A write outside the window does not show.
  pub window-set_ne :
      (xs : List A) (v : A) (i n h : ℕ)
      → ((k : ℕ) → k < n → advance m h k ≢ i)
      → window (set xs i v) h n ≡ window xs h n
  unfolding window
  window-set_ne xs v i zero h away = refl
  window-set_ne xs v i (suc n) h away =
      ap₂ ◌∷◌ (get_or-set_ne xs v d (λ e. away 0 (omega arith) (advance-zero m h ∙ sym e))) (
        window-set_ne xs v i n (succ m h)
          (λ k hk e. away (suc k) (omega arith) (advance-suc m h k ∙ e)))
