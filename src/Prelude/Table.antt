-- ===== src/Prelude/Table.antt =====
-- Facts about small machine words, checked at every value.
use Prim.Native.Nat.{ℕ, zero, suc, ◌<◌}
use mathlib.Core.Path.{◌≡◌}
use mathlib.Core.Bool.{Bool, true, false}
use native.Mathlib.Omega.{arith}
use nfvnice_source.Prelude.Tests.{if◌then◌else◌}

-- The rows `0` to `bound - 1` of a table pass the test.
unfoldable pub table : ℕ → (ℕ → Bool) → Bool
table zero row = true
table (suc last) row = if row last then table last row else false

-- Any single row of such a table.
pub table-row :
    (bound : ℕ) (row : ℕ → Bool) (index : ℕ)
    → table bound row ≡ true
    → index < bound
    → row index ≡ true
unfolding table
table-row zero row index passed inside = absurd (omega arith)
table-row (suc last) row index passed inside = ground (arith, table-row last row index)
