-- ===== src/Bits.antt =====
-- The bit macros of onvm/shared/common.h, which keep the set of overflowing positions of a service
-- chain in one small word.
pub mod Laws
mod Tests
use nfvnice_source.Prelude.{
  ℕ, zero, suc, ◌+◌, ◌-◌, ◌^◌, ◌%◌, Bool, not, Option, none, some, bit_and, bit_or, ltb, leb, ◌==◌,
  if◌then◌else◌,
}

-- `1 << (bitNum-1)`; the bits are numbered from 1.
abbrev pub bit : ℕ → ℕ
bit n = 2 ^ (n - 1)

-- `SET_BIT(x, n)` on an unsigned variable of `w` bits.
pub set_bit : ℕ → ℕ → ℕ → ℕ
set_bit w x n = bit_or x (bit n) % 2 ^ w

-- `CLEAR_BIT(x, n)`: the complement is taken at 64 bits, wide enough for every `w`.
pub clear_bit : ℕ → ℕ → ℕ → ℕ
clear_bit w x n = bit_and x (2 ^ 64 - 1 - bit n) % 2 ^ w

-- `TEST_BIT(x, n)`, as the condition that the callers make of it.
unfoldable pub test_bit : ℕ → ℕ → Bool
test_bit x n = not (bit_and x (bit n) == 0)

-- `is_upstream_NF` without HOP_BY_HOP_BACKPRESSURE. Both arguments are `long`.
pub is_upstream_nf : ℕ → ℕ → ℕ
unfolding set_bit clear_bit
is_upstream_nf throttle index =
    if ltb (set_bit 64 0 index) (clear_bit 64 throttle index) then 1 else 0

-- The loop of `get_index_of_highest_set_bit`, on fuel; `none` means that the fuel ran out.
pub highest_from : ℕ → ℕ → ℕ → Option ℕ
highest_from zero x n = none
highest_from (suc f) x n =
    let rest = highest_from f x (n + 1) in if leb (2 ^ n) x then rest else some n

-- `1<<n` is an `int`, so 31 rounds cover every `x` for which the loop has a defined meaning.
pub get_index_of_highest_set_bit : ℕ → Option ℕ
unfolding highest_from
get_index_of_highest_set_bit x = highest_from 32 x 0
