-- ===== src/Bits/Tests.antt =====
-- The bit macros at concrete words.
use nfvnice_source.Prelude.{◌≡◌, refl, some, arith}
use nfvnice_source.Bits.Laws.{IsPosition}
use nfvnice_source.Bits.{is_upstream_nf, get_index_of_highest_set_bit}

upstream_of_third : is_upstream_nf 4 2 ≡ 1
unfolding is_upstream_nf
upstream_of_third = refl

highest_of_twelve : get_index_of_highest_set_bit 12 ≡ some 4
unfolding get_index_of_highest_set_bit
highest_of_twelve = refl

third : IsPosition 3
third = (omega arith, omega arith)
