-- ===== src/Action.antt =====
-- The actions `ONVM_NF_ACTION_*` of onvm/shared/common.h. The program keeps them as 8-bit numbers, and
-- a network function may write any number, so they stay numbers here.
use nfvnice_source.Prelude.{ℕ}

abbrev pub drop : ℕ
drop = 0

abbrev pub next : ℕ
next = 1

abbrev pub tonf : ℕ
tonf = 2

abbrev pub out : ℕ
out = 3
