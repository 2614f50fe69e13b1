-- ===== src/Chain.antt =====
-- Service chains: onvm/shared/onvm_sc_common.c, onvm/shared/onvm_sc_mgr.h, onvm/shared/onvm_sc_mgr.c
-- and the two structures of onvm/shared/common.h. A chain is built by appending entries and is then
-- followed by the packets of a flow, whose meta data says how far along it they are.
pub mod Steps
mod Tests
use nfvnice_source.Action
use nfvnice_source.Prelude.{
  ℕ, ◌+◌, ◌%◌, List, [], replicate, get_or, set, ltb, leb, if◌then◌else◌, ℤ, pos, negsuc,
}

-- `ONVM_MAX_CHAIN_LENGTH`.
abbrev pub max_chain_length : ℕ
max_chain_length = 12

-- `ENOSPC` of <errno.h>.
abbrev pub enospc : ℕ
enospc = 28

-- `struct onvm_service_chain_entry`.
pub record Entry : Type 0 where
  pub destination : ℕ
  pub action : ℕ

abbrev pub no_entry : Entry
no_entry = record { destination = 0; action = 0 }

-- `struct onvm_service_chain`. The arrays `sc` and `nf_instance_id` have 13 elements, the first of
-- them reserved. `overflowing` is `highest_downstream_nf_index_id`: one bit for each position whose NF
-- has reported an overflow.
pub record Chain : Type 0 where
  pub sc : List Entry
  pub chain_length : ℕ
  pub ref_cnt : ℕ
  pub overflowing : ℕ
  pub nf_instances_mapped : ℕ
  pub nf_instance_id : List ℕ

-- `onvm_sc_create`: the structure comes zeroed from `rte_calloc`.
unfoldable pub onvm_sc_create : Chain
onvm_sc_create = record {
  sc = replicate 13 no_entry;
  chain_length = 0;
  ref_cnt = 0;
  overflowing = 0;
  nf_instances_mapped = 0;
  nf_instance_id = replicate 13 0;
}

-- `onvm_sc_append_entry`. The local `chain_length` is a `uint8_t` too. A write past the end of `sc`
-- would hit the fields behind it; here it changes nothing, and `Steps` says when it occurs.
pub onvm_sc_append_entry : Chain → ℕ → ℕ → ℤ × Chain
onvm_sc_append_entry c action destination =
    if ltb max_chain_length c.chain_length then (pos enospc, c) else (
      pos 0,
      record c {
        sc =
            set c.sc ((c.chain_length + 1) % 256)
              (record { destination = destination; action = action });
        chain_length = (c.chain_length + 1) % 256;
      },
    )

-- `onvm_sc_set_entry`. The index is an `int`; it is taken to be nonnegative.
pub onvm_sc_set_entry : Chain → ℕ → ℕ → ℕ → ℤ × Chain
onvm_sc_set_entry c entry action destination = if ltb c.chain_length entry then (negsuc 0, c) else (
  pos 0,
  record c { sc = set c.sc entry (record { destination = destination; action = action }) },
)

-- `onvm_next_action`: the action of the entry behind position `cur_nf`.
pub onvm_next_action : Chain → ℕ → ℕ
onvm_next_action c cur_nf =
    if leb c.chain_length cur_nf then Action.drop else (get_or c.sc (cur_nf + 1) no_entry).action

-- `onvm_next_destination`.
pub onvm_next_destination : Chain → ℕ → ℕ
onvm_next_destination c cur_nf =
    if leb c.chain_length cur_nf then 0 else (get_or c.sc (cur_nf + 1) no_entry).destination

-- `onvm_sc_get_next_action_and_destionation`, from the chain index of the packet and the two numbers
-- that the pointers lead to. The result is the return value and the two numbers afterwards.
pub onvm_sc_get_next_action_and_destination : Chain → ℕ → ℕ → ℕ → ℤ × ℕ × ℕ
onvm_sc_get_next_action_and_destination c index next_act next_dst =
    if leb c.chain_length index
    then (negsuc 0, Action.drop, next_dst)
    else (pos index, (get_or c.sc index no_entry).action, (get_or c.sc index no_entry).destination)
