-- ===== src/Watch.antt =====
-- The list of service chains of the flow table, `extract_sc_list` of onvm/shared/onvm_flow_dir.c, and
-- what onvm/onvm_mgr/onvm_nf.c and onvm/onvm_mgr/onvm_pkt.c build on it: marking and clearing all
-- chains of an NF, and the watch list of NFs that may be bottlenecks. The configuration of the watch
-- list is the timer mode, USE_BKPR_V2_IN_TIMER_MODE, which common.h leaves off, and the waiting time is
-- that of common.h, 0.
pub mod Tally
pub mod Layout
pub mod Listed
pub mod Flows
pub mod Marks
pub mod Chains
pub mod All
pub mod Hole
pub mod Keep
mod Tests
pub mod Nfs
use nfvnice_source.Bits.{set_bit, clear_bit, test_bit}
use nfvnice_source.Chain.{Chain}
use nfvnice_source.Mgr.{World, low_water_mark, max_clients, on_client}
use nfvnice_source.Prelude.{
  ℕ, zero, suc, ◌+◌, ◌-◌, ◌%◌, ◌^◌, List, [], ◌∷◌, Option, none, some, Bool, true, false, not, ◌&&◌,
  ◌||◌, length, get_or, set, update, bit_and, ltb, leb, ◌==◌, if◌then◌else◌,
}

-- `sc_entries_list`, one element of such a list. The whole list has `SDN_FT_ENTRIES` elements, as many
-- as the flow table has entries.
pub record Slot : Type 0 where
  pub sc : Option ℕ
  pub sc_count : ℕ
  pub bneck_flag : ℕ

abbrev pub no_slot : Slot
no_slot = record { sc = none; sc_count = 0; bneck_flag = 0 }

-- The loop of `get_index_of_sc`, over the slots from `i` on.
pub index_from : ℕ → ℕ → ℕ → List Slot → ℕ
index_from c i free_index [] = free_index
index_from c i free_index (s ∷ slots) = elim s.sc [
  | none ↦ index_from c (i + 1) (if ltb i free_index then i else free_index) slots
  | some x ↦ if x == c then i else index_from c (i + 1) free_index slots
]

pub get_index_of_sc : ℕ → List Slot → ℕ
get_index_of_sc c slots = index_from c 0 (length slots) slots

-- What `extract_sc_list` has counted so far.
pub record Extract : Type 0 where
  pub active_fts : ℕ
  pub bneck_fts : ℕ
  pub slots : List Slot

-- A slot that takes one more flow of chain `c`, and one whose chain overflows.
pub count_flow : ℕ → Slot → Slot
count_flow c s = record {
  sc = some c;
  sc_count = (s.sc_count + 1) % 2 ^ 16;
  bneck_flag = if 1 == (s.sc_count + 1) % 2 ^ 16 then 0 else s.bneck_flag;
}

pub flag_flow : Slot → Slot
flag_flow s = record s { bneck_flag = (s.bneck_flag + 1) % 2 ^ 16 }

-- `c_list[s_inx] = f(c_list[s_inx])`, if there is such a slot.
pub at_slot : ℕ → (Slot → Slot) → List Slot → List Slot
at_slot s_inx f slots =
    if ltb s_inx (length slots) then set slots s_inx (f (get_or slots s_inx no_slot)) else slots

-- The round of `extract_sc_list` for an entry whose chain `c` is not empty.
pub visit_chain : World → ℕ → Extract → Extract
visit_chain w c x =
    let s_inx = get_index_of_sc c x.slots in
    let overflows = not ((w.chains c).overflowing == 0) in
    let slots = at_slot s_inx (count_flow c) x.slots in
    record {
      active_fts = (x.active_fts + 1) % 2 ^ 32;
      bneck_fts = if overflows then (x.bneck_fts + 1) % 2 ^ 32 else x.bneck_fts;
      slots = if overflows then at_slot s_inx flag_flow slots else slots;
    }

-- `flow_entry->sc`, if it has a chain that is not empty.
pub active_chain : World → ℕ → Option ℕ
active_chain w entry = elim (w.entries entry).sc [
  | none ↦ none
  | some c ↦ if (w.chains c).chain_length == 0 then none else some c
]

pub visit : World → ℕ → Extract → Extract
visit w entry x = elim (active_chain w entry) [ none ↦ x | some c ↦ visit_chain w c x ]

-- The loop over the entries, with the number of entries that are left.
pub visit_from : World → ℕ → ℕ → Extract → Extract
visit_from w zero entry x = x
visit_from w (suc left) entry x = visit_from w left (entry + 1) (visit w entry x)

-- `extract_sc_list`. The `memset` has the size of one element: it clears the first slot.
pub extract_sc_list : World → List Slot → Extract
extract_sc_list w c_list =
    visit_from w (length c_list) 0
      (record { active_fts = 0; bneck_fts = 0; slots = set c_list 0 no_slot })

-- The loop of `onvm_mark_all_entries_for_bottleneck` over the positions of a chain, from `i` on.
pub mark_from : ℕ → Chain → ℕ → ℕ → Chain
mark_from nf ch zero i = ch
mark_from nf ch (suc left) i =
    let rest = mark_from nf ch left (i + 1) in
    if (nf == get_or ch.nf_instance_id i 0) && not (test_bit ch.overflowing i)
    then record ch { overflowing = set_bit 8 ch.overflowing i }
    else rest

-- The loop of `onvm_clear_all_entries_for_bottleneck`, which goes on to the end.
pub clear_from : ℕ → Chain → ℕ → ℕ → Chain
clear_from nf ch zero i = ch
clear_from nf ch (suc left) i =
    clear_from nf
      (if (nf == get_or ch.nf_instance_id i 0) && test_bit ch.overflowing i
        then record ch { overflowing = clear_bit 8 ch.overflowing i }
        else ch)
      left (i + 1)

abbrev pub on_chain : ℕ → (Chain → Chain) → World → World
on_chain c f w = record w { chains = update w.chains c (f (w.chains c)) }

-- The loops over the list of chains, which end at the first slot without a chain.
pub mark_slots : ℕ → List Slot → World → World
mark_slots nf [] w = w
mark_slots nf (s ∷ slots) w = elim s.sc [
  | none ↦ w
  | some c ↦ mark_slots nf slots (on_chain c (λ ch. mark_from nf ch ch.chain_length 1) w)
]

pub clear_slots : ℕ → List Slot → World → World
clear_slots nf [] w = w
clear_slots nf (s ∷ slots) w = elim s.sc [
  | none ↦ w
  | some c ↦
      clear_slots nf slots
        (if s.bneck_flag == 0 then w else on_chain c (λ ch. clear_from nf ch ch.chain_length 1) w)
]

-- `onvm_mark_all_entries_for_bottleneck`, with the list of chains before and after; it returns 0.
pub onvm_mark_all_entries_for_bottleneck : ℕ → List Slot → World → List Slot × World
onvm_mark_all_entries_for_bottleneck nf sc_list w =
    let x = extract_sc_list w sc_list in
    (x.slots, if x.active_fts == 0 then w else mark_slots nf x.slots w)

-- `onvm_clear_all_entries_for_bottleneck`.
pub onvm_clear_all_entries_for_bottleneck : ℕ → List Slot → World → List Slot × World
onvm_clear_all_entries_for_bottleneck nf sc_list w =
    let x = extract_sc_list w sc_list in
    (
      x.slots,
      if not (x.active_fts == 0) && not (x.bneck_fts == 0) then clear_slots nf x.slots w else w,
    )
