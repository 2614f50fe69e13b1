-- ===== src/Watch/Tests.antt =====
-- The list of chains and the watch list on the sample manager, where chain 1 runs through NFs 1 and 2.
use nfvnice_source.Bkpr.Clear.{AreBytes, marked}
use nfvnice_source.Bits.Laws.{IsPosition}
use nfvnice_source.Chain.{Chain}
use nfvnice_source.Mgr.{World}
use nfvnice_source.Mgr.Sample
use nfvnice_source.Watch.{
  Slot, no_slot, index_from, get_index_of_sc, count_flow, flag_flow, at_slot, visit_chain,
  active_chain, visit, visit_from, extract_sc_list, onvm_mark_all_entries_for_bottleneck,
  onvm_clear_all_entries_for_bottleneck,
}
use nfvnice_source.Watch.All.{AreShort, in_use, mark_all-marked, clear_all-marked}
use nfvnice_source.Watch.Flows.{flows, overflowing_flows, extract_sc_list_lem}
use nfvnice_source.Watch.Hole.{mark_all_hole}
use nfvnice_source.Watch.Layout.{laid_out}
use nfvnice_source.Watch.Listed.{slot_of}
use nfvnice_source.Watch.Marks.{IsFirst, stands_at}
use nfvnice_source.Watch.Tally.{member, occurrences, add_all, Distinct}
use nfvnice_source.Prelude.{
  ℕ, ◌≤◌, ◌≡◌, ◌↔◌, ◌⊎◌, refl, List, [], ◌∷◌, some, true, not, ◌&&◌, arith, length, replicate,
}

abbrev pub chain : Chain
chain = record Sample.chain { nf_instance_id = 0 ∷ 1 ∷ 2 ∷ replicate 10 0 }

abbrev pub world : World
world = record Sample.world { chains = λ c. chain }

-- Three flows of chain 1 in an empty list.
abbrev one_chain : List Slot
one_chain = record { sc = some 1; sc_count = 3; bneck_flag = 0 } ∷ no_slot ∷ no_slot ∷ []

extract_sc_list_run : (extract_sc_list world (replicate 3 no_slot)).slots ≡ one_chain
unfolding extract_sc_list visit_from visit active_chain visit_chain get_index_of_sc index_from
    at_slot count_flow flag_flow
extract_sc_list_run = refl

extract_sc_list_lem_example :
    let fs = flows world 3 0 in
    let x = extract_sc_list world (replicate 3 no_slot) in
    (x.active_fts ≡ length fs)
    × (x.bneck_fts ≡ overflowing_flows world fs)
    × ((k : ℕ) × (x.slots ≡ laid_out (slot_of world (λ c. occurrences c fs)) (add_all [] fs) k))
    × Distinct (add_all [] fs)
    × ((c : ℕ) → member c (add_all [] fs) ≡ member c fs)
extract_sc_list_lem_example = extract_sc_list_lem world 3 (omega arith)

bytes : AreBytes world.chains
bytes c = omega arith

short : AreShort world.chains
short c = omega arith

second : IsPosition 2
second = (omega arith, omega arith)

mark_all-marked_example :
    (marked (onvm_mark_all_entries_for_bottleneck 2 (replicate 3 no_slot) world).1 1 2 ≡ true)
    ↔ ((marked world 1 2 ≡ true) ⊎ ((in_use world 3 1 ≡ true) × (2 ≤ 2) × IsFirst 2 chain 1 2))
mark_all-marked_example = mark_all-marked 2 world 3 (omega arith) bytes short 1 2 second

-- Position 2 of all chains is marked.
abbrev marked_world : World
marked_world = record Sample.world { chains = λ c. record chain { overflowing = 2 } }

marked_bytes : AreBytes marked_world.chains
marked_bytes c = omega arith

marked_short : AreShort marked_world.chains
marked_short c = omega arith

clear_all-marked_example :
    marked (onvm_clear_all_entries_for_bottleneck 2 (replicate 3 no_slot) marked_world).1 1 2 ≡ (
      marked marked_world 1 2
      && not (in_use marked_world 3 1 && stands_at 2 (marked_world.chains 1) 2 1 2))
clear_all-marked_example =
    clear_all-marked 2 marked_world 3 (omega arith) marked_bytes marked_short 1 2 second

-- A list from earlier, when chain 5 was in use too.
abbrev slot : ℕ → Slot
slot c = record { sc = some c; sc_count = 2; bneck_flag = 0 }

all_kept : (c : ℕ) → member c (flows world 3 0) ≡ true → member c (1 ∷ []) ≡ true
unfolding member flows active_chain
all_kept c m = ground arith

mark_all_hole_example :
    let sc_list = slot 5 ∷ laid_out slot (1 ∷ []) 1 in
    ((onvm_mark_all_entries_for_bottleneck 2 sc_list world).1 ≡ world)
    × ((onvm_clear_all_entries_for_bottleneck 2 sc_list world).1 ≡ world)
unfolding member
mark_all_hole_example =
    mark_all_hole world 2 1 (slot 5) slot (1 ∷ []) (λ e. refl) (refl, tt) all_kept
