-- ===== src/Pkt/Tx.antt =====
-- The packets that come back from the NFs: `onvm_pkt_process_next_action` and
-- `onvm_pkt_process_tx_batch` of onvm/onvm_mgr/onvm_pkt.c.
pub mod Returned
pub mod Total
use nfvnice_source.Action
use nfvnice_source.Bkpr.{get_flow_entry}
use nfvnice_source.Mgr.{Packet, Meta, Stats, World, Dpdk, bump64, on_stats}
use nfvnice_source.Pkt.{
  onvm_pkt_drop, lose, onvm_pkt_enqueue_port, onvm_pkt_enqueue_nf, follow, advance,
}
use nfvnice_source.Prelude.{
  ℕ, ◌%◌, List, [], ◌∷◌, Option, none, some, Bool, true, ◌==◌, if◌then◌else◌,
}

-- The counters of the actions.
abbrev pub count_drop : ℕ → World → World
count_drop i = on_stats i (λ s. record s { act_drop = bump64 s.act_drop 1 })

abbrev pub count_next : ℕ → World → World
count_next i = on_stats i (λ s. record s { act_next = bump64 s.act_next 1 })

abbrev pub count_tonf : ℕ → World → World
count_tonf i = on_stats i (λ s. record s { act_tonf = bump64 s.act_tonf 1 })

abbrev pub count_out : ℕ → World → World
count_out i = on_stats i (λ s. record s { act_out = bump64 s.act_out 1 })

-- The `switch` of `onvm_pkt_process_next_action`. Its default case does nothing with the packet.
pub dispatch : Dpdk → ℕ → Packet → Option ℕ → World → World
dispatch d i p entry w =
    if p.meta.action == Action.drop
    then count_drop i (onvm_pkt_drop p w)
    else if p.meta.action == Action.tonf
    then onvm_pkt_enqueue_nf d p.meta.destination (advance p) entry (count_tonf i w)
    else if p.meta.action == Action.out
    then onvm_pkt_enqueue_port d p.meta.destination (advance p) (count_out i w)
    else lose (p ∷ []) w

abbrev pub use_global_mode : World → World
use_global_mode w = record w { global_bkpr_mode = true }

-- `onvm_pkt_process_next_action`, after its search for the flow entry. `none` is a read through NULL:
-- the chain of the entry is used without a test.
pub next_action : Dpdk → ℕ → Packet → Option ℕ → World → Option World
next_action d i p none w =
    some (dispatch d i (follow (w.chains w.default_chain) p) none (use_global_mode w))
next_action d i p (some entry) w = elim (w.entries entry).sc [
  | none ↦ none
  | some c ↦ some (dispatch d i (follow (w.chains c) p) (some entry) w)
]

-- The caller has searched already; where it found nothing the function searches again.
pub onvm_pkt_process_next_action : Dpdk → ℕ → Packet → Option ℕ → World → Option World
onvm_pkt_process_next_action d i p none w = next_action d i p (get_flow_entry d p) w
onvm_pkt_process_next_action d i p (some entry) w = next_action d i p (some entry) w

-- How a round of the loop of `onvm_pkt_process_tx_batch` ends: the next packet, `return`, or a fault.
pub data Round : Type 0 where
  continue : World → Round
  stop : World → Round
  fault : Round

abbrev go_on : Option World → Round
go_on none = fault
go_on (some w) = continue w

abbrev pub from_nf : ℕ → Packet → World → Packet
from_nf i p w = record p { meta = record p.meta { src = (w.clients i).instance_id % 256 } }

-- ONVM_NF_ACTION_TONF: with no flow entry the global mode is switched on.
abbrev pub send_to_nf : Dpdk → ℕ → Packet → World → World
send_to_nf d i p w =
    let entry = get_flow_entry d p in
    let w1 : World = elim entry [
      | none ↦ use_global_mode (count_tonf i w)
      | some e ↦ count_tonf i w
    ] in
    onvm_pkt_enqueue_nf d p.meta.destination (advance p) entry w1

pub process_tx : Dpdk → ℕ → Packet → World → Round
process_tx d i p0 w =
    let p = from_nf i p0 w in
    if p.meta.action == Action.drop
    then continue (count_drop i (onvm_pkt_drop p w))
    else if p.meta.action == Action.next
    then go_on (onvm_pkt_process_next_action d i p (get_flow_entry d p) (count_next i w))
    else if p.meta.action == Action.tonf
    then continue (send_to_nf d i p w)
    else if p.meta.action == Action.out
    then continue (onvm_pkt_enqueue_port d p.meta.destination p (count_out i w))
    else stop (onvm_pkt_drop p w)

-- `onvm_pkt_process_tx_batch(tx, pkts, tx_count, &clients[i])`. After a `return` in the middle the rest
-- of the batch is neither queued nor freed.
pub onvm_pkt_process_tx_batch : Dpdk → ℕ → List Packet → World → Option World
onvm_pkt_process_tx_batch d i [] w = some w
onvm_pkt_process_tx_batch d i (p ∷ ps) w = elim (process_tx d i p w) [
  | continue w' ↦ onvm_pkt_process_tx_batch d i ps w'
  | stop w' ↦ some (lose ps w')
  | fault ↦ none
]
