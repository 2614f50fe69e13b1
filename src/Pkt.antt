-- ===== src/Pkt.antt =====
-- The packet paths of the manager, onvm/onvm_mgr/onvm_pkt.c: packets from the ports are sent along
-- their service chains, packets from the NFs are dropped, passed on or put out, and the buffers of the
-- thread are flushed into the rings of the NFs and to the ports. Null checks of pointers that the
-- callers take from arrays (`tx == NULL` and the like) are left out.
pub mod Tx
pub mod Place
pub mod Count
pub mod Moves
pub mod Conserve
pub mod Emptied
pub mod Batch
pub mod Throttle
mod Tests
use nfvnice_source.Action
use nfvnice_source.Bkpr.{get_flow_entry, entry_chain, onvm_detect_and_set_back_pressure}
use nfvnice_source.Chain.{Chain, onvm_next_action, onvm_next_destination}
use nfvnice_source.Mgr.{
  Packet, Meta, Stats, Client, Places, World, Dpdk, Enqueued, packet_read_size, max_clients, bump64,
  on_stats, onvm_nf_is_valid,
}
use nfvnice_source.Prelude.{
  ℕ, zero, suc, ◌+◌, ◌-◌, ◌%◌, List, [], ◌∷◌, ◌++◌, Option, none, some, Bool, true, false, not,
  length, get_or, take, drop, update, ltb, leb, ◌==◌, ◌&&◌, if◌then◌else◌,
}

-- `onvm_pkt_drop`: the packet is freed.
abbrev pub onvm_pkt_drop : Packet → World → World
onvm_pkt_drop p w = record w { places = record w.places { freed = p ∷ w.places.freed } }

-- `onvm_pkt_drop_batch`, and the other loops that drop a run of packets.
unfoldable pub onvm_pkt_drop_batch : List Packet → World → World
onvm_pkt_drop_batch [] w = w
onvm_pkt_drop_batch (p ∷ ps) w = onvm_pkt_drop_batch ps (onvm_pkt_drop p w)

-- Packets that the code returns without having queued or freed.
abbrev pub lose : List Packet → World → World
lose ps w = record w { places = record w.places { lost = ps ++ w.places.lost } }

-- `onvm_pkt_flush_port_queue`, for a buffer with packets. Nothing is dropped where the port takes all.
pub send_burst : Dpdk → ℕ → List Packet → World → World
send_burst d port burst w =
    let n = d.eth_tx_burst port (w.places.sent port) burst in
    let w1 = onvm_pkt_drop_batch (drop n burst) w in
    record w1 {
      port_tx_drop = update w.port_tx_drop port (bump64 (w.port_tx_drop port) (length burst - n));
      port_tx = update w.port_tx port (bump64 (w.port_tx port) n);
      places = record w1.places {
        sent = update w1.places.sent port (w1.places.sent port ++ take n burst);
        port_tx_buf = update w1.places.port_tx_buf port [];
      };
    }

pub onvm_pkt_flush_port_queue : Dpdk → ℕ → World → World
onvm_pkt_flush_port_queue d port w = elim (w.places.port_tx_buf port) [
  | [] ↦ w
  | p ∷ ps ↦ send_burst d port (p ∷ ps) w
]

-- `onvm_pkt_flush_nf_queue`, from the call of `rte_ring_enqueue_bulk` on.
abbrev pub is_stored : Enqueued → Bool
is_stored Enqueued.stored = true
is_stored _ = false

abbrev pub fill_ring : Dpdk → ℕ → List Packet → World → Enqueued × World
fill_ring d i pkts w =
    let (status, q) = d.ring_enqueue_bulk (w.places.rx_q i) pkts in
    (status, record w { places = record w.places { rx_q = update w.places.rx_q i q } })

-- What happens to the packets of the buffer after the attempt.
pub account : Enqueued → ℕ → List Packet → World → World
account Enqueued.no_bufs i pkts w =
    on_stats i (λ s. record s { rx_drop = bump64 s.rx_drop (length pkts) })
      (onvm_pkt_drop_batch pkts w)
account _ i pkts w = on_stats i (λ s. record s { rx = bump64 s.rx (length pkts) }) w

abbrev pub empty_nf_buf : ℕ → World → World
empty_nf_buf i w = record w {
  places = record w.places { nf_rx_buf = update w.places.nf_rx_buf i [] };
}

pub flush_packets : Dpdk → ℕ → List Packet → World → World
flush_packets d i pkts w =
    let (status, w1) = fill_ring d i pkts w in
    let w2 = if is_stored status then w1 else onvm_detect_and_set_back_pressure d i pkts w1 in
    empty_nf_buf i (account status i pkts w2)

pub onvm_pkt_flush_nf_queue : Dpdk → ℕ → World → World
onvm_pkt_flush_nf_queue d i w = elim (w.places.nf_rx_buf i) [
  | [] ↦ w
  | p ∷ ps ↦ if onvm_nf_is_valid w i then flush_packets d i (p ∷ ps) w else w
]

-- `for (i = 0; i < n; i++) step(i)`, for the two functions that flush everything.
pub each_below : ℕ → ℕ → (ℕ → World → World) → World → World
each_below zero i step w = w
each_below (suc n) i step w = each_below n (i + 1) step (step i w)

pub onvm_pkt_flush_all_ports : Dpdk → World → World
onvm_pkt_flush_all_ports d w = each_below w.places.num_ports 0 (onvm_pkt_flush_port_queue d) w

pub onvm_pkt_flush_all_nfs : Dpdk → World → World
onvm_pkt_flush_all_nfs d w = each_below max_clients 0 (onvm_pkt_flush_nf_queue d) w

-- `onvm_pkt_enqueue_port`. A packet for a port that is not there is neither queued nor freed.
-- `RTE_MAX_ETHPORTS` is not below `num_ports`, so one test is enough.
pub onvm_pkt_enqueue_port : Dpdk → ℕ → Packet → World → World
onvm_pkt_enqueue_port d port p w =
    if leb w.places.num_ports port
    then lose (p ∷ []) w
    else (let queued = w.places.port_tx_buf port ++ p ∷ [] in
        let w1 = record w {
          places = record w.places { port_tx_buf = update w.places.port_tx_buf port queued };
        } in
        if length queued == packet_read_size then onvm_pkt_flush_port_queue d port w1 else w1)

-- `onvm_nf_service_to_nf_map` of onvm_nf.c, for a packet that is there and a service below `num_services`,
-- which the code does not test; the place in the row is below the count, which `onvm_nf_start` is the only
-- one to raise.
unfoldable pub onvm_nf_service_to_nf_map : World → ℕ → Packet → ℕ
onvm_nf_service_to_nf_map w service p =
    if w.nf_per_service_count service == 0
    then 0
    else get_or (w.services service) (p.rss % w.nf_per_service_count service) 0

-- The tests of back pressure in `onvm_pkt_enqueue_nf`: a chain with a marked position throttles its
-- packets on their way to the first NF; with no chain it is the global mode that does.
pub is_throttled : World → Option ℕ → Packet → Bool
is_throttled w entry p = elim (entry_chain w entry) [
  | some c ↦ not ((w.chains c).overflowing == 0) && (p.meta.chain_index == 1)
  | none ↦ w.downstream_nf_overflow && (p.meta.chain_index == 1)
]

-- The global mode also counts the packets that it throttles.
abbrev pub count_throttled : World → Option ℕ → ℕ
count_throttled w entry = elim (entry_chain w entry) [
  | some c ↦ w.throttle_count
  | none ↦ bump64 w.throttle_count 1
]

abbrev pub throttle : ℕ → Option ℕ → Packet → World → World
throttle i entry p w =
    on_stats i (λ s. record s { bkpr_drop = bump64 s.bkpr_drop 1 })
      (record (onvm_pkt_drop p w) { throttle_count = count_throttled w entry })

-- The end of `onvm_pkt_enqueue_nf`.
pub push_nf : Dpdk → ℕ → Packet → World → World
push_nf d i p w =
    let queued = w.places.nf_rx_buf i ++ p ∷ [] in
    let w1 = record w {
      places = record w.places { nf_rx_buf = update w.places.nf_rx_buf i queued };
    } in
    if length queued == packet_read_size then onvm_pkt_flush_nf_queue d i w1 else w1

-- `onvm_pkt_enqueue_nf`, with the index of the flow entry of the packet.
pub onvm_pkt_enqueue_nf : Dpdk → ℕ → Packet → Option ℕ → World → World
onvm_pkt_enqueue_nf d service p entry w =
    let i = onvm_nf_service_to_nf_map w service p in
    if i == 0
    then onvm_pkt_drop p w
    else if not (onvm_nf_is_valid w i)
    then onvm_pkt_drop p w
    else if is_throttled w entry p
    then throttle i entry p w
    else push_nf d i p w

-- `meta->action = …; meta->destination = …` for a chain, in bytes.
abbrev pub follow : Chain → Packet → Packet
follow c p = record p {
  meta = record p.meta {
    action = onvm_next_action c p.meta.chain_index % 256;
    destination = onvm_next_destination c p.meta.chain_index % 256;
  };
}

-- `(meta->chain_index)++`.
abbrev pub advance : Packet → Packet
advance p = record p { meta = record p.meta { chain_index = (p.meta.chain_index + 1) % 256 } }

-- One round of the loop of `onvm_pkt_process_rx_batch`.
abbrev pub fresh : Packet → Packet
fresh p = record p { meta = record p.meta { src = 0; chain_index = 0 } }

pub process_rx : Dpdk → Packet → World → World
process_rx d p w =
    let entry = get_flow_entry d p in
    elim (entry_chain w entry) [
      | some c ↦
          let p' = advance (follow (w.chains c) (fresh p)) in
          onvm_pkt_enqueue_nf d p'.meta.destination p' entry w
      | none ↦
          let p' = advance (follow (w.chains w.default_chain) (fresh p)) in
          onvm_pkt_enqueue_nf d p'.meta.destination p' none w
    ]

pub process_rx_each : Dpdk → List Packet → World → World
process_rx_each d [] w = w
process_rx_each d (p ∷ ps) w = process_rx_each d ps (process_rx d p w)

-- `onvm_pkt_process_rx_batch`.
pub onvm_pkt_process_rx_batch : Dpdk → List Packet → World → World
onvm_pkt_process_rx_batch d pkts w = onvm_pkt_flush_all_nfs d (process_rx_each d pkts w)
