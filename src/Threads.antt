-- ===== src/Threads.antt =====
-- The threads of the manager, onvm/onvm_mgr/main.c: how clients are given to them, and the bodies of
-- their loops. Built with ONVM_MGR_ACT_AS_2PORT_FWD_BRIDGE and SEND_DIRECT_ON_ALT_PORT, as common.h has
-- them: while no NF runs, packets go out on the other port. The wakeup thread is in Wake.
pub mod Share
pub mod System
pub mod Quiet
pub mod Manage
pub mod Handlers
pub mod Everywhere
pub mod Safe
pub mod Rounds
mod Tests
use nfvnice_source.Bkpr.{onvm_check_and_reset_back_pressure}
use nfvnice_source.Mgr.{
  Packet, Places, World, Dpdk, packet_read_size, max_clients, bump64, onvm_nf_is_valid,
}
use nfvnice_source.Pkt.{
  onvm_pkt_drop_batch, onvm_pkt_process_rx_batch, onvm_pkt_flush_all_ports, onvm_pkt_flush_all_nfs,
}
use nfvnice_source.Pkt.Tx.{onvm_pkt_process_tx_batch}
use nfvnice_source.Prelude.{
  ℕ, zero, suc, ◌+◌, ◌-◌, ◌*◌, ◌/◌, ◌%◌, ◌^◌, min, List, [], ◌∷◌, ◌++◌, Option, none, some, Bool,
  length, take, drop, update, ltb, ◌==◌, if◌then◌else◌,
}

-- `ceil((float)n / t)`: the numbers are so small that the quotient of floats is rounded to no integer
-- unless it is one.
abbrev pub ceil_div : ℕ → ℕ → ℕ
ceil_div n t = (n + t - 1) / t

-- `temp_num_clients` and `clients_per_tx`; without static clients there may be as many as `MAX_CLIENTS`.
abbrev pub temp_num_clients : ℕ → ℕ
temp_num_clients num_clients = if num_clients == 0 then max_clients else num_clients

abbrev pub clients_per_tx : ℕ → ℕ → ℕ
clients_per_tx num_clients tx_lcores = ceil_div (temp_num_clients num_clients) tx_lcores

-- `tx->first_cl` and `tx->last_cl` of thread `i`.
abbrev pub first_cl : ℕ → ℕ → ℕ → ℕ
first_cl num_clients tx_lcores i =
    min (i * clients_per_tx num_clients tx_lcores) (temp_num_clients num_clients)

abbrev pub last_cl : ℕ → ℕ → ℕ → ℕ
last_cl num_clients tx_lcores i =
    min ((i + 1) * clients_per_tx num_clients tx_lcores) (temp_num_clients num_clients)

-- `wakeup_infos[i].first_client` and `last_client`. `ceil` is taken of an integer quotient.
abbrev pub first_client : ℕ → ℕ → ℕ → ℕ
first_client num_clients wakeup_lcores i =
    let n = temp_num_clients num_clients in min (i * (n / wakeup_lcores) + 1) n

abbrev pub last_client : ℕ → ℕ → ℕ → ℕ
last_client num_clients wakeup_lcores i =
    let n = temp_num_clients num_clients in min ((i + 1) * (n / wakeup_lcores) + 1) n

-- The two lists of `send_direct_on_alt_port`: what came from port 0, and the rest.
pub from_port_0 : List Packet → List Packet
from_port_0 [] = []
from_port_0 (p ∷ ps) = let rest = from_port_0 ps in if p.port == 0 then p ∷ rest else rest

pub from_other_ports : List Packet → List Packet
from_other_ports [] = []
from_other_ports (p ∷ ps) = let rest = from_other_ports ps in if p.port == 0 then rest else p ∷ rest

-- One burst of `send_direct_on_alt_port` on a port, with the line of the statistics that it counts in.
pub send_alt : Dpdk → ℕ → ℕ → List Packet → World → World
send_alt d port line [] w = w
send_alt d port line (p ∷ ps) w =
    let n = d.eth_tx_burst port (w.places.sent port) (p ∷ ps) in
    let w1 = onvm_pkt_drop_batch (drop n (p ∷ ps)) w in
    record w1 {
      port_tx_drop =
          update w.port_tx_drop line (bump64 (w.port_tx_drop line) (length (p ∷ ps) - n));
      port_tx = update w.port_tx line (bump64 (w.port_tx line) n);
      places = record w1.places {
        sent = update w1.places.sent port (w1.places.sent port ++ take n (p ∷ ps));
      };
    }

-- `send_direct_on_alt_port`, for `onv_pkt_send_on_alt_port`.
pub send_direct_on_alt_port : Dpdk → List Packet → World → World
send_direct_on_alt_port d pkts w =
    let w1 = send_alt d 0 0 (from_other_ports pkts) w in
    send_alt d (if ltb 1 w.places.num_ports then 1 else 0) 1 (from_port_0 pkts) w1

-- The body of `rx_thread_main` for the packets that `rte_eth_rx_burst` gave.
pub receive : Dpdk → List Packet → World → World
receive d [] w = w
receive d (p ∷ ps) w =
    if w.num_clients == 0
    then send_direct_on_alt_port d (p ∷ ps) w
    else onvm_pkt_process_rx_batch d (p ∷ ps) w

-- The loop of `rx_thread_main` over the ports; `bursts` is what each of them gives in this round. The
-- counter `rx_stats.rx` is left out.
pub rx_ports : Dpdk → (ℕ → List Packet) → ℕ → ℕ → World → World
rx_ports d bursts zero i w = w
rx_ports d bursts (suc n) i w = rx_ports d bursts n (i + 1) (receive d (bursts i) w)

pub rx_round : Dpdk → (ℕ → List Packet) → World → World
rx_round d bursts w = rx_ports d bursts w.places.num_ports 0 w

-- What `tx_thread_main` does with the packets that it took off the transmit ring of NF `i`.
pub process_client : Dpdk → ℕ → List Packet → World → Option World
process_client d i [] w = some w
process_client d i (p ∷ ps) w =
    onvm_pkt_process_tx_batch d i (p ∷ ps) (onvm_check_and_reset_back_pressure i w)

-- The transmit rings of the NFs, with `rte_ring_dequeue_burst`.
pub record TxRings : Type 0 where
  pub dequeue_burst : List Packet → ℕ → List Packet × List Packet

-- The body of `tx_thread_main` for client `i`, with the transmit rings.
pub serve : TxRings → Dpdk → ℕ → (ℕ → List Packet) × World → Option ((ℕ → List Packet) × World)
serve r d i (tx_q, w) =
    let (pkts, rest) = r.dequeue_burst (tx_q i) packet_read_size in
    if onvm_nf_is_valid w i
    then elim (process_client d i pkts w) [ none ↦ none | some w' ↦ some (update tx_q i rest, w') ]
    else some (tx_q, w)

-- The loop of `tx_thread_main` over its clients, and the end of its body.
pub serve_from :
    TxRings → Dpdk → ℕ → ℕ → (ℕ → List Packet) × World → Option ((ℕ → List Packet) × World)
serve_from r d zero i s = some s
serve_from r d (suc n) i s = elim (serve r d i s) [
  | none ↦ none
  | some s' ↦ serve_from r d n (i + 1) s'
]

pub flush : Dpdk → World → World
flush d w = onvm_pkt_flush_all_nfs d (onvm_pkt_flush_all_ports d w)

pub tx_round :
    TxRings → Dpdk → ℕ → ℕ → (ℕ → List Packet) × World → Option ((ℕ → List Packet) × World)
tx_round r d first last s = elim (serve_from r d (last - first) first s) [
  | none ↦ none
  | some (tx_q, w) ↦ some (tx_q, flush d w)
]
