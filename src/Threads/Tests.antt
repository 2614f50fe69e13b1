-- ===== src/Threads/Tests.antt =====
-- Two transmit threads, one receive thread, and an NF with a packet on its transmit ring.
use nfvnice_source.Mgr.{Packet}
use nfvnice_source.Mgr.Sample.{world, dpdk, dpdk-Documented, packet, row_in_range}
use nfvnice_source.Pkt.{onvm_pkt_drop_batch}
use nfvnice_source.Pkt.Count.{amount}
use nfvnice_source.Pkt.Tx.Total.{Chained}
use nfvnice_source.Prelude.{
  ℕ, ◌<◌, ◌≡◌, refl, sym, true, not, List, [], ◌∷◌, ◌++◌, some, none-some, take, drop,
  take-append-drop, ltb, ◌&&◌, ◌==◌, arith, if◌then◌else◌,
}
use nfvnice_source.Prelude.Sum.{sum_below}
use nfvnice_source.Threads.{
  TxRings, receive, rx_round, tx_round, flush, first_cl, last_cl, last_client,
  send_direct_on_alt_port, send_alt, from_port_0, from_other_ports,
}
use nfvnice_source.Threads.Everywhere.{everywhere, shared_total, bufs_total}
use nfvnice_source.Threads.Handlers.{Bursts}
use nfvnice_source.Threads.Rounds.{bursts_of, ascending, Served, tx_round-Reach, rx_round-Reach}
use nfvnice_source.Threads.Safe.{Sound, Reach-Sound}
use nfvnice_source.Threads.Share.{tx_serves, tx_serves_lem, wakes}
use nfvnice_source.Threads.System.{
  System, Config, load, store, receives, flushes, Reach, here, next,
}

abbrev config : Config
config = record { static_clients = 0; tx_lcores = 2; rx_lcores = 1 }

abbrev rings : TxRings
rings = record { dequeue_burst = λ q n. (take n q, drop n q) }

rings-Bursts : Bursts rings
rings-Bursts = record { burst = λ q n. take-append-drop n q }

-- A drop, a packet for the next step of its chain and one for the port; what a port gives.
abbrev mixed : List Packet
mixed = packet 3 0 ∷ packet 4 1 ∷ packet 5 3 ∷ []

abbrev batch : List Packet
batch = packet 7 2 ∷ packet 8 2 ∷ []

-- All is empty but the transmit ring of NF 1.
abbrev start : System
start = record {
  world = world;
  threads = λ k. record { nf_rx_buf = λ i. []; port_tx_buf = λ i. [] };
  tx_q = λ i. if i == 1 then mixed else [];
  held = [];
  received = mixed;
}

chained : Chained world
unfolding Chained
chained e h = none-some (sym h)

start-Sound : Sound config start
unfolding Chained everywhere shared_total bufs_total sum_below amount
start-Sound = record {
  ports = omega arith;
  in_range = row_in_range;
  chained = chained;
  counted = λ a. omega arith;
}

-- The receive thread has a burst, and then a transmit thread flushes.
abbrev received : System
received = record (store 2 (receive dpdk batch (load 2 start)) start) {
  received = start.received ++ batch;
}

abbrev flushed : System
flushed = store 0 (flush dpdk (load 0 received)) received

steps : Reach config rings dpdk start flushed
steps = next (next here (receives 0 batch (omega arith) refl)) (flushes 0 (omega arith) refl)

Reach-Sound_example : Sound config flushed
Reach-Sound_example =
    Reach-Sound config rings dpdk (omega arith) rings-Bursts dpdk-Documented start flushed
      start-Sound steps

tx_round-Reach_example :
    (u : System) × (t : System) × Served config rings dpdk 0 (ascending 16 0) start u
    × (t ≡ store 0 (flush dpdk (load 0 u)) u)
    × Reach config rings dpdk start t
    × Sound config t
    × (tx_round rings dpdk (first_cl 0 2 0) (last_cl 0 2 0) (start.tx_q, load 0 start)
        ≡ some (t.tx_q, load 0 t))
    × ((j : ℕ) → j < t.world.places.num_ports → (t.threads 0).port_tx_buf j ≡ [])
tx_round-Reach_example =
    tx_round-Reach config rings dpdk (omega arith) rings-Bursts dpdk-Documented 0 (omega arith)
      start start-Sound

rx_round-Reach_example :
    (t : System) × Reach config rings dpdk start t
    × (rx_round dpdk (λ i. batch) (load 2 start) ≡ load 2 t)
    × (t.received ≡ mixed ++ bursts_of (λ i. batch) 1 0)
    × (t.tx_q ≡ start.tx_q)
rx_round-Reach_example = rx_round-Reach config rings dpdk 0 (λ i. batch) start (omega arith)

-- With three threads and 32 clients, 11 a thread.
tx_serves_lem_example : (i : ℕ) × (i < 3) × ((j : ℕ) → tx_serves 0 3 j 12 ≡ (ltb 12 32 && (i == j)))
tx_serves_lem_example = tx_serves_lem 0 3 12 (omega arith)

-- Thread 1 of 3 begins behind the 11 clients of thread 0.
second_thread : ((first_cl 0 3 1 == 11) && (last_cl 0 3 2 == 32)) ≡ true
second_thread = refl

-- With 6 clients and 4 wakeup threads each is given one, and nobody wakes client 5.
left_out : ((last_client 6 4 3 == 5) && not (wakes 6 4 3 5)) ≡ true
left_out = refl

-- While no NF runs, packets go out on the other port.
bridged :
    (receive dpdk (packet 7 0 ∷ []) (record world {
      num_clients = 0;
      places = record world.places { num_ports = 2 };
    })).places.sent
      1
    ≡ packet 7 0 ∷ []
unfolding receive send_direct_on_alt_port send_alt from_port_0 from_other_ports onvm_pkt_drop_batch
bridged = refl
