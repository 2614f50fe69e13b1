-- ===== src/Threads/Handlers.antt =====
-- What a thread does to the packets in one call of its handlers.
use nfvnice_source.Bkpr.{onvm_check_and_reset_back_pressure}
use nfvnice_source.Mgr.{Packet, Places, World, Dpdk, Documented}
use nfvnice_source.Pkt.{
  onvm_pkt_drop_batch, onvm_pkt_process_rx_batch, onvm_pkt_flush_all_ports,
  onvm_pkt_process_rx_batch,
}
use nfvnice_source.Pkt.Batch.{same-Moves, rx_batch-Moves}
use nfvnice_source.Pkt.Conserve.{flush_all_nfs-Moves, flush_all_ports-Moves}
use nfvnice_source.Pkt.Count.{
  amount, amount-append, amount-nil, amount-cons, amount-split, total-sent,
}
use nfvnice_source.Pkt.Moves.{
  InRange, Moves, Moves-refl, Moves-trans, Moves-eq, InRange-Moves, drop_batch-Moves,
}
use nfvnice_source.Pkt.Tx.Returned.{tx_batch-Moves}
use nfvnice_source.Pkt.Tx.Total.{Chained, Chained-Moves, tx_batch_total}
use nfvnice_source.Prelude.{
  ℕ, ◌+◌, ◌<◌, ◌≡◌, refl, sym, subst, Bool, true, false, some, List, [], ◌∷◌, ◌++◌, arith, take,
  drop, ◌==◌, ltb, if◌then◌else◌, some_inj,
}
use nfvnice_source.Threads.{
  from_port_0, from_other_ports, send_alt, send_direct_on_alt_port, receive, process_client,
  TxRings, flush,
}
use nfvnice_source.Threads.Quiet.{reset-places, reset-tables}

-- The documentation of `rte_ring_dequeue_burst`: what it gives and what it leaves are the ring.
pub record Bursts (r : TxRings) : Type 0 where
  pub burst : (q : List Packet) (n : ℕ) → (r.dequeue_burst q n).0 ++ (r.dequeue_burst q n).1 ≡ q

-- The two lists are the burst.
amount-ports :
    (a : ℕ) (ps : List Packet)
    → amount a (from_other_ports ps) + amount a (from_port_0 ps) ≡ amount a ps
unfolding from_port_0 from_other_ports
amount-ports a [] = omega (arith, amount-nil a)
amount-ports a (p ∷ ps) = ground (
  arith,
  amount-ports a ps,
  amount-cons a p ps,
  amount-cons a p (from_other_ports ps),
  amount-cons a p (from_port_0 ps),
)

module _ (d : Dpdk) (ok : Documented d) (a : ℕ) where
  send_alt-Moves :
      (port line : ℕ) (burst : List Packet) (w : World)
      → port < w.places.num_ports
      → Moves a (amount a burst) w (send_alt d port line burst w)
  unfolding send_alt
  send_alt-Moves port line [] w h = Moves-eq (sym (amount-nil a)) (Moves-refl a w)
  send_alt-Moves port line (p ∷ ps) w h = record {
    tables_kept = dropped.tables_kept;
    ports = dropped.ports;
    counted = omega (
      arith,
      total-sent a s port (s.sent port ++ take n (p ∷ ps))
          (subst (λ m. port < m) (sym dropped.ports) h),
      amount-append a (s.sent port) (take n (p ∷ ps)),
      dropped.counted,
      amount-split a n (p ∷ ps),
    );
  }
    where
      n : ℕ
      n = d.eth_tx_burst port (w.places.sent port) (p ∷ ps)

      s : Places
      s = (onvm_pkt_drop_batch (drop n (p ∷ ps)) w).places

      dropped : Moves a (amount a (drop n (p ∷ ps))) w (onvm_pkt_drop_batch (drop n (p ∷ ps)) w)
      dropped = drop_batch-Moves a (drop n (p ∷ ps)) w

  send_direct-Moves :
      (pkts : List Packet) (w : World)
      → 0 < w.places.num_ports
      → Moves a (amount a pkts) w (send_direct_on_alt_port d pkts w)
  unfolding send_direct_on_alt_port
  send_direct-Moves pkts w h = Moves-eq (amount-ports a pkts) (Moves-trans first second)
    where
      first :
          Moves a (amount a (from_other_ports pkts)) w (send_alt d 0 0 (from_other_ports pkts) w)
      first = send_alt-Moves 0 0 (from_other_ports pkts) w h

      port : ℕ
      port = if ltb 1 w.places.num_ports then 1 else 0

      there : port < w.places.num_ports
      there = ground arith

      second :
          Moves a
            (amount a (from_port_0 pkts))
            (send_alt d 0 0 (from_other_ports pkts) w)
            (send_alt d port 1 (from_port_0 pkts) (send_alt d 0 0 (from_other_ports pkts) w))
      second =
          send_alt-Moves port 1 (from_port_0 pkts) (send_alt d 0 0 (from_other_ports pkts) w)
            (subst (λ m. port < m) (sym first.ports) there)

  pub receive-Moves :
      (pkts : List Packet) (w : World)
      → 0 < w.places.num_ports
      → InRange w
      → Moves a (amount a pkts) w (receive d pkts w)
  unfolding receive
  receive-Moves [] w h r = Moves-eq (sym (amount-nil a)) (Moves-refl a w)
  receive-Moves (p ∷ ps) w h r = by_clients (w.num_clients == 0)
    where
      by_clients :
          (idle : Bool)
          → Moves a (amount a (p ∷ ps)) w (
              if idle
              then send_direct_on_alt_port d (p ∷ ps) w
              else onvm_pkt_process_rx_batch d (p ∷ ps) w)
      by_clients true = send_direct-Moves (p ∷ ps) w h
      by_clients false = rx_batch-Moves d ok a (p ∷ ps) w r

  pub flush-Moves : (w : World) → Moves a 0 w (flush d w)
  unfolding flush
  flush-Moves w = Moves-eq (omega arith) (
      Moves-trans (flush_all_ports-Moves d ok a w)
        (flush_all_nfs-Moves d ok a (onvm_pkt_flush_all_ports d w)))

  reset-Moves : (i : ℕ) (w : World) → Moves a 0 w (onvm_check_and_reset_back_pressure i w)
  reset-Moves i w =
      same-Moves a w (onvm_check_and_reset_back_pressure i w) (reset-places i w) (reset-tables i w)

  pub process_client-Moves :
      (i : ℕ) (pkts : List Packet) (w w' : World)
      → InRange w
      → process_client d i pkts w ≡ some w'
      → Moves a (amount a pkts) w w'
  unfolding process_client
  process_client-Moves i [] w w' h e =
      subst (Moves a (amount a []) w) (some_inj e) (Moves-eq (sym (amount-nil a)) (Moves-refl a w))
  process_client-Moves i (p ∷ ps) w w' h e = Moves-eq (omega arith) (
      Moves-trans (reset-Moves i w) (
        tx_batch-Moves d ok a i (p ∷ ps) (onvm_check_and_reset_back_pressure i w) w'
          (InRange-Moves (reset-Moves i w) h) e))

  pub process_client_total :
      (i : ℕ) (pkts : List Packet) (w : World)
      → InRange w
      → Chained w
      → (w' : World) × (process_client d i pkts w ≡ some w')
  unfolding process_client
  process_client_total i [] w h c = (w, refl)
  process_client_total i (p ∷ ps) w h c =
      tx_batch_total d ok i (p ∷ ps) (onvm_check_and_reset_back_pressure i w)
        (InRange-Moves (reset-Moves i w) h) (Chained-Moves d ok (reset-Moves i w) c)
