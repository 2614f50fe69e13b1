-- ===== src/Pkt/Conserve.antt =====
-- No packet is lost or doubled by the functions that queue and flush.
use nfvnice_source.Mgr.{
  Packet, Places, World, Dpdk, Documented, Enqueued, max_clients, onvm_nf_is_valid,
}
use nfvnice_source.Pkt.{
  onvm_pkt_drop_batch, send_burst, onvm_pkt_flush_port_queue, fill_ring, account, flush_packets,
  onvm_pkt_flush_nf_queue, each_below, onvm_pkt_flush_all_nfs, onvm_pkt_flush_all_ports,
}
use nfvnice_source.Pkt.Count.{amount, amount-split, total-rx_q}
use nfvnice_source.Pkt.Moves.{
  Moves, Moves-refl, Moves-trans, drop_batch-Moves, drop_batch-queues, sent_total, emptied_total,
  refused, account-Moves, account-nf_rx_buf, ring_amount, react, react-places, react-Moves,
}
use nfvnice_source.Prelude.{
  ℕ, zero, suc, ◌+◌, ◌≤◌, ◌<◌, ◌≡◌, inl, inr, refl, sym, ap, subst, ◌∙◌, Bool-cases, List, [], ◌∷◌,
  arith, take, drop,
}

module _ (d : Dpdk) (ok : Documented d) (a : ℕ) where
  send_burst-Moves :
      (port : ℕ) (burst : List Packet) (w : World)
      → port < w.places.num_ports
      → w.places.port_tx_buf port ≡ burst
      → Moves a 0 w (send_burst d port burst w)
  unfolding send_burst
  send_burst-Moves port burst w h e = record {
    tables_kept = w1.tables_kept;
    ports = w1.ports;
    counted = omega (
      arith,
      sent_total a port (take n burst) s1 (subst (λ m. port < m) (sym w1.ports) h),
      w1.counted,
      amount-split a n burst,
      ap (λ f. amount a (f port)) (drop_batch-queues (drop n burst) w).1,
      ap (amount a) e,
    );
  }
    where
      n : ℕ
      n = d.eth_tx_burst port (w.places.sent port) burst

      s1 : Places
      s1 = (onvm_pkt_drop_batch (drop n burst) w).places

      w1 : Moves a (amount a (drop n burst)) w (onvm_pkt_drop_batch (drop n burst) w)
      w1 = drop_batch-Moves a (drop n burst) w

  pub flush_port-Moves :
      (port : ℕ) (w : World)
      → port < w.places.num_ports
      → Moves a 0 w (onvm_pkt_flush_port_queue d port w)
  unfolding onvm_pkt_flush_port_queue
  flush_port-Moves port w h = by_buf (w.places.port_tx_buf port) refl
    where
      by_buf :
          (burst : List Packet)
          → w.places.port_tx_buf port ≡ burst
          → Moves a 0 w (onvm_pkt_flush_port_queue d port w)
      by_buf [] e = rw (e, onvm_pkt_flush_port_queue) (Moves-refl a w)
      by_buf (p ∷ ps) e = rw (e, onvm_pkt_flush_port_queue) (send_burst-Moves port (p ∷ ps) w h e)

  flush_packets-Moves :
      (i : ℕ) (ps : List Packet) (w : World)
      → i < max_clients
      → w.places.nf_rx_buf i ≡ ps
      → Moves a 0 w (flush_packets d i ps w)
  unfolding flush_packets
  flush_packets-Moves i ps w h e = record {
    tables_kept = w3.tables_kept ∙ w2.tables_kept;
    ports = w3.ports ∙ w2.ports;
    counted = omega (
      arith,
      total-rx_q a w.places i after.1 h,
      ap (amount a) (ok.bulk (w.places.rx_q i) ps),
      ring_amount a after.0 (w.places.rx_q i) ps,
      w2.counted,
      w3.counted,
      emptied_total a i done.places h,
      ap (amount a) (ap (λ f. f i) kept ∙ e),
    );
  }
    where
      after : Enqueued × List Packet
      after = d.ring_enqueue_bulk (w.places.rx_q i) ps

      w1 : World
      w1 = (fill_ring d i ps w).1

      w2 : Moves a 0 w1 (react d after.0 i ps w1)
      w2 = react-Moves a d after.0 i ps w1

      done : World
      done = account after.0 i ps (react d after.0 i ps w1)

      w3 : Moves a (amount a (refused after.0 ps)) (react d after.0 i ps w1) done
      w3 = account-Moves a after.0 i ps (react d after.0 i ps w1)

      kept : done.places.nf_rx_buf ≡ w.places.nf_rx_buf
      kept =
          account-nf_rx_buf after.0 i ps (react d after.0 i ps w1)
          ∙ ap (λ s. s.nf_rx_buf) (react-places d after.0 i ps w1)

  pub flush_nf-Moves :
      (i : ℕ) (w : World) → i < max_clients → Moves a 0 w (onvm_pkt_flush_nf_queue d i w)
  unfolding onvm_pkt_flush_nf_queue
  flush_nf-Moves i w h = by_buf (w.places.nf_rx_buf i) refl
    where
      by_buf :
          (ps : List Packet)
          → w.places.nf_rx_buf i ≡ ps
          → Moves a 0 w (onvm_pkt_flush_nf_queue d i w)
      by_buf [] e = rw (e, onvm_pkt_flush_nf_queue) (Moves-refl a w)
      by_buf (p ∷ ps) e = elim (Bool-cases (onvm_nf_is_valid w i)) [
        | inl valid ↦ rw (e, onvm_pkt_flush_nf_queue, valid) (flush_packets-Moves i (p ∷ ps) w h e)
        | inr not_valid ↦ rw (e, onvm_pkt_flush_nf_queue, not_valid) (Moves-refl a w)
      ]

  -- Flushing a run of queues.
  each_below-Moves :
      (n i j : ℕ) (step : ℕ → World → World) (w : World)
      → i + n ≤ j
      → ((k : ℕ) (u : World)
          → k < j
          → u.places.num_ports ≡ w.places.num_ports
          → Moves a 0 u (step k u))
      → Moves a 0 w (each_below n i step w)
  unfolding each_below
  each_below-Moves zero i j step w le each = Moves-refl a w
  each_below-Moves (suc n) i j step w le each =
      let first = each i w (omega arith) refl in
      Moves-trans first (
        each_below-Moves n (i + 1) j step (step i w) (omega arith)
          (λ k u hk same. each k u hk (same ∙ first.ports)))

  pub flush_all_ports-Moves : (w : World) → Moves a 0 w (onvm_pkt_flush_all_ports d w)
  unfolding onvm_pkt_flush_all_ports
  flush_all_ports-Moves w =
      each_below-Moves w.places.num_ports 0 w.places.num_ports (onvm_pkt_flush_port_queue d) w
        (omega arith) (λ k u hk same. flush_port-Moves k u (subst (λ m. k < m) (sym same) hk))

  pub flush_all_nfs-Moves : (w : World) → Moves a 0 w (onvm_pkt_flush_all_nfs d w)
  unfolding onvm_pkt_flush_all_nfs
  flush_all_nfs-Moves w =
      each_below-Moves max_clients 0 max_clients (onvm_pkt_flush_nf_queue d) w (omega arith)
        (λ k u hk same. flush_nf-Moves k u hk)
