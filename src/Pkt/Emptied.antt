-- ===== src/Pkt/Emptied.antt =====
-- What flushing leaves in the buffers of the ports, in onvm/onvm_mgr/onvm_pkt.c.
use nfvnice_source.Mgr.{Packet, World, Dpdk, Enqueued, onvm_nf_is_valid}
use nfvnice_source.Pkt.{
  onvm_pkt_flush_port_queue, send_burst, account, flush_packets, onvm_pkt_flush_nf_queue,
  each_below, onvm_pkt_flush_all_ports, onvm_pkt_flush_all_nfs, fill_ring,
}
use nfvnice_source.Pkt.Moves.{drop_batch-queues, react, react-places}
use nfvnice_source.Prelude.{
  ℕ, zero, suc, ◌+◌, ◌≤◌, ◌<◌, ◌≡◌, inl, inr, refl, ap, ◌∙◌, List, [], ◌∷◌, Bool, true, false,
  Bool-cases, arith, drop, if◌then◌else◌, ◌==◌, ==_iff,
}

module _ (d : Dpdk) where
  -- One port.
  flush_port-bufs :
      (port : ℕ) (w : World) (j : ℕ)
      → (onvm_pkt_flush_port_queue d port w).places.port_tx_buf j
        ≡ (if j == port then [] else w.places.port_tx_buf j)
  unfolding onvm_pkt_flush_port_queue send_burst
  flush_port-bufs port w j = by_buf (w.places.port_tx_buf port) refl
    where
      Result : World → Type 0
      Result w' = w'.places.port_tx_buf j ≡ (if j == port then [] else w.places.port_tx_buf j)

      by_buf :
          (burst : List Packet)
          → w.places.port_tx_buf port ≡ burst
          → Result (onvm_pkt_flush_port_queue d port w)
      by_buf [] e =
          rw (e, onvm_pkt_flush_port_queue)
            (elim (Bool-cases (j == port)) [
              | inl same ↦ rw same (ap w.places.port_tx_buf ((==_iff j port).0 same) ∙ e)
              | inr other ↦ rw other refl
            ])
      by_buf (p ∷ ps) e =
          rw (e, onvm_pkt_flush_port_queue)
            (ap (λ (f : ℕ → List Packet). if j == port then [] else f j)
              (drop_batch-queues (drop (d.eth_tx_burst port (w.places.sent port) (p ∷ ps)) (p ∷ ps))
                w).1)

  -- A run of ports.
  each_below-bufs :
      (n i : ℕ) (w : World) (j : ℕ)
      → (i ≤ j
          → j < i + n
          → (each_below n i (onvm_pkt_flush_port_queue d) w).places.port_tx_buf j ≡ [])
        × (w.places.port_tx_buf j ≡ []
            → (each_below n i (onvm_pkt_flush_port_queue d) w).places.port_tx_buf j ≡ [])
  unfolding each_below
  each_below-bufs zero i w j = (λ le lt. absurd (omega arith), λ e. e)
  each_below-bufs (suc n) i w j =
      let w1 = onvm_pkt_flush_port_queue d i w in
      let (later, still) = each_below-bufs n (i + 1) w1 j in
      (
        λ le lt. elim (Bool-cases (j == i)) [
          | inl same ↦ still (flush_port-bufs i w j ∙ rw same refl)
          | inr other ↦ later (ground arith) (omega arith)
        ],
        λ e. still (flush_port-bufs i w j ∙ kept e),
      )
    where
      kept : w.places.port_tx_buf j ≡ [] → (if j == i then [] else w.places.port_tx_buf j) ≡ []
      kept e = by_test (j == i) (w.places.port_tx_buf j) e
        where
          by_test : (b : Bool) (x : List Packet) → x ≡ [] → (if b then [] else x) ≡ []
          by_test true x h = refl
          by_test false x h = h

  -- The NFs have buffers of their own.
  account-port_tx_buf :
      (status : Enqueued) (i : ℕ) (ps : List Packet) (w : World)
      → (account status i ps w).places.port_tx_buf ≡ w.places.port_tx_buf
  unfolding account
  account-port_tx_buf Enqueued.stored i ps w = refl
  account-port_tx_buf Enqueued.quota i ps w = refl
  account-port_tx_buf Enqueued.no_bufs i ps w = (drop_batch-queues ps w).1

  flush_nf-port_tx_buf :
      (i : ℕ) (w : World)
      → (onvm_pkt_flush_nf_queue d i w).places.port_tx_buf ≡ w.places.port_tx_buf
  unfolding onvm_pkt_flush_nf_queue flush_packets
  flush_nf-port_tx_buf i w = by_buf (w.places.nf_rx_buf i) refl
    where
      by_buf :
          (ps : List Packet)
          → w.places.nf_rx_buf i ≡ ps
          → (onvm_pkt_flush_nf_queue d i w).places.port_tx_buf ≡ w.places.port_tx_buf
      by_buf [] e = rw (e, onvm_pkt_flush_nf_queue) refl
      by_buf (p ∷ ps) e = elim (Bool-cases (onvm_nf_is_valid w i)) [
        | inl valid ↦ rw (e, onvm_pkt_flush_nf_queue, valid) flushed
        | inr not_valid ↦ rw (e, onvm_pkt_flush_nf_queue, not_valid) refl
      ]
        where
          status : Enqueued
          status = (d.ring_enqueue_bulk (w.places.rx_q i) (p ∷ ps)).0

          w1 : World
          w1 = (fill_ring d i (p ∷ ps) w).1

          flushed : (flush_packets d i (p ∷ ps) w).places.port_tx_buf ≡ w.places.port_tx_buf
          flushed =
              account-port_tx_buf status i (p ∷ ps) (react d status i (p ∷ ps) w1)
              ∙ ap (λ s. s.port_tx_buf) (react-places d status i (p ∷ ps) w1)

  each_below-port_tx_buf :
      (n i : ℕ) (w : World)
      → (each_below n i (onvm_pkt_flush_nf_queue d) w).places.port_tx_buf ≡ w.places.port_tx_buf
  unfolding each_below
  each_below-port_tx_buf zero i w = refl
  each_below-port_tx_buf (suc n) i w =
      each_below-port_tx_buf n (i + 1) (onvm_pkt_flush_nf_queue d i w) ∙ flush_nf-port_tx_buf i w

  -- After flushing no packet waits for a port that is there.
  pub flush_all-bufs :
      (w : World) (j : ℕ)
      → j < w.places.num_ports
      → (onvm_pkt_flush_all_nfs d (onvm_pkt_flush_all_ports d w)).places.port_tx_buf j ≡ []
  unfolding onvm_pkt_flush_all_ports onvm_pkt_flush_all_nfs
  flush_all-bufs w j lt =
      ap (λ (f : ℕ → List Packet). f j) (each_below-port_tx_buf 32 0 (onvm_pkt_flush_all_ports d w))
      ∙ (each_below-bufs w.places.num_ports 0 w j).0 (omega arith) (omega arith)
