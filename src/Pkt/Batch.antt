-- ===== src/Pkt/Batch.antt =====
-- Every packet of a batch ends in exactly one place.
use nfvnice_source.Bkpr.{get_flow_entry, entry_chain}
use nfvnice_source.Mgr.{
  Packet, World, Dpdk, Documented, max_clients, packet_read_size, onvm_nf_is_valid,
}
use nfvnice_source.Pkt.{
  onvm_pkt_drop, onvm_pkt_enqueue_port, push_nf, onvm_pkt_enqueue_nf, onvm_nf_service_to_nf_map,
  throttle, is_throttled, process_rx, process_rx_each, onvm_pkt_process_rx_batch, follow, fresh,
  advance,
}
use nfvnice_source.Pkt.Conserve.{flush_port-Moves, flush_nf-Moves, flush_all_nfs-Moves}
use nfvnice_source.Pkt.Count.{
  amount, amount-append, amount-nil, amount-cons, amount-meta, total, total-nf_rx_buf,
  total-port_tx_buf,
}
use nfvnice_source.Pkt.Moves.{
  InRange, Moves, Moves-refl, Moves-trans, Moves-eq, InRange-Moves, drop-Moves, lose-Moves,
}
use nfvnice_source.Pkt.Place.{tables}
use nfvnice_source.Prelude.{
  ℕ, ◌+◌, ◌%◌, ◌<◌, ◌≡◌, inl, inr, refl, sym, ap, Bool, true, false, Bool-cases, Option, none, some,
  List, [], ◌∷◌, ◌++◌, arith, length, update, leb, ◌==◌, if◌then◌else◌, not,
}

-- A change of the world outside `places`, `services` and the number of ports counts nothing.
pub same-Moves :
    (a : ℕ) (w w' : World) → w'.places ≡ w.places → tables w' ≡ tables w → Moves a 0 w w'
same-Moves a w w' e s = record {
  tables_kept = s;
  ports = ap (λ p. p.num_ports) e;
  counted = omega (arith, ap (total a) e);
}

map-InRange :
    (w : World) (service : ℕ) (p : Packet)
    → InRange w
    → onvm_nf_service_to_nf_map w service p < max_clients
unfolding onvm_nf_service_to_nf_map
map-InRange w service p h = ground (arith, h service (p.rss % w.nf_per_service_count service))

module _ (d : Dpdk) (ok : Documented d) (a : ℕ) where
  pub enqueue_port-Moves :
      (port : ℕ) (p : Packet) (w : World)
      → Moves a (amount a (p ∷ [])) w (onvm_pkt_enqueue_port d port p w)
  unfolding onvm_pkt_enqueue_port
  enqueue_port-Moves port p w = elim (Bool-cases (leb w.places.num_ports port)) [
    | inl out ↦ rw (out, onvm_pkt_enqueue_port) (lose-Moves a (p ∷ []) w)
    | inr inside ↦ elim (Bool-cases (length queued == packet_read_size)) [
      | inl full ↦
          rw (inside, onvm_pkt_enqueue_port, full)
            (Moves-eq (omega arith) (
              Moves-trans (stored (ground arith)) (flush_port-Moves d ok a port w1 (ground arith))))
      | inr room ↦ rw (inside, onvm_pkt_enqueue_port, room) (stored (ground arith))
    ]
  ]
    where
      queued : List Packet
      queued = w.places.port_tx_buf port ++ p ∷ []

      w1 : World
      w1 = record w {
        places = record w.places { port_tx_buf = update w.places.port_tx_buf port queued };
      }

      stored : port < w.places.num_ports → Moves a (amount a (p ∷ [])) w w1
      stored h = record {
        tables_kept = refl;
        ports = refl;
        counted = omega (
          arith,
          total-port_tx_buf a w.places port queued h,
          amount-append a (w.places.port_tx_buf port) (p ∷ []),
        );
      }

  push_nf-Moves :
      (i : ℕ) (p : Packet) (w : World)
      → i < max_clients
      → Moves a (amount a (p ∷ [])) w (push_nf d i p w)
  unfolding push_nf
  push_nf-Moves i p w h = elim (Bool-cases (length queued == packet_read_size)) [
    | inl full ↦
        rw (push_nf, full)
          (Moves-eq (omega arith) (Moves-trans stored (flush_nf-Moves d ok a i w1 h)))
    | inr room ↦ rw (push_nf, room) stored
  ]
    where
      queued : List Packet
      queued = w.places.nf_rx_buf i ++ p ∷ []

      w1 : World
      w1 = record w { places = record w.places { nf_rx_buf = update w.places.nf_rx_buf i queued } }

      stored : Moves a (amount a (p ∷ [])) w w1
      stored = record {
        tables_kept = refl;
        ports = refl;
        counted = omega (
          arith,
          total-nf_rx_buf a w.places i queued h,
          amount-append a (w.places.nf_rx_buf i) (p ∷ []),
        );
      }

  enqueue_nf-Moves :
      (service : ℕ) (p : Packet) (entry : Option ℕ) (w : World)
      → InRange w
      → Moves a (amount a (p ∷ [])) w (onvm_pkt_enqueue_nf d service p entry w)
  unfolding onvm_pkt_enqueue_nf
  enqueue_nf-Moves service p entry w h =
      by_tests (i == 0) (onvm_nf_is_valid w i) (is_throttled w entry p)
    where
      i : ℕ
      i = onvm_nf_service_to_nf_map w service p

      by_tests :
          (none_there valid throttled : Bool)
          → Moves a (amount a (p ∷ [])) w (
              if none_there
              then onvm_pkt_drop p w
              else if not valid
              then onvm_pkt_drop p w
              else if throttled
              then throttle i entry p w
              else push_nf d i p w)
      by_tests true valid throttled = drop-Moves a p w
      by_tests false false throttled = drop-Moves a p w
      by_tests false true true =
          let v = drop-Moves a p w in
          record { tables_kept = v.tables_kept; ports = v.ports; counted = v.counted }
      by_tests false true false = push_nf-Moves i p w (map-InRange w service p h)

  -- Only the address of the packet matters here.
  pub enqueue_nf_like-Moves :
      (service : ℕ) (p q : Packet) (entry : Option ℕ) (w : World)
      → p.buf ≡ q.buf
      → InRange w
      → Moves a (amount a (q ∷ [])) w (onvm_pkt_enqueue_nf d service p entry w)
  enqueue_nf_like-Moves service p q entry w e h =
      Moves-eq (amount-meta a p q e) (enqueue_nf-Moves service p entry w h)

  process_rx-Moves :
      (p : Packet) (w : World) → InRange w → Moves a (amount a (p ∷ [])) w (process_rx d p w)
  unfolding process_rx
  process_rx-Moves p w h = by_chain (entry_chain w (get_flow_entry d p))
    where
      for_chain : ℕ → Packet
      for_chain c = advance (follow (w.chains c) (fresh p))

      by_chain :
          (chain : Option ℕ)
          → Moves a (amount a (p ∷ [])) w (elim chain [
            | some c ↦
                onvm_pkt_enqueue_nf d
                  (for_chain c).meta.destination
                  (for_chain c)
                  (get_flow_entry d p)
                  w
            | none ↦
                onvm_pkt_enqueue_nf d
                  (for_chain w.default_chain).meta.destination
                  (for_chain w.default_chain)
                  none
                  w
          ])
      by_chain (some c) =
          enqueue_nf_like-Moves (for_chain c).meta.destination (for_chain c) p (get_flow_entry d p)
            w refl h
      by_chain none =
          enqueue_nf_like-Moves (for_chain w.default_chain).meta.destination
            (for_chain w.default_chain) p none w refl h

  process_rx_each-Moves :
      (ps : List Packet) (w : World) → InRange w → Moves a (amount a ps) w (process_rx_each d ps w)
  unfolding process_rx_each
  process_rx_each-Moves [] w h = Moves-eq (sym (amount-nil a)) (Moves-refl a w)
  process_rx_each-Moves (p ∷ ps) w h =
      let first = process_rx-Moves p w h in
      Moves-eq (sym (amount-cons a p ps))
        (Moves-trans first (process_rx_each-Moves ps (process_rx d p w) (InRange-Moves first h)))

  pub rx_batch-Moves :
      (ps : List Packet) (w : World)
      → InRange w
      → Moves a (amount a ps) w (onvm_pkt_process_rx_batch d ps w)
  unfolding onvm_pkt_process_rx_batch
  rx_batch-Moves ps w h = Moves-eq (omega arith) (
      Moves-trans (process_rx_each-Moves ps w h)
        (flush_all_nfs-Moves d ok a (process_rx_each d ps w)))

-- A batch from a port, where the calls of DPDK do what its documentation says and the NFs of the
-- services have identifiers below 32: whatever the flow table, the chains, the NFs and the rings
-- are, every packet buffer is afterwards in the rings, the buffers, on the ports, freed or let go
-- of exactly as often as it was before and in the batch together.
pub onvm_pkt_process_rx_batch-conserves :
    (d : Dpdk)
    → Documented d
    → (a : ℕ) (pkts : List Packet) (w : World) → InRange w
    → total a (onvm_pkt_process_rx_batch d pkts w).places ≡ total a w.places + amount a pkts
onvm_pkt_process_rx_batch-conserves d ok a pkts w h = (rx_batch-Moves d ok a pkts w h).counted
