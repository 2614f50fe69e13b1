-- ===== src/Threads/Safe.antt =====
-- However the threads, the NFs and the requests interleave.
use nfvnice_source.Mgr.{Packet, Places, FlowEntry, World, Dpdk, Documented, max_clients}
use nfvnice_source.Nf.Range.{onvm_nf_check_status-InRange}
use nfvnice_source.Pkt.Count.{amount, amount-append}
use nfvnice_source.Pkt.Moves.{InRange, Moves, InRange-Moves}
use nfvnice_source.Pkt.Batch.{same-Moves}
use nfvnice_source.Pkt.Tx.Total.{Chained, Chained-Moves}
use nfvnice_source.Prelude.{
  ℕ, ◌+◌, ◌≤◌, ◌<◌, ◌≡◌, sym, ap, subst, ◌∙◌, true, none, some, List, ◌++◌, arith,
}
use nfvnice_source.Threads.{TxRings, receive, serve, flush}
use nfvnice_source.Threads.Everywhere.{
  everywhere, queued_total, everywhere-store, everywhere-tx_q, everywhere-world, everywhere-nf,
  serve-counts, serve_total,
}
use nfvnice_source.Threads.Handlers.{Bursts, receive-Moves, flush-Moves}
use nfvnice_source.Threads.Manage.{view-check_status}
use nfvnice_source.Threads.Quiet.{handle_wakeup-places, handle_wakeup-tables}
use nfvnice_source.Threads.Share.{tx_serves}
use nfvnice_source.Threads.System.{
  System, Config, load, store, Step, receives, serves, flushes, manages, wakes_up, nf_works, Reach,
  here, next,
}
use nfvnice_source.Wake.{handle_wakeup}

-- There is a port, every flow entry has its chain, the NFs of the services have identifiers below 32, and
-- every packet buffer is in the system as often as it was received.
pub record Sound (c : Config) (s : System) : Type 0 where
  pub ports : 0 < s.world.places.num_ports
  pub in_range : InRange s.world
  pub chained : Chained s.world
  pub counted : (a : ℕ) → everywhere c a s ≡ amount a s.received

module _ (c : Config) (r : TxRings) (d : Dpdk) (small : c.static_clients ≤ max_clients)
    (bursts : Bursts r) (ok : Documented d) where
  -- A thread's work, with what it has received and what it has taken off a transmit ring.
  work-Sound :
      (t : ℕ) (n : ℕ → ℕ) (w : World) (tx_q : ℕ → List Packet) (received : List Packet) (s : System)
      → Sound c s
      → t < c.tx_lcores + c.rx_lcores
      → ((a : ℕ) → Moves a (n a) (load t s) w)
      → ((a : ℕ)
          → queued_total a tx_q + n a + amount a s.received
            ≡ queued_total a s.tx_q + amount a received)
      → Sound c (record (store t w s) { tx_q = tx_q; received = received })
  unfolding Chained
  work-Sound t n w tx_q received s v h moves queued = record {
    ports = subst (λ m. 0 < m) (sym (moves 0).ports) v.ports;
    in_range = InRange-Moves (moves 0) v.in_range;
    chained = Chained-Moves d ok (moves 0) v.chained;
    counted = λ a. omega (
      arith,
      everywhere-store c a s t (n a) w h (moves a),
      everywhere-tx_q c a (store t w s) tx_q received,
      queued a,
      v.counted a,
    );
  }

  served_below : (k i : ℕ) → tx_serves c.static_clients c.tx_lcores k i ≡ true → i < max_clients
  served_below k i e = ground (arith, small, e)

  -- A change of the shared state that moves no packet.
  still-Sound :
      (w : World) (s : System)
      → Sound c s
      → w.places ≡ s.world.places
      → InRange w
      → Chained w
      → Sound c (record s { world = w })
  still-Sound w s v e range chained = record {
    ports = subst (λ (p : Places). 0 < p.num_ports) (sym e) v.ports;
    in_range = range;
    chained = chained;
    counted = λ a. everywhere-world c a s w e ∙ v.counted a;
  }

  tx-Sound :
      (k i : ℕ) (tx_q : ℕ → List Packet) (w : World) (s : System)
      → Sound c s
      → k < c.tx_lcores
      → tx_serves c.static_clients c.tx_lcores k i ≡ true
      → serve r d i (s.tx_q, load k s) ≡ some (tx_q, w)
      → Sound c (record (store k w s) { tx_q = tx_q })
  tx-Sound k i tx_q w s v h given e =
      work-Sound k (λ a. (served a).0) w tx_q s.received s v (omega arith) (λ a. (served a).1)
        (λ a. omega (arith, (served a).2))
    where
      served :
          (a : ℕ)
          → (n : ℕ) × Moves a n (load k s) w × (queued_total a tx_q + n ≡ queued_total a s.tx_q)
      served a =
          serve-counts r bursts d ok a i s.tx_q tx_q (load k s) w (served_below k i given)
            v.in_range e

  pub Step-Sound : (s t : System) → Sound c s → Step c r d s t → Sound c t
  unfolding Chained
  Step-Sound s t v (receives k pkts h e) =
      let thread = c.tx_lcores + k in
      subst (Sound c) (sym e) (
        work-Sound thread (λ a. amount a pkts) (receive d pkts (load thread s)) s.tx_q
          (s.received ++ pkts) s v (omega arith)
          (λ a. receive-Moves d ok a pkts (load thread s) v.ports v.in_range)
          (λ a. omega (arith, amount-append a s.received pkts)))
  Step-Sound s t v (serves k i tx_q w h given served e) =
      subst (Sound c) (sym e) (tx-Sound k i tx_q w s v h given served)
  Step-Sound s t v (flushes k h e) = subst (Sound c) (sym e) (
      work-Sound k (λ a. 0) (flush d (load k s)) s.tx_q s.received s v (omega arith)
        (λ a. flush-Moves d ok a (load k s)) (λ a. omega arith))
  Step-Sound s t v (manages calls w done e) =
      let kept = view-check_status calls s.world w done in
      subst (Sound c) (sym e) (
        still-Sound w s v (ap (λ x. x.0) kept)
          (onvm_nf_check_status-InRange calls s.world w done v.in_range)
          (subst (λ (x : ℕ → FlowEntry). (i : ℕ) → ¬ ((x i).sc ≡ none)) (sym (ap (λ x. x.1) kept))
            v.chained))
  Step-Sound s t v (wakes_up info e) =
      let w = (handle_wakeup info s.world).1 in
      let m =
        same-Moves 0 s.world w (handle_wakeup-places info s.world)
          (handle_wakeup-tables info s.world) in
      subst (Sound c) (sym e) (
        still-Sound w s v (handle_wakeup-places info s.world) (InRange-Moves m v.in_range)
          (Chained-Moves d ok m v.chained))
  Step-Sound s t v (nf_works i rx tx held freed h kept e) = subst (Sound c) (sym e) (record {
    ports = v.ports;
    in_range = v.in_range;
    chained = v.chained;
    counted = λ a. everywhere-nf c a s i rx tx held freed h (kept a) ∙ v.counted a;
  })

  -- At most 32 clients are given at the start, and the calls of DPDK do what their documentation says.
  -- The threads receive, serve clients and flush, NFs change, keep, pass on and free packets, requests
  -- of NFs are handled and NFs are woken, in whichever order: from a state where there is a port, every
  -- flow entry has its chain, the NFs of the services have identifiers below 32, and every packet buffer
  -- is in the rings, in the buffers of the threads, with the NFs, on the ports, freed or let go of as
  -- often as it was received, only such states are reached.
  pub Reach-Sound : (s t : System) → Sound c s → Reach c r d s t → Sound c t
  Reach-Sound s t v here = v
  Reach-Sound s t v (next {t = u} reach step) = Step-Sound u t (Reach-Sound s u v reach) step

  -- No client is served with a read through NULL.
  pub Reach-serves :
      (s t : System) (k i : ℕ)
      → Sound c s
      → Reach c r d s t
      → (x : (ℕ → List Packet) × World) × (serve r d i (t.tx_q, load k t) ≡ some x)
  unfolding Chained
  Reach-serves s t k i v reach =
      let u = Reach-Sound s t v reach in
      serve_total r bursts d ok 0 i t.tx_q (load k t) u.in_range u.chained
