-- ===== src/Threads/Everywhere.antt =====
-- Counting a packet buffer over the whole system: the rings and ports, the buffers of all threads, the
-- transmit rings and the hands of the NFs.
use nfvnice_source.Mgr.{
  Packet, Places, World, Dpdk, Documented, max_clients, packet_read_size, onvm_nf_is_valid,
}
use nfvnice_source.Pkt.Count.{amount, amount-append, total}
use nfvnice_source.Pkt.Moves.{InRange, Moves, Moves-refl}
use nfvnice_source.Pkt.Tx.Total.{Chained}
use nfvnice_source.Prelude.{
  ℕ, ◌+◌, ◌<◌, ◌≡◌, refl, ap, subst, Bool, true, false, Option, none, some, List, arith, update,
  if◌then◌else◌, some_inj, none-some,
}
use nfvnice_source.Prelude.Sum.{sum_below, sum_update}
use nfvnice_source.Threads.{TxRings, process_client, serve}
use nfvnice_source.Threads.Handlers.{Bursts, process_client-Moves, process_client_total}
use nfvnice_source.Threads.System.{Bufs, System, Config, load, bufs_of, store, nf_leaves}

unfoldable pub shared_total : ℕ → Places → ℕ
shared_total a p =
    sum_below max_clients (λ i. amount a (p.rx_q i))
    + sum_below p.num_ports (λ i. amount a (p.sent i))
    + amount a p.freed
    + amount a p.lost

unfoldable pub bufs_total : ℕ → ℕ → Bufs → ℕ
bufs_total a num_ports b =
    sum_below max_clients (λ i. amount a (b.nf_rx_buf i))
    + sum_below num_ports (λ i. amount a (b.port_tx_buf i))

total-parts :
    (a : ℕ) (w : World)
    → total a w.places ≡ shared_total a w.places + bufs_total a w.places.num_ports (bufs_of w)
unfolding total shared_total bufs_total
total-parts a w = omega arith

abbrev pub queued_total : ℕ → (ℕ → List Packet) → ℕ
queued_total a tx_q = sum_below max_clients (λ i. amount a (tx_q i))

-- How often the buffer `a` is anywhere.
unfoldable pub everywhere : Config → ℕ → System → ℕ
everywhere c a s =
    shared_total a s.world.places
    + sum_below (c.tx_lcores + c.rx_lcores)
        (λ k. bufs_total a s.world.places.num_ports (s.threads k))
    + queued_total a s.tx_q
    + amount a s.held

module _ (c : Config) (a : ℕ) (s : System) where
  -- A thread brings in what its work brings in.
  pub everywhere-store :
      (t n : ℕ) (w : World)
      → t < c.tx_lcores + c.rx_lcores
      → Moves a n (load t s) w
      → everywhere c a (store t w s) ≡ everywhere c a s + n
  unfolding everywhere shared_total
  everywhere-store t n w h v = omega (
    arith,
    v.counted,
    total-parts a w,
    total-parts a (load t s),
    sum_update (bufs_total a w.places.num_ports) s.threads t (bufs_of w) (c.tx_lcores + c.rx_lcores)
        h,
    ap (λ m. sum_below (c.tx_lcores + c.rx_lcores) (λ k. bufs_total a m (s.threads k))) v.ports,
    ap (λ m. bufs_total a m (s.threads t)) v.ports,
  )

  pub everywhere-tx_q :
      (tx_q : ℕ → List Packet) (received : List Packet)
      → everywhere c a (record s { tx_q = tx_q; received = received }) + queued_total a s.tx_q
        ≡ everywhere c a s + queued_total a tx_q
  unfolding everywhere
  everywhere-tx_q tx_q received = omega arith

  pub everywhere-world :
      (w : World)
      → w.places ≡ s.world.places
      → everywhere c a (record s { world = w }) ≡ everywhere c a s
  unfolding everywhere
  everywhere-world w e = ap (λ p. everywhere c a (record s { world = record w { places = p } })) e

  pub everywhere-nf :
      (i : ℕ) (rx tx held freed : List Packet)
      → i < max_clients
      → amount a rx + amount a tx + amount a held + amount a freed
        ≡ amount a (s.world.places.rx_q i)
          + amount a (s.tx_q i)
          + amount a s.held
          + amount a s.world.places.freed
      → everywhere c a (nf_leaves i rx tx held freed s) ≡ everywhere c a s
  unfolding everywhere shared_total
  everywhere-nf i rx tx held freed h e = omega (
    arith,
    e,
    sum_update (amount a) s.world.places.rx_q i rx max_clients h,
    sum_update (amount a) s.tx_q i tx max_clients h,
  )

module _ (r : TxRings) (bursts : Bursts r) (d : Dpdk) (ok : Documented d) (a : ℕ) where
  -- What a client's transmit ring gives is what the thread brings in.
  pub serve-counts :
      (i : ℕ) (q q' : ℕ → List Packet) (w w' : World)
      → i < max_clients
      → InRange w
      → serve r d i (q, w) ≡ some (q', w')
      → (n : ℕ) × Moves a n w w' × (queued_total a q' + n ≡ queued_total a q)
  unfolding serve
  serve-counts i q q' w w' h range e = by_valid (onvm_nf_is_valid w i) e
    where
      pkts : List Packet
      pkts = (r.dequeue_burst (q i) packet_read_size).0

      rest : List Packet
      rest = (r.dequeue_burst (q i) packet_read_size).1

      Result : Type 0
      Result = (n : ℕ) × Moves a n w w' × (queued_total a q' + n ≡ queued_total a q)

      by_result :
          (o : Option World)
          → process_client d i pkts w ≡ o
          → (elim o as (λ _. Option ((ℕ → List Packet) × World)) [
            | none ↦ none
            | some u ↦ some (update q i rest, u)
          ])
            ≡ some (q', w')
          → Result
      by_result none p e = absurd (none-some e)
      by_result (some u) p e =
          subst
            (λ (x : (ℕ → List Packet) × World).
              (n : ℕ) × Moves a n w x.1 × (queued_total a x.0 + n ≡ queued_total a q))
            (some_inj e)
            (
              amount a pkts,
              process_client-Moves d ok a i pkts w u range p,
              omega (
                arith,
                sum_update (amount a) q i rest max_clients h,
                amount-append a pkts rest,
                ap (amount a) (bursts.burst (q i) packet_read_size),
              ),
            )

      by_valid :
          (valid : Bool)
          → (if valid
              then elim (process_client d i pkts w) as (λ _. Option ((ℕ → List Packet) × World)) [
                | none ↦ none
                | some u ↦ some (update q i rest, u)
              ]
              else some (q, w))
            ≡ some (q', w')
          → Result
      by_valid true e = by_result (process_client d i pkts w) refl e
      by_valid false e =
          subst
            (λ (x : (ℕ → List Packet) × World).
              (n : ℕ) × Moves a n w x.1 × (queued_total a x.0 + n ≡ queued_total a q))
            (some_inj e) (0, Moves-refl a w, omega arith)

  -- A client is served where no flow entry lacks its chain.
  pub serve_total :
      (i : ℕ) (q : ℕ → List Packet) (w : World)
      → InRange w
      → Chained w
      → (x : (ℕ → List Packet) × World) × (serve r d i (q, w) ≡ some x)
  unfolding serve
  serve_total i q w range chained = by_valid (onvm_nf_is_valid w i)
    where
      pkts : List Packet
      pkts = (r.dequeue_burst (q i) packet_read_size).0

      rest : List Packet
      rest = (r.dequeue_burst (q i) packet_read_size).1

      by_valid :
          (valid : Bool)
          → (x : (ℕ → List Packet) × World) × ((if valid
                then elim (process_client d i pkts w) as (λ _. Option ((ℕ → List Packet) × World)) [
                  | none ↦ none
                  | some u ↦ some (update q i rest, u)
                ]
                else some (q, w))
              ≡ some x)
      by_valid true =
          let (u, e) = process_client_total d ok a i pkts w range chained in
          ((update q i rest, u), rw e refl)
      by_valid false = ((q, w), refl)
