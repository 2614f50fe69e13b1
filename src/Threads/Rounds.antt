-- ===== src/Threads/Rounds.antt =====
-- The rounds of the threads are sequences of steps.
use nfvnice_source.Mgr.{Packet, World, Dpdk, Documented, max_clients}
use nfvnice_source.Pkt.Emptied.{flush_all-bufs}
use nfvnice_source.Prelude.{
  update, subst, ◌∷◌, ℕ, zero, suc, ◌+◌, ◌-◌, ◌≤◌, ◌<◌, ◌≡◌, refl, sym, ap, ◌∙◌, true, Option, none,
  some, List, [], ◌++◌, append-nil, append_assoc, arith, update_self,
}
use nfvnice_source.Threads.{
  TxRings, first_cl, last_cl, receive, rx_ports, rx_round, serve, serve_from, flush, tx_round,
}
use nfvnice_source.Threads.Handlers.{Bursts, flush-Moves}
use nfvnice_source.Threads.Safe.{Sound, Step-Sound, Reach-serves, Reach-Sound}
use nfvnice_source.Threads.Share.{tx_serves}
use nfvnice_source.Threads.System.{
  Bufs, System, Config, load, bufs_of, store, Step, receives, serves, flushes, Reach, here, next,
}

-- A thread finds its buffers as it left them.
load-store : (t : ℕ) (w : World) (s : System) → load t (store t w s) ≡ w
load-store t w s =
    ap
      (λ (b : Bufs). (record w {
        places = record w.places { nf_rx_buf = b.nf_rx_buf; port_tx_buf = b.port_tx_buf };
      }))
      (update_self s.threads (bufs_of w) t)

-- What the ports give in a round from port `i` on, in order.
abbrev pub bursts_of : (ℕ → List Packet) → ℕ → ℕ → List Packet
bursts_of bursts zero i = []
bursts_of bursts (suc n) i = bursts i ++ bursts_of bursts n (i + 1)

-- The numbers `i`, `i + 1`, … of which there are `n`.
unfoldable pub ascending : ℕ → ℕ → List ℕ
ascending zero i = []
ascending (suc n) i = i ∷ ascending n (i + 1)

module _ (c : Config) (r : TxRings) (d : Dpdk) where
  serve_from-next :
      (n i : ℕ) (q q' : ℕ → List Packet) (w w' : World)
      → serve r d i (q, w) ≡ some (q', w')
      → serve_from r d (suc n) i (q, w) ≡ serve_from r d n (i + 1) (q', w')
  unfolding serve_from
  serve_from-next n i q q' w w' e =
      ap
        (λ o. (elim o as (λ _. Option ((ℕ → List Packet) × World)) [
          | none ↦ none
          | some s ↦ serve_from r d n (i + 1) s
        ]))
        e

  Reach-trans : {s t u : System} → Reach c r d s t → Reach c r d t u → Reach c r d s u
  Reach-trans v here = v
  Reach-trans v (next {t = t} w step) = next (Reach-trans v w) step

  one : {s t : System} → Step c r d s t → Reach c r d s t
  one step = next here step

  -- Transmit thread `k` has served the clients of a list one after the other, each once for each time that it
  -- stands in the list.
  pub data Served (k : ℕ) : List ℕ → System → System → Type 0 where
    nobody : {s : System} → Served k [] s s
    and_then :
        {i : ℕ} {is : List ℕ} {s t : System} (tx_q : ℕ → List Packet) (w : World)
        → serve r d i (s.tx_q, load k s) ≡ some (tx_q, w)
        → Served k is (record (store k w s) { tx_q = tx_q }) t
        → Served k (i ∷ is) s t

  module _ (small : c.static_clients ≤ max_clients) (bursts : Bursts r) (ok : Documented d) (k : ℕ)
      (lt : k < c.tx_lcores) where
    -- The result of a loop stands for a state that is reached by serving the clients of a list.
    Result : List ℕ → System → Option ((ℕ → List Packet) × World) → Type 0
    Result is s o = (t : System) × Reach c r d s t × Served k is s t × (o ≡ some (t.tx_q, load k t))

    serve_from-Reach :
        (n i : ℕ) (s : System)
        → Sound c s
        → ((j : ℕ) → i ≤ j → j < i + n → tx_serves c.static_clients c.tx_lcores k j ≡ true)
        → Result (ascending n i) s (serve_from r d n i (s.tx_q, load k s))
    unfolding serve_from Result ascending
    serve_from-Reach zero i s v own = (s, here, nobody, refl)
    serve_from-Reach (suc n) i s v own =
        let ((q, w), e) = Reach-serves c r d small bursts ok s s k i v here in
        let u = record (store k w s) { tx_q = q } in
        let step = serves k i q w lt (own i (omega arith) (omega arith)) e refl in
        let (t, reach, order, f) =
          serve_from-Reach n (i + 1) u (Step-Sound c r d small bursts ok s u v step)
            (λ j l h. own j (omega arith) (omega arith)) in
        (
          t,
          Reach-trans (one step) reach,
          and_then q w e order,
          serve_from-next n i s.tx_q q (load k s) w e
              ∙ ap (λ x. serve_from r d n (i + 1) (q, x)) (sym (load-store k w s))
              ∙ f,
        )

    -- At most 32 clients are given at the start, the calls of DPDK do what their documentation says, and
    -- the state is as `Sound` says. Then the body of `tx_thread_main` for the clients of transmit thread
    -- `k` comes to its end without a read through NULL. It has served each client from the first one of the
    -- thread up to but not including the end of its share, once each and in ascending order, and has then
    -- flushed; what it leaves is reached by these steps of the system and is sound again, and none of its
    -- packets waits for a port that is there.
    pub tx_round-Reach :
        (s : System)
        → Sound c s
        → let first = first_cl c.static_clients c.tx_lcores k in
          let last = last_cl c.static_clients c.tx_lcores k in
          (u : System) × (t : System) × Served k (ascending (last - first) first) s u
          × (t ≡ store k (flush d (load k u)) u)
          × Reach c r d s t
          × Sound c t
          × (tx_round r d first last (s.tx_q, load k s) ≡ some (t.tx_q, load k t))
          × ((j : ℕ) → j < t.world.places.num_ports → (t.threads k).port_tx_buf j ≡ [])
    unfolding tx_round Result flush
    tx_round-Reach s v =
        finish (serve_from-Reach (last - first) first s v (λ j l h. ground (arith, l, h)))
      where
        first : ℕ
        first = first_cl c.static_clients c.tx_lcores k

        last : ℕ
        last = last_cl c.static_clients c.tx_lcores k

        finish :
            Result
              (ascending (last - first) first)
              s
              (serve_from r d (last - first) first (s.tx_q, load k s))
            → (u : System) × (t : System) × Served k (ascending (last - first) first) s u
              × (t ≡ store k (flush d (load k u)) u)
              × Reach c r d s t
              × Sound c t
              × (tx_round r d first last (s.tx_q, load k s) ≡ some (t.tx_q, load k t))
              × ((j : ℕ) → j < t.world.places.num_ports → (t.threads k).port_tx_buf j ≡ [])
        finish (u, reach, order, e) =
            let t = store k (flush d (load k u)) u in
            let all = next reach (flushes k lt refl) in
            (
              u,
              t,
              order,
              refl,
              all,
              Reach-Sound c r d small bursts ok s t v all,
              ap flushed e ∙ ap (λ x. some (u.tx_q, x)) (sym (load-store k (flush d (load k u)) u)),
              emptied,
            )
          where
            flushed : Option ((ℕ → List Packet) × World) → Option ((ℕ → List Packet) × World)
            flushed o = elim o [ none ↦ none | some (tx_q, w) ↦ some (tx_q, flush d w) ]

            w : World
            w = flush d (load k u)

            emptied :
                (j : ℕ)
                → j < w.places.num_ports
                → (update u.threads k (bufs_of w) k).port_tx_buf j ≡ []
            emptied j h =
                ap (λ (b : Bufs). b.port_tx_buf j) (update_self u.threads (bufs_of w) k)
                ∙ flush_all-bufs d (load k u) j
                    (subst (λ m. j < m) (flush-Moves d ok 0 (load k u)).ports h)

  rx_ports-Reach :
      (k : ℕ) (bursts : ℕ → List Packet) (n i : ℕ) (s : System)
      → k < c.rx_lcores
      → (t : System) × Reach c r d s t
        × (rx_ports d bursts n i (load (c.tx_lcores + k) s) ≡ load (c.tx_lcores + k) t)
        × (t.received ≡ s.received ++ bursts_of bursts n i)
        × (t.tx_q ≡ s.tx_q)
  unfolding rx_ports
  rx_ports-Reach k bursts zero i s lt = (s, here, refl, sym (append-nil s.received), refl)
  rx_ports-Reach k bursts (suc n) i s lt =
      let (t, reach, e, got, same) = rx_ports-Reach k bursts n (i + 1) u lt in
      (
        t,
        Reach-trans (one (receives k (bursts i) lt refl)) reach,
        ap (rx_ports d bursts n (i + 1)) (sym (load-store thread w s)) ∙ e,
        got ∙ append_assoc s.received (bursts i) (bursts_of bursts n (i + 1)),
        same,
      )
    where
      thread : ℕ
      thread = c.tx_lcores + k

      w : World
      w = receive d (bursts i) (load thread s)

      u : System
      u = record (store thread w s) { received = s.received ++ bursts i }

  -- Whatever the ports give, what the body of `rx_thread_main` leaves for receive thread `k` is reached by
  -- steps of the system, with which it has received what the ports gave, in their order, and has left the
  -- transmit rings alone.
  pub rx_round-Reach :
      (k : ℕ) (bursts : ℕ → List Packet) (s : System)
      → k < c.rx_lcores
      → (t : System) × Reach c r d s t
        × (rx_round d bursts (load (c.tx_lcores + k) s) ≡ load (c.tx_lcores + k) t)
        × (t.received ≡ s.received ++ bursts_of bursts s.world.places.num_ports 0)
        × (t.tx_q ≡ s.tx_q)
  unfolding rx_round
  rx_round-Reach k bursts s lt = rx_ports-Reach k bursts s.world.places.num_ports 0 s lt
