-- ===== src/Pkt/Moves.antt =====
-- How often a packet buffer comes in between two states, for the steps that queueing and flushing are
-- made of.
use nfvnice_source.Bkpr.{onvm_detect_and_set_back_pressure}
use nfvnice_source.Mgr.{Packet, Places, World, Dpdk, Enqueued, ring_after, max_clients}
use nfvnice_source.Pkt.{onvm_pkt_drop, onvm_pkt_drop_batch, lose, is_stored, account}
use nfvnice_source.Pkt.Count.{
  amount, amount-append, amount-nil, amount-cons, total, total-freed, total-lost, total-nf_rx_buf,
  total-port_tx_buf, total-sent,
}
use nfvnice_source.Pkt.Place.{detect-places, detect-tables, tables}
use nfvnice_source.Prelude.{
  ℕ, ◌+◌, ◌<◌, ◌≡◌, refl, sym, ap, subst, ◌∙◌, Option, List, [], ◌∷◌, ◌++◌, arith, get_or, update,
  if◌then◌else◌,
}

-- The NFs of every service have an identifier that the arrays of clients have.
abbrev pub InRange : World → Type 0
InRange w = (service k : ℕ) → get_or (w.services service) k 0 < max_clients

-- From `w` to `w'` the buffer `a` has come in `n` times, and the tables and the number of
-- ports are as before.
pub record Moves (a n : ℕ) (w w' : World) : Type 0 where
  pub tables_kept : tables w' ≡ tables w
  pub ports : w'.places.num_ports ≡ w.places.num_ports
  pub counted : total a w'.places ≡ total a w.places + n

pub Moves-refl : (a : ℕ) (w : World) → Moves a 0 w w
Moves-refl a w = record { tables_kept = refl; ports = refl; counted = omega arith }

pub Moves-trans :
    {a n m : ℕ} {w w' w'' : World} → Moves a n w w' → Moves a m w' w'' → Moves a (n + m) w w''
Moves-trans u v = record {
  tables_kept = v.tables_kept ∙ u.tables_kept;
  ports = v.ports ∙ u.ports;
  counted = omega (arith, u.counted, v.counted);
}

pub Moves-eq : {a n m : ℕ} {w w' : World} → n ≡ m → Moves a n w w' → Moves a m w w'
Moves-eq e v = record {
  tables_kept = v.tables_kept;
  ports = v.ports;
  counted = omega (arith, v.counted);
}

pub InRange-Moves : {a n : ℕ} {w w' : World} → Moves a n w w' → InRange w → InRange w'
InRange-Moves {w' = w'} v h service k =
    subst (λ (t : (ℕ → List ℕ) × (ℕ → Option ℕ)). get_or (t.0 service) k 0 < max_clients)
      (sym v.tables_kept) (h service k)

pub drop-Moves :
    (a : ℕ) (p : Packet) (w : World) → Moves a (amount a (p ∷ [])) w (onvm_pkt_drop p w)
drop-Moves a p w = record { tables_kept = refl; ports = refl; counted = total-freed a w.places p }

pub lose-Moves : (a : ℕ) (ps : List Packet) (w : World) → Moves a (amount a ps) w (lose ps w)
lose-Moves a ps w = record { tables_kept = refl; ports = refl; counted = total-lost a w.places ps }

pub drop_batch-Moves :
    (a : ℕ) (ps : List Packet) (w : World) → Moves a (amount a ps) w (onvm_pkt_drop_batch ps w)
unfolding onvm_pkt_drop_batch
drop_batch-Moves a [] w = Moves-eq (sym (amount-nil a)) (Moves-refl a w)
drop_batch-Moves a (p ∷ ps) w =
    Moves-eq (sym (amount-cons a p ps))
      (Moves-trans (drop-Moves a p w) (drop_batch-Moves a ps (onvm_pkt_drop p w)))

-- Dropping touches no queue.
pub drop_batch-queues :
    (ps : List Packet) (w : World)
    → ((onvm_pkt_drop_batch ps w).places.sent ≡ w.places.sent)
      × ((onvm_pkt_drop_batch ps w).places.port_tx_buf ≡ w.places.port_tx_buf)
      × ((onvm_pkt_drop_batch ps w).places.nf_rx_buf ≡ w.places.nf_rx_buf)
unfolding onvm_pkt_drop_batch
drop_batch-queues [] w = (refl, refl, refl)
drop_batch-queues (p ∷ ps) w = drop_batch-queues ps (onvm_pkt_drop p w)

-- The buffer of a port gives `xs` to the port and is emptied.
pub sent_total :
    (a port : ℕ) (xs : List Packet) (s : Places)
    → port < s.num_ports
    → total a (record s {
      sent = update s.sent port (s.sent port ++ xs);
      port_tx_buf = update s.port_tx_buf port [];
    })
        + amount a (s.port_tx_buf port)
      ≡ total a s + amount a xs
sent_total a port xs s h =
    let s1 = record s { sent = update s.sent port (s.sent port ++ xs) } in
    omega (
      arith,
      total-sent a s port (s.sent port ++ xs) h,
      amount-append a (s.sent port) xs,
      total-port_tx_buf a s1 port [] h,
      amount-nil a,
    )

-- The buffer of an NF is emptied into nothing.
pub emptied_total :
    (a i : ℕ) (s : Places)
    → i < max_clients
    → total a (record s { nf_rx_buf = update s.nf_rx_buf i [] }) + amount a (s.nf_rx_buf i)
      ≡ total a s
emptied_total a i s h = omega (arith, total-nf_rx_buf a s i [] h, amount-nil a)

-- The packets that are freed because the ring had no room for them.
abbrev pub refused : Enqueued → List Packet → List Packet
refused Enqueued.no_bufs ps = ps
refused _ ps = []

pub account-Moves :
    (a : ℕ) (status : Enqueued) (i : ℕ) (ps : List Packet) (w : World)
    → Moves a (amount a (refused status ps)) w (account status i ps w)
unfolding account
account-Moves a Enqueued.no_bufs i ps w =
    let v = drop_batch-Moves a ps w in
    record { tables_kept = v.tables_kept; ports = v.ports; counted = v.counted }
account-Moves a Enqueued.stored i ps w = record {
  tables_kept = refl;
  ports = refl;
  counted = omega (arith, amount-nil a);
}
account-Moves a Enqueued.quota i ps w = record {
  tables_kept = refl;
  ports = refl;
  counted = omega (arith, amount-nil a);
}

pub account-nf_rx_buf :
    (status : Enqueued) (i : ℕ) (ps : List Packet) (w : World)
    → (account status i ps w).places.nf_rx_buf ≡ w.places.nf_rx_buf
unfolding account
account-nf_rx_buf Enqueued.no_bufs i ps w = (drop_batch-queues ps w).2
account-nf_rx_buf Enqueued.stored i ps w = refl
account-nf_rx_buf Enqueued.quota i ps w = refl

-- A ring and the refused packets take up the packets offered.
pub ring_amount :
    (a : ℕ) (status : Enqueued) (q ps : List Packet)
    → amount a (ring_after status q ps) + amount a (refused status ps) ≡ amount a q + amount a ps
ring_amount a Enqueued.no_bufs q ps = refl
ring_amount a Enqueued.stored q ps = omega (arith, amount-append a q ps, amount-nil a)
ring_amount a Enqueued.quota q ps = omega (arith, amount-append a q ps, amount-nil a)

-- Marking flows after a failed attempt moves nothing.
abbrev pub react : Dpdk → Enqueued → ℕ → List Packet → World → World
react d status i ps w = if is_stored status then w else onvm_detect_and_set_back_pressure d i ps w

pub react-places :
    (d : Dpdk) (status : Enqueued) (i : ℕ) (ps : List Packet) (w : World)
    → (react d status i ps w).places ≡ w.places
react-places d status i ps w = ground (arith, detect-places d i ps w)

pub react-tables :
    (d : Dpdk) (status : Enqueued) (i : ℕ) (ps : List Packet) (w : World)
    → tables (react d status i ps w) ≡ tables w
react-tables d status i ps w = ground (arith, detect-tables d i ps w)

pub react-Moves :
    (a : ℕ) (d : Dpdk) (status : Enqueued) (i : ℕ) (ps : List Packet) (w : World)
    → Moves a 0 w (react d status i ps w)
react-Moves a d status i ps w = record {
  tables_kept = react-tables d status i ps w;
  ports = ap (λ s. s.num_ports) (react-places d status i ps w);
  counted = omega (arith, ap (total a) (react-places d status i ps w));
}
