-- ===== src/Pkt/Count.antt =====
-- Counting a packet over all the places where packets are.
use nfvnice_source.Mgr.{Packet, Places, max_clients}
use nfvnice_source.Prelude.{
  ℕ, ◌+◌, ◌<◌, ◌≡◌, refl, ap, List, [], ◌∷◌, ◌++◌, arith, take, drop, take-append-drop, update,
  ◌==◌, if◌then◌else◌,
}
use nfvnice_source.Prelude.Sum.{sum_below, sum_update}

-- How often the buffer `a` is in a list.
unfoldable pub amount : ℕ → List Packet → ℕ
amount a [] = 0
amount a (p ∷ ps) = (if p.buf == a then 1 else 0) + amount a ps

pub amount-append : (a : ℕ) (ps qs : List Packet) → amount a (ps ++ qs) ≡ amount a ps + amount a qs
unfolding amount
amount-append a [] qs = omega arith
amount-append a (p ∷ ps) qs = omega (arith, amount-append a ps qs)

pub amount-nil : (a : ℕ) → amount a [] ≡ 0
unfolding amount
amount-nil a = refl

pub amount-cons :
    (a : ℕ) (p : Packet) (ps : List Packet) → amount a (p ∷ ps) ≡ amount a (p ∷ []) + amount a ps
unfolding amount
amount-cons a p ps = omega arith

-- Only the address counts.
pub amount-meta : (a : ℕ) (p q : Packet) → p.buf ≡ q.buf → amount a (p ∷ []) ≡ amount a (q ∷ [])
unfolding amount
amount-meta a p q e = ground arith

-- A burst is what the port takes and what it leaves.
pub amount-split :
    (a n : ℕ) (ps : List Packet) → amount a (take n ps) + amount a (drop n ps) ≡ amount a ps
amount-split a n ps =
    omega (arith, amount-append a (take n ps) (drop n ps), ap (amount a) (take-append-drop n ps))

-- How often the buffer is in any place.
unfoldable pub total : ℕ → Places → ℕ
total a s =
    sum_below max_clients (λ i. amount a (s.rx_q i))
    + sum_below max_clients (λ i. amount a (s.nf_rx_buf i))
    + sum_below s.num_ports (λ i. amount a (s.port_tx_buf i))
    + sum_below s.num_ports (λ i. amount a (s.sent i))
    + amount a s.freed
    + amount a s.lost

module _ (a : ℕ) (s : Places) where
  pub total-freed :
      (p : Packet) → total a (record s { freed = p ∷ s.freed }) ≡ total a s + amount a (p ∷ [])
  unfolding total
  total-freed p = omega (arith, amount-cons a p s.freed)

  pub total-lost :
      (ps : List Packet) → total a (record s { lost = ps ++ s.lost }) ≡ total a s + amount a ps
  unfolding total
  total-lost ps = omega (arith, amount-append a ps s.lost)

  module _ (i : ℕ) (q : List Packet) where
    pub total-rx_q :
        i < max_clients
        → total a (record s { rx_q = update s.rx_q i q }) + amount a (s.rx_q i)
          ≡ total a s + amount a q
    unfolding total
    total-rx_q h = omega (arith, sum_update (amount a) s.rx_q i q max_clients h)

    pub total-nf_rx_buf :
        i < max_clients
        → total a (record s { nf_rx_buf = update s.nf_rx_buf i q }) + amount a (s.nf_rx_buf i)
          ≡ total a s + amount a q
    unfolding total
    total-nf_rx_buf h = omega (arith, sum_update (amount a) s.nf_rx_buf i q max_clients h)

    pub total-port_tx_buf :
        i < s.num_ports
        → total a (record s { port_tx_buf = update s.port_tx_buf i q }) + amount a (s.port_tx_buf i)
          ≡ total a s + amount a q
    unfolding total
    total-port_tx_buf h = omega (arith, sum_update (amount a) s.port_tx_buf i q s.num_ports h)

    pub total-sent :
        i < s.num_ports
        → total a (record s { sent = update s.sent i q }) + amount a (s.sent i)
          ≡ total a s + amount a q
    unfolding total
    total-sent h = omega (arith, sum_update (amount a) s.sent i q s.num_ports h)
