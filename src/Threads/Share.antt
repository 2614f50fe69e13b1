-- ===== src/Threads/Share.antt =====
-- Which clients the threads are given.
use nfvnice_source.Threads.{
  ceil_div, temp_num_clients, clients_per_tx, first_cl, last_cl, first_client, last_client,
}
use nfvnice_source.Prelude.{
  ℕ, ap₂, ◌+◌, ◌-◌, ◌*◌, ◌/◌, ◌<◌, ◌≡◌, min, Bool, ltb, leb, ◌&&◌, ◌==◌, arith, Bool-cases, inl,
  inr, refl, ap, ◌∙◌,
}

-- Transmit thread `i` of `t` serves client `k`.
abbrev pub tx_serves : ℕ → ℕ → ℕ → ℕ → Bool
tx_serves num_clients t i k = leb (first_cl num_clients t i) k && ltb k (last_cl num_clients t i)

blocks : (k p i : ℕ) → 0 < p → (leb (i * p) k && ltb k ((i + 1) * p)) ≡ (k / p == i)
blocks k p i h = grind arith

inside : (k n p t : ℕ) → 0 < t → k < n → p ≡ ceil_div n t → k / p < t
inside k n p t h l e = grind arith

per-positive : (n t : ℕ) → 0 < t → 0 < n → 0 < ceil_div n t
per-positive n t h l = grind arith

clipped : (a b k n : ℕ) → (leb (min a n) k && ltb k (min b n)) ≡ (ltb k n && (leb a k && ltb k b))
clipped a b k n = ground arith

-- With a transmit thread there is, for every client, one thread that serves it, if the client is below
-- the number of clients, and no other thread does; a client from that number on is served by none.
pub tx_serves_lem :
    (num_clients t k : ℕ)
    → 0 < t
    → (i : ℕ) × (i < t)
      × ((j : ℕ) → tx_serves num_clients t j k ≡ (ltb k (temp_num_clients num_clients) && (i == j)))
tx_serves_lem num_clients t k h = elim (Bool-cases (ltb k n)) [
  | inl below ↦ (
    k / p,
    inside k n p t h (ground arith) refl,
    λ j.
        clipped (j * p) ((j + 1) * p) k n
        ∙ ap (λ b. ltb k n && b) (blocks k p j (per-positive n t h (ground arith))),
  )
  | inr above ↦ (0, h, λ j. clipped (j * p) ((j + 1) * p) k n ∙ rw above refl)
]
  where
    n : ℕ
    n = temp_num_clients num_clients

    p : ℕ
    p = clients_per_tx num_clients t

-- Wakeup thread `i` of `t` wakes client `k`.
abbrev pub wakes : ℕ → ℕ → ℕ → ℕ → Bool
wakes num_clients t i k =
    leb (first_client num_clients t i) k && ltb k (last_client num_clients t i)

shifted :
    (k p i : ℕ)
    → 0 < p
    → 0 < k
    → (leb (i * p + 1) k && ltb k ((i + 1) * p + 1)) ≡ ((k - 1) / p == i)
shifted k p i h l =
    ap₂ (λ a b. a && b) (before (i * p)) (behind ((i + 1) * p)) ∙ blocks (k - 1) p i h
  where
    before : (x : ℕ) → leb (x + 1) k ≡ leb x (k - 1)
    before x = ground arith

    behind : (x : ℕ) → ltb k (x + 1) ≡ ltb (k - 1) x
    behind x = ground arith
