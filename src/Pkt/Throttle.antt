-- ===== src/Pkt/Throttle.antt =====
-- What back pressure does to the packets: a chain is throttled while one of its positions is marked.
use mathlib.Core.Bool.{true≢false}
use nfvnice_source.Bits.{test_bit}
use nfvnice_source.Bits.Laws.{IsPosition}
use nfvnice_source.Bkpr.{
  clear_mark, read_one, read_rounds, ttl_nodes, oldest, take_oldest, read_all_ft_frm_cl_bft,
}
use nfvnice_source.Bkpr.Clear.{
  InWord, AreBytes, marked, names, clear_mark-AreBytes, read_all_ft_frm_cl_bft_lem,
}
use nfvnice_source.Bkpr.Ring.{Mark, Holds}
use nfvnice_source.Mgr.{Packet, World, on_client}
use nfvnice_source.Pkt.{is_throttled}
use nfvnice_source.Prelude.{
  ℕ, zero, suc, ◌≤◌, ◌<◌, ◌≡◌, ◌↔◌, inl, inr, refl, sym, ap, subst, ◌∙◌, Bool, true, false, not,
  ◌||◌, Bool-cases, List, Option, none, some, if◌then◌else◌, arith, table, table-row, ==_iff, ◌==◌,
}

-- Some position up to `k` is marked.
marked_below : ℕ → ℕ → Bool
marked_below x zero = false
marked_below x (suc k) = test_bit x (suc k) || marked_below x k

word_table : table 256 (λ x. (x == 0) || marked_below x 8) ≡ true
unfolding table marked_below test_bit
word_table = refl

marked_below-some :
    (x k : ℕ) → marked_below x k ≡ true → (j : ℕ) × (1 ≤ j) × (j ≤ k) × (test_bit x j ≡ true)
unfolding marked_below
marked_below-some x zero h = absurd (true≢false (sym h))
marked_below-some x (suc k) h = elim (Bool-cases (test_bit x (suc k))) [
  | inl here ↦ (suc k, omega arith, omega arith, here)
  | inr other ↦
      let (j, lo, hi, t) = marked_below-some x k (ground (arith, h, other)) in
      (j, lo, omega arith, t)
]

marked_below-all : (x k j : ℕ) → 1 ≤ j → j ≤ k → test_bit x j ≡ true → marked_below x k ≡ true
unfolding marked_below
marked_below-all x zero j lo hi t = absurd (omega arith)
marked_below-all x (suc k) j lo hi t = elim (Bool-cases (j == suc k)) [
  | inl same ↦ ground (arith, subst (λ n. test_bit x n ≡ true) ((==_iff j (suc k)).0 same) t)
  | inr below ↦ ground (arith, marked_below-all x k j lo (ground arith) t)
]

zero_word : marked_below 0 8 ≡ false
unfolding marked_below test_bit
zero_word = refl

-- A word is not 0 exactly if a position is marked.
some_mark :
    (x : ℕ) → x < 256 → (not (x == 0) ≡ true) ↔ ((j : ℕ) × IsPosition j × (test_bit x j ≡ true))
some_mark x h = (
  λ nonzero.
      let (j, lo, hi, t) =
        marked_below-some x 8
          (ground (arith, table-row 256 (λ y. (y == 0) || marked_below y 8) x word_table h)) in
      (j, (lo, hi), t),
  λ (j, (lo, hi), t). elim (Bool-cases (x == 0)) [
    | inl zero_x ↦ absurd (
        true≢false (
          sym (marked_below-all x 8 j lo hi t)
          ∙ ap (λ y. marked_below y 8) ((==_iff x 0).0 zero_x)
          ∙ zero_word))
    | inr nonzero ↦ ap not nonzero
  ],
)

-- A packet at the first NF of its chain is throttled exactly if a position of the chain is marked.
pub is_throttled_iff :
    (w : World) (e c : ℕ) (p : Packet)
    → (w.entries e).sc ≡ some c
    → AreBytes w.chains
    → p.meta.chain_index ≡ 1
    → (is_throttled w (some e) p ≡ true) ↔ ((j : ℕ) × IsPosition j × (marked w c j ≡ true))
unfolding is_throttled
is_throttled_iff w e c p sc bytes first =
    let word = some_mark (w.chains c).overflowing (bytes c) in
    (λ t. word.0 (sym tested ∙ t), λ m. tested ∙ word.1 m)
  where
    first_nf : (p.meta.chain_index == 1) ≡ true
    first_nf = ground arith

    tested : is_throttled w (some e) p ≡ not ((w.chains c).overflowing == 0)
    tested = rw (sc, is_throttled, first_nf) (ground arith)

read_one-entries : (i : ℕ) (w : World) → (read_one i w).entries ≡ w.entries
unfolding read_one clear_mark
read_one-entries i w = ground arith

read_one-AreBytes : (i : ℕ) (w : World) → AreBytes w.chains → AreBytes (read_one i w).chains
unfolding read_one
read_one-AreBytes i w h = by_flow (oldest (w.clients i).bft_list).flow
  where
    by_flow :
        (flow : Option ℕ)
        → let w' : World = elim flow [
          | none ↦ w
          | some entry ↦
              on_client i
                (λ c. record c { bft_list = take_oldest c.bft_list })
                (clear_mark entry (oldest (w.clients i).bft_list).chain_index w)
        ] in
          AreBytes w'.chains
    by_flow none = h
    by_flow (some entry) = clear_mark-AreBytes entry (oldest (w.clients i).bft_list).chain_index w h

-- Reading the list changes no entry and keeps the words.
Kept : World → World → Type 0
Kept w w' = (w'.entries ≡ w.entries) × (AreBytes w.chains → AreBytes w'.chains)

read_rounds-Kept : (n i : ℕ) (w : World) → Kept w (read_rounds n i w)
unfolding read_rounds Kept
read_rounds-Kept zero i w = (refl, λ h. h)
read_rounds-Kept (suc n) i w =
    let (e, b) = read_rounds-Kept n i (read_one i w) in
    (e ∙ read_one-entries i w, λ h. b (read_one-AreBytes i w h))

read_all-Kept : (i : ℕ) (w : World) → Kept w (read_all_ft_frm_cl_bft i w)
unfolding read_all_ft_frm_cl_bft read_rounds
read_all-Kept i w = by_test ((w.clients i).bft_list.w_h == (w.clients i).bft_list.r_h)
  where
    by_test :
        (is_empty : Bool)
        → Kept w (if is_empty then w else read_rounds (ttl_nodes (w.clients i).bft_list) i w)
    by_test true = read_rounds-Kept zero i w
    by_test false = read_rounds-Kept (ttl_nodes (w.clients i).bft_list) i w

-- The list of an NF holds the marks `ms`, all at positions 1 to 8, the words of the chains are
-- bytes, and the list is drained: afterwards a packet at the first NF of the chain of its flow
-- entry is throttled exactly if a position of the chain was marked that none of `ms` names.
pub read_all-is_throttled :
    (i e c : ℕ) (ms : List Mark) (w : World) (p : Packet)
    → (w.entries e).sc ≡ some c
    → Holds (w.clients i).bft_list ms
    → InWord ms
    → AreBytes w.chains
    → p.meta.chain_index ≡ 1
    → (is_throttled (read_all_ft_frm_cl_bft i w) (some e) p ≡ true)
      ↔ ((j : ℕ) × IsPosition j × (marked w c j ≡ true) × (names w.entries ms c j ≡ false))
unfolding Kept
read_all-is_throttled i e c ms w p sc hold word bytes first =
    let w' = read_all_ft_frm_cl_bft i w in
    let (same, keep) = read_all-Kept i w in
    let left = (read_all_ft_frm_cl_bft_lem i ms w hold word bytes).1 in
    let throttles = is_throttled_iff w' e c p (ap (λ es. (es e).sc) same ∙ sc) (keep bytes) first in
    (
      λ t.
          let (j, at, m) = throttles.0 t in
          (j, at, ground (arith, m, left c j at), ground (arith, m, left c j at)),
      λ (j, at, m, unnamed). throttles.1 (j, at, ground (arith, m, unnamed, left c j at)),
    )
