-- ===== src/Bkpr/Clear.antt =====
-- When the receive ring of an NF has drained, the marks that its list holds are taken back, and no
-- others.
use nfvnice_source.Bits.{test_bit}
use nfvnice_source.Bits.Laws.{IsPosition, test_bit-clear_bit, clear_bit-lt}
use nfvnice_source.Bkpr.{
  take_oldest, clear_mark, read_one, read_rounds, read_all_ft_frm_cl_bft, ttl_nodes,
}
use nfvnice_source.Bkpr.Ring.{Mark, Holds, oldest-empty, take-Holds, is_empty_lem, ttl_nodes-ge}
use nfvnice_source.Chain.{Chain}
use nfvnice_source.Mgr.{Backlog, FlowEntry, World, on_client}
use nfvnice_source.Prelude.{
  ℕ, zero, suc, ◌≤◌, ◌<◌, ◌≡◌, ◌⊎◌, inl, inr, refl, sym, ap, subst, Bool, true, false, not, ◌&&◌,
  ◌||◌, Bool-cases, Option-cases, List, [], ◌∷◌, Option, none, some, arith, length, ◌==◌,
}

-- The pointer is the chain `c`.
abbrev pub points_to : Option ℕ → ℕ → Bool
points_to none c = false
points_to (some x) c = x == c

-- Some mark of the list names position `j` of chain `c`, by way of the flow table.
unfoldable pub names : (ℕ → FlowEntry) → List Mark → ℕ → ℕ → Bool
names entries [] c j = false
names entries ((e, p) ∷ ms) c j = (points_to (entries e).sc c && (p == j)) || names entries ms c j

-- Every mark is a position that fits the word of its chain.
abbrev pub InWord : List Mark → Type 0
InWord [] = Unit {0}
InWord ((e, p) ∷ ms) = IsPosition p × InWord ms

abbrev pub AreBytes : (ℕ → Chain) → Type 0
AreBytes chains = (c : ℕ) → (chains c).overflowing < 256

-- Whether position `j` of chain `c` is marked as overflowing.
abbrev pub marked : World → ℕ → ℕ → Bool
marked w c j = test_bit (w.chains c).overflowing j

clear_mark-entries : (e p : ℕ) (w : World) → (clear_mark e p w).entries ≡ w.entries
unfolding clear_mark
clear_mark-entries e p w = ground arith

clear_mark-clients : (e p : ℕ) (w : World) → (clear_mark e p w).clients ≡ w.clients
unfolding clear_mark
clear_mark-clients e p w = ground arith

pub clear_mark-AreBytes :
    (e p : ℕ) (w : World) → AreBytes w.chains → AreBytes (clear_mark e p w).chains
unfolding clear_mark
clear_mark-AreBytes e p w h c = elim (Option-cases (w.entries e).sc) [
  | inl no_chain ↦ rw (no_chain, clear_mark) (h c)
  | inr (x, at) ↦ ground (arith, h c, clear_bit-lt (w.chains x).overflowing p)
]

marked-clear_mark :
    (e p : ℕ) (w : World) (c j : ℕ)
    → AreBytes w.chains
    → IsPosition p
    → IsPosition j
    → marked (clear_mark e p w) c j
      ≡ (not (points_to (w.entries e).sc c && (p == j)) && marked w c j)
unfolding clear_mark
marked-clear_mark e p w c j h hp hj =
    ground (arith, h c, test_bit-clear_bit (w.chains c).overflowing p j)

-- One round, on an empty list and on one with a mark.
read_one-empty : (i : ℕ) (w : World) → Holds (w.clients i).bft_list [] → read_one i w ≡ w
unfolding read_one
read_one-empty i w v = rw (oldest-empty (w.clients i).bft_list v, read_one)

abbrev popped : ℕ → Mark → World → World
popped i m w =
    on_client i (λ c. record c { bft_list = take_oldest c.bft_list }) (clear_mark m.0 m.1 w)

read_one-cons :
    (i : ℕ) (m : Mark) (ms : List Mark) (w : World)
    → Holds (w.clients i).bft_list (m ∷ ms)
    → read_one i w ≡ popped i m w
unfolding read_one
read_one-cons i m ms w v =
    let o = (take-Holds (w.clients i).bft_list m ms v).0 in
    rw (o, read_one)
      (ap
        (λ (x : Backlog).
          on_client i (λ c. record c { bft_list = take_oldest c.bft_list })
            (clear_mark m.0 x.chain_index w))
        o)

list_popped :
    (i : ℕ) (m : Mark) (w : World)
    → ((popped i m w).clients i).bft_list ≡ take_oldest (w.clients i).bft_list
list_popped i m w = ground (arith, clear_mark-clients m.0 m.1 w)

popped-Holds :
    (i : ℕ) (m : Mark) (ms : List Mark) (w : World)
    → Holds (w.clients i).bft_list (m ∷ ms)
    → Holds ((popped i m w).clients i).bft_list ms
popped-Holds i m ms w v = rw (list_popped i m w) (take-Holds (w.clients i).bft_list m ms v).1

-- What the loop leaves, for a world in which the list of NF `i` held `ms`.
abbrev Drained : ℕ → List Mark → World → World → Type 0
Drained i ms w w' =
    Holds (w'.clients i).bft_list []
    × ((c j : ℕ) → IsPosition j → marked w' c j ≡ (not (names w.entries ms c j) && marked w c j))

popped-Drained :
    (i e p : ℕ) (ms : List Mark) (w w' : World)
    → IsPosition p
    → AreBytes w.chains
    → Drained i ms (popped i (e, p) w) w'
    → Drained i ((e, p) ∷ ms) w w'
unfolding names
popped-Drained i e p ms w w' hp h (v, marks) = (
  v,
  λ c j hj. ground (
    arith,
    marks c j hj,
    ap (λ es. names es ms c j) (clear_mark-entries e p w),
    marked-clear_mark e p w c j h hp hj,
  ),
)

read_rounds_lem :
    (n i : ℕ) (ms : List Mark) (w : World)
    → Holds (w.clients i).bft_list ms
    → length ms ≤ n
    → InWord ms
    → AreBytes w.chains
    → Drained i ms w (read_rounds n i w)
unfolding read_rounds names
read_rounds_lem zero i [] w v le iw h = (v, λ c j hj. refl)
read_rounds_lem zero i (m ∷ ms) w v le iw h = absurd (omega arith)
read_rounds_lem (suc n) i [] w v le iw h =
    subst (λ x. Drained i [] w (read_rounds n i x)) (sym (read_one-empty i w v))
      (read_rounds_lem n i [] w v (omega arith) iw h)
read_rounds_lem (suc n) i ((e, p) ∷ ms) w v le iw h =
    subst (λ x. Drained i ((e, p) ∷ ms) w (read_rounds n i x)) (sym (read_one-cons i (e, p) ms w v))
      (popped-Drained i e p ms w (read_rounds n i (popped i (e, p) w)) iw.0 h (
        read_rounds_lem n i ms (popped i (e, p) w) (popped-Holds i (e, p) ms w v) (omega arith) iw.1
          (clear_mark-AreBytes e p w h)))

-- The early return, and the loop.
read_all-cases :
    (i : ℕ) (w : World)
    → let b = (w.clients i).bft_list in
      ((b.w_h == b.r_h) ≡ true) × (read_all_ft_frm_cl_bft i w ≡ w)
      ⊎ (read_all_ft_frm_cl_bft i w ≡ read_rounds (ttl_nodes b) i w)
unfolding read_all_ft_frm_cl_bft
read_all-cases i w =
    let b = (w.clients i).bft_list in
    elim (Bool-cases (b.w_h == b.r_h)) [
      | inl e ↦ inl (e, rw (e, read_all_ft_frm_cl_bft))
      | inr e ↦ inr (rw (e, read_all_ft_frm_cl_bft))
    ]

Drained-at_once :
    (i : ℕ) (ms : List Mark) (w : World)
    → Holds (w.clients i).bft_list ms
    → ((w.clients i).bft_list.w_h == (w.clients i).bft_list.r_h) ≡ true
    → Drained i ms w w
unfolding names
Drained-at_once i [] w v e = (v, λ c j hj. refl)
Drained-at_once i (m ∷ ms) w v e =
    absurd (ground (arith, is_empty_lem (w.clients i).bft_list (m ∷ ms) v))

-- The list of NF `i` holds the marks `ms`, all at positions 1 to 8, and the words of the chains are
-- bytes. Draining the list empties it, and at every position of every chain the mark is gone if the
-- list named that position, and as before if not.
pub read_all_ft_frm_cl_bft_lem :
    (i : ℕ) (ms : List Mark) (w : World)
    → Holds (w.clients i).bft_list ms
    → InWord ms
    → AreBytes w.chains
    → let w' = read_all_ft_frm_cl_bft i w in
      Holds (w'.clients i).bft_list []
      × ((c j : ℕ) → IsPosition j → marked w' c j ≡ (not (names w.entries ms c j) && marked w c j))
read_all_ft_frm_cl_bft_lem i ms w v iw h = elim (read_all-cases i w) [
  | inl (e, same) ↦ subst (Drained i ms w) (sym same) (Drained-at_once i ms w v e)
  | inr loop ↦ subst (Drained i ms w) (sym loop) (
      read_rounds_lem (ttl_nodes (w.clients i).bft_list) i ms w v
        (ttl_nodes-ge (w.clients i).bft_list ms v) iw h)
]
