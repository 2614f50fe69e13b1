-- ===== src/Bkpr/Stale.antt =====
-- A mark that is set, and then the list of the NF is drained: whether the mark is taken back.
use nfvnice_source.Bits.Laws.{IsPosition, set_bit-lt}
use nfvnice_source.Bkpr.{mark_chain, write_ft_to_cl_bft, read_all_ft_frm_cl_bft}
use nfvnice_source.Bkpr.Clear.{
  points_to, InWord, AreBytes, marked, names, read_all_ft_frm_cl_bft_lem,
}
use nfvnice_source.Bkpr.Mark.{mark_chain-marked, mark_chain-Holds}
use nfvnice_source.Bkpr.Ring.{Mark, Holds}
use nfvnice_source.Mgr.{World, FlowEntry}
use nfvnice_source.Prelude.{
  ℕ, ◌+◌, ◌≡◌, refl, sym, ap, subst, ◌∙◌, Bool, true, false, not, ◌&&◌, ◌||◌, List, [], ◌∷◌, ◌++◌,
  some, arith, length, ltb, ◌==◌, if◌then◌else◌,
}

mark_chain-sc :
    (i e c p : ℕ) (w : World) (k : ℕ) → ((mark_chain i e c p w).entries k).sc ≡ (w.entries k).sc
unfolding mark_chain write_ft_to_cl_bft
mark_chain-sc i e c p w k = grind arith

mark_chain-AreBytes :
    (i e c p : ℕ) (w : World) → AreBytes w.chains → AreBytes (mark_chain i e c p w).chains
unfolding mark_chain write_ft_to_cl_bft
mark_chain-AreBytes i e c p w h k = ground (arith, h k, set_bit-lt (w.chains c).overflowing p)

-- Only the chains of the entries count.
names-sc :
    (es es' : ℕ → FlowEntry) (ms : List Mark) (c j : ℕ)
    → ((k : ℕ) → (es k).sc ≡ (es' k).sc)
    → names es ms c j ≡ names es' ms c j
unfolding names
names-sc es es' [] c j h = refl
names-sc es es' ((e, p) ∷ ms) c j h = rw (h e, names-sc es es' ms c j h) refl

names-append :
    (es : ℕ → FlowEntry) (ms : List Mark) (e p c j : ℕ)
    → names es (ms ++ (e, p) ∷ []) c j ≡ (names es ms c j || (points_to (es e).sc c && (p == j)))
unfolding names
names-append es [] e p c j = ground arith
names-append es ((e', p') ∷ ms) e p c j = ground (arith, names-append es ms e p c j)

InWord-append : (ms : List Mark) (e p : ℕ) → InWord ms → IsPosition p → InWord (ms ++ (e, p) ∷ [])
InWord-append [] e p h hp = (hp, tt)
InWord-append ((e', p') ∷ ms) e p (h, hs) hp = (h, InWord-append ms e p hs hp)

-- The list of NF `i` holds the marks `ms`, all at positions 1 to 8, the words of the chains are
-- bytes, and position `p` from 1 to 8 of the chain `c` of flow entry `e` is not marked. It is
-- marked for the NF, and then the list is drained: the position is still marked exactly if the list
-- was full and none of `ms` names the position.
pub mark_chain-read_all :
    (i e c p : ℕ) (ms : List Mark) (w : World)
    → (w.entries e).sc ≡ some c
    → IsPosition p
    → Holds (w.clients i).bft_list ms
    → InWord ms
    → AreBytes w.chains
    → marked w c p ≡ false
    → marked (read_all_ft_frm_cl_bft i (mark_chain i e c p w)) c p
      ≡ not (ltb (length ms + 1) (w.clients i).bft_list.max_len || names w.entries ms c p)
mark_chain-read_all i e c p ms w sc hp v iw bytes new =
    by_room (ltb (length ms + 1) (w.clients i).bft_list.max_len) (
      subst
        (λ b.
          Holds (w1.clients i).bft_list
            (listed b (ltb (length ms + 1) (w.clients i).bft_list.max_len)))
        new list)
  where
    w1 : World
    w1 = mark_chain i e c p w

    listed : Bool → Bool → List Mark
    listed old room = if old then ms else if room then ms ++ (e, p) ∷ [] else ms

    list :
        Holds
          (w1.clients i).bft_list
          (listed (marked w c p) (ltb (length ms + 1) (w.clients i).bft_list.max_len))
    list = mark_chain-Holds i e c p ms w hp v

    now : marked w1 c p ≡ true
    now = mark_chain-marked i e c p w hp bytes c p hp ∙ ground arith

    drained :
        (ns : List Mark)
        → Holds (w1.clients i).bft_list ns
        → InWord ns
        → marked (read_all_ft_frm_cl_bft i w1) c p ≡ not (names w.entries ns c p)
    drained ns hold word =
        (read_all_ft_frm_cl_bft_lem i ns w1 hold word (mark_chain-AreBytes i e c p w bytes)).1 c p
          hp
        ∙ rw (now, names-sc w1.entries w.entries ns c p (mark_chain-sc i e c p w)) (ground arith)

    here : (points_to (w.entries e).sc c && (p == p)) ≡ true
    here = subst (λ x. (points_to x c && (p == p)) ≡ true) (sym sc) (ground arith)

    by_room :
        (room : Bool)
        → Holds (w1.clients i).bft_list (listed false room)
        → marked (read_all_ft_frm_cl_bft i w1) c p ≡ not (room || names w.entries ms c p)
    by_room true hold =
        drained (ms ++ (e, p) ∷ []) hold (InWord-append ms e p iw hp)
        ∙ ap not (names-append w.entries ms e p c p)
        ∙ ground (arith, here)
    by_room false hold = drained ms hold iw
