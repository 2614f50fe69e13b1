-- ===== src/Bkpr/Mark.antt =====
-- Marking a position of a chain, and what the list of the NF then knows of it.
use nfvnice_source.Bits.{set_bit, test_bit}
use nfvnice_source.Bits.Laws.{IsPosition, test_bit-set_bit}
use nfvnice_source.Bkpr.{is_full, put, write_ft_to_cl_bft, mark_chain}
use nfvnice_source.Bkpr.Clear.{AreBytes, marked}
use nfvnice_source.Bkpr.Ring.{Mark, Holds, is_full_lem, put-Holds}
use nfvnice_source.Mgr.{World, BacklogRing}
use nfvnice_source.Prelude.{
  ℕ, ◌+◌, ◌≡◌, inl, inr, refl, sym, ap, subst, ◌∙◌, true, false, not, ◌&&◌, ◌||◌, Bool-cases, List,
  [], ◌∷◌, ◌++◌, arith, length, ltb, ◌==◌, if◌then◌else◌, update, ltb→lt,
}

-- The word of the chain after the mark.
raise : ℕ → ℕ → World → World
raise c p w = record w {
  chains =
      update w.chains c
        (record (w.chains c) { overflowing = set_bit 8 (w.chains c).overflowing p });
}

write-chains : (i e p : ℕ) (w : World) → (write_ft_to_cl_bft i e p w).chains ≡ w.chains
unfolding write_ft_to_cl_bft
write-chains i e p w = ground arith

marked-raise :
    (c p : ℕ) (w : World) (c' j : ℕ)
    → AreBytes w.chains
    → IsPosition p
    → IsPosition j
    → marked (raise c p w) c' j ≡ (((c == c') && (p == j)) || marked w c' j)
unfolding raise
marked-raise c p w c' j h hp hj =
    ground (arith, h c, h c', test_bit-set_bit (w.chains c).overflowing p j)

-- Not yet marked, at a position: the word is raised and the list written.
mark_chain-new :
    (i e c p : ℕ) (w : World)
    → IsPosition p
    → marked w c p ≡ false
    → mark_chain i e c p w ≡ write_ft_to_cl_bft i e p (raise c p w)
unfolding mark_chain raise
mark_chain-new i e c p w hp new = rw (new, small, mark_chain) refl
  where
    small : ltb p 1 ≡ false
    small = ground arith

mark_chain-old :
    (i e c p : ℕ) (w : World) → IsPosition p → marked w c p ≡ true → mark_chain i e c p w ≡ w
unfolding mark_chain
mark_chain-old i e c p w hp old = rw (old, small, mark_chain) refl
  where
    small : ltb p 1 ≡ false
    small = ground arith

-- The words of the chains are bytes: marking position `p` from 1 to 8 of chain `c` for an NF marks
-- this position and leaves all others as they are.
pub mark_chain-marked :
    (i e c p : ℕ) (w : World)
    → IsPosition p
    → AreBytes w.chains
    → (c' j : ℕ) → IsPosition j
    → marked (mark_chain i e c p w) c' j ≡ (((c == c') && (p == j)) || marked w c' j)
mark_chain-marked i e c p w hp h c' j hj = elim (Bool-cases (marked w c p)) [
  | inl old ↦ ap (λ v. marked v c' j) (mark_chain-old i e c p w hp old) ∙ absorb old
  | inr new ↦
      ap (λ v. marked v c' j) (mark_chain-new i e c p w hp new)
      ∙ ap (λ k. test_bit (k c').overflowing j) (write-chains i e p (raise c p w))
      ∙ marked-raise c p w c' j h hp hj
]
  where
    absorb : marked w c p ≡ true → marked w c' j ≡ (((c == c') && (p == j)) || marked w c' j)
    absorb old = grind arith

listed : ℕ → ℕ → List Mark → ℕ → List Mark
listed e p ms max_len = if ltb (length ms + 1) max_len then ms ++ (e, p) ∷ [] else ms

write-full :
    (i e p : ℕ) (w : World) → is_full (w.clients i).bft_list ≡ true → write_ft_to_cl_bft i e p w ≡ w
unfolding write_ft_to_cl_bft
write-full i e p w full = rw (full, write_ft_to_cl_bft) refl

write-list :
    (i e p : ℕ) (w : World)
    → is_full (w.clients i).bft_list ≡ false
    → ((write_ft_to_cl_bft i e p w).clients i).bft_list ≡ put (w.clients i).bft_list e p
unfolding write_ft_to_cl_bft
write-list i e p w room = rw (room, write_ft_to_cl_bft, here) refl
  where
    here : (i == i) ≡ true
    here = ground arith

write-Holds :
    (i e p : ℕ) (ms : List Mark) (w : World)
    → Holds (w.clients i).bft_list ms
    → Holds
        ((write_ft_to_cl_bft i e p w).clients i).bft_list
        (listed e p ms (w.clients i).bft_list.max_len)
unfolding listed
write-Holds i e p ms w v = elim (Bool-cases (ltb (length ms + 1) b.max_len)) [
  | inl room ↦ rw (room) (
      subst (λ x. Holds x (ms ++ (e, p) ∷ []))
        (sym (write-list i e p w (is_full_lem b ms v ∙ ap not room)))
        (put-Holds b ms e p v (ltb→lt (length ms + 1) b.max_len room)))
  | inr full ↦ rw (full) (
      subst (λ u. Holds (u.clients i).bft_list ms)
        (sym (write-full i e p w (is_full_lem b ms v ∙ ap not full))) v)
]
  where
    b : BacklogRing
    b = (w.clients i).bft_list

-- The list of an NF holds the marks `ms`, and position `p` from 1 to 8 of a chain is marked for the
-- NF. Afterwards: a position that was marked is not listed again, a new mark is listed last, and
-- where the list is full it is not listed at all.
pub mark_chain-Holds :
    (i e c p : ℕ) (ms : List Mark) (w : World)
    → IsPosition p
    → Holds (w.clients i).bft_list ms
    → Holds ((mark_chain i e c p w).clients i).bft_list (
        if marked w c p
        then ms
        else if ltb (length ms + 1) (w.clients i).bft_list.max_len
        then ms ++ (e, p) ∷ []
        else ms)
unfolding listed raise
mark_chain-Holds i e c p ms w hp v = elim (Bool-cases (marked w c p)) [
  | inl old ↦
      rw (old)
        (subst (λ u. Holds (u.clients i).bft_list ms) (sym (mark_chain-old i e c p w hp old)) v)
  | inr new ↦ rw (new) (
      subst (λ u. Holds (u.clients i).bft_list (listed e p ms (w.clients i).bft_list.max_len))
        (sym (mark_chain-new i e c p w hp new)) (write-Holds i e p ms (raise c p w) v))
]
