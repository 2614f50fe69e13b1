-- ===== src/Watch/Hole.antt =====
-- The list of chains on a later call: only its first slot is cleared before it is filled again.
use nfvnice_source.Mgr.{World}
use nfvnice_source.Watch.{
  Slot, no_slot, index_from, get_index_of_sc, Extract, count_flow, flag_flow, at_slot, visit_chain,
  active_chain, visit, visit_from, extract_sc_list, mark_slots, clear_slots,
  onvm_mark_all_entries_for_bottleneck, onvm_clear_all_entries_for_bottleneck,
}
use nfvnice_source.Watch.Flows.{flows}
use nfvnice_source.Watch.Layout.{laid_out, position, index-old, at_slot-old}
use nfvnice_source.Watch.Listed.{overflows, written}
use nfvnice_source.Watch.Tally.{member, Distinct}
use nfvnice_source.Prelude.{
  ℕ, zero, suc, ◌+◌, ◌≡◌, inl, inr, refl, sym, ap, ◌∙◌, List, ◌∷◌, some, Bool, true, false,
  Bool-cases, ==_iff, Option-cases, arith, length, update, ◌==◌, if◌then◌else◌,
}

abbrev pub HoldsOwn : (ℕ → Slot) → Type 0
HoldsOwn f = (e : ℕ) → (f e).sc ≡ some e

at_slot-cons :
    (p : ℕ) (g : Slot → Slot) (s : Slot) (slots : List Slot)
    → at_slot (suc p) g (s ∷ slots) ≡ s ∷ at_slot p g slots
unfolding at_slot
at_slot-cons p g s slots = ground arith

written-cons :
    (w : World) (c p : ℕ) (s : Slot) (slots : List Slot)
    → written w c (suc p) (s ∷ slots) ≡ s ∷ written w c p slots
written-cons w c p s slots = elim (Bool-cases (overflows w c)) [
  | inl loud ↦
      rw (loud, at_slot-cons p (count_flow c) s slots)
        (at_slot-cons p flag_flow s (at_slot p (count_flow c) slots))
  | inr quiet ↦ rw quiet (at_slot-cons p (count_flow c) s slots)
]

update-HoldsOwn :
    (f : ℕ → Slot) (c : ℕ) (v : Slot) → HoldsOwn f → v.sc ≡ some c → HoldsOwn (update f c v)
update-HoldsOwn f c v own e x = elim (Bool-cases (x == c)) [
  | inl here ↦ rw here (e ∙ ap some (sym ((==_iff x c).0 here)))
  | inr there ↦ ground (arith, own x)
]

count_flow-sc : (c : ℕ) (s : Slot) → (count_flow c s).sc ≡ some c
unfolding count_flow
count_flow-sc c s = refl

flag_flow-sc : (s : Slot) → (flag_flow s).sc ≡ s.sc
unfolding flag_flow
flag_flow-sc s = refl

-- The first slot stays empty in a round for a chain that has a slot further on.
module _ (w : World) (xs : List ℕ) (k : ℕ) (d : Distinct xs) where
  written-kept :
      (f : ℕ → Slot) (c : ℕ)
      → HoldsOwn f
      → member c xs ≡ true
      → (f' : ℕ → Slot) × HoldsOwn f'
        × (written w c (position c xs) (laid_out f xs k) ≡ laid_out f' xs k)
  written-kept f c own m =
      let f1 = update f c (count_flow c (f c)) in
      let own1 = update-HoldsOwn f c (count_flow c (f c)) own (count_flow-sc c (f c)) in
      elim (Bool-cases (overflows w c)) [
        | inr quiet ↦ (f1, own1, rw quiet (at_slot-old f c xs k (count_flow c) d m))
        | inl loud ↦ (
          update f1 c (flag_flow (f1 c)),
          update-HoldsOwn f1 c (flag_flow (f1 c)) own1 (flag_flow-sc (f1 c) ∙ own1 c),
          rw (loud, at_slot-old f c xs k (count_flow c) d m) (at_slot-old f1 c xs k flag_flow d m),
        )
      ]

  index-behind :
      (f : ℕ → Slot) (c : ℕ)
      → HoldsOwn f
      → member c xs ≡ true
      → get_index_of_sc c (no_slot ∷ laid_out f xs k) ≡ suc (position c xs)
  unfolding get_index_of_sc index_from
  index-behind f c own m = index-old f c xs k 1 _ own m ∙ omega arith

  visit_chain-kept :
      (f : ℕ → Slot) (c : ℕ) (x : Extract)
      → HoldsOwn f
      → member c xs ≡ true
      → x.slots ≡ no_slot ∷ laid_out f xs k
      → (f' : ℕ → Slot) × HoldsOwn f' × ((visit_chain w c x).slots ≡ no_slot ∷ laid_out f' xs k)
  unfolding visit_chain
  visit_chain-kept f c x own m e =
      let (f', own', e') = written-kept f c own m in
      (
        f',
        own',
        ap (λ l. written w c (get_index_of_sc c l) l) e
            ∙ ap (λ i. written w c i (no_slot ∷ laid_out f xs k)) (index-behind f c own m)
            ∙ written-cons w c (position c xs) no_slot (laid_out f xs k)
            ∙ ap (λ l. no_slot ∷ l) e',
      )

  visit_from-kept :
      (f : ℕ → Slot) (left entry : ℕ) (x : Extract)
      → HoldsOwn f
      → ((c : ℕ) → member c (flows w left entry) ≡ true → member c xs ≡ true)
      → x.slots ≡ no_slot ∷ laid_out f xs k
      → (f' : ℕ → Slot) × HoldsOwn f'
        × ((visit_from w left entry x).slots ≡ no_slot ∷ laid_out f' xs k)
  unfolding visit_from visit flows member
  visit_from-kept f zero entry x own all e = (f, own, e)
  visit_from-kept f (suc left) entry x own all e = elim (Option-cases (active_chain w entry)) [
    | inl idle ↦
        rw (visit_from, idle, visit)
          (visit_from-kept f left (entry + 1) x own (λ c h. all c (rw (flows, idle) h)) e)
    | inr (c, used) ↦
        let (f', own', e') =
          visit_chain-kept f c x own (all c (rw (flows, used) (ground arith))) e in
        rw (visit_from, used, visit)
          (visit_from-kept f' left (entry + 1) (visit_chain w c x) own'
            (λ c' h. all c' (rw (flows, used) (ground arith))) e')
  ]

-- The list has kept a slot for each of the chains `xs` behind its first slot, and every chain in use is
-- one of these. Then marking and clearing all entries change nothing, for any NF: the loop over the
-- chains ends at the first slot, which was cleared and not filled again.
pub mark_all_hole :
    (w : World) (nf k : ℕ) (first : Slot) (f : ℕ → Slot) (xs : List ℕ)
    → HoldsOwn f
    → Distinct xs
    → let sc_list = first ∷ laid_out f xs k in
      ((c : ℕ) → member c (flows w (length sc_list) 0) ≡ true → member c xs ≡ true)
      → ((onvm_mark_all_entries_for_bottleneck nf sc_list w).1 ≡ w)
        × ((onvm_clear_all_entries_for_bottleneck nf sc_list w).1 ≡ w)
unfolding onvm_mark_all_entries_for_bottleneck onvm_clear_all_entries_for_bottleneck extract_sc_list
    mark_slots clear_slots
mark_all_hole w nf k first f xs own d all =
    let (f', own', kept) =
      visit_from-kept w xs k d f (length (first ∷ laid_out f xs k)) 0 start own all refl in
    (
      either_way _ (ap (λ l. mark_slots nf l w) kept ∙ mark_nothing (laid_out f' xs k)),
      other_way _ (ap (λ l. clear_slots nf l w) kept ∙ clear_nothing (laid_out f' xs k)),
    )
  where
    start : Extract
    start = record { active_fts = 0; bneck_fts = 0; slots = no_slot ∷ laid_out f xs k }

    mark_nothing : (l : List Slot) → mark_slots nf (no_slot ∷ l) w ≡ w
    mark_nothing l = refl

    clear_nothing : (l : List Slot) → clear_slots nf (no_slot ∷ l) w ≡ w
    clear_nothing l = refl

    either_way : (b : Bool) {u v : World} → v ≡ u → (if b then u else v) ≡ u
    either_way true e = refl
    either_way false e = e

    other_way : (b : Bool) {u v : World} → v ≡ u → (if b then v else u) ≡ u
    other_way true e = e
    other_way false e = refl
