-- ===== src/Watch/All.antt =====
-- Marking and clearing the chains of an NF.
use nfvnice_source.Bits.{test_bit}
use nfvnice_source.Bits.Laws.{IsPosition, test_bit-zero}
use nfvnice_source.Bkpr.Clear.{AreBytes, marked}
use nfvnice_source.Chain.{Chain}
use nfvnice_source.Mgr.{World}
use nfvnice_source.Watch.{
  Slot, no_slot, Extract, extract_sc_list, onvm_mark_all_entries_for_bottleneck,
  onvm_clear_all_entries_for_bottleneck,
}
use nfvnice_source.Watch.Chains.{mark_chain, clear_chain, mark_slots-laid_out, clear_slots-laid_out}
use nfvnice_source.Watch.Flows.{flows, overflowing_flows, extract_sc_list_lem}
use nfvnice_source.Watch.Listed.{slot_of, overflows, owned}
use nfvnice_source.Watch.Marks.{
  IsFirst, true-ne-false, mark_from_only, mark_from_all, stands_at, clear_from_lem,
}
use nfvnice_source.Watch.Tally.{member, occurrences, add_all}
use nfvnice_source.Prelude.{
  ℕ, ◌+◌, ◌^◌, ◌≤◌, ◌<◌, ◌≡◌, ◌↔◌, ◌⊎◌, inl, inr, refl, sym, ap, subst, ◌∙◌, List, [], ◌∷◌, Bool,
  true, false, not, ◌&&◌, Bool-cases, ==_iff, arith, length, replicate, ◌==◌, if◌then◌else◌,
}

-- The chains have at most 8 positions, as many as their words have bits.
abbrev pub AreShort : (ℕ → Chain) → Type 0
AreShort chains = (c : ℕ) → (chains c).chain_length ≤ 8

-- Some flow of the table has this chain.
abbrev pub in_use : World → ℕ → ℕ → Bool
in_use w n c = member c (flows w n 0)

some_occurrence : (c : ℕ) (cs : List ℕ) → member c cs ≡ true → 0 < occurrences c cs
unfolding member occurrences
some_occurrence c [] m = cc
some_occurrence c (x ∷ xs) m = ground (arith, some_occurrence c xs)

none_overflows :
    (w : World) (c : ℕ) (cs : List ℕ)
    → overflowing_flows w cs ≡ 0
    → member c cs ≡ true
    → (w.chains c).overflowing ≡ 0
unfolding member overflowing_flows
none_overflows w c [] e m = cc
none_overflows w c (x ∷ xs) e m = elim (Bool-cases (x == c)) [
  | inl here ↦ subst (λ (z : ℕ). (w.chains z).overflowing ≡ 0) ((==_iff x c).0 here) (ground arith)
  | inr there ↦ none_overflows w c xs (ground arith) (ground arith)
]

abbrev flagged : World → List ℕ → ℕ → Bool
flagged w fs c = not ((slot_of w (λ e. occurrences e fs) c).bneck_flag == 0)

flagged-overflows :
    (w : World) (fs : List ℕ) (c : ℕ) → member c fs ≡ true → flagged w fs c ≡ overflows w c
unfolding slot_of
flagged-overflows w fs c m = ground (arith, some_occurrence c fs m)

absorb : (u m s : Bool) → (u && m) ≡ false → m ≡ (m && not (u && s))
absorb true true s e = cc
absorb true false s e = refl
absorb false true s e = refl
absorb false false s e = refl

module _ (nf : ℕ) (w : World) (n : ℕ) (small : n < 2 ^ 16) where
  abbrev empty_list : List Slot
  empty_list = replicate n no_slot

  no_flows : (xs : List ℕ) → length xs ≡ 0 → (c : ℕ) → member c xs ≡ false
  unfolding member
  no_flows [] e c = refl
  no_flows (x ∷ xs) e c = absurd (omega arith)

  mark_all-chains :
      (c : ℕ)
      → (onvm_mark_all_entries_for_bottleneck nf empty_list w).1.chains c
        ≡ (if in_use w n c then mark_chain nf (w.chains c) else w.chains c)
  unfolding onvm_mark_all_entries_for_bottleneck
  mark_all-chains c =
      let (active, bneck, (k, slots), d, m) = extract_sc_list_lem w n small in
      elim (Bool-cases ((extract_sc_list w empty_list).active_fts == 0)) [
        | inl idle ↦ rw (idle, no_flows (flows w n 0) (sym active ∙ (==_iff _ 0).0 idle) c) refl
        | inr busy ↦ rw busy (
            rw slots (
              mark_slots-laid_out nf (slot_of w (λ e. occurrences e (flows w n 0))) (owned w _)
                (add_all [] (flows w n 0)) k w c d
              ∙ ap (λ b. if b then mark_chain nf (w.chains c) else w.chains c) (m c)))
      ]

  -- A chain is left alone only if no position is marked, or if it is not in use.
  quiet : (c j : ℕ) → IsPosition j → (w.chains c).overflowing ≡ 0 → marked w c j ≡ false
  quiet c j hj e = ap (λ x. test_bit x j) e ∙ test_bit-zero j hj

  clear_all-chains :
      (c j : ℕ)
      → IsPosition j
      → let w' = (onvm_clear_all_entries_for_bottleneck nf empty_list w).1 in
        (w'.chains c ≡ w.chains c) × ((in_use w n c && marked w c j) ≡ false)
        ⊎ (w'.chains c ≡ clear_chain nf (w.chains c)) × (in_use w n c ≡ true)
  unfolding onvm_clear_all_entries_for_bottleneck
  clear_all-chains c j hj =
      let (active, bneck, (k, slots), d, m) = extract_sc_list_lem w n small in
      elim (Bool-cases (x.active_fts == 0)) [
        | inl idle ↦
            rw idle (inl (refl, rw (no_flows fs (sym active ∙ (==_iff _ 0).0 idle) c) refl))
        | inr busy ↦ elim (Bool-cases (x.bneck_fts == 0)) [
          | inl calm ↦
              rw (busy, calm)
                (inl (
                  refl,
                  by_use (λ used. none_overflows w c fs (sym bneck ∙ (==_iff _ 0).0 calm) used),
                ))
          | inr loud ↦
              rw (busy, loud)
                (rw slots (
                  let done =
                    clear_slots-laid_out nf (slot_of w (λ e. occurrences e fs)) (owned w _)
                      (add_all [] fs) k w c d
                    ∙ ap (λ b. pick (b && flagged w fs c)) (m c) in
                  elim (Bool-cases (in_use w n c)) [
                    | inr unused ↦
                        inl (done ∙ ap (λ b. pick (b && flagged w fs c)) unused, rw unused refl)
                    | inl used ↦ elim (Bool-cases ((w.chains c).overflowing == 0)) [
                      | inl none_set ↦
                          inl (
                            gate used (ap not none_set) done,
                            by_use (λ u. (==_iff _ 0).0 none_set),
                          )
                      | inr some_set ↦ inr (gate used (ap not some_set) done, used)
                    ]
                  ]))
        ]
      ]
    where
      x : Extract
      x = extract_sc_list w empty_list

      fs : List ℕ
      fs = flows w n 0

      by_use :
          (in_use w n c ≡ true → (w.chains c).overflowing ≡ 0)
          → (in_use w n c && marked w c j) ≡ false
      by_use h = elim (Bool-cases (in_use w n c)) [
        | inl used ↦ rw (used, quiet c j hj (h used)) refl
        | inr unused ↦ rw unused refl
      ]

      pick : Bool → Chain
      pick b = if b then clear_chain nf (w.chains c) else w.chains c

      gate :
          {b : Bool} {ch : Chain}
          → in_use w n c ≡ true
          → overflows w c ≡ b
          → ch ≡ pick (in_use w n c && flagged w fs c)
          → ch ≡ pick b
      gate used e done =
          done
          ∙ ap (λ b. pick (b && flagged w fs c)) used
          ∙ ap pick (flagged-overflows w fs c used ∙ e)

  module _ (bytes : AreBytes w.chains) (short : AreShort w.chains) (c j : ℕ)
      (hj : IsPosition j) where
    -- The list of chains was empty, the words of the chains are bytes and the chains have at most 8
    -- positions. Marking all entries for an NF: a position is marked afterwards exactly if it was
    -- marked before, or if a flow uses its chain, the position is in the chain, the NF stands there,
    -- and it is the first position of the NF in the chain that was not marked.
    pub mark_all-marked :
        (marked (onvm_mark_all_entries_for_bottleneck nf empty_list w).1 c j ≡ true) ↔ (
          (marked w c j ≡ true)
          ⊎ ((in_use w n c ≡ true) × (j ≤ (w.chains c).chain_length) × IsFirst nf (w.chains c) 1 j))
    mark_all-marked = elim (Bool-cases (in_use w n c)) [
      | inr unused ↦
          let e =
            ap (λ ch. test_bit ch.overflowing j)
              (mark_all-chains c
                ∙ ap (λ b. if b then mark_chain nf (w.chains c) else w.chains c) unused) in
          (
            λ t. inl (sym e ∙ t),
            λ m. elim m [
              | inl t ↦ e ∙ t
              | inr (used, le, first) ↦ absurd (true-ne-false (sym used ∙ unused))
            ],
          )
      | inl used ↦
          let e =
            ap (λ ch. test_bit ch.overflowing j)
              (mark_all-chains c
                ∙ ap (λ b. if b then mark_chain nf (w.chains c) else w.chains c) used) in
          (
            λ t.
                elim (mark_from_only nf (w.chains c) (bytes c) (w.chains c).chain_length 1 j
                  (omega arith) fits hj (sym e ∙ t)) [
                    | inl old ↦ inl old
                    | inr (a, b, first) ↦ inr (used, omega arith, first)
                  ],
            λ m.
                e
                ∙ mark_from_all nf (w.chains c) (bytes c) (w.chains c).chain_length 1 j
                    (omega arith) fits hj
                    (elim m [
                      | inl t ↦ inl t
                      | inr (u, le, first) ↦ inr (omega arith, omega arith, first)
                    ]),
          )
    ]
      where
        fits : 1 + (w.chains c).chain_length ≤ 9
        fits = omega (arith, short c)

    -- The same for clearing all entries: a position stays marked exactly if it was marked and if not
    -- a flow uses its chain and the NF stands at the position.
    pub clear_all-marked : marked (onvm_clear_all_entries_for_bottleneck nf empty_list w).1 c j ≡ (
        marked w c j
        && not (in_use w n c && stands_at nf (w.chains c) (w.chains c).chain_length 1 j))
    clear_all-marked = elim (clear_all-chains c j hj) [
      | inl (same, unmarked) ↦
          ap (λ ch. test_bit ch.overflowing j) same
          ∙ absorb (in_use w n c) (marked w c j)
              (stands_at nf (w.chains c) (w.chains c).chain_length 1 j) unmarked
      | inr (cleared, used) ↦
          ap (λ ch. test_bit ch.overflowing j) cleared
          ∙ rw used (
              clear_from_lem nf (w.chains c) (w.chains c).chain_length 1 j (bytes c) (omega arith)
                (omega (arith, short c)) hj)
    ]
