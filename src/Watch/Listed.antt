-- ===== src/Watch/Listed.antt =====
-- `extract_sc_list` on an empty list counts the flows of each chain.
use nfvnice_source.Mgr.{World}
use nfvnice_source.Watch.{
  Slot, no_slot, get_index_of_sc, Extract, count_flow, flag_flow, at_slot, visit_chain,
}
use nfvnice_source.Watch.Layout.{laid_out, position, position-append, at_slot-old, at_slot-new}
use nfvnice_source.Watch.Tally.{member, Distinct, Distinct-append, member-append}
use nfvnice_source.Prelude.{
  ℕ, suc, ◌+◌, ◌^◌, ◌<◌, ◌≡◌, inl, inr, refl, sym, ap, ◌∙◌, fun_ext, List, [], ◌∷◌, ◌++◌, some,
  Bool, true, false, not, Bool-cases, arith, length, update, ◌==◌, if◌then◌else◌,
}

-- Position bits of the chain are set.
abbrev pub overflows : World → ℕ → Bool
overflows w c = not ((w.chains c).overflowing == 0)

-- The slot of a chain with `count c` flows.
unfoldable pub slot_of : World → (ℕ → ℕ) → ℕ → Slot
slot_of w count c = record {
  sc = some c;
  sc_count = count c;
  bneck_flag = if (w.chains c).overflowing == 0 then 0 else count c;
}

abbrev pub more : (ℕ → ℕ) → ℕ → ℕ → ℕ
more count c = update count c (count c + 1)

module _ (w : World) (count : ℕ → ℕ) (c : ℕ) (small : count c + 1 < 2 ^ 16) where
  abbrev counted : ℕ → Slot
  counted = update (slot_of w count) c (count_flow c (slot_of w count c))

  counted_quiet : overflows w c ≡ false → counted ≡ slot_of w (more count c)
  unfolding slot_of count_flow flag_flow
  counted_quiet quiet = fun_ext (λ e. ground arith)

  counted_loud :
      overflows w c ≡ true → update counted c (flag_flow (counted c)) ≡ slot_of w (more count c)
  unfolding slot_of count_flow flag_flow
  counted_loud loud = fun_ext (λ e. ground arith)

  counted_first : count c ≡ 0 → count_flow c no_slot ≡ count_flow c (slot_of w count c)
  unfolding slot_of count_flow flag_flow
  counted_first none_yet = ground arith

-- The list of chains when the chains `xs` have had `count` flows each.
abbrev pub state : World → ℕ → ℕ → (ℕ → ℕ) → List ℕ → ℕ → Extract
state w a b count xs k = record {
  active_fts = a;
  bneck_fts = b;
  slots = laid_out (slot_of w count) xs k;
}

abbrev pub plus_one : World → ℕ → ℕ → ℕ
plus_one w c b = if overflows w c then b + 1 else b

pub owned : (w : World) (count : ℕ → ℕ) (e : ℕ) → (slot_of w count e).sc ≡ some e
unfolding slot_of
owned w count e = refl

-- The two writes of a round, at slot `s_inx`.
abbrev pub written : World → ℕ → ℕ → List Slot → List Slot
written w c s_inx slots =
    let slots' = at_slot s_inx (count_flow c) slots in
    if overflows w c then at_slot s_inx flag_flow slots' else slots'

pub visit_chain-at :
    (w : World) (c a b s_inx : ℕ) (slots slots' : List Slot)
    → a + 1 < 2 ^ 32
    → b + 1 < 2 ^ 32
    → get_index_of_sc c slots ≡ s_inx
    → written w c s_inx slots ≡ slots'
    → visit_chain w c (record { active_fts = a; bneck_fts = b; slots = slots })
      ≡ record { active_fts = a + 1; bneck_fts = plus_one w c b; slots = slots' }
unfolding visit_chain
visit_chain-at w c a b s_inx slots slots' ha hb at e = rw (at) (rw (e) (ground arith))

module _ (w : World) (count : ℕ → ℕ) (c : ℕ) (xs : List ℕ) (small : count c + 1 < 2 ^ 16) where
  pub written-old :
      (k : ℕ)
      → Distinct xs
      → member c xs ≡ true
      → written w c (position c xs) (laid_out (slot_of w count) xs k)
        ≡ laid_out (slot_of w (more count c)) xs k
  written-old k d old = elim (Bool-cases (overflows w c)) [
    | inl loud ↦
        rw (loud, at_slot-old (slot_of w count) c xs k (count_flow c) d old)
          (at_slot-old (counted w count c small) c xs k flag_flow d old
            ∙ ap (λ f. laid_out f xs k) (counted_loud w count c small loud))
    | inr quiet ↦ rw quiet (
        at_slot-old (slot_of w count) c xs k (count_flow c) d old
        ∙ ap (λ f. laid_out f xs k) (counted_quiet w count c small quiet))
  ]

  pub written-new :
      (k : ℕ)
      → count c ≡ 0
      → Distinct xs
      → member c xs ≡ false
      → written w c (length xs) (laid_out (slot_of w count) xs (suc k))
        ≡ laid_out (slot_of w (more count c)) (xs ++ c ∷ []) k
  written-new k first d new = elim (Bool-cases (overflows w c)) [
    | inl loud ↦
        rw (loud, placed)
          (ap (λ i. at_slot i flag_flow (laid_out one ys k)) (sym (position-append c xs new))
            ∙ at_slot-old one c ys k flag_flow (Distinct-append xs c d new) there
            ∙ ap (λ f. laid_out f ys k) (counted_loud w count c small loud))
    | inr quiet ↦
        rw quiet (placed ∙ ap (λ f. laid_out f ys k) (counted_quiet w count c small quiet))
  ]
    where
      ys : List ℕ
      ys = xs ++ c ∷ []

      one : ℕ → Slot
      one = counted w count c small

      there : member c ys ≡ true
      there = ground (arith, member-append c c xs)

      placed :
          at_slot (length xs) (count_flow c) (laid_out (slot_of w count) xs (suc k))
          ≡ laid_out one ys k
      placed =
          at_slot-new (slot_of w count) c xs k (count_flow c) new
          ∙ ap (λ v. laid_out (update (slot_of w count) c v) ys k)
              (counted_first w count c small first)
