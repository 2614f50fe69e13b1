-- ===== src/FlowDir/Index.antt =====
-- The index that every entry of the flow table keeps of itself.
use nfvnice_source.FlowDir.Entries.{
  set_index_from, onvm_flow_dir_set_index, onvm_flow_dir_reset_entry,
}
use nfvnice_source.Mgr.{FlowEntry, no_entry}
use nfvnice_source.Prelude.{
  ℕ, zero, suc, ◌+◌, ◌<◌, ◌≡◌, inl, inr, ap, ◌∙◌, Bool-cases, arith, update, ltb, leb, ◌==◌, ==_iff,
  ◌&&◌, if◌then◌else◌,
}

abbrev indexed : (ℕ → FlowEntry) → ℕ → FlowEntry
indexed entries j = record (entries j) { entry_index = j }

set_index_from_lem :
    (left t : ℕ) (entries : ℕ → FlowEntry) (j : ℕ)
    → set_index_from left t entries j
      ≡ (if leb t j && ltb j (t + left) then indexed entries j else entries j)
unfolding set_index_from
set_index_from_lem zero t entries j = ground arith
set_index_from_lem (suc left) t entries j =
    set_index_from_lem left (t + 1) (update entries t (indexed entries t)) j
    ∙ elim (Bool-cases (j == t)) [
      | inl e ↦ let e' = (==_iff j t).0 e in ground (arith, ap entries e')
      | inr ne ↦ ground arith
    ]

-- A table with `n` entries whose indexes were set: resetting entry `e` returns `e` and leaves this entry
-- empty but for its index, the other entries as they were before but for their indexes, and what is
-- not in the table alone.
reset_entry-set_index :
    (n e : ℕ) (entries : ℕ → FlowEntry)
    → e < n
    → let r = onvm_flow_dir_reset_entry e (onvm_flow_dir_set_index n entries) in
      (r.0 ≡ e)
      × ((j : ℕ)
          → r.1 j ≡ (
              if j == e
              then record no_entry { entry_index = j }
              else if ltb j n
              then record (entries j) { entry_index = j }
              else entries j))
unfolding onvm_flow_dir_reset_entry onvm_flow_dir_set_index
reset_entry-set_index n e entries h = (
  ap (λ x. x.entry_index) (set_index_from_lem n 0 entries e) ∙ ground arith,
  λ j. elim (Bool-cases (j == e)) [
    | inl here ↦ rw here (
        ap (λ i. record no_entry { entry_index = i })
          (ap (λ x. x.entry_index) (set_index_from_lem n 0 entries e)
            ∙ ground (arith, (==_iff j e).0 here)))
    | inr other ↦ rw other (set_index_from_lem n 0 entries j ∙ ground arith)
  ],
)
