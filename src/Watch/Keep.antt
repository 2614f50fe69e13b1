-- ===== src/Watch/Keep.antt =====
-- Marking and clearing write to the chains only.
use nfvnice_source.Chain.{Chain}
use nfvnice_source.Mgr.{World}
use nfvnice_source.Watch.{
  Slot, extract_sc_list, mark_slots, clear_slots, onvm_mark_all_entries_for_bottleneck,
  onvm_clear_all_entries_for_bottleneck,
}
use nfvnice_source.Prelude.{
  ℕ, ◌≡◌, inl, inr, refl, ◌∙◌, List, [], ◌∷◌, not, ◌&&◌, Bool-cases, Option-cases, ◌==◌,
}

-- `view` looks at parts of the state other than the chains.
module _ {ℓ} {A : Type ℓ} (view : World → A)
    (blind : (w : World) (ch : ℕ → Chain) → view (record w { chains = ch }) ≡ view w) where
  mark_slots_kept : (nf : ℕ) (l : List Slot) (w : World) → view (mark_slots nf l w) ≡ view w
  unfolding mark_slots
  mark_slots_kept nf [] w = refl
  mark_slots_kept nf (s ∷ l) w = elim (Option-cases s.sc) [
    | inl e ↦ rw (e, mark_slots) refl
    | inr (c, e) ↦ rw (e, mark_slots) (mark_slots_kept nf l _ ∙ blind w _)
  ]

  clear_slots_kept : (nf : ℕ) (l : List Slot) (w : World) → view (clear_slots nf l w) ≡ view w
  unfolding clear_slots
  clear_slots_kept nf [] w = refl
  clear_slots_kept nf (s ∷ l) w = elim (Option-cases s.sc) [
    | inl e ↦ rw (e, clear_slots) refl
    | inr (c, e) ↦ elim (Bool-cases (s.bneck_flag == 0)) [
      | inl quiet ↦ rw (clear_slots, e, quiet) (clear_slots_kept nf l _)
      | inr loud ↦ rw (clear_slots, e, loud) (clear_slots_kept nf l _ ∙ blind w _)
    ]
  ]

  pub mark_all_kept :
      (nf : ℕ) (l : List Slot) (w : World)
      → view (onvm_mark_all_entries_for_bottleneck nf l w).1 ≡ view w
  unfolding onvm_mark_all_entries_for_bottleneck
  mark_all_kept nf l w = elim (Bool-cases ((extract_sc_list w l).active_fts == 0)) [
    | inl idle ↦ rw idle refl
    | inr busy ↦ rw busy (mark_slots_kept nf _ w)
  ]

  pub clear_all_kept :
      (nf : ℕ) (l : List Slot) (w : World)
      → view (onvm_clear_all_entries_for_bottleneck nf l w).1 ≡ view w
  unfolding onvm_clear_all_entries_for_bottleneck
  clear_all_kept nf l w =
      let x = extract_sc_list w l in
      elim (Bool-cases (not (x.active_fts == 0) && not (x.bneck_fts == 0))) [
        | inl busy ↦ rw busy (clear_slots_kept nf _ w)
        | inr idle ↦ rw idle refl
      ]
