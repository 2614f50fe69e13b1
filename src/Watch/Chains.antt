-- ===== src/Watch/Chains.antt =====
-- What the loops of marking and clearing over the list of chains do to the chains.
use nfvnice_source.Chain.{Chain}
use nfvnice_source.Mgr.{World}
use nfvnice_source.Watch.{Slot, mark_from, clear_from, on_chain, mark_slots, clear_slots}
use nfvnice_source.Watch.Layout.{laid_out}
use nfvnice_source.Watch.Tally.{member, Distinct}
use nfvnice_source.Prelude.{
  ℕ, zero, suc, ◌≡◌, inl, inr, refl, ap, subst, ◌∙◌, List, [], ◌∷◌, some, Bool, false, not, ◌&&◌,
  ◌||◌, Bool-cases, arith, update, ◌==◌, ==_iff, if◌then◌else◌,
}

-- One chain `x` is changed, and then those of which `others` says so; `x` is none of these.
once :
    (change : Chain → Chain) (chains : ℕ → Chain) (x c : ℕ) (others : Bool)
    → (x ≡ c → others ≡ false)
    → (if others
        then change (update chains x (change (chains x)) c)
        else update chains x (change (chains x)) c)
      ≡ (if (x == c) || others then change (chains c) else chains c)
once change chains x c others only = elim (Bool-cases (x == c)) [
  | inl e ↦
      let e' = (==_iff x c).0 e in
      rw (only e') (ground (arith, ap chains e', ap change (ap chains e')))
  | inr ne ↦ ground arith
]

-- The loops over the chains, in a list with one slot for each of the chains `xs`.
abbrev pub mark_chain : ℕ → Chain → Chain
mark_chain nf ch = mark_from nf ch ch.chain_length 1

abbrev pub clear_chain : ℕ → Chain → Chain
clear_chain nf ch = clear_from nf ch ch.chain_length 1

module _ (nf : ℕ) (f : ℕ → Slot) (own : (e : ℕ) → (f e).sc ≡ some e) where
  mark_slots-end : (k : ℕ) (w : World) → mark_slots nf (laid_out f [] k) w ≡ w
  unfolding mark_slots
  mark_slots-end zero w = refl
  mark_slots-end (suc k) w = refl

  clear_slots-end : (k : ℕ) (w : World) → clear_slots nf (laid_out f [] k) w ≡ w
  unfolding clear_slots
  clear_slots-end zero w = refl
  clear_slots-end (suc k) w = refl

  pub mark_slots-laid_out :
      (xs : List ℕ) (k : ℕ) (w : World) (c : ℕ)
      → Distinct xs
      → (mark_slots nf (laid_out f xs k) w).chains c
        ≡ (if member c xs then mark_chain nf (w.chains c) else w.chains c)
  unfolding mark_slots member
  mark_slots-laid_out [] k w c d = ap (λ v. v.chains c) (mark_slots-end k w)
  mark_slots-laid_out (x ∷ xs) k w c d =
      rw (own x, mark_slots)
        (mark_slots-laid_out xs k (on_chain x (mark_chain nf) w) c d.1
          ∙ once (mark_chain nf) w.chains x c (member c xs)
              (λ e. subst (λ (z : ℕ). member z xs ≡ false) e d.0))

  abbrev flagged : ℕ → Bool
  flagged x = not ((f x).bneck_flag == 0)

  abbrev gated : ℕ → World → World
  gated x w = if (f x).bneck_flag == 0 then w else on_chain x (clear_chain nf) w

  once_gated :
      (w : World) (x c : ℕ) (others : Bool)
      → (x ≡ c → others ≡ false)
      → (if others && flagged c
          then clear_chain nf ((gated x w).chains c)
          else (gated x w).chains c)
        ≡ (if ((x == c) || others) && flagged c then clear_chain nf (w.chains c) else w.chains c)
  once_gated w x c others only = elim (Bool-cases (x == c)) [
    | inl e ↦
        let e' = (==_iff x c).0 e in
        rw (only e') (ground (arith, ap f e', ap w.chains e', ap (clear_chain nf) (ap w.chains e')))
    | inr ne ↦ ground arith
  ]

  pub clear_slots-laid_out :
      (xs : List ℕ) (k : ℕ) (w : World) (c : ℕ)
      → Distinct xs
      → (clear_slots nf (laid_out f xs k) w).chains c ≡ (
          if member c xs && not ((f c).bneck_flag == 0)
          then clear_chain nf (w.chains c)
          else w.chains c)
  unfolding clear_slots member
  clear_slots-laid_out [] k w c d = ap (λ v. v.chains c) (clear_slots-end k w)
  clear_slots-laid_out (x ∷ xs) k w c d =
      rw (own x, clear_slots)
        (clear_slots-laid_out xs k (gated x w) c d.1
          ∙ once_gated w x c (member c xs) (λ e. subst (λ (z : ℕ). member z xs ≡ false) e d.0))
