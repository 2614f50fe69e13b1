-- ===== src/Watch/Flows.antt =====
-- `extract_sc_list` over a whole flow table, from a list without chains.
use nfvnice_source.Mgr.{World}
use nfvnice_source.Watch.{
  no_slot, Extract, visit_chain, active_chain, visit, visit_from, extract_sc_list,
}
use nfvnice_source.Watch.Layout.{laid_out, position, get_index_of_sc-old, get_index_of_sc-new}
use nfvnice_source.Watch.Listed.{
  slot_of, more, state, plus_one, owned, visit_chain-at, written-old, written-new,
}
use nfvnice_source.Watch.Tally.{
  member, occurrences, add_new, add_all, Distinct, add_new-Distinct, add_all-Distinct,
  member-add_new, member-add_all,
}
use nfvnice_source.Prelude.{
  ℕ, zero, suc, ◌+◌, ◌^◌, ◌≤◌, ◌<◌, ◌≡◌, inl, inr, refl, ap, ◌∙◌, List, [], ◌∷◌, none, some, false,
  Bool-cases, Option-cases, arith, length, length-replicate, replicate, set, fun_ext,
}

-- The chains in use of the entries from `entry` on, one for each entry.
unfoldable pub flows : World → ℕ → ℕ → List ℕ
flows w zero entry = []
flows w (suc left) entry = elim (active_chain w entry) [
  | none ↦ flows w left (entry + 1)
  | some c ↦ c ∷ flows w left (entry + 1)
]

-- How many of these flows have a chain with a marked position.
unfoldable pub overflowing_flows : World → List ℕ → ℕ
overflowing_flows w [] = 0
overflowing_flows w (c ∷ cs) = plus_one w c (overflowing_flows w cs)

tallied : (ℕ → ℕ) → List ℕ → ℕ → ℕ
tallied count [] = count
tallied count (c ∷ cs) = tallied (more count c) cs

tallied_lem :
    (count : ℕ → ℕ) (cs : List ℕ) (c : ℕ) → tallied count cs c ≡ count c + occurrences c cs
unfolding tallied occurrences
tallied_lem count [] c = omega arith
tallied_lem count (d ∷ cs) c = ground (arith, tallied_lem (more count d) cs c)

-- There is room for `left` more flows.
record Fits (count : ℕ → ℕ) (xs : List ℕ) (k left a b : ℕ) : Type 0 where
  distinct : Distinct xs
  unseen : (e : ℕ) → member e xs ≡ false → count e ≡ 0
  small : (e : ℕ) → count e + left < 2 ^ 16
  active : a + left < 2 ^ 32
  blocked : b + left < 2 ^ 32
  empty : left ≤ k

-- The invariant after a flow of chain `c`, which had a slot (`k'` is `k`) or took one.
step-Fits :
    (w : World) (count : ℕ → ℕ) (xs : List ℕ) (k k' left a b c : ℕ)
    → Fits count xs k (suc left) a b
    → Distinct (add_new xs c)
    → left ≤ k'
    → Fits (more count c) (add_new xs c) k' left (a + 1) (plus_one w c b)
step-Fits w count xs k k' left a b c fits d le = record {
  distinct = d;
  unseen = λ e absent. ground (arith, member-add_new xs c e, fits.unseen e);
  small = λ e. ground (arith, fits.small e);
  active = omega (arith, fits.active);
  blocked = ground (arith, fits.blocked);
  empty = le;
}

visit_chain-Fits :
    (w : World) (count : ℕ → ℕ) (xs : List ℕ) (k left a b c : ℕ)
    → Fits count xs k (suc left) a b
    → (k' : ℕ) × (visit_chain w c (state w a b count xs k)
        ≡ state w (a + 1) (plus_one w c b) (more count c) (add_new xs c) k')
      × (left ≤ k')
unfolding add_new
visit_chain-Fits w count xs zero left a b c fits = absurd (omega (arith, fits.empty))
visit_chain-Fits w count xs (suc k) left a b c fits = elim (Bool-cases (member c xs)) [
  | inl old ↦ (
    suc k,
    rw old (
        visit_chain-at w c a b (position c xs) _ _ (omega (arith, fits.active))
          (omega (arith, fits.blocked))
          (get_index_of_sc-old (slot_of w count) c xs (suc k) (owned w count) old)
          (written-old w count c xs small (suc k) fits.distinct old)),
    omega (arith, fits.empty),
  )
  | inr new ↦ (
    k,
    rw new (
        visit_chain-at w c a b (length xs) _ _ (omega (arith, fits.active))
          (omega (arith, fits.blocked))
          (get_index_of_sc-new (slot_of w count) c xs k (owned w count) new)
          (written-new w count c xs small k (fits.unseen c new) fits.distinct new)),
    omega (arith, fits.empty),
  )
]
  where
    small : count c + 1 < 2 ^ 16
    small = omega (arith, fits.small c)

-- The counts after the flows `cs`.
abbrev after : World → ℕ → ℕ → (ℕ → ℕ) → List ℕ → List ℕ → ℕ → Extract
after w a b count xs cs k =
    state w (a + length cs) (b + overflowing_flows w cs) (tallied count cs) (add_all xs cs) k

after-cons :
    (w : World) (a b c : ℕ) (count : ℕ → ℕ) (xs cs : List ℕ) (k : ℕ)
    → after w (a + 1) (plus_one w c b) (more count c) (add_new xs c) cs k
      ≡ after w a b count xs (c ∷ cs) k
unfolding overflowing_flows tallied add_all
after-cons w a b c count xs cs k = ground arith

weaker :
    {count : ℕ → ℕ} {xs : List ℕ} {k left a b : ℕ}
    → Fits count xs k (suc left) a b
    → Fits count xs k left a b
weaker fits = record {
  distinct = fits.distinct;
  unseen = fits.unseen;
  small = λ e. omega (arith, fits.small e);
  active = omega (arith, fits.active);
  blocked = omega (arith, fits.blocked);
  empty = omega (arith, fits.empty);
}

visit_from-Fits :
    (w : World) (count : ℕ → ℕ) (xs : List ℕ) (k left a b entry : ℕ)
    → Fits count xs k left a b
    → (k' : ℕ) × (visit_from w left entry (state w a b count xs k)
        ≡ after w a b count xs (flows w left entry) k')
unfolding visit_from flows visit overflowing_flows tallied add_all
visit_from-Fits w count xs k zero a b entry fits = (k, ground arith)
visit_from-Fits w count xs k (suc left) a b entry fits =
    elim (Option-cases (active_chain w entry)) [
      | inl idle ↦
          rw (idle, visit, flows) (visit_from-Fits w count xs k left a b (entry + 1) (weaker fits))
      | inr (c, used) ↦
          let (k', e, le) = visit_chain-Fits w count xs k left a b c fits in
          let fits' =
            step-Fits w count xs k k' left a b c fits (add_new-Distinct xs c fits.distinct) le in
          let (k'', e') =
            visit_from-Fits w (more count c) (add_new xs c) k' left (a + 1) (plus_one w c b)
              (entry + 1) fits' in
          rw (used, visit, flows)
            (
              k'',
              ap (visit_from w left (entry + 1)) e
                  ∙ e'
                  ∙ after-cons w a b c count xs (flows w left (entry + 1)) k'',
            )
    ]

set-no_slot : (n : ℕ) → set (replicate n no_slot) 0 no_slot ≡ replicate n no_slot
set-no_slot zero = refl
set-no_slot (suc n) = refl

-- The list of chains, where it was empty, of a flow table with `n` entries, fewer than 2 ^ 16. There
-- is one slot for each chain in use, in the order of the table and from the start of the list, with
-- the number of flows that use it, and, if the chain has a marked position, as large a flag, otherwise
-- 0. The rest of the list is empty. The results are the number of flows with a chain in use, and the
-- number of those whose chain has a marked position.
pub extract_sc_list_lem :
    (w : World) (n : ℕ)
    → n < 2 ^ 16
    → let fs = flows w n 0 in
      let x = extract_sc_list w (replicate n no_slot) in
      (x.active_fts ≡ length fs)
      × (x.bneck_fts ≡ overflowing_flows w fs)
      × ((k : ℕ) × (x.slots ≡ laid_out (slot_of w (λ c. occurrences c fs)) (add_all [] fs) k))
      × Distinct (add_all [] fs)
      × ((c : ℕ) → member c (add_all [] fs) ≡ member c fs)
unfolding extract_sc_list member
extract_sc_list_lem w n h = (
  ap (λ x. x.active_fts) whole ∙ omega arith,
  ap (λ x. x.bneck_fts) whole ∙ omega arith,
  (run.0, ap (λ x. x.slots) whole ∙ ap (λ t. laid_out (slot_of w t) (add_all [] fs) run.0) tally),
  add_all-Distinct [] fs tt,
  λ c. member-add_all [] fs c,
)
  where
    fs : List ℕ
    fs = flows w n 0

    run : (k : ℕ) × (visit_from w n 0 (state w 0 0 (λ c. 0) [] n) ≡ after w 0 0 (λ c. 0) [] fs k)
    run =
        visit_from-Fits w (λ c. 0) [] n n 0 0 0
          (record {
            distinct = tt;
            unseen = λ e m. refl;
            small = λ e. omega arith;
            active = omega arith;
            blocked = omega arith;
            empty = omega arith;
          })

    whole : extract_sc_list w (replicate n no_slot) ≡ after w 0 0 (λ c. 0) [] fs run.0
    whole = rw (length-replicate n no_slot, set-no_slot n) run.1

    tally : tallied (λ c. 0) fs ≡ (λ c. occurrences c fs)
    tally = fun_ext (λ c. tallied_lem (λ c. 0) fs c ∙ omega arith)
