-- ===== src/Nf/Identity.antt =====
-- The identifiers that `onvm_nf_next_instance_id` of onvm/onvm_mgr/onvm_nf.c gives out.
use mathlib.Core.Bool.{true≢false}
use nfvnice_source.Mgr.{World, max_clients, onvm_nf_is_valid}
use nfvnice_source.Nf.{first_free, start_id, onvm_nf_next_instance_id}
use nfvnice_source.Prelude.{
  ℕ, zero, suc, ◌+◌, ◌-◌, ◌≤◌, ◌<◌, ◌≡◌, inl, inr, refl, sym, subst, ◌∙◌, ==_iff, ◌⊎◌,
  if◌then◌else◌, ltb, ltb→lt, ◌==◌, true, false, Bool-cases, arith, leb,
}

-- What the search has gone through, and where it ends.
FirstFree : World → ℕ → ℕ → ℕ → Type 0
FirstFree w n i r =
    (i ≤ r)
    × (r ≤ i + n)
    × ((k : ℕ) → i ≤ k → k < r → onvm_nf_is_valid w k ≡ true)
    × (r < i + n → onvm_nf_is_valid w r ≡ false)

first_free_lem : (n : ℕ) (w : World) (i : ℕ) → FirstFree w n i (first_free n w i)
unfolding first_free FirstFree
first_free_lem zero w i =
    (omega arith, omega arith, λ k h l. absurd (omega arith), λ h. absurd (omega arith))
first_free_lem (suc n) w i = elim (Bool-cases (onvm_nf_is_valid w i)) [
  | inl taken ↦ rw (taken) (past taken (first_free_lem n w (i + 1)))
  | inr free ↦ rw (free) (omega arith, omega arith, λ k h l. absurd (omega arith), λ h. free)
]
  where
    past :
        onvm_nf_is_valid w i ≡ true
        → FirstFree w n (i + 1) (first_free n w (i + 1))
        → FirstFree w (suc n) i (first_free n w (i + 1))
    past taken (a, b, c, e) = (omega arith, omega arith, passed, λ h. e (omega arith))
      where
        passed : (k : ℕ) → i ≤ k → k < first_free n w (i + 1) → onvm_nf_is_valid w k ≡ true
        passed k h l = elim (Bool-cases (k == i)) [
          | inl same ↦ subst (λ x. onvm_nf_is_valid w x ≡ true) (sym ((==_iff k i).0 same)) taken
          | inr later ↦ c k (ground arith) l
        ]

-- The identifier is the first one, from where the last search ended or from 1 if that was the end, of
-- which no NF is running; or it is 32, when an NF is running under every identifier up to the end.
-- The next search starts behind it.
pub onvm_nf_next_instance_id_lem :
    (w : World)
    → let (id, w') = onvm_nf_next_instance_id w in
      (start_id w ≤ id)
      × (id ≤ max_clients)
      × ((k : ℕ) → start_id w ≤ k → k < id → onvm_nf_is_valid w k ≡ true)
      × (id < max_clients → onvm_nf_is_valid w id ≡ false)
      × (start_id w' ≡ (if leb max_clients (id + 1) then 1 else id + 1))
unfolding onvm_nf_next_instance_id FirstFree
onvm_nf_next_instance_id_lem w =
    let (a, b, c, e) = first_free_lem (max_clients - start_id w) w (start_id w) in
    (a, ground arith, c, λ h. e (ground arith), refl)

-- A search that ends at 32 is followed by one from 1: where an NF with an identifier from 1 to 31 is
-- not running, one of two searches in a row gives such an identifier.
onvm_nf_next_instance_id_retry :
    (w : World) (k : ℕ)
    → 1 ≤ k
    → k < max_clients
    → onvm_nf_is_valid w k ≡ false
    → let (id, w') = onvm_nf_next_instance_id w in
      let (id', w'') = onvm_nf_next_instance_id w' in (id < max_clients) ⊎ (id' ≤ k)
unfolding onvm_nf_is_valid onvm_nf_next_instance_id
onvm_nf_next_instance_id_retry w k h l free =
    let first = onvm_nf_next_instance_id_lem w in
    let second = onvm_nf_next_instance_id_lem w' in
    elim (Bool-cases (ltb id max_clients)) [
      | inl found ↦ inl (ltb→lt id max_clients found)
      | inr ended ↦ elim (Bool-cases (ltb k id')) [
        | inl below ↦
            absurd
              (true≢false (sym (second.2 k (ground (arith, first.4)) (ltb→lt k id' below)) ∙ free))
        | inr above ↦ inr (ground arith)
      ]
    ]
  where
    id : ℕ
    id = (onvm_nf_next_instance_id w).0

    w' : World
    w' = (onvm_nf_next_instance_id w).1

    id' : ℕ
    id' = (onvm_nf_next_instance_id w').0
