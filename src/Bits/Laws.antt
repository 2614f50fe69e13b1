-- ===== src/Bits/Laws.antt =====
-- What the bit macros do on the 8-bit word of a service chain.
use nfvnice_source.Prelude.{
  ℕ, zero, suc, ◌+◌, ◌-◌, ◌^◌, ◌≤◌, ◌<◌, ◌≡◌, ◌≢◌, ◌↔◌, ◌⊎◌, refl, ap, ◌∙◌, Bool, true, false, ◌&&◌,
  ◌||◌, not, Option, none, some, arith, ltb, leb, ◌==◌, ==_iff, if◌then◌else◌, Bool-cases,
  Option-cases, leb→le, table, table-row, inl, inr,
}
use nfvnice_source.Bits.{
  set_bit, clear_bit, test_bit, is_upstream_nf, highest_from, get_index_of_highest_set_bit,
}

abbrev same : Bool → Bool → Bool
same true b = b
same false b = not b

same-eq : (a b : Bool) → same a b ≡ true → a ≡ b
same-eq true b h = ground arith
same-eq false b h = ground arith

-- Bits 1 to 8, which an 8-bit word has.
abbrev pub IsPosition : ℕ → Type 0
IsPosition n = (1 ≤ n) × (n ≤ 8)

abbrev each : (ℕ → ℕ → Bool) → Bool
each p = table 256 (λ x. table 8 (λ n. p x (suc n)))

each_sound : (p : ℕ → ℕ → Bool) → each p ≡ true → (x n : ℕ) → x < 256 → IsPosition n → p x n ≡ true
each_sound p h x zero hx hn = absurd (omega arith)
each_sound p h x (suc n) hx hn = table-row 8 _ n (table-row 256 _ x h hx) (omega arith)

abbrev each_pair : (ℕ → ℕ → ℕ → Bool) → Bool
each_pair p = each (λ x n. table 8 (λ m. p x n (suc m)))

each_pair_sound :
    (p : ℕ → ℕ → ℕ → Bool)
    → each_pair p ≡ true
    → (x n m : ℕ) → x < 256
    → IsPosition n
    → IsPosition m
    → p x n m ≡ true
each_pair_sound p h x n zero hx hn hm = absurd (omega arith)
each_pair_sound p h x n (suc m) hx hn hm =
    table-row 8 (λ k. p x n (suc k)) m
      (each_sound (λ y k. table 8 (λ j. p y k (suc j))) h x n hx hn) (omega arith)

abbrev set_row : ℕ → ℕ → ℕ → Bool
set_row x n m = same (test_bit (set_bit 8 x n) m) ((n == m) || test_bit x m)

set_table : each_pair set_row ≡ true
unfolding table test_bit set_bit
set_table = refl

-- After SET_BIT a position is marked if it is the one set, or was marked before.
pub test_bit-set_bit :
    (x n m : ℕ)
    → x < 256
    → IsPosition n
    → IsPosition m
    → test_bit (set_bit 8 x n) m ≡ ((n == m) || test_bit x m)
test_bit-set_bit x n m hx hn hm = same-eq _ _ (each_pair_sound set_row set_table x n m hx hn hm)

abbrev clear_row : ℕ → ℕ → ℕ → Bool
clear_row x n m = same (test_bit (clear_bit 8 x n) m) (not (n == m) && test_bit x m)

clear_table : each_pair clear_row ≡ true
unfolding table test_bit clear_bit
clear_table = refl

-- After CLEAR_BIT a position is marked if it was marked before and is not the one cleared.
pub test_bit-clear_bit :
    (x n m : ℕ)
    → x < 256
    → IsPosition n
    → IsPosition m
    → test_bit (clear_bit 8 x n) m ≡ (not (n == m) && test_bit x m)
test_bit-clear_bit x n m hx hn hm =
    same-eq _ _ (each_pair_sound clear_row clear_table x n m hx hn hm)

byte_table : table 256 (λ x. table 33 (λ n. ltb (clear_bit 8 x n) 256)) ≡ true
unfolding table clear_bit
byte_table = refl

zero_table : table 8 (λ n. not (test_bit 0 (suc n))) ≡ true
unfolding table test_bit
zero_table = refl

-- No position of the word 0 is set.
pub test_bit-zero : (n : ℕ) → IsPosition n → test_bit 0 n ≡ false
test_bit-zero zero h = absurd (omega arith)
test_bit-zero (suc n) h = flip (test_bit 0 (suc n)) (table-row 8 _ n zero_table (omega arith))
  where
    flip : (b : Bool) → not b ≡ true → b ≡ false
    flip true e = cc
    flip false e = refl

pub set_bit-lt : (x n : ℕ) → set_bit 8 x n < 256
unfolding set_bit
set_bit-lt x n = omega arith

pub clear_bit-lt : (x n : ℕ) → clear_bit 8 x n < 256
unfolding clear_bit
clear_bit-lt x n = omega arith

lost_table : table 256 (λ x. table 23 (λ n. set_bit 8 x (n + 9) == x)) ≡ true
unfolding table set_bit
lost_table = refl

-- A position past the eighth does not fit into the word: SET_BIT is lost.
set_bit_lost : (x n : ℕ) → x < 256 → 9 ≤ n → n ≤ 31 → set_bit 8 x n ≡ x
set_bit_lost x n hx lo hi =
    let e : n - 9 + 9 ≡ n = omega arith in
    rw (← e) (
      (==_iff _ x).0 (
        table-row 23 (λ k. set_bit 8 x (k + 9) == x) (n - 9)
          (table-row 256 (λ y. table 23 (λ k. set_bit 8 y (k + 9) == y)) x lost_table hx)
          (omega arith)))

-- The first marked position above `n`.
mark_above : ℕ → ℕ → ℕ → Option ℕ
mark_above x n zero = none
mark_above x n (suc k) =
    if ltb n (suc k) && test_bit x (suc k) then some (suc k) else mark_above x n k

mark_above_sound :
    (x n k m : ℕ) → mark_above x n k ≡ some m → (n < m) × (m ≤ k) × (test_bit x m ≡ true)
unfolding mark_above
mark_above_sound x n zero m h = cc
mark_above_sound x n (suc k) m h = ground (arith, mark_above_sound x n k m)

mark_above_complete : (x n k m : ℕ) → n < m → m ≤ k → test_bit x m ≡ true → mark_above x n k ≢ none
unfolding mark_above
mark_above_complete x n zero m lo hi t = absurd (omega arith)
mark_above_complete x n (suc k) m lo hi t = ground (arith, mark_above_complete x n k m)

IsLower : ℕ → ℕ → Type 0
IsLower x n = (n ≡ 0) ⊎ (2 ^ (n - 1) ≤ x)

highest_from_lem :
    (f x n : ℕ)
    → x < 2 ^ 31
    → n + f ≡ 32
    → IsLower x n
    → (m : ℕ) × (highest_from f x n ≡ some m) × (x < 2 ^ m) × IsLower x m
unfolding highest_from IsLower
highest_from_lem zero x n hx e (inl z) = absurd (omega arith)
highest_from_lem zero x n hx e (inr l) =
    let at : n ≡ 32 = omega arith in absurd (omega (arith, rw at at l))
highest_from_lem (suc f) x n hx e l = elim (Bool-cases (leb (2 ^ n) x)) [
  | inl more ↦
      rw more (highest_from_lem f x (n + 1) hx (omega arith) (inr (next (leb→le _ _ more))))
  | inr done ↦ (n, rw done, ground arith, l)
]
  where
    next : 2 ^ n ≤ x → 2 ^ (n + 1 - 1) ≤ x
    next h = let p : n + 1 - 1 ≡ n = omega arith in rw p h

-- The loop of get_index_of_highest_set_bit ends for every value that an `int` shift reaches, and
-- returns the number of the highest set bit, or 0 if there is none.
get_index_of_highest_set_bit_lem :
    (x : ℕ)
    → x < 2 ^ 31
    → (m : ℕ) × (get_index_of_highest_set_bit x ≡ some m)
      × (x < 2 ^ m)
      × ((m ≡ 0) ⊎ (2 ^ (m - 1) ≤ x))
unfolding get_index_of_highest_set_bit IsLower
get_index_of_highest_set_bit_lem x h = highest_from_lem 32 x 0 h (omega arith) (inl refl)

abbrev one_if : Option ℕ → ℕ
one_if none = 0
one_if (some m) = 1

abbrev upstream_row : ℕ → ℕ → Bool
upstream_row x n = is_upstream_nf x n == one_if (mark_above x n 8)

upstream_table : each upstream_row ≡ true
unfolding table is_upstream_nf test_bit mark_above
upstream_table = refl

-- is_upstream_NF answers 1 exactly if some later position of the chain is marked as overflowing.
is_upstream_nf_iff :
    (x n : ℕ)
    → x < 256
    → IsPosition n
    → (is_upstream_nf x n ≡ 1) ↔ ((m : ℕ) × (n < m) × (m ≤ 8) × (test_bit x m ≡ true))
is_upstream_nf_iff x n hx hn = elim (Option-cases (mark_above x n 8)) [
  | inl e ↦ (
    λ one. absurd (cc (row, ap one_if e)),
    λ (m, lo, hi, t). absurd (mark_above_complete x n 8 m lo hi t e),
  )
  | inr (m, e) ↦ (
    λ one. (
      m,
      ground (arith, mark_above_sound x n 8 m),
      ground (arith, mark_above_sound x n 8 m),
      ground (arith, mark_above_sound x n 8 m),
    ),
    λ w. row ∙ ap one_if e,
  )
]
  where
    row : is_upstream_nf x n ≡ one_if (mark_above x n 8)
    row = (==_iff _ _).0 (each_sound upstream_row upstream_table x n hx hn)
