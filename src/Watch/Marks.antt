-- ===== src/Watch/Marks.antt =====
-- What the two loops over the positions of a chain do to its word, and the loops over the chains.
use nfvnice_source.Bits.{clear_bit, test_bit}
use nfvnice_source.Bits.Laws.{IsPosition, test_bit-set_bit, test_bit-clear_bit, clear_bit-lt}
use nfvnice_source.Chain.{Chain}
use nfvnice_source.Watch.{mark_from, clear_from}
use nfvnice_source.Prelude.{
  ℕ, zero, suc, ◌+◌, ◌≤◌, ◌<◌, ◌≡◌, ◌⊎◌, inl, inr, refl, sym, ap, ap₂, subst, ◌∙◌, Bool, true,
  false, not, ◌&&◌, ◌||◌, Bool-cases, arith, get_or, ltb, leb, ◌==◌, ==_iff, if◌then◌else◌,
}

-- The NF stands at position `i`, and has not been marked there.
abbrev pub is_open : ℕ → Chain → ℕ → Bool
is_open nf ch i = (nf == get_or ch.nf_instance_id i 0) && not (test_bit ch.overflowing i)

-- Position `j`, from `i` on, is the first open one.
abbrev pub IsFirst : ℕ → Chain → ℕ → ℕ → Type 0
IsFirst nf ch i j = (is_open nf ch j ≡ true) × ((l : ℕ) → i ≤ l → l < j → is_open nf ch l ≡ false)

pub true-ne-false : ◌≡◌ {A = Bool} true false → ⊥
true-ne-false e = cc

abbrev pub Marked : ℕ → Chain → ℕ → ℕ → ℕ → Type 0
Marked nf ch left i j =
    (test_bit ch.overflowing j ≡ true) ⊎ ((i ≤ j) × (j < i + left) × IsFirst nf ch i j)

abbrev pub bit_after : ℕ → Chain → ℕ → ℕ → ℕ → Bool
bit_after nf ch left i j = test_bit (mark_from nf ch left i).overflowing j

module _ (nf : ℕ) (ch : Chain) (byte : ch.overflowing < 256) where
  mark_open :
      (left i j : ℕ)
      → 1 ≤ i
      → i + suc left ≤ 9
      → IsPosition j
      → is_open nf ch i ≡ true
      → bit_after nf ch (suc left) i j ≡ ((i == j) || test_bit ch.overflowing j)
  unfolding mark_from
  mark_open left i j lo hi hj o =
      rw o (test_bit-set_bit ch.overflowing i j byte (omega arith, omega arith) hj)

  mark_shut :
      (left i j : ℕ)
      → is_open nf ch i ≡ false
      → bit_after nf ch (suc left) i j ≡ bit_after nf ch left (i + 1) j
  unfolding mark_from
  mark_shut left i j s = rw s refl

  pub mark_from_only :
      (left i j : ℕ)
      → 1 ≤ i
      → i + left ≤ 9
      → IsPosition j
      → bit_after nf ch left i j ≡ true
      → Marked nf ch left i j
  unfolding mark_from
  mark_from_only zero i j lo hi hj t = inl t
  mark_from_only (suc left) i j lo hi hj t = elim (Bool-cases (is_open nf ch i)) [
    | inl o ↦ elim (Bool-cases (i == j)) [
      | inl here ↦
          let e = (==_iff i j).0 here in
          inr (
            omega arith,
            omega arith,
            (subst (λ (x : ℕ). is_open nf ch x ≡ true) e o, λ l a b. absurd (omega arith)),
          )
      | inr other ↦ inl (
          subst (λ (b : Bool). (b || test_bit ch.overflowing j) ≡ true) other
            (sym (mark_open left i j lo hi hj o) ∙ t))
    ]
    | inr s ↦
        elim (mark_from_only left (i + 1) j (omega arith) (omega arith) hj
          (sym (mark_shut left i j s) ∙ t)) [
            | inl old ↦ inl old
            | inr (a, b, first) ↦
                inr (omega arith, omega arith, (first.0, λ l x y. later l s first.1 x y))
          ]
  ]
    where
      later :
          (l : ℕ)
          → is_open nf ch i ≡ false
          → ((m : ℕ) → i + 1 ≤ m → m < j → is_open nf ch m ≡ false)
          → i ≤ l
          → l < j
          → is_open nf ch l ≡ false
      later l s rest x y = elim (Bool-cases (i == l)) [
        | inl e ↦ subst (λ (m : ℕ). is_open nf ch m ≡ false) ((==_iff i l).0 e) s
        | inr ne ↦ rest l (ground arith) y
      ]

  pub mark_from_all :
      (left i j : ℕ)
      → 1 ≤ i
      → i + left ≤ 9
      → IsPosition j
      → Marked nf ch left i j
      → bit_after nf ch left i j ≡ true
  unfolding mark_from
  mark_from_all zero i j lo hi hj (inl t) = t
  mark_from_all zero i j lo hi hj (inr (a, b, first)) = absurd (omega arith)
  mark_from_all (suc left) i j lo hi hj m = elim (Bool-cases (is_open nf ch i)) [
    | inl o ↦ mark_open left i j lo hi hj o ∙ at_open o m
    | inr s ↦
        mark_shut left i j s
        ∙ mark_from_all left (i + 1) j (omega arith) (omega arith) hj (behind s m)
  ]
    where
      at_open :
          is_open nf ch i ≡ true
          → Marked nf ch (suc left) i j
          → ((i == j) || test_bit ch.overflowing j) ≡ true
      at_open o (inl t) = ground (arith)
      at_open o (inr (a, b, first)) = elim (Bool-cases (i == j)) [
        | inl e ↦ rw e refl
        | inr ne ↦ absurd (true-ne-false (sym o ∙ first.1 i (omega arith) (ground arith)))
      ]

      behind : is_open nf ch i ≡ false → Marked nf ch (suc left) i j → Marked nf ch left (i + 1) j
      behind s (inl t) = inl t
      behind s (inr (a, b, first)) = elim (Bool-cases (i == j)) [
        | inl e ↦ absurd (
            true-ne-false
              (sym first.0 ∙ subst (λ (x : ℕ). is_open nf ch x ≡ false) ((==_iff i j).0 e) s))
        | inr ne ↦ inr (ground arith, omega arith, (first.0, λ l x y. first.1 l (omega arith) y))
      ]

-- NF `nf` stands at one of the `left` positions from `i` on, at `j`.
abbrev pub stands_at : ℕ → Chain → ℕ → ℕ → ℕ → Bool
stands_at nf ch left i j = leb i j && (ltb j (i + left) && (nf == get_or ch.nf_instance_id j 0))

abbrev pub cleared : ℕ → Chain → ℕ → Chain
cleared nf ch i =
    if (nf == get_or ch.nf_instance_id i 0) && test_bit ch.overflowing i
    then record ch { overflowing = clear_bit 8 ch.overflowing i }
    else ch

cleared-lt :
    (nf : ℕ) (ch : Chain) (i : ℕ) → ch.overflowing < 256 → (cleared nf ch i).overflowing < 256
cleared-lt nf ch i h = ground (arith, clear_bit-lt ch.overflowing i)

cleared-ids : (nf : ℕ) (ch : Chain) (i : ℕ) → (cleared nf ch i).nf_instance_id ≡ ch.nf_instance_id
cleared-ids nf ch i = ground arith

cleared-bit :
    (nf : ℕ) (ch : Chain) (i j : ℕ)
    → ch.overflowing < 256
    → IsPosition i
    → IsPosition j
    → test_bit (cleared nf ch i).overflowing j
      ≡ (test_bit ch.overflowing j && not ((i == j) && (nf == get_or ch.nf_instance_id j 0)))
cleared-bit nf ch i j h hi hj = ground (arith, test_bit-clear_bit ch.overflowing i j h hi hj)

one_more :
    (x n : Bool) (i left j : ℕ)
    → ((x && not ((i == j) && n)) && not (leb (i + 1) j && (ltb j (i + 1 + left) && n)))
      ≡ (x && not (leb i j && (ltb j (i + suc left) && n)))
one_more true true i left j = ground arith
one_more true false i left j = ground arith
one_more false n i left j = ground arith

pub clear_from_lem :
    (nf : ℕ) (ch : Chain) (left i j : ℕ)
    → ch.overflowing < 256
    → 1 ≤ i
    → i + left ≤ 9
    → IsPosition j
    → test_bit (clear_from nf ch left i).overflowing j
      ≡ (test_bit ch.overflowing j && not (stands_at nf ch left i j))
unfolding clear_from
clear_from_lem nf ch zero i j h lo hi hj = ground arith
clear_from_lem nf ch (suc left) i j h lo hi hj =
    clear_from_lem nf (cleared nf ch i) left (i + 1) j (cleared-lt nf ch i h) (omega arith)
      (omega arith) hj
    ∙ ap₂ (λ a b. a && not b) (cleared-bit nf ch i j h (omega arith, omega arith) hj)
        (ap (λ ids. leb (i + 1) j && (ltb j (i + 1 + left) && (nf == get_or ids j 0)))
          (cleared-ids nf ch i))
    ∙ one_more (test_bit ch.overflowing j) (nf == get_or ch.nf_instance_id j 0) i left j
