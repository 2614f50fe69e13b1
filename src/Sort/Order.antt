-- ===== src/Sort/Order.antt =====
-- The comparison functions are consistent, and arrays of `int` and of `uint32_t` are sorted.
use mathlib.Core.List.{Pairwise, Perm, Mem}
use mathlib.Core.List.Pairwise
use mathlib.Core.List.Perm
use nfvnice_source.Sort.{
  Qsort, int_lt, ascending, descending, onvm_cmp_int_a, onvm_cmp_int_d, low_lt, onvm_cmp_uint32_a,
  onvm_cmp_uint32_d, SortMode, DataType, sort_front, onvm_sort_int, onvm_sort_uint32,
  onvm_sort_uint64, onvm_sort_generic,
}
use nfvnice_source.Prelude.{
  ℕ, zero, suc, ◌^◌, ◌<◌, ◌≡◌, none, inl, inr, refl, ◌∙◌, sym, List, ◌++◌, Bool, true, false,
  Bool-cases, take, drop, ltb, arith, ℤ, pos, negsuc,
}

-- The sign of the result of a comparison.
abbrev pub is_negative : ℤ → Bool
is_negative (pos n) = false
is_negative (negsuc n) = true

abbrev pub is_positive : ℤ → Bool
is_positive (pos zero) = false
is_positive (pos (suc n)) = true
is_positive (negsuc n) = false

-- What C asks of a comparison function: exchanging the elements exchanges the sign, and "not after"
-- is transitive.
pub record Consistent {A : Type 0} (cmp : A → A → ℤ) : Type 0 where
  pub opposite : (a b : A) → is_negative (cmp a b) ≡ is_positive (cmp b a)
  pub transitive :
      (a b c : A)
      → is_positive (cmp a b) ≡ false
      → is_positive (cmp b c) ≡ false
      → is_positive (cmp a c) ≡ false

-- The C library: for a consistent comparison function the result is a permutation in which no element
-- comes after a later one.
pub record Sorts (q : Qsort) : Type 1 where
  pub permuted :
      (A : Type 0) (cmp : A → A → ℤ) (xs : List A) → Consistent cmp → Perm (q.qsort A cmp xs) xs
  pub ordered :
      (A : Type 0) (cmp : A → A → ℤ) (xs : List A)
      → Consistent cmp
      → Pairwise (λ a b. is_positive (cmp a b) ≡ false) (q.qsort A cmp xs)

-- `lt` is a strict order in which being incomparable is transitive.
record StrictWeak {A : Type 0} (lt : A → A → Bool) : Type 0 where
  asymmetric : (a b : A) → lt a b ≡ true → lt b a ≡ false
  transitive : (a b c : A) → lt b a ≡ false → lt c b ≡ false → lt c a ≡ false

module _ {A : Type 0} (lt : A → A → Bool) (s : StrictWeak lt) where
  ascending-positive : (a b : A) → is_positive (ascending lt a b) ≡ lt b a
  unfolding ascending
  ascending-positive a b = elim (Bool-cases (lt a b)) [
    | inl e ↦ rw (e, s.asymmetric a b e) refl
    | inr e ↦ rw e (ground arith)
  ]

  ascending-negative : (a b : A) → is_negative (ascending lt a b) ≡ lt a b
  unfolding ascending
  ascending-negative a b = ground arith

  ascending-Consistent : Consistent (ascending lt)
  ascending-Consistent = record {
    opposite = λ a b. ascending-negative a b ∙ sym (ascending-positive b a);
    transitive = λ a b c p q.
        ascending-positive a c
        ∙ s.transitive a b c (sym (ascending-positive a b) ∙ p) (sym (ascending-positive b c) ∙ q);
  }

  descending-positive : (a b : A) → is_positive (descending lt a b) ≡ lt a b
  unfolding descending
  descending-positive a b = ground arith

  descending-negative : (a b : A) → is_negative (descending lt a b) ≡ lt b a
  unfolding descending
  descending-negative a b = elim (Bool-cases (lt a b)) [
    | inl e ↦ rw (e, s.asymmetric a b e) refl
    | inr e ↦ rw e (ground arith)
  ]

  descending-Consistent : Consistent (descending lt)
  descending-Consistent = record {
    opposite = λ a b. descending-negative a b ∙ sym (descending-positive b a);
    transitive = λ a b c p q.
        descending-positive a c
        ∙ s.transitive c b a (sym (descending-positive b c) ∙ q)
            (sym (descending-positive a b) ∙ p);
  }

int_lt-StrictWeak : StrictWeak int_lt
unfolding int_lt
int_lt-StrictWeak = record { asymmetric = asym; transitive = trans }
  where
    asym : (a b : ℤ) → int_lt a b ≡ true → int_lt b a ≡ false
    asym (pos a) (pos b) h = ground arith
    asym (pos a) (negsuc b) h = cc
    asym (negsuc a) (pos b) h = refl
    asym (negsuc a) (negsuc b) h = ground arith

    trans : (a b c : ℤ) → int_lt b a ≡ false → int_lt c b ≡ false → int_lt c a ≡ false
    trans (pos a) (pos b) (pos c) h k = ground arith
    trans (pos a) (pos b) (negsuc c) h k = cc
    trans (pos a) (negsuc b) c h k = cc
    trans (negsuc a) b (pos c) h k = refl
    trans (negsuc a) (pos b) (negsuc c) h k = cc
    trans (negsuc a) (negsuc b) (negsuc c) h k = ground arith

low_lt-StrictWeak : StrictWeak low_lt
low_lt-StrictWeak = record {
  asymmetric = λ a b h. ground arith;
  transitive = λ a b c h k. ground arith;
}

-- No element comes after a later one.
abbrev pub InOrder : {A : Type 0} → (A → A → Bool) → SortMode → A → A → Type 0
InOrder lt SortMode.sort_ascending a b = lt b a ≡ false
InOrder lt SortMode.sort_descending a b = lt a b ≡ false

-- The first `count` elements of `xs` are put in order, the others stay.
abbrev pub IsSortedFront : {A : Type 0} → (A → A → Type 0) → ℕ → List A → List A → Type 0
IsSortedFront {A} R count xs r =
    (front : List A) × (r ≡ front ++ drop count xs) × Perm front (take count xs) × Pairwise R front

module _ (q : Qsort) (lib : Sorts q) where
  module _ {A : Type 0} (lt : A → A → Bool) (s : StrictWeak lt) (count : ℕ) (xs : List A) where
    front-ascending :
        IsSortedFront
          (InOrder lt SortMode.sort_ascending)
          count
          xs
          (sort_front q (ascending lt) count xs)
    front-ascending = (
      q.qsort A (ascending lt) (take count xs),
      refl,
      lib.permuted A (ascending lt) (take count xs) (ascending-Consistent lt s),
      Pairwise.imp (λ a b h. sym (ascending-positive lt s a b) ∙ h)
          (lib.ordered A (ascending lt) (take count xs) (ascending-Consistent lt s)),
    )

    front-descending :
        IsSortedFront
          (InOrder lt SortMode.sort_descending)
          count
          xs
          (sort_front q (descending lt) count xs)
    front-descending = (
      q.qsort A (descending lt) (take count xs),
      refl,
      lib.permuted A (descending lt) (take count xs) (descending-Consistent lt s),
      Pairwise.imp (λ a b h. sym (descending-positive lt s a b) ∙ h)
          (lib.ordered A (descending lt) (take count xs) (descending-Consistent lt s)),
    )

  -- The C library sorts. Sorting the first `count` elements of an array of `int` in either mode, with no
  -- comparison function of the caller, puts these elements in the order of the mode, each as often as
  -- before, and leaves the others where they are.
  onvm_sort_int_lem :
      (mode : SortMode) (count : ℕ) (xs : List ℤ)
      → IsSortedFront
          (InOrder int_lt mode)
          count
          xs
          (onvm_sort_generic q DataType.int mode count none xs)
  unfolding onvm_sort_generic onvm_sort_int onvm_cmp_int_a onvm_cmp_int_d
  onvm_sort_int_lem SortMode.sort_ascending count xs =
      front-ascending int_lt int_lt-StrictWeak count xs
  onvm_sort_int_lem SortMode.sort_descending count xs =
      front-descending int_lt int_lt-StrictWeak count xs

  -- The comparison functions for `uint32_t` order by the low 32 bits.
  sort_uint32_low :
      (mode : SortMode) (count : ℕ) (xs : List ℕ)
      → IsSortedFront (InOrder low_lt mode) count xs (onvm_sort_uint32 q mode count xs)
  unfolding onvm_sort_uint32 onvm_cmp_uint32_a onvm_cmp_uint32_d
  sort_uint32_low SortMode.sort_ascending count xs =
      front-ascending low_lt low_lt-StrictWeak count xs
  sort_uint32_low SortMode.sort_descending count xs =
      front-descending low_lt low_lt-StrictWeak count xs

  low_high :
      (mode : SortMode) (a b : ℕ)
      → a < 2 ^ 32
      → b < 2 ^ 32
      → InOrder low_lt mode a b
      → InOrder ltb mode a b
  low_high SortMode.sort_ascending a b ha hb h = ground arith
  low_high SortMode.sort_descending a b ha hb h = ground arith

  -- The same for an array of `uint32_t`.
  onvm_sort_uint32_lem :
      (mode : SortMode) (count : ℕ) (xs : List ℕ)
      → ((x : ℕ) → Mem x (take count xs) → x < 2 ^ 32)
      → IsSortedFront
          (InOrder ltb mode)
          count
          xs
          (onvm_sort_generic q DataType.uint32 mode count none xs)
  unfolding onvm_sort_generic
  onvm_sort_uint32_lem mode count xs words =
      let (front, e, p, o) = sort_uint32_low mode count xs in
      (
        front,
        e,
        p,
        Pairwise.imp_of_mem
            (λ a b ma mb h.
              low_high mode a b (words a ((Perm.mem_iff p).0 ma)) (words b ((Perm.mem_iff p).0 mb))
                h)
            o,
      )

  -- `onvm_sort_uint64` is `onvm_sort_uint32` on wider elements.
  pub sort_uint64_low :
      (mode : SortMode) (count : ℕ) (xs : List ℕ)
      → IsSortedFront (InOrder low_lt mode) count xs (onvm_sort_uint64 q mode count xs)
  unfolding onvm_sort_uint64 onvm_cmp_uint32_a onvm_cmp_uint32_d
  sort_uint64_low SortMode.sort_ascending count xs =
      front-ascending low_lt low_lt-StrictWeak count xs
  sort_uint64_low SortMode.sort_descending count xs =
      front-descending low_lt low_lt-StrictWeak count xs
