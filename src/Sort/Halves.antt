-- ===== src/Sort/Halves.antt =====
-- Sorting an array of `uint64_t`, which compares the low halves of its elements only.
use mathlib.Core.Logic.Or
use mathlib.Core.List.{Pairwise, Mem, mem-cons, not-mem-nil, Pairwise-append}
use mathlib.Core.List.Pairwise
use mathlib.Core.List.Perm
use native.Mathlib.Bridge.{le_prop}
use nfvnice_source.Sort.{Qsort, low_lt, SortMode, DataType, onvm_sort_generic}
use nfvnice_source.Sort.Order.{Sorts, sort_uint64_low}
use nfvnice_source.Prelude.{
  ℕ, ◌%◌, ◌^◌, ◌≤◌, ◌<◌, ◌≡◌, ap, subst, List, [], ◌∷◌, none, false, take, arith,
}

Empty-prop : IsProp ⊥
Empty-prop = hlevel

abbrev Both : ℕ → ℕ → Type 0
Both x y = (low_lt y x ≡ false) × (x ≤ y)

-- No list is in order by low halves and by value, if two of its elements differ in the two orders.
clash :
    {a b : ℕ}
    → a < b
    → b % 2 ^ 32 < a % 2 ^ 32
    → (xs : List ℕ) → Pairwise Both xs
    → Mem a xs
    → Mem b xs
    → ⊥
clash lt low [] p ma mb = not-mem-nil ma
clash {a} {b} lt low (x ∷ xs) (Pairwise.cons hx p) ma mb =
    Or.elim Empty-prop (mem-cons.0 ma)
      (λ ea.
        Or.elim Empty-prop (mem-cons.0 mb) (λ eb. absurd (omega (arith, ea, eb)))
          (λ mb'. absurd (ground (arith, ap (λ (t : ℕ). t % 2 ^ 32) ea, (hx b mb').0))))
      (λ ma'.
        Or.elim Empty-prop (mem-cons.0 mb) (λ eb. absurd (omega (arith, eb, (hx a ma').1)))
          (λ mb'. clash lt low xs p ma' mb'))

-- The C library sorts, and among the first `count` elements of an array of `uint64_t` are two, `a` below
-- `b`, whose low 32 bits stand the other way round. Sorted in ascending mode, the array is not ascending.
onvm_sort_uint64_unsorted :
    (q : Qsort) (lib : Sorts q) (count : ℕ) (xs : List ℕ) (a b : ℕ)
    → Mem a (take count xs)
    → Mem b (take count xs)
    → a < b
    → b % 2 ^ 32 < a % 2 ^ 32
    → ¬ Pairwise
        (λ x y. x ≤ y)
        (onvm_sort_generic q DataType.uint64 SortMode.sort_ascending count none xs)
unfolding onvm_sort_generic
onvm_sort_uint64_unsorted q lib count xs a b ma mb lt low sorted =
    let (front, e, p, o) = sort_uint64_low q lib SortMode.sort_ascending count xs in
    let values =
      ((Pairwise-append (λ x y. le_prop)).0 (subst (Pairwise (λ x y. x ≤ y)) e sorted)).0 in
    clash lt low front (Pairwise.and o values) ((Perm.mem_iff p).1 ma) ((Perm.mem_iff p).1 mb)
