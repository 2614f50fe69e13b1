-- ===== src/Sort.antt =====
-- Sorting arrays: onvm/shared/onvm_sort.c, over the `qsort` of the C library.
pub mod Order
pub mod Halves
mod Tests
use nfvnice_source.Prelude.{
  ℕ, ◌%◌, ◌^◌, List, ◌++◌, Option, none, some, Bool, true, false, take, drop, ltb, if◌then◌else◌, ℤ,
  pos, negsuc,
}

-- `qsort` on the elements of an array, with the comparison function.
pub record Qsort : Type 1 where
  pub qsort : (A : Type 0) → (A → A → ℤ) → List A → List A

-- `<` on `int`.
pub int_lt : ℤ → ℤ → Bool
int_lt (pos a) (pos b) = ltb a b
int_lt (pos a) (negsuc b) = false
int_lt (negsuc a) (pos b) = true
int_lt (negsuc a) (negsuc b) = ltb b a

-- The bodies of the comparison functions, with the `<` of the type that they read.
pub ascending : {A : Type 0} → (A → A → Bool) → A → A → ℤ
ascending lt a b = if lt a b then negsuc 0 else if lt b a then pos 1 else pos 0

pub descending : {A : Type 0} → (A → A → Bool) → A → A → ℤ
descending lt a b = if lt a b then pos 1 else if lt b a then negsuc 0 else pos 0

pub onvm_cmp_int_a : ℤ → ℤ → ℤ
onvm_cmp_int_a a b = ascending int_lt a b

pub onvm_cmp_int_d : ℤ → ℤ → ℤ
onvm_cmp_int_d a b = descending int_lt a b

-- The functions for `uint32_t` read four bytes: of a wider element on a little-endian host, the low half.
abbrev pub low_lt : ℕ → ℕ → Bool
low_lt a b = ltb (a % 2 ^ 32) (b % 2 ^ 32)

pub onvm_cmp_uint32_a : ℕ → ℕ → ℤ
onvm_cmp_uint32_a a b = ascending low_lt a b

pub onvm_cmp_uint32_d : ℕ → ℕ → ℤ
onvm_cmp_uint32_d a b = descending low_lt a b

-- `ONVM_SORT_MODE_E`.
pub data SortMode : Type 0 where
  sort_ascending sort_descending : SortMode

-- `ONVM_SORT_DATA_TYPE_E`, and the elements of an array of that type.
pub data DataType : Type 0 where
  int uint32 uint64 custom : DataType

abbrev pub Element : DataType → Type 0
Element DataType.int = ℤ
Element _ = ℕ

module _ (q : Qsort) where
  -- The first `count` elements are given to `qsort`.
  abbrev pub sort_front : {A : Type 0} → (A → A → ℤ) → ℕ → List A → List A
  sort_front {A} cmp count xs = q.qsort A cmp (take count xs) ++ drop count xs

  pub onvm_sort_int : SortMode → ℕ → List ℤ → List ℤ
  onvm_sort_int SortMode.sort_descending count xs = sort_front onvm_cmp_int_d count xs
  onvm_sort_int _ count xs = sort_front onvm_cmp_int_a count xs

  pub onvm_sort_uint32 : SortMode → ℕ → List ℕ → List ℕ
  onvm_sort_uint32 SortMode.sort_descending count xs = sort_front onvm_cmp_uint32_d count xs
  onvm_sort_uint32 _ count xs = sort_front onvm_cmp_uint32_a count xs

  -- `onvm_sort_uint64` takes the comparison functions for `uint32_t`.
  pub onvm_sort_uint64 : SortMode → ℕ → List ℕ → List ℕ
  onvm_sort_uint64 SortMode.sort_descending count xs = sort_front onvm_cmp_uint32_d count xs
  onvm_sort_uint64 _ count xs = sort_front onvm_cmp_uint32_a count xs

  -- `onvm_sort_generic`; `cf` is the comparison function, or NULL.
  pub onvm_sort_generic :
      (t : DataType)
      → SortMode
      → ℕ
      → Option (Element t → Element t → ℤ)
      → List (Element t)
      → List (Element t)
  onvm_sort_generic DataType.int mode count (some cf) xs = sort_front cf count xs
  onvm_sort_generic DataType.uint32 mode count (some cf) xs = sort_front cf count xs
  onvm_sort_generic DataType.uint64 mode count (some cf) xs = sort_front cf count xs
  onvm_sort_generic DataType.custom mode count (some cf) xs = sort_front cf count xs
  onvm_sort_generic DataType.int mode count none xs = onvm_sort_int mode count xs
  onvm_sort_generic DataType.uint32 mode count none xs = onvm_sort_uint32 mode count xs
  onvm_sort_generic DataType.uint64 mode count none xs = onvm_sort_uint64 mode count xs
  onvm_sort_generic DataType.custom mode count none xs = xs
