-- ===== src/Sort/Tests.antt =====
-- A `qsort` by insertion, and arrays that it sorts.
use mathlib.Core.Logic.Or
use mathlib.Core.List.{Pairwise, Perm, mem-cons, Pairwise-singleton}
use mathlib.Core.List.Perm
use nfvnice_source.Sort.{
  onvm_sort_int, onvm_cmp_int_d, descending, Qsort, int_lt, SortMode, DataType, onvm_sort_generic,
}
use nfvnice_source.Sort.Order.{is_negative, is_positive, Consistent, Sorts}
use nfvnice_source.Prelude.{
  ℕ, ◌≡◌, inl, inr, refl, sym, subst, ◌∙◌, List, [], ◌∷◌, none, true, false, Bool-cases,
  if◌then◌else◌, ℤ, pos, negsuc,
}

module _ {A : Type 0} (cmp : A → A → ℤ) where
  insert_by : A → List A → List A
  insert_by x [] = x ∷ []
  insert_by x (y ∷ ys) =
      let rest = insert_by x ys in if is_positive (cmp x y) then y ∷ rest else x ∷ (y ∷ ys)

  sort_by : List A → List A
  sort_by [] = []
  sort_by (x ∷ xs) = insert_by x (sort_by xs)

  insert_by-perm : (x : A) (ys : List A) → Perm (insert_by x ys) (x ∷ ys)
  unfolding insert_by
  insert_by-perm x [] = Perm.refl (x ∷ [])
  insert_by-perm x (y ∷ ys) = elim (Bool-cases (is_positive (cmp x y))) [
    | inl after ↦ rw after (Perm.trans (Perm.cons y (insert_by-perm x ys)) (Perm.swap x y ys))
    | inr before ↦ rw before (Perm.refl (x ∷ (y ∷ ys)))
  ]

  sort_by-perm : (xs : List A) → Perm (sort_by xs) xs
  unfolding sort_by
  sort_by-perm [] = Perm.refl []
  sort_by-perm (x ∷ xs) = Perm.trans (insert_by-perm x (sort_by xs)) (Perm.cons x (sort_by-perm xs))

  abbrev Ordered : A → A → Type 0
  Ordered a b = is_positive (cmp a b) ≡ false

  module _ (c : Consistent cmp) where
    turned : (x y : A) → is_positive (cmp x y) ≡ true → Ordered y x
    turned x y h = flip (cmp y x) (c.opposite y x ∙ h)
      where
        flip : (z : ℤ) → is_negative z ≡ true → is_positive z ≡ false
        flip (pos n) e = cc
        flip (negsuc n) e = refl

    insert_by-Pairwise :
        (x : A) (ys : List A) → Pairwise Ordered ys → Pairwise Ordered (insert_by x ys)
    unfolding insert_by
    insert_by-Pairwise x [] p = Pairwise-singleton _ x
    insert_by-Pairwise x (y ∷ ys) (Pairwise.cons hy p) = elim (Bool-cases (is_positive (cmp x y))) [
      | inl after ↦ rw after (
          Pairwise.cons
            (λ z m.
              Or.elim (hlevel) (mem-cons.0 ((Perm.mem_iff (insert_by-perm x ys)).0 m))
                (λ e. subst (Ordered y) (sym e) (turned x y after)) (hy z))
            (insert_by-Pairwise x ys p))
      | inr before ↦ rw before (
          Pairwise.cons
            (λ z m.
              Or.elim (hlevel) (mem-cons.0 m) (λ e. subst (Ordered x) (sym e) before)
                (λ m'. c.transitive x y z before (hy z m')))
            (Pairwise.cons hy p))
    ]

    sort_by-Pairwise : (xs : List A) → Pairwise Ordered (sort_by xs)
    unfolding sort_by
    sort_by-Pairwise [] = Pairwise.nil
    sort_by-Pairwise (x ∷ xs) = insert_by-Pairwise x (sort_by xs) (sort_by-Pairwise xs)

abbrev library : Qsort
library = record { qsort = λ A cmp xs. sort_by cmp xs }

library-Sorts : Sorts library
library-Sorts = record {
  permuted = λ A cmp xs c. sort_by-perm cmp xs;
  ordered = λ A cmp xs c. sort_by-Pairwise cmp c xs;
}

-- -3 and 2 in descending order, in front of 7.
abbrev ints : List ℤ
ints = negsuc 2 ∷ pos 2 ∷ pos 7 ∷ []

sorted_ints :
    onvm_sort_generic library DataType.int SortMode.sort_descending 2 none ints
    ≡ pos 2 ∷ negsuc 2 ∷ pos 7 ∷ []
unfolding onvm_sort_generic onvm_sort_int onvm_cmp_int_d descending int_lt sort_by insert_by
sorted_ints = refl

-- 2 ^ 32, whose low half is 0, and 1.
abbrev wide : List ℕ
wide = 4294967296 ∷ 1 ∷ []
