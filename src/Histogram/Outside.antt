-- ===== src/Histogram/Outside.antt =====
-- Stores outside the array of buckets, in onvm/shared/histogram.c.
use nfvnice_source.Histogram.Store.{Beyond, bucket_of-ge, store_fits}
use native.Mathlib.Nat.{le-div_iff_mul-le}
use nfvnice_source.Histogram.{Histogram, empty, hist_init, bucket_of, hist_store}
use nfvnice_source.Prelude.{
  ℕ, ◌+◌, ◌-◌, ◌*◌, ◌/◌, ◌%◌, ◌^◌, ◌≤◌, ◌<◌, ◌≡◌, ◌↔◌, inl, inr, refl, sym, subst, ◌∙◌, true, false,
  Bool-cases, min, none, none-some, arith, ltb, ltb→lt, ◌==◌,
}

bucket_of-Beyond :
    (h : Histogram) (val : ℕ) → 0 < h.bucket_size → Beyond h val → 100 ≤ bucket_of h val
unfolding bucket_of Beyond
bucket_of-Beyond h val pos (lo, hi, far) =
    let e : 100 ≤ (val - h.lowest) / h.bucket_size = (le-div_iff_mul-le pos).1 (omega arith) in
    ground arith

store_far :
    (h : Histogram) (val : ℕ) → 0 < h.bucket_size → 100 ≤ bucket_of h val → hist_store h val ≡ none
unfolding hist_store
store_far h val pos far = rw (some_size, outside) refl
  where
    some_size : (h.bucket_size == 0) ≡ false
    some_size = ground arith

    outside : ltb (bucket_of h val) 100 ≡ false
    outside = ground arith

-- A store into a histogram whose buckets have a size writes outside the array exactly if the value
-- lies in the range but behind the last bucket.
hist_store_iff :
    (h : Histogram) (val : ℕ) → 0 < h.bucket_size → (hist_store h val ≡ none) ↔ Beyond h val
hist_store_iff h val pos = (
  λ faults. elim (Bool-cases (ltb (bucket_of h val) 100)) [
    | inl fits ↦
        absurd (none-some (sym faults ∙ store_fits h val pos (ltb→lt (bucket_of h val) 100 fits)))
    | inr far ↦ bucket_of-ge h val pos (ground arith)
  ],
  λ beyond. store_far h val pos (bucket_of-Beyond h val pos beyond),
)

init_small :
    (max least : ℕ)
    → ((max - min max least) / 100 == 0) ≡ true
    → hist_init max least ≡ empty 2 ((min max least + 200) % 2 ^ 32) (min max least)
unfolding hist_init
init_small max least e = rw (e) refl

init_large :
    (max least : ℕ)
    → ((max - min max least) / 100 == 0) ≡ false
    → hist_init max least ≡ empty ((max - min max least) / 100) max (min max least)
unfolding hist_init
init_large max least e = rw (e) refl

-- A fresh histogram, over a range whose end does not wrap, cannot store its own upper end: the write
-- goes outside the array.
hist_store-hist_init :
    (max least : ℕ)
    → min max least + 200 < 2 ^ 32
    → hist_store (hist_init max least) (hist_init max least).highest ≡ none
unfolding Beyond
hist_store-hist_init max least h = elim (Bool-cases (size == 0)) [
  | inl small ↦
      by_range (empty 2 ((min max least + 200) % 2 ^ 32) (min max least))
        (init_small max least small) (ground arith) (omega arith, omega arith, omega arith)
  | inr large ↦
      by_range (empty size max (min max least)) (init_large max least large) (ground arith)
        (omega arith, omega arith, omega arith)
]
  where
    size : ℕ
    size = (max - min max least) / 100

    by_range :
        (g : Histogram)
        → hist_init max least ≡ g
        → 0 < g.bucket_size
        → (g.lowest ≤ g.highest)
          × (g.highest ≤ g.highest)
          × (g.lowest + 100 * g.bucket_size ≤ g.highest)
        → hist_store (hist_init max least) (hist_init max least).highest ≡ none
    by_range g e pos beyond =
        subst (λ x. hist_store x x.highest ≡ none) (sym e)
          ((hist_store_iff g g.highest pos).1 beyond)
