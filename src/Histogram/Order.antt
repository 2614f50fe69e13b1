-- ===== src/Histogram/Order.antt =====
-- Which bucket the mode and the percentiles come from.
use native.Mathlib.Nat.{mul-le-mul_left}
use nfvnice_source.Histogram.{
  Histogram, middle, mode_from, hist_mode, percent, percentile_from, at_percent, hist_percentile,
}
use nfvnice_source.Prelude.{
  ℕ, zero, suc, ◌+◌, ◌-◌, ◌*◌, ◌/◌, ◌%◌, ◌^◌, ◌≤◌, ◌<◌, ◌≡◌, ◌⊎◌, inl, inr, refl, sym, ap, ◌∙◌,
  Bool-cases, List, [], ◌∷◌, Option, none, some, arith, length, get_or, ltb, ltb→lt,
}

-- The greatest count, and where the search found it.
Greatest : List ℕ → ℕ → ℕ → ℕ → ℕ → Type 0
Greatest xs i at most r =
    (m : ℕ) × (most ≤ m)
    × ((k : ℕ) → get_or xs k 0 ≤ m)
    × (((r ≡ at) × (m ≡ most)) ⊎ ((i ≤ r) × (get_or xs (r - i) 0 ≡ m)))

mode_from_lem : (xs : List ℕ) (i at most : ℕ) → Greatest xs i at most (mode_from xs i at most)
unfolding mode_from Greatest
mode_from_lem [] i at most = (most, omega arith, λ k. omega arith, inl (refl, refl))
mode_from_lem (x ∷ xs) i at most = elim (Bool-cases (ltb most x)) [
  | inl more ↦ rw (more) (taken (ltb→lt most x more) (mode_from_lem xs (i + 1) i x))
  | inr less ↦ rw (less) (passed (ground arith) (mode_from_lem xs (i + 1) at most))
]
  where
    later : (r m : ℕ) → i + 1 ≤ r → get_or xs (r - (i + 1)) 0 ≡ m → get_or (x ∷ xs) (r - i) 0 ≡ m
    later r m h e =
        let s : r - i ≡ suc (r - (i + 1)) = omega arith in ap (λ k. get_or (x ∷ xs) k 0) s ∙ e

    here : get_or (x ∷ xs) (i - i) 0 ≡ x
    here = let s : i - i ≡ 0 = omega arith in ap (λ k. get_or (x ∷ xs) k 0) s

    bound : (m : ℕ) → x ≤ m → ((k : ℕ) → get_or xs k 0 ≤ m) → (k : ℕ) → get_or (x ∷ xs) k 0 ≤ m
    bound m h b zero = h
    bound m h b (suc k) = b k

    taken :
        most < x
        → Greatest xs (i + 1) i x (mode_from xs (i + 1) i x)
        → Greatest (x ∷ xs) i at most (mode_from xs (i + 1) i x)
    taken h (m, lo, b, inl (e, f)) = (
      m,
      omega arith,
      bound m lo b,
      inr (omega arith, ap (λ r. get_or (x ∷ xs) (r - i) 0) e ∙ here ∙ sym f),
    )
    taken h (m, lo, b, inr (g, f)) =
        (m, omega arith, bound m lo b, inr (omega arith, later (mode_from xs (i + 1) i x) m g f))

    passed :
        x ≤ most
        → Greatest xs (i + 1) at most (mode_from xs (i + 1) at most)
        → Greatest (x ∷ xs) i at most (mode_from xs (i + 1) at most)
    passed h (m, lo, b, inl (e, f)) = (m, lo, bound m (omega arith) b, inl (e, f))
    passed h (m, lo, b, inr (g, f)) = (
      m,
      lo,
      bound m (omega arith) b,
      inr (omega arith, later (mode_from xs (i + 1) at most) m g f),
    )

-- The mode is the middle of a bucket that no other bucket exceeds.
hist_mode_lem :
    (h : Histogram)
    → (r : ℕ) × (hist_mode h ≡ middle h r) × ((k : ℕ) → get_or h.data_ k 0 ≤ get_or h.data_ r 0)
unfolding hist_mode Greatest
hist_mode_lem h = (r, refl, by_place (mode_from_lem h.data_ 0 0 0))
  where
    r : ℕ
    r = mode_from h.data_ 0 0 0

    by_place : Greatest h.data_ 0 0 0 r → (k : ℕ) → get_or h.data_ k 0 ≤ get_or h.data_ r 0
    by_place (m, lo, b, inl (e, f)) k = omega (arith, b k)
    by_place (m, lo, b, inr (g, f)) k =
        let s : r - 0 ≡ r = omega arith in omega (arith, b k, f, ap (λ j. get_or h.data_ j 0) s)

percentile_from-ge : (xs : List ℕ) (i total p : ℕ) → i ≤ percentile_from xs i total p
unfolding percentile_from
percentile_from-ge [] i total p = omega arith
percentile_from-ge (x ∷ xs) i total p =
    ground (arith, percentile_from-ge xs (i + 1) ((total + x) % 2 ^ 32) p)

percentile_from-le : (xs : List ℕ) (i total p : ℕ) → percentile_from xs i total p ≤ i + length xs
unfolding percentile_from
percentile_from-le [] i total p = omega arith
percentile_from-le (x ∷ xs) i total p =
    ground (arith, percentile_from-le xs (i + 1) ((total + x) % 2 ^ 32) p)

percentile_from_mono :
    (xs : List ℕ) (i total p q : ℕ)
    → p ≤ q
    → percentile_from xs i total p ≤ percentile_from xs i total q
unfolding percentile_from
percentile_from_mono [] i total p q h = omega arith
percentile_from_mono (x ∷ xs) i total p q h = ground (
  arith,
  percentile_from_mono xs (i + 1) ((total + x) % 2 ^ 32) p q h,
  percentile_from-ge xs (i + 1) ((total + x) % 2 ^ 32) q,
)

-- No sum of the histogram wraps.
pub record Unwrapped (h : Histogram) : Type 0 where
  pub elements : length h.data_ ≡ 100
  pub range : h.lowest + h.bucket_size * 201 < 2 ^ 32
  pub counts : h.total_count * 100 < 2 ^ 32

middle_mono : (h : Histogram) (i j : ℕ) → Unwrapped h → i ≤ j → j ≤ 100 → middle h i ≤ middle h j
middle_mono h i j v hi hj = omega (
  arith,
  v.range,
  mul-le-mul_left h.bucket_size hi,
  mul-le-mul_left h.bucket_size hj,
  distr i,
  distr j,
)
  where
    distr : (k : ℕ) → h.bucket_size * (k + 1) ≡ h.bucket_size * k + h.bucket_size
    distr k = grind arith

at_percent_mono :
    (h : Histogram) (p q : ℕ) → Unwrapped h → p ≤ q → q ≤ 100 → at_percent h p ≤ at_percent h q
unfolding at_percent
at_percent_mono h p q v hp hq =
    middle_mono h (place p) (place q) v
      (percentile_from_mono h.data_ 0 0 (h.total_count * p % 2 ^ 32 / 100)
        (h.total_count * q % 2 ^ 32 / 100)
        (omega
          (arith, v.counts, mul-le-mul_left h.total_count hp, mul-le-mul_left h.total_count hq)))
      (omega (arith, percentile_from-le h.data_ 0 0 (h.total_count * q % 2 ^ 32 / 100), v.elements))
  where
    place : ℕ → ℕ
    place p = percentile_from h.data_ 0 0 (h.total_count * p % 2 ^ 32 / 100)

percentile_at :
    (h : Histogram) (t p : ℕ) → percent t ≡ some p → hist_percentile h t ≡ at_percent h p
unfolding hist_percentile
percentile_at h t p e = ap (λ (o : Option ℕ). elim o [ none ↦ 0 | some p ↦ at_percent h p ]) e

-- In a histogram of 100 buckets whose sums do not wrap, a value type with a percentage not above
-- that of another, which is at most 100, never has the greater percentile.
hist_percentile_mono :
    (h : Histogram) (t u p q : ℕ)
    → Unwrapped h
    → percent t ≡ some p
    → percent u ≡ some q
    → p ≤ q
    → q ≤ 100
    → hist_percentile h t ≤ hist_percentile h u
hist_percentile_mono h t u p q v ht hu hp hq =
    omega (arith, at_percent_mono h p q v hp hq, percentile_at h t p ht, percentile_at h u q hu)
