-- ===== src/Histogram/Store.antt =====
-- Storing a value: when the bucket exists, and what is counted.
use native.Mathlib.Nat.{le-div_iff_mul-le, div-mul-le_self, lt-div-mul-add}
use nfvnice_source.Histogram.{Histogram, bucket_of, count_in, hist_store}
use nfvnice_source.Prelude.{
  ℕ, zero, suc, ◌+◌, ◌-◌, ◌*◌, ◌/◌, ◌%◌, ◌^◌, ◌≤◌, ◌<◌, ◌≡◌, ◌⊎◌, ◌≢◌, inl, inr, refl, ap, ◌∙◌,
  false, Bool-cases, List, [], ◌∷◌, some, arith, length, length-set, get_or, set, ltb, ltb→lt,
  lt→ltb, ◌==◌, ==_iff, get_or-set_self, get_or-set_ne, if◌then◌else◌,
}

-- The value lies in the range but behind the last bucket.
unfoldable pub Beyond : Histogram → ℕ → Type 0
Beyond h val = (h.lowest ≤ val) × (val ≤ h.highest) × (h.lowest + 100 * h.bucket_size ≤ val)

pub bucket_of-ge :
    (h : Histogram) (val : ℕ) → 0 < h.bucket_size → 100 ≤ bucket_of h val → Beyond h val
unfolding bucket_of Beyond
bucket_of-ge h val pos far = (ground arith, ground arith, ground (arith, room))
  where
    room : 100 ≤ (val - h.lowest) / h.bucket_size → 100 * h.bucket_size ≤ val - h.lowest
    room = (le-div_iff_mul-le pos).0

pub store_fits :
    (h : Histogram) (val : ℕ)
    → 0 < h.bucket_size
    → bucket_of h val < 100
    → hist_store h val ≡ some (count_in (bucket_of h val) val h)
unfolding hist_store
store_fits h val pos fits = rw (some_size, lt→ltb (bucket_of h val) 100 fits) refl
  where
    some_size : (h.bucket_size == 0) ≡ false
    some_size = ground arith

-- All that the buckets have counted.
unfoldable pub counted : List ℕ → ℕ
counted [] = 0
counted (x ∷ xs) = x + counted xs

counted-get : (xs : List ℕ) (i : ℕ) → get_or xs i 0 ≤ counted xs
unfolding counted
counted-get [] i = omega arith
counted-get (x ∷ xs) zero = omega arith
counted-get (x ∷ xs) (suc i) = omega (arith, counted-get xs i)

counted-set :
    (xs : List ℕ) (i : ℕ) → i < length xs → counted (set xs i (get_or xs i 0 + 1)) ≡ counted xs + 1
unfolding counted
counted-set [] i h = absurd (omega arith)
counted-set (x ∷ xs) zero h = omega arith
counted-set (x ∷ xs) (suc i) h = omega (arith, counted-set xs i (omega arith))

-- The buckets have counted every store.
pub record Counts (h : Histogram) : Type 0 where
  pub elements : length h.data_ ≡ 100
  pub sized : 0 < h.bucket_size
  pub all : counted h.data_ ≡ h.total_count

-- Bucket `i` is the place of a value: the first one for all below the range, the last one for all above it,
-- and in between the one whose numbers it is among.
pub Place : Histogram → ℕ → ℕ → Type 0
Place h val i =
    (val < h.lowest → i ≡ 0)
    × (h.lowest ≤ val → h.highest < val → i ≡ 99)
    × (h.lowest ≤ val
        → val ≤ h.highest
        → (h.lowest + i * h.bucket_size ≤ val) × (val < h.lowest + (i + 1) * h.bucket_size))

bucket_of-Place : (h : Histogram) (val : ℕ) → 0 < h.bucket_size → Place h val (bucket_of h val)
unfolding bucket_of Place
bucket_of-Place h val sized = (
  λ below. ground arith,
  λ low above. ground arith,
  λ low high. ground (
    arith,
    div-mul-le_self (val - h.lowest) h.bucket_size,
    lt-div-mul-add {a = val - h.lowest} sized,
  ),
)

-- The greatest and the least value, of which 0 means that there is none yet.
pub Extremes : Histogram → ℕ → Histogram → Type 0
Extremes h val h' =
    (val ≤ h'.max_val)
    × (h.max_val ≤ h'.max_val)
    × ((h'.max_val ≡ val) ⊎ (h'.max_val ≡ h.max_val))
    × (h.min_val ≡ 0 → h'.min_val ≡ val)
    × (h.min_val ≢ 0
        → (h'.min_val ≤ val)
          × (h'.min_val ≤ h.min_val)
          × ((h'.min_val ≡ val) ⊎ (h'.min_val ≡ h.min_val)))

count_in-Extremes : (h : Histogram) (val i : ℕ) → Extremes h val (count_in i val h)
unfolding Extremes
count_in-Extremes h val i = (
  ground arith,
  ground arith,
  elim (Bool-cases (ltb val h.max_val)) [
    | inl less ↦ inr (ground (arith, less))
    | inr more ↦ inl (ground (arith, more))
  ],
  λ e. ground arith,
  λ e. (
    ground arith,
    ground arith,
    elim (Bool-cases (ltb val h.min_val)) [
      | inl less ↦ inl (ground (arith, less, e))
      | inr more ↦ inr (ground (arith, more, e))
    ],
  ),
)

-- A histogram whose 100 buckets have counted every store takes a value that is not behind the last
-- bucket, while the count stays below 2^32: the bucket that is the place of the value counts one more and
-- the others stay, together they have again counted every store, the range stays, and the greatest and
-- the least value are those of what was there and the new value, where a least value of 0 means that
-- there was none.
pub hist_store-Counts :
    (h : Histogram) (val : ℕ)
    → Counts h
    → ¬ Beyond h val
    → h.total_count + 1 < 2 ^ 32
    → (i : ℕ) × (h' : Histogram) × (hist_store h val ≡ some h')
      × Place h val i
      × ((j : ℕ)
          → get_or h'.data_ j 0 ≡ (if j == i then get_or h.data_ i 0 + 1 else get_or h.data_ j 0))
      × Counts h'
      × (h'.total_count ≡ h.total_count + 1)
      × (h'.lowest ≡ h.lowest)
      × (h'.highest ≡ h.highest)
      × (h'.bucket_size ≡ h.bucket_size)
      × Extremes h val h'
hist_store-Counts h val v near room = (
  i,
  count_in i val h,
  store_fits h val v.sized inside,
  bucket_of-Place h val v.sized,
  by_place,
  record {
    elements = length-set h.data_ i ((get_or h.data_ i 0 + 1) % 2 ^ 32) ∙ v.elements;
    sized = v.sized;
    all =
        ap (λ x. counted (set h.data_ i x)) small
        ∙ counted-set h.data_ i (omega (arith, inside, v.elements))
        ∙ omega (arith, v.all);
  },
  omega arith,
  refl,
  refl,
  refl,
  count_in-Extremes h val i,
)
  where
    i : ℕ
    i = bucket_of h val

    inside : bucket_of h val < 100
    inside = elim (Bool-cases (ltb (bucket_of h val) 100)) [
      | inl fits ↦ ltb→lt (bucket_of h val) 100 fits
      | inr far ↦ absurd (near (bucket_of-ge h val v.sized (ground arith)))
    ]

    small : (get_or h.data_ i 0 + 1) % 2 ^ 32 ≡ get_or h.data_ i 0 + 1
    small = omega (arith, counted-get h.data_ i, v.all)

    by_place :
        (j : ℕ)
        → get_or (set h.data_ i ((get_or h.data_ i 0 + 1) % 2 ^ 32)) j 0
          ≡ (if j == i then get_or h.data_ i 0 + 1 else get_or h.data_ j 0)
    by_place j = elim (Bool-cases (j == i)) [
      | inl same ↦ rw same (
          rw ((==_iff j i).0 same) (
            get_or-set_self h.data_ i ((get_or h.data_ i 0 + 1) % 2 ^ 32) 0
              (omega (arith, inside, v.elements))
            ∙ small))
      | inr other ↦
          rw other (get_or-set_ne h.data_ ((get_or h.data_ i 0 + 1) % 2 ^ 32) 0 (apart other))
    ]
      where
        apart : (j == i) ≡ false → i ≢ j
        apart other e = ground (arith, e, other)
