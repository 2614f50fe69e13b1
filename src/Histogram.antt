-- ===== src/Histogram.antt =====
-- onvm/shared/histogram.c: histograms of 100 buckets, and the histogram of the last samples of an NF.
-- All numbers are `uint32_t` unless said otherwise; `none` is an access outside an array. The moving
-- average `ewma_avg` is a floating-point computation and is left out, and so are the functions that
-- print and the reference functions that are not compiled.
pub mod Store
pub mod Outside
pub mod Samples
pub mod Order
mod Tests
use nfvnice_source.Prelude.{
  ℕ, zero, suc, ◌+◌, ◌-◌, ◌*◌, ◌/◌, ◌%◌, ◌^◌, min, List, [], ◌∷◌, Option, none, some, Bool, true,
  false, length, replicate, take, get_or, set, ltb, leb, ◌==◌, ◌&&◌, ◌||◌, if◌then◌else◌,
}

-- `HIST_BUCKETS`, `MAX_HISTOGRAM_SAMPLES`, `MIN_SAMPLES_FOR_HISTOGRAM`, `DISCARD_INITIAL_SAMPLES_COUNT`.
abbrev pub buckets : ℕ
buckets = 100

abbrev pub max_samples : ℕ
max_samples = 100

abbrev pub min_samples : ℕ
min_samples = 10

abbrev pub discard_count : ℕ
discard_count = 10

-- `struct histogram`.
pub record Histogram : Type 0 where
  pub data_ : List ℕ
  pub bucket_size : ℕ
  pub highest : ℕ
  pub lowest : ℕ
  pub max_val : ℕ
  pub min_val : ℕ
  pub total_count : ℕ
  pub running_avg : ℕ

-- `MAX`, `MIN0` and `RUN_AVG`.
abbrev pub max_of : ℕ → ℕ → ℕ
max_of a b = if ltb b a then a else b

abbrev pub min0 : ℕ → ℕ → ℕ
min0 a b = if a == 0 then b else min a b

abbrev pub run_avg : ℕ → ℕ → ℕ
run_avg a b = if a == 0 then b else (a + b) % 2 ^ 32 / 2

-- The empty histogram over a range.
abbrev pub empty : ℕ → ℕ → ℕ → Histogram
empty bucket_size highest lowest = record {
  data_ = replicate 100 0;
  bucket_size = bucket_size;
  highest = highest;
  lowest = lowest;
  max_val = 0;
  min_val = 0;
  total_count = 0;
  running_avg = 0;
}

-- `hist_init(h, max, min)`, which sets every field.
pub hist_init : ℕ → ℕ → Histogram
hist_init max least =
    let lowest = min max least in
    let size = (max - lowest) / buckets in
    if size == 0 then empty 2 ((lowest + 2 * buckets) % 2 ^ 32) lowest else empty size max lowest

pub hist_clear : Histogram
hist_clear = hist_init 0 0

-- The bucket of a value.
pub bucket_of : Histogram → ℕ → ℕ
bucket_of h val =
    if ltb val h.lowest
    then 0
    else if ltb h.highest val
    then buckets - 1
    else (val - h.lowest) / h.bucket_size

-- The end of `hist_store`.
abbrev pub count_in : ℕ → ℕ → Histogram → Histogram
count_in index val h = record h {
  max_val = max_of h.max_val val;
  min_val = min0 h.min_val val;
  running_avg = run_avg h.running_avg val;
  data_ = set h.data_ index ((get_or h.data_ index 0 + 1) % 2 ^ 32);
  total_count = (h.total_count + 1) % 2 ^ 32;
}

-- `hist_store`, on a histogram that is there.
pub hist_store : Histogram → ℕ → Option Histogram
hist_store h val =
    if h.bucket_size == 0
    then some h
    else if ltb (bucket_of h val) buckets
    then some (count_in (bucket_of h val) val h)
    else none

-- The middle of a bucket, as it is computed.
abbrev pub middle : Histogram → ℕ → ℕ
middle h i = (h.lowest + (h.bucket_size * i + h.bucket_size * (i + 1)) % 2 ^ 32 / 2) % 2 ^ 32

-- `hist_mean`; `count` is a `uint16_t`.
pub mean_from : Histogram → List ℕ → ℕ → ℕ → ℕ → ℕ
mean_from h [] i total count = if count == 0 then 0 else total / count
mean_from h (x ∷ xs) i total count =
    mean_from h xs (i + 1) ((total + middle h i * x) % 2 ^ 32) ((count + x) % 2 ^ 16)

pub hist_mean : Histogram → ℕ
hist_mean h = mean_from h h.data_ 0 0 0

-- `hist_median`.
pub median_from : Histogram → List ℕ → ℕ → ℕ → ℕ
median_from h [] i total = i
median_from h (x ∷ xs) i total =
    let rest = median_from h xs (i + 1) ((total + x) % 2 ^ 32) in
    if ltb ((h.total_count + 2 ^ 32 - x) % 2 ^ 32 / 2) total then i else rest

pub hist_median : Histogram → ℕ
hist_median h = middle h (median_from h h.data_ 0 0)

-- `hist_mode`.
pub mode_from : List ℕ → ℕ → ℕ → ℕ → ℕ
mode_from [] i max_index max_count = max_index
mode_from (x ∷ xs) i max_index max_count =
    if ltb max_count x then mode_from xs (i + 1) i x else mode_from xs (i + 1) max_index max_count

pub hist_mode : Histogram → ℕ
hist_mode h = middle h (mode_from h.data_ 0 0 0)

-- The percentages that `hist_percentile` knows, by the numbers of `HIST_VAL_TYPE_E`.
abbrev pub percent : ℕ → Option ℕ
percent pt_type =
    if pt_type == 6
    then some 25
    else if pt_type == 2
    then some 50
    else if pt_type == 7
    then some 75
    else if pt_type == 8
    then some 90
    else if pt_type == 9
    then some 99
    else none

pub percentile_from : List ℕ → ℕ → ℕ → ℕ → ℕ
percentile_from [] i total pt_val = i
percentile_from (x ∷ xs) i total pt_val =
    let rest = percentile_from xs (i + 1) ((total + x) % 2 ^ 32) pt_val in
    if ltb pt_val total then i else rest

-- `hist_percentile`.
pub at_percent : Histogram → ℕ → ℕ
at_percent h p = middle h (percentile_from h.data_ 0 0 (h.total_count * p % 2 ^ 32 / 100))

pub hist_percentile : Histogram → ℕ → ℕ
hist_percentile h pt_type = elim (percent pt_type) [ none ↦ 0 | some p ↦ at_percent h p ]
