-- ===== src/Histogram/Samples.antt =====
-- The histogram of the last samples: `histogram_v2_t` of onvm/shared/histogram.h and its functions in
-- onvm/shared/histogram.c.
use nfvnice_source.Histogram.{
  Histogram, max_samples, min_samples, discard_count, max_of, min0, run_avg, hist_init, hist_store,
  hist_mean, hist_median, hist_mode, hist_percentile,
}
use nfvnice_source.Prelude.{
  ℕ, ◌+◌, ◌/◌, ◌%◌, ◌^◌, ◌<◌, ◌≡◌, ◌⊎◌, inl, inr, refl, List, [], ◌∷◌, Option, none, some, Bool,
  true, false, arith, replicate, take, set, ltb, leb, ◌==◌, ◌&&◌, ◌||◌, if◌then◌else◌,
}

pub record Samples : Type 0 where
  pub val : List ℕ
  pub cur_index : ℕ
  pub min_val : ℕ
  pub max_val : ℕ
  pub running_avg : ℕ
  pub histogram : Histogram
  pub is_initialized : ℕ
  pub mean_val : ℕ
  pub median_val : ℕ
  pub mode_val : ℕ
  pub discard_mode : ℕ

-- `hist_init_v2`; the inner histogram stays.
pub hist_init_v2 : Samples → Samples
hist_init_v2 h = record h {
  val = replicate 100 0;
  cur_index = 0;
  is_initialized = 0;
  max_val = 0;
  min_val = 0;
  running_avg = 0;
  mean_val = 0;
  median_val = 0;
  mode_val = 0;
  discard_mode = 0;
}

-- The loop of `hist_compute_v2`.
pub store_all : Histogram → List ℕ → Option Histogram
store_all g [] = some g
store_all g (x ∷ xs) = elim (hist_store g x) [ none ↦ none | some g' ↦ store_all g' xs ]

-- The histogram that the samples go into.
abbrev pub target : Samples → Histogram
target h =
    if h.is_initialized == 0
    then hist_init ((h.max_val + h.min_val / 2) % 2 ^ 32) h.min_val
    else h.histogram

abbrev pub filled : Samples → Histogram → Samples
filled h g = record h { histogram = g; is_initialized = 1; cur_index = 0 }

-- The early returns of `hist_compute_v2`.
abbrev pub too_few : Samples → Bool
too_few h =
    (h.is_initialized == 0) && ltb h.cur_index min_samples || (h.max_val == 0) || (h.min_val == 0)

pub hist_compute_v2 : Samples → Option Samples
hist_compute_v2 h =
    if too_few h then some h else elim (store_all (target h) (take h.cur_index h.val)) [
      | none ↦ none
      | some g ↦ some (filled h g)
    ]

-- `hist_store_v2`, from the store into `val` on.
abbrev pub sampled : Samples → ℕ → Samples
sampled h x = record h {
  val = set h.val h.cur_index x;
  cur_index = h.cur_index + 1;
  max_val = max_of h.max_val x;
  min_val = min0 h.min_val x;
  running_avg = run_avg h.running_avg x;
}

abbrev pub rewind : Option Samples → Option Samples
rewind none = none
rewind (some h) = some (record h { cur_index = 0 })

pub hist_store_v2 : Samples → ℕ → Option Samples
hist_store_v2 h x =
    if ltb h.discard_mode discard_count
    then some (record h { discard_mode = h.discard_mode + 1 })
    else if leb max_samples h.cur_index
    then none
    else if h.cur_index + 1 == max_samples
    then rewind (hist_compute_v2 (sampled h x))
    else some (sampled h x)

abbrev pub compute_if_any : Samples → Option Samples
compute_if_any h = if h.cur_index == 0 then some h else hist_compute_v2 h

-- `hist_extract_all_v2`.
abbrev pub summarise : Samples → Samples
summarise h = record h {
  mean_val = hist_mean h.histogram;
  median_val = hist_median h.histogram;
  mode_val = hist_mode h.histogram;
}

pub hist_extract_all_v2 : Samples → Option Samples
hist_extract_all_v2 h = elim (compute_if_any h) [ none ↦ none | some h' ↦ some (summarise h') ]

-- `hist_extract_v2`, by the number of the value type, with the samples afterwards.
pub hist_extract_v2 : Samples → ℕ → Option (ℕ × Samples)
hist_extract_v2 h val_type =
    if val_type == 4
    then some (h.min_val, h)
    else if val_type == 5
    then some (h.max_val, h)
    else if val_type == 1
    then elim (compute_if_any h) [
      | none ↦ none
      | some h' ↦ some (hist_mean h'.histogram, record h' { mean_val = hist_mean h'.histogram })
    ]
    else if val_type == 2
    then elim (compute_if_any h) [
      | none ↦ none
      | some h' ↦
          some (hist_median h'.histogram, record h' { median_val = hist_median h'.histogram })
    ]
    else if val_type == 3
    then elim (compute_if_any h) [
      | none ↦ none
      | some h' ↦ some (hist_mode h'.histogram, record h' { mode_val = hist_mode h'.histogram })
    ]
    else if leb 6 val_type && leb val_type 9
    then some (hist_percentile h.histogram val_type, h)
    else some (h.running_avg, h)

-- With fewer than 100 samples kept, a store never writes behind them: it is done and fewer than 100
-- samples are kept again, or what failed is the computation of the histogram from the samples.
hist_store_v2-cur_index :
    (h : Samples) (x : ℕ)
    → h.cur_index < max_samples
    → ((h' : Samples) × (hist_store_v2 h x ≡ some h') × (h'.cur_index < max_samples))
      ⊎ ((hist_store_v2 h x ≡ none) × (hist_compute_v2 (sampled h x) ≡ none))
unfolding hist_store_v2
hist_store_v2-cur_index h x inside =
    by_tests (ltb h.discard_mode discard_count) (leb max_samples h.cur_index) refl
      (h.cur_index + 1 == max_samples) refl (hist_compute_v2 (sampled h x))
  where
    Answer : Option Samples → Option Samples → Type 0
    Answer answer computed =
        ((h' : Samples) × (answer ≡ some h') × (h'.cur_index < max_samples))
        ⊎ ((answer ≡ none) × (computed ≡ none))

    by_tests :
        (discards outside : Bool)
        → leb max_samples h.cur_index ≡ outside
        → (complete : Bool) → (h.cur_index + 1 == max_samples) ≡ complete
        → (computed : Option Samples)
        → Answer
            (if discards
              then some (record h { discard_mode = h.discard_mode + 1 })
              else if outside
              then none
              else if complete
              then rewind computed
              else some (sampled h x))
            computed
    by_tests true o e c f computed =
        inl (record h { discard_mode = h.discard_mode + 1 }, refl, inside)
    by_tests false true e c f computed = absurd (ground arith)
    by_tests false false e true f none = inr (refl, refl)
    by_tests false false e true f (some g) = inl (record g { cur_index = 0 }, refl, omega arith)
    by_tests false false e false f computed = inl (sampled h x, refl, ground arith)
