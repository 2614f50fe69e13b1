-- ===== src/Histogram/Tests.antt =====
-- Histograms at concrete ranges.
use nfvnice_source.Histogram.{Histogram, empty, hist_init, bucket_of, hist_store}
use nfvnice_source.Histogram.Samples.{Samples}
use nfvnice_source.Histogram.Store.{Beyond, Place, Extremes, Counts, counted, hist_store-Counts}
use nfvnice_source.Prelude.{
  ℕ, ◌+◌, ◌==◌, if◌then◌else◌, get_or, ◌≡◌, refl, none, some, arith, replicate,
}

-- Buckets of ten values, from 100 to 1200.
abbrev tens : Histogram
tens = empty 10 1200 100

-- Samples from 1 to 199 give buckets of one value, of which there are 100.
narrow : hist_store (hist_init 199 1) 150 ≡ none
unfolding hist_init hist_store bucket_of
narrow = refl

tens-Counts : Counts tens
unfolding counted
tens-Counts = record { elements = refl; sized = omega arith; all = refl }

near : ¬ Beyond tens 345
unfolding Beyond
near (lo, hi, far) = omega arith

hist_store-Counts_example :
    (i : ℕ) × (h' : Histogram) × (hist_store tens 345 ≡ some h')
    × Place tens 345 i
    × ((j : ℕ)
        → get_or h'.data_ j 0
          ≡ (if j == i then get_or tens.data_ i 0 + 1 else get_or tens.data_ j 0))
    × Counts h'
    × (h'.total_count ≡ 0 + 1)
    × (h'.lowest ≡ 100)
    × (h'.highest ≡ 1200)
    × (h'.bucket_size ≡ 10)
    × Extremes tens 345 h'
hist_store-Counts_example = hist_store-Counts tens 345 tens-Counts near (omega arith)

-- 99 samples, and one more.
abbrev nearly_full : Samples
nearly_full = record {
  val = replicate 100 7;
  cur_index = 99;
  min_val = 7;
  max_val = 7;
  running_avg = 7;
  histogram = tens;
  is_initialized = 0;
  mean_val = 0;
  median_val = 0;
  mode_val = 0;
  discard_mode = 10;
}
