-- ===== src/Histogram/Tests.antt =====
-- A histogram of five latencies.
use event_stream_core.Common.{ℕ, ◌+◌, ◌^◌, ◌≤◌, ◌<◌, ◌≡◌, refl, List, [], ◌∷◌, arith, All}
use event_stream_core.Histogram.{
  num_buckets, create, msb, bucket_for_latency, bucket_min, get_total_count, get_bucket_count,
  record_sample, min_from, get_min_value, midpoint, samples_from, calculate_percentile,
}
use event_stream_core.Histogram.Buckets.{record_all}
use event_stream_core.Histogram.Percentile.{count_below, calculate_percentile_lem}

abbrev latencies : List ℕ
latencies = 900 ∷ 0 ∷ 1000 ∷ 3 ∷ 1023 ∷ []

latencies_small : All (λ x. x < 2 ^ 64) latencies
latencies_small = omega arith

the_median_is_a_midpoint : calculate_percentile (record_all latencies create) 2 ≡ 768
unfolding calculate_percentile samples_from midpoint bucket_min get_total_count get_bucket_count
    record_sample bucket_for_latency msb create
the_median_is_a_midpoint = refl

the_least_is_zero : get_min_value (record_all latencies create) ≡ 0
unfolding get_min_value min_from bucket_min get_bucket_count record_sample bucket_for_latency msb
    create
the_least_is_zero = refl

calculate_percentile_lem_example :
    (b : ℕ) × (b < num_buckets)
    × (calculate_percentile (record_all latencies create) 2 ≡ midpoint b)
    × (count_below b latencies ≤ 2)
    × (2 < count_below (b + 1) latencies)
calculate_percentile_lem_example =
    calculate_percentile_lem latencies 2 latencies_small (omega arith) (omega arith)
