-- ===== src/Histogram.antt =====
-- include/eventstream/core/metrics/histogram.hpp: latencies counted by powers of two. Counters are
-- `uint64_t` and wrap; one thread at a time, so that each call is a step.
pub mod Buckets
pub mod Bounds
pub mod Percentile
mod Tests
use event_stream_core.Common.{
  ℕ, zero, suc, ◌+◌, ◌-◌, ◌/◌, ◌^◌, min, List, [], ◌++◌, ltb, leb, ◌==◌, if◌then◌else◌, length,
  get_or, set, replicate, u64,
}

abbrev pub num_buckets : ℕ
num_buckets = 64

pub record LatencyHistogram : Type 0 where
  pub buckets : List ℕ
  pub total_count : ℕ

unfoldable pub create : LatencyHistogram
create = record { buckets = replicate num_buckets 0; total_count = 0 }

-- The position of the highest bit: `63 - __builtin_clzll(n)`, on fuel for 64 bits.
unfoldable pub msb : ℕ → ℕ → ℕ
msb zero n = 0
msb (suc fuel) n = let rest = suc (msb fuel (n / 2)) in if leb n 1 then 0 else rest

unfoldable pub bucket_for_latency : ℕ → ℕ
bucket_for_latency latency_ns =
    if leb latency_ns 1 then 0 else min (msb 64 latency_ns) (num_buckets - 1)

unfoldable pub bucket_min : ℕ → ℕ
bucket_min bucket = if bucket == 0 then 0 else 2 ^ bucket

unfoldable pub bucket_max : ℕ → ℕ
bucket_max bucket = if bucket == 63 then 2 ^ 64 - 1 else 2 ^ (bucket + 1) - 1

unfoldable pub get_total_count : LatencyHistogram → ℕ
get_total_count h = h.total_count

unfoldable pub get_bucket_count : LatencyHistogram → ℕ → ℕ
get_bucket_count h bucket = if leb num_buckets bucket then 0 else get_or h.buckets bucket 0

-- `record`.
unfoldable pub record_sample : ℕ → LatencyHistogram → LatencyHistogram
record_sample latency_ns h =
    let bucket = bucket_for_latency latency_ns in
    record {
      buckets = set h.buckets bucket (u64 (get_or h.buckets bucket 0 + 1));
      total_count = u64 (h.total_count + 1);
    }

-- The loop from `bucket` on.
unfoldable pub min_from : LatencyHistogram → ℕ → ℕ → ℕ
unfolding get_bucket_count bucket_min
min_from h zero bucket = 0
min_from h (suc left) bucket =
    let rest = min_from h left (bucket + 1) in
    if ltb 0 (get_bucket_count h bucket) then bucket_min bucket else rest

unfoldable pub get_min_value : LatencyHistogram → ℕ
unfolding min_from
get_min_value h = min_from h num_buckets 0

-- The loop from the bucket before `bucket` down.
unfoldable pub max_from : LatencyHistogram → ℕ → ℕ
unfolding get_bucket_count bucket_max
max_from h zero = 0
max_from h (suc bucket) =
    let rest = max_from h bucket in
    if ltb 0 (get_bucket_count h bucket) then bucket_max bucket else rest

unfoldable pub get_max_value : LatencyHistogram → ℕ
unfolding max_from
get_max_value h = max_from h num_buckets

-- What stands for a sample of a bucket.
unfoldable pub midpoint : ℕ → ℕ
midpoint bucket = u64 (bucket_min bucket + 2 ^ bucket / 2)

unfoldable pub samples_from : LatencyHistogram → ℕ → ℕ → List ℕ
unfolding midpoint
samples_from h zero bucket = []
samples_from h (suc left) bucket =
    replicate (get_bucket_count h bucket) (midpoint bucket) ++ samples_from h left (bucket + 1)

-- `calculatePercentile`; `rank` is its `(percentile / 100.0) * samples.size()`, a `double` cut off to
-- a whole number. The samples are ascending, so that `nth_element` leaves the sample of the rank.
unfoldable pub calculate_percentile : LatencyHistogram → ℕ → ℕ
unfolding samples_from
calculate_percentile h rank =
    let samples = samples_from h num_buckets 0 in
    if get_total_count h == 0
    then 0
    else if length samples == 0
    then 0
    else get_or samples (if leb (length samples) rank then length samples - 1 else rank) 0

unfoldable pub reset : LatencyHistogram → LatencyHistogram
reset h = record { buckets = replicate num_buckets 0; total_count = 0 }
