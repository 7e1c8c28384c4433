-- ===== src/Histogram/Bounds.antt =====
-- The least and the greatest value that a histogram reports, beside the samples.
use event_stream_core.Common.{
  ℕ, zero, suc, ◌+◌, ◌^◌, ◌≤◌, ◌<◌, inl, inr, List, [], ◌∷◌, arith, ltb, Bool-cases, length, All,
}
use native.Mathlib.Nat.{pow-le-pow_right}
use event_stream_core.Histogram.{
  num_buckets, LatencyHistogram, create, bucket_for_latency, bucket_min, bucket_max,
  get_bucket_count, min_from, get_min_value, max_from, get_max_value,
}
use event_stream_core.Histogram.Buckets.{
  bucket_for_latency-Within, count_in, record_all, get_bucket_count-eq-count_in,
}

bucket_min_mono : (a b : ℕ) → a ≤ b → bucket_min a ≤ bucket_min b
unfolding bucket_min
bucket_min_mono a b h = ground (arith, pow-le-pow_right {n = 2} (omega arith) {i = a} {j = b} h)

bucket_max_mono : (a b : ℕ) → a ≤ b → b < num_buckets → bucket_max a ≤ bucket_max b
unfolding bucket_max
bucket_max_mono a b h in_ = ground (
  arith,
  pow-le-pow_right {n = 2} (omega arith) {i = a + 1} {j = b + 1} (omega arith),
  pow-le-pow_right {n = 2} (omega arith) {i = a + 1} {j = 64} (omega arith),
)

-- The loop stops no later than at a bucket in use.
min_from-le :
    (h : LatencyHistogram) (left bucket b : ℕ)
    → bucket ≤ b
    → b < bucket + left
    → 0 < get_bucket_count h b
    → min_from h left bucket ≤ bucket_min b
unfolding min_from
min_from-le h zero bucket b low high used = absurd (omega arith)
min_from-le h (suc left) bucket b low high used =
    elim (Bool-cases (ltb 0 (get_bucket_count h bucket))) [
      | inl here ↦ rw here (bucket_min_mono bucket b low)
      | inr empty ↦ ground (arith, min_from-le h left (bucket + 1) b)
    ]

max_from-le :
    (h : LatencyHistogram) (bucket b : ℕ)
    → b < bucket
    → bucket ≤ num_buckets
    → 0 < get_bucket_count h b
    → bucket_max b ≤ max_from h bucket
unfolding max_from
max_from-le h zero b high in_ used = absurd (omega arith)
max_from-le h (suc bucket) b high in_ used = elim (Bool-cases (ltb 0 (get_bucket_count h bucket))) [
  | inl here ↦ rw here (bucket_max_mono b bucket (omega arith) in_)
  | inr empty ↦ ground (arith, max_from-le h bucket b)
]

-- Each of the samples is in a bucket in use.
used_bounds :
    (h : LatencyHistogram) (xs : List ℕ)
    → ((b : ℕ) → b < num_buckets → count_in b xs ≤ get_bucket_count h b)
    → All (λ x. x < 2 ^ 64) xs
    → All (λ x. (get_min_value h ≤ x) × (x ≤ get_max_value h)) xs
unfolding get_min_value get_max_value
used_bounds h [] counts small = tt
used_bounds h (x ∷ xs) counts small =
    let b = bucket_for_latency x in
    let (in_, low, high) = bucket_for_latency-Within x small.0 in
    let used : 0 < get_bucket_count h b = ground (arith, counts b in_) in
    (
      (
        omega (arith, min_from-le h num_buckets 0 b (omega arith) (omega arith) used),
        omega (arith, max_from-le h num_buckets b in_ (omega arith) used),
      ),
      used_bounds h xs (λ c hc. ground (arith, counts c hc)) small.1,
    )

-- After any run of 64-bit latencies, short of 2^64 of them, every one of them lies between the least
-- and the greatest value that the histogram reports.
pub record_all_bounds :
    (xs : List ℕ)
    → All (λ x. x < 2 ^ 64) xs
    → length xs < 2 ^ 64
    → let h = record_all xs create in All (λ x. (get_min_value h ≤ x) × (x ≤ get_max_value h)) xs
record_all_bounds xs small few =
    used_bounds (record_all xs create) xs
      (λ b hb. omega (arith, get_bucket_count-eq-count_in b xs hb small few)) small
