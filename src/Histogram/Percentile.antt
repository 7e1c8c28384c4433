-- ===== src/Histogram/Percentile.antt =====
-- The percentile that a histogram reports, beside the samples.
use event_stream_core.Common.{
  ℕ, zero, suc, ◌+◌, ◌-◌, ◌^◌, ◌≤◌, ◌<◌, ◌≡◌, refl, sym, ap, subst, ◌∙◌, inl, inr, List, [], ◌∷◌,
  ◌++◌, arith, ltb, if◌then◌else◌, ltb→lt, ltb→le, Bool-cases, length, get_or, replicate, All,
  length-append, length-replicate,
}
use event_stream_core.Histogram.{
  num_buckets, LatencyHistogram, create, bucket_for_latency, get_total_count, get_bucket_count,
  midpoint, samples_from, calculate_percentile,
}
use event_stream_core.Histogram.Buckets.{
  bucket_for_latency-Within, count_in, record_all, get_bucket_count-eq-count_in,
  get_total_count-eq-length,
}

-- How many samples lie in buckets before `b`.
abbrev pub count_below : ℕ → List ℕ → ℕ
count_below b [] = 0
count_below b (x ∷ xs) = (if ltb (bucket_for_latency x) b then 1 else 0) + count_below b xs

count_below-suc : (b : ℕ) (xs : List ℕ) → count_below (b + 1) xs ≡ count_below b xs + count_in b xs
count_below-suc b [] = omega arith
count_below-suc b (x ∷ xs) = ground (arith, count_below-suc b xs)

count_below-zero : (xs : List ℕ) → count_below 0 xs ≡ 0
count_below-zero [] = refl
count_below-zero (x ∷ xs) = ground (arith, count_below-zero xs)

count_below_total :
    (xs : List ℕ) → All (λ x. x < 2 ^ 64) xs → count_below num_buckets xs ≡ length xs
count_below_total [] small = refl
count_below_total (x ∷ xs) small =
    ground (arith, (bucket_for_latency-Within x small.0).0, count_below_total xs small.1)

get_or-append_in : (xs ys : List ℕ) (i : ℕ) → i < length xs → get_or (xs ++ ys) i 0 ≡ get_or xs i 0
get_or-append_in [] ys i h = absurd (omega arith)
get_or-append_in (x ∷ xs) ys zero h = refl
get_or-append_in (x ∷ xs) ys (suc i) h = get_or-append_in xs ys i (omega arith)

get_or-append_past :
    (xs ys : List ℕ) (i : ℕ) → length xs ≤ i → get_or (xs ++ ys) i 0 ≡ get_or ys (i - length xs) 0
get_or-append_past [] ys i h = ap (λ j. get_or ys j 0) (omega arith)
get_or-append_past (x ∷ xs) ys zero h = absurd (omega arith)
get_or-append_past (x ∷ xs) ys (suc i) h =
    get_or-append_past xs ys i (omega arith) ∙ ap (λ j. get_or ys j 0) (omega arith)

get_or-replicate : (n i v : ℕ) → i < n → get_or (replicate n v) i 0 ≡ v
get_or-replicate zero i v h = absurd (omega arith)
get_or-replicate (suc n) zero v h = refl
get_or-replicate (suc n) (suc i) v h = get_or-replicate n i v (omega arith)

-- The sample of a rank stands for the bucket that the rank falls in.
abbrev Ranked : ℕ → List ℕ → ℕ → Type 0
Ranked rank xs v =
    (b : ℕ) × (b < num_buckets)
    × (v ≡ midpoint b)
    × (count_below b xs ≤ rank)
    × (rank < count_below (b + 1) xs)

samples_from-Ranked :
    (h : LatencyHistogram) (xs : List ℕ) (left bucket rank : ℕ)
    → ((b : ℕ) → b < num_buckets → get_bucket_count h b ≡ count_in b xs)
    → bucket + left ≡ num_buckets
    → count_below bucket xs ≤ rank
    → rank < count_below num_buckets xs
    → Ranked rank xs (get_or (samples_from h left bucket) (rank - count_below bucket xs) 0)
unfolding samples_from
samples_from-Ranked h xs zero bucket rank counts e low high =
    let last : bucket ≡ num_buckets = omega arith in
    absurd (omega (arith, ap (λ b. count_below b xs) last))
samples_from-Ranked h xs (suc left) bucket rank counts e low high =
    let below = count_below bucket xs in
    let here = replicate (get_bucket_count h bucket) (midpoint bucket) in
    let rest = samples_from h left (bucket + 1) in
    let size = length-replicate (get_bucket_count h bucket) (midpoint bucket) in
    let same = counts bucket (omega arith) in
    let next = count_below-suc bucket xs in
    elim (Bool-cases (ltb (rank - below) (get_bucket_count h bucket))) [
      | inl inside ↦
          let first : rank - below < get_bucket_count h bucket = ltb→lt _ _ inside in
          (
            bucket,
            omega arith,
            get_or-append_in here rest (rank - below) (omega (arith, size))
                ∙ get_or-replicate (get_bucket_count h bucket) (rank - below) (midpoint bucket)
                    first,
            low,
            omega (arith, same, next),
          )
      | inr past ↦
          let behind : get_bucket_count h bucket ≤ rank - below = ltb→le _ _ past in
          let index : rank - below - length here ≡ rank - count_below (bucket + 1) xs =
            omega (arith, size, same, next) in
          subst (Ranked rank xs)
            (sym (
              get_or-append_past here rest (rank - below) (omega (arith, size))
              ∙ ap (λ i. get_or rest i 0) index))
            (samples_from-Ranked h xs left (bucket + 1) rank counts (omega arith)
              (omega (arith, same, next)) high)
    ]

length-samples_from :
    (h : LatencyHistogram) (xs : List ℕ) (left bucket : ℕ)
    → ((b : ℕ) → b < num_buckets → get_bucket_count h b ≡ count_in b xs)
    → bucket + left ≡ num_buckets
    → length (samples_from h left bucket) + count_below bucket xs ≡ count_below num_buckets xs
unfolding samples_from
length-samples_from h xs zero bucket counts e =
    let last : bucket ≡ num_buckets = omega arith in omega (arith, ap (λ b. count_below b xs) last)
length-samples_from h xs (suc left) bucket counts e = omega (
  arith,
  length-append (replicate (get_bucket_count h bucket) (midpoint bucket))
      (samples_from h left (bucket + 1)),
  length-replicate (get_bucket_count h bucket) (midpoint bucket),
  length-samples_from h xs left (bucket + 1) counts (omega arith),
  counts bucket (omega arith),
  count_below-suc bucket xs,
)

calculate_percentile_ranked :
    (h : LatencyHistogram) (rank : ℕ)
    → 0 < get_total_count h
    → rank < length (samples_from h num_buckets 0)
    → calculate_percentile h rank ≡ get_or (samples_from h num_buckets 0) rank 0
unfolding calculate_percentile
calculate_percentile_ranked h rank some_ inside = ground arith

-- After any run of 64-bit latencies, short of 2^64 of them, the percentile at a rank below their
-- number is the midpoint of a bucket that the sample of that rank is in: at most `rank` of the
-- samples lie in buckets before it, and more than `rank` in these and it.
pub calculate_percentile_lem :
    (xs : List ℕ) (rank : ℕ)
    → All (λ x. x < 2 ^ 64) xs
    → length xs < 2 ^ 64
    → rank < length xs
    → (b : ℕ) × (b < num_buckets)
      × (calculate_percentile (record_all xs create) rank ≡ midpoint b)
      × (count_below b xs ≤ rank)
      × (rank < count_below (b + 1) xs)
calculate_percentile_lem xs rank small few inside =
    let h = record_all xs create in
    let counts = λ (b : ℕ) (hb : b < num_buckets). get_bucket_count-eq-count_in b xs hb small few in
    let none_before = count_below-zero xs in
    let all = count_below_total xs small in
    let (b, hb, value, low, high) =
      samples_from-Ranked h xs num_buckets 0 rank counts refl (omega (arith, none_before))
        (omega (arith, all)) in
    (
      b,
      hb,
      calculate_percentile_ranked h rank (omega (arith, get_total_count-eq-length xs few))
            (omega (arith, length-samples_from h xs num_buckets 0 counts refl, none_before, all))
          ∙ ap (λ i. get_or (samples_from h num_buckets 0) i 0) (omega (arith, none_before))
          ∙ value,
      low,
      high,
    )
