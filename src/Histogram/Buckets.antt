-- ===== src/Histogram/Buckets.antt =====
-- The buckets: which values each has, and what a run of samples counts in each.
use event_stream_core.Common.{
  ℕ, zero, suc, ◌+◌, ◌/◌, ◌^◌, ◌≤◌, ◌<◌, min, ◌≡◌, refl, ◌∙◌, inl, inr, Bool, true, false, List, [],
  ◌∷◌, arith, leb, ◌==◌, if◌then◌else◌, Bool-cases, length, get_or, replicate, All, length-set,
  get_or-set_self, get_or-set_ne, u64,
}
use native.Mathlib.Nat.{two-pow-succ}
use event_stream_core.Histogram.{
  num_buckets, LatencyHistogram, create, msb, bucket_for_latency, bucket_min, bucket_max,
  get_total_count, get_bucket_count, record_sample,
}

msb-bounds :
    (fuel n : ℕ)
    → 0 < n
    → n < 2 ^ fuel
    → (2 ^ msb fuel n ≤ n) × (n < 2 ^ suc (msb fuel n)) × (msb fuel n < fuel)
unfolding msb
msb-bounds zero n pos h = absurd (omega arith)
msb-bounds (suc fuel) n pos h = elim (Bool-cases (leb n 1)) [
  | inl small ↦ let one : n ≡ 1 = ground arith in rw small (omega arith, omega arith, omega arith)
  | inr large ↦
      let (low, high, few) =
        msb-bounds fuel (n / 2) (ground arith) (omega (arith, two-pow-succ fuel)) in
      rw large (
        omega (arith, two-pow-succ (msb fuel (n / 2))),
        omega (arith, two-pow-succ (msb fuel (n / 2)), two-pow-succ (suc (msb fuel (n / 2)))),
        omega arith,
      )
]

-- What a bucket's bounds say of a value.
abbrev pub Within : ℕ → ℕ → Type 0
Within x b = (b < num_buckets) × (bucket_min b ≤ x) × (x ≤ bucket_max b)

Within-msb :
    (x k : ℕ) → x < 2 ^ 64 → 0 < k → 2 ^ k ≤ x → x < 2 ^ suc k → k < 64 → Within x (min k 63)
unfolding bucket_min bucket_max
Within-msb x k h pos low high few = ground arith

zero-Within : (x : ℕ) → x ≤ 1 → Within x 0
unfolding bucket_min bucket_max
zero-Within x h = ground arith

-- Every 64-bit latency lies in its bucket: between the bucket's least and greatest values.
pub bucket_for_latency-Within : (x : ℕ) → x < 2 ^ 64 → Within x (bucket_for_latency x)
unfolding bucket_for_latency
bucket_for_latency-Within x h = elim (Bool-cases (leb x 1)) [
  | inl small ↦ rw small (zero-Within x (ground arith))
  | inr large ↦
      let two : 2 ≤ x = ground arith in
      let (low, high, few) = msb-bounds 64 x (omega arith) h in
      rw large (Within-msb x (msb 64 x) h (positive (msb 64 x) (omega (arith, high))) low high few)
]
  where
    positive : (k : ℕ) → 2 < 2 ^ suc k → 0 < k
    positive zero l = absurd (omega arith)
    positive (suc k) l = omega arith

-- The samples of a bucket, and those of all buckets before it.
abbrev pub count_in : ℕ → List ℕ → ℕ
count_in b [] = 0
count_in b (x ∷ xs) = (if bucket_for_latency x == b then 1 else 0) + count_in b xs

abbrev pub record_all : List ℕ → LatencyHistogram → LatencyHistogram
record_all [] h = h
record_all (x ∷ xs) h = record_all xs (record_sample x h)

-- As many counters as buckets.
abbrev IsWhole : LatencyHistogram → Type 0
IsWhole h = length h.buckets ≡ num_buckets

record_sample-IsWhole : (x : ℕ) (h : LatencyHistogram) → IsWhole h → IsWhole (record_sample x h)
unfolding record_sample
record_sample-IsWhole x h w = length-set h.buckets _ _ ∙ w

get_bucket_count-record_sample :
    (x b : ℕ) (h : LatencyHistogram)
    → IsWhole h
    → bucket_for_latency x < num_buckets
    → b < num_buckets
    → get_bucket_count (record_sample x h) b
      ≡ (if bucket_for_latency x == b then u64 (get_bucket_count h b + 1) else get_bucket_count h b)
unfolding get_bucket_count record_sample
get_bucket_count-record_sample x b h w hx hb = ground (
  arith,
  get_or-set_self h.buckets b (u64 (get_or h.buckets b 0 + 1)) 0,
  get_or-set_ne h.buckets {i = bucket_for_latency x} {j = b}
      (u64 (get_or h.buckets (bucket_for_latency x) 0 + 1)) 0,
)

get_bucket_count-record_all :
    (b : ℕ) (xs : List ℕ) (h : LatencyHistogram)
    → b < num_buckets
    → All (λ x. x < 2 ^ 64) xs
    → IsWhole h
    → get_bucket_count h b + count_in b xs < 2 ^ 64
    → get_bucket_count (record_all xs h) b ≡ get_bucket_count h b + count_in b xs
get_bucket_count-record_all b [] h hb small w fits = omega arith
get_bucket_count-record_all b (x ∷ xs) h hb small w fits =
    let step = get_bucket_count-record_sample x b h w (bucket_for_latency-Within x small.0).0 hb in
    ground (
      arith,
      step,
      get_bucket_count-record_all b xs (record_sample x h) hb small.1 (record_sample-IsWhole x h w),
    )

get_or-replicate : (n b : ℕ) → get_or {A = ℕ} (replicate n 0) b 0 ≡ 0
get_or-replicate zero b = refl
get_or-replicate (suc n) zero = refl
get_or-replicate (suc n) (suc b) = get_or-replicate n b

get_bucket_count-create : (b : ℕ) → b < num_buckets → get_bucket_count create b ≡ 0
unfolding get_bucket_count create
get_bucket_count-create b h = either (leb num_buckets b) (get_or-replicate num_buckets b)
  where
    either : (t : Bool) {n : ℕ} → n ≡ 0 → (if t then 0 else n) ≡ 0
    either true e = refl
    either false e = e

count_in-le-length : (b : ℕ) (xs : List ℕ) → count_in b xs ≤ length xs
count_in-le-length b [] = omega arith
count_in-le-length b (x ∷ xs) = ground (arith, count_in-le-length b xs)

-- A bucket of a histogram counts the samples that belong to it.
pub get_bucket_count-eq-count_in :
    (b : ℕ) (xs : List ℕ)
    → b < num_buckets
    → All (λ x. x < 2 ^ 64) xs
    → length xs < 2 ^ 64
    → get_bucket_count (record_all xs create) b ≡ count_in b xs
unfolding create
get_bucket_count-eq-count_in b xs hb small few =
    let none_yet = get_bucket_count-create b hb in
    let all =
      get_bucket_count-record_all b xs create hb small refl
        (omega (arith, none_yet, count_in-le-length b xs)) in
    omega (arith, all, none_yet)

get_total_count-record_all :
    (xs : List ℕ) (h : LatencyHistogram)
    → get_total_count h + length xs < 2 ^ 64
    → get_total_count (record_all xs h) ≡ get_total_count h + length xs
unfolding get_total_count record_sample
get_total_count-record_all [] h fits = omega arith
get_total_count-record_all (x ∷ xs) h fits =
    omega (arith, get_total_count-record_all xs (record_sample x h) (omega arith))

pub get_total_count-eq-length :
    (xs : List ℕ) → length xs < 2 ^ 64 → get_total_count (record_all xs create) ≡ length xs
unfolding create get_total_count
get_total_count-eq-length xs few = omega (arith, get_total_count-record_all xs create (omega arith))
