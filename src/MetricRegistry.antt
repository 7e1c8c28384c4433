-- ===== src/MetricRegistry.antt =====
-- src/core/metrics/registry.cpp with include/eventstream/core/metrics/metrics.hpp: the counters by
-- name, their snapshots, and the time of the last event. A double is a value of a type `D`, with the
-- operations that the source uses; each call holds the mutex. What the other components count is in
-- their own models.
pub mod Snapshots
pub mod Stamps
mod Tests
use event_stream_core.Common.{
  ℕ, ◌+◌, ◌-◌, ◌*◌, ◌/◌, ◌^◌, Bool, ◌&&◌, ◌||◌, Option, none, some, List, [], ◌∷◌, map, ltb,
  if◌then◌else◌, Bytes, u64, bytes_eq,
}

pub data HealthStatus : Type 0 where
  healthy unhealthy : HealthStatus

pub record Metrics : Type 0 where
  pub total_events_processed : ℕ
  pub total_events_dropped : ℕ
  pub current_queue_depth : ℕ
  pub last_event_timestamp_ms : ℕ
  pub health_status : HealthStatus

pub record MetricSnapshot : Type 0 where
  pub total_events_processed : ℕ
  pub total_events_dropped : ℕ
  pub current_queue_depth : ℕ
  pub health_status : HealthStatus

-- `percent d t` is `(d * 100.0) / t`, and `above x y` is `x > y`.
pub record Doubles (D : Type 0) : Type 0 where
  pub zero_rate : D
  pub percent : ℕ → ℕ → D
  pub above : D → D → Bool

pub record ControlThresholds (D : Type 0) : Type 0 where
  pub max_queue_depth : ℕ
  pub max_drop_rate : D

pub record MetricRegistry (D : Type 0) : Type 0 where
  pub metrics_map : List (Bytes × Metrics)
  pub thresholds : ControlThresholds D

abbrev pub no_metrics : Metrics
no_metrics = record {
  total_events_processed = 0;
  total_events_dropped = 0;
  current_queue_depth = 0;
  last_event_timestamp_ms = 0;
  health_status = healthy;
}

unfoldable pub find {ℓ} : {A : Type ℓ} → Bytes → List (Bytes × A) → Option A
find name [] = none
find name ((n, a) ∷ rest) = if bytes_eq n name then some a else find name rest

unfoldable pub update :
    Bytes → (Metrics → Metrics) → List (Bytes × Metrics) → List (Bytes × Metrics)
update name f [] = []
update name f ((n, m) ∷ rest) =
    if bytes_eq n name then (n, f m) ∷ rest else (n, m) ∷ update name f rest

-- `get_drop_rate_percent`, in integers.
unfoldable pub get_drop_rate_percent : MetricSnapshot → ℕ
get_drop_rate_percent s =
    let total = u64 (s.total_events_processed + s.total_events_dropped) in
    if ltb 0 total then u64 (s.total_events_dropped * 100) / total else 0

module _ {D : Type 0} (doubles : Doubles D) where
  open doubles use {zero_rate, percent, above}

  unfoldable pub set_thresholds : ControlThresholds D → MetricRegistry D → MetricRegistry D
  set_thresholds t r = record r { thresholds = t }

  -- `getMetrics`: the counters are there afterwards.
  unfoldable pub get_metrics : Bytes → MetricRegistry D → MetricRegistry D
  get_metrics name r = elim (find name r.metrics_map) [
    | none ↦ record r { metrics_map = (name, no_metrics) ∷ r.metrics_map }
    | some m ↦ r
  ]

  -- The health that `buildSnapshot` finds.
  unfoldable pub health_of : ControlThresholds D → Metrics → HealthStatus
  health_of t m =
      let total = u64 (m.total_events_processed + m.total_events_dropped) in
      let rate = if ltb 0 total then percent m.total_events_dropped total else zero_rate in
      if ltb t.max_queue_depth m.current_queue_depth || above rate t.max_drop_rate
      then unhealthy
      else healthy

  -- `buildSnapshot`: the counters with the health written back, and the snapshot.
  unfoldable pub build_snapshot : ControlThresholds D → Metrics → Metrics × MetricSnapshot
  unfolding health_of
  build_snapshot t m = (
    record m { health_status = health_of t m },
    record {
      total_events_processed = m.total_events_processed;
      total_events_dropped = m.total_events_dropped;
      current_queue_depth = m.current_queue_depth;
      health_status = health_of t m;
    },
  )

  unfoldable pub snapshot_found :
      Bytes → MetricRegistry D → Option Metrics → MetricRegistry D × Option MetricSnapshot
  unfolding build_snapshot
  snapshot_found name r none = (r, none)
  snapshot_found name r (some m) = (
    record r { metrics_map = update name (λ m'. (build_snapshot r.thresholds m').0) r.metrics_map },
    some (build_snapshot r.thresholds m).1,
  )

  unfoldable pub get_snapshot : Bytes → MetricRegistry D → MetricRegistry D × Option MetricSnapshot
  unfolding snapshot_found
  get_snapshot name r = snapshot_found name r (find name r.metrics_map)

  unfoldable pub get_snapshots : MetricRegistry D → MetricRegistry D × List (Bytes × MetricSnapshot)
  unfolding build_snapshot
  get_snapshots r = (
    record r {
      metrics_map =
          map (λ (e : Bytes × Metrics). (e.0, (build_snapshot r.thresholds e.1).0)) r.metrics_map;
    },
    map (λ (e : Bytes × Metrics). (e.0, (build_snapshot r.thresholds e.1).1)) r.metrics_map,
  )

-- The buffer that each thread has of its own.
pub record StampBuffer : Type 0 where
  pub last_name : Bytes
  pub last_update_ns : ℕ

abbrev pub update_interval_ns : ℕ
update_interval_ns = 1000000

-- Whether a call returns without the lock; the difference is unsigned.
unfoldable pub is_recent : Bytes → ℕ → StampBuffer → Bool
is_recent name now_ns b =
    bytes_eq b.last_name name && ltb (u64 (now_ns + 2 ^ 64 - b.last_update_ns)) update_interval_ns

-- `updateEventTimestamp` at `now_ns`, when `now()` reads `now_ms`.
unfoldable pub update_event_timestamp :
    {D : Type 0} → Bytes → ℕ → ℕ → StampBuffer × MetricRegistry D → StampBuffer × MetricRegistry D
unfolding is_recent
update_event_timestamp name now_ns now_ms (b, r) = if is_recent name now_ns b then (b, r) else (
  record { last_name = name; last_update_ns = now_ns },
  record r {
    metrics_map = update name (λ m. record m { last_event_timestamp_ms = now_ms }) r.metrics_map;
  },
)
