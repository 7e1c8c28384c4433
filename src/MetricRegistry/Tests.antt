-- ===== src/MetricRegistry/Tests.antt =====
-- A registry with one entry; a double is a fraction.
use event_stream_core.Common.{
  ℕ, ◌+◌, ◌*◌, ◌/◌, ◌≤◌, ◌<◌, ◌≡◌, refl, false, some, List, [], ◌∷◌, arith, ltb, codes, bytes_eq,
}
use event_stream_core.MetricRegistry.{
  unhealthy, Metrics, MetricSnapshot, Doubles, MetricRegistry, no_metrics, find, build_snapshot,
  get_snapshot, StampBuffer, update_interval_ns, is_recent, update_event_timestamp,
}
use event_stream_core.MetricRegistry.Snapshots.{apply}
use event_stream_core.MetricRegistry.Stamps.{Holds, update_all, writes, update_all_lem}

abbrev fractions : Doubles (ℕ × ℕ)
fractions = record {
  zero_rate = (0, 1);
  percent = λ d t. (d * 100, t);
  above = λ (x y : ℕ × ℕ). ltb (y.0 * x.1) (x.0 * y.1);
}

abbrev registry : MetricRegistry (ℕ × ℕ)
registry = record {
  metrics_map =
      (codes "a", record no_metrics { total_events_processed = 95; total_events_dropped = 5 }) ∷ [];
  thresholds = record { max_queue_depth = 10; max_drop_rate = (49, 10) };
}

five_percent_is_unhealthy :
    apply (λ (s : MetricSnapshot). s.health_status) (get_snapshot fractions (codes "a") registry).1
    ≡ some unhealthy
unfolding get_snapshot find build_snapshot bytes_eq
five_percent_is_unhealthy = refl

abbrev written : StampBuffer × MetricRegistry (ℕ × ℕ)
written = (record { last_name = codes "a"; last_update_ns = 5 }, registry)

abbrev times : List ℕ
times = 600000 ∷ 1200000 ∷ 1900000 ∷ []

one_of_three_writes : writes (codes "a") (λ t. t / 1000000) times written ≡ 1
unfolding writes is_recent update_event_timestamp bytes_eq
one_of_three_writes = refl

abbrev five_percent : Metrics
five_percent = record no_metrics { total_events_processed = 95; total_events_dropped = 5 }

a_is_registered : find (codes "a") registry.metrics_map ≡ some five_percent
unfolding find bytes_eq
a_is_registered = refl

no_calls_before : is_recent (codes "a") 5 (record { last_name = []; last_update_ns = 0 }) ≡ false
unfolding is_recent bytes_eq
no_calls_before = refl

update_all_lem_example :
    let s =
      update_event_timestamp
        (codes "a")
        5
        0
        (record { last_name = []; last_update_ns = 0 }, registry) in
    let s' = update_all (codes "a") (λ t. t / 1000000) times s in
    (update_interval_ns * writes (codes "a") (λ t. t / 1000000) times s + 5 ≤ 1900000)
    × (1900000 < s'.0.last_update_ns + update_interval_ns)
    × Holds (codes "a") (λ t. t / 1000000) s'
update_all_lem_example =
    update_all_lem (codes "a") (λ t. t / 1000000) 5 times
      (record { last_name = []; last_update_ns = 0 }) registry five_percent a_is_registered
      no_calls_before (omega arith)
