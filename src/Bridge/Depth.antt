-- ===== src/Bridge/Depth.antt =====
-- What `esccore_metrics` reports of the queues.
use event_stream_core.Common.{
  ◌+◌, ◌*◌, ◌≡◌, ap, ◌∙◌, true, not, some, List, arith, if◌then◌else◌, length, Bytes, u64,
}
use event_stream_core.Bus
use event_stream_core.Bus.{Bus, QueueId, BusMetrics}
use event_stream_core.Bridge.{
  esc_err_init, Engine, Globals, pressure_value, sum_processed, sum_dropped, queue_depth,
  metrics_of, refused, written, written_or, esccore_metrics,
}

depth-both :
    (b : Bus) → queue_depth b ≡ u64 (2 * length b.transactional_bus.dq + length b.batch_bus.dq)
unfolding queue_depth Bus.size
depth-both b = omega arith

-- On a started engine the queue depth that is reported counts the TRANSACTIONAL queue twice and the
-- REALTIME queue not at all; the other counts are the sums over the registry.
pub esccore_metrics_lem :
    (snapshots : List (Bytes × BusMetrics)) (g : Globals) (engine : Engine)
    → g.initialised ≡ true
    → g.engine ≡ some engine
    → let b = engine.event_bus in
      esccore_metrics snapshots true g
      ≡ some (
          written record {
            total_events_processed = sum_processed snapshots;
            total_events_dropped = sum_dropped snapshots;
            queue_depth = u64 (2 * length b.transactional_bus.dq + length b.batch_bus.dq);
            backpressure_level = pressure_value b.realtime_bus.pressure;
          })
unfolding esccore_metrics
esccore_metrics_lem snapshots g engine up there =
    let b = engine.event_bus in
    ap
      (λ i.
        if not i then some (refused esc_err_init) else written_or (metrics_of snapshots g.engine))
      up
    ∙ ap (λ e. written_or (metrics_of snapshots e)) there
    ∙ ap
        (λ d. some (
          written record {
            total_events_processed = sum_processed snapshots;
            total_events_dropped = sum_dropped snapshots;
            queue_depth = d;
            backpressure_level = pressure_value b.realtime_bus.pressure;
          }))
        (depth-both b)
