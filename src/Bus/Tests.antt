-- ===== src/Bus/Tests.antt =====
-- A bus with a few events, and each theorem on it.
use event_stream_core.Common.{ℕ, ◌≡◌, refl, true, false, none, [], ◌∷◌, arith}
use event_stream_core.Event.{Event, blank_event}
use event_stream_core.Ring
use event_stream_core.DeadLetterQueue
use event_stream_core.Bus.{
  QueueId, OverflowPolicy, PressureLevel, ring_capacity, BusMetrics, Bus, init, push_realtime,
  append_event, when_full, push_queue, push, drop_batch_from_queue,
}
use event_stream_core.Bus.Overflow.{IsRealtimeValid, Outcome, push_realtime_lem}
use event_stream_core.Bus.Drain.{queued, Drained, drop_batch_from_queue_lem}
use event_stream_core.Bus.Queues.{IsValid, init-IsValid, Accepted, push-Accepted}

abbrev numbered : ℕ → Event
numbered n = record blank_event { header = record (blank_event.header) { id = n } }

abbrev no_metrics : BusMetrics
no_metrics = record {
  total_events_processed = 0;
  total_events_dropped = 0;
  current_queue_depth = 0;
  last_event_timestamp_ms = 0;
}

abbrev start : Bus
start = init no_metrics

start-IsValid : IsValid start
start-IsValid = init-IsValid no_metrics

-- The batch queue takes two events, and the third is refused.
abbrev small : Bus
small = record {
  realtime_bus = record {
    ring_buffer = Ring.empty ring_capacity blank_event;
    policy = OverflowPolicy.drop_old;
    pressure = PressureLevel.normal;
  };
  transactional_bus = record {
    dq = numbered 1 ∷ numbered 2 ∷ [];
    capacity = 2;
    policy = OverflowPolicy.block_producer;
  };
  batch_bus = record { dq = numbered 3 ∷ []; capacity = 1; policy = OverflowPolicy.drop_new };
  dlq = DeadLetterQueue.empty;
  metrics = no_metrics;
}

small-IsValid : IsValid small
small-IsValid = record {
  realtime = record {
    ring = Ring.Bounds.empty-IsValid ring_capacity blank_event (omega arith);
    policy = refl;
  };
  transactional_policy = refl;
  batch_policy = refl;
  transactional_bound = omega arith;
  batch_bound = omega arith;
  transactional_capacity = omega arith;
}

full_batch_refuses : (push none 0 QueueId.batch small (numbered 4)).1 ≡ false
unfolding push push_queue when_full
full_batch_refuses = refl

-- A consumer takes one event during the wait.
waits_for_room :
    (push none 1 QueueId.transactional small (numbered 4)).0.transactional_bus.dq
    ≡ numbered 2 ∷ numbered 4 ∷ []
unfolding push push_queue when_full append_event
waits_for_room = refl

push_realtime_lem_example :
    let (b', done) = push_realtime none start (numbered 7) in
    (done ≡ true) × Outcome start (numbered 7) b' × IsRealtimeValid b'
push_realtime_lem_example = push_realtime_lem none start (numbered 7) (start-IsValid.realtime)

push-Accepted_example :
    let (b', done) = push none 1 QueueId.transactional small (numbered 4) in
    Accepted
      (queued QueueId.transactional small)
      (numbered 4)
      (queued QueueId.transactional b', done)
push-Accepted_example = push-Accepted none 1 QueueId.transactional small (numbered 4) small-IsValid

drop_batch_from_queue_lem_example :
    Drained QueueId.transactional small (drop_batch_from_queue QueueId.transactional small)
drop_batch_from_queue_lem_example =
    drop_batch_from_queue_lem QueueId.transactional small small-IsValid.realtime
