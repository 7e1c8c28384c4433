-- ===== src/Bridge.antt =====
-- src/bridge/esccore.cpp: the C interface. Its globals are a record; what the construction of the
-- parts came to is an argument, and so are the metrics that the registry holds. A step past a null
-- pointer is the value `none`. A call is one step: the metrics and the health are read without the
-- mutex that the other calls hold, and what a shutdown does between their test of the flag and their
-- use of the engine is not modelled.
pub mod Lifecycle
pub mod Depth
mod Tests
use event_stream_core.Common.{
  ℕ, ◌+◌, Bool, true, false, not, ◌&&◌, Option, none, some, List, [], ◌∷◌, ◌==◌, if◌then◌else◌,
  length, Bytes, u64,
}
use event_stream_core.Event.{Event, priority_value}
use event_stream_core.Bus
use event_stream_core.Bus.{Bus, QueueId, BusMetrics, PressureLevel}
use event_stream_core.IngestEventPool
use event_stream_core.IngestEventPool.{Pool}
use event_stream_core.Handler.{Registry, register_default_handlers}
use event_stream_core.Observers.{
  ProcessedEventStream, esc_observer, subscribe, register_default_observers, clear_all_observers,
}

pub data EscStatus : Type 0 where
  esc_ok esc_err_init esc_err_invalid esc_err_internal : EscStatus

-- What `toExternal` writes: the pointers lead into the event, and the topic ends at its first zero.
pub record EscEvent : Type 0 where
  pub id : ℕ
  pub priority : ℕ
  pub topic : Bytes
  pub body : Bytes
  pub body_len : ℕ

unfoldable pub c_string : Bytes → Bytes
c_string [] = []
c_string (c ∷ cs) = if c == 0 then [] else c ∷ c_string cs

unfoldable pub to_external : Event → EscEvent
unfolding c_string
to_external e = record {
  id = e.header.id;
  priority = priority_value e.header.priority;
  topic = c_string e.topic;
  body = e.body;
  body_len = length e.body;
}

pub record Engine : Type 0 where
  pub event_bus : Bus
  pub has_tcp_server : Bool
  pub has_udp_server : Bool

-- The globals; `leaked` are the engines that a failed start left behind, and whether they run.
pub record Globals : Type 0 where
  pub initialised : Bool
  pub engine : Option Engine
  pub leaked : List Bool
  pub pool : Pool
  pub handlers : Registry
  pub stream : ProcessedEventStream
  pub subscriptions : ℕ

-- Which parts of the construction throw, and which servers the configuration enables.
pub record Wiring : Type 0 where
  pub config_loads : Bool
  pub storage_opens : Bool
  pub tcp_enabled : Bool
  pub tcp_starts : Bool
  pub udp_enabled : Bool
  pub udp_starts : Bool
  pub fresh_bus : Bus

-- The parts that are set up before the dispatcher and the processors start.
unfoldable pub set_up : Globals → Globals
set_up g = record g {
  pool = IngestEventPool.initialize g.pool;
  handlers = register_default_handlers g.handlers;
  stream = register_default_observers (clear_all_observers g.stream);
}

unfoldable pub leak : Bool → Globals → Globals
leak running g = record g { leaked = running ∷ g.leaked }

abbrev pub server_fails : Bool → Bool → Bool
server_fails enabled starts = enabled && not starts

-- `esccore_init`.
unfoldable pub esccore_init : Wiring → Globals → Globals × EscStatus
unfolding set_up leak
esccore_init w g =
    if g.initialised
    then (g, esc_err_init)
    else if not w.config_loads
    then (g, esc_err_internal)
    else if not w.storage_opens
    then (leak false g, esc_err_internal)
    else if server_fails w.tcp_enabled w.tcp_starts
    then (leak true (set_up g), esc_err_internal)
    else if server_fails w.udp_enabled w.udp_starts
    then (leak true (set_up g), esc_err_internal)
    else (
      record (set_up g) {
        initialised = true;
        engine = some record {
          event_bus = w.fresh_bus;
          has_tcp_server = w.tcp_enabled;
          has_udp_server = w.udp_enabled;
        };
      },
      esc_ok,
    )

-- `esccore_shutdown`; `stops` is whether stopping the parts throws nothing.
unfoldable pub stop_engine : Bool → Option Engine → Globals → Globals × EscStatus
stop_engine stops none g = (g, esc_ok)
stop_engine false (some engine) g = (g, esc_err_internal)
stop_engine true (some engine) g = (
  record g {
    engine = none;
    pool = IngestEventPool.shutdown g.pool;
    stream = clear_all_observers g.stream;
  },
  esc_ok,
)

unfoldable pub esccore_shutdown : Bool → Globals → Globals × EscStatus
unfolding stop_engine
esccore_shutdown stops g =
    if g.initialised
    then stop_engine stops g.engine (record g { initialised = false })
    else (g, esc_err_init)

-- `esccore_subscribe`; a null prefix is the empty one. The observer is numbered as it comes.
unfoldable pub esccore_subscribe : Option Bytes → Bool → Globals → Globals × EscStatus
esccore_subscribe topic_prefix has_callback g =
    let prefix : Bytes = elim topic_prefix [ none ↦ [] | some p ↦ p ] in
    if not g.initialised
    then (g, esc_err_init)
    else if not has_callback
    then (g, esc_err_invalid)
    else (
      record g {
        stream = subscribe (some (esc_observer g.subscriptions prefix true)) g.stream;
        subscriptions = g.subscriptions + 1;
      },
      esc_ok,
    )

pub record EscMetrics : Type 0 where
  pub total_events_processed : ℕ
  pub total_events_dropped : ℕ
  pub queue_depth : ℕ
  pub backpressure_level : ℕ

pub record EscHealth : Type 0 where
  pub is_alive : ℕ
  pub is_ready : ℕ
  pub backpressure_level : ℕ

abbrev pub pressure_value : PressureLevel → ℕ
pressure_value PressureLevel.normal = 0
pressure_value PressureLevel.high = 1
pressure_value PressureLevel.critical = 2

unfoldable pub sum_processed : List (Bytes × BusMetrics) → ℕ
sum_processed [] = 0
sum_processed ((name, m) ∷ rest) = u64 (m.total_events_processed + sum_processed rest)

unfoldable pub sum_dropped : List (Bytes × BusMetrics) → ℕ
sum_dropped [] = 0
sum_dropped ((name, m) ∷ rest) = u64 (m.total_events_dropped + sum_dropped rest)

unfoldable pub queue_depth : Bus → ℕ
queue_depth b =
    u64 (Bus.size b QueueId.realtime + Bus.size b QueueId.transactional + Bus.size b QueueId.batch)

unfoldable pub metrics_of : List (Bytes × BusMetrics) → Option Engine → Option EscMetrics
unfolding sum_processed sum_dropped queue_depth
metrics_of snapshots none = none
metrics_of snapshots (some engine) = some record {
  total_events_processed = sum_processed snapshots;
  total_events_dropped = sum_dropped snapshots;
  queue_depth = queue_depth engine.event_bus;
  backpressure_level = pressure_value engine.event_bus.realtime_bus.pressure;
}

-- The two readers: a status, or what they write to `out`; `none` for a read through a null engine.
pub data Answer (A : Type 0) : Type 0 where
  refused : EscStatus → Answer A
  written : A → Answer A

abbrev pub written_or : {A : Type 0} → Option A → Option (Answer A)
written_or none = none
written_or (some a) = some (written a)

unfoldable pub esccore_metrics :
    List (Bytes × BusMetrics) → Bool → Globals → Option (Answer EscMetrics)
unfolding metrics_of
esccore_metrics snapshots has_out g =
    if not g.initialised
    then some (refused esc_err_init)
    else if not has_out
    then some (refused esc_err_invalid)
    else written_or (metrics_of snapshots g.engine)

unfoldable pub health_of : Bool → Option Engine → Option EscHealth
health_of initialised none = none
health_of initialised (some engine) = some record {
  is_alive = 1;
  is_ready = if initialised then 1 else 0;
  backpressure_level = pressure_value engine.event_bus.realtime_bus.pressure;
}

unfoldable pub esccore_health : Bool → Globals → Option (Answer EscHealth)
unfolding health_of
esccore_health has_out g =
    if not g.initialised
    then some (refused esc_err_init)
    else if not has_out
    then some (refused esc_err_invalid)
    else written_or (health_of g.initialised g.engine)
