-- ===== src/Event.antt =====
-- include/eventstream/core/events/event.hpp: the event that travels through the pipeline.
-- An `EventPtr` is an `Option Event`, `none` for the null pointer.
use event_stream_core.Common.{ℕ, Option, List, [], Bytes}

pub data EventSourceType : Type 0 where
  tcp udp file internal plugin python : EventSourceType

pub data EventPriority : Type 0 where
  batch low medium high critical : EventPriority

-- `static_cast<int>(priority)`, and the order that `<` compares by.
abbrev pub priority_value : EventPriority → ℕ
priority_value EventPriority.batch = 0
priority_value EventPriority.low = 1
priority_value EventPriority.medium = 2
priority_value EventPriority.high = 3
priority_value EventPriority.critical = 4

abbrev pub source_value : EventSourceType → ℕ
source_value EventSourceType.tcp = 0
source_value EventSourceType.udp = 1
source_value EventSourceType.file = 2
source_value EventSourceType.internal = 3
source_value EventSourceType.plugin = 4
source_value EventSourceType.python = 5

pub record EventHeader : Type 0 where
  pub source_type : EventSourceType
  pub priority : EventPriority
  pub id : ℕ
  pub timestamp : ℕ
  pub body_len : ℕ
  pub topic_len : ℕ
  pub crc32 : ℕ

pub record Event : Type 0 where
  pub header : EventHeader
  pub topic : Bytes
  pub body : Bytes
  pub metadata : List (Bytes × Bytes)
  pub dequeue_time_ns : ℕ

abbrev pub EventPtr : Type 0
EventPtr = Option Event

-- `evt->header.priority = p`.
abbrev pub set_priority : Event → EventPriority → Event
set_priority e p = record e { header = record (e.header) { priority = p } }

-- `Event{}`: what the pools hand out, and what an unused slot of the ring holds.
abbrev pub blank_event : Event
blank_event = record {
  header = record {
    source_type = EventSourceType.tcp;
    priority = EventPriority.batch;
    id = 0;
    timestamp = 0;
    body_len = 0;
    topic_len = 0;
    crc32 = 0;
  };
  topic = [];
  body = [];
  metadata = [];
  dequeue_time_ns = 0;
}
