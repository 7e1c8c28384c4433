-- ===== src/IngestEventPool.antt =====
-- include/eventstream/core/ingest/pool.hpp: the pool of events that the ingest threads share. The
-- mutex makes each access a step. A shared pointer's last release runs `release`; the event that it
-- deletes is gone.
pub mod Blank
mod Tests
use event_stream_core.Common.{
  ℕ, Bool, true, false, List, [], ◌∷◌, ◌++◌, ltb, if◌then◌else◌, length, replicate,
}
use event_stream_core.Event.{Event, blank_event}

abbrev pub pool_capacity : ℕ
pool_capacity = 10000

-- The queue, its front first, and the flag of `shutdown`.
pub record Pool : Type 0 where
  pub events : List Event
  pub is_shutdown : Bool

abbrev pub start : Pool
start = record { events = []; is_shutdown = false }

unfoldable pub initialize : Pool → Pool
initialize p = record {
  events = p.events ++ replicate pool_capacity blank_event;
  is_shutdown = false;
}

unfoldable pub shutdown : Pool → Pool
shutdown p = record { events = []; is_shutdown = true }

-- `acquireEvent`: the front of the pool, or a new event when it is empty.
unfoldable pub front_or_new : Bool → List Event → Pool × Event
front_or_new flag [] = (record { events = []; is_shutdown = flag }, blank_event)
front_or_new flag (e ∷ events) = (record { events = events; is_shutdown = flag }, e)

unfoldable pub acquire_event : Pool → Pool × Event
unfolding front_or_new
acquire_event p = front_or_new p.is_shutdown p.events

-- The custom deleter: the event is reset before it goes back.
unfoldable pub release : Event → Pool → Pool
release e p =
    if p.is_shutdown
    then p
    else if ltb (length p.events) pool_capacity
    then record p { events = p.events ++ blank_event ∷ [] }
    else p

unfoldable pub get_pool_size : Pool → ℕ
get_pool_size p = length p.events
