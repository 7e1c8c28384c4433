-- ===== src/DeadLetterQueue.antt =====
-- src/core/events/dead_letter_queue.cpp: the last 1000 dropped events, and how many there were.
-- The counter is a `size_t` and wraps.
pub mod Recent
mod Tests
use mathlib.Core.List.{reverse}
use event_stream_core.Common.{
  ℕ, ◌+◌, min, none, some, List, [], ◌∷◌, ◌++◌, leb, if◌then◌else◌, length, take, drop, u64,
}
use event_stream_core.Event.{Event, EventPtr}

abbrev pub max_stored_events : ℕ
max_stored_events = 1000

pub record DeadLetterQueue : Type 0 where
  pub total_dropped : ℕ
  -- Oldest first, as in the deque.
  pub stored_events : List Event

abbrev pub empty : DeadLetterQueue
empty = record { total_dropped = 0; stored_events = [] }

-- `pop_front` when the deque is full, then `push_back`.
unfoldable pub store : List Event → Event → List Event
store stored e = (if leb max_stored_events (length stored) then drop 1 stored else stored) ++ e ∷ []

unfoldable pub push : DeadLetterQueue → Event → DeadLetterQueue
push d e = record {
  total_dropped = u64 (d.total_dropped + 1);
  stored_events = store d.stored_events e;
}

-- The loop of `pushBatch`; a null pointer is passed over.
unfoldable pub store_all : List Event → List EventPtr → List Event
store_all stored [] = stored
store_all stored (none ∷ events) = store_all stored events
store_all stored (some e ∷ events) = store_all (store stored e) events

unfoldable pub push_batch : DeadLetterQueue → List EventPtr → DeadLetterQueue
push_batch d [] = d
push_batch d (e ∷ events) = record {
  total_dropped = u64 (d.total_dropped + length (e ∷ events));
  stored_events = store_all d.stored_events (e ∷ events);
}

-- Newest first.
unfoldable pub get_recent_events : DeadLetterQueue → ℕ → List Event
get_recent_events d max_count =
    take (min max_count (length d.stored_events)) (reverse d.stored_events)

unfoldable pub size : DeadLetterQueue → ℕ
size d = length d.stored_events

unfoldable pub clear : DeadLetterQueue → DeadLetterQueue
clear d = record d { stored_events = [] }
