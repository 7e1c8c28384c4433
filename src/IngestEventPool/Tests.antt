-- ===== src/IngestEventPool/Tests.antt =====
-- An event that comes back written.
use event_stream_core.Common.{◌≡◌, refl, [], ◌∷◌}
use event_stream_core.Event.{Event, blank_event}
use event_stream_core.IngestEventPool.{start, shutdown, release}

abbrev written : Event
written = record blank_event { body = 1 ∷ 2 ∷ [] }

shut_pool_keeps_nothing : release written (shutdown start) ≡ shutdown start
unfolding release shutdown
shut_pool_keeps_nothing = refl
