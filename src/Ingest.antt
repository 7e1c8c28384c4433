-- ===== src/Ingest.antt =====
-- What the ingest servers (src/core/ingest/tcp.cpp, udp.cpp) do with a parsed frame: make an event,
-- push it to the dispatcher, and count. The event that the pool hands out is overwritten as a whole,
-- so that the pool's state does not matter here.
pub mod Tcp
pub mod Udp
mod Tests
use event_stream_core.Common.{ℕ, ◌+◌, Bool, true, false, some, [], ◌∷◌, Bytes, codes, u64}
use event_stream_core.Event.{Event, EventSourceType}
use event_stream_core.Frame.{ParsedFrame, Parse, ok, err, fault, parse_full_frame}
use event_stream_core.EventFactory.{create_event, next_event_id}
use event_stream_core.Dispatcher
use event_stream_core.Dispatcher.{Dispatcher}

-- A server's counters, with the dispatcher and the counter of ids that all servers share.
pub record Server : Type 0 where
  pub dispatcher : Dispatcher
  pub global_event_id : ℕ
  pub total_events_processed : ℕ
  pub total_backpressure_drops : ℕ

-- The event of a frame, at the clock's reading and with the counter's value.
unfoldable pub event_of : EventSourceType → ℕ → Bytes → ℕ → ParsedFrame → Event
event_of source now_ns client_address global_event_id f =
    create_event now_ns global_event_id source f.priority f.payload f.topic
      ((codes "client_address", client_address) ∷ [])

unfoldable pub count_push : Server → Dispatcher × Bool → Server
count_push s (d, false) = record s {
  dispatcher = d;
  total_backpressure_drops = u64 (s.total_backpressure_drops + 1);
}
count_push s (d, true) = record s {
  dispatcher = d;
  total_events_processed = u64 (s.total_events_processed + 1);
}

-- `clock n` is the clock's reading when the counter of ids stands at `n`.
unfoldable pub hand_on : EventSourceType → (ℕ → ℕ) → Bytes → ParsedFrame → Server → Server
unfolding count_push event_of
hand_on source clock client_address f s =
    let event = event_of source (clock s.global_event_id) client_address s.global_event_id f in
    count_push (record s { global_event_id = next_event_id s.global_event_id })
      (Dispatcher.try_push s.dispatcher (some event))

-- What `handleClient` does with a full frame; a frame that does not parse is skipped.
-- `Frame.Safety` shows that the read out of bounds does not happen.
unfoldable pub parsed : EventSourceType → (ℕ → ℕ) → Bytes → Server → Parse ParsedFrame → Server
parsed source clock client_address s (ok f) = hand_on source clock client_address f s
parsed source clock client_address s (err e) = s
parsed source clock client_address s fault = s

unfoldable pub on_frame : (ℕ → ℕ) → Bytes → Bytes → Server → Server
unfolding parsed
on_frame clock client_address full_frame s =
    parsed EventSourceType.tcp clock client_address s (parse_full_frame full_frame)
