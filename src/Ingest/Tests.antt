-- ===== src/Ingest/Tests.antt =====
-- A server with an idle dispatcher.
use event_stream_core.Common.{
  ℕ, ◌+◌, ◌≡◌, refl, true, false, none, some, [], ◌∷◌, arith, replicate, codes,
}
use event_stream_core.Event.{EventPriority}
use event_stream_core.Frame.{ParsedFrame}
use event_stream_core.Mpsc
use event_stream_core.Bus
use event_stream_core.Stream.Frames.{receive_all, between}
use event_stream_core.Dispatcher.{Dispatcher}
use event_stream_core.Dispatcher.Loop.{IsValid}
use event_stream_core.Ingest.{Server, on_frame}
use event_stream_core.Ingest.Tcp.{Served, tcp_stream_lem}
use event_stream_core.Ingest.Udp.{UdpServer, handle_datagram, datagram, receive, receive_wrapped}

abbrev no_metrics : Bus.BusMetrics
no_metrics = record {
  total_events_processed = 0;
  total_events_dropped = 0;
  current_queue_depth = 0;
  last_event_timestamp_ms = 0;
}

abbrev idle : Dispatcher
idle = record {
  event_bus = Bus.init no_metrics;
  inbound_queue = Mpsc.empty;
  topic_table = none;
  running = false;
}

idle-IsValid : IsValid idle
idle-IsValid = record {
  bus = Bus.Queues.init-IsValid no_metrics;
  inbound = Mpsc.Chain.empty-IsValid;
}

abbrev server : Server
server = record {
  dispatcher = idle;
  global_event_id = 41;
  total_events_processed = 0;
  total_backpressure_drops = 0;
}

abbrev udp_server : UdpServer
udp_server = record {
  server = server;
  recv_buffer = replicate 32 0;
  total_datagrams_received = 0;
  total_parse_errors = 0;
}

abbrev clock : ℕ → ℕ
clock n = n + 1000

abbrev ping : ParsedFrame
ping = record { priority = EventPriority.low; topic = codes "p"; payload = 9 ∷ [] }

small_datagram_is_an_error :
    receive clock (datagram (0 ∷ 0 ∷ 0 ∷ []) (codes "a")) udp_server
    ≡ some (record udp_server {
      recv_buffer = replicate 32 0;
      total_datagrams_received = 1;
      total_parse_errors = 1;
    })
unfolding receive handle_datagram
small_datagram_is_an_error = refl

tcp_stream_lem_example :
    let c =
      receive_all
        (on_frame clock (codes "a"))
        ((0 ∷ 0 ∷ []) ∷ (0 ∷ 5 ∷ 1 ∷ 0 ∷ 1 ∷ 112 ∷ 9 ∷ []) ∷ [])
        (between (on_frame clock (codes "a")) server) in
    (c.is_open ≡ true) × Served clock (codes "a") (ping ∷ []) server c.sink
unfolding Mpsc.empty
tcp_stream_lem_example =
    tcp_stream_lem clock (codes "a") (ping ∷ [])
      ((0 ∷ 0 ∷ []) ∷ (0 ∷ 5 ∷ 1 ∷ 0 ∷ 1 ∷ 112 ∷ 9 ∷ []) ∷ []) server
      (
        record {
          encodable = record {
            topic_nonempty = omega arith;
            topic_short = omega arith;
            short = omega arith;
          };
          within = omega arith;
        },
        tt,
      )
      refl idle-IsValid (omega arith)

receive_wrapped_example :
    receive clock (datagram (255 ∷ 255 ∷ 255 ∷ 252 ∷ 1 ∷ 0 ∷ 1 ∷ 112 ∷ []) (codes "a")) udp_server
    ≡ none
receive_wrapped_example =
    receive_wrapped clock (codes "a") 252 1 0 1 (112 ∷ []) udp_server (omega arith) (omega arith)
      (omega arith) (omega arith) (omega arith) (omega arith) (omega arith)
