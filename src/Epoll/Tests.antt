-- ===== src/Epoll/Tests.antt =====
-- A server with one client.
use event_stream_core.Common.{
  ℕ, ◌+◌, ◌-◌, ◌≡◌, refl, sym, ◌≢◌, ◌⊎◌, true, false, none, some, List, [], ◌∷◌, ◌++◌, arith,
  length, replicate, Bytes, codes,
}
use event_stream_core.Epoll.Start.{
  SystemCalls, write_epolls, created, create_epolls, set_up, with_socket, start, stop_sockets,
}
use event_stream_core.Epoll.Descriptors.{fails_late, after_stop, descriptors_lem}
use event_stream_core.Event.{EventPriority}
use event_stream_core.Frame.{ParsedFrame}
use event_stream_core.Mpsc
use event_stream_core.Bus
use event_stream_core.Dispatcher.{Dispatcher}
use event_stream_core.Dispatcher.Loop.{IsValid as IsDispatcherValid}
use event_stream_core.Ingest.{Server, on_frame}
use event_stream_core.Ingest.Tcp.{Served}
use event_stream_core.Epoll.{
  ConnectionState, EpollServer, Accepted, Ready, would_block, peer_closed, find, started,
  accept_connection, handle_ready, emplace, clamp_workers,
}
use event_stream_core.Stream.{receive, scan, next_frame, classify, frame_len_at}
use event_stream_core.Epoll.Buffer.{client_of}
use event_stream_core.Epoll.Connections.{
  IsValid, started-IsValid, Reaches, here, then_step, accepts, Reaches-IsValid,
}
use event_stream_core.Epoll.Delivery.{Reads, violation_stays_open, epoll_stream_lem}

abbrev collect : Bytes → Bytes → List Bytes → List Bytes
collect address b s = b ∷ s

abbrev client : ConnectionState
client = record { buffer = []; client_address = codes "a"; empty_frame_count = 0 }

abbrev client_arrives : Accepted
client_arrives = record { fd = 7; address = codes "a"; non_blocking = true; added = true }

abbrev begun : EpollServer (List Bytes)
begun = started 3 8 []

abbrev serving : EpollServer (List Bytes)
serving = record {
  is_running = true;
  connections = (7, client) ∷ [];
  num_workers = 3;
  next_worker = 1;
  active_connections = 1;
  total_connections_accepted = 1;
  sink = [];
}

abbrev reads : List Bytes → Ready
reads chunks = record {
  fd = 7;
  hang_up = false;
  readable = true;
  chunks = chunks;
  read_end = would_block;
}

abbrev leaves : Ready
leaves = record (reads []) { read_end = peer_closed }

reads-Reads : (chunks : List Bytes) → Reads (reads chunks)
reads-Reads chunks = record { no_hang_up = refl; is_readable = refl; blocks = refl }

accept_lem : accept_connection client_arrives begun ≡ serving
unfolding accept_connection started emplace clamp_workers find
accept_lem = refl

begun-Reaches : Reaches collect begun serving
unfolding find started
begun-Reaches =
    then_step begun begun serving (here begun)
      (accepts client_arrives begun serving refl (sym accept_lem))

serving-IsValid : IsValid serving
serving-IsValid = Reaches-IsValid collect begun serving begun-Reaches (started-IsValid 3 8 [])

known : find 7 serving.connections ≢ none
unfolding find
known = λ e. cc

client_is_found : find 7 serving.connections ≡ some client
unfolding find
client_is_found = refl

violation_shuts :
    (receive (collect client.client_address) (replicate 44 0) (client_of collect client [])).is_open
    ≡ false
unfolding receive scan next_frame classify frame_len_at
violation_shuts = refl

violation_stays_open_example :
    let v' = handle_ready collect (reads (replicate 44 0 ∷ [])) serving in
    ((state' : ConnectionState) × (find 7 v'.connections ≡ some state')
      × (state'.buffer ≡ [])
      × (state'.client_address ≡ codes "a"))
    × (v'.sink
        ≡ (receive (collect (codes "a")) (replicate 44 0) (client_of collect client [])).sink)
violation_stays_open_example =
    violation_stays_open collect (reads (replicate 44 0 ∷ [])) serving client (replicate 44 0)
      (reads-Reads (replicate 44 0 ∷ [])) refl client_is_found violation_shuts

abbrev no_metrics : Bus.BusMetrics
no_metrics = record {
  total_events_processed = 0;
  total_events_dropped = 0;
  current_queue_depth = 0;
  last_event_timestamp_ms = 0;
}

abbrev idle : Dispatcher
idle = record {
  event_bus = Bus.init no_metrics;
  inbound_queue = Mpsc.empty;
  topic_table = none;
  running = false;
}

idle-IsValid : IsDispatcherValid idle
idle-IsValid = record {
  bus = Bus.Queues.init-IsValid no_metrics;
  inbound = Mpsc.Chain.empty-IsValid;
}

abbrev sink : Server
sink = record {
  dispatcher = idle;
  global_event_id = 41;
  total_events_processed = 0;
  total_backpressure_drops = 0;
}

abbrev server : EpollServer Server
server = record {
  is_running = true;
  connections = (7, client) ∷ [];
  num_workers = 3;
  next_worker = 1;
  active_connections = 1;
  total_connections_accepted = 1;
  sink = sink;
}

abbrev ping : ParsedFrame
ping = record { priority = EventPriority.low; topic = codes "p"; payload = 9 ∷ [] }

abbrev clock : ℕ → ℕ
clock n = n + 1000

abbrev chunks : List Bytes
chunks = (0 ∷ 0 ∷ []) ∷ (0 ∷ 5 ∷ 1 ∷ 0 ∷ 1 ∷ 112 ∷ 9 ∷ []) ∷ []

server_finds : find 7 server.connections ≡ some client
unfolding find
server_finds = refl

epoll_stream_lem_example :
    let v' = handle_ready (on_frame clock) (reads chunks) server in
    Served clock (codes "a") (ping ∷ []) sink v'.sink × (find 7 v'.connections ≡ some client)
unfolding Mpsc.empty
epoll_stream_lem_example =
    epoll_stream_lem clock (ping ∷ []) (reads chunks) server client (reads-Reads chunks)
      server_finds refl refl
      (
        record {
          encodable = record {
            topic_nonempty = omega arith;
            topic_short = omega arith;
            short = omega arith;
          };
          within = omega arith;
        },
        tt,
      )
      refl idle-IsValid (omega arith)

-- The third of four `epoll_create1` fails.
abbrev two_of_four : SystemCalls
two_of_four = record {
  socket = none;
  non_blocking = true;
  binds = true;
  listens = true;
  epolls = some 4 ∷ some 5 ∷ none ∷ some 9 ∷ [];
}

closed_twice : (after_stop two_of_four 3).closed ≡ 4 ∷ 5 ∷ 3 ∷ 4 ∷ 5 ∷ 0 ∷ []
unfolding start with_socket set_up create_epolls stop_sockets write_epolls
closed_twice = refl

descriptors_lem_example :
    ((fails_late two_of_four 3 ≡ false)
      × ((after_stop two_of_four 3).closed ≡ (after_stop two_of_four 3).opened))
    ⊎ ((fails_late two_of_four 3 ≡ true)
        × ((after_stop two_of_four 3).opened ≡ 3 ∷ created (two_of_four.epolls))
        × ((after_stop two_of_four 3).closed
            ≡ (created (two_of_four.epolls) ++ 3 ∷ [])
              ++ (created (two_of_four.epolls)
                  ++ replicate (4 - (length (created (two_of_four.epolls)) + 1)) 0)))
descriptors_lem_example = descriptors_lem two_of_four 3
