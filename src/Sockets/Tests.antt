-- ===== src/Sockets/Tests.antt =====
-- A server that fails to listen, and is started again.
use event_stream_core.Common.{◌≡◌, true, false, none, some, [], ◌∷◌, arith}
use event_stream_core.Sockets.{
  SystemCalls, Listener, tcp_server, new_listener, start_thread, listen_on, with_socket, start,
}
use event_stream_core.Sockets.Lives.{IsClosed, IsStarted, live, live_lem}

abbrev fails : SystemCalls
fails = record { socket = some 5; binds = true; listens = false }

abbrev works : SystemCalls
works = record { socket = some 6; binds = true; listens = true }

a_second_start_terminates : (l : Listener) → l.has_thread ≡ true → start tcp_server works l ≡ none
unfolding start with_socket listen_on start_thread
a_second_start_terminates l h = ground arith

live_lem_example :
    (l : Listener) × (live tcp_server (fails ∷ works ∷ []) (some new_listener) ≡ some l)
    × IsClosed l
    × (m : Listener) × (start tcp_server works l ≡ some m)
    × IsStarted m
live_lem_example = live_lem tcp_server (fails ∷ works ∷ []) works
