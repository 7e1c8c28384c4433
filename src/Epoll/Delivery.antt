-- ===== src/Epoll/Delivery.antt =====
-- One readiness report of a connection: what its client sees, and what reaches the dispatcher.
use event_stream_core.Common.{
  ℕ, ◌+◌, ◌≤◌, ◌≡◌, sym, ap, subst, ◌∙◌, true, false, some, List, [], ◌∷◌, ◌++◌, arith, length, All,
  Bytes,
}
use event_stream_core.Frame.{ParsedFrame}
use event_stream_core.Stream.{receive}
use event_stream_core.Stream.Frames.{
  IsSendable, encode_all, receive_all, concat, between, receive_all-encode_all,
}
use event_stream_core.Dispatcher.{inbound_capacity}
use event_stream_core.Dispatcher.Loop.{IsValid, arrivals}
use event_stream_core.Ingest.{Server, on_frame}
use event_stream_core.Ingest.Tcp.{Served, tcp_stream_lem}
use event_stream_core.Epoll.{
  ConnectionState, would_block, keeps_open, EpollServer, Ready, find, assign, close_unless,
  process_buffer, drain_socket, read_into, handle_read, handle_ready,
}
use event_stream_core.Epoll.Buffer.{
  client_of, process_buffer-Follows, drain_socket_address, drain_socket-receive_all,
}
use event_stream_core.Epoll.Lookup.{find-assign}

-- A readable connection with nothing wrong.
pub record Reads (r : Ready) : Type 0 where
  pub no_hang_up : r.hang_up ≡ false
  pub is_readable : r.readable ≡ true
  pub blocks : r.read_end ≡ would_block

module _ {ℓ} {S : Type ℓ} (on_frame : Bytes → Bytes → S → S) where
  handle_read-some :
      (r : Ready) (v : EpollServer S) (state : ConnectionState)
      → r.read_end ≡ would_block
      → find r.fd v.connections ≡ some state
      → let after = drain_socket on_frame r.chunks state v.sink in
        handle_read on_frame r v
        ≡ (record v { connections = assign r.fd after.0 v.connections; sink = after.1 }, true)
  unfolding handle_read read_into
  handle_read-some r v state b h =
      let (state', s') = drain_socket on_frame r.chunks state v.sink in
      ap (read_into on_frame r v) h
      ∙ ap
          (λ e.
            (record v { connections = assign r.fd state' v.connections; sink = s' }, keeps_open e))
          b

  pub handle_ready-some :
      (r : Ready) (v : EpollServer S) (state : ConnectionState)
      → Reads r
      → find r.fd v.connections ≡ some state
      → let after = drain_socket on_frame r.chunks state v.sink in
        handle_ready on_frame r v
        ≡ record v { connections = assign r.fd after.0 v.connections; sink = after.1 }
  unfolding handle_ready close_unless
  handle_ready-some r v state reads h =
      ground (arith, reads.no_hang_up, reads.is_readable, handle_read-some r v state reads.blocks h)

  -- When the TCP server would close the connection over what a `recv` gives (more than ten empty
  -- frames in a row, or a frame over the limit), the epoll server hands the same frames on, drops
  -- what is unread, and keeps the connection, so that its client goes on from there.
  pub violation_stays_open :
      (r : Ready) (v : EpollServer S) (state : ConnectionState) (chunk : Bytes)
      → Reads r
      → r.chunks ≡ chunk ∷ []
      → find r.fd v.connections ≡ some state
      → let c = receive (on_frame state.client_address) chunk (client_of on_frame state v.sink) in
        c.is_open ≡ false
        → let v' = handle_ready on_frame r v in
          ((state' : ConnectionState) × (find r.fd v'.connections ≡ some state')
            × (state'.buffer ≡ [])
            × (state'.client_address ≡ state.client_address))
          × (v'.sink ≡ c.sink)
  unfolding drain_socket
  violation_stays_open r v state chunk reads one h shut =
      let after =
        process_buffer on_frame (record state { buffer = state.buffer ++ chunk }) v.sink in
      let (same, sunk, _, emptied) = process_buffer-Follows on_frame chunk state v.sink in
      let e =
        handle_ready-some r v state reads h
        ∙ ap
            (λ chunks. record v {
              connections = assign r.fd (drain_socket on_frame chunks state v.sink).0 v.connections;
              sink = (drain_socket on_frame chunks state v.sink).1;
            })
            one in
      (
        (
          after.0,
          ap (λ w. find r.fd w.connections) e ∙ find-assign r.fd after.0 state v.connections h,
          emptied shut,
          same,
        ),
        ap (λ w. w.sink) e ∙ sunk,
      )

-- A report that a connection, fresh or between frames, has whole frames to read, however `recv`
-- cuts them up, gives the dispatcher's inbound queue one event for each frame, in order, with ids in
-- sequence, if it has room for them all; the connection stays, with nothing unread.
pub epoll_stream_lem :
    (clock : ℕ → ℕ) (fs : List ParsedFrame) (r : Ready) (v : EpollServer Server)
    (state : ConnectionState)
    → Reads r
    → find r.fd v.connections ≡ some state
    → state.buffer ≡ []
    → state.empty_frame_count ≡ 0
    → All IsSendable fs
    → concat r.chunks ≡ encode_all fs
    → IsValid v.sink.dispatcher
    → length (arrivals v.sink.dispatcher) + length fs ≤ inbound_capacity
    → let v' = handle_ready (on_frame clock) r v in
      Served clock state.client_address fs v.sink v'.sink × (find r.fd v'.connections ≡ some state)
epoll_stream_lem clock fs r v state reads h nothing none_empty sendable cut valid room =
    let on_frame = on_frame clock in
    let after = drain_socket on_frame r.chunks state v.sink in
    let c =
      receive_all (on_frame state.client_address) r.chunks (client_of on_frame state v.sink) in
    let fresh : client_of on_frame state v.sink ≡ between (on_frame state.client_address) v.sink =
      ground arith in
    let (open_, served) =
      subst
        (λ b.
          let c = receive_all (on_frame state.client_address) r.chunks b in
          (c.is_open ≡ true) × Served clock state.client_address fs v.sink c.sink)
        (sym fresh)
        (tcp_stream_lem clock state.client_address fs r.chunks v.sink sendable cut valid room) in
    let follows = drain_socket-receive_all on_frame r.chunks state v.sink open_ in
    let e = handle_ready-some on_frame r v state reads h in
    let ended =
      follows
      ∙ ap (receive_all (on_frame state.client_address) r.chunks) fresh
      ∙ receive_all-encode_all (on_frame state.client_address) fs r.chunks v.sink sendable cut in
    let same : after.0 ≡ state = ground (
      arith,
      ap (λ b. b.buffer) ended,
      ap (λ b. b.empty_frame_count) ended,
      drain_socket_address on_frame r.chunks state v.sink,
    ) in
    (
      subst (Served clock state.client_address fs v.sink)
          (sym (ap (λ w. w.sink) e ∙ ap (λ b. b.sink) follows)) served,
      ap (λ w. find r.fd w.connections) e
          ∙ find-assign r.fd after.0 state v.connections h
          ∙ ap (λ a. some a) same,
    )
