-- ===== src/Epoll.antt =====
-- The epoll server of src/core/ingest/epoll.cpp: its connections by file descriptor, one round of
-- a worker for each descriptor that epoll reports, and the loop that cuts frames off a connection's
-- buffer (`Stream` has the guards of a round, which src/core/ingest/tcp.cpp has too).
-- Sockets are inputs: what `accept`, `epoll_ctl`, `epoll_wait` and `recv` gave.
pub mod Start
pub mod Descriptors
pub mod Lookup
pub mod Connections
pub mod Closing
pub mod Buffer
pub mod Delivery
mod Tests
use event_stream_core.Common.{
  ℕ, zero, suc, ◌+◌, ◌-◌, ◌%◌, ◌^◌, Bool, true, false, Option, none, some, List, [], ◌∷◌, ◌++◌, ltb,
  ◌==◌, if◌then◌else◌, length, take, drop, Bytes, u32, u64,
}
use event_stream_core.Stream.{wait, skip, too_many_empty, too_large, frame, next_frame, compact}

pub record ConnectionState : Type 0 where
  pub buffer : Bytes
  pub client_address : Bytes
  pub empty_frame_count : ℕ

-- How the loop over one buffer ends: with an offset, or with the buffer cleared.
pub data Scanned {ℓ} (S : Type ℓ) : Type ℓ where
  kept : ℕ → ℕ → S → Scanned S
  cleared : ℕ → S → Scanned S

-- What follows the last `recv` that gave bytes.
pub data ReadEnd : Type 0 where
  peer_closed would_block failed : ReadEnd

-- What `handleRead` returns.
abbrev pub keeps_open : ReadEnd → Bool
keeps_open would_block = true
keeps_open peer_closed = false
keeps_open failed = false

-- `sink` is what the workers hand frames to; `accept` counts, and so do the connections.
pub record EpollServer {ℓ} (S : Type ℓ) : Type ℓ where
  pub is_running : Bool
  pub connections : List (ℕ × ConnectionState)
  pub num_workers : ℕ
  pub next_worker : ℕ
  pub active_connections : ℕ
  pub total_connections_accepted : ℕ
  pub sink : S

-- A client that `accept` gave, and whether `fcntl` and `epoll_ctl` took it.
pub record Accepted : Type 0 where
  pub fd : ℕ
  pub address : Bytes
  pub non_blocking : Bool
  pub added : Bool

-- A descriptor that `epoll_wait` reports: an error or a hangup, or bytes to read.
pub record Ready : Type 0 where
  pub fd : ℕ
  pub hang_up : Bool
  pub readable : Bool
  pub chunks : List Bytes
  pub read_end : ReadEnd

-- `connections_`, by descriptor.
unfoldable pub find {ℓ} : {A : Type ℓ} → ℕ → List (ℕ × A) → Option A
find fd [] = none
find fd ((k, a) ∷ rest) = if k == fd then some a else find fd rest

unfoldable pub erase {ℓ} : {A : Type ℓ} → ℕ → List (ℕ × A) → List (ℕ × A)
erase fd [] = []
erase fd ((k, a) ∷ rest) = if k == fd then rest else (k, a) ∷ erase fd rest

unfoldable pub assign {ℓ} : {A : Type ℓ} → ℕ → A → List (ℕ × A) → List (ℕ × A)
assign fd a [] = []
assign fd a ((k, b) ∷ rest) = if k == fd then (k, a) ∷ rest else (k, b) ∷ assign fd a rest

-- `emplace` of a fresh state, which does nothing if the descriptor has one, and its address.
unfoldable pub emplace : ℕ → Bytes → List (ℕ × ConnectionState) → List (ℕ × ConnectionState)
emplace fd address connections = elim (find fd connections) [
  | none ↦
      (fd, record { buffer = []; client_address = address; empty_frame_count = 0 }) ∷ connections
  | some state ↦ assign fd (record state { client_address = address }) connections
]

-- The constructor's number of workers; a request below 1 is 0 here, and so is an unknown hardware.
unfoldable pub clamp_workers : ℕ → ℕ → ℕ
clamp_workers requested hardware =
    let n = if ltb 0 requested then requested else hardware in
    if ltb n 1 then 1 else if ltb 16 n then 16 else n

module _ {ℓ} {S : Type ℓ} where
  -- The constructor and `start`, once the sockets and the threads are there.
  unfoldable pub started : ℕ → ℕ → S → EpollServer S
  started requested hardware s = record {
    is_running = true;
    connections = [];
    num_workers = clamp_workers requested hardware;
    next_worker = 0;
    active_connections = 0;
    total_connections_accepted = 0;
    sink = s;
  }

  unfoldable pub stop : EpollServer S → EpollServer S
  stop v = record v { is_running = false; connections = [] }

  -- The worker whose epoll descriptor the next client is added to.
  unfoldable pub worker_of : EpollServer S → ℕ
  worker_of v = v.next_worker % v.num_workers

  -- One round of `acceptConnections`.
  unfoldable pub accept_connection : Accepted → EpollServer S → EpollServer S
  accept_connection a v =
      let registered = emplace a.fd a.address v.connections in
      if a.non_blocking
      then if a.added
        then record v {
          connections = registered;
          next_worker = (v.next_worker + 1) % v.num_workers;
          active_connections = u64 (v.active_connections + 1);
          total_connections_accepted = u64 (v.total_connections_accepted + 1);
        }
        else record v { connections = erase a.fd registered }
      else v

  unfoldable pub close_connection : ℕ → EpollServer S → EpollServer S
  close_connection fd v = record v {
    connections = erase fd v.connections;
    active_connections = u64 (v.active_connections + (2 ^ 64 - 1));
  }

  -- What is kept is compacted; what is cleared is gone with the frames behind it.
  unfoldable pub after_scan_buffer : ConnectionState → Scanned S → ConnectionState × S
  after_scan_buffer state (kept offset empty s) =
      (record state { buffer = compact state.buffer offset; empty_frame_count = empty }, s)
  after_scan_buffer state (cleared empty s) =
      (record state { buffer = []; empty_frame_count = empty }, s)

  unfoldable pub close_unless : ℕ → EpollServer S × Bool → EpollServer S
  close_unless fd (v, true) = v
  close_unless fd (v, false) = close_connection fd v

  module _ (on_frame : Bytes → Bytes → S → S) where
    -- `while (offset < buf.size())`, on fuel: each round moves the offset by 4 or more.
    unfoldable pub scan_buffer : Bytes → ℕ → Bytes → ℕ → ℕ → S → Scanned S
    scan_buffer address zero buffer offset empty s = kept offset empty s
    scan_buffer address (suc fuel) buffer offset empty s = elim (ltb offset (length buffer)) [
      | false ↦ kept offset empty s
      | true ↦ elim (next_frame buffer offset empty) [
        | wait empty' ↦ kept offset empty' s
        | skip empty' ↦ scan_buffer address fuel buffer (offset + 4) empty' s
        | too_many_empty ↦ cleared (empty + 1) s
        | too_large ↦ cleared 0 s
        | frame frame_len ↦
            let total = u32 (4 + frame_len) in
            scan_buffer address fuel buffer (offset + total) 0
              (on_frame address (take total (drop offset buffer)) s)
      ]
    ]

    unfoldable pub process_buffer : ConnectionState → S → ConnectionState × S
    unfolding scan_buffer after_scan_buffer
    process_buffer state s = after_scan_buffer state (
        scan_buffer state.client_address (length state.buffer) state.buffer 0
          state.empty_frame_count s)

    -- The chunks that `recv` gave, each appended and processed.
    unfoldable pub drain_socket : List Bytes → ConnectionState → S → ConnectionState × S
    unfolding process_buffer
    drain_socket [] state s = (state, s)
    drain_socket (chunk ∷ chunks) state s =
        let (state', s') = process_buffer (record state { buffer = state.buffer ++ chunk }) s in
        drain_socket chunks state' s'

    unfoldable pub read_into : Ready → EpollServer S → Option ConnectionState → EpollServer S × Bool
    unfolding drain_socket
    read_into r v none = (v, false)
    read_into r v (some state) =
        let (state', s') = drain_socket r.chunks state v.sink in
        (
          record v { connections = assign r.fd state' v.connections; sink = s' },
          keeps_open r.read_end,
        )

    unfoldable pub handle_read : Ready → EpollServer S → EpollServer S × Bool
    unfolding read_into
    handle_read r v = read_into r v (find r.fd v.connections)

    -- What `workerLoop` does for one reported descriptor.
    unfoldable pub handle_ready : Ready → EpollServer S → EpollServer S
    unfolding close_unless handle_read
    handle_ready r v =
        if r.hang_up
        then close_connection r.fd v
        else if r.readable
        then close_unless r.fd (handle_read r v)
        else v

    -- `workerLoop` over the descriptors that the calls of `epoll_wait` report.
    unfoldable pub worker_loop : List Ready → EpollServer S → EpollServer S
    unfolding handle_ready
    worker_loop [] v = v
    worker_loop (r ∷ rs) v = worker_loop rs (handle_ready r v)
