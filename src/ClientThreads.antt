-- ===== src/ClientThreads.antt =====
-- The threads of the TCP server's clients (src/core/ingest/tcp.cpp): `acceptConnections`,
-- `cleanupFinishedThreads` and the joins of `stop`. What a thread does with its client is in `Ingest`.
pub mod Joined
mod Tests
use event_stream_core.Common.{
  ℕ, zero, suc, ◌+◌, ◌-◌, ◌^◌, Bool, true, false, not, ◌&&◌, Option, none, some, List, [], ◌∷◌,
  ◌++◌, leb, if◌then◌else◌, u64,
}

-- Where a client's thread stands: before the count of active connections, in `handleClient`, done.
pub data Phase : Type 0 where
  spawned handling finished : Phase

-- The clients are numbered in the order in which they came.
pub record ClientThread : Type 0 where
  pub client : ℕ
  pub phase : Phase

-- `joined` are the clients whose threads have been joined, `clients` how many there have been.
pub record TcpServer : Type 0 where
  pub is_running : Bool
  pub client_threads : List ClientThread
  pub connections_since_cleanup : ℕ
  pub active_connections : ℕ
  pub total_connections_accepted : ℕ
  pub clients : ℕ
  pub joined : List ℕ

abbrev pub started : TcpServer
started = record {
  is_running = true;
  client_threads = [];
  connections_since_cleanup = 0;
  active_connections = 0;
  total_connections_accepted = 0;
  clients = 0;
  joined = [];
}

abbrev pub cleanup_interval : ℕ
cleanup_interval = 10

abbrev pub is_finished : Phase → Bool
is_finished finished = true
is_finished spawned = false
is_finished handling = false

-- The loop of `cleanupFinishedThreads`: the threads kept, and those joined.
unfoldable pub sweep : List ClientThread → List ClientThread × List ℕ
sweep [] = ([], [])
sweep (t ∷ ts) =
    let (kept, joined) = sweep ts in
    if is_finished t.phase then (kept, t.client ∷ joined) else (t ∷ kept, joined)

unfoldable pub cleanup_finished_threads : TcpServer → TcpServer
unfolding sweep
cleanup_finished_threads v = record v {
  client_threads = (sweep v.client_threads).0;
  joined = v.joined ++ (sweep v.client_threads).1;
}

-- A round of `acceptConnections` after `accept` gave a client.
abbrev pub add_client : TcpServer → TcpServer
add_client v = record v {
  client_threads = v.client_threads ++ record { client = v.clients; phase = spawned } ∷ [];
  connections_since_cleanup = v.connections_since_cleanup + 1;
  total_connections_accepted = u64 (v.total_connections_accepted + 1);
  clients = v.clients + 1;
}

unfoldable pub accept_client : TcpServer → TcpServer
unfolding cleanup_finished_threads
accept_client v =
    if leb cleanup_interval (add_client v).connections_since_cleanup
    then record (cleanup_finished_threads (add_client v)) { connections_since_cleanup = 0 }
    else add_client v

abbrev pub phase_at : List ClientThread → ℕ → Option Phase
phase_at [] i = none
phase_at (t ∷ ts) zero = some t.phase
phase_at (t ∷ ts) (suc i) = phase_at ts i

abbrev pub set_phase : List ClientThread → ℕ → Phase → List ClientThread
set_phase [] i phase = []
set_phase (t ∷ ts) zero phase = record t { phase = phase } ∷ ts
set_phase (t ∷ ts) (suc i) phase = t ∷ set_phase ts i phase

-- The next step of the thread in place `i`: it counts its connection and enters `handleClient`, or
-- it has left it, and counts down.
unfoldable pub thread_step : ℕ → TcpServer → Option Phase → TcpServer
thread_step i v none = v
thread_step i v (some spawned) = record v {
  client_threads = set_phase v.client_threads i handling;
  active_connections = u64 (v.active_connections + 1);
}
thread_step i v (some handling) = record v {
  client_threads = set_phase v.client_threads i finished;
  active_connections = u64 (v.active_connections + (2 ^ 64 - 1));
}
thread_step i v (some finished) = v

abbrev pub all_finished : List ClientThread → Bool
all_finished [] = true
all_finished (t ∷ ts) = is_finished t.phase && all_finished ts

abbrev pub clients_of : List ClientThread → List ℕ
clients_of [] = []
clients_of (t ∷ ts) = t.client ∷ clients_of ts

-- The joins of `stop`, which wait until every thread has ended.
unfoldable pub join_clients : TcpServer → TcpServer
join_clients v =
    if not v.is_running && all_finished v.client_threads
    then record v { client_threads = []; joined = v.joined ++ clients_of v.client_threads }
    else v

-- `fails`: `accept` gave no client.
pub data Action : Type 0 where
  accepts fails stops joins : Action
  goes_on : ℕ → Action

unfoldable pub step : Action → TcpServer → TcpServer
unfolding accept_client thread_step join_clients
step accepts v = if v.is_running then accept_client v else v
step fails v = v
step stops v = record v { is_running = false }
step joins v = join_clients v
step (goes_on i) v = thread_step i v (phase_at v.client_threads i)

unfoldable pub run : List Action → TcpServer → TcpServer
unfolding step
run [] v = v
run (a ∷ rest) v = run rest (step a v)
