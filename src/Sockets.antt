-- ===== src/Sockets.antt =====
-- The sockets of the TCP and UDP servers (src/core/ingest/tcp.cpp, udp.cpp): `start`, `stop` and
-- `closeSocket`. What the calls of the operating system gave is an argument.
pub mod Lives
mod Tests
use event_stream_core.Common.{
  ℕ, Bool, true, false, Option, none, some, List, [], ◌∷◌, ◌++◌, if◌then◌else◌,
}

-- What `socket`, `bind` and `listen` gave; no descriptor stands for -1. UDP does not listen.
pub record SystemCalls : Type 0 where
  pub socket : Option ℕ
  pub binds : Bool
  pub listens : Bool

-- `has_thread`: the thread that accepts or receives is joinable. `opened` and `closed` are the
-- descriptors that were opened and closed so far, in order.
pub record Listener : Type 0 where
  pub is_running : Bool
  pub server_fd : Option ℕ
  pub has_thread : Bool
  pub opened : List ℕ
  pub closed : List ℕ

pub data Protocol : Type 0 where
  tcp_server udp_server : Protocol

-- The constructors.
abbrev pub new_listener : Listener
new_listener = record {
  is_running = false;
  server_fd = none;
  has_thread = false;
  opened = [];
  closed = [];
}

unfoldable pub close_socket : Option ℕ → Listener → Listener
close_socket none l = l
close_socket (some fd) l = record l { closed = l.closed ++ fd ∷ [] }

-- Where `bind` or `listen` failed.
unfoldable pub give_up : Listener → Listener
unfolding close_socket
give_up l = record (close_socket l.server_fd l) { server_fd = none }

-- The assignment of the thread; `none` where a joinable thread is assigned to, which terminates.
unfoldable pub start_thread : Listener → Option Listener
start_thread l = if l.has_thread then none else some (record l { has_thread = true })

-- What follows `bind`.
unfoldable pub listen_on : Protocol → SystemCalls → Listener → Option Listener
unfolding give_up start_thread
listen_on udp_server k l = start_thread l
listen_on tcp_server k l = if k.listens then start_thread l else some (give_up l)

unfoldable pub with_socket : Protocol → SystemCalls → Listener → Option ℕ → Option Listener
unfolding listen_on give_up
with_socket protocol k l none = some (record l { server_fd = none })
with_socket protocol k l (some fd) =
    let l' = record l { server_fd = some fd; opened = l.opened ++ fd ∷ [] } in
    if k.binds then listen_on protocol k l' else some (give_up l')

unfoldable pub start : Protocol → SystemCalls → Listener → Option Listener
unfolding with_socket
start protocol k l = with_socket protocol k (record l { is_running = true }) k.socket

-- `stop`, which the destructors call too, once the thread has ended.
unfoldable pub stop : Listener → Listener
unfolding close_socket
stop l = record (close_socket l.server_fd l) {
  is_running = false;
  server_fd = none;
  has_thread = false;
}
