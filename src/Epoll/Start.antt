-- ===== src/Epoll/Start.antt =====
-- `start` and `stop` of the epoll server, by the descriptors that they open and close. What the
-- calls of the operating system gave is an argument.
use event_stream_core.Common.{
  ℕ, ◌+◌, ◌-◌, Bool, true, false, ◌&&◌, Option, none, some, List, [], ◌∷◌, ◌++◌, if◌then◌else◌,
  length, take, replicate,
}

-- What `socket`, `fcntl`, `bind`, `listen` and each `epoll_create1` gave; none stands for -1.
pub record SystemCalls : Type 0 where
  pub socket : Option ℕ
  pub non_blocking : Bool
  pub binds : Bool
  pub listens : Bool
  pub epolls : List (Option ℕ)

-- `worker_threads` counts the threads; `opened` and `closed` are the server's descriptors that were
-- opened and closed so far, in order.
pub record EpollSockets : Type 0 where
  pub is_running : Bool
  pub server_fd : Option ℕ
  pub epoll_fds : List (Option ℕ)
  pub worker_threads : ℕ
  pub accept_thread : Bool
  pub opened : List ℕ
  pub closed : List ℕ

-- The constructor.
abbrev pub constructed : EpollSockets
constructed = record {
  is_running = false;
  server_fd = none;
  epoll_fds = [];
  worker_threads = 0;
  accept_thread = false;
  opened = [];
  closed = [];
}

-- `epollFds_.resize`: a new element is 0.
abbrev pub resize : ℕ → List (Option ℕ) → List (Option ℕ)
resize n fds = take n fds ++ replicate (n - length fds) (some 0)

-- The loop over `epoll_create1`: what it writes, up to the first failure.
unfoldable pub write_epolls : List (Option ℕ) → List (Option ℕ) → List (Option ℕ)
write_epolls [] fds = fds
write_epolls (r ∷ rs) [] = []
write_epolls (none ∷ rs) (old ∷ fds) = none ∷ fds
write_epolls (some fd ∷ rs) (old ∷ fds) = some fd ∷ write_epolls rs fds

-- The epoll descriptors created before the first failure, and whether there was none.
unfoldable pub created : List (Option ℕ) → List ℕ
created [] = []
created (none ∷ rs) = []
created (some fd ∷ rs) = fd ∷ created rs

unfoldable pub all_created : List (Option ℕ) → Bool
all_created [] = true
all_created (none ∷ rs) = false
all_created (some fd ∷ rs) = all_created rs

unfoldable pub close_server : EpollSockets → Option ℕ → EpollSockets
close_server v none = v
close_server v (some fd) = record v { server_fd = none; closed = v.closed ++ fd ∷ [] }

-- From `resize` on.
unfoldable pub create_epolls : List (Option ℕ) → EpollSockets → EpollSockets
unfolding write_epolls created all_created close_server
create_epolls rs v =
    let v' = record v {
      epoll_fds = write_epolls rs (resize (length rs) v.epoll_fds);
      opened = v.opened ++ created rs;
    } in
    if all_created rs
    then record v' { worker_threads = v.worker_threads + length rs; accept_thread = true }
    else close_server (record v' { closed = v.closed ++ created rs }) v.server_fd

-- Once there is a socket: a server that fails closes it.
unfoldable pub set_up : SystemCalls → EpollSockets → EpollSockets
unfolding create_epolls close_server
set_up k v =
    if k.non_blocking && (k.binds && k.listens)
    then create_epolls k.epolls v
    else close_server v v.server_fd

unfoldable pub with_socket : SystemCalls → EpollSockets → Option ℕ → EpollSockets
unfolding set_up
with_socket k v none = record v { server_fd = none }
with_socket k v (some fd) =
    set_up k (record v { server_fd = some fd; opened = v.opened ++ fd ∷ [] })

unfoldable pub start : SystemCalls → EpollSockets → EpollSockets
unfolding with_socket
start k v = with_socket k (record v { is_running = true }) k.socket

-- The descriptors of `epollFds_` that are not -1.
unfoldable pub descriptors : List (Option ℕ) → List ℕ
descriptors [] = []
descriptors (none ∷ fds) = descriptors fds
descriptors (some fd ∷ fds) = fd ∷ descriptors fds

-- `stop`, once the threads have ended; the clients' descriptors are those of `Epoll`.
unfoldable pub stop_sockets : EpollSockets → EpollSockets
unfolding close_server descriptors
stop_sockets v =
    let v' = close_server (record v { is_running = false }) v.server_fd in
    record v' {
      closed = v'.closed ++ descriptors v.epoll_fds;
      epoll_fds = [];
      worker_threads = 0;
      accept_thread = false;
    }
