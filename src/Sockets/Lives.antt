-- ===== src/Sockets/Lives.antt =====
-- No descriptor is leaked, and none is closed twice.
use event_stream_core.Common.{
  ℕ, ◌≡◌, refl, sym, ap, subst, ◌⊎◌, inl, inr, Bool, true, false, Option, none, some, List, [], ◌∷◌,
  ◌++◌, if◌then◌else◌,
}
use event_stream_core.Sockets.{
  SystemCalls, Listener, Protocol, tcp_server, udp_server, new_listener, close_socket, give_up,
  start_thread, listen_on, with_socket, start, stop,
}

-- As constructed or stopped: every descriptor that was opened has been closed, once.
pub record IsClosed (l : Listener) : Type 0 where
  pub no_socket : l.server_fd ≡ none
  pub no_thread : l.has_thread ≡ false
  pub all_closed : l.closed ≡ l.opened

-- Between `start` and `stop`: all is closed but the socket, which a thread listens to; or all is, and
-- there is no thread.
abbrev pub IsStarted : Listener → Type 0
IsStarted l =
    ((fd : ℕ) × (l.server_fd ≡ some fd) × (l.has_thread ≡ true) × (l.opened ≡ l.closed ++ fd ∷ []))
    ⊎ IsClosed l

abbrev Starts : Option Listener → Type 0
Starts none = ⊥
Starts (some l) = (l.is_running ≡ true) × IsStarted l

give_up-Starts :
    (l : Listener) (fd : ℕ)
    → IsClosed l
    → Starts (
        some (
          give_up
            (record l { is_running = true; server_fd = some fd; opened = l.opened ++ fd ∷ [] })))
unfolding give_up close_socket
give_up-Starts l fd h = (
  refl,
  inr record {
    no_socket = refl;
    no_thread = h.no_thread;
    all_closed = ap (λ fds. fds ++ fd ∷ []) h.all_closed;
  },
)

thread-Starts :
    (l : Listener) (fd : ℕ)
    → IsClosed l
    → Starts (
        start_thread
          (record l { is_running = true; server_fd = some fd; opened = l.opened ++ fd ∷ [] }))
unfolding start_thread
thread-Starts l fd h =
    subst
      (λ b. Starts (
        if b
        then none
        else some (record l {
          is_running = true;
          server_fd = some fd;
          opened = l.opened ++ fd ∷ [];
          has_thread = true;
        })))
      (sym h.no_thread) (refl, inl (fd, refl, refl, ap (λ fds. fds ++ fd ∷ []) (sym h.all_closed)))

if-Starts : (b : Bool) (x y : Option Listener) → Starts x → Starts y → Starts (if b then x else y)
if-Starts true x y p q = p
if-Starts false x y p q = q

listen_on-Starts :
    (protocol : Protocol) (k : SystemCalls) (l : Listener) (fd : ℕ)
    → IsClosed l
    → Starts (
        listen_on protocol k
          (record l { is_running = true; server_fd = some fd; opened = l.opened ++ fd ∷ [] }))
unfolding listen_on
listen_on-Starts udp_server k l fd h = thread-Starts l fd h
listen_on-Starts tcp_server k l fd h =
    if-Starts k.listens _ _ (thread-Starts l fd h) (give_up-Starts l fd h)

socket-Starts :
    (protocol : Protocol) (k : SystemCalls) (l : Listener) (socket : Option ℕ)
    → IsClosed l
    → Starts (with_socket protocol k (record l { is_running = true }) socket)
unfolding with_socket
socket-Starts protocol k l none h =
    (refl, inr record { no_socket = refl; no_thread = h.no_thread; all_closed = h.all_closed })
socket-Starts protocol k l (some fd) h =
    if-Starts k.binds _ _ (listen_on-Starts protocol k l fd h) (give_up-Starts l fd h)

stop-IsClosed : (l : Listener) → IsStarted l → IsClosed (stop l)
unfolding stop close_socket
stop-IsClosed l (inl (fd, e, _, opened)) = record {
  no_socket = refl;
  no_thread = refl;
  all_closed = closed l.server_fd e;
}
  where
    closed :
        (socket : Option ℕ)
        → socket ≡ some fd
        → (close_socket socket l).closed ≡ (close_socket socket l).opened
    closed none e = cc
    closed (some other) e = cc
stop-IsClosed l (inr h) = record {
  no_socket = refl;
  no_thread = refl;
  all_closed = closed l.server_fd h.no_socket;
}
  where
    closed :
        (socket : Option ℕ)
        → socket ≡ none
        → (close_socket socket l).closed ≡ (close_socket socket l).opened
    closed none e = h.all_closed
    closed (some other) e = cc

-- A server that is started and stopped again and again, whatever the system's calls give.
abbrev pub and_stop : Option Listener → Option Listener
and_stop none = none
and_stop (some l) = some (stop l)

unfoldable pub live : Protocol → List SystemCalls → Option Listener → Option Listener
live protocol [] l = l
live protocol (k ∷ ks) none = none
live protocol (k ∷ ks) (some l) = live protocol ks (and_stop (start protocol k l))

abbrev Stopped : Option Listener → Type 0
Stopped none = ⊥
Stopped (some l) = IsClosed l

and_stop-Stopped : (r : Option Listener) → Starts r → Stopped (and_stop r)
and_stop-Stopped none h = absurd h
and_stop-Stopped (some l) h = stop-IsClosed l h.1

live-Stopped :
    (protocol : Protocol) (ks : List SystemCalls) (r : Option Listener)
    → Stopped r
    → Stopped (live protocol ks r)
unfolding live start
live-Stopped protocol [] r h = h
live-Stopped protocol (k ∷ ks) none h = absurd h
live-Stopped protocol (k ∷ ks) (some l) h =
    live-Stopped protocol ks (and_stop (start protocol k l))
      (and_stop-Stopped (start protocol k l) (socket-Starts protocol k l k.socket h))

module _ (protocol : Protocol) (ks : List SystemCalls) (k : SystemCalls) where
  ended : (r : Option Listener) → Stopped r → (l : Listener) × (r ≡ some l) × IsClosed l
  ended none h = absurd h
  ended (some l) h = (l, refl, h)

  begun : (r : Option Listener) → Starts r → (l : Listener) × (r ≡ some l) × IsStarted l
  begun none h = absurd h
  begun (some l) h = (l, refl, h.1)

  -- A TCP or UDP server that is started and stopped any number of times, whichever of the system's
  -- calls fail, never terminates the program by a thread, and has closed each socket that it opened,
  -- once and in order; started once more, it has either one open socket and a thread that listens
  -- to it, or neither.
  pub live_lem :
      (l : Listener) × (live protocol ks (some new_listener) ≡ some l)
      × IsClosed l
      × (m : Listener) × (start protocol k l ≡ some m)
      × IsStarted m
  unfolding start
  live_lem =
      let (l, e, h) = ended (live protocol ks (some new_listener)) (
        live-Stopped protocol ks (some new_listener)
          (record { no_socket = refl; no_thread = refl; all_closed = refl })) in
      let (m, f, g) = begun (start protocol k l) (socket-Starts protocol k l k.socket h) in
      (l, e, h, m, f, g)
