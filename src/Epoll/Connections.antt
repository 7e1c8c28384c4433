-- ===== src/Epoll/Connections.antt =====
-- The connections by descriptor: which there are after each round, and how many are counted.
use event_stream_core.Common.{
  ℕ, ◌+◌, ◌%◌, ◌≤◌, ◌<◌, ◌≡◌, refl, sym, ap, subst, ◌∙◌, ◌≢◌, Bool, true, false, Option, none, some,
  List, [], ◌∷◌, arith, if◌then◌else◌, ==_self, length, Bytes, u64,
}
use event_stream_core.Epoll.{
  ConnectionState, EpollServer, Accepted, Ready, find, erase, emplace, clamp_workers, started, stop,
  accept_connection, close_connection, close_unless, read_into, handle_read, handle_ready,
}
use event_stream_core.Epoll.Lookup.{
  IsDistinct, find-assign_known, erase-IsDistinct, assign-IsDistinct, length-assign, length-erase,
}

emplace-none :
    (fd : ℕ) (address : Bytes) (cs : List (ℕ × ConnectionState))
    → find fd cs ≡ none
    → emplace fd address cs
      ≡ (fd, record { buffer = []; client_address = address; empty_frame_count = 0 }) ∷ cs
unfolding emplace
emplace-none fd address cs h = ground arith

module _ {ℓ} {S : Type ℓ} where
  -- Every connection of a running server is counted, and the next client goes to a worker that there is.
  pub record IsValid (v : EpollServer S) : Type 0 where
    pub distinct : IsDistinct v.connections
    pub counted : v.is_running ≡ true → v.active_connections ≡ u64 (length v.connections)
    pub some_worker : 0 < v.num_workers
    pub few_workers : v.num_workers ≤ 16
    pub next_in : v.next_worker < v.num_workers

  pub started-IsValid : (requested hardware : ℕ) (s : S) → IsValid (started requested hardware s)
  unfolding started clamp_workers
  started-IsValid requested hardware s = record {
    distinct = tt;
    counted = λ running. refl;
    some_worker = ground arith;
    few_workers = ground arith;
    next_in = ground arith;
  }

  added-IsValid :
      (a : Accepted) (v : EpollServer S)
      → find a.fd v.connections ≡ none
      → IsValid v
      → IsValid (record v {
        connections = emplace a.fd a.address v.connections;
        next_worker = (v.next_worker + 1) % v.num_workers;
        active_connections = u64 (v.active_connections + 1);
        total_connections_accepted = u64 (v.total_connections_accepted + 1);
      })
  added-IsValid a v fresh h = rw (emplace-none a.fd a.address v.connections fresh) record {
    distinct = (fresh, h.distinct);
    counted = λ running. omega (arith, h.counted running);
    some_worker = h.some_worker;
    few_workers = h.few_workers;
    next_in = grind (arith, h.some_worker);
  }

  not_added-IsValid :
      (a : Accepted) (v : EpollServer S)
      → find a.fd v.connections ≡ none
      → IsValid v
      → IsValid (record v { connections = erase a.fd (emplace a.fd a.address v.connections) })
  unfolding erase
  not_added-IsValid a v fresh h =
      rw (emplace-none a.fd a.address v.connections fresh, ==_self a.fd) h

  if-IsValid :
      (b : Bool) {x y : EpollServer S} → IsValid x → IsValid y → IsValid (if b then x else y)
  if-IsValid true p q = p
  if-IsValid false p q = q

  pub accept_connection-IsValid :
      (a : Accepted) (v : EpollServer S)
      → find a.fd v.connections ≡ none
      → IsValid v
      → IsValid (accept_connection a v)
  unfolding accept_connection
  accept_connection-IsValid a v fresh h =
      if-IsValid a.non_blocking
        (if-IsValid a.added (added-IsValid a v fresh h) (not_added-IsValid a v fresh h)) h

  close_connection-IsValid :
      (fd : ℕ) (v : EpollServer S)
      → find fd v.connections ≢ none
      → IsValid v
      → IsValid (close_connection fd v)
  unfolding close_connection
  close_connection-IsValid fd v known h = record {
    distinct = erase-IsDistinct fd v.connections h.distinct;
    counted = λ running. omega (arith, length-erase fd v.connections known, h.counted running);
    some_worker = h.some_worker;
    few_workers = h.few_workers;
    next_in = h.next_in;
  }

  pub read_into-IsValid :
      (on_frame : Bytes → Bytes → S → S) (r : Ready) (v : EpollServer S)
      (found : Option ConnectionState)
      → IsValid v
      → IsValid (read_into on_frame r v found).0
  unfolding read_into
  read_into-IsValid on_frame r v none h = h
  read_into-IsValid on_frame r v (some state) h = record {
    distinct = assign-IsDistinct r.fd _ v.connections h.distinct;
    counted = λ running. h.counted running ∙ ap u64 (sym (length-assign r.fd _ v.connections));
    some_worker = h.some_worker;
    few_workers = h.few_workers;
    next_in = h.next_in;
  }

  pub read_into-known :
      (on_frame : Bytes → Bytes → S → S) (r : Ready) (v : EpollServer S)
      (found : Option ConnectionState)
      → find r.fd v.connections ≢ none
      → find r.fd (read_into on_frame r v found).0.connections ≢ none
  unfolding read_into
  read_into-known on_frame r v none known = known
  read_into-known on_frame r v (some state) known =
      find-assign_known r.fd r.fd _ v.connections known

  close_unless-IsValid :
      (fd : ℕ) (p : EpollServer S × Bool)
      → find fd p.0.connections ≢ none
      → IsValid p.0
      → IsValid (close_unless fd p)
  unfolding close_unless
  close_unless-IsValid fd (v, true) known h = h
  close_unless-IsValid fd (v, false) known h = close_connection-IsValid fd v known h

  pub handle_ready-IsValid :
      (on_frame : Bytes → Bytes → S → S) (r : Ready) (v : EpollServer S)
      → find r.fd v.connections ≢ none
      → IsValid v
      → IsValid (handle_ready on_frame r v)
  unfolding handle_ready handle_read
  handle_ready-IsValid on_frame r v known h =
      let found = find r.fd v.connections in
      let closed = close_connection-IsValid r.fd v known h in
      let read =
        close_unless-IsValid r.fd (read_into on_frame r v found)
          (read_into-known on_frame r v found known) (read_into-IsValid on_frame r v found h) in
      if-IsValid r.hang_up closed (if-IsValid r.readable read h)

  -- What the kernel may report of a server: a new client on a descriptor that is not in use, or that
  -- a client's descriptor is ready; or `stop`, which clears the connections.
  pub data Step (on_frame : Bytes → Bytes → S → S) : EpollServer S → EpollServer S → Type ℓ where
    accepts :
        (a : Accepted) (v w : EpollServer S)
        → find a.fd v.connections ≡ none
        → w ≡ accept_connection a v
        → Step on_frame v w
    reports :
        (r : Ready) (v w : EpollServer S)
        → find r.fd v.connections ≢ none
        → w ≡ handle_ready on_frame r v
        → Step on_frame v w
    stops : (v w : EpollServer S) → w ≡ stop v → Step on_frame v w

  pub data Reaches (on_frame : Bytes → Bytes → S → S) : EpollServer S → EpollServer S → Type ℓ where
    here : (v : EpollServer S) → Reaches on_frame v v
    then_step :
        (v w x : EpollServer S) → Reaches on_frame v w → Step on_frame w x → Reaches on_frame v x

  stop-IsValid : (v : EpollServer S) → IsValid v → IsValid (stop v)
  unfolding stop
  stop-IsValid v h = record {
    distinct = tt;
    counted = λ running. cc;
    some_worker = h.some_worker;
    few_workers = h.few_workers;
    next_in = h.next_in;
  }

  step-IsValid :
      (on_frame : Bytes → Bytes → S → S) (v w : EpollServer S)
      → Step on_frame v w
      → IsValid v
      → IsValid w
  step-IsValid on_frame v w (accepts a _ _ fresh e) h =
      subst IsValid (sym e) (accept_connection-IsValid a v fresh h)
  step-IsValid on_frame v w (reports r _ _ known e) h =
      subst IsValid (sym e) (handle_ready-IsValid on_frame r v known h)
  step-IsValid on_frame v w (stops _ _ e) h = subst IsValid (sym e) (stop-IsValid v h)

  pub Reaches-IsValid :
      (on_frame : Bytes → Bytes → S → S) (v w : EpollServer S)
      → Reaches on_frame v w
      → IsValid v
      → IsValid w
  Reaches-IsValid on_frame v w (here _) h = h
  Reaches-IsValid on_frame v w (then_step _ u _ before step) h =
      step-IsValid on_frame u w step (Reaches-IsValid on_frame v u before h)
