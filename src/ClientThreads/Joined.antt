-- ===== src/ClientThreads/Joined.antt =====
-- Every client's thread is joined once, and the counts are right.
use event_stream_core.Common.{
  ℕ, zero, suc, ◌+◌, ◌<◌, ◌≡◌, refl, ap, ◌∙◌, inl, inr, Bool, true, false, not, ◌&&◌, Option, none,
  some, List, [], ◌∷◌, ◌++◌, arith, ltb, leb, if◌then◌else◌, Bool-cases, u64,
}
use event_stream_core.ClientThreads.{
  Phase, spawned, handling, finished, ClientThread, TcpServer, started, cleanup_interval,
  is_finished, sweep, cleanup_finished_threads, add_client, accept_client, phase_at, set_phase,
  thread_step, all_finished, clients_of, join_clients, Action, accepts, fails, stops, joins,
  goes_on, step, run,
}
use event_stream_core.EventPool.Places.{hit, count}

-- How many clients are in `handleClient`.
abbrev pub in_hand : Phase → ℕ
in_hand handling = 1
in_hand spawned = 0
in_hand finished = 0

abbrev pub active : List ClientThread → ℕ
active [] = 0
active (t ∷ ts) = in_hand t.phase + active ts

pub record IsValid (v : TcpServer) : Type 0 where
  pub once :
      (i : ℕ)
      → count i v.joined + count i (clients_of v.client_threads)
        ≡ (if ltb i v.clients then 1 else 0)
  pub counted : v.active_connections ≡ u64 (active v.client_threads)
  pub accepted : v.total_connections_accepted ≡ u64 v.clients
  pub interval : v.connections_since_cleanup < cleanup_interval

count-append : (i : ℕ) (xs ys : List ℕ) → count i (xs ++ ys) ≡ count i xs + count i ys
count-append i [] ys = omega arith
count-append i (x ∷ xs) ys = omega (arith, count-append i xs ys)

clients_of-append :
    (i : ℕ) (ts : List ClientThread) (t : ClientThread)
    → count i (clients_of (ts ++ t ∷ [])) ≡ count i (clients_of ts) + hit t.client i
clients_of-append i [] t = omega arith
clients_of-append i (s ∷ ts) t = omega (arith, clients_of-append i ts t)

active-append :
    (ts : List ClientThread) (client : ℕ)
    → active (ts ++ record { client = client; phase = spawned } ∷ []) ≡ active ts
active-append [] client = refl
active-append (t ∷ ts) client = ap (λ n. in_hand t.phase + n) (active-append ts client)

-- A sweep keeps the threads that it does not join, and joins none that is in hand.
sweep_lem :
    (i : ℕ) (ts : List ClientThread)
    → (count i (sweep ts).1 + count i (clients_of (sweep ts).0) ≡ count i (clients_of ts))
      × (active (sweep ts).0 ≡ active ts)
unfolding sweep
sweep_lem i [] = (refl, refl)
sweep_lem i (t ∷ ts) = let (counts, acts) = sweep_lem i ts in by_phase t.client t.phase counts acts
  where
    by_phase :
        (client : ℕ) (phase : Phase)
        → count i (sweep ts).1 + count i (clients_of (sweep ts).0) ≡ count i (clients_of ts)
        → active (sweep ts).0 ≡ active ts
        → let t' : ClientThread = record { client = client; phase = phase } in
          (count i (sweep (t' ∷ ts)).1 + count i (clients_of (sweep (t' ∷ ts)).0)
            ≡ count i (clients_of (t' ∷ ts)))
          × (active (sweep (t' ∷ ts)).0 ≡ active (t' ∷ ts))
    by_phase client spawned c a = (omega (arith, c), omega (arith, a))
    by_phase client handling c a = (omega (arith, c), omega (arith, a))
    by_phase client finished c a = (omega (arith, c), omega (arith, a))

set_phase-clients :
    (ts : List ClientThread) (i : ℕ) (p : Phase) → clients_of (set_phase ts i p) ≡ clients_of ts
set_phase-clients [] i p = refl
set_phase-clients (t ∷ ts) zero p = refl
set_phase-clients (t ∷ ts) (suc i) p = ap (λ cs. t.client ∷ cs) (set_phase-clients ts i p)

set_phase-active :
    (ts : List ClientThread) (i : ℕ) {p : Phase} (q : Phase)
    → phase_at ts i ≡ some p
    → active (set_phase ts i q) + in_hand p ≡ active ts + in_hand q
set_phase-active [] i q h = cc
set_phase-active (t ∷ ts) zero q h = ground (arith, ap (λ (o : Option Phase). of_option o) h)
  where
    of_option : Option Phase → ℕ
    of_option none = 0
    of_option (some p) = in_hand p
set_phase-active (t ∷ ts) (suc i) q h = omega (arith, set_phase-active ts i q h)

add_client_once :
    (v : TcpServer) (i : ℕ)
    → IsValid v
    → count i v.joined + count i (clients_of (add_client v).client_threads)
      ≡ (if ltb i (v.clients + 1) then 1 else 0)
add_client_once v i h = ground (
  arith,
  h.once i,
  clients_of-append i v.client_threads (record { client = v.clients; phase = spawned }),
)

add_client-IsValid :
    (v : TcpServer)
    → IsValid v
    → leb cleanup_interval (v.connections_since_cleanup + 1) ≡ false
    → IsValid (add_client v)
add_client-IsValid v h early = record {
  once = λ i. add_client_once v i h;
  counted = omega (arith, h.counted, active-append v.client_threads v.clients);
  accepted = omega (arith, h.accepted);
  interval = ground arith;
}

cleanup-IsValid :
    (v : TcpServer)
    → IsValid v
    → IsValid (record (cleanup_finished_threads (add_client v)) { connections_since_cleanup = 0 })
unfolding cleanup_finished_threads
cleanup-IsValid v h = record {
  once = λ i. omega (
    arith,
    count-append i v.joined (sweep (add_client v).client_threads).1,
    (sweep_lem i (add_client v).client_threads).0,
    add_client_once v i h,
  );
  counted = omega (
    arith,
    h.counted,
    (sweep_lem 0 (add_client v).client_threads).1,
    active-append v.client_threads v.clients,
  );
  accepted = omega (arith, h.accepted);
  interval = omega arith;
}

accept_client-IsValid : (v : TcpServer) → IsValid v → IsValid (accept_client v)
unfolding accept_client
accept_client-IsValid v h =
    elim (Bool-cases (leb cleanup_interval (v.connections_since_cleanup + 1))) [
      | inl due ↦ rw due (cleanup-IsValid v h)
      | inr early ↦ rw early (add_client-IsValid v h early)
    ]

if-IsValid : (b : Bool) (x y : TcpServer) → IsValid x → IsValid y → IsValid (if b then x else y)
if-IsValid true x y p q = p
if-IsValid false x y p q = q

thread_step-IsValid :
    (i : ℕ) (v : TcpServer) (found : Option Phase)
    → phase_at v.client_threads i ≡ found
    → IsValid v
    → IsValid (thread_step i v found)
unfolding thread_step
thread_step-IsValid i v none e h = h
thread_step-IsValid i v (some finished) e h = h
thread_step-IsValid i v (some spawned) e h = record {
  once = λ j.
      ap (λ cs. count j v.joined + count j cs) (set_phase-clients v.client_threads i handling)
      ∙ h.once j;
  counted = omega (arith, h.counted, set_phase-active v.client_threads i handling e);
  accepted = h.accepted;
  interval = h.interval;
}
thread_step-IsValid i v (some handling) e h = record {
  once = λ j.
      ap (λ cs. count j v.joined + count j cs) (set_phase-clients v.client_threads i finished)
      ∙ h.once j;
  counted = omega (arith, h.counted, set_phase-active v.client_threads i finished e);
  accepted = h.accepted;
  interval = h.interval;
}

finished-active : (ts : List ClientThread) → all_finished ts ≡ true → active ts ≡ 0
finished-active [] e = refl
finished-active (t ∷ ts) e = ground (arith, by_phase t.phase, finished-active ts)
  where
    by_phase : (phase : Phase) → is_finished phase ≡ true → in_hand phase ≡ 0
    by_phase spawned e = cc
    by_phase handling e = cc
    by_phase finished e = refl

join_clients-IsValid : (v : TcpServer) → IsValid v → IsValid (join_clients v)
unfolding join_clients
join_clients-IsValid v h = elim (Bool-cases (not v.is_running && all_finished v.client_threads)) [
  | inl ended ↦ rw ended record {
    once = λ i. omega (arith, count-append i v.joined (clients_of v.client_threads), h.once i);
    counted = omega (arith, h.counted, finished-active v.client_threads (ground arith));
    accepted = h.accepted;
    interval = h.interval;
  }
  | inr waits ↦ rw waits h
]

step-IsValid : (a : Action) (v : TcpServer) → IsValid v → IsValid (step a v)
unfolding step
step-IsValid accepts v h = if-IsValid v.is_running _ _ (accept_client-IsValid v h) h
step-IsValid fails v h = h
step-IsValid stops v h = record {
  once = h.once;
  counted = h.counted;
  accepted = h.accepted;
  interval = h.interval;
}
step-IsValid joins v h = join_clients-IsValid v h
step-IsValid (goes_on i) v h = thread_step-IsValid i v (phase_at v.client_threads i) refl h

run-IsValid : (actions : List Action) (v : TcpServer) → IsValid v → IsValid (run actions v)
unfolding run
run-IsValid [] v h = h
run-IsValid (a ∷ rest) v h = run-IsValid rest (step a v) (step-IsValid a v h)

-- However clients come and their threads go on, each client that was accepted has one thread, which
-- the server still holds or has joined, and it is joined once; the connections counted as active are
-- those whose threads are in `handleClient`, all clients are counted as accepted, and fewer than ten
-- have come since the last sweep.
pub joins_once : (actions : List Action) → IsValid (run actions started)
joins_once actions =
    run-IsValid actions started
      record { once = λ i. ground arith; counted = refl; accepted = refl; interval = omega arith }
