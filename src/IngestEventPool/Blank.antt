-- ===== src/IngestEventPool/Blank.antt =====
-- What one user of an event leaves in it, the next one does not see.
use event_stream_core.Common.{
  ℕ, zero, suc, ◌≡◌, refl, Bool, true, false, List, [], ◌∷◌, ◌++◌, ltb, if◌then◌else◌, length,
  replicate, All, All-append,
}
use event_stream_core.Event.{Event, blank_event}
use event_stream_core.IngestEventPool.{
  pool_capacity, Pool, initialize, shutdown, front_or_new, acquire_event, release,
}

pub data Step : Type 0 where
  initializes : Step
  shuts_down : Step
  acquires : Step
  releases : Event → Step

-- The pool after some calls, and the events that they handed out.
unfoldable pub run : List Step → Pool → Pool × List Event
run [] p = (p, [])
run (initializes ∷ steps) p = run steps (initialize p)
run (shuts_down ∷ steps) p = run steps (shutdown p)
run (releases e ∷ steps) p = run steps (release e p)
run (acquires ∷ steps) p =
    let (p', e) = acquire_event p in let (p'', events) = run steps p' in (p'', e ∷ events)

abbrev pub IsBlank : Event → Type 0
IsBlank e = e ≡ blank_event

IsBlank-replicate : (n : ℕ) → All IsBlank (replicate n blank_event)
IsBlank-replicate zero = tt
IsBlank-replicate (suc n) = (refl, IsBlank-replicate n)

either-IsBlank :
    (b : Bool) (p q : Pool)
    → All IsBlank p.events
    → All IsBlank q.events
    → All IsBlank (if b then p else q).events
either-IsBlank true p q u v = u
either-IsBlank false p q u v = v

release-IsBlank : (e : Event) (p : Pool) → All IsBlank p.events → All IsBlank (release e p).events
unfolding release
release-IsBlank e p v =
    let filled : Pool = record p { events = p.events ++ blank_event ∷ [] } in
    either-IsBlank p.is_shutdown p (if ltb (length p.events) pool_capacity then filled else p) v (
      either-IsBlank (ltb (length p.events) pool_capacity) filled p
        (All-append IsBlank p.events (blank_event ∷ []) v (refl, tt)) v)

acquire-IsBlank :
    (flag : Bool) (events : List Event)
    → All IsBlank events
    → let (p', e) = acquire_event (record { events = events; is_shutdown = flag }) in
      All IsBlank p'.events × IsBlank e
unfolding acquire_event front_or_new
acquire-IsBlank flag [] v = (tt, refl)
acquire-IsBlank flag (e ∷ events) v = (v.1, v.0)

-- Whatever is written into the events that the pool hands out, and in whatever order they come
-- back, each event that it hands out is blank.
pub run-IsBlank :
    (steps : List Step) (p : Pool) → All IsBlank p.events → All IsBlank (run steps p).1
unfolding run initialize shutdown
run-IsBlank [] p v = tt
run-IsBlank (initializes ∷ steps) p v = run-IsBlank steps (initialize p) (
    All-append IsBlank p.events (replicate pool_capacity blank_event) v
      (IsBlank-replicate pool_capacity))
run-IsBlank (shuts_down ∷ steps) p v = run-IsBlank steps (shutdown p) tt
run-IsBlank (releases e ∷ steps) p v = run-IsBlank steps (release e p) (release-IsBlank e p v)
run-IsBlank (acquires ∷ steps) p v =
    let (rest, first) = acquire-IsBlank p.is_shutdown p.events v in
    (first, run-IsBlank steps (acquire_event p).0 rest)
