-- ===== src/DeadLetterQueue/Recent.antt =====
-- What the dead letter queue keeps: the last events of its history, never more than its limit.
use mathlib.Core.List.{append_assoc, append-nil, reverse, reverse-cons}
use event_stream_core.Common.{
  ℕ, ◌+◌, ◌-◌, ◌%◌, ◌^◌, ◌≤◌, min, ◌≡◌, refl, sym, ap, ◌∙◌, inl, inr, none, some, List, [], ◌∷◌,
  ◌++◌, arith, leb, Bool-cases, length, take, drop, length-append, length-drop, drop-append,
  drop-drop, take-min,
}
use event_stream_core.Event.{Event, EventPtr}
use event_stream_core.DeadLetterQueue.{
  max_stored_events, DeadLetterQueue, empty, store, push, store_all, push_batch, get_recent_events,
  clear,
}

-- The last `n` elements.
abbrev pub last_of {ℓ} : {A : Type ℓ} → ℕ → List A → List A
last_of n xs = drop (length xs - n) xs

-- The events that a batch of pointers holds.
abbrev pub events_of : List EventPtr → List Event
events_of [] = []
events_of (none ∷ events) = events_of events
events_of (some e ∷ events) = e ∷ events_of events

last_of-append {ℓ} :
    {A : Type ℓ} (n : ℕ) (xs ys : List A) → last_of n (last_of n xs ++ ys) ≡ last_of n (xs ++ ys)
last_of-append n xs ys =
    let k = length xs - n in
    let m = length (last_of n xs ++ ys) - n in
    ap (drop m) (sym (drop-append k xs ys (omega arith)))
    ∙ drop-drop k m (xs ++ ys)
    ∙ ap (λ j. drop j (xs ++ ys))
        (omega (arith, length-append xs ys, length-append (last_of n xs) ys, length-drop k xs))

last_of_short {ℓ} : {A : Type ℓ} (n : ℕ) (xs : List A) → length xs ≤ n → last_of n xs ≡ xs
last_of_short n xs h = let e : length xs - n ≡ 0 = omega arith in rw e

length-reverse {ℓ} : {A : Type ℓ} (xs : List A) → length (reverse xs) ≡ length xs
length-reverse [] = refl
length-reverse (x ∷ xs) =
    omega
      (arith, ap length (reverse-cons x xs), length-append (reverse xs) (x ∷ []), length-reverse xs)

length-last_of {ℓ} : {A : Type ℓ} (n : ℕ) (xs : List A) → length (last_of n xs) ≤ n
length-last_of n xs = omega (arith, length-drop (length xs - n) xs)

store-eq-last_of :
    (stored : List Event) (e : Event)
    → length stored ≤ max_stored_events
    → store stored e ≡ last_of max_stored_events (stored ++ e ∷ [])
unfolding store
store-eq-last_of stored e h = elim (Bool-cases (leb max_stored_events (length stored))) [
  | inl full ↦
      let k : length (stored ++ e ∷ []) - max_stored_events ≡ 1 =
        ground (arith, length-append stored (e ∷ [])) in
      rw (full, k) (sym (drop-append 1 stored (e ∷ []) (ground arith)))
  | inr room ↦ rw room (
      sym (
        last_of_short max_stored_events (stored ++ e ∷ [])
          (ground (arith, length-append stored (e ∷ [])))))
]

pub store_all-eq-last_of :
    (stored : List Event) (events : List EventPtr)
    → length stored ≤ max_stored_events
    → store_all stored events ≡ last_of max_stored_events (stored ++ events_of events)
unfolding store_all
store_all-eq-last_of stored [] h =
    sym (
      ap (last_of max_stored_events) (append-nil stored) ∙ last_of_short max_stored_events stored h)
store_all-eq-last_of stored (none ∷ events) h = store_all-eq-last_of stored events h
store_all-eq-last_of stored (some e ∷ events) h =
    store_all-eq-last_of (store stored e) events
      (rw (store-eq-last_of stored e h) (length-last_of max_stored_events (stored ++ e ∷ [])))
    ∙ ap (λ l. last_of max_stored_events (l ++ events_of events)) (store-eq-last_of stored e h)
    ∙ last_of-append max_stored_events (stored ++ e ∷ []) (events_of events)
    ∙ ap (last_of max_stored_events) (append_assoc stored (e ∷ []) (events_of events))

-- What callers do to the queue, one call after the other.
pub data Call : Type 0 where
  drops : Event → Call
  drops_batch : List EventPtr → Call
  clears : Call

abbrev pub call : DeadLetterQueue → Call → DeadLetterQueue
call d (drops e) = push d e
call d (drops_batch events) = push_batch d events
call d clears = clear d

abbrev pub call_all : DeadLetterQueue → List Call → DeadLetterQueue
call_all d [] = d
call_all d (c ∷ cs) = call_all (call d c) cs

-- All the events dropped since the last `clear`, oldest first, `held` being those before the calls.
abbrev pub dropped_since : List Event → List Call → List Event
dropped_since held [] = held
dropped_since held (drops e ∷ cs) = dropped_since (held ++ e ∷ []) cs
dropped_since held (drops_batch events ∷ cs) = dropped_since (held ++ events_of events) cs
dropped_since held (clears ∷ cs) = dropped_since [] cs

abbrev pub count_of : List Call → ℕ
count_of [] = 0
count_of (drops e ∷ cs) = 1 + count_of cs
count_of (drops_batch events ∷ cs) = length events + count_of cs
count_of (clears ∷ cs) = count_of cs

push_batch-stored :
    (d : DeadLetterQueue) (events : List EventPtr)
    → length d.stored_events ≤ max_stored_events
    → (push_batch d events).stored_events
      ≡ last_of max_stored_events (d.stored_events ++ events_of events)
unfolding push_batch
push_batch-stored d [] h = sym (
    ap (last_of max_stored_events) (append-nil d.stored_events)
    ∙ last_of_short max_stored_events d.stored_events h)
push_batch-stored d (e ∷ events) h = store_all-eq-last_of d.stored_events (e ∷ events) h

-- The end of a history that grows is the end of the grown end.
grown :
    (stored held new : List Event)
    → stored ≡ last_of max_stored_events held
    → last_of max_stored_events (stored ++ new) ≡ last_of max_stored_events (held ++ new)
grown stored held new e =
    ap (λ l. last_of max_stored_events (l ++ new)) e ∙ last_of-append max_stored_events held new

call_all-stored_from :
    (cs : List Call) (d : DeadLetterQueue) (held : List Event)
    → d.stored_events ≡ last_of max_stored_events held
    → (call_all d cs).stored_events ≡ last_of max_stored_events (dropped_since held cs)
unfolding push clear
call_all-stored_from [] d held e = e
call_all-stored_from (drops new ∷ cs) d held e =
    let bound : length d.stored_events ≤ max_stored_events =
      omega (arith, ap length e, length-last_of max_stored_events held) in
    call_all-stored_from cs (push d new) (held ++ new ∷ [])
      (store-eq-last_of d.stored_events new bound ∙ grown d.stored_events held (new ∷ []) e)
call_all-stored_from (drops_batch events ∷ cs) d held e =
    let bound : length d.stored_events ≤ max_stored_events =
      omega (arith, ap length e, length-last_of max_stored_events held) in
    call_all-stored_from cs (push_batch d events) (held ++ events_of events)
      (push_batch-stored d events bound ∙ grown d.stored_events held (events_of events) e)
call_all-stored_from (clears ∷ cs) d held e = call_all-stored_from cs (clear d) [] refl

call_all-total_from :
    (cs : List Call) (d : DeadLetterQueue)
    → (call_all d cs).total_dropped % 2 ^ 64 ≡ (d.total_dropped + count_of cs) % 2 ^ 64
unfolding push push_batch clear
call_all-total_from [] d = omega arith
call_all-total_from (drops e ∷ cs) d = omega (arith, call_all-total_from cs (push d e))
call_all-total_from (drops_batch [] ∷ cs) d = omega (arith, call_all-total_from cs d)
call_all-total_from (drops_batch (e ∷ events) ∷ cs) d =
    omega (arith, call_all-total_from cs (push_batch d (e ∷ events)))
call_all-total_from (clears ∷ cs) d = call_all-total_from cs (clear d)

-- After any calls of `push`, `pushBatch` and `clear`, the queue holds the last 1000 of all events
-- dropped since the last `clear`, oldest first, and its counter, which `clear` leaves, the number of
-- all drops modulo 2^64, null pointers of batches included; `getRecentEvents` gives the newest
-- `max_count` of those held, newest first.
pub call_all_history :
    (cs : List Call) (max_count : ℕ)
    → let d = call_all empty cs in
      (d.stored_events ≡ last_of max_stored_events (dropped_since [] cs))
      × (d.total_dropped % 2 ^ 64 ≡ count_of cs % 2 ^ 64)
      × (get_recent_events d max_count
          ≡ take max_count (reverse (last_of max_stored_events (dropped_since [] cs))))
unfolding get_recent_events
call_all_history cs max_count = (
  call_all-stored_from cs empty [] refl,
  omega (arith, call_all-total_from cs empty),
  ap (λ k. take (min max_count k) (reverse d.stored_events)) (sym (length-reverse d.stored_events))
      ∙ take-min max_count (reverse d.stored_events)
      ∙ ap (λ l. take max_count (reverse l)) (call_all-stored_from cs empty [] refl),
)
  where
    d : DeadLetterQueue
    d = call_all empty cs
