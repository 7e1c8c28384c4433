-- ===== src/Dispatcher/Loop.antt =====
-- The dispatch loop and the two ends of the inbound queue.
use event_stream_core.Common.{
  ℕ, zero, suc, ◌≡◌, refl, sym, ap, subst, ◌∙◌, ◌⊎◌, true, Option, none, some, List, [], ◌∷◌, ◌++◌,
  arith, length, drop, All,
}
use event_stream_core.Event.{Event, EventPtr}
use event_stream_core.Bus.Drain.{queued}
use event_stream_core.Mpsc
use event_stream_core.Ring.Contents.{fifo_push, fifo_pop}
use event_stream_core.Bus
use event_stream_core.Bus.{Bus}
use event_stream_core.Dispatcher.{
  inbound_capacity, Dispatcher, try_push, route, Surroundings, deliver, dispatch_popped, dispatch,
  dispatch_loop,
}
use event_stream_core.Dispatcher.Delivery.{IsSafe, InDeadLetters, deliver_lem}

pub record IsValid (d : Dispatcher) : Type 0 where
  pub bus : Bus.Queues.IsValid d.event_bus
  pub inbound : Mpsc.Chain.IsValid d.inbound_queue

abbrev pub arrivals : Dispatcher → List EventPtr
arrivals d = Mpsc.Chain.contents d.inbound_queue

-- `try_push` appends to the inbound queue, and refuses exactly when that is full.
pub try_push_lem :
    (d : Dispatcher) (evt : EventPtr)
    → IsValid d
    → let (d', done) = try_push d evt in
      ((arrivals d', done) ≡ fifo_push inbound_capacity (arrivals d) evt) × IsValid d'
unfolding try_push
try_push_lem d evt v =
    let (refines, valid) =
      Mpsc.Refine.push_refines_fifo inbound_capacity d.inbound_queue evt (omega arith) v.inbound in
    (refines, record { bus = v.bus; inbound = valid })

-- What a turn does to the bus with what it took: the event that was routed is the newest of its queue
-- or of the dead letter queue; without an event the thread sleeps, and a null event changes nothing.
abbrev pub Handed : Surroundings → Dispatcher → Option EventPtr → Bus → Type 0
Handed s d none b' = b' ≡ s.sleep 0 d.event_bus
Handed s d (some none) b' = b' ≡ d.event_bus
Handed s d (some (some e)) b' =
    let (q, e') = route d e in
    ((front : List Event) × (queued q b' ≡ front ++ e' ∷ [])) ⊎ InDeadLetters e' b'

Handed-inbound :
    (s : Surroundings) (d : Dispatcher) (inbound : Mpsc.Queue EventPtr) (out : Option EventPtr)
    (b' : Bus)
    → Handed s (record d { inbound_queue = inbound }) out b'
    → Handed s d out b'
unfolding route
Handed-inbound s d inbound none b' h = h
Handed-inbound s d inbound (some none) b' h = h
Handed-inbound s d inbound (some (some e)) b' h = h

-- A turn of the loop hands on what it took, and keeps the dispatcher valid.
popped_lem :
    (s : Surroundings) (d' : Dispatcher) (out : Option EventPtr)
    → IsSafe s
    → IsValid d'
    → let d'' = dispatch_popped s (d', out) in
      (arrivals d'' ≡ arrivals d') × IsValid d'' × Handed s d' out d''.event_bus
unfolding dispatch_popped deliver
popped_lem s d' none safe v =
    (refl, record { bus = safe 0 d'.event_bus v.bus; inbound = v.inbound }, refl)
popped_lem s d' (some none) safe v = (refl, v, refl)
popped_lem s d' (some (some e)) safe v =
    let (valid, landed) = deliver_lem s d' e safe v.bus in
    (refl, record { bus = valid; inbound = v.inbound }, landed)

abbrev Turned : Surroundings → Dispatcher → Dispatcher → Type 0
Turned s d d' =
    (arrivals d' ≡ (fifo_pop (arrivals d)).1)
    × IsValid d'
    × Handed s d (fifo_pop (arrivals d)).0 d'.event_bus

pub dispatch_lem :
    (s : Surroundings) (d : Dispatcher) → IsSafe s → IsValid d → Turned s d (dispatch s d)
unfolding dispatch
dispatch_lem s d safe v =
    let (refines, valid) = Mpsc.Refine.pop_refines_fifo d.inbound_queue v.inbound in
    let (same, valid', handed) =
      popped_lem s _ (Mpsc.pop d.inbound_queue).1 safe (record { bus = v.bus; inbound = valid }) in
    (
      same ∙ ap (λ p. p.1) refines,
      valid',
      subst (λ out. Handed s d out (dispatch s d).event_bus) (ap (λ p. p.0) refines)
          (Handed-inbound s d (Mpsc.pop d.inbound_queue).0 (Mpsc.pop d.inbound_queue).1 _ handed),
    )

popped-running :
    (s : Surroundings) (d : Dispatcher) (out : Option EventPtr)
    → (dispatch_popped s (d, out)).running ≡ d.running
unfolding dispatch_popped deliver
popped-running s d none = refl
popped-running s d (some none) = refl
popped-running s d (some (some e)) = refl

dispatch-running : (s : Surroundings) (d : Dispatcher) → (dispatch s d).running ≡ d.running
unfolding dispatch
dispatch-running s d = popped-running s _ (Mpsc.pop d.inbound_queue).1

drop-fifo_pop : (n : ℕ) (xs : List EventPtr) → drop n (fifo_pop xs).1 ≡ drop (suc n) xs
unfolding fifo_pop
drop-fifo_pop zero [] = refl
drop-fifo_pop (suc n) [] = refl
drop-fifo_pop n (x ∷ xs) = refl

running_turn :
    (s : Surroundings) (turns : List Surroundings) (d : Dispatcher)
    → d.running ≡ true
    → dispatch_loop (s ∷ turns) d ≡ dispatch_loop turns (dispatch s d)
unfolding dispatch_loop
running_turn s turns d run = rw run

-- The turns so far, from a running dispatcher.
looped :
    (turns : List Surroundings) (d : Dispatcher)
    → All IsSafe turns
    → IsValid d
    → d.running ≡ true
    → let d' = dispatch_loop turns d in
      (arrivals d' ≡ drop (length turns) (arrivals d)) × IsValid d' × (d'.running ≡ true)
unfolding dispatch_loop
looped [] d safe v run = (refl, v, run)
looped (s ∷ turns) d safe v run =
    let (taken, valid, _) = dispatch_lem s d safe.0 v in
    let (rest, valid', still) =
      looped turns (dispatch s d) safe.1 valid (dispatch-running s d ∙ run) in
    subst
      (λ d'.
        (arrivals d' ≡ drop (suc (length turns)) (arrivals d)) × IsValid d' × (d'.running ≡ true))
      (sym (running_turn s turns d run))
      (
        rest ∙ ap (drop (length turns)) taken ∙ drop-fifo_pop (length turns) (arrivals d),
        valid',
        still,
      )

dispatch_loop-append :
    (turns : List Surroundings) (s : Surroundings) (d : Dispatcher)
    → d.running ≡ true
    → dispatch_loop (turns ++ s ∷ []) d ≡ dispatch s (dispatch_loop turns d)
unfolding dispatch_loop
dispatch_loop-append [] s d run = running_turn s [] d run
dispatch_loop-append (t ∷ turns) s d run =
    running_turn t (turns ++ s ∷ []) d run
    ∙ dispatch_loop-append turns s (dispatch t d) (dispatch-running t d ∙ run)
    ∙ ap (dispatch s) (sym (running_turn t turns d run))

-- However many turns the loop of a running dispatcher has made, it is valid, and what is left of the
-- arrivals is their end. The next turn takes the oldest of those left: the event, routed as the bus
-- then stands, is afterwards the newest of its queue or of the dead letter queue; a null event
-- changes nothing on the bus, and with no arrival the thread sleeps.
pub dispatch_loop_lem :
    (turns : List Surroundings) (s : Surroundings) (d : Dispatcher)
    → All IsSafe turns
    → IsSafe s
    → IsValid d
    → d.running ≡ true
    → let d' = dispatch_loop turns d in
      let left = drop (length turns) (arrivals d) in
      (arrivals d' ≡ left)
      × IsValid d'
      × Handed s d' (fifo_pop left).0 (dispatch_loop (turns ++ s ∷ []) d).event_bus
dispatch_loop_lem turns s d safe safe_now v run =
    let (left, valid, _) = looped turns d safe v run in
    let (_, _, handed) = dispatch_lem s (dispatch_loop turns d) safe_now valid in
    (
      left,
      valid,
      subst
          (λ l.
            Handed s (dispatch_loop turns d) (fifo_pop l).0
              (dispatch_loop (turns ++ s ∷ []) d).event_bus)
          left
          (subst
            (λ d''.
              Handed s (dispatch_loop turns d) (fifo_pop (arrivals (dispatch_loop turns d))).0
                d''.event_bus)
            (sym (dispatch_loop-append turns s d run)) handed),
    )
