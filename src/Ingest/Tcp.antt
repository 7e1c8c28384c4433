-- ===== src/Ingest/Tcp.antt =====
-- The path from a TCP client's bytes to the dispatcher's queue.
use event_stream_core.Common.{
  ℕ, ◌+◌, ◌%◌, ◌^◌, ◌≤◌, ◌<◌, ◌≡◌, refl, sym, ap, ap₂, subst, ◌∙◌, Bool, true, false, some, List,
  [], ◌∷◌, ◌++◌, arith, length, All, length-append, Bytes, u64,
}
use mathlib.Core.List.{append-nil, append_assoc}
use event_stream_core.Event.{Event, EventPtr, EventSourceType}
use event_stream_core.Frame.{ParsedFrame}
use event_stream_core.Frame.RoundTrip.{encode, IsEncodable, parse_full_frame-encode}
use event_stream_core.Stream.Frames.{
  IsSendable, encode_all, receive_all, concat, hand_on as hand_on_all, between,
  receive_all-encode_all,
}
use event_stream_core.Ring.Contents.{fifo_push}
use event_stream_core.EventFactory.{next_event_id}
use event_stream_core.Dispatcher
use event_stream_core.Dispatcher.{inbound_capacity}
use event_stream_core.Dispatcher.Loop.{IsValid, arrivals, try_push_lem}
use event_stream_core.Ingest.{Server, event_of, count_push, hand_on, parsed, on_frame}

-- What a server is after it has handed an event on to a queue with room.
pub record Handed (s : Server) (e : Event) (s' : Server) : Type 0 where
  pub appended : arrivals s'.dispatcher ≡ arrivals s.dispatcher ++ some e ∷ []
  pub counter : s'.global_event_id ≡ next_event_id s.global_event_id
  pub processed : s'.total_events_processed ≡ u64 (s.total_events_processed + 1)
  pub drops : s'.total_backpressure_drops ≡ s.total_backpressure_drops
  pub valid : IsValid s'.dispatcher

fifo_push_room :
    (limit : ℕ) (xs : List EventPtr) (x : EventPtr)
    → length xs < limit
    → fifo_push limit xs x ≡ (xs ++ x ∷ [], true)
unfolding fifo_push
fifo_push_room limit xs x room = ground arith

count_push-Handed :
    (s : Server) (e : Event) (r : Dispatcher.Dispatcher × Bool)
    → arrivals r.0 ≡ arrivals s.dispatcher ++ some e ∷ []
    → r.1 ≡ true
    → IsValid r.0
    → Handed s e (count_push (record s { global_event_id = next_event_id s.global_event_id }) r)
unfolding count_push
count_push-Handed s e (d, true) h done v = record {
  appended = h;
  counter = refl;
  processed = refl;
  drops = refl;
  valid = v;
}
count_push-Handed s e (d, false) h done v = absurd cc

abbrev pub event_at : EventSourceType → (ℕ → ℕ) → Bytes → ℕ → ParsedFrame → Event
event_at source clock client_address id f = event_of source (clock id) client_address id f

pub hand_on-Handed :
    (source : EventSourceType) (clock : ℕ → ℕ) (client_address : Bytes) (f : ParsedFrame)
    (s : Server)
    → IsValid s.dispatcher
    → length (arrivals s.dispatcher) < inbound_capacity
    → Handed s
        (event_at source clock client_address s.global_event_id f)
        (hand_on source clock client_address f s)
unfolding hand_on
hand_on-Handed source clock client_address f s valid room =
    let e = event_at source clock client_address s.global_event_id f in
    let (refines, valid') = try_push_lem s.dispatcher (some e) valid in
    let pushed = refines ∙ fifo_push_room inbound_capacity (arrivals s.dispatcher) (some e) room in
    count_push-Handed s e (Dispatcher.try_push s.dispatcher (some e)) (ap (λ p. p.0) pushed)
      (ap (λ p. p.1) pushed) valid'

on_frame-encode :
    (clock : ℕ → ℕ) (client_address : Bytes) (f : ParsedFrame) (s : Server)
    → IsEncodable f
    → on_frame clock client_address (encode f) s
      ≡ hand_on EventSourceType.tcp clock client_address f s
unfolding on_frame parsed
on_frame-encode clock client_address f s v =
    ap (parsed EventSourceType.tcp clock client_address s) (parse_full_frame-encode f v)

-- The events of the frames, from the counter's value on.
abbrev pub events_of : (ℕ → ℕ) → Bytes → ℕ → List ParsedFrame → List EventPtr
events_of clock client_address id [] = []
events_of clock client_address id (f ∷ fs) =
    some (event_at EventSourceType.tcp clock client_address id f)
    ∷ events_of clock client_address (next_event_id id) fs

abbrev pub Served : (ℕ → ℕ) → Bytes → List ParsedFrame → Server → Server → Type 0
Served clock client_address fs s s' =
    (arrivals s'.dispatcher
      ≡ arrivals s.dispatcher ++ events_of clock client_address s.global_event_id fs)
    × (s'.total_events_processed % 2 ^ 64 ≡ (s.total_events_processed + length fs) % 2 ^ 64)
    × (s'.total_backpressure_drops ≡ s.total_backpressure_drops)

hand_on_all-Served :
    (clock : ℕ → ℕ) (client_address : Bytes) (fs : List ParsedFrame) (s : Server)
    → All IsSendable fs
    → IsValid s.dispatcher
    → length (arrivals s.dispatcher) + length fs ≤ inbound_capacity
    → Served clock client_address fs s (hand_on_all (on_frame clock client_address) fs s)
hand_on_all-Served clock client_address [] s sendable valid room =
    (sym (append-nil _), ap (λ n. n % 2 ^ 64) (omega arith), refl)
hand_on_all-Served clock client_address (f ∷ fs) s sendable valid room =
    let s1 = hand_on EventSourceType.tcp clock client_address f s in
    let h = hand_on-Handed EventSourceType.tcp clock client_address f s valid (omega arith) in
    let e = on_frame-encode clock client_address f s sendable.0.encodable in
    let longer = ap length h.appended ∙ length-append (arrivals s.dispatcher) _ in
    let (rest, count, drops) =
      hand_on_all-Served clock client_address fs s1 sendable.1 h.valid (omega (arith, longer)) in
    let counter = h.processed in
    subst
      (λ t.
        Served clock client_address (f ∷ fs) s (hand_on_all (on_frame clock client_address) fs t))
      (sym e)
      (
        rest
            ∙ ap₂ (λ xs n. xs ++ events_of clock client_address n fs) h.appended h.counter
            ∙ append_assoc (arrivals s.dispatcher) _ _,
        omega arith,
        drops ∙ h.drops,
      )

-- However a client's stream of whole frames is cut up on its way, the dispatcher's inbound queue
-- gets one event for each frame, in order, with ids in sequence, if it has room for them all; each
-- counts as processed and none as dropped, and the connection stays open.
pub tcp_stream_lem :
    (clock : ℕ → ℕ) (client_address : Bytes) (fs : List ParsedFrame) (chunks : List Bytes)
    (s : Server)
    → All IsSendable fs
    → concat chunks ≡ encode_all fs
    → IsValid s.dispatcher
    → length (arrivals s.dispatcher) + length fs ≤ inbound_capacity
    → let c =
        receive_all
          (on_frame clock client_address)
          chunks
          (between (on_frame clock client_address) s) in
      (c.is_open ≡ true) × Served clock client_address fs s c.sink
tcp_stream_lem clock client_address fs chunks s sendable cut valid room =
    subst (λ c. (c.is_open ≡ true) × Served clock client_address fs s c.sink)
      (sym (receive_all-encode_all (on_frame clock client_address) fs chunks s sendable cut))
      (refl, hand_on_all-Served clock client_address fs s sendable valid room)
