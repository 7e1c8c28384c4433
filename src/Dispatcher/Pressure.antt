-- ===== src/Dispatcher/Pressure.antt =====
-- The pressure that `adapt_to_pressure` reads is written by pushes to REALTIME alone.
use event_stream_core.Common.{
  ℕ, zero, suc, ◌-◌, ◌<◌, ◌≡◌, refl, sym, ◌∙◌, ◌≢◌, inl, inr, Bool, true, false, Option, List, [],
  ◌∷◌, arith, ltb, if◌then◌else◌, All,
}
use event_stream_core.Event.{Event}
use event_stream_core.Bus
use event_stream_core.Bus.{Bus, QueueId, OverflowPolicy, PressureLevel}
use event_stream_core.Dispatcher.{
  max_retries, Dispatcher, route, Surroundings, after_attempt, push_attempts, settle, deliver,
}
use event_stream_core.Dispatcher.Routing.{wanted, pressure, route_lem}

abbrev level : Bus → PressureLevel
level b = b.realtime_bus.pressure

when_full-level :
    (now : Option ℕ) (taken : ℕ) (q : QueueId) (b : Bus) (e : Event) (p : OverflowPolicy)
    → level (Bus.when_full now taken q b e p).0 ≡ level b
unfolding Bus.when_full Bus.append_event
when_full-level now taken QueueId.realtime b e OverflowPolicy.drop_old = refl
when_full-level now taken QueueId.transactional b e OverflowPolicy.drop_old = refl
when_full-level now taken QueueId.batch b e OverflowPolicy.drop_old = refl
when_full-level now taken QueueId.realtime b e OverflowPolicy.drop_new = refl
when_full-level now taken QueueId.transactional b e OverflowPolicy.drop_new = refl
when_full-level now taken QueueId.batch b e OverflowPolicy.drop_new = refl
when_full-level now taken QueueId.realtime b e OverflowPolicy.block_producer = ground arith
when_full-level now taken QueueId.transactional b e OverflowPolicy.block_producer = ground arith
when_full-level now taken QueueId.batch b e OverflowPolicy.block_producer = ground arith

push-level :
    (now : Option ℕ) (taken : ℕ) (q : QueueId) (b : Bus) (e : Event)
    → q ≢ QueueId.realtime
    → level (Bus.push now taken q b e).0 ≡ level b
unfolding Bus.push Bus.push_queue Bus.append_event
push-level now taken QueueId.realtime b e h = absurd (h refl)
push-level now taken QueueId.transactional b e h =
    ground (arith, when_full-level now taken QueueId.transactional b e b.transactional_bus.policy)
push-level now taken QueueId.batch b e h =
    ground (arith, when_full-level now taken QueueId.batch b e b.batch_bus.policy)

-- No other thread writes the pressure: only the dispatch thread pushes to the bus.
abbrev pub IsLevelKept : Surroundings → Type 0
IsLevelKept s = (k : ℕ) (b : Bus) → level (s.sleep k b) ≡ level b

sleep-level :
    (s : Surroundings) (k : ℕ) (b : Bus) (c : Bool)
    → IsLevelKept s
    → level (if c then s.sleep k b else b) ≡ level b
sleep-level s k b true kept = kept k b
sleep-level s k b false kept = refl

retry-level :
    (l : PressureLevel) (retry : Bus → Bus × Bool) (r : Bus × Bool)
    → ((b : Bus) → level b ≡ l → level (retry b).0 ≡ l)
    → level r.0 ≡ l
    → level (after_attempt retry r).0 ≡ l
unfolding after_attempt
retry-level l retry (b, true) h e = e
retry-level l retry (b, false) h e = h b e

attempts-level :
    (s : Surroundings) (l : PressureLevel) (left : ℕ) (q : QueueId) (e : Event) (b : Bus)
    → IsLevelKept s
    → q ≢ QueueId.realtime
    → level b ≡ l
    → level (push_attempts s left q e b).0 ≡ l
unfolding push_attempts
attempts-level s l zero q e b kept ne h = h
attempts-level s l (suc left) q e b kept ne h =
    let k : ℕ = max_retries - left in
    retry-level l (λ b'. push_attempts s left q e (if ltb k max_retries then s.sleep k b' else b'))
      (Bus.push (s.now k) (s.taken k) q b e)
      (λ b' h'.
        attempts-level s l left q e _ kept ne (sleep-level s k b' (ltb k max_retries) kept ∙ h'))
      (push-level (s.now k) (s.taken k) q b e ne ∙ h)

settle-level : (e : Event) (r : Bus × Bool) → level (settle e r) ≡ level r.0
unfolding settle
settle-level e (b, true) = refl
settle-level e (b, false) = refl

-- `deliver` for one event after the other.
pub deliver_all : Surroundings → Dispatcher → List Event → Dispatcher
deliver_all s d [] = d
deliver_all s d (e ∷ events) = deliver_all s (deliver s d e) events

deliver-pressed :
    (s : Surroundings) (d : Dispatcher) (e : Event)
    → IsLevelKept s
    → pressure d ≢ PressureLevel.normal
    → wanted d e < 4
    → pressure (deliver s d e) ≡ pressure d
unfolding deliver
deliver-pressed s d e kept pressed lower =
    let (real, _, _) = route_lem d e in
    let ne : (route d e).0 ≢ QueueId.realtime =
      λ h. elim (real.0 h) [ inl four ↦ omega arith | inr (_, calm) ↦ pressed calm ] in
    settle-level (route d e).1 _
    ∙ attempts-level s (pressure d) max_retries (route d e).0 (route d e).1 d.event_bus kept ne refl

-- Once the bus is under pressure it stays so, however empty the ring is, until a CRITICAL event
-- comes: delivering any events of lower priority leaves the pressure as it was.
pub deliver_all-pressed :
    (s : Surroundings) (d : Dispatcher) (events : List Event)
    → IsLevelKept s
    → pressure d ≢ PressureLevel.normal
    → All (λ e. wanted d e < 4) events
    → pressure (deliver_all s d events) ≡ pressure d
unfolding deliver_all deliver
deliver_all-pressed s d [] kept pressed lower = refl
deliver_all-pressed s d (e ∷ events) kept pressed lower =
    let same = deliver-pressed s d e kept pressed lower.0 in
    deliver_all-pressed s (deliver s d e) events kept (λ h. pressed (sym same ∙ h)) lower.1 ∙ same
