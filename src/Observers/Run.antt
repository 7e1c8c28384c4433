-- ===== src/Observers/Run.antt =====
-- The observers through any run of operations; subscribers are numbered as they come.
use event_stream_core.Common.{
  ℕ, ◌+◌, ◌≤◌, ◌≡◌, refl, ◌∙◌, Bool, true, false, some, List, [], ◌∷◌, ◌++◌, arith, if◌then◌else◌,
  All, All-append, Bytes,
}
use event_stream_core.Event.{Event}
use event_stream_core.Observers.{
  Observer, esc_observer, Entry, ProcessedEventStream, no_observers, Answers, on_event_processed,
  on_event_dropped, notify_each, any_inactive, prune_inactive, notify, notify_processed,
  notify_dropped, subscribe, set_enabled, register_default_observers, clear_all_observers,
}
use event_stream_core.Observers.Ended.{
  ended, IsRespectful, IsCurrent, Differs, IsNumbered, Steps, on_event_processed-Steps,
  on_event_dropped-Steps,
}
use event_stream_core.Observers.Round.{Keeps, notify_each-Keeps}
use event_stream_core.Observers.Numbering.{
  prune-All, prune-IsNumbered, IsNumbered-append, apart_from, defaults, apart_from_defaults,
}

pub data Operation : Type 0 where
  processed_by : Bytes → Event → Operation
  dropped_by : Bytes → Event → Operation
  subscribes : Bytes → Operation
  enables : Bool → Operation
  registers clears : Operation

unfoldable pub apply : Answers → Operation → ProcessedEventStream → ℕ → ProcessedEventStream × ℕ
apply answers (processed_by proc e) s next = (notify_processed answers e proc s, next)
apply answers (dropped_by proc e) s next = (notify_dropped e proc s, next)
apply answers (subscribes prefix) s next =
    (subscribe (some (esc_observer next prefix true)) s, next + 1)
apply answers (enables b) s next = (set_enabled b s, next)
apply answers registers s next = (register_default_observers s, next)
apply answers clears s next = (clear_all_observers s, next)

abbrev pub run : Answers → List Operation → ProcessedEventStream → ℕ → ProcessedEventStream × ℕ
run answers [] s next = (s, next)
run answers (op ∷ ops) s next =
    let (s', next') = apply answers op s next in run answers ops s' next'

module _ (answers : Answers) where
  pub record IsValid (s : ProcessedEventStream) (next : ℕ) : Type 0 where
    pub respectful : IsRespectful answers s.log
    pub current : All (IsCurrent answers s.log) s.observers
    pub numbered : IsNumbered s.observers
    pub fresh :
        (id : ℕ) → next ≤ id → (ended answers id s.log ≡ false) × All (Differs id) s.observers

  notify-IsValid :
      (on_event : Observer → List Entry → Observer × List Entry) (s : ProcessedEventStream)
      (next : ℕ)
      → ((o : Observer) (log : List Entry) → Steps answers o log (on_event o log))
      → IsValid s next
      → IsValid (notify on_event s) next
  unfolding notify
  notify-IsValid on_event s next steps v = either s.enabled
    where
      after : List Observer × List Entry
      after = notify_each on_event s.observers s.log

      kept : Keeps answers s.observers s.log after
      kept =
          notify_each-Keeps answers on_event s.observers s.log steps v.respectful v.current
            v.numbered

      left : Bool → List Observer
      left b = if b then prune_inactive after.0 else after.0

      left-All : (P : Observer → Type 0) (b : Bool) → All P after.0 → All P (left b)
      left-All P true h = prune-All P after.0 h
      left-All P false h = h

      left-IsNumbered : (b : Bool) → IsNumbered (left b)
      left-IsNumbered true = prune-IsNumbered after.0 kept.2
      left-IsNumbered false = kept.2

      either :
          (b : Bool)
          → IsValid
              (if b
                then record s { observers = left (any_inactive s.observers); log = after.1 }
                else s)
              next
      either false = v
      either true = record {
        respectful = kept.0;
        current = left-All (IsCurrent answers after.1) (any_inactive s.observers) kept.1;
        numbered = left-IsNumbered (any_inactive s.observers);
        fresh = λ id h.
            let (old_end, old) = v.fresh id h in
            let (same, differ) = kept.3 id old in
            (same ∙ old_end, left-All (Differs id) (any_inactive s.observers) differ);
      }

  subscribe-IsValid :
      (prefix : Bytes) (s : ProcessedEventStream) (next : ℕ)
      → IsValid s next
      → IsValid (subscribe (some (esc_observer next prefix true)) s) (next + 1)
  unfolding subscribe
  subscribe-IsValid prefix s next v =
      let (unended, apart) = v.fresh next (omega arith) in
      let o = esc_observer next prefix true in
      record {
        respectful = v.respectful;
        current = All-append (IsCurrent answers s.log) s.observers (o ∷ []) v.current (unended, tt);
        numbered =
            IsNumbered-append s.observers (o ∷ []) v.numbered (tt, tt)
              (apart_from next prefix s.observers apart);
        fresh = λ id h.
            let (old_end, old) = v.fresh id (omega arith) in
            (
              old_end,
              All-append (Differs id) s.observers (o ∷ []) old ((λ e. absurd (omega arith)), tt),
            );
      }

  register-IsValid :
      (s : ProcessedEventStream) (next : ℕ)
      → IsValid s next
      → IsValid (register_default_observers s) next
  unfolding register_default_observers
  register-IsValid s next v = either s.defaults_registered
    where
      either :
          (b : Bool)
          → IsValid
              (if b
                then s
                else record s { defaults_registered = true; observers = s.observers ++ defaults })
              next
      either true = v
      either false = record {
        respectful = v.respectful;
        current =
            All-append (IsCurrent answers s.log) s.observers defaults v.current
              (tt, (tt, (tt, (tt, tt))));
        numbered =
            IsNumbered-append s.observers defaults v.numbered (tt, (tt, (tt, (tt, tt))))
              (apart_from_defaults s.observers);
        fresh = λ id h.
            let (old_end, old) = v.fresh id h in
            (old_end, All-append (Differs id) s.observers defaults old (tt, (tt, (tt, (tt, tt)))));
      }

  apply-IsValid :
      (op : Operation) (s : ProcessedEventStream) (next : ℕ)
      → IsValid s next
      → let (s', next') = apply answers op s next in IsValid s' next'
  unfolding apply notify_processed notify_dropped set_enabled clear_all_observers
  apply-IsValid (processed_by proc e) s next v =
      notify-IsValid (on_event_processed answers proc e) s next
        (on_event_processed-Steps answers proc e) v
  apply-IsValid (dropped_by proc e) s next v =
      notify-IsValid (on_event_dropped proc e) s next (on_event_dropped-Steps answers proc e) v
  apply-IsValid (subscribes prefix) s next v = subscribe-IsValid prefix s next v
  apply-IsValid (enables b) s next v = record {
    respectful = v.respectful;
    current = v.current;
    numbered = v.numbered;
    fresh = v.fresh;
  }
  apply-IsValid registers s next v = register-IsValid s next v
  apply-IsValid clears s next v = record {
    respectful = v.respectful;
    current = tt;
    numbered = tt;
    fresh = λ id h. ((v.fresh id h).0, tt);
  }

  run-IsValid :
      (ops : List Operation) (s : ProcessedEventStream) (next : ℕ)
      → IsValid s next
      → let (s', next') = run answers ops s next in IsValid s' next'
  run-IsValid [] s next v = v
  run-IsValid (op ∷ ops) s next v =
      let (s', next') = apply answers op s next in
      run-IsValid ops s' next' (apply-IsValid op s next v)

  -- Whatever is subscribed, reported, registered and cleared, in any order but one call after the other,
  -- and whatever the callbacks answer: no subscriber's callback is called again after an answer by which
  -- it asked to be unsubscribed. Of notifications that overlap, from several threads, nothing is said.
  pub run-IsRespectful :
      (ops : List Operation) → IsRespectful answers (run answers ops no_observers 0).0.log
  run-IsRespectful ops =
      (run-IsValid ops no_observers 0 record {
        respectful = tt;
        current = tt;
        numbered = tt;
        fresh = λ id h. (refl, tt);
      }).respectful
