-- ===== src/DeadLetterQueue/Tests.antt =====
-- A drop that is cleared, two drops and a batch with a null pointer.
use event_stream_core.Common.{ℕ, ◌%◌, ◌^◌, ◌≡◌, refl, none, some, List, [], ◌∷◌}
use event_stream_core.Event.{Event, blank_event}
use event_stream_core.DeadLetterQueue.{
  empty, store, push, store_all, push_batch, get_recent_events, clear,
}
use event_stream_core.DeadLetterQueue.Recent.{
  Call, drops, drops_batch, clears, call_all, call_all_history,
}

abbrev numbered : ℕ → Event
numbered n = record blank_event { header = record (blank_event.header) { id = n } }

abbrev calls : List Call
calls =
    drops (numbered 0)
    ∷ clears
    ∷ drops (numbered 1)
    ∷ drops_batch (some (numbered 2) ∷ none ∷ some (numbered 3) ∷ [])
    ∷ drops (numbered 4)
    ∷ []

newest_two : get_recent_events (call_all empty calls) 2 ≡ numbered 4 ∷ numbered 3 ∷ []
unfolding get_recent_events push push_batch store_all store clear
newest_two = refl

null_is_counted : (call_all empty calls).total_dropped ≡ 6
unfolding push push_batch clear
null_is_counted = refl

call_all_history_example :
    let d = call_all empty calls in
    (d.stored_events ≡ numbered 1 ∷ numbered 2 ∷ numbered 3 ∷ numbered 4 ∷ [])
    × (d.total_dropped % 2 ^ 64 ≡ 6)
    × (get_recent_events d 2 ≡ numbered 4 ∷ numbered 3 ∷ [])
call_all_history_example = call_all_history calls 2
