-- ===== src/Storage/Tests.antt =====
-- A storage engine on an empty file.
use event_stream_core.Common.{◌≡◌, refl, true, false, none, some, List, [], ◌∷◌, ◌++◌, arith, codes}
use event_stream_core.Event.{high, Event, blank_event}
use event_stream_core.Storage.{
  StorageEngine, up_to_slash, derive_dlq_path, le_bytes, serialize, digits, c_str, dlq_text,
  dlq_line, dlq_lines, append_dlq,
}
use event_stream_core.Storage.Format.{stored_of, read_records, IsStorable}
use event_stream_core.Storage.Flush.{
  Call, store_event_of, flush_now, call_all, read_records-call_all, Pending, call_all-Pending,
}

abbrev reading : Event
reading = record blank_event {
  header = record (blank_event.header) { id = 258; timestamp = 65539; priority = high };
  topic = codes "t";
  body = 5 ∷ 6 ∷ [];
}

abbrev engine : StorageEngine
engine = record {
  dlq_path = codes "d/dlq_log.txt";
  storage_file = [];
  flushed = 0;
  dlq_open = false;
  dlq_file = [];
  event_count = 0;
  stats = record { total_dropped = 0; last_drop_reason = []; last_drop_timestamp_ms = 0 };
}

path_beside_the_file : derive_dlq_path (codes "d/x/events.bin") [] ≡ codes "d/x/dlq_log.txt"
unfolding derive_dlq_path up_to_slash
path_beside_the_file = refl

reading_is_stored :
    serialize reading
    ≡ 3 ∷ 0 ∷ 1 ∷ 0 ∷ 0 ∷ 0 ∷ 0 ∷ 0 ∷ 0 ∷ 2 ∷ 1 ∷ 0 ∷ 0 ∷ 1 ∷ 0 ∷ 0 ∷ 0 ∷ 116 ∷ 2 ∷ 0 ∷ 0 ∷ 0 ∷ 0
      ∷ 0 ∷ 0 ∷ 0 ∷ 5 ∷ 6 ∷ []
unfolding serialize le_bytes
reading_is_stored = refl

reading_is_logged :
    (append_dlq true 1234567 engine (some reading ∷ none ∷ []) (codes "full")).dlq_file
    ≡ codes "[1234] DROPPED: id=258 topic=t priority=3 reason=full" ++ 10 ∷ []
unfolding append_dlq dlq_lines dlq_line dlq_text digits c_str
reading_is_logged = refl

null_pointers_count :
    (append_dlq true 1234567 engine (some reading ∷ none ∷ []) []).stats.total_dropped ≡ 2
unfolding append_dlq
null_pointers_count = refl

reading-IsStorable : IsStorable reading
reading-IsStorable = record {
  timestamp_fits = omega arith;
  id_fits = omega arith;
  topic_fits = omega arith;
  body_fits = omega arith;
}

abbrev calls : List Call
calls = store_event_of reading ∷ flush_now ∷ store_event_of reading ∷ []

read_records-call_all_example :
    read_records 5 (call_all calls engine).storage_file
    ≡ some (stored_of reading ∷ stored_of reading ∷ [])
read_records-call_all_example =
    read_records-call_all 5 calls engine refl (reading-IsStorable, (reading-IsStorable, tt))
      (omega arith)

call_all-Pending_example : Pending (call_all calls engine)
call_all-Pending_example = call_all-Pending calls engine record {
  durable = [];
  waiting = [];
  file_parts = refl;
  up_to = refl;
  few = omega arith;
  below = omega arith;
}
