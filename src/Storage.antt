-- ===== src/Storage.antt =====
-- src/core/storage/storage.cpp: the engine that appends events to a binary file, and dropped events
-- to a log of text lines. The files are what was written to them; what a write or an opening gave
-- is an argument. Integers are written in the byte order of the machine, little-endian here.
pub mod Format
pub mod Flush
mod Tests
use event_stream_core.Common.{
  ℕ, zero, suc, ◌+◌, ◌/◌, ◌%◌, Bool, true, false, ◌||◌, Option, none, some, List, [], ◌∷◌, ◌++◌,
  ltb, leb, ◌==◌, if◌then◌else◌, length, take, Bytes, codes, u32, u64,
}
use event_stream_core.Event.{priority_value, source_value, Event, EventPtr}

-- What the file system made of one `write`: all of it, or an error after some bytes.
pub data Write : Type 0 where
  whole : Write
  failed_after : ℕ → Write

pub record DlqStats : Type 0 where
  pub total_dropped : ℕ
  pub last_drop_reason : Bytes
  pub last_drop_timestamp_ms : ℕ

-- `flushed` is how many bytes of the storage file the last flush made durable.
pub record StorageEngine : Type 0 where
  pub dlq_path : Bytes
  pub storage_file : Bytes
  pub flushed : ℕ
  pub dlq_open : Bool
  pub dlq_file : Bytes
  pub event_count : ℕ
  pub stats : DlqStats

abbrev pub flush_batch_size : ℕ
flush_batch_size = 100

abbrev pub is_slash : ℕ → Bool
is_slash c = c == b'/' || c == b'\\'

-- The text up to its last slash, `none` if there is none: `find_last_of` and `substr`.
unfoldable pub up_to_slash : Bytes → Option Bytes
up_to_slash [] = none
up_to_slash (c ∷ cs) = elim (up_to_slash cs) [
  | some dir ↦ some (c ∷ dir)
  | none ↦ if is_slash c then some (c ∷ []) else none
]

abbrev pub dlq_name : Bytes
dlq_name = codes "dlq_log.txt"

-- The constructor's path of the log of dropped events.
unfoldable pub derive_dlq_path : Bytes → Bytes → Bytes
derive_dlq_path storage_path [] = elim (up_to_slash storage_path) [
  | some dir ↦ dir ++ dlq_name
  | none ↦ dlq_name
]
derive_dlq_path storage_path (c ∷ cs) = c ∷ cs

-- The constructor, which throws if the file of events does not open; the file may have contents.
unfoldable pub open_engine : Bytes → Bytes → Bool → Bytes → Option StorageEngine
open_engine storage_path dlq_path opens contents =
    if opens
    then some record {
      dlq_path = derive_dlq_path storage_path dlq_path;
      storage_file = contents;
      flushed = length contents;
      dlq_open = false;
      dlq_file = [];
      event_count = 0;
      stats = record { total_dropped = 0; last_drop_reason = []; last_drop_timestamp_ms = 0 };
    }
    else none

-- An integer of `k` bytes.
unfoldable pub le_bytes : ℕ → ℕ → Bytes
le_bytes zero n = []
le_bytes (suc k) n = (n % 256) ∷ le_bytes k (n / 256)

-- The buffer that `storeEvent` fills.
unfoldable pub serialize : Event → Bytes
serialize e =
    let topic_len = u32 (length e.topic) in
    le_bytes 8 e.header.timestamp
    ++ (source_value e.header.source_type
        ∷ (le_bytes 4 e.header.id
            ++ (le_bytes 4 topic_len
                ++ ((if ltb 0 topic_len then e.topic else [])
                    ++ (le_bytes 8 (u64 (length e.body)) ++ e.body)))))

unfoldable pub flush : StorageEngine → StorageEngine
flush s = record s { flushed = length s.storage_file }

-- The engine after `storeEvent`, and whether it returned; otherwise it threw.
unfoldable pub store_event : Write → StorageEngine → Event → StorageEngine × Bool
unfolding flush
store_event (failed_after n) s e =
    (record s { storage_file = s.storage_file ++ take n (serialize e) }, false)
store_event whole s e =
    let written = record s {
      storage_file = s.storage_file ++ serialize e;
      event_count = s.event_count + 1;
    } in
    (
      if leb flush_batch_size written.event_count
          then record (flush written) { event_count = 0 }
          else written,
      true,
    )

-- Decimal digits, as `%u` and `%ld` print them; 20 are enough for 64 bits.
unfoldable pub digits : ℕ → ℕ → Bytes
digits zero n = []
digits (suc fuel) n =
    let rest = digits fuel (n / 10) in (if ltb n 10 then [] else rest) ++ (b'0' + n % 10) ∷ []

-- A C string ends at its first zero byte.
unfoldable pub c_str : Bytes → Bytes
c_str [] = []
c_str (c ∷ cs) = if c == 0 then [] else c ∷ c_str cs

unfoldable pub dlq_text : ℕ → Bytes → Event → Bytes
dlq_text timestamp reason e =
    codes "["
    ++ (digits 20 timestamp
        ++ (codes "] DROPPED: id="
            ++ (digits 20 e.header.id
                ++ (codes " topic="
                    ++ (c_str e.topic
                        ++ (codes " priority="
                            ++ (digits 20 (priority_value e.header.priority)
                                ++ (codes " reason=" ++ (c_str reason ++ 10 ∷ [])))))))))

-- `snprintf` into 512 bytes, the last of which is the zero that `<<` stops at.
unfoldable pub dlq_line : ℕ → Bytes → Event → Bytes
dlq_line timestamp reason e = take 511 (dlq_text timestamp reason e)

unfoldable pub dlq_lines : ℕ → Bytes → List EventPtr → Bytes
dlq_lines timestamp reason [] = []
dlq_lines timestamp reason (none ∷ events) = dlq_lines timestamp reason events
dlq_lines timestamp reason (some e ∷ events) =
    dlq_line timestamp reason e ++ dlq_lines timestamp reason events

-- `opens` is whether the log can be opened, and the clock reads `timestamp_ms`.
unfoldable pub append_dlq : Bool → ℕ → StorageEngine → List EventPtr → Bytes → StorageEngine
append_dlq opens timestamp_ms s [] reason = s
append_dlq opens timestamp_ms s (e ∷ events) reason =
    if s.dlq_open || opens
    then record s {
      dlq_open = true;
      dlq_file = s.dlq_file ++ dlq_lines (timestamp_ms / 1000) reason (e ∷ events);
      stats = record {
        total_dropped = u64 (s.stats.total_dropped + length (e ∷ events));
        last_drop_reason = reason;
        last_drop_timestamp_ms = timestamp_ms;
      };
    }
    else s

unfoldable pub get_dlq_stats : StorageEngine → DlqStats
get_dlq_stats s = s.stats

-- Reading back is not implemented.
unfoldable pub retrieve_event : StorageEngine → ℕ → Option Event
retrieve_event s event_id = none
