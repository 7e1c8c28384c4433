-- ===== src/EventFactory.antt =====
-- src/core/events/event_factory.cpp: the event that a server makes of a frame.
-- The process-wide counter of ids is passed along, and the clock's reading is an argument.
mod Tests
use Prim.Native.Nat.{bit_and, bit_xor}
use event_stream_core.Common.{
  ℕ, zero, suc, ◌+◌, ◌/◌, ◌^◌, List, [], ◌∷◌, ◌==◌, if◌then◌else◌, length, get_or, Bytes, u16, u32,
  u64,
}
use event_stream_core.Event.{EventSourceType, EventPriority, Event}

-- One round of the loop that fills the table.
abbrev pub crc_step : ℕ → ℕ
crc_step crc = if bit_and crc 1 == 0 then crc / 2 else bit_xor (crc / 2) 0xEDB88320

abbrev crc_steps : ℕ → ℕ → ℕ
crc_steps zero crc = crc
crc_steps (suc j) crc = crc_steps j (crc_step crc)

abbrev crc_entries : ℕ → ℕ → List ℕ
crc_entries zero i = []
crc_entries (suc n) i = crc_steps 8 i ∷ crc_entries n (i + 1)

-- `CRC32_TABLE`, which `call_once` fills before its first use.
unfoldable pub crc32_table : List ℕ
crc32_table = crc_entries 256 0

unfoldable pub crc_bytes : ℕ → Bytes → ℕ
crc_bytes crc [] = crc
crc_bytes crc (byte ∷ bytes) =
    crc_bytes (bit_xor (crc / 2 ^ 8) (get_or crc32_table (bit_and (bit_xor crc byte) 0xFF) 0)) bytes

unfoldable pub calculate_crc32 : Bytes → ℕ
calculate_crc32 bytes = bit_xor (crc_bytes 0xFFFFFFFF bytes) 0xFFFFFFFF

-- `createEvent`, with the id that `fetch_add` returns; `next_event_id` is the counter after it.
unfoldable pub create_event :
    ℕ → ℕ → EventSourceType → EventPriority → Bytes → Bytes → List (Bytes × Bytes) → Event
create_event now_ns global_event_id source_type priority payload topic metadata = record {
  header = record {
    source_type = source_type;
    priority = priority;
    id = u32 global_event_id;
    timestamp = u64 now_ns;
    body_len = u32 (length payload);
    topic_len = u16 (length topic);
    crc32 = calculate_crc32 payload;
  };
  topic = topic;
  body = payload;
  metadata = metadata;
  dequeue_time_ns = 0;
}

unfoldable pub next_event_id : ℕ → ℕ
next_event_id global_event_id = u64 (global_event_id + 1)
