-- ===== src/Frame.antt =====
-- src/core/ingest/frame_parser.cpp: the wire format of one frame,
--   [4-byte length][1-byte priority][2-byte topic length][topic][payload], big-endian.
-- A `std::runtime_error` is `err`. A read outside the memory that the pointer points into, which
-- C++ leaves undefined, is `fault`.
pub mod Safety
pub mod RoundTrip
mod Tests
use event_stream_core.Common.{
  ℕ, zero, suc, ◌+◌, ◌-◌, ◌*◌, ◌^◌, Bool, true, false, not, [], Bytes, length, take, drop, get_or,
  leb, ltb, ◌==◌, if◌then◌else◌,
}
use event_stream_core.Event.{EventPriority}

pub record ParsedFrame : Type 0 where
  pub priority : EventPriority
  pub topic : Bytes
  pub payload : Bytes

pub data FrameError : Type 0 where
  missing_header invalid_priority topic_truncated zero_topic missing_prefix length_mismatch :
      FrameError

pub data Parse {ℓ} (A : Type ℓ) : Type ℓ where
  ok : A → Parse A
  err : FrameError → Parse A
  fault : Parse A

infixl 5 ◌>>=◌ ◌>>◌
abbrev pub ◌>>=◌ {ℓ κ} : {A : Type ℓ} {B : Type κ} → Parse A → (A → Parse B) → Parse B
ok a >>= f = f a
err e >>= f = err e
fault >>= f = fault

abbrev pub ◌>>◌ {ℓ} : {B : Type ℓ} → Parse (Unit {0}) → Parse B → Parse B
m >> k = m >>= λ _. k

abbrev pub guard : Bool → FrameError → Parse (Unit {0})
guard true e = ok tt
guard false e = err e

-- `n` bytes from `data + i` on; `data` is the memory from the pointer to the end of its buffer.
pub read_bytes : Bytes → ℕ → ℕ → Parse Bytes
read_bytes memory i n = if leb (i + n) (length memory) then ok (take n (drop i memory)) else fault

pub read_uint8 : Bytes → ℕ → Parse ℕ
read_uint8 memory i = if ltb i (length memory) then ok (get_or memory i 0) else fault

abbrev pub be16 : ℕ → ℕ → ℕ
be16 a b = a * 2 ^ 8 + b

-- The shifted bytes share no bit, so `|` is their sum.
abbrev pub be32 : ℕ → ℕ → ℕ → ℕ → ℕ
be32 a b c d = a * 2 ^ 24 + b * 2 ^ 16 + c * 2 ^ 8 + d

pub read_uint16_be : Bytes → ℕ → Parse ℕ
unfolding read_uint8
read_uint16_be memory i = do a ← read_uint8 memory i; b ← read_uint8 memory (i + 1); ok (be16 a b)

pub read_uint32_be : Bytes → ℕ → Parse ℕ
unfolding read_uint8
read_uint32_be memory i = do
  a ← read_uint8 memory i
  b ← read_uint8 memory (i + 1)
  c ← read_uint8 memory (i + 2)
  d ← read_uint8 memory (i + 3)
  ok (be32 a b c d)

-- `static_cast<EventPriority>` of a byte that is at most 4.
abbrev pub priority_of : ℕ → EventPriority
priority_of zero = EventPriority.batch
priority_of (suc zero) = EventPriority.low
priority_of (suc (suc zero)) = EventPriority.medium
priority_of (suc (suc (suc zero))) = EventPriority.high
priority_of (suc (suc (suc (suc _)))) = EventPriority.critical

-- `parseFrameBody(data, len)`. The caller gives `len` beside the pointer, and may be wrong.
unfoldable pub parse_frame_body : Bytes → ℕ → Parse ParsedFrame
unfolding read_uint16_be read_bytes
parse_frame_body memory len = do
  guard (leb 3 len) FrameError.missing_header
  priority_val ← read_uint8 memory 0
  guard (leb priority_val 4) FrameError.invalid_priority
  topic_len ← read_uint16_be memory 1
  guard (leb (3 + topic_len) len) FrameError.topic_truncated
  guard (not (topic_len == 0)) FrameError.zero_topic
  topic ← read_bytes memory 3 topic_len
  payload ←
      if ltb (3 + topic_len) len
      then read_bytes memory (3 + topic_len) (len - (3 + topic_len))
      else ok []
  ok (record { priority = priority_of priority_val; topic = topic; payload = payload })

unfoldable pub parse_full_frame : Bytes → Parse ParsedFrame
unfolding read_uint32_be
parse_full_frame full_frame = do
  guard (leb 4 (length full_frame)) FrameError.missing_prefix
  frame_len ← read_uint32_be full_frame 0
  guard (frame_len == length full_frame - 4) FrameError.length_mismatch
  parse_frame_body (drop 4 full_frame) frame_len
