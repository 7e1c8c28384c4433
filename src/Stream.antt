-- ===== src/Stream.antt =====
-- The framing loop of src/core/ingest/tcp.cpp (`handleClient`), which src/core/ingest/epoll.cpp
-- (`processBuffer`) repeats: frames are cut off the front of the receive buffer by an offset, and
-- the consumed bytes are removed once a round.
-- `Stream.Drain` is the plain description by the unread bytes; `Stream.Chunks` and `Stream.Frames`
-- prove what a client sees.
pub mod Drain
pub mod Rounds
pub mod Chunks
pub mod Frames
mod Tests
use event_stream_core.Common.{
  ℕ, zero, suc, ◌+◌, ◌-◌, ◌*◌, Bool, true, false, ◌&&◌, [], ◌++◌, ltb, leb, ◌==◌, if◌then◌else◌,
  length, get_or, take, drop, Bytes, u32,
}
use event_stream_core.Frame.{be32}

abbrev pub max_buffer_size : ℕ
max_buffer_size = 10 * 1024 * 1024

abbrev pub max_empty_frames : ℕ
max_empty_frames = 10

-- What the head of the unread bytes asks for; a number is the new count of empty frames, or the
-- frame's declared length.
pub data Next : Type 0 where
  wait : ℕ → Next
  skip : ℕ → Next
  too_many_empty : Next
  too_large : Next
  frame : ℕ → Next

unfoldable pub frame_len_at : Bytes → ℕ → ℕ
frame_len_at buffer offset =
    be32 (get_or buffer offset 0) (get_or buffer (offset + 1) 0) (get_or buffer (offset + 2) 0)
      (get_or buffer (offset + 3) 0)

-- The guards of one round, in order. `4 + frameLen` is a `uint32_t`.
unfoldable pub classify : ℕ → ℕ → ℕ → Next
classify remaining frame_len empty_frame_count =
    if ltb remaining 4
    then wait empty_frame_count
    else if frame_len == 0
    then if ltb max_empty_frames (empty_frame_count + 1)
      then too_many_empty
      else skip (empty_frame_count + 1)
    else if ltb max_buffer_size frame_len
    then too_large
    else if ltb remaining (u32 (4 + frame_len))
    then wait 0
    else frame frame_len

-- One round of the loop, up to what it does with the frame.
unfoldable pub next_frame : Bytes → ℕ → ℕ → Next
next_frame buffer offset empty_frame_count =
    classify (length buffer - offset) (frame_len_at buffer offset) empty_frame_count

-- `erase` of the consumed bytes after the loop, or `clear`.
unfoldable pub compact : Bytes → ℕ → Bytes
compact buffer offset =
    if ltb 0 offset && ltb offset (length buffer)
    then drop offset buffer
    else if leb (length buffer) offset
    then []
    else buffer

-- How the loop over one buffer ends: by `break` or at the buffer's end, or by closing the socket.
pub data Scan {ℓ} (S : Type ℓ) : Type ℓ where
  waiting : ℕ → ℕ → S → Scan S
  closed : S → Scan S

-- A connection that `handleClient` serves; `sink` is what the frames are handed to.
pub record Client {ℓ} (S : Type ℓ) : Type ℓ where
  pub buffer : Bytes
  pub empty_frame_count : ℕ
  pub is_open : Bool
  pub sink : S

module _ {ℓ} {S : Type ℓ} (on_frame : Bytes → S → S) where
  -- `while (bufferOffset < clientBuffer.size())`, on fuel: each round moves the offset by 4 or more.
  unfoldable pub scan : ℕ → Bytes → ℕ → ℕ → S → Scan S
  scan zero buffer offset empty s = waiting offset empty s
  scan (suc fuel) buffer offset empty s = elim (ltb offset (length buffer)) [
    | false ↦ waiting offset empty s
    | true ↦ elim (next_frame buffer offset empty) [
      | wait empty' ↦ waiting offset empty' s
      | skip empty' ↦ scan fuel buffer (offset + 4) empty' s
      | too_many_empty ↦ closed s
      | too_large ↦ closed s
      | frame frame_len ↦
          let total = u32 (4 + frame_len) in
          scan fuel buffer (offset + total) 0 (on_frame (take total (drop offset buffer)) s)
    ]
  ]

  unfoldable pub after_scan : Bytes → Client S → Scan S → Client S
  after_scan buffer c (waiting offset empty s) = record c {
    buffer = compact buffer offset;
    empty_frame_count = empty;
    sink = s;
  }
  after_scan buffer c (closed s) = record {
    buffer = [];
    empty_frame_count = 0;
    is_open = false;
    sink = s;
  }

  -- What follows one `recv` of `chunk`. `return` ends the connection's thread, and its locals.
  unfoldable pub receive : Bytes → Client S → Client S
  unfolding after_scan
  receive chunk c =
      let buffer = c.buffer ++ chunk in
      if c.is_open
      then after_scan buffer c (scan (length buffer) buffer 0 c.empty_frame_count c.sink)
      else c
