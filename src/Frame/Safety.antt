-- ===== src/Frame/Safety.antt =====
-- The frame parser reads only memory that it was given, where the length is the buffer's.
use event_stream_core.Common.{ℕ, ◌+◌, ◌≤◌, ◌<◌, ◌≡◌, ◌≢◌, ◌∷◌, arith, length, length-drop, Bytes}
use event_stream_core.Frame.{fault, read_uint8, be16, parse_frame_body, parse_full_frame}

-- Parsing a frame's body never reads outside the memory that it is given, where `len` is no more
-- than that memory's length.
pub parse_frame_body_in_bounds :
    (memory : Bytes) (len : ℕ) → len ≤ length memory → parse_frame_body memory len ≢ fault
unfolding parse_frame_body read_uint8
parse_frame_body_in_bounds memory len h = ground arith

-- Parsing a frame never reads outside it, whatever length it declares.
pub parse_full_frame_in_bounds : (frame : Bytes) → parse_full_frame frame ≢ fault
unfolding parse_full_frame parse_frame_body read_uint8
parse_full_frame_in_bounds frame = ground (arith, length-drop 4 frame)

-- A length that is no length of the memory: the payload is read outside it.
pub parse_frame_body_beyond :
    (p h l : ℕ) (rest : Bytes) (len : ℕ)
    → p ≤ 4
    → 0 < be16 h l
    → be16 h l ≤ length rest
    → 3 + length rest < len
    → parse_frame_body (p ∷ h ∷ l ∷ rest) len ≡ fault
unfolding parse_frame_body read_uint8
parse_frame_body_beyond p h l rest len p_ok topic_pos topic_in long = ground arith
