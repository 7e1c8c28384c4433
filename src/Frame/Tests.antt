-- ===== src/Frame/Tests.antt =====
-- Concrete frames: the parser run on them, and each theorem applied to one.
use event_stream_core.Common.{◌≡◌, refl, [], ◌∷◌, arith, Bytes, codes}
use event_stream_core.Event.{EventPriority}
use event_stream_core.Frame.{
  ParsedFrame, FrameError, read_uint8, parse_frame_body, parse_full_frame, ok, err,
}
use event_stream_core.Frame.RoundTrip.{
  encode, IsEncodable, parse_full_frame-encode, encode-parse_full_frame,
}

-- Priority 3, topic "ab", payload 7 8.
abbrev hello : ParsedFrame
hello = record { priority = EventPriority.high; topic = codes "ab"; payload = 7 ∷ 8 ∷ [] }

abbrev hello_bytes : Bytes
hello_bytes = 0 ∷ 0 ∷ 0 ∷ 7 ∷ 3 ∷ 0 ∷ 2 ∷ 97 ∷ 98 ∷ 7 ∷ 8 ∷ []

hello_encoded : encode hello ≡ hello_bytes
hello_encoded = refl

hello_parsed : parse_full_frame hello_bytes ≡ ok hello
unfolding parse_full_frame parse_frame_body read_uint8
hello_parsed = refl

zero_topic_rejected : parse_full_frame (0 ∷ 0 ∷ 0 ∷ 3 ∷ 1 ∷ 0 ∷ 0 ∷ []) ≡ err FrameError.zero_topic
unfolding parse_full_frame parse_frame_body read_uint8
zero_topic_rejected = refl

hello-IsEncodable : IsEncodable hello
hello-IsEncodable = omega arith

parse_full_frame-encode_example : parse_full_frame (encode hello) ≡ ok hello
parse_full_frame-encode_example = parse_full_frame-encode hello hello-IsEncodable

encode-parse_full_frame_example : hello_bytes ≡ encode hello
encode-parse_full_frame_example = encode-parse_full_frame hello_bytes (omega arith) hello_parsed
