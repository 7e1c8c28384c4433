-- ===== src/Frame/RoundTrip.antt =====
-- The parser against the wire format written forwards: it reads back exactly what a client encodes.
use event_stream_core.Common.{
  ℕ, zero, suc, ◌+◌, ◌-◌, ◌*◌, ◌/◌, ◌%◌, ◌^◌, ◌≤◌, ◌<◌, ◌≡◌, refl, ◌∙◌, [], ◌∷◌, ◌++◌, arith, ltb,
  if◌then◌else◌, length, take, drop, All, length-append, length-take, length-drop, take-append-drop,
  take_all, drop_all, take-length, drop-length, Bytes, IsByte,
}
use event_stream_core.Event.{EventPriority, priority_value}
use event_stream_core.Frame.{
  ParsedFrame, read_uint8, priority_of, parse_frame_body, parse_full_frame, ok,
}

abbrev pub encode_body : ParsedFrame → Bytes
encode_body f =
    priority_value f.priority
    ∷ (length f.topic / 256)
    ∷ (length f.topic % 256)
    ∷ (f.topic ++ f.payload)

abbrev pub encode_length : ℕ → Bytes
encode_length n = (n / 2 ^ 24) ∷ (n / 2 ^ 16 % 256) ∷ (n / 2 ^ 8 % 256) ∷ (n % 256) ∷ []

abbrev pub encode : ParsedFrame → Bytes
encode f = encode_length (length (encode_body f)) ++ encode_body f

-- What a client can put in a frame.
pub record IsEncodable (f : ParsedFrame) : Type 0 where
  pub topic_nonempty : 0 < length f.topic
  pub topic_short : length f.topic < 2 ^ 16
  pub short : length (encode_body f) < 2 ^ 32

priority_of-priority_value : (p : EventPriority) → priority_of (priority_value p) ≡ p
priority_of-priority_value EventPriority.batch = refl
priority_of-priority_value EventPriority.low = refl
priority_of-priority_value EventPriority.medium = refl
priority_of-priority_value EventPriority.high = refl
priority_of-priority_value EventPriority.critical = refl

priority_value-le : (p : EventPriority) → priority_value p ≤ 4
priority_value-le EventPriority.batch = omega arith
priority_value-le EventPriority.low = omega arith
priority_value-le EventPriority.medium = omega arith
priority_value-le EventPriority.high = omega arith
priority_value-le EventPriority.critical = omega arith

priority_value-priority_of : (n : ℕ) → n ≤ 4 → priority_value (priority_of n) ≡ n
priority_value-priority_of zero h = refl
priority_value-priority_of (suc zero) h = refl
priority_value-priority_of (suc (suc zero)) h = refl
priority_value-priority_of (suc (suc (suc zero))) h = refl
priority_value-priority_of (suc (suc (suc (suc n)))) h = omega arith

parse_frame_body-encode :
    (f : ParsedFrame)
    → IsEncodable f
    → parse_frame_body (encode_body f) (length (encode_body f)) ≡ ok f
unfolding parse_frame_body read_uint8
parse_frame_body-encode f v = ground (
  arith,
  priority_of-priority_value f.priority,
  priority_value-le f.priority,
  length-append f.topic f.payload,
  take-length (length f.topic) f.topic f.payload refl,
  drop-length (length f.topic) f.topic f.payload refl,
  take_all (length f.payload) f.payload,
)

-- The length prefix is checked against the buffer and leads to the body.
parse_full_frame_prefixed :
    (body : Bytes)
    → length body < 2 ^ 32
    → parse_full_frame (encode_length (length body) ++ body) ≡ parse_frame_body body (length body)
unfolding parse_full_frame read_uint8
parse_full_frame_prefixed body h = ground arith

-- A full frame that a client encodes is read back as what it was made from.
pub parse_full_frame-encode : (f : ParsedFrame) → IsEncodable f → parse_full_frame (encode f) ≡ ok f
parse_full_frame-encode f v =
    parse_full_frame_prefixed (encode_body f) v.short ∙ parse_frame_body-encode f v

-- Bytes read as a number, and written again.
encode-be32 :
    (a b c d : ℕ)
    → a < 256
    → b < 256
    → c < 256
    → d < 256
    → encode_length (a * 2 ^ 24 + b * 2 ^ 16 + c * 2 ^ 8 + d) ≡ a ∷ b ∷ c ∷ d ∷ []
encode-be32 a b c d ha hb hc hd = ground arith

-- The two parts that the parser cuts the bytes behind the header into.
cut_body :
    (rest : Bytes) (n : ℕ) (b : Bytes)
    → n ≤ length rest
    → b ≡ (if ltb (3 + n) (3 + length rest) then take (length rest - n) (drop n rest) else [])
    → take n rest ++ b ≡ rest
cut_body rest n b h e = ground (
  arith,
  take-append-drop n rest,
  length-drop n rest,
  take_all (length rest - n) (drop n rest),
  drop_all n rest,
)

encode_body-parse_frame_body :
    (body : Bytes) {f : ParsedFrame}
    → All IsByte body
    → parse_frame_body body (length body) ≡ ok f
    → body ≡ encode_body f
unfolding parse_frame_body read_uint8
encode_body-parse_frame_body [] v e = cc
encode_body-parse_frame_body (x ∷ []) v e = cc
encode_body-parse_frame_body (x ∷ y ∷ []) v e = cc
encode_body-parse_frame_body (x ∷ y ∷ z ∷ body) {f} v e = ground (
  arith,
  priority_value-priority_of x,
  cut_body body (y * 256 + z) f.payload,
  length-take (y * 256 + z) body,
)

-- Only what a client can encode is accepted: the bytes of an accepted frame are those that encode
-- the result.
pub encode-parse_full_frame :
    (frame : Bytes) {f : ParsedFrame}
    → All IsByte frame
    → parse_full_frame frame ≡ ok f
    → frame ≡ encode f
unfolding parse_full_frame read_uint8
encode-parse_full_frame [] v e = cc
encode-parse_full_frame (a ∷ []) v e = cc
encode-parse_full_frame (a ∷ b ∷ []) v e = cc
encode-parse_full_frame (a ∷ b ∷ c ∷ []) v e = cc
encode-parse_full_frame (a ∷ b ∷ c ∷ d ∷ body) {f} v e =
    ground (arith, encode_body-parse_frame_body body {f = f} v.1.1.1.1, encode-be32 a b c d)
