-- ===== src/Stream/Frames.antt =====
-- A connection whose client sends whole frames, whatever the chunks they come in.
use mathlib.Core.List.{append-nil, append_assoc}
use event_stream_core.Common.{
  ℕ, ◌+◌, ◌^◌, ◌≤◌, ◌<◌, ◌≡◌, refl, sym, ap, ap₂, ◌∙◌, true, List, [], ◌∷◌, ◌++◌, arith, length,
  All, length-append, take-length, drop-length, Bytes,
}
use event_stream_core.Frame.{ParsedFrame}
use event_stream_core.Frame.RoundTrip.{encode_body, encode_length, encode, IsEncodable}
use event_stream_core.Stream.{
  max_buffer_size, frame_len_at, classify, next_frame, Client, receive, frame,
}
use event_stream_core.Stream.Drain.{drain, left}
use event_stream_core.Stream.Chunks.{drain_all, round_of, settle, receive-eq-settle, receive-append}

-- What a client may send without being cut off.
pub record IsSendable (f : ParsedFrame) : Type 0 where
  pub encodable : IsEncodable f
  pub within : length (encode_body f) ≤ max_buffer_size

-- The bytes of a stream of frames.
abbrev pub encode_all : List ParsedFrame → Bytes
encode_all [] = []
encode_all (f ∷ fs) = encode f ++ encode_all fs

-- `recv` after `recv`.
abbrev pub receive_all {ℓ} : {S : Type ℓ} → (Bytes → S → S) → List Bytes → Client S → Client S
receive_all on_frame [] c = c
receive_all on_frame (x ∷ xs) c = receive_all on_frame xs (receive on_frame x c)

abbrev pub concat : List Bytes → Bytes
concat [] = []
concat (x ∷ xs) = x ++ concat xs

abbrev pub hand_on {ℓ} : {S : Type ℓ} → (Bytes → S → S) → List ParsedFrame → S → S
hand_on on_frame [] s = s
hand_on on_frame (f ∷ fs) s = hand_on on_frame fs (on_frame (encode f) s)

classify_whole :
    (remaining n empty : ℕ)
    → 0 < n
    → n ≤ max_buffer_size
    → 4 + n ≤ remaining
    → classify remaining n empty ≡ frame n
unfolding classify
classify_whole remaining n empty pos small fits = ground arith

frame_len_at-encode :
    (body ys : Bytes)
    → length body < 2 ^ 32
    → frame_len_at ((encode_length (length body) ++ body) ++ ys) 0 ≡ length body
unfolding frame_len_at
frame_len_at-encode body ys h = omega arith

next_frame-encode :
    (f : ParsedFrame) (ys : Bytes) (empty : ℕ)
    → IsSendable f
    → next_frame (encode f ++ ys) 0 empty ≡ frame (length (encode_body f))
unfolding next_frame
next_frame-encode f ys empty v =
    rw (frame_len_at-encode (encode_body f) ys v.encodable.short)
      (classify_whole _ _ empty (omega arith) v.within (omega (arith, length-append (encode f) ys)))

module _ {ℓ} {S : Type ℓ} (on_frame : Bytes → S → S) where
  receive_all-receive :
      (chunks : List Bytes) (z : Bytes) (c : Client S)
      → receive_all on_frame chunks (receive on_frame z c) ≡ receive on_frame (z ++ concat chunks) c
  receive_all-receive [] z c = ap (λ b. receive on_frame b c) (sym (append-nil z))
  receive_all-receive (x ∷ chunks) z c =
      ap (receive_all on_frame chunks) (receive-append on_frame z x c)
      ∙ receive_all-receive chunks (z ++ x) c
      ∙ ap (λ b. receive on_frame b c) (append_assoc z x (concat chunks))

  drain_all-encode :
      (f : ParsedFrame) (ys : Bytes) (empty : ℕ) (s : S)
      → IsSendable f
      → drain_all on_frame (encode f ++ ys) empty s
        ≡ drain_all on_frame ys 0 (on_frame (encode f) s)
  drain_all-encode f ys empty s v =
      round_of on_frame (encode f ++ ys) empty s _ (next_frame-encode f ys empty v)
      ∙ ap₂ (λ r b. drain_all on_frame r 0 (on_frame b s))
          (drop-length (4 + length (encode_body f)) (encode f) ys (omega arith))
          (take-length (4 + length (encode_body f)) (encode f) ys (omega arith))

  drain_all-encode_all :
      (fs : List ParsedFrame) (s : S)
      → All IsSendable fs
      → drain_all on_frame (encode_all fs) 0 s ≡ left [] 0 (hand_on on_frame fs s)
  unfolding drain
  drain_all-encode_all [] s v = refl
  drain_all-encode_all (f ∷ fs) s v =
      drain_all-encode f (encode_all fs) 0 s v.0
      ∙ drain_all-encode_all fs (on_frame (encode f) s) v.1

  -- A connection at its start, and between whole frames.
  abbrev pub between : S → Client S
  between s = record { buffer = []; empty_frame_count = 0; is_open = true; sink = s }

  -- However `recv` cuts up a stream of whole frames within the size limit, each frame is handed on
  -- once, in the order sent and as the bytes that encode it; the connection stays open, and its
  -- buffer ends empty.
  pub receive_all-encode_all :
      (fs : List ParsedFrame) (chunks : List Bytes) (s : S)
      → All IsSendable fs
      → concat chunks ≡ encode_all fs
      → receive_all on_frame chunks (between s) ≡ between (hand_on on_frame fs s)
  unfolding drain
  receive_all-encode_all fs chunks s v e =
      ap (receive_all on_frame chunks) (sym (receive-eq-settle on_frame [] (between s) refl))
      ∙ receive_all-receive chunks [] (between s)
      ∙ receive-eq-settle on_frame (concat chunks) (between s) refl
      ∙ ap (λ b. settle on_frame (between s) (drain_all on_frame b 0 s)) e
      ∙ ap (settle on_frame (between s)) (drain_all-encode_all fs s v)
