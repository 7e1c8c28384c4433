-- ===== src/Stream/Drain.antt =====
-- The loop of `Stream` described by the bytes not yet read, with no offset.
use event_stream_core.Common.{
  ℕ, zero, suc, ◌+◌, ◌≤◌, ◌<◌, ◌≡◌, refl, ap, inl, inr, arith, ltb, ltb→lt, ltb→le, Bool-cases,
  length, take, drop, length-drop, drop-drop, get_or-drop, Bytes, u32,
}
use event_stream_core.Stream.{
  max_buffer_size, Next, frame_len_at, classify, next_frame, Scan, scan, wait, skip, too_many_empty,
  too_large, frame, waiting, closed,
}

pub data Drained {ℓ} (S : Type ℓ) : Type ℓ where
  left : Bytes → ℕ → S → Drained S
  refused : S → Drained S

frame_len_at-drop :
    (buffer : Bytes) (offset : ℕ) → frame_len_at (drop offset buffer) 0 ≡ frame_len_at buffer offset
unfolding frame_len_at
frame_len_at-drop buffer offset = ground (
  arith,
  get_or-drop offset 0 buffer 0,
  get_or-drop offset 1 buffer 0,
  get_or-drop offset 2 buffer 0,
  get_or-drop offset 3 buffer 0,
)

-- The offset loop reads at the offset what it would read at the front of the unread bytes.
next_frame-drop :
    (buffer : Bytes) (offset empty : ℕ)
    → next_frame (drop offset buffer) 0 empty ≡ next_frame buffer offset empty
unfolding next_frame
next_frame-drop buffer offset empty =
    rw (frame_len_at-drop buffer offset, length-drop offset buffer)
      (ap (λ k. classify k (frame_len_at buffer offset) empty) (omega arith))

-- What the guards let through is a whole frame within the limit.
pub classify-frame :
    (remaining frame_len empty n : ℕ)
    → classify remaining frame_len empty ≡ frame n
    → (n ≡ frame_len) × (0 < n) × (n ≤ max_buffer_size) × (4 + n ≤ remaining)
unfolding classify
classify-frame remaining frame_len empty n h = ground arith

pub classify-skip :
    (remaining frame_len empty n : ℕ)
    → classify remaining frame_len empty ≡ skip n
    → (4 ≤ remaining) × (frame_len ≡ 0) × (n ≡ empty + 1)
unfolding classify
classify-skip remaining frame_len empty n h = ground arith

-- Past the end of the buffer nothing is left to read.
classify_end :
    (remaining frame_len empty : ℕ)
    → remaining ≡ 0
    → classify remaining frame_len empty ≡ wait empty
unfolding classify
classify_end remaining frame_len empty h = ground arith

pub next_frame_end :
    (buffer : Bytes) (offset empty : ℕ)
    → length buffer ≤ offset
    → next_frame buffer offset empty ≡ wait empty
unfolding next_frame
next_frame_end buffer offset empty h = classify_end _ _ empty (omega arith)

pub next_frame-frame :
    (buffer : Bytes) (offset empty n : ℕ)
    → next_frame buffer offset empty ≡ frame n
    → (0 < n) × (n ≤ max_buffer_size) × (offset + 4 + n ≤ length buffer)
unfolding next_frame
next_frame-frame buffer offset empty n h = ground (arith, classify-frame _ _ empty n h)

module _ {ℓ} {S : Type ℓ} (on_frame : Bytes → S → S) where
  -- Frames are taken off the front until the rest holds none, or the connection is refused.
  unfoldable pub drain : ℕ → Bytes → ℕ → S → Drained S
  drain zero rest empty s = left rest empty s
  drain (suc fuel) rest empty s = elim (next_frame rest 0 empty) [
    | wait empty' ↦ left rest empty' s
    | skip empty' ↦ drain fuel (drop 4 rest) empty' s
    | too_many_empty ↦ refused s
    | too_large ↦ refused s
    | frame n ↦ drain fuel (drop (4 + n) rest) 0 (on_frame (take (4 + n) rest) s)
  ]

  abbrev pub at_offset : Bytes → Scan S → Drained S
  at_offset buffer (waiting offset empty s) = left (drop offset buffer) empty s
  at_offset buffer (closed s) = refused s

  abbrev Agrees : ℕ → Bytes → Type ℓ
  Agrees fuel buffer =
      (offset empty : ℕ) (s : S)
      → at_offset buffer (scan on_frame fuel buffer offset empty s)
        ≡ drain fuel (drop offset buffer) empty s

  scan_round :
      (fuel : ℕ) (buffer : Bytes) (offset empty : ℕ) (s : S) (nx : Next)
      → offset < length buffer
      → next_frame buffer offset empty ≡ nx
      → Agrees fuel buffer
      → at_offset buffer (scan on_frame (suc fuel) buffer offset empty s)
        ≡ drain (suc fuel) (drop offset buffer) empty s
  unfolding scan drain
  scan_round fuel buffer offset empty s (wait k) inside e ih =
      ground (arith, next_frame-drop buffer offset empty)
  scan_round fuel buffer offset empty s (skip k) inside e ih =
      ground
        (arith, next_frame-drop buffer offset empty, ih (offset + 4) k s, drop-drop offset 4 buffer)
  scan_round fuel buffer offset empty s too_many_empty inside e ih =
      ground (arith, next_frame-drop buffer offset empty)
  scan_round fuel buffer offset empty s too_large inside e ih =
      ground (arith, next_frame-drop buffer offset empty)
  scan_round fuel buffer offset empty s (frame n) inside e ih =
      let (pos, small, fits) = next_frame-frame buffer offset empty n e in
      let total : u32 (4 + n) ≡ 4 + n = omega arith in
      ground (
        arith,
        next_frame-drop buffer offset empty,
        total,
        ih (offset + (4 + n)) 0 (on_frame (take (4 + n) (drop offset buffer)) s),
        drop-drop offset (4 + n) buffer,
      )

  -- The offset loop does what the plain description does on the unread bytes.
  pub scan-eq-drain : (fuel : ℕ) (buffer : Bytes) → Agrees fuel buffer
  unfolding scan drain
  scan-eq-drain zero buffer offset empty s = refl
  scan-eq-drain (suc fuel) buffer offset empty s = elim (Bool-cases (ltb offset (length buffer))) [
    | inl inside ↦
        scan_round fuel buffer offset empty s _ (ltb→lt _ _ inside) refl (scan-eq-drain fuel buffer)
    | inr past ↦ ground (
      arith,
      next_frame-drop buffer offset empty,
      next_frame_end buffer offset empty (ltb→le _ _ past),
    )
  ]
