-- ===== src/Stream/Rounds.antt =====
-- One round of the TCP receive loop when more bytes stand behind those it reads.
use event_stream_core.Common.{
  ℕ, zero, suc, ◌≤◌, ◌≡◌, refl, ◌≢◌, [], ◌∷◌, ◌++◌, arith, length, drop, length-append, drop_all,
  get_or-append, Bytes,
}
use event_stream_core.Stream.{wait, skip, frame_len_at, classify, next_frame, compact}
use event_stream_core.Stream.Drain.{classify-skip, next_frame_end}

frame_len_at-append :
    (xs ys : Bytes) → 4 ≤ length xs → frame_len_at (xs ++ ys) 0 ≡ frame_len_at xs 0
unfolding frame_len_at
frame_len_at-append xs ys h = ground (
  arith,
  get_or-append 0 xs ys 0,
  get_or-append 1 xs ys 0,
  get_or-append 2 xs ys 0,
  get_or-append 3 xs ys 0,
)

-- More bytes change nothing about a round that has enough of them.
pub next_frame-append :
    (xs ys : Bytes) (empty : ℕ)
    → ((k : ℕ) → next_frame xs 0 empty ≢ wait k)
    → next_frame (xs ++ ys) 0 empty ≡ next_frame xs 0 empty
unfolding next_frame classify
next_frame-append xs ys empty h =
    ground (arith, frame_len_at-append xs ys, length-append xs ys, h empty, h 0)

-- A round that waits has done nothing but, perhaps, reset the count that it would reset again.
pub next_frame_wait :
    (xs ys : Bytes) (empty k : ℕ)
    → next_frame xs 0 empty ≡ wait k
    → next_frame (xs ++ ys) 0 k ≡ next_frame (xs ++ ys) 0 empty
unfolding next_frame classify
next_frame_wait xs ys empty k h = ground (arith, frame_len_at-append xs ys, length-append xs ys)

pub next_frame-skip : (xs : Bytes) (empty k : ℕ) → next_frame xs 0 empty ≡ skip k → 4 ≤ length xs
unfolding next_frame
next_frame-skip xs empty k h = ground (arith, classify-skip _ _ empty k h)

pub next_frame-nil : (empty : ℕ) → next_frame [] 0 empty ≡ wait empty
next_frame-nil empty = next_frame_end [] 0 empty (omega arith)

pub compact-eq-drop : (buffer : Bytes) (offset : ℕ) → compact buffer offset ≡ drop offset buffer
unfolding compact
compact-eq-drop [] zero = refl
compact-eq-drop (x ∷ buffer) zero = ground arith
compact-eq-drop buffer (suc offset) = ground (arith, drop_all (suc offset) buffer)
