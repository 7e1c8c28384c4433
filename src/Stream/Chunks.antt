-- ===== src/Stream/Chunks.antt =====
-- How a byte stream is cut into `recv` chunks makes no difference to what the TCP server does.
use native.Mathlib.Nat.{le_refl}
use mathlib.Core.List.{append_assoc}
use event_stream_core.Common.{
  ℕ, zero, suc, ◌+◌, ◌≤◌, ◌≡◌, refl, sym, ap, ◌∙◌, ◌≢◌, inl, inr, true, false, [], ◌∷◌, ◌++◌, arith,
  if◌then◌else◌, Bool-cases, length, take, drop, length-drop, take-append, drop-append, Bytes,
}
use event_stream_core.Stream.{
  Next, wait, skip, too_many_empty, too_large, frame, next_frame, Scan, waiting, closed, Client,
  scan, after_scan, receive,
}
use event_stream_core.Stream.Drain.{
  Drained, left, refused, next_frame-frame, drain, at_offset, scan-eq-drain,
}
use event_stream_core.Stream.Rounds.{
  next_frame-append, next_frame_wait, next_frame-skip, next_frame-nil, compact-eq-drop,
}

module _ {ℓ} {S : Type ℓ} (on_frame : Bytes → S → S) where
  abbrev SameResult : ℕ → ℕ → Type ℓ
  SameResult f g =
      (rest : Bytes) (empty : ℕ) (s : S)
      → length rest ≤ f
      → length rest ≤ g
      → drain on_frame f rest empty s ≡ drain on_frame g rest empty s

  drain_fuel_round :
      (f g : ℕ) (rest : Bytes) (empty : ℕ) (s : S) (nx : Next)
      → next_frame rest 0 empty ≡ nx
      → SameResult f g
      → length rest ≤ suc f
      → length rest ≤ suc g
      → drain on_frame (suc f) rest empty s ≡ drain on_frame (suc g) rest empty s
  unfolding drain
  drain_fuel_round f g rest empty s (wait k) e ih hf hg = ground arith
  drain_fuel_round f g rest empty s (skip k) e ih hf hg =
      rw (e, drain)
        (ih (drop 4 rest) k s (omega (arith, length-drop 4 rest, next_frame-skip rest empty k e))
          (omega (arith, length-drop 4 rest, next_frame-skip rest empty k e)))
  drain_fuel_round f g rest empty s too_many_empty e ih hf hg = ground arith
  drain_fuel_round f g rest empty s too_large e ih hf hg = ground arith
  drain_fuel_round f g rest empty s (frame n) e ih hf hg =
      let facts = next_frame-frame rest 0 empty n e in
      rw (e, drain)
        (ih (drop (4 + n) rest) 0 _ (omega (arith, length-drop (4 + n) rest, facts))
          (omega (arith, length-drop (4 + n) rest, facts)))

  -- Any fuel that covers the unread bytes gives the same result.
  drain_fuel :
      (f g : ℕ) (rest : Bytes) (empty : ℕ) (s : S)
      → length rest ≤ f
      → length rest ≤ g
      → drain on_frame f rest empty s ≡ drain on_frame g rest empty s
  unfolding drain
  drain_fuel zero zero rest empty s hf hg = refl
  drain_fuel zero (suc g) [] empty s hf hg = ground (arith, next_frame-nil empty)
  drain_fuel zero (suc g) (x ∷ rest) empty s hf hg = absurd (omega arith)
  drain_fuel (suc f) zero [] empty s hf hg = ground (arith, next_frame-nil empty)
  drain_fuel (suc f) zero (x ∷ rest) empty s hf hg = absurd (omega arith)
  drain_fuel (suc f) (suc g) rest empty s hf hg =
      drain_fuel_round f g rest empty s _ refl (λ r k t a b. drain_fuel f g r k t a b) hf hg

  -- All frames of the unread bytes.
  abbrev pub drain_all : Bytes → ℕ → S → Drained S
  drain_all rest empty s = drain on_frame (length rest) rest empty s

  abbrev after_round : Bytes → S → Next → Drained S
  after_round rest s (wait k) = left rest k s
  after_round rest s (skip k) = drain_all (drop 4 rest) k s
  after_round rest s too_many_empty = refused s
  after_round rest s too_large = refused s
  after_round rest s (frame n) = drain_all (drop (4 + n) rest) 0 (on_frame (take (4 + n) rest) s)

  drain_all_lem :
      (rest : Bytes) (empty : ℕ) (s : S)
      → drain_all rest empty s ≡ after_round rest s (next_frame rest 0 empty)
  unfolding drain
  drain_all_lem [] empty s = ground (arith, next_frame-nil empty)
  drain_all_lem (x ∷ rest) empty s = round (next_frame (x ∷ rest) 0 empty) refl
    where
      round :
          (nx : Next)
          → next_frame (x ∷ rest) 0 empty ≡ nx
          → drain_all (x ∷ rest) empty s ≡ after_round (x ∷ rest) s nx
      round (wait k) e = ground arith
      round (skip k) e =
          rw (e, drain)
            (drain_fuel _ _ (drop 4 (x ∷ rest)) k s
              (omega (arith, length-drop 4 (x ∷ rest), next_frame-skip _ empty k e)) (le_refl _))
      round too_many_empty e = ground arith
      round too_large e = ground arith
      round (frame n) e =
          rw (e, drain)
            (drain_fuel _ _ (drop (4 + n) (x ∷ rest)) 0 _
              (omega (arith, length-drop (4 + n) (x ∷ rest), next_frame-frame _ 0 empty n e))
              (le_refl _))

  abbrev pub resume : Bytes → Drained S → Drained S
  resume ys (left rest empty s) = drain_all (rest ++ ys) empty s
  resume ys (refused s) = refused s

  pub round_of :
      (rest : Bytes) (empty : ℕ) (s : S) (nx : Next)
      → next_frame rest 0 empty ≡ nx
      → drain_all rest empty s ≡ after_round rest s nx
  round_of rest empty s nx e = drain_all_lem rest empty s ∙ ap (after_round rest s) e

  abbrev Resumes : ℕ → Bytes → Type ℓ
  Resumes f ys =
      (xs : Bytes) (empty : ℕ) (s : S)
      → length xs ≤ f
      → drain_all (xs ++ ys) empty s ≡ resume ys (drain_all xs empty s)

  -- A round that does not wait.
  append_round :
      (xs ys : Bytes) (empty : ℕ) (s : S) (nx : Next)
      → next_frame xs 0 empty ≡ nx
      → ((k : ℕ) → nx ≢ wait k)
      → after_round (xs ++ ys) s nx ≡ resume ys (after_round xs s nx)
      → drain_all (xs ++ ys) empty s ≡ resume ys (drain_all xs empty s)
  append_round xs ys empty s nx e moves rest =
      round_of (xs ++ ys) empty s nx
        (next_frame-append xs ys empty (λ k w. moves k (sym e ∙ w)) ∙ e)
      ∙ rest
      ∙ ap (resume ys) (sym (round_of xs empty s nx e))

  append_cases :
      (f : ℕ) (xs ys : Bytes) (empty : ℕ) (s : S) (nx : Next)
      → next_frame xs 0 empty ≡ nx
      → Resumes f ys
      → length xs ≤ suc f
      → drain_all (xs ++ ys) empty s ≡ resume ys (drain_all xs empty s)
  append_cases f xs ys empty s (wait k) e ih h =
      drain_all_lem (xs ++ ys) empty s
      ∙ ap (after_round (xs ++ ys) s) (sym (next_frame_wait xs ys empty k e))
      ∙ sym (drain_all_lem (xs ++ ys) k s)
      ∙ ap (resume ys) (sym (round_of xs empty s (wait k) e))
  append_cases f xs ys empty s (skip k) e ih h =
      let enough = next_frame-skip xs empty k e in
      append_round xs ys empty s _ e (λ j w. cc)
        (rw (drop-append 4 xs ys enough) (ih (drop 4 xs) k s (omega (arith, length-drop 4 xs))))
  append_cases f xs ys empty s too_many_empty e ih h =
      append_round xs ys empty s _ e (λ j w. cc) refl
  append_cases f xs ys empty s too_large e ih h = append_round xs ys empty s _ e (λ j w. cc) refl
  append_cases f xs ys empty s (frame n) e ih h =
      let (pos, small, fits) = next_frame-frame xs 0 empty n e in
      append_round xs ys empty s _ e (λ j w. cc)
        (rw (drop-append (4 + n) xs ys (omega arith), take-append (4 + n) xs ys (omega arith))
          (ih (drop (4 + n) xs) 0 _ (omega (arith, length-drop (4 + n) xs))))

  drain_all-append : (f : ℕ) (ys : Bytes) → Resumes f ys
  drain_all-append zero ys [] empty s h =
      ap (λ r. resume ys r) (sym (round_of [] empty s (wait empty) (next_frame-nil empty)))
  drain_all-append zero ys (x ∷ xs) empty s h = absurd (omega arith)
  drain_all-append (suc f) ys xs empty s h =
      append_cases f xs ys empty s _ refl (drain_all-append f ys) h

  -- The loop's state after a `recv`, from the plain description.
  abbrev pub settle : Client S → Drained S → Client S
  settle c (left rest empty s) = record c { buffer = rest; empty_frame_count = empty; sink = s }
  settle c (refused s) = record { buffer = []; empty_frame_count = 0; is_open = false; sink = s }

  after_scan-eq-settle :
      (buffer : Bytes) (c : Client S) (r : Scan S)
      → after_scan on_frame buffer c r ≡ settle c (at_offset on_frame buffer r)
  unfolding after_scan
  after_scan-eq-settle buffer c (waiting offset empty s) = rw (compact-eq-drop buffer offset)
  after_scan-eq-settle buffer c (closed s) = refl

  pub receive-eq-settle :
      (chunk : Bytes) (c : Client S)
      → c.is_open ≡ true
      → receive on_frame chunk c
        ≡ settle c (drain_all (c.buffer ++ chunk) c.empty_frame_count c.sink)
  unfolding receive
  receive-eq-settle chunk c o =
      let buffer = c.buffer ++ chunk in
      ap (λ b. if b then after_scan on_frame buffer c (scanned buffer) else c) o
      ∙ after_scan-eq-settle buffer c (scanned buffer)
      ∙ ap (settle c) (scan-eq-drain on_frame (length buffer) buffer 0 c.empty_frame_count c.sink)
    where
      scanned : Bytes → Scan S
      scanned buffer = scan on_frame (length buffer) buffer 0 c.empty_frame_count c.sink

  pub receive_closed :
      (chunk : Bytes) (c : Client S) → c.is_open ≡ false → receive on_frame chunk c ≡ c
  unfolding receive
  receive_closed chunk c o = rw o

  receive-settle :
      (ys : Bytes) (c : Client S) (d : Drained S)
      → c.is_open ≡ true
      → receive on_frame ys (settle c d) ≡ settle c (resume ys d)
  receive-settle ys c (left rest empty s) o =
      receive-eq-settle ys _ o ∙ again (drain_all (rest ++ ys) empty s)
    where
      again :
          (d : Drained S)
          → settle (record c { buffer = rest; empty_frame_count = empty; sink = s }) d ≡ settle c d
      again (left _ _ _) = refl
      again (refused _) = refl
  receive-settle ys c (refused s) o = receive_closed ys _ refl

  -- Two chunks, one after the other, leave the connection as their concatenation does: the frames
  -- handed on, their order, the count of empty frames and the decision to disconnect depend on the
  -- bytes alone, not on how `recv` cuts them up.
  pub receive-append :
      (xs ys : Bytes) (c : Client S)
      → receive on_frame ys (receive on_frame xs c) ≡ receive on_frame (xs ++ ys) c
  receive-append xs ys c = elim (Bool-cases c.is_open) [
    | inl o ↦
        rw (receive-eq-settle xs c o, receive-eq-settle (xs ++ ys) c o)
          (receive-settle ys c _ o
            ∙ ap (settle c) (
                sym (drain_all-append _ ys (c.buffer ++ xs) c.empty_frame_count c.sink (le_refl _))
                ∙ ap (λ b. drain_all b c.empty_frame_count c.sink) (append_assoc c.buffer xs ys)))
    | inr o ↦ rw (receive_closed xs c o, receive_closed ys c o, receive_closed (xs ++ ys) c o)
  ]
