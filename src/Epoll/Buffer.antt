-- ===== src/Epoll/Buffer.antt =====
-- The epoll server's framing loop beside the TCP server's.
use event_stream_core.Common.{
  ℕ, zero, suc, ◌+◌, ◌≡◌, refl, ap, ap₂, subst, ◌∙◌, inl, inr, true, false, List, [], ◌∷◌, ◌++◌,
  arith, ltb, Bool-cases, length, take, drop, Bytes, u32,
}
use event_stream_core.Stream.{
  Next, skip, frame, next_frame, Scan, waiting, closed, Client, scan, after_scan, receive,
}
use event_stream_core.Stream.Chunks.{receive_closed}
use event_stream_core.Stream.Frames.{receive_all}
use event_stream_core.Epoll.{
  ConnectionState, Scanned, kept, cleared, scan_buffer, after_scan_buffer, process_buffer,
  drain_socket,
}

module _ {ℓ} {S : Type ℓ} (on_frame : Bytes → Bytes → S → S) where
  abbrev as_scan : Scanned S → Scan S
  as_scan (kept offset empty s) = waiting offset empty s
  as_scan (cleared empty s) = closed s

  abbrev Alike : ℕ → Bytes → Bytes → Type ℓ
  Alike fuel address buffer =
      (offset empty : ℕ) (s : S)
      → as_scan (scan_buffer on_frame address fuel buffer offset empty s)
        ≡ scan (on_frame address) fuel buffer offset empty s

  scan_buffer_round :
      (fuel : ℕ) (address buffer : Bytes) (offset empty : ℕ) (s : S) (nx : Next)
      → next_frame buffer offset empty ≡ nx
      → Alike fuel address buffer
      → ltb offset (length buffer) ≡ true
      → as_scan (scan_buffer on_frame address (suc fuel) buffer offset empty s)
        ≡ scan (on_frame address) (suc fuel) buffer offset empty s
  unfolding scan_buffer scan
  scan_buffer_round fuel address buffer offset empty s (frame n) e ih inside = ground (
    arith,
    ih (offset + u32 (4 + n)) 0 (on_frame address (take (u32 (4 + n)) (drop offset buffer)) s),
  )
  scan_buffer_round fuel address buffer offset empty s (skip k) e ih inside =
      ground (arith, ih (offset + 4) k s)
  scan_buffer_round fuel address buffer offset empty s nx e ih inside = ground arith

  scan_buffer-scan : (fuel : ℕ) (address buffer : Bytes) → Alike fuel address buffer
  unfolding scan_buffer scan
  scan_buffer-scan zero address buffer offset empty s = refl
  scan_buffer-scan (suc fuel) address buffer offset empty s =
      elim (Bool-cases (ltb offset (length buffer))) [
        | inl inside ↦
            scan_buffer_round fuel address buffer offset empty s _ refl
              (scan_buffer-scan fuel address buffer) inside
        | inr past ↦ ground arith
      ]

  -- A connection as the TCP server's thread would hold it.
  abbrev pub client_of : ConnectionState → S → Client S
  client_of state s = record {
    buffer = state.buffer;
    empty_frame_count = state.empty_frame_count;
    is_open = true;
    sink = s;
  }

  -- A connection that the TCP server keeps open is in its state; of one that it closes, the frames
  -- handed on are its frames and the buffer is empty.
  abbrev pub Follows : Bytes → ConnectionState × S → Client S → Type ℓ
  Follows address (state, s) c =
      (state.client_address ≡ address)
      × (s ≡ c.sink)
      × (c.is_open ≡ true → client_of state s ≡ c)
      × (c.is_open ≡ false → state.buffer ≡ [])

  after_scan_buffer-Follows :
      (state : ConnectionState) (c : Client S) (r : Scanned S)
      → c.is_open ≡ true
      → Follows state.client_address
          (after_scan_buffer state r)
          (after_scan (on_frame state.client_address) state.buffer c (as_scan r))
  unfolding after_scan_buffer after_scan
  after_scan_buffer-Follows state c (kept offset empty s) o =
      (refl, refl, λ _. ground arith, λ shut. cc)
  after_scan_buffer-Follows state c (cleared empty s) o = (refl, refl, λ open_. cc, λ _. refl)

  pub process_buffer-Follows :
      (chunk : Bytes) (state : ConnectionState) (s : S)
      → Follows state.client_address
          (process_buffer on_frame (record state { buffer = state.buffer ++ chunk }) s)
          (receive (on_frame state.client_address) chunk (client_of state s))
  unfolding process_buffer receive
  process_buffer-Follows chunk state s =
      let buffer = state.buffer ++ chunk in
      let address = state.client_address in
      let empty = state.empty_frame_count in
      subst
        (λ r.
          Follows address (process_buffer on_frame (record state { buffer = buffer }) s)
            (after_scan (on_frame address) buffer (client_of state s) r))
        (scan_buffer-scan (length buffer) address buffer 0 empty s)
        (after_scan_buffer-Follows (record state { buffer = buffer }) (client_of state s)
          (scan_buffer on_frame address (length buffer) buffer 0 empty s) refl)

  keeps_following :
      (chunks : List Bytes) (state : ConnectionState) (s : S) (r : ConnectionState × S)
      (c : Client S)
      → Follows state.client_address r c
      → c.is_open ≡ true
      → ((state' : ConnectionState) (s' : S)
          → (receive_all (on_frame state'.client_address) chunks (client_of state' s')).is_open
            ≡ true
          → client_of
              (drain_socket on_frame chunks state' s').0
              (drain_socket on_frame chunks state' s').1
            ≡ receive_all (on_frame state'.client_address) chunks (client_of state' s'))
      → (receive_all (on_frame state.client_address) chunks c).is_open ≡ true
      → client_of (drain_socket on_frame chunks r.0 r.1).0 (drain_socket on_frame chunks r.0 r.1).1
        ≡ receive_all (on_frame state.client_address) chunks c
  keeps_following chunks state s (state', s') c (same, sunk, opened, shut) o ih last =
      let e = opened o in
      subst
        (λ b.
          client_of (drain_socket on_frame chunks state' s').0
            (drain_socket on_frame chunks state' s').1
          ≡ receive_all (on_frame state.client_address) chunks b)
        e
        (subst
          (λ a.
            client_of (drain_socket on_frame chunks state' s').0
              (drain_socket on_frame chunks state' s').1
            ≡ receive_all (on_frame a) chunks (client_of state' s'))
          same
          (ih state' s' (ap₂ (λ a b. (receive_all (on_frame a) chunks b).is_open) same e ∙ last)))

  stays_shut :
      (address : Bytes) (chunks : List Bytes) (c : Client S)
      → c.is_open ≡ false
      → (receive_all (on_frame address) chunks c).is_open ≡ false
  stays_shut address [] c o = o
  stays_shut address (x ∷ chunks) c o =
      ap (λ b. (receive_all (on_frame address) chunks b).is_open)
        (receive_closed (on_frame address) x c o)
      ∙ stays_shut address chunks c o

  pub drain_socket_address :
      (chunks : List Bytes) (state : ConnectionState) (s : S)
      → (drain_socket on_frame chunks state s).0.client_address ≡ state.client_address
  unfolding drain_socket
  drain_socket_address [] state s = refl
  drain_socket_address (x ∷ chunks) state s =
      let (state', s') = process_buffer on_frame (record state { buffer = state.buffer ++ x }) s in
      drain_socket_address chunks state' s' ∙ (process_buffer-Follows x state s).0

  -- If the TCP server keeps a connection open through the chunks that `recv` gives, the epoll server
  -- ends with the same unread bytes, count of empty frames and frames handed on.
  pub drain_socket-receive_all :
      (chunks : List Bytes) (state : ConnectionState) (s : S)
      → (receive_all (on_frame state.client_address) chunks (client_of state s)).is_open ≡ true
      → client_of (drain_socket on_frame chunks state s).0 (drain_socket on_frame chunks state s).1
        ≡ receive_all (on_frame state.client_address) chunks (client_of state s)
  unfolding drain_socket
  drain_socket-receive_all [] state s open_ = refl
  drain_socket-receive_all (x ∷ chunks) state s open_ =
      let c = receive (on_frame state.client_address) x (client_of state s) in
      elim (Bool-cases c.is_open) [
        | inl o ↦
            keeps_following chunks state s
              (process_buffer on_frame (record state { buffer = state.buffer ++ x }) s) c
              (process_buffer-Follows x state s) o (drain_socket-receive_all chunks) open_
        | inr o ↦ absurd (ground (arith, stays_shut state.client_address chunks c o))
      ]
