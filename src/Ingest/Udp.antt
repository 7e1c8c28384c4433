-- ===== src/Ingest/Udp.antt =====
-- src/core/ingest/udp.cpp: one turn of `receiveLoop`.
use event_stream_core.Common.{
  ℕ, ◌+◌, ◌-◌, ◌^◌, ◌≤◌, ◌<◌, ◌≡◌, refl, ◌≢◌, false, ◌||◌, Option, none, some, [], ◌∷◌, ◌++◌, arith,
  ltb, ◌==◌, if◌then◌else◌, length, get_or, drop, length-append, length-drop, Bytes, u32, u64,
}
use event_stream_core.Event.{EventSourceType}
use event_stream_core.Frame.{ParsedFrame, Parse, ok, err, fault, be16, be32, parse_frame_body}
use event_stream_core.Frame.Safety.{parse_frame_body_in_bounds, parse_frame_body_beyond}
use event_stream_core.Ingest.{Server, hand_on}

pub record UdpServer : Type 0 where
  pub server : Server
  pub recv_buffer : Bytes
  pub total_datagrams_received : ℕ
  pub total_parse_errors : ℕ

-- What `recvfrom` gives: an error or nothing, or the bytes that it wrote to the buffer's front, and
-- the sender.
pub data Received : Type 0 where
  nothing : Received
  datagram : Bytes → Bytes → Received

-- The server after a turn; `none` where `parseFrameBody` reads outside the buffer.
unfoldable pub after_parse : (ℕ → ℕ) → Bytes → UdpServer → Parse ParsedFrame → Option UdpServer
after_parse clock client_address s (ok f) =
    some (record s { server = hand_on EventSourceType.udp clock client_address f s.server })
after_parse clock client_address s (err e) =
    some (record s { total_parse_errors = u64 (s.total_parse_errors + 1) })
after_parse clock client_address s fault = none

-- The guards. `4 + frameLen` is a `uint32_t`.
unfoldable pub handle_datagram : (ℕ → ℕ) → Bytes → ℕ → UdpServer → Option UdpServer
unfolding after_parse
handle_datagram clock client_address bytes_received s =
    let frame_len =
      be32 (get_or s.recv_buffer 0 0) (get_or s.recv_buffer 1 0) (get_or s.recv_buffer 2 0)
        (get_or s.recv_buffer 3 0) in
    if ltb bytes_received 8
    then some (record s { total_parse_errors = u64 (s.total_parse_errors + 1) })
    else if frame_len == 0 || ltb bytes_received (u32 (4 + frame_len))
    then some (record s { total_parse_errors = u64 (s.total_parse_errors + 1) })
    else after_parse clock client_address s (parse_frame_body (drop 4 s.recv_buffer) frame_len)

unfoldable pub receive : (ℕ → ℕ) → Received → UdpServer → Option UdpServer
receive clock nothing s = some s
receive clock (datagram [] client_address) s = some s
receive clock (datagram (b ∷ bytes) client_address) s =
    handle_datagram clock client_address (length (b ∷ bytes)) (record s {
      recv_buffer = (b ∷ bytes) ++ drop (length (b ∷ bytes)) s.recv_buffer;
      total_datagrams_received = u64 (s.total_datagrams_received + 1);
    })

after_parse_some :
    (clock : ℕ → ℕ) (sender : Bytes) (s : UdpServer) (r : Parse ParsedFrame)
    → r ≢ fault
    → after_parse clock sender s r ≢ none
unfolding after_parse
after_parse_some clock sender s (ok f) h e = cc
after_parse_some clock sender s (err x) h e = cc
after_parse_some clock sender s fault h e = h refl

abbrev declared : UdpServer → ℕ
declared s =
    be32 (get_or s.recv_buffer 0 0) (get_or s.recv_buffer 1 0) (get_or s.recv_buffer 2 0)
      (get_or s.recv_buffer 3 0)

handle_datagram_in_bounds :
    (clock : ℕ → ℕ) (sender : Bytes) (n : ℕ) (s : UdpServer)
    → n ≤ length s.recv_buffer
    → declared s + 4 < 2 ^ 32
    → handle_datagram clock sender n s ≢ none
unfolding handle_datagram
handle_datagram_in_bounds clock sender n s inside small = ground (
  arith,
  length-drop 4 s.recv_buffer,
  parse_frame_body_in_bounds (drop 4 s.recv_buffer) (declared s),
  after_parse_some clock sender s (parse_frame_body (drop 4 s.recv_buffer) (declared s)),
)

-- A datagram of four bytes or more makes the parser read outside the receive buffer only if the
-- length that it declares is 2^32 - 4 or more.
pub receive_in_bounds :
    (clock : ℕ → ℕ) (a b c d : ℕ) (bytes sender : Bytes) (s : UdpServer)
    → be32 a b c d + 4 < 2 ^ 32
    → receive clock (datagram (a ∷ b ∷ c ∷ d ∷ bytes) sender) s ≢ none
unfolding receive
receive_in_bounds clock a b c d bytes sender s small =
    handle_datagram_in_bounds clock sender (length (a ∷ b ∷ c ∷ d ∷ bytes)) _
      (omega (arith, length-append bytes (drop (length (a ∷ b ∷ c ∷ d ∷ bytes)) s.recv_buffer)))
      small

handle_datagram_wrapped :
    (clock : ℕ → ℕ) (sender : Bytes) (n : ℕ) (s : UdpServer)
    → 8 ≤ n
    → 2 ^ 32 - 4 ≤ declared s
    → declared s < 2 ^ 32
    → parse_frame_body (drop 4 s.recv_buffer) (declared s) ≡ fault
    → handle_datagram clock sender n s ≡ none
unfolding handle_datagram after_parse
handle_datagram_wrapped clock sender n s long low high e =
    let wrap : u32 (4 + declared s) < 4 = omega arith in
    let positive : (declared s == 0) ≡ false = ground arith in
    let passes : ltb n (u32 (4 + declared s)) ≡ false = ground arith in
    let enough : ltb n 8 ≡ false = ground arith in rw (enough, positive, passes, e)

-- A declared length of 2^32 - 4 or more passes the guard, since `4 + frameLen` wraps to almost nothing;
-- where a priority up to 4 follows, and a topic that lies in the datagram and is not empty, and the
-- buffer is shorter than 2^31 bytes, the payload is then read outside the buffer.
pub receive_wrapped :
    (clock : ℕ → ℕ) (sender : Bytes) (c p h l : ℕ) (rest : Bytes) (s : UdpServer)
    → 0xFC ≤ c
    → c < 256
    → p ≤ 4
    → 0 < be16 h l
    → be16 h l ≤ length rest
    → 1 ≤ length rest
    → length rest + 7 + length s.recv_buffer < 2 ^ 31
    → receive clock (datagram (255 ∷ 255 ∷ 255 ∷ c ∷ p ∷ h ∷ l ∷ rest) sender) s ≡ none
unfolding receive
receive_wrapped clock sender c p h l rest s c_low c_byte p_ok topic_pos topic_in one small =
    let kept = drop (length (255 ∷ 255 ∷ 255 ∷ c ∷ p ∷ h ∷ l ∷ rest)) s.recv_buffer in
    handle_datagram_wrapped clock sender (length (255 ∷ 255 ∷ 255 ∷ c ∷ p ∷ h ∷ l ∷ rest)) _
      (omega arith) (omega arith) (omega arith)
      (parse_frame_body_beyond p h l (rest ++ kept) (be32 255 255 255 c) p_ok topic_pos
        (omega (arith, length-append rest kept))
        (omega (
          arith,
          length-append rest kept,
          length-drop (length (255 ∷ 255 ∷ 255 ∷ c ∷ p ∷ h ∷ l ∷ rest)) s.recv_buffer,
        )))
