-- ===== src/Stream/Tests.antt =====
-- A connection that collects its frames, fed in awkward chunks.
use event_stream_core.Common.{
  ◌≡◌, refl, true, false, List, [], ◌∷◌, arith, replicate, All, Bytes, codes,
}
use event_stream_core.Event.{EventPriority}
use event_stream_core.Frame.{ParsedFrame}
use event_stream_core.Stream.{frame_len_at, classify, next_frame, compact, Client, scan, receive}
use event_stream_core.Stream.Chunks.{receive-append}
use event_stream_core.Stream.Frames.{IsSendable}

abbrev collect : Bytes → List Bytes → List Bytes
collect b s = b ∷ s

abbrev ping : ParsedFrame
ping = record { priority = EventPriority.low; topic = codes "p"; payload = 9 ∷ [] }

abbrev pong : ParsedFrame
pong = record { priority = EventPriority.critical; topic = codes "qq"; payload = [] }

abbrev chunks : List Bytes
chunks =
    (0 ∷ 0 ∷ [])
    ∷ (0 ∷ 5 ∷ 1 ∷ 0 ∷ 1 ∷ 112 ∷ 9 ∷ 0 ∷ 0 ∷ 0 ∷ [])
    ∷ (5 ∷ 4 ∷ 0 ∷ 2 ∷ 113 ∷ [])
    ∷ (113 ∷ [])
    ∷ []

abbrev fresh : Client (List Bytes)
fresh = record { buffer = []; empty_frame_count = 0; is_open = true; sink = [] }

both-IsSendable : All IsSendable (ping ∷ pong ∷ [])
both-IsSendable = omega arith

-- Eleven empty frames in a row, and the connection is closed.
flood_closes : (receive collect (replicate 44 0) fresh).is_open ≡ false
unfolding receive scan next_frame classify frame_len_at
flood_closes = refl

ten_are_skipped : receive collect (replicate 40 0) fresh ≡ record fresh { empty_frame_count = 10 }
unfolding receive scan next_frame classify frame_len_at compact
ten_are_skipped = refl

receive-append_example :
    receive collect (0 ∷ []) (receive collect (0 ∷ 0 ∷ 0 ∷ []) fresh)
    ≡ receive collect (0 ∷ 0 ∷ 0 ∷ 0 ∷ []) fresh
receive-append_example = receive-append collect (0 ∷ 0 ∷ 0 ∷ []) (0 ∷ []) fresh
