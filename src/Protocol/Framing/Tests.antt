-- ===== src/Protocol/Framing/Tests.antt =====
-- Runs of the decoder on a stream of two frames, a login and a heartbeat.
use gps_tracking.Prelude.{◌≡◌, inl, refl, some, List, [], ◌∷◌, arith}
use mathlib.Core.List.{flatten}
use gps_tracking.Protocol.Bytes.{Bytes}
use gps_tracking.Protocol.Framing.{Frame, FrameDecoder, feed}
use gps_tracking.Protocol.Framing.Drain.{decoder}
use gps_tracking.Protocol.Framing.Chunks.{feed_all, feed_total, feed_all-flatten}
use gps_tracking.Protocol.Framing.Wire.{short_wire, AllWires, feed_all-stream}
use gps_tracking.Protocol.Codec.Build.RoundTrip.{built_frame}

abbrev login : Frame
login = built_frame 0x01 1 (0x03 ∷ 0x51 ∷ 0x60 ∷ 0x80 ∷ 0x80 ∷ 0x77 ∷ 0x92 ∷ 0x88 ∷ [])

abbrev heartbeat : Frame
heartbeat = built_frame 0x13 2 (0x44 ∷ 0x04 ∷ 0x03 ∷ 0x00 ∷ 0x01 ∷ [])

abbrev two_frames : List (Bytes × Frame)
two_frames = (short_wire login, login) ∷ (short_wire heartbeat, heartbeat) ∷ []

two_frames-AllWires : AllWires two_frames
two_frames-AllWires =
    (inl ((omega arith, refl, refl), refl), (inl ((omega arith, refl, refl), refl), tt))

abbrev empty : FrameDecoder
empty = decoder [] 4096 0

feed_total_example :
    (frames : List Frame) × (d' : FrameDecoder) × (feed empty (0x78 ∷ 0x78 ∷ 0x05 ∷ [])
      ≡ some (frames, d'))
feed_total_example = feed_total empty (0x78 ∷ 0x78 ∷ 0x05 ∷ [])

feed_all-flatten_example :
    feed_all empty ((0x78 ∷ []) ∷ (0x78 ∷ 0x05 ∷ []) ∷ []) ≡ feed empty (0x78 ∷ 0x78 ∷ 0x05 ∷ [])
unfolding flatten
feed_all-flatten_example =
    feed_all-flatten empty (0x78 ∷ []) ((0x78 ∷ 0x05 ∷ []) ∷ []) (omega arith)

feed_all-stream_example :
    feed_all empty (short_wire login ∷ short_wire heartbeat ∷ [])
    ≡ some (login ∷ heartbeat ∷ [], empty)
unfolding flatten
feed_all-stream_example =
    feed_all-stream 4096 0 two_frames (short_wire login) (short_wire heartbeat ∷ [])
      two_frames-AllWires refl (omega arith)
