-- ===== src/Protocol/Framing/Wire.antt =====
-- The bytes of one frame on the wire, and what `feed` makes of them.
use gps_tracking.Prelude.{
  ℕ, ◌+◌, ◌-◌, ◌*◌, ◌/◌, ◌%◌, ◌≤◌, ◌<◌, ◌≡◌, refl, sym, ap, ◌∙◌, ◌⊎◌, inl, inr, true, false, some,
  List, [], ◌∷◌, ◌++◌, length, take, drop, slice, ltb, arith, ==_refl, length-append,
  take-append_right, drop-append_right, get_or-append_right,
}
use mathlib.Core.List.{append-nil, append_assoc, flatten}
use gps_tracking.Protocol.Bytes.{Bytes, byte_at, u16_at, pack_u16}
use gps_tracking.Protocol.Constants.{stop_bits}
use gps_tracking.Protocol.Crc.{crc16_itu}
use gps_tracking.Protocol.Framing.{
  Frame, FrameDecoder, good, bytes_eq, resync, check_frame, scan_content, scan_length, scan, feed,
}
use gps_tracking.Protocol.Framing.Resync.{at_marker, resync-marker, resync-nil}
use gps_tracking.Protocol.Framing.Scan.{scan-no_marker}
use gps_tracking.Protocol.Framing.Drain.{decoder, Drains, stops, emits}
use gps_tracking.Protocol.Framing.Chunks.{
  feed_all, feed-Drains, guard_buffer-fits, feed_all-flatten,
}

-- The layout in gps_gateway/protocol/constants.py: `head` is the start marker with the length field.
abbrev pub tail_of : Frame → Bytes
tail_of f = (f.serial / 256) ∷ (f.serial % 256) ∷ (f.crc / 256) ∷ (f.crc % 256) ∷ 0x0d ∷ 0x0a ∷ []

abbrev pub layout : Bytes → Frame → Bytes
layout head f = (head ++ (f.protocol ∷ f.content)) ++ tail_of f

abbrev pub short_head : ℕ → Bytes
short_head len = 0x78 ∷ 0x78 ∷ len ∷ []

abbrev pub long_head : ℕ → Bytes
long_head len = 0x79 ∷ 0x79 ∷ (len / 256) ∷ (len % 256) ∷ []

-- What the length field counts.
abbrev pub field_length : Frame → ℕ
field_length f = length f.content + 5

-- What the checksum covers.
abbrev pub covered : Bytes → Frame → Bytes
covered length_field f = length_field ++ (f.protocol ∷ (f.content ++ pack_u16 f.serial))

-- A frame with a matching checksum, in the short layout or in the long one.
abbrev pub IsShort : Frame → Type 0
IsShort f =
    (field_length f < 256)
    × (f.crc ≡ crc16_itu (covered (field_length f ∷ []) f))
    × (f.crc_ok ≡ true)

abbrev pub IsLong : Frame → Type 0
IsLong f =
    (field_length f < 65536)
    × (f.crc ≡ crc16_itu (covered (pack_u16 (field_length f)) f))
    × (f.crc_ok ≡ true)

abbrev pub short_wire : Frame → Bytes
short_wire f = layout (short_head (field_length f)) f

abbrev pub long_wire : Frame → Bytes
long_wire f = layout (long_head (field_length f)) f

module _ (a b : ℕ) (field : Bytes) (f : Frame) where
  abbrev front : Bytes
  front = (a ∷ b ∷ field) ++ (f.protocol ∷ f.content)

  length-front : length front ≡ length field + 3 + length f.content
  length-front = omega (arith, length-append (a ∷ b ∷ field) (f.protocol ∷ f.content))

  abbrev head_len : ℕ
  head_len = 2 + length field

  abbrev len : ℕ
  len = field_length f

  abbrev body_end : ℕ
  body_end = head_len + len - 2

  abbrev trailer_at : ℕ
  trailer_at = head_len + len + 2 - 2 - 4

  abbrev raw : Bytes
  raw = layout (a ∷ b ∷ field) f

  body-raw : slice raw 2 body_end ≡ covered field f
  body-raw =
      ap (drop 2) (take-append_right front (tail_of f) body_end 2 (omega (arith, length-front)))
      ∙ ap (λ (t : Bytes). t ++ pack_u16 f.serial) refl
      ∙ append_assoc field (f.protocol ∷ f.content) (pack_u16 f.serial)

  protocol-raw : byte_at raw head_len ≡ f.protocol
  protocol-raw =
      ap (λ (t : Bytes). byte_at t head_len)
        (append_assoc (a ∷ b ∷ field) (f.protocol ∷ f.content) (tail_of f))
      ∙ get_or-append_right (a ∷ b ∷ field) _ head_len 0 0 (omega arith)

  tail-raw : (k i : ℕ) → k ≡ trailer_at + i → byte_at raw k ≡ byte_at (tail_of f) i
  tail-raw k i e = get_or-append_right front (tail_of f) k i 0 (omega (arith, length-front))

  serial-raw : u16_at raw trailer_at ≡ f.serial
  serial-raw = omega (arith, tail-raw trailer_at 0 (omega arith), tail-raw (trailer_at + 1) 1 refl)

  crc-raw : u16_at raw (trailer_at + 2) ≡ f.crc
  crc-raw =
      omega (arith, tail-raw (trailer_at + 2) 2 refl, tail-raw (trailer_at + 2 + 1) 3 (omega arith))

  content-raw : slice raw (head_len + 1) trailer_at ≡ f.content
  content-raw =
      ap (drop (head_len + 1)) (
        take-append_right front (tail_of f) trailer_at 0 (omega (arith, length-front))
        ∙ append-nil front)
      ∙ drop-append_right (a ∷ b ∷ field) (f.protocol ∷ f.content) (head_len + 1) 1 (omega arith)

  stop-raw : drop (head_len + len + 2 - 2) raw ≡ stop_bits
  stop-raw =
      drop-append_right front (tail_of f) (head_len + len + 2 - 2) 4 (omega (arith, length-front))

  length-raw : length raw ≡ head_len + len + 2
  length-raw = omega (arith, length-front, length-append front (tail_of f))

  check_frame-layout :
      (rest : Bytes)
      → f.crc ≡ crc16_itu (covered field f)
      → f.crc_ok ≡ true
      → check_frame head_len len raw rest ≡ good f rest
  unfolding check_frame
  check_frame-layout rest sum is_ok =
      rw (body-raw, protocol-raw, serial-raw, crc-raw, content-raw, ← sum, ==_refl f.crc, ← is_ok)
        refl

  pub scan_content-layout :
      (more : Bytes)
      → f.crc ≡ crc16_itu (covered field f)
      → f.crc_ok ≡ true
      → scan_content head_len len (raw ++ more) ≡ good f more
  unfolding scan_content
  scan_content-layout more sum is_ok =
      let plausible : ltb len 5 ≡ false = ground arith in
      let whole : ltb (length (raw ++ more)) (head_len + len + 2) ≡ false =
        ground (arith, length-append raw more, length-raw) in
      let prefix : take (head_len + len + 2) (raw ++ more) ≡ raw =
        take-append_right raw more (head_len + len + 2) 0 (omega (arith, length-raw))
        ∙ append-nil raw in
      let suffix : drop (head_len + len + 2) (raw ++ more) ≡ more =
        drop-append_right raw more (head_len + len + 2) 0 (omega (arith, length-raw)) in
      let stop : bytes_eq (drop (head_len + len + 2 - 2) raw) stop_bits ≡ true =
        ap (λ (t : Bytes). bytes_eq t stop_bits) stop-raw ∙ unfold bytes_eq in refl in
      rw (plausible, whole, prefix, suffix, stop) (check_frame-layout more sum is_ok)

short_scan : (f : Frame) (more : Bytes) → IsShort f → scan (short_wire f ++ more) ≡ good f more
unfolding scan scan_length bytes_eq
short_scan f more (fits, sum, is_ok) =
    let enough : ltb (length (short_wire f ++ more)) 3 ≡ false = ground arith in
    rw enough (scan_content-layout 0x78 0x78 (field_length f ∷ []) f more sum is_ok)

long_scan : (f : Frame) (more : Bytes) → IsLong f → scan (long_wire f ++ more) ≡ good f more
unfolding scan scan_length bytes_eq
long_scan f more (fits, sum, is_ok) =
    let enough : ltb (length (long_wire f ++ more)) 4 ≡ false = ground arith in
    let len = field_length f in
    let whole : len / 256 * 256 + len % 256 ≡ len = omega arith in
    rw (enough, whole) (scan_content-layout 0x79 0x79 (pack_u16 len) f more sum is_ok)

-- `w` is the frame `f` on the wire.
abbrev pub IsWire : Bytes → Frame → Type 0
IsWire w f = (IsShort f × (w ≡ short_wire f)) ⊎ (IsLong f × (w ≡ long_wire f))

wire_scan :
    (w : Bytes) (f : Frame) (more : Bytes) → IsWire w f → scan (resync (w ++ more)) ≡ good f more
wire_scan w f more (inl (h, e)) = rw (e, resync-marker 0x78 0x78 _ refl) (short_scan f more h)
wire_scan w f more (inr (h, e)) = rw (e, resync-marker 0x79 0x79 _ refl) (long_scan f more h)

-- Frames back to back.
abbrev pub stream : List (Bytes × Frame) → Bytes
stream [] = []
stream ((w, f) ∷ ws) = w ++ stream ws

abbrev pub frames_of : List (Bytes × Frame) → List Frame
frames_of [] = []
frames_of ((w, f) ∷ ws) = f ∷ frames_of ws

abbrev pub AllWires : List (Bytes × Frame) → Type 0
AllWires [] = Unit
AllWires ((w, f) ∷ ws) = IsWire w f × AllWires ws

pub stream-Drains :
    (ws : List (Bytes × Frame)) → AllWires ws → Drains (stream ws) (frames_of ws) 0 []
stream-Drains [] h =
    stops (ap scan resync-nil ∙ scan-no_marker [] (unfold at_marker in refl)) (sym resync-nil)
stream-Drains ((w, f) ∷ ws) h = emits (wire_scan w f (stream ws) h.0) (stream-Drains ws h.1)

-- Frames with matching checksums, short or long, that arrive back to back at an empty decoder come
-- out as they are and in order; nothing is dropped and nothing is kept.
pub feed-stream :
    (limit dropped : ℕ) (ws : List (Bytes × Frame))
    → AllWires ws
    → feed (decoder [] limit dropped) (stream ws) ≡ some (frames_of ws, decoder [] limit dropped)
feed-stream limit dropped ws h =
    feed-Drains (decoder [] limit dropped) (stream ws) (stream-Drains ws h)
    ∙ ap (λ (d : FrameDecoder). some (frames_of ws, d))
        (guard_buffer-fits (decoder [] limit (dropped + 0)) (omega arith)
          ∙ ap (decoder [] limit) (omega arith))

-- The same however the stream is cut into reads, if it fits the buffer's limit.
pub feed_all-stream :
    (limit dropped : ℕ) (ws : List (Bytes × Frame)) (chunk : Bytes) (chunks : List Bytes)
    → AllWires ws
    → chunk ++ flatten chunks ≡ stream ws
    → length (stream ws) ≤ limit
    → feed_all (decoder [] limit dropped) (chunk ∷ chunks)
      ≡ some (frames_of ws, decoder [] limit dropped)
feed_all-stream limit dropped ws chunk chunks h e fits =
    feed_all-flatten (decoder [] limit dropped) chunk chunks (rw e (omega arith))
    ∙ ap (feed (decoder [] limit dropped)) e
    ∙ feed-stream limit dropped ws h
