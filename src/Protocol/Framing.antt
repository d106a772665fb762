-- ===== src/Protocol/Framing.antt =====
-- gps_gateway/protocol/framing.py: a TCP byte stream into GT06 frames. Log lines are left out.
mod Resync
mod Scan
pub mod Drain
pub mod Wire
pub mod Chunks
mod Tests
use gps_tracking.Prelude.{
  ℕ, zero, suc, ◌+◌, ◌-◌, Bool, true, false, not, ◌&&◌, ◌||◌, Option, none, some, List, [], ◌∷◌,
  ◌++◌, length, take, drop, slice, min, ltb, ◌==◌, if◌then◌else◌,
}
use mathlib.Core.Option
use gps_tracking.Protocol.Bytes.{Bytes, byte_at, u16_at}
use gps_tracking.Protocol.Constants.{start_short, start_long, stop_bits, trailer_len}
use gps_tracking.Protocol.Crc.{crc16_itu}

pub record Frame : Type 0 where
  pub protocol : ℕ
  pub content : Bytes
  pub serial : ℕ
  pub crc : ℕ
  pub crc_ok : Bool

pub record FrameDecoder : Type 0 where
  pub buffer : Bytes
  pub max_buffer_bytes : ℕ
  pub dropped_frames : ℕ

-- `FrameDecoder(max_buffer_bytes)`
abbrev pub new_decoder : ℕ → FrameDecoder
new_decoder limit = record { buffer = []; max_buffer_bytes = limit; dropped_frames = 0 }

-- `a == b` on bytes, `buf.startswith(marker)`, and `buf.find(marker)` for a marker that is not empty.
pub bytes_eq : Bytes → Bytes → Bool
bytes_eq [] [] = true
bytes_eq [] (y ∷ ys) = false
bytes_eq (x ∷ xs) [] = false
bytes_eq (x ∷ xs) (y ∷ ys) = x == y && bytes_eq xs ys

pub starts_with : Bytes → Bytes → Bool
starts_with [] buf = true
starts_with (x ∷ marker) [] = false
starts_with (x ∷ marker) (y ∷ buf) = x == y && starts_with marker buf

pub find : Bytes → Bytes → Option ℕ
find marker [] = none
find marker (b ∷ buf) =
    if starts_with marker (b ∷ buf) then some 0 else Option.map suc (find marker buf)

-- `min(found)`, for the list of the positions that `find` gave.
pub earliest : Option ℕ → Option ℕ → Option ℕ
earliest none j = j
earliest (some i) none = some i
earliest (some i) (some j) = some (min i j)

-- `buf[-1:] in _START_FIRST_BYTES` keeps that byte.
pub keep_last : Bytes → Bytes
keep_last buf =
    let last = drop (length buf - 1) buf in
    if bytes_eq last (0x78 ∷ []) || bytes_eq last (0x79 ∷ []) then last else []

-- The branches of `_resync`, by the first marker's position.
pub cut_at : Option ℕ → Bytes → Bytes
cut_at none buf = keep_last buf
cut_at (some i) buf = drop i buf

pub resync : Bytes → Bytes
resync buf = cut_at (earliest (find start_short buf) (find start_long buf)) buf

-- What `_next_frame` makes of a buffer that begins at a marker: `(None, False)`, which waits for
-- more bytes; `(None, True)` with one more frame dropped, and the buffer left; `(frame, True)`.
pub data Outcome : Type 0 where
  wait : Outcome
  bad : Bytes → Outcome
  good : Frame → Bytes → Outcome

-- From `body = …` on; `len` is the value of the length field.
pub check_frame : ℕ → ℕ → Bytes → Bytes → Outcome
check_frame head_len len raw rest =
    let frame_len = head_len + len + 2 in
    let body = slice raw 2 (head_len + len - 2) in
    let serial = u16_at raw (frame_len - 2 - trailer_len) in
    let crc = u16_at raw (frame_len - 2 - trailer_len + 2) in
    if crc16_itu body == crc
    then good
        (record {
          protocol = byte_at raw head_len;
          content = slice raw (head_len + 1) (frame_len - 2 - trailer_len);
          serial = serial;
          crc = crc;
          crc_ok = true;
        })
        rest
    else bad rest

pub scan_content : ℕ → ℕ → Bytes → Outcome
scan_content head_len len buf =
    let frame_len = head_len + len + 2 in
    if ltb len (1 + trailer_len)
    then bad (drop 2 buf)
    else if ltb (length buf) frame_len
    then wait
    else let raw = take frame_len buf in
      if bytes_eq (drop (frame_len - 2) raw) stop_bits
      then check_frame head_len len raw (drop frame_len buf)
      else bad (drop 2 buf)

-- The length field is read once the buffer holds it.
pub scan_length : ℕ → Bytes → Outcome
scan_length len_size buf =
    if ltb (length buf) (2 + len_size)
    then wait
    else scan_content (2 + len_size) (if len_size == 1 then byte_at buf 2 else u16_at buf 2) buf

pub scan : Bytes → Outcome
scan buf =
    let header = take 2 buf in
    if bytes_eq header start_short || bytes_eq header start_long
    then scan_length (if bytes_eq header start_short then 1 else 2) buf
    else wait

-- `_next_frame`: (frame, made_progress), and the decoder after it.
pub after_scan : FrameDecoder → Outcome → Option Frame × Bool × FrameDecoder
after_scan d wait = (none, false, d)
after_scan d (bad rest) =
    (none, true, record d { buffer = rest; dropped_frames = d.dropped_frames + 1 })
after_scan d (good frame rest) = (some frame, true, record d { buffer = rest })

pub next_frame : FrameDecoder → Option Frame × Bool × FrameDecoder
next_frame d = let d' = record d { buffer = resync d.buffer } in after_scan d' (scan d'.buffer)

pub append_found : List Frame → Option Frame → List Frame
append_found frames none = frames
append_found frames (some frame) = frames ++ (frame ∷ [])

-- The `while True` loop of `feed`. `none` is no Python value: the fuel ran out.
pub feed_loop : ℕ → FrameDecoder → List Frame → Option (List Frame × FrameDecoder)
feed_loop zero d frames = none
feed_loop (suc fuel) d frames =
    let (frame, consumed, d') = next_frame d in
    let rest = feed_loop fuel d' (append_found frames frame) in
    if consumed then rest else some (frames, d')

pub guard_buffer : FrameDecoder → FrameDecoder
guard_buffer d = if ltb d.max_buffer_bytes (length d.buffer) then record d { buffer = [] } else d

-- Every round but the last takes a byte at least, so one round more than there are bytes is enough.
pub feed : FrameDecoder → Bytes → Option (List Frame × FrameDecoder)
feed d chunk =
    let d' = record d { buffer = d.buffer ++ chunk } in
    Option.map (λ r. (r.0, guard_buffer r.1)) (feed_loop (suc (length d'.buffer)) d' [])
