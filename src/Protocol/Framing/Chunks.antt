-- ===== src/Protocol/Framing/Chunks.antt =====
-- How `feed` depends on the cuts that TCP makes in the stream: not at all.
use gps_tracking.Prelude.{
  ℕ, ◌+◌, ◌≤◌, ◌≡◌, sym, ap, ◌∙◌, inl, inr, Option, none, some, List, [], ◌∷◌, ◌++◌, length, arith,
  length-append,
}
use mathlib.Core.List.{append-nil, append_assoc, flatten}
use mathlib.Core.Option
use gps_tracking.Protocol.Bytes.{Bytes}
use gps_tracking.Protocol.Framing.{Frame, FrameDecoder, guard_buffer, feed}
use gps_tracking.Protocol.Framing.Resync.{length-resync}
use gps_tracking.Protocol.Framing.Drain.{
  decoder, Drains, stops, drops, emits, drain, feed_loop-Drains, rest_shorter, Drains-append,
}

abbrev and_then :
    Option (List Frame × FrameDecoder)
    → (FrameDecoder → Option (List Frame × FrameDecoder))
    → Option (List Frame × FrameDecoder)
and_then none k = none
and_then (some (frames, d)) k = Option.map (λ r. (frames ++ r.0, r.1)) (k d)

-- The reads of one connection, one after the other.
pub feed_all : FrameDecoder → List Bytes → Option (List Frame × FrameDecoder)
feed_all d [] = some ([], d)
feed_all d (chunk ∷ chunks) = and_then (feed d chunk) (λ d1. feed_all d1 chunks)

length-Drains :
    {buf left : Bytes} {frames : List Frame} {n : ℕ}
    → Drains buf frames n left
    → length left ≤ length buf
length-Drains {buf} (stops e l) = rw l (length-resync buf)
length-Drains {buf} (drops {rest} e d) =
    omega (arith, length-Drains d, rest_shorter buf rest (inl e))
length-Drains {buf} (emits {rest} {frame} e d) =
    omega (arith, length-Drains d, rest_shorter buf rest (inr (frame, e)))

pub feed-Drains :
    (d : FrameDecoder) (chunk : Bytes) {frames : List Frame} {n : ℕ} {left : Bytes}
    → Drains (d.buffer ++ chunk) frames n left
    → feed d chunk
      ≡ some (frames, guard_buffer (decoder left d.max_buffer_bytes (d.dropped_frames + n)))
unfolding feed
feed-Drains d chunk k =
    ap (Option.map (λ (r : List Frame × FrameDecoder). (r.0, guard_buffer r.1))) (
      feed_loop-Drains _ (d.buffer ++ chunk) d.max_buffer_bytes d.dropped_frames [] k (omega arith))

-- The loop of `feed` ends on every input: each round but the last takes a byte.
pub feed_total :
    (d : FrameDecoder) (chunk : Bytes)
    → (frames : List Frame) × (d' : FrameDecoder) × (feed d chunk ≡ some (frames, d'))
feed_total d chunk =
    let r = drain (d.buffer ++ chunk) in (r.frames, _, feed-Drains d chunk r.drains)

pub guard_buffer-fits :
    (d : FrameDecoder) → length d.buffer ≤ d.max_buffer_bytes → guard_buffer d ≡ d
unfolding guard_buffer
guard_buffer-fits d h = ground arith

feed-Drains_fits :
    (d : FrameDecoder) (chunk : Bytes) {frames : List Frame} {n : ℕ} {left : Bytes}
    → length (d.buffer ++ chunk) ≤ d.max_buffer_bytes
    → Drains (d.buffer ++ chunk) frames n left
    → feed d chunk ≡ some (frames, decoder left d.max_buffer_bytes (d.dropped_frames + n))
feed-Drains_fits d chunk {frames} {n} {left} fits k =
    feed-Drains d chunk k
    ∙ ap (λ (e : FrameDecoder). some (frames, e))
        (guard_buffer-fits (decoder left d.max_buffer_bytes (d.dropped_frames + n))
          (omega (arith, length-Drains k)))

-- After every read the buffer is within its limit.
pub length-feed :
    (d : FrameDecoder) (chunk : Bytes) {frames : List Frame} {d' : FrameDecoder}
    → feed d chunk ≡ some (frames, d')
    → length d'.buffer ≤ d'.max_buffer_bytes
unfolding guard_buffer
length-feed d chunk e =
    let r = drain (d.buffer ++ chunk) in ground (arith, feed-Drains d chunk r.drains)

feed-feed :
    (d : FrameDecoder) (a b : Bytes)
    → length d.buffer + (length a + length b) ≤ d.max_buffer_bytes
    → and_then (feed d a) (λ d1. feed d1 b) ≡ feed d (a ++ b)
feed-feed d a b fits =
    let first = drain (d.buffer ++ a) in
    let second = drain (first.left ++ b) in
    let d1 = decoder first.left d.max_buffer_bytes (d.dropped_frames + first.dropped) in
    let small : length (d.buffer ++ a) ≤ d.max_buffer_bytes =
      omega (arith, length-append d.buffer a) in
    let room : length (first.left ++ b) ≤ d.max_buffer_bytes =
      omega
        (arith, length-Drains first.drains, length-append d.buffer a, length-append first.left b) in
    let whole : length (d.buffer ++ (a ++ b)) ≤ d.max_buffer_bytes =
      rw (length-append, length-append a b) fits in
    let both = rw append_assoc at (Drains-append b first.drains second.drains) in
    rw
      (
        feed-Drains_fits d a small first.drains,
        feed-Drains_fits d1 b room second.drains,
        feed-Drains_fits d (a ++ b) whole both,
      )
      (ap
        (λ (k : ℕ). some (first.frames ++ second.frames, decoder second.left d.max_buffer_bytes k))
        (omega arith))

feed_alone : (d : FrameDecoder) (a : Bytes) → and_then (feed d a) (λ d1. some ([], d1)) ≡ feed d a
feed_alone d a = let r = drain (d.buffer ++ a) in rw (feed-Drains d a r.drains, append-nil)

-- However TCP cuts the stream into reads, the decoder gives the same frames in the same order, the
-- same count of dropped frames and keeps the same bytes as for one read of it all, if the bytes in
-- hand fit the buffer's limit.
pub feed_all-flatten :
    (d : FrameDecoder) (chunk : Bytes) (chunks : List Bytes)
    → length d.buffer + length (chunk ++ flatten chunks) ≤ d.max_buffer_bytes
    → feed_all d (chunk ∷ chunks) ≡ feed d (chunk ++ flatten chunks)
unfolding feed_all flatten
feed_all-flatten d chunk [] fits = rw append-nil (feed_alone d chunk)
feed_all-flatten d chunk (next ∷ chunks) fits =
    let first = drain (d.buffer ++ chunk) in
    let d1 = decoder first.left d.max_buffer_bytes (d.dropped_frames + first.dropped) in
    let later = next ++ flatten chunks in
    let small : length (d.buffer ++ chunk) ≤ d.max_buffer_bytes =
      omega (arith, length-append d.buffer chunk, length-append chunk later) in
    let room : length first.left + length later ≤ d.max_buffer_bytes = omega (
      arith,
      length-Drains first.drains,
      length-append d.buffer chunk,
      length-append chunk later,
    ) in
    let one = feed-Drains_fits d chunk small first.drains in
    ap (λ r. and_then r (λ e. feed_all e (next ∷ chunks))) one
    ∙ ap (Option.map (λ (r : List Frame × FrameDecoder). (first.frames ++ r.0, r.1)))
        (feed_all-flatten d1 next chunks room)
    ∙ ap (λ r. and_then r (λ e. feed e later)) (sym one)
    ∙ feed-feed d chunk later (omega (arith, length-append chunk later))
