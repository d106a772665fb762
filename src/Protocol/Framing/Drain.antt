-- ===== src/Protocol/Framing/Drain.antt =====
-- What the loop of `feed` takes out of a buffer, as a relation, and the loop against it.
use gps_tracking.Prelude.{
  ℕ, zero, suc, ◌+◌, ◌<◌, ◌≡◌, refl, sym, ap, ◌∙◌, ◌⊎◌, inl, inr, some, List, [], ◌∷◌, ◌++◌, length,
  arith,
}
use mathlib.Core.Path.{subst}
use mathlib.Core.List.{append-nil, append_assoc}
use gps_tracking.Protocol.Bytes.{Bytes}
use gps_tracking.Protocol.Framing.{
  Frame, FrameDecoder, Outcome, wait, bad, good, resync, scan, after_scan, next_frame, append_found,
  feed_loop,
}
use gps_tracking.Protocol.Framing.Resync.{at_marker, resync-append, resync-at_marker, length-resync}
use gps_tracking.Protocol.Framing.Scan.{
  extend, scan-append, scan-no_marker, left_length, scan-shrinks,
}

abbrev pub decoder : Bytes → ℕ → ℕ → FrameDecoder
decoder buf limit dropped = record {
  buffer = buf;
  max_buffer_bytes = limit;
  dropped_frames = dropped;
}

-- `Drains buf frames bad_count left`: the frames come out of `buf` in this order, so many frames
-- are dropped, and `left` waits for more bytes.
pub data Drains : Bytes → List Frame → ℕ → Bytes → Type 0 where
  stops : {buf left : Bytes} → scan (resync buf) ≡ wait → left ≡ resync buf → Drains buf [] 0 left
  drops :
      {buf rest left : Bytes} {frames : List Frame} {n : ℕ}
      → scan (resync buf) ≡ bad rest
      → Drains rest frames n left
      → Drains buf frames (suc n) left
  emits :
      {buf rest left : Bytes} {frame : Frame} {frames : List Frame} {n : ℕ}
      → scan (resync buf) ≡ good frame rest
      → Drains rest frames n left
      → Drains buf (frame ∷ frames) n left

-- Every buffer drains.
pub rest_shorter :
    (buf rest : Bytes)
    → ((scan (resync buf) ≡ bad rest) ⊎ ((frame : Frame) × (scan (resync buf) ≡ good frame rest)))
    → length rest < length buf
rest_shorter buf rest e = go (resync buf) refl
  where
    measure : (length rest) ≡ left_length (scan (resync buf))
    measure = elim e [ inl b ↦ rw b | inr (f, g) ↦ rw g ]

    go : (b : Bytes) → resync buf ≡ b → length rest < length buf
    go [] r = elim e [
      | inl b ↦ cc (b, ap scan r, scan-no_marker [] (unfold at_marker in refl))
      | inr (f, g) ↦ cc (g, ap scan r, scan-no_marker [] (unfold at_marker in refl))
    ]
    go (x ∷ xs) r =
        omega (arith, measure, length-resync buf, scan-shrinks (resync buf) (rw r (omega arith)))

pub record Drained (buf : Bytes) : Type 0 where
  pub frames : List Frame
  pub dropped : ℕ
  pub left : Bytes
  pub drains : Drains buf frames dropped left

drain_outcome :
    (buf : Bytes) (o : Outcome)
    → scan (resync buf) ≡ o
    → ((rest : Bytes)
        → ((scan (resync buf) ≡ bad rest)
            ⊎ ((frame : Frame) × (scan (resync buf) ≡ good frame rest)))
        → Drained rest)
    → Drained buf
drain_outcome buf wait e later = record {
  frames = [];
  dropped = 0;
  left = resync buf;
  drains = stops e refl;
}
drain_outcome buf (bad rest) e later =
    let more = later rest (inl e) in
    record {
      frames = more.frames;
      dropped = suc more.dropped;
      left = more.left;
      drains = drops e more.drains;
    }
drain_outcome buf (good frame rest) e later =
    let more = later rest (inr (frame, e)) in
    record {
      frames = frame ∷ more.frames;
      dropped = more.dropped;
      left = more.left;
      drains = emits e more.drains;
    }

drain_upto : (n : ℕ) (buf : Bytes) → length buf < n → Drained buf
drain_upto zero buf h = absurd (omega arith)
drain_upto (suc n) buf h =
    drain_outcome buf (scan (resync buf)) refl
      λ rest e. drain_upto n rest (omega (arith, rest_shorter buf rest e))

pub drain : (buf : Bytes) → Drained buf
drain buf = drain_upto (suc (length buf)) buf (omega arith)

next_frame-eq :
    (buf : Bytes) (limit dropped : ℕ) {o : Outcome}
    → scan (resync buf) ≡ o
    → next_frame (decoder buf limit dropped) ≡ after_scan (decoder (resync buf) limit dropped) o
unfolding next_frame
next_frame-eq buf limit dropped e = ap (after_scan (decoder (resync buf) limit dropped)) e

pub feed_loop-Drains :
    (fuel : ℕ) (buf : Bytes) (limit dropped : ℕ) (acc : List Frame) {frames : List Frame} {n : ℕ}
    {left : Bytes}
    → Drains buf frames n left
    → length buf < fuel
    → feed_loop fuel (decoder buf limit dropped) acc
      ≡ some (acc ++ frames, decoder left limit (dropped + n))
unfolding feed_loop append_found after_scan
feed_loop-Drains zero buf limit dropped acc d h = absurd (omega arith)
feed_loop-Drains (suc fuel) buf limit dropped acc {left} (stops e l) h =
    let same : dropped + 0 ≡ dropped = omega arith in
    rw (next_frame-eq buf limit dropped e, l, append-nil, same) refl
feed_loop-Drains (suc fuel) buf limit dropped acc {left} (drops {rest} {frames} {n} e d) h =
    rw (next_frame-eq buf limit dropped e) (
      feed_loop-Drains fuel rest limit (dropped + 1) acc d
        (omega (arith, rest_shorter buf rest (inl e)))
      ∙ ap (λ (k : ℕ). some (acc ++ frames, decoder left limit k)) (omega arith))
feed_loop-Drains (suc fuel) buf limit dropped acc {left} (emits {rest} {frame} {frames} {n} e d) h =
    rw (next_frame-eq buf limit dropped e) (
      feed_loop-Drains fuel rest limit dropped (acc ++ (frame ∷ [])) d
        (omega (arith, rest_shorter buf rest (inr (frame, e))))
      ∙ ap (λ (fs : List Frame). some (fs, decoder left limit (dropped + n)))
          (append_assoc acc (frame ∷ []) frames))

-- More bytes behind a buffer that has drained: what was left is taken up again.
resume :
    (buf more : Bytes) {o : Outcome}
    → scan (resync buf) ≡ o
    → (o ≡ wait) ⊎ (scan (resync (buf ++ more)) ≡ extend more o)
resume buf more {o} e = elim (resync-append buf more) [
  | inl (at, r) ↦ rw (r, ← e) (scan-append (resync buf) more)
  | inr (off, r) ↦ inl (sym e ∙ scan-no_marker (resync buf) off)
]

resume_wait : (buf more : Bytes) → resync (resync buf ++ more) ≡ resync (buf ++ more)
resume_wait buf more = elim (resync-append buf more) [
  | inl (at, r) ↦ resync-at_marker (resync buf) more at ∙ sym r
  | inr (off, r) ↦ sym r
]

-- Draining depends on what `resync` makes of the buffer.
Drains-resync :
    {x y left : Bytes} {frames : List Frame} {n : ℕ}
    → resync x ≡ resync y
    → Drains x frames n left
    → Drains y frames n left
Drains-resync r (stops e l) = stops (ap scan (sym r) ∙ e) (l ∙ r)
Drains-resync r (drops e d) = drops (ap scan (sym r) ∙ e) d
Drains-resync r (emits e d) = emits (ap scan (sym r) ∙ e) d

Drains-count :
    {x left : Bytes} {frames : List Frame} {n m : ℕ}
    → n ≡ m
    → Drains x frames n left
    → Drains x frames m left
Drains-count {x} {left} {frames} e d = subst (λ k. Drains x frames k left) e d

-- What comes out of a buffer comes out of it with more bytes behind, and then the rest does.
pub Drains-append :
    {a left end : Bytes} {fs gs : List Frame} {n m : ℕ} (more : Bytes)
    → Drains a fs n left
    → Drains (left ++ more) gs m end
    → Drains (a ++ more) (fs ++ gs) (n + m) end
Drains-append {a} {end} {gs} {m} more (stops e l) k =
    let k' = subst (λ b. Drains (b ++ more) gs m end) l k in
    Drains-count (omega arith) (Drains-resync (resume_wait a more) k')
Drains-append {a} {m} more (drops {n} e d) k = elim (resume a more e) [
  | inl w ↦ cc
  | inr r ↦ Drains-count {n = suc (n + m)} (omega arith) (drops r (Drains-append more d k))
]
Drains-append {a} more (emits e d) k = elim (resume a more e) [
  | inl w ↦ cc
  | inr r ↦ emits r (Drains-append more d k)
]
