-- ===== src/Protocol/Framing/Scan.antt =====
-- `scan` and the bytes that follow what it reads.
use gps_tracking.Prelude.{
  ℕ, ◌+◌, ◌≤◌, ◌<◌, ◌≡◌, refl, ◌⊎◌, inl, inr, Bool, true, false, ◌||◌, [], ◌∷◌, ◌++◌, length, drop,
  ltb, ◌==◌, if◌then◌else◌, arith, Bool-cases, length-append, take-append, drop-append,
  get_or-append, length-drop,
}
use gps_tracking.Protocol.Bytes.{Bytes, byte_at, u16_at}
use gps_tracking.Protocol.Constants.{start_short, start_long}
use gps_tracking.Protocol.Framing.{
  Outcome, wait, bad, good, bytes_eq, check_frame, scan_content, scan_length, scan,
}
use gps_tracking.Protocol.Framing.Resync.{at_marker}

-- The outcome with `more` behind what is left.
abbrev pub extend : Bytes → Outcome → Outcome
extend more wait = wait
extend more (bad rest) = bad (rest ++ more)
extend more (good frame rest) = good frame (rest ++ more)

-- `o` asks for more bytes, or `p` is the same answer with `more` left over.
abbrev pub Settled : Bytes → Outcome → Outcome → Type 0
Settled more o p = (o ≡ wait) ⊎ (p ≡ extend more o)

check_frame-append :
    (head_len len : ℕ) (raw rest more : Bytes)
    → check_frame head_len len raw (rest ++ more) ≡ extend more (check_frame head_len len raw rest)
unfolding check_frame
check_frame-append head_len len raw rest more = ground arith

longer :
    (buf more : Bytes) (n : ℕ) → ltb (length buf) n ≡ false → ltb (length (buf ++ more)) n ≡ false
longer buf more n h = ground (arith, length-append buf more)

-- The test for the stop bytes.
stops :
    (b : Bool) (more left : Bytes) (o p : Outcome)
    → p ≡ extend more o
    → (if b then p else bad (left ++ more)) ≡ extend more (if b then o else bad left)
stops true more left o p e = e
stops false more left o p e = refl

scan_content-append :
    (head_len len : ℕ) (buf more : Bytes)
    → 2 ≤ length buf
    → Settled more (scan_content head_len len buf) (scan_content head_len len (buf ++ more))
unfolding scan_content
scan_content-append head_len len buf more h = elim (Bool-cases (ltb len (1 + 4))) [
  | inl short ↦ inr (rw (short, drop-append 2 buf more h))
  | inr plausible ↦ elim (Bool-cases (ltb (length buf) (head_len + len + 2))) [
    | inl less ↦ inl (rw (plausible, less))
    | inr enough ↦
        let fits : head_len + len + 2 ≤ length buf = ground arith in
        inr (
          rw
            (
              plausible,
              enough,
              longer buf more _ enough,
              take-append (head_len + len + 2) buf more fits,
              drop-append (head_len + len + 2) buf more fits,
              drop-append 2 buf more h,
            )
            (stops _ more (drop 2 buf) _ _ (check_frame-append head_len len _ _ more)))
  ]
]

same_length :
    (len_size : ℕ) (buf more : Bytes)
    → ((len_size ≡ 1) ⊎ (len_size ≡ 2))
    → ltb (length buf) (2 + len_size) ≡ false
    → (if len_size == 1 then byte_at (buf ++ more) 2 else u16_at (buf ++ more) 2)
      ≡ (if len_size == 1 then byte_at buf 2 else u16_at buf 2)
same_length len_size buf more size enough =
    ground (arith, get_or-append buf more 2 0, get_or-append buf more 3 0)

scan_length-append :
    (len_size : ℕ) (buf more : Bytes)
    → ((len_size ≡ 1) ⊎ (len_size ≡ 2))
    → Settled more (scan_length len_size buf) (scan_length len_size (buf ++ more))
unfolding scan_length
scan_length-append len_size buf more size = elim (Bool-cases (ltb (length buf) (2 + len_size))) [
  | inl less ↦ inl (rw less)
  | inr enough ↦
      rw (enough, longer buf more _ enough, same_length len_size buf more size enough)
        (scan_content-append (2 + len_size) _ buf more (ground arith))
]

pub scan-append : (buf more : Bytes) → Settled more (scan buf) (scan (buf ++ more))
unfolding scan
scan-append [] more = inl (unfold bytes_eq in refl)
scan-append (a ∷ []) more = inl (unfold bytes_eq in ground arith)
scan-append (a ∷ b ∷ rest) more =
    header (bytes_eq (a ∷ b ∷ []) start_short) (bytes_eq (a ∷ b ∷ []) start_long)
  where
    header :
        (s l : Bool)
        → Settled more
            (if s || l then scan_length (if s then 1 else 2) (a ∷ b ∷ rest) else wait)
            (if s || l then scan_length (if s then 1 else 2) ((a ∷ b ∷ rest) ++ more) else wait)
    header true l = scan_length-append 1 (a ∷ b ∷ rest) more (inl refl)
    header false true = scan_length-append 2 (a ∷ b ∷ rest) more (inr refl)
    header false false = inl refl

-- A buffer that begins at no marker makes no progress.
pub scan-no_marker : (buf : Bytes) → at_marker buf ≡ false → scan buf ≡ wait
unfolding scan bytes_eq at_marker
scan-no_marker [] h = refl
scan-no_marker (a ∷ []) h = ground arith
scan-no_marker (a ∷ b ∷ rest) h = ground arith

-- How many bytes are left; none where nothing was taken.
abbrev pub left_length : Outcome → ℕ
left_length wait = 0
left_length (bad rest) = length rest
left_length (good frame rest) = length rest

scan_content-shrinks :
    (head_len len : ℕ) (buf : Bytes)
    → 3 ≤ length buf
    → left_length (scan_content head_len len buf) < length buf
unfolding scan_content check_frame
scan_content-shrinks head_len len buf h =
    ground (arith, length-drop 2 buf, length-drop (head_len + len + 2) buf)

scan_length-shrinks :
    (len_size : ℕ) (buf : Bytes)
    → 1 ≤ len_size
    → 0 < length buf
    → left_length (scan_length len_size buf) < length buf
unfolding scan_length
scan_length-shrinks len_size buf h pos =
    let len = if len_size == 1 then byte_at buf 2 else u16_at buf 2 in
    ground (arith, scan_content-shrinks (2 + len_size) len buf)

-- Progress takes at least one byte.
pub scan-shrinks : (buf : Bytes) → 0 < length buf → left_length (scan buf) < length buf
unfolding scan
scan-shrinks buf pos = ground (arith, scan_length-shrinks 1 buf, scan_length-shrinks 2 buf)
