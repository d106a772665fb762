-- ===== src/Protocol/Codec/Build/RoundTrip.antt =====
-- What the encoders build, the decoder takes apart.
use gps_tracking.Prelude.{
  ℕ, ◌+◌, ◌≤◌, ◌<◌, ◌≡◌, refl, sym, ap, ◌∙◌, inl, inr, true, false, [], ◌∷◌, ◌++◌, length, ltb,
  arith, Bool-cases, length-append, All-append,
}
use mathlib.Core.List.{append_assoc}
use gps_tracking.Protocol.Bytes.{Bytes, IsByte, AreBytes, pack_u16}
use gps_tracking.Protocol.Crc.{crc16_itu}
use gps_tracking.Protocol.Crc.Reference.{crc16_itu-lt}
use gps_tracking.Protocol.Result.{ok}
use gps_tracking.Protocol.Framing.{Frame}
use gps_tracking.Protocol.Framing.Wire.{short_wire, IsWire}
use gps_tracking.Protocol.Codec.Build.{build_frame}

-- The frame that a receiver should see.
abbrev pub built_frame : ℕ → ℕ → Bytes → Frame
built_frame protocol serial content = record {
  protocol = protocol;
  content = content;
  serial = serial;
  crc = crc16_itu ((length content + 5) ∷ protocol ∷ (content ++ pack_u16 serial));
  crc_ok = true;
}

body_length : (p s : ℕ) (c : Bytes) → length ((p ∷ []) ++ (c ++ pack_u16 s)) + 2 ≡ length c + 5
body_length p s c = omega (arith, length-append c (pack_u16 s))

wire-eq :
    (p s : ℕ) (c : Bytes)
    → let f = built_frame p s c in
      0x78
        ∷ 0x78
        ∷ (length c + 5)
        ∷ p
        ∷ ((c ++ pack_u16 s) ++ (pack_u16 f.crc ++ (0x0d ∷ 0x0a ∷ [])))
      ≡ short_wire f
wire-eq p s c =
    ap (λ (t : Bytes). 0x78 ∷ 0x78 ∷ (length c + 5) ∷ p ∷ t)
      (append_assoc c (pack_u16 s) (pack_u16 (built_frame p s c).crc ++ (0x0d ∷ 0x0a ∷ [])))

-- With every value in range the encoder succeeds.
build_frame-eq :
    (p s : ℕ) (c : Bytes)
    → p < 256
    → s < 65536
    → length c ≤ 250
    → (built_frame p s c).crc < 65536
    → build_frame p s c ≡ ok (short_wire (built_frame p s c))
unfolding build_frame
build_frame-eq p s c hp hs hc sum =
    let a : ltb p 256 ≡ true = ground arith in
    let b : ltb s 65536 ≡ true = ground arith in
    let short : ltb 0xff (length c + 5) ≡ false = ground arith in
    let byte : ltb (length c + 5) 256 ≡ true = ground arith in
    let word : ltb (built_frame p s c).crc 65536 ≡ true = ground arith in
    rw (a, b, body_length p s c, short, byte, word) (ap ok (wire-eq p s c))

-- The encoder succeeds on no other values.
build_frame_ranges :
    (p s : ℕ) (c w : Bytes)
    → build_frame p s c ≡ ok w
    → (p < 256) × (s < 65536) × (length c ≤ 250) × ((built_frame p s c).crc < 65536)
unfolding build_frame
build_frame_ranges p s c w e = elim (Bool-cases (ltb p 256)) [
  | inr n ↦ cc (rw n at e)
  | inl hp ↦ elim (Bool-cases (ltb s 65536)) [
    | inr n ↦ cc (rw (hp, n) at e)
    | inl hs ↦ elim (Bool-cases (ltb 0xff (length c + 5))) [
      | inl n ↦ cc (rw (hp, hs, body_length p s c, n) at e)
      | inr hc ↦
          let byte : ltb (length c + 5) 256 ≡ true = ground arith in
          elim (Bool-cases (ltb (built_frame p s c).crc 65536)) [
            | inr n ↦ cc (rw (hp, hs, body_length p s c, hc, byte, n) at e)
            | inl sum ↦ (ground arith, ground arith, ground arith, ground arith)
          ]
    ]
  ]
]

-- Whatever `build_frame` returns is a frame in the short layout with a matching checksum: the
-- decoder finds the same protocol number, serial and content in it.
pub build_frame-IsWire :
    (p s : ℕ) (c w : Bytes) → build_frame p s c ≡ ok w → IsWire w (built_frame p s c)
build_frame-IsWire p s c w e =
    let (hp, hs, hc, sum) = build_frame_ranges p s c w e in
    inl ((omega arith, refl, refl), same (sym e ∙ build_frame-eq p s c hp hs hc sum))
  where
    same : {x y : Bytes} → ok x ≡ ok y → x ≡ y
    same h = cc

-- `build_frame` succeeds for every one-byte protocol number, every two-byte serial and every content
-- of at most 250 bytes.
pub build_frame_total :
    (p s : ℕ) (c : Bytes)
    → p < 256
    → s < 65536
    → AreBytes c
    → length c ≤ 250
    → build_frame p s c ≡ ok (short_wire (built_frame p s c))
build_frame_total p s c hp hs hb hc =
    build_frame-eq p s c hp hs hc
      (crc16_itu-lt _ (omega arith, (hp, All-append IsByte c (pack_u16 s) hb (omega arith))))
