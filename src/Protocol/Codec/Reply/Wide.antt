-- ===== src/Protocol/Codec/Reply/Wide.antt =====
-- The UTF-16 texts of `decode_command_reply` of gps_gateway/protocol/codec.py.
use gps_tracking.Prelude.{
  ℕ, ◌+◌, ◌-◌, ◌*◌, ◌/◌, ◌%◌, ◌<◌, ◌≡◌, ◌⊎◌, inl, inr, refl, true, false, [], ◌∷◌, All, ltb, leb,
  if◌then◌else◌, arith, Bool-cases, ◌&&◌,
}
use gps_tracking.Protocol.Bytes.{Bytes}
use gps_tracking.Protocol.Codec.Cell.{Text}
use gps_tracking.Protocol.Codec.Reply.{decode_utf16, decode_pair}

-- A character of Unicode: no surrogate.
abbrev pub IsCodePoint : ℕ → Type 0
IsCodePoint c = (c < 0xd800) ⊎ ((0xdfff < c) × (c < 0x110000))

abbrev pub unit_bytes : ℕ → Bytes → Bytes
unit_bytes unit rest = unit / 256 ∷ unit % 256 ∷ rest

-- The encoding as the standard has it: a unit of two bytes, or a pair of surrogates for what is beyond 0xffff.
abbrev pub encode_utf16 : Text → Bytes
encode_utf16 [] = []
encode_utf16 (c ∷ text) =
    let rest = encode_utf16 text in
    if ltb c 0x10000
    then unit_bytes c rest
    else unit_bytes (0xd800 + (c - 0x10000) / 1024)
        (unit_bytes (0xdc00 + (c - 0x10000) % 1024) rest)

unit_joined : (unit : ℕ) → unit / 256 * 256 + unit % 256 ≡ unit
unit_joined unit = omega arith

pub decode_utf16-encode_utf16 :
    (text : Text) → All IsCodePoint text → decode_utf16 (encode_utf16 text) ≡ text
unfolding decode_utf16 decode_pair
decode_utf16-encode_utf16 [] h = refl
decode_utf16-encode_utf16 (c ∷ text) h =
    let rest = decode_utf16-encode_utf16 text h.1 in
    elim (Bool-cases (ltb c 0x10000)) [
      | inl small ↦
          let not_high : (leb 0xd800 c && leb c 0xdbff) ≡ false = ground (arith, small, h.0) in
          let not_low : (leb 0xdc00 c && leb c 0xdfff) ≡ false = ground (arith, small, h.0) in
          rw (small, unit_joined c, not_high, not_low, rest) refl
      | inr large ↦
          let high : ℕ = 0xd800 + (c - 0x10000) / 1024 in
          let low : ℕ = 0xdc00 + (c - 0x10000) % 1024 in
          let beyond : (0xffff < c) × (c < 0x110000) = ground (arith, large, h.0) in
          let is_high' : (leb 0xd800 high && leb high 0xdbff) ≡ true = ground (arith, beyond) in
          let is_low' : (leb 0xdc00 low && leb low 0xdfff) ≡ true = ground (arith, beyond) in
          let joined : (high - 0xd800) * 1024 + (low - 0xdc00) + 0x10000 ≡ c =
            omega (arith, beyond) in
          rw (large, unit_joined high, is_high', unit_joined low, is_low', joined, rest) refl
    ]
