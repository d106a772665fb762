-- ===== src/Protocol/Codec/Build/Command.antt =====
-- The frame that carries a command to the tracker.
use gps_tracking.Prelude.{
  ℕ, ◌+◌, ◌≤◌, ◌<◌, ◌≡◌, refl, true, false, [], ◌∷◌, ◌++◌, length, length-append, All, All-append,
  ltb, arith,
}
use gps_tracking.Protocol.Bytes.{Bytes, IsByte, AreBytes, pack_u16, pack_u32, pack_u32-AreBytes}
use gps_tracking.Protocol.Constants.{proto_command}
use gps_tracking.Protocol.Result.{ok}
use gps_tracking.Protocol.Framing.Wire.{short_wire}
use gps_tracking.Protocol.Codec.Build.{language_english, encode_ascii, build_command}
use gps_tracking.Protocol.Codec.Build.RoundTrip.{built_frame, build_frame_total}

abbrev pub IsAscii : ℕ → Type 0
IsAscii c = c < 128

-- The length counts the flag and the text.
abbrev pub command_content : ℕ → Bytes → Bytes
command_content flag text =
    (4 + length text) ∷ (pack_u32 flag ++ (text ++ pack_u16 language_english))

encode_ascii-eq : (text : Bytes) → All IsAscii text → encode_ascii text ≡ ok text
unfolding encode_ascii
encode_ascii-eq [] h = refl
encode_ascii-eq (c ∷ text) h =
    let e : ltb c 128 ≡ true = ground (arith, h.0) in rw (encode_ascii-eq text h.1, e) refl

IsAscii→IsByte : (text : Bytes) → All IsAscii text → AreBytes text
IsAscii→IsByte [] h = tt
IsAscii→IsByte (c ∷ text) h = (omega (arith, h.0), IsAscii→IsByte text h.1)

-- A command of at most 243 ASCII characters is sent as a frame of protocol 0x80 that holds the length
-- of flag and text, the flag in four bytes, the text, and the code for English.
pub build_command_total :
    (serial flag : ℕ) (text : Bytes)
    → serial < 65536
    → flag < 4294967296
    → All IsAscii text
    → length text ≤ 243
    → build_command serial flag text
      ≡ ok (short_wire (built_frame proto_command serial (command_content flag text)))
unfolding build_command
build_command_total serial flag text hs hf ascii short =
    let content = command_content flag text in
    let fits : ltb 0xff (4 + length text) ≡ false = ground arith in
    let byte : ltb (4 + length text) 256 ≡ true = ground arith in
    let word : ltb flag 4294967296 ≡ true = ground arith in
    let bytes : AreBytes content = (
      omega arith,
      All-append IsByte (pack_u32 flag) (text ++ pack_u16 language_english)
          (pack_u32-AreBytes flag hf)
          (All-append IsByte text (pack_u16 language_english) (IsAscii→IsByte text ascii)
            (omega arith, (omega arith, tt))),
    ) in
    let size : length content ≤ 250 =
      omega (arith, length-append text (pack_u16 language_english)) in
    rw (encode_ascii-eq text ascii, fits, byte, word)
      (build_frame_total proto_command serial content (omega arith) hs bytes size)
