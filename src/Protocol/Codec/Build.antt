-- ===== src/Protocol/Codec/Build.antt =====
-- The encoders of gps_gateway/protocol/codec.py: frames, acknowledgements and commands.
pub mod RoundTrip
pub mod Command
use gps_tracking.Prelude.{ℕ, ◌+◌, Bool, [], ◌∷◌, ◌++◌, length, ltb, if◌then◌else◌}
use gps_tracking.Protocol.Bytes.{Bytes, pack_u16, pack_u32}
use gps_tracking.Protocol.Constants.{start_short, stop_bits, proto_command}
use gps_tracking.Protocol.Crc.{crc16_itu}
use gps_tracking.Protocol.Result.{Result, ok, err, value_error, struct_error, ◌>>=◌}

-- `bytes([n])`, `struct.pack(">H", n)` and `struct.pack(">I", n)` with their range checks.
abbrev pub single_byte : ℕ → Result Bytes
single_byte n = if ltb n 256 then ok (n ∷ []) else err value_error

abbrev pub checked_u16 : ℕ → Result Bytes
checked_u16 n = if ltb n 65536 then ok (pack_u16 n) else err struct_error

abbrev pub checked_u32 : ℕ → Result Bytes
checked_u32 n = if ltb n 4294967296 then ok (pack_u32 n) else err struct_error

pub build_frame : ℕ → ℕ → Bytes → Result Bytes
build_frame protocol_number serial content = do
  protocol_byte ← single_byte protocol_number
  serial_bytes ← checked_u16 serial
  let body = protocol_byte ++ (content ++ serial_bytes)
  let len = length body + 2
  if ltb 0xff len then err value_error else do
    length_byte ← single_byte len
    checksum ← checked_u16 (crc16_itu (length_byte ++ body))
    ok (start_short ++ (length_byte ++ (body ++ (checksum ++ stop_bits))))

unfoldable pub build_ack : ℕ → ℕ → Bytes → Result Bytes
build_ack protocol_number serial content = build_frame protocol_number serial content

abbrev pub language_english : ℕ
language_english = 0x0002

-- `text.encode("ascii")`, which raises a `ValueError` on any other character.
pub encode_ascii : Bytes → Result Bytes
encode_ascii [] = ok []
encode_ascii (c ∷ text) =
    let rest = encode_ascii text in
    if ltb c 128 then (do encoded ← rest; ok (c ∷ encoded)) else err value_error

pub build_command : ℕ → ℕ → Bytes → Result Bytes
build_command serial server_flag command = do
  text ← encode_ascii command
  let info_len = 4 + length text
  if ltb 0xff info_len then err value_error else do
    length_byte ← single_byte info_len
    flag ← checked_u32 server_flag
    build_frame proto_command serial (length_byte ++ (flag ++ (text ++ pack_u16 language_english)))
