-- ===== src/Protocol/Codec/Reply/Flag.antt =====
-- A reply names its command: the server flag and the text read back.
use gps_tracking.Prelude.{
  ℕ, ◌+◌, ◌*◌, ◌/◌, ◌%◌, ◌<◌, ◌≡◌, refl, ap, ◌∙◌, true, false, some, [], ◌∷◌, ◌++◌, length, drop,
  slice, All, ltb, leb, arith, take-append_right,
}
use mathlib.Core.List.{append-nil}
use gps_tracking.Protocol.Bytes.{Bytes, pack_u32}
use gps_tracking.Protocol.Codec.Cell.{Text}
use gps_tracking.Protocol.Codec.Reply.{
  decode_ascii, clean, decode_reply_new, decode_reply_classic, decode_command_reply,
}
use gps_tracking.Protocol.Codec.Reply.Trimming.{IsPadded, clean-padded}
use gps_tracking.Protocol.Codec.Reply.Wide.{IsCodePoint, encode_utf16, decode_utf16-encode_utf16}

abbrev pub IsAscii : ℕ → Type 0
IsAscii c = c < 128

decode_ascii-eq : (text : Text) → All IsAscii text → decode_ascii text ≡ text
unfolding decode_ascii
decode_ascii-eq [] h = refl
decode_ascii-eq (c ∷ text) h =
    let plain : ltb c 128 ≡ true = ground (arith, h.0) in rw (plain, decode_ascii-eq text h.1) refl

-- A reply of the classic firmware: the length counts the flag and the text, and what follows the text,
-- the language field, is not part of it.
abbrev pub classic_reply : ℕ → Text → Bytes → Bytes
classic_reply flag text suffix = (4 + length text) ∷ (pack_u32 flag ++ (text ++ suffix))

-- A reply of the newer firmware in ASCII.
abbrev pub new_reply : ℕ → Text → Bytes
new_reply flag text = pack_u32 flag ++ (1 ∷ text)

-- And in UTF-16, most significant byte first.
abbrev pub wide_reply : ℕ → Text → Bytes
wide_reply flag text = pack_u32 flag ++ (2 ∷ encode_utf16 text)

u32-packed :
    (v : ℕ) → v / 16777216 * 16777216 + v / 65536 % 256 * 65536 + v / 256 % 256 * 256 + v % 256 ≡ v
u32-packed v = omega arith

classic_reply-clean :
    (flag : ℕ) (text : Text) (suffix : Bytes)
    → All IsAscii text
    → decode_command_reply 0x15 (classic_reply flag text suffix)
      ≡ some (record { server_flag = flag; text = clean text })
unfolding decode_command_reply decode_reply_new decode_reply_classic
classic_reply-clean flag text suffix h =
    let long : ltb (length (classic_reply flag text suffix)) 5 ≡ false = ground arith in
    let counted : leb 4 (4 + length text) ≡ true = ground arith in
    let cut : slice (classic_reply flag text suffix) 5 (1 + (4 + length text)) ≡ text =
      ap (drop 5) (
        take-append_right ((4 + length text) ∷ (pack_u32 flag ++ text)) suffix
          (1 + (4 + length text)) 0 (omega arith))
      ∙ append-nil text in
    rw (long, u32-packed flag, counted, cut, decode_ascii-eq text h) refl

new_reply-clean :
    (flag : ℕ) (text : Text)
    → All IsAscii text
    → decode_command_reply 0x21 (new_reply flag text)
      ≡ some (record { server_flag = flag; text = clean text })
unfolding decode_command_reply decode_reply_new
new_reply-clean flag text h =
    let long : ltb (length (new_reply flag text)) 5 ≡ false = ground arith in
    rw (long, u32-packed flag, decode_ascii-eq text h) refl

wide_reply-clean :
    (flag : ℕ) (text : Text)
    → All IsCodePoint text
    → decode_command_reply 0x21 (wide_reply flag text)
      ≡ some (record { server_flag = flag; text = clean text })
unfolding decode_command_reply decode_reply_new
wide_reply-clean flag text h =
    let long : ltb (length (wide_reply flag text)) 5 ≡ false = ground arith in
    rw (long, u32-packed flag, decode_utf16-encode_utf16 text h) refl

-- A reply gives back the flag that the command was sent with, and its text without the padding: in the classic
-- layout, and in the newer one with the encoding byte 1, for an ASCII message, and in the newer one with the
-- encoding byte 2, for a message of any characters that is written in UTF-16. The message is a text that begins
-- and ends with printable ASCII characters, with ASCII blanks around it and NULs around those.
pub decode_command_reply-flag :
    (flag : ℕ) (message text wide wide_text : Text) (suffix : Bytes)
    → All IsAscii message
    → IsPadded message text
    → All IsCodePoint wide
    → IsPadded wide wide_text
    → (decode_command_reply 0x15 (classic_reply flag message suffix)
        ≡ some (record { server_flag = flag; text = text }))
      × (decode_command_reply 0x21 (new_reply flag message)
          ≡ some (record { server_flag = flag; text = text }))
      × (decode_command_reply 0x21 (wide_reply flag wide)
          ≡ some (record { server_flag = flag; text = wide_text }))
decode_command_reply-flag flag message text wide wide_text suffix h k h' k' =
    let padding = clean-padded message text k in
    (
      rw padding at (classic_reply-clean flag message suffix h),
      rw padding at (new_reply-clean flag message h),
      rw (clean-padded wide wide_text k') at (wide_reply-clean flag wide h'),
    )
