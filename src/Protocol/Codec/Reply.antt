-- ===== src/Protocol/Codec/Reply.antt =====
-- `decode_command_reply` of gps_gateway/protocol/codec.py. A text is a list of code points; the two
-- decoders are those of Python's library with `errors="replace"`.
pub mod Flag
pub mod Trimming
pub mod Wide
use gps_tracking.Prelude.{
  ℕ, zero, suc, ◌+◌, ◌-◌, ◌*◌, Bool, true, false, ◌&&◌, ◌||◌, Option, none, some, List, [], ◌∷◌,
  length, drop, slice, ltb, leb, ◌==◌, if◌then◌else◌,
}
use mathlib.Core.List.{reverse}
use gps_tracking.Protocol.Bytes.{Bytes, byte_at, u32_at}
use gps_tracking.Protocol.Constants.{proto_command_reply_new}
use gps_tracking.Protocol.Codec.Cell.{Text}

pub record CommandReply : Type 0 where
  pub server_flag : ℕ
  pub text : Text

abbrev pub encoding_utf16 : ℕ
encoding_utf16 = 0x02

-- U+FFFD, which stands for what cannot be decoded.
abbrev pub replacement : ℕ
replacement = 0xfffd

pub decode_ascii : Bytes → Text
decode_ascii [] = []
decode_ascii (b ∷ rest) = (if ltb b 128 then b else replacement) ∷ decode_ascii rest

abbrev pub is_high : ℕ → Bool
is_high unit = leb 0xd800 unit && leb unit 0xdbff

abbrev pub is_low : ℕ → Bool
is_low unit = leb 0xdc00 unit && leb unit 0xdfff

-- A high surrogate waits for the unit after it. A pair of surrogates is one character; a surrogate
-- alone is replaced, and so are bytes that end inside a unit or a pair.
mutual
  pub decode_utf16 : Bytes → Text
  decode_utf16 [] = []
  decode_utf16 (a ∷ []) = replacement ∷ []
  decode_utf16 (a ∷ b ∷ rest) =
      let unit = a * 256 + b in
      let pair = decode_pair unit rest in
      let after = decode_utf16 rest in
      if is_high unit then pair else if is_low unit then replacement ∷ after else unit ∷ after

  pub decode_pair : ℕ → Bytes → Text
  decode_pair high [] = replacement ∷ []
  decode_pair high (a ∷ []) = replacement ∷ []
  decode_pair high (a ∷ b ∷ rest) =
      let unit = a * 256 + b in
      let joined = (high - 0xd800) * 1024 + (unit - 0xdc00) + 0x10000 in
      let pair = decode_pair unit rest in
      let after = decode_utf16 rest in
      if is_low unit
      then joined ∷ after
      else replacement ∷ (if is_high unit then pair else unit ∷ after)

-- `str.isspace` on one character, as `str.strip` asks it.
pub is_space : ℕ → Bool
is_space c =
    (leb 9 c && leb c 13)
    || (leb 28 c && leb c 32)
    || c == 0x85
    || c == 0xa0
    || c == 0x1680
    || (leb 0x2000 c && leb c 0x200a)
    || c == 0x2028
    || c == 0x2029
    || c == 0x202f
    || c == 0x205f
    || c == 0x3000

pub strip_left : (ℕ → Bool) → Text → Text
strip_left p [] = []
strip_left p (c ∷ text) = let rest = strip_left p text in if p c then rest else c ∷ text

-- `text.strip(chars)`
pub strip : (ℕ → Bool) → Text → Text
strip p text = reverse (strip_left p (reverse (strip_left p text)))

pub clean : Text → Text
clean text = strip is_space (strip (λ c. c == 0) text)

pub decode_reply_new : Bytes → CommandReply
decode_reply_new content = record {
  server_flag = u32_at content 0;
  text = clean (
      if byte_at content 4 == encoding_utf16
      then decode_utf16 (drop 5 content)
      else decode_ascii (drop 5 content));
}

pub decode_reply_classic : Bytes → CommandReply
decode_reply_classic content =
    let info_len = byte_at content 0 in
    record {
      server_flag = u32_at content 1;
      text = clean (
          decode_ascii (if leb 4 info_len then slice content 5 (1 + info_len) else drop 5 content));
    }

pub decode_command_reply : ℕ → Bytes → Option CommandReply
decode_command_reply protocol content =
    if ltb (length content) 5
    then none
    else if protocol == proto_command_reply_new
    then some (decode_reply_new content)
    else some (decode_reply_classic content)
