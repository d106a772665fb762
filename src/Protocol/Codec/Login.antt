-- ===== src/Protocol/Codec/Login.antt =====
-- `bcd_to_int` and `decode_login` of gps_gateway/protocol/codec.py.
pub mod Imei
use Prim.Native.Nat.{bit_and}
use gps_tracking.Prelude.{
  ℕ, zero, suc, ◌+◌, ◌-◌, ◌*◌, ◌/◌, ◌%◌, ◌≤◌, ◌<◌, ◌≡◌, refl, ap, ◌∙◌, Bool, true, false, ◌&&◌,
  Option, none, some, List, [], ◌∷◌, ◌++◌, length, take, All, ltb, leb, ◌==◌, if◌then◌else◌, arith,
}
use gps_tracking.Protocol.Bytes.{Bytes, AreBytes}

pub bcd_to_int : ℕ → ℕ
bcd_to_int byte_val = byte_val / 16 * 10 + bit_and byte_val 0x0f

-- The digits of `f"{b:02X}"`, as code points.
pub hex_digit : ℕ → ℕ
hex_digit n = if ltb n 10 then b'0' + n else b'A' + (n - 10)

pub hex_pair : ℕ → List ℕ
hex_pair b = hex_digit (b / 16) ∷ hex_digit (b % 16) ∷ []

pub hex_text : Bytes → List ℕ
hex_text [] = []
hex_text (b ∷ rest) = hex_pair b ++ hex_text rest

-- `str.isdigit` on a text of hexadecimal digits.
pub all_digits : List ℕ → Bool
all_digits [] = true
all_digits (c ∷ text) = leb b'0' c && leb c b'9' && all_digits text

pub is_digit_text : List ℕ → Bool
is_digit_text [] = false
is_digit_text (c ∷ text) = all_digits (c ∷ text)

-- `digits[1:] if len(digits) == 16 and digits[0] == "0" else digits`
pub strip_pad : List ℕ → List ℕ
strip_pad [] = []
strip_pad (c ∷ text) = if length (c ∷ text) == 16 && c == b'0' then text else c ∷ text

pub decode_login : Bytes → Option (List ℕ)
decode_login content =
    let digits = hex_text (take 8 content) in
    if ltb (length content) 8
    then none
    else if is_digit_text digits
    then some (strip_pad digits)
    else none
