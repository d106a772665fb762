-- ===== src/Protocol/Codec/Login/Imei.antt =====
-- What `decode_login` accepts and returns.
use gps_tracking.Prelude.{
  ℕ, suc, ◌+◌, ◌*◌, ◌/◌, ◌%◌, ◌≤◌, ◌<◌, ◌≡◌, refl, ap, ◌∙◌, ◌⊎◌, inl, inr, true, false, ◌&&◌, some,
  List, [], ◌∷◌, ◌++◌, length, take, All, ltb, ◌==◌, arith, length-append, take-append_right,
  length-take, Bool-cases,
}
use mathlib.Core.Path.{subst}
use mathlib.Core.List.{append-nil}
use gps_tracking.Protocol.Bytes.{Bytes}
use gps_tracking.Protocol.Codec.Login.{
  hex_digit, hex_pair, hex_text, all_digits, is_digit_text, strip_pad, decode_login,
}

abbrev pub IsDigitPair : ℕ × ℕ → Type 0
IsDigitPair d = (d.0 < 10) × (d.1 < 10)

-- Two decimal digits to a byte, and the digits as text.
abbrev pub pack_bcd : List (ℕ × ℕ) → Bytes
pack_bcd [] = []
pack_bcd ((h, l) ∷ ds) = (h * 16 + l) ∷ pack_bcd ds

abbrev pub digit_text : List (ℕ × ℕ) → List ℕ
digit_text [] = []
digit_text ((h, l) ∷ ds) = (b'0' + h) ∷ (b'0' + l) ∷ digit_text ds

length-pack_bcd : (ds : List (ℕ × ℕ)) → length (pack_bcd ds) ≡ length ds
length-pack_bcd [] = refl
length-pack_bcd ((h, l) ∷ ds) = ap suc (length-pack_bcd ds)

length-digit_text : (ds : List (ℕ × ℕ)) → length (digit_text ds) ≡ 2 * length ds
length-digit_text [] = refl
length-digit_text ((h, l) ∷ ds) = omega (arith, length-digit_text ds)

hex_digit-decimal : (n : ℕ) → n < 10 → hex_digit n ≡ b'0' + n
unfolding hex_digit
hex_digit-decimal n h = ground arith

hex_text-pack_bcd :
    (ds : List (ℕ × ℕ)) → All IsDigitPair ds → hex_text (pack_bcd ds) ≡ digit_text ds
unfolding hex_text hex_pair
hex_text-pack_bcd [] h = refl
hex_text-pack_bcd ((d, e) ∷ ds) ((hd, he), hs) =
    let high : (d * 16 + e) / 16 ≡ d = omega arith in
    let low : (d * 16 + e) % 16 ≡ e = omega arith in
    rw (high, low, hex_digit-decimal d hd, hex_digit-decimal e he, hex_text-pack_bcd ds hs) refl

all_digits-digit_text : (ds : List (ℕ × ℕ)) → All IsDigitPair ds → all_digits (digit_text ds) ≡ true
unfolding all_digits
all_digits-digit_text [] h = refl
all_digits-digit_text ((d, e) ∷ ds) ((hd, he), hs) = ground (arith, all_digits-digit_text ds hs)

decode_login_accepts :
    (content : Bytes) (text : List ℕ)
    → 8 ≤ length content
    → hex_text (take 8 content) ≡ text
    → is_digit_text text ≡ true
    → decode_login content ≡ some (strip_pad text)
unfolding decode_login
decode_login_accepts content text h e d =
    let enough : ltb (length content) 8 ≡ false = ground arith in rw (enough, e, d)

strip_pad-zero : (c : ℕ) (text : List ℕ) → c ≡ b'0' → length text ≡ 15 → strip_pad (c ∷ text) ≡ text
unfolding strip_pad
strip_pad-zero c text e n = ground arith

-- A login packet that packs a zero and the fifteen digits of an IMEI, two to a byte, decodes to
-- those digits, whatever follows.
pub decode_login-pack_bcd :
    (d : ℕ) (ds : List (ℕ × ℕ)) (rest : Bytes)
    → d < 10
    → All IsDigitPair ds
    → length ds ≡ 7
    → decode_login (pack_bcd ((0, d) ∷ ds) ++ rest) ≡ some ((b'0' + d) ∷ digit_text ds)
unfolding is_digit_text
decode_login-pack_bcd d ds rest hd hs n =
    let all : List (ℕ × ℕ) = (0, d) ∷ ds in
    let decimal : All IsDigitPair all = ((omega arith, hd), hs) in
    let prefix : take 8 (pack_bcd all ++ rest) ≡ pack_bcd all =
      take-append_right (pack_bcd all) rest 8 0 (omega (arith, length-pack_bcd ds))
      ∙ append-nil (pack_bcd all) in
    decode_login_accepts (pack_bcd all ++ rest) (digit_text all)
      (omega (arith, length-pack_bcd ds, length-append (pack_bcd all) rest))
      (ap hex_text prefix ∙ hex_text-pack_bcd all decimal) (all_digits-digit_text all decimal)
    ∙ ap some (strip_pad-zero _ _ refl (omega (arith, length-digit_text ds)))

abbrev pub IsDigit : ℕ → Type 0
IsDigit c = (b'0' ≤ c) × (c ≤ b'9')

all_digits-IsDigit : (text : List ℕ) → all_digits text ≡ true → All IsDigit text
unfolding all_digits
all_digits-IsDigit [] h = tt
all_digits-IsDigit (c ∷ text) h = (ground arith, all_digits-IsDigit text (ground arith))

length-hex_text : (bytes : Bytes) → length (hex_text bytes) ≡ 2 * length bytes
unfolding hex_text hex_pair
length-hex_text [] = refl
length-hex_text (b ∷ bytes) = omega (arith, length-hex_text bytes)

strip_pad-IsImei :
    (text : List ℕ)
    → All IsDigit text
    → length text ≡ 16
    → All IsDigit (strip_pad text)
      × ((length (strip_pad text) ≡ 15) ⊎ (length (strip_pad text) ≡ 16))
unfolding strip_pad
strip_pad-IsImei [] h n = absurd (omega arith)
strip_pad-IsImei (c ∷ text) h n = elim (Bool-cases (length (c ∷ text) == 16 && c == b'0')) [
  | inl pad ↦ rw pad (h.1, inl (omega arith))
  | inr whole ↦ rw whole (h, inr n)
]

is_digit_text-IsDigit : (text : List ℕ) → is_digit_text text ≡ true → All IsDigit text
unfolding is_digit_text
is_digit_text-IsDigit [] h = tt
is_digit_text-IsDigit (c ∷ text) h = all_digits-IsDigit (c ∷ text) h

-- An accepted login gives a text of fifteen or sixteen decimal digits.
pub decode_login-IsImei :
    (content : Bytes) (id : List ℕ)
    → decode_login content ≡ some id
    → All IsDigit id × ((length id ≡ 15) ⊎ (length id ≡ 16))
unfolding decode_login
decode_login-IsImei content id e =
    let text = hex_text (take 8 content) in
    let digits : is_digit_text text ≡ true = ground arith in
    let enough : 8 ≤ length content = ground arith in
    let stripped : strip_pad text ≡ id = ground arith in
    let sixteen : length text ≡ 16 =
      omega (arith, length-hex_text (take 8 content), length-take 8 content) in
    subst (λ t. All IsDigit t × ((length t ≡ 15) ⊎ (length t ≡ 16))) stripped
      (strip_pad-IsImei text (is_digit_text-IsDigit text digits) sixteen)
