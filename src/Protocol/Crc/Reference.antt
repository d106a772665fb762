-- ===== src/Protocol/Crc/Reference.antt =====
-- The table lookup of `crc16_itu` against shifting bit by bit.
use Prim.Native.Nat.{bit_and, bit_xor}
use gps_tracking.Prelude.{
  ℕ, zero, suc, ◌+◌, ◌*◌, ◌/◌, ◌%◌, ◌^◌, ◌<◌, ◌≡◌, refl, sym, ap, ◌∙◌, [], ◌∷◌, get_or, arith,
}
use gps_tracking.Prelude.Bits.{
  bit_xor_half, bit_xor-zero, bit_xor_parity, bit_xor_assoc, bit_xor-lt, bit_xor_fields,
  bit_and_one, bit_and_byte, double_pow,
}
use gps_tracking.Protocol.Bytes.{Bytes, AreBytes}
use gps_tracking.Protocol.Crc.{
  poly, shift_bit, shift_bits, fill_table, table, crc_step, crc_loop, crc16_itu,
}

-- The checksum with no table: `^` the byte in, then shift eight times.
unfoldable pub reference_loop : ℕ → Bytes → ℕ
reference_loop crc [] = crc
reference_loop crc (byte ∷ rest) = reference_loop (shift_bits 8 (bit_xor crc byte)) rest

unfoldable pub reference_crc : Bytes → ℕ
unfolding reference_loop
reference_crc bytes = bit_xor (reference_loop 0xffff bytes) 0xffff

get_or-fill_table :
    (n byte i : ℕ) → i < n → get_or (fill_table n byte) i 0 ≡ shift_bits 8 (byte + i)
unfolding fill_table
get_or-fill_table zero byte i h = absurd (omega arith)
get_or-fill_table (suc n) byte zero h = ap (shift_bits 8) (omega arith)
get_or-fill_table (suc n) byte (suc i) h =
    get_or-fill_table n (byte + 1) i (omega arith) ∙ ap (shift_bits 8) (omega arith)

pub table-eq-shift_bits : (i : ℕ) → i < 256 → get_or table i 0 ≡ shift_bits 8 i
unfolding table
table-eq-shift_bits i h = get_or-fill_table 256 0 i h ∙ ap (shift_bits 8) (omega arith)

-- The digits above the lowest only move: they are not mixed with it.
shift_bit-bit_xor : (h l : ℕ) → shift_bit (bit_xor (2 * h) l) ≡ bit_xor h (shift_bit l)
unfolding shift_bit
shift_bit-bit_xor h l = ground (
  arith,
  bit_and_one (bit_xor (2 * h) l),
  bit_and_one l,
  bit_xor_parity (2 * h) l,
  halves,
  bit_xor_assoc h (l / 2) poly,
)
  where
    halves : bit_xor (2 * h) l / 2 ≡ bit_xor h (l / 2)
    halves = bit_xor_half (2 * h) l ∙ ap (λ (t : ℕ). bit_xor t (l / 2)) (omega arith)

shift_bits-bit_xor : (n h l : ℕ) → shift_bits n (bit_xor (h * 2 ^ n) l) ≡ bit_xor h (shift_bits n l)
unfolding shift_bits
shift_bits-bit_xor zero h l = ap (λ (t : ℕ). bit_xor t l) (omega arith)
shift_bits-bit_xor (suc n) h l =
    ap (shift_bits n)
      (ap (λ (t : ℕ). shift_bit (bit_xor t l)) (double_pow h n) ∙ shift_bit-bit_xor (h * 2 ^ n) l)
    ∙ shift_bits-bit_xor n h (shift_bit l)

-- Eight shifts of a word are one table entry, `^` the high byte moved down.
pub shift_bits-eight :
    (x : ℕ) → shift_bits 8 x ≡ bit_xor (x / 256) (get_or table (bit_and x 0xff) 0)
shift_bits-eight x =
    ap (shift_bits 8) (sym (bit_xor_fields 8 (x / 256) (x % 256) (omega arith) ∙ omega arith))
    ∙ shift_bits-bit_xor 8 (x / 256) (x % 256)
    ∙ ap (bit_xor (x / 256)) (
        sym (table-eq-shift_bits (x % 256) (omega arith))
        ∙ ap (λ (i : ℕ). get_or table i 0) (sym (bit_and_byte x)))

bit_xor_high : (crc byte : ℕ) → byte < 256 → bit_xor crc byte / 256 ≡ crc / 256
bit_xor_high crc byte h =
    let four : bit_xor crc byte / 16 ≡ bit_xor (crc / 2 / 2 / 2 / 2) (byte / 2 / 2 / 2 / 2) =
      omega (
        arith,
        bit_xor_half crc byte,
        bit_xor_half (crc / 2) (byte / 2),
        bit_xor_half (crc / 2 / 2) (byte / 2 / 2),
        bit_xor_half (crc / 2 / 2 / 2) (byte / 2 / 2 / 2),
      ) in
    let c = crc / 2 / 2 / 2 / 2 in
    let b = byte / 2 / 2 / 2 / 2 in
    let gone : b / 2 / 2 / 2 / 2 ≡ 0 = omega arith in
    let eight : bit_xor c b / 16 ≡ c / 2 / 2 / 2 / 2 = omega (
      arith,
      bit_xor_half c b,
      bit_xor_half (c / 2) (b / 2),
      bit_xor_half (c / 2 / 2) (b / 2 / 2),
      bit_xor_half (c / 2 / 2 / 2) (b / 2 / 2 / 2),
      ap (bit_xor (c / 2 / 2 / 2 / 2)) gone,
      bit_xor-zero (c / 2 / 2 / 2 / 2),
    ) in
    omega (arith, four, eight)

pub crc_step-eq-shift_bits :
    (crc byte : ℕ) → byte < 256 → crc_step crc byte ≡ shift_bits 8 (bit_xor crc byte)
unfolding crc_step
crc_step-eq-shift_bits crc byte h =
    ap (λ (t : ℕ). bit_xor t (get_or table (bit_and (bit_xor crc byte) 0xff) 0))
      (sym (bit_xor_high crc byte h))
    ∙ sym (shift_bits-eight (bit_xor crc byte))

pub crc_loop-eq-reference_loop :
    (crc : ℕ) (bytes : Bytes) → AreBytes bytes → crc_loop crc bytes ≡ reference_loop crc bytes
unfolding crc_loop reference_loop
crc_loop-eq-reference_loop crc [] h = refl
crc_loop-eq-reference_loop crc (byte ∷ rest) h =
    ap (λ (c : ℕ). crc_loop c rest) (crc_step-eq-shift_bits crc byte h.0)
    ∙ crc_loop-eq-reference_loop (shift_bits 8 (bit_xor crc byte)) rest h.1

-- On every sequence of bytes the table-driven checksum is the one that shifts each byte in bit by bit.
pub crc16_itu-eq-reference_crc :
    (bytes : Bytes) → AreBytes bytes → crc16_itu bytes ≡ reference_crc bytes
unfolding crc16_itu reference_crc
crc16_itu-eq-reference_crc bytes h =
    ap (λ (t : ℕ). bit_xor t 0xffff) (crc_loop-eq-reference_loop 0xffff bytes h)

pub shift_bit-lt : (x : ℕ) → x < 65536 → shift_bit x < 65536
unfolding shift_bit
shift_bit-lt x h = ground (arith, bit_xor-lt 16 (x / 2) poly)

pub shift_bits-lt : (n x : ℕ) → x < 65536 → shift_bits n x < 65536
unfolding shift_bits
shift_bits-lt zero x h = h
shift_bits-lt (suc n) x h = shift_bits-lt n (shift_bit x) (shift_bit-lt x h)

pub reference_loop-lt :
    (crc : ℕ) (bytes : Bytes) → crc < 65536 → AreBytes bytes → reference_loop crc bytes < 65536
unfolding reference_loop
reference_loop-lt crc [] h hb = h
reference_loop-lt crc (byte ∷ rest) h hb =
    reference_loop-lt (shift_bits 8 (bit_xor crc byte)) rest
      (shift_bits-lt 8 _ (bit_xor-lt 16 crc byte h (omega arith))) hb.1

-- The checksum of bytes fits the two bytes that a frame keeps for it.
pub crc16_itu-lt : (bytes : Bytes) → AreBytes bytes → crc16_itu bytes < 65536
unfolding reference_crc
crc16_itu-lt bytes h =
    rw (crc16_itu-eq-reference_crc bytes h)
      (bit_xor-lt 16 _ 0xffff (reference_loop-lt 0xffff bytes (omega arith) h) (omega arith))
