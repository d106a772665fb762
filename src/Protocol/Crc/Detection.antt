-- ===== src/Protocol/Crc/Detection.antt =====
-- What the checksum detects: it is injective in each single byte.
use Prim.Native.Nat.{bit_xor}
use gps_tracking.Prelude.{
  ℕ, zero, suc, ◌/◌, ◌≤◌, ◌<◌, ◌≡◌, ◌≢◌, sym, ◌∙◌, [], ◌∷◌, ◌++◌, All-append, arith,
}
use gps_tracking.Prelude.Bits.{
  bit_xor_assoc, bit_xor_fields, bit_xor_comm, bit_xor_cancel, bit_xor-lt, bit_and_one,
}
use gps_tracking.Protocol.Bytes.{Bytes, IsByte, AreBytes}
use gps_tracking.Protocol.Crc.{poly, shift_bit, shift_bits, crc16_itu}
use gps_tracking.Protocol.Crc.Reference.{
  reference_loop, reference_crc, shift_bit-lt, shift_bits-lt, crc16_itu-eq-reference_crc,
}

-- The top digit of the result tells whether the polynomial was mixed in.
high_poly : (x : ℕ) → x < 32768 → 32768 ≤ bit_xor x poly
high_poly x h =
    let low : bit_xor 0x0408 x < 32768 = bit_xor-lt 15 0x0408 x (omega arith) h in
    omega (
      arith,
      bit_xor_comm x poly,
      bit_xor_assoc 0x8000 0x0408 x,
      bit_xor_fields 15 1 (bit_xor 0x0408 x) low,
    )

shift_bit_injective : (x y : ℕ) → x < 65536 → y < 65536 → shift_bit x ≡ shift_bit y → x ≡ y
unfolding shift_bit
shift_bit_injective x y hx hy e = ground (
  arith,
  bit_and_one x,
  bit_and_one y,
  high_poly (x / 2) (omega arith),
  high_poly (y / 2) (omega arith),
  cancel,
)
  where
    cancel : bit_xor (x / 2) poly ≡ bit_xor (y / 2) poly → x / 2 ≡ y / 2
    cancel f =
        bit_xor_cancel poly (x / 2) (y / 2)
          (bit_xor_comm poly (x / 2) ∙ f ∙ bit_xor_comm (y / 2) poly)

shift_bits_injective : (n x y : ℕ) → x < 65536 → y < 65536 → shift_bits n x ≡ shift_bits n y → x ≡ y
unfolding shift_bits
shift_bits_injective zero x y hx hy e = e
shift_bits_injective (suc n) x y hx hy e =
    shift_bit_injective x y hx hy
      (shift_bits_injective n (shift_bit x) (shift_bit y) (shift_bit-lt x hx) (shift_bit-lt y hy) e)

-- One round keeps apart both two states and two bytes.
round_injective_state :
    (x y byte : ℕ)
    → x < 65536
    → y < 65536
    → byte < 256
    → shift_bits 8 (bit_xor x byte) ≡ shift_bits 8 (bit_xor y byte)
    → x ≡ y
round_injective_state x y byte hx hy hb e =
    let inner =
      shift_bits_injective 8 _ _ (bit_xor-lt 16 x byte hx (omega arith))
        (bit_xor-lt 16 y byte hy (omega arith)) e in
    bit_xor_cancel byte x y (bit_xor_comm byte x ∙ inner ∙ bit_xor_comm y byte)

round_injective_byte :
    (crc x y : ℕ)
    → crc < 65536
    → x < 256
    → y < 256
    → shift_bits 8 (bit_xor crc x) ≡ shift_bits 8 (bit_xor crc y)
    → x ≡ y
round_injective_byte crc x y hc hx hy e = bit_xor_cancel crc x y (
    shift_bits_injective 8 _ _ (bit_xor-lt 16 crc x hc (omega arith))
      (bit_xor-lt 16 crc y hc (omega arith)) e)

reference_loop_injective :
    (x y : ℕ) (rest : Bytes)
    → x < 65536
    → y < 65536
    → AreBytes rest
    → reference_loop x rest ≡ reference_loop y rest
    → x ≡ y
unfolding reference_loop
reference_loop_injective x y [] hx hy hr e = e
reference_loop_injective x y (byte ∷ rest) hx hy hr e = round_injective_state x y byte hx hy hr.0 (
    reference_loop_injective (shift_bits 8 (bit_xor x byte)) (shift_bits 8 (bit_xor y byte)) rest
      (shift_bits-lt 8 _ (bit_xor-lt 16 x byte hx (omega (arith, hr.0))))
      (shift_bits-lt 8 _ (bit_xor-lt 16 y byte hy (omega (arith, hr.0)))) hr.1 e)

reference_loop-detects :
    (crc : ℕ) (front : Bytes) (x y : ℕ) (back : Bytes)
    → crc < 65536
    → AreBytes front
    → x < 256
    → y < 256
    → AreBytes back
    → reference_loop crc (front ++ (x ∷ back)) ≡ reference_loop crc (front ++ (y ∷ back))
    → x ≡ y
unfolding reference_loop
reference_loop-detects crc [] x y back hc hf hx hy hb e = round_injective_byte crc x y hc hx hy (
    reference_loop_injective (shift_bits 8 (bit_xor crc x)) (shift_bits 8 (bit_xor crc y)) back
      (shift_bits-lt 8 _ (bit_xor-lt 16 crc x hc (omega arith)))
      (shift_bits-lt 8 _ (bit_xor-lt 16 crc y hc (omega arith))) hb e)
reference_loop-detects crc (b ∷ front) x y back hc hf hx hy hb e =
    reference_loop-detects (shift_bits 8 (bit_xor crc b)) front x y back
      (shift_bits-lt 8 _ (bit_xor-lt 16 crc b hc (omega (arith, hf.0)))) hf.1 hx hy hb e

-- A frame body in which one byte was changed, at any place, has another checksum.
pub crc16_itu-detects :
    (front : Bytes) (x y : ℕ) (back : Bytes)
    → AreBytes front
    → x < 256
    → y < 256
    → AreBytes back
    → x ≢ y
    → crc16_itu (front ++ (x ∷ back)) ≢ crc16_itu (front ++ (y ∷ back))
unfolding reference_crc
crc16_itu-detects front x y back hf hx hy hb differ e = differ (
    reference_loop-detects 0xffff front x y back (omega arith) hf hx hy hb
      (bit_xor_cancel 0xffff _ _ (bit_xor_comm 0xffff _ ∙ same ∙ bit_xor_comm _ 0xffff)))
  where
    same : reference_crc (front ++ (x ∷ back)) ≡ reference_crc (front ++ (y ∷ back))
    same =
        sym (crc16_itu-eq-reference_crc _ (All-append IsByte front _ hf (hx, hb)))
        ∙ e
        ∙ crc16_itu-eq-reference_crc _ (All-append IsByte front _ hf (hy, hb))
