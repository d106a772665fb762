-- ===== src/Protocol/Codec/Location/Flags.antt =====
-- The bits of the course and status word as arithmetic.
use Prim.Native.Nat.{bit_and}
use gps_tracking.Prelude.{ℕ, ◌*◌, ◌/◌, ◌%◌, ◌≡◌, arith}
use gps_tracking.Prelude.Bits.{bit_and_step, bit_and_two, bit_and_byte}

bit_and_eight : (w : ℕ) → bit_and w 8 ≡ w / 8 % 2 * 8
bit_and_eight w = omega (arith, bit_and_step w 8, bit_and_step (w / 2) 4, bit_and_two (w / 2 / 2))

bit_and_0x80 : (w : ℕ) → bit_and w 0x80 ≡ w / 128 % 2 * 128
bit_and_0x80 w = omega (
  arith,
  bit_and_step w 0x80,
  bit_and_step (w / 2) 0x40,
  bit_and_step (w / 2 / 2) 0x20,
  bit_and_step (w / 2 / 2 / 2) 0x10,
  bit_and_eight (w / 2 / 2 / 2 / 2),
)

pub bit_and_course : (w : ℕ) → bit_and w 0x03ff ≡ w % 1024
bit_and_course w =
    omega (arith, bit_and_step w 0x03ff, bit_and_step (w / 2) 0x01ff, bit_and_byte (w / 2 / 2))

pub bit_and_north : (w : ℕ) → bit_and w 0x0400 ≡ w / 1024 % 2 * 1024
bit_and_north w = omega (
  arith,
  bit_and_step w 0x0400,
  bit_and_step (w / 2) 0x0200,
  bit_and_step (w / 2 / 2) 0x0100,
  bit_and_0x80 (w / 2 / 2 / 2),
)

pub bit_and_west : (w : ℕ) → bit_and w 0x0800 ≡ w / 2048 % 2 * 2048
bit_and_west w = omega (arith, bit_and_step w 0x0800, bit_and_north (w / 2))

pub bit_and_gps_fixed : (w : ℕ) → bit_and w 0x1000 ≡ w / 4096 % 2 * 4096
bit_and_gps_fixed w = omega (arith, bit_and_step w 0x1000, bit_and_west (w / 2))
