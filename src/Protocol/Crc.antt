-- ===== src/Protocol/Crc.antt =====
-- gps_gateway/protocol/crc.py: the table-driven CRC16-ITU.
pub mod Reference
pub mod Detection
mod Tests
use Prim.Native.Nat.{bit_and, bit_xor}
use gps_tracking.Prelude.{
  ℕ, zero, suc, ◌+◌, ◌-◌, ◌/◌, List, [], ◌∷◌, ◌++◌, get_or, ◌==◌, if◌then◌else◌,
}
use gps_tracking.Protocol.Bytes.{Bytes}

abbrev pub poly : ℕ
poly = 0x8408

-- One turn of the inner loop: `(_crc >> 1) ^ _POLY if _crc & 1 else _crc >> 1`.
pub shift_bit : ℕ → ℕ
shift_bit crc = if bit_and crc 1 == 0 then crc / 2 else bit_xor (crc / 2) poly

pub shift_bits : ℕ → ℕ → ℕ
shift_bits zero crc = crc
shift_bits (suc n) crc = shift_bits n (shift_bit crc)

-- The loop that fills `_TABLE`: `n` entries are left to append, from `_byte` on.
pub fill_table : ℕ → ℕ → List ℕ
fill_table zero byte = []
fill_table (suc n) byte = shift_bits 8 byte ∷ fill_table n (byte + 1)

pub table : List ℕ
table = fill_table 256 0

-- The loop body of `crc16_itu`.
pub crc_step : ℕ → ℕ → ℕ
crc_step crc byte = bit_xor (crc / 256) (get_or table (bit_and (bit_xor crc byte) 0xff) 0)

pub crc_loop : ℕ → Bytes → ℕ
crc_loop crc [] = crc
crc_loop crc (byte ∷ rest) = crc_loop (crc_step crc byte) rest

unfoldable pub crc16_itu : Bytes → ℕ
unfolding crc_loop crc_step table fill_table shift_bits shift_bit
crc16_itu bytes = bit_xor (crc_loop 0xffff bytes) 0xffff
