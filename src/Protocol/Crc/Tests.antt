-- ===== src/Protocol/Crc/Tests.antt =====
-- Runs of the checksum and the theorems at concrete bytes.
use gps_tracking.Prelude.{◌≡◌, ◌≢◌, refl, [], ◌∷◌, arith}
use gps_tracking.Protocol.Bytes.{Bytes}
use gps_tracking.Protocol.Crc.{crc16_itu}
use gps_tracking.Protocol.Crc.Reference.{reference_crc, crc16_itu-eq-reference_crc}
use gps_tracking.Protocol.Crc.Detection.{crc16_itu-detects}

-- "123456789", the standard check value of CRC-16/X-25.
abbrev check_input : Bytes
check_input = 0x31 ∷ 0x32 ∷ 0x33 ∷ 0x34 ∷ 0x35 ∷ 0x36 ∷ 0x37 ∷ 0x38 ∷ 0x39 ∷ []

crc16_itu_check : crc16_itu check_input ≡ 0x906e
unfolding crc16_itu
crc16_itu_check = refl

crc16_itu-eq-reference_crc_example : crc16_itu check_input ≡ reference_crc check_input
crc16_itu-eq-reference_crc_example = crc16_itu-eq-reference_crc check_input (omega arith)

crc16_itu-detects_example : crc16_itu (5 ∷ 1 ∷ 0 ∷ []) ≢ crc16_itu (5 ∷ 3 ∷ 0 ∷ [])
crc16_itu-detects_example =
    crc16_itu-detects (5 ∷ []) 1 3 (0 ∷ []) (omega arith) (omega arith) (omega arith) (omega arith)
      (omega arith)
