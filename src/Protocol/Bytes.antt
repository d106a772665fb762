-- ===== src/Protocol/Bytes.antt =====
-- Python's `bytes` as lists of numbers, and the big-endian packing of `struct`.
use gps_tracking.Prelude.{ℕ, ◌+◌, ◌*◌, ◌/◌, ◌%◌, ◌<◌, List, [], ◌∷◌, All, get_or, arith}

abbrev pub Bytes : Type 0
Bytes = List ℕ

abbrev pub IsByte : ℕ → Type 0
IsByte b = b < 256

abbrev pub AreBytes : Bytes → Type 0
AreBytes = All IsByte

-- `buf[i]`, where the callers have checked `i < len(buf)`.
abbrev pub byte_at : Bytes → ℕ → ℕ
byte_at buf i = get_or buf i 0

-- `struct.pack(">H", v)` for `v < 65536`, and `struct.unpack(">H", buf[i:i + 2])`.
abbrev pub pack_u16 : ℕ → Bytes
pack_u16 v = (v / 256) ∷ (v % 256) ∷ []

abbrev pub u16_at : Bytes → ℕ → ℕ
u16_at buf i = byte_at buf i * 256 + byte_at buf (i + 1)

-- `struct.pack(">I", v)` for `v < 2 ** 32`, and `struct.unpack(">I", buf[i:i + 4])`.
abbrev pub pack_u32 : ℕ → Bytes
pack_u32 v = (v / 16777216) ∷ (v / 65536 % 256) ∷ (v / 256 % 256) ∷ (v % 256) ∷ []

abbrev pub u32_at : Bytes → ℕ → ℕ
u32_at buf i =
    byte_at buf i * 16777216
    + byte_at buf (i + 1) * 65536
    + byte_at buf (i + 2) * 256
    + byte_at buf (i + 3)

pub pack_u16-AreBytes : (v : ℕ) → v < 65536 → AreBytes (pack_u16 v)
pack_u16-AreBytes v h = omega arith

pub pack_u32-AreBytes : (v : ℕ) → v < 4294967296 → AreBytes (pack_u32 v)
pack_u32-AreBytes v h = omega arith
