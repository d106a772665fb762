-- ===== src/Protocol/Codec/Cell/RoundTrip.antt =====
-- The cell block read back: with a one-byte MNC and with a two-byte one.
use Prim.Native.Nat.{bit_and}
use gps_tracking.Prelude.{
  ℕ, ◌+◌, ◌*◌, ◌/◌, ◌%◌, ◌<◌, ◌≡◌, refl, Bool, true, false, ◌&&◌, Option, none, some, [], ◌∷◌, ◌++◌,
  length, ltb, ◌==◌, if◌then◌else◌, arith,
}
use gps_tracking.Prelude.Bits.{bit_and_step, bit_and_one, bit_and_byte}
use gps_tracking.Protocol.Bytes.{Bytes, pack_u16}
use gps_tracking.Protocol.Codec.Cell.{Cell, decode_cell_at, decode_cell}

pub bit_and_low_15 : (w : ℕ) → bit_and w 0x7fff ≡ w % 32768
bit_and_low_15 w = omega (
  arith,
  bit_and_step w 0x7fff,
  bit_and_step (w / 2) 0x3fff,
  bit_and_step (w / 2 / 2) 0x1fff,
  bit_and_step (w / 2 / 2 / 2) 0x0fff,
  bit_and_step (w / 2 / 2 / 2 / 2) 0x07ff,
  bit_and_step (w / 2 / 2 / 2 / 2 / 2) 0x03ff,
  bit_and_step (w / 2 / 2 / 2 / 2 / 2 / 2) 0x01ff,
  bit_and_byte (w / 2 / 2 / 2 / 2 / 2 / 2 / 2),
)

bit_and_high_byte : (w : ℕ) → bit_and w 0x80 ≡ w / 128 % 2 * 128
bit_and_high_byte w = omega (
  arith,
  bit_and_step w 0x80,
  bit_and_step (w / 2) 0x40,
  bit_and_step (w / 2 / 2) 0x20,
  bit_and_step (w / 2 / 2 / 2) 0x10,
  bit_and_step (w / 2 / 2 / 2 / 2) 8,
  bit_and_step (w / 2 / 2 / 2 / 2 / 2) 4,
  bit_and_step (w / 2 / 2 / 2 / 2 / 2 / 2) 2,
  bit_and_one (w / 2 / 2 / 2 / 2 / 2 / 2 / 2),
)

bit_and_mnc_flag : (w : ℕ) → bit_and w 0x8000 ≡ w / 32768 % 2 * 32768
bit_and_mnc_flag w = omega (
  arith,
  bit_and_step w 0x8000,
  bit_and_step (w / 2) 0x4000,
  bit_and_step (w / 2 / 2) 0x2000,
  bit_and_step (w / 2 / 2 / 2) 0x1000,
  bit_and_step (w / 2 / 2 / 2 / 2) 0x0800,
  bit_and_step (w / 2 / 2 / 2 / 2 / 2) 0x0400,
  bit_and_step (w / 2 / 2 / 2 / 2 / 2 / 2) 0x0200,
  bit_and_step (w / 2 / 2 / 2 / 2 / 2 / 2 / 2) 0x0100,
  bit_and_high_byte (w / 2 / 2 / 2 / 2 / 2 / 2 / 2 / 2),
)

abbrev pack_u24 : ℕ → Bytes
pack_u24 v = (v / 65536) ∷ (v / 256 % 256) ∷ (v % 256) ∷ []

-- A tracker's cell block: the newer firmware sets the top bit of the MCC and sends two bytes of MNC.
abbrev pub pack_cell : Bool → Cell → Bytes
pack_cell false c = pack_u16 c.mcc ++ ((c.mnc ∷ []) ++ (pack_u16 c.lac ++ pack_u24 c.cell_id))
pack_cell true c =
    pack_u16 (c.mcc + 32768) ++ (pack_u16 c.mnc ++ (pack_u16 c.lac ++ pack_u24 c.cell_id))

abbrev pub cell_size : Bool → ℕ
cell_size false = 8
cell_size true = 9

abbrev pub FitsCell : Bool → Cell → Type 0
FitsCell wide c =
    (c.mcc < 32768)
    × (c.mnc < (if wide then 65536 else 256))
    × (c.lac < 65536)
    × (c.cell_id < 16777216)

-- The block that stands for no cell.
abbrev pub is_blank : Cell → Bool
is_blank c = c.mcc == 0 && c.lac == 0 && c.cell_id == 0

u16-packed : (v : ℕ) → v / 256 * 256 + v % 256 ≡ v
u16-packed v = omega arith

u24-packed : (v : ℕ) → v / 65536 * 65536 + v / 256 % 256 * 256 + v % 256 ≡ v
u24-packed v = omega arith

blank_or :
    (b : Bool) (c : Cell) (n : ℕ)
    → ◌≡◌ {A = Option Cell × ℕ}
        (if b then (none, n) else (some c, n))
        ((if b then none else some c), n)
blank_or true c n = refl
blank_or false c n = refl

decode_cell_narrow :
    (c : Cell) (rest : Bytes)
    → FitsCell false c
    → decode_cell (pack_cell false c ++ rest) ≡ ((if is_blank c then none else some c), 8)
unfolding decode_cell decode_cell_at
decode_cell_narrow c rest (hm, hn, hl, hc) =
    let flag : bit_and c.mcc 0x8000 ≡ 0 = omega (arith, bit_and_mnc_flag c.mcc) in
    let mcc : bit_and c.mcc 0x7fff ≡ c.mcc = omega (arith, bit_and_low_15 c.mcc) in
    let two : ltb (length (pack_cell false c ++ rest)) 2 ≡ false = ground arith in
    let all : ltb (length (pack_cell false c ++ rest)) 8 ≡ false = ground arith in
    rw (two, u16-packed c.mcc, flag, all, mcc, u16-packed c.lac, u24-packed c.cell_id)
      (blank_or (is_blank c) c _)

decode_cell_wide :
    (c : Cell) (rest : Bytes)
    → FitsCell true c
    → decode_cell (pack_cell true c ++ rest) ≡ ((if is_blank c then none else some c), 9)
unfolding decode_cell decode_cell_at
decode_cell_wide c rest (hm, hn, hl, hc) =
    let word = c.mcc + 32768 in
    let flag : bit_and word 0x8000 ≡ 32768 = omega (arith, bit_and_mnc_flag word) in
    let mcc : bit_and word 0x7fff ≡ c.mcc = omega (arith, bit_and_low_15 word) in
    let two : ltb (length (pack_cell true c ++ rest)) 2 ≡ false = ground arith in
    let all : ltb (length (pack_cell true c ++ rest)) 9 ≡ false = ground arith in
    rw
      (
        two,
        u16-packed word,
        flag,
        all,
        mcc,
        u16-packed c.mnc,
        u16-packed c.lac,
        u24-packed c.cell_id,
      )
      (blank_or (is_blank c) c _)

-- A cell block reads back as the cell that it packs, in both widths of the MNC and whatever follows,
-- and takes its own length; a block with MCC, LAC and cell id all zero reads as no cell.
pub decode_cell-pack_cell :
    (wide : Bool) (c : Cell) (rest : Bytes)
    → FitsCell wide c
    → decode_cell (pack_cell wide c ++ rest)
      ≡ ((if is_blank c then none else some c), cell_size wide)
decode_cell-pack_cell false c rest h = decode_cell_narrow c rest h
decode_cell-pack_cell true c rest h = decode_cell_wide c rest h
