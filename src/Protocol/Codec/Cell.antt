-- ===== src/Protocol/Codec/Cell.antt =====
-- `_decode_cell`, `_ignition`, `decode_heartbeat` and `decode_lbs` of gps_gateway/protocol/codec.py,
-- and the events of gps_gateway/models.py that they give.
pub mod RoundTrip
use Prim.Native.Nat.{bit_and}
use gps_tracking.Prelude.{
  ℕ, ◌+◌, ◌-◌, ◌*◌, Bool, not, ◌&&◌, Option, none, some, List, [], ◌∷◌, length, drop, ltb, ◌==◌,
  if◌then◌else◌,
}
use gps_tracking.Protocol.Bytes.{Bytes, byte_at, u16_at}
use gps_tracking.Protocol.Codec.Clock.{DateTime, decode_timestamp}

abbrev pub Text : Type 0
Text = List ℕ

-- (mcc, mnc, lac, cell_id)
pub record Cell : Type 0 where
  pub mcc : ℕ
  pub mnc : ℕ
  pub lac : ℕ
  pub cell_id : ℕ

abbrev pub cell_len : ℕ
cell_len = 8

abbrev pub bit_mnc_2_bytes : ℕ
bit_mnc_2_bytes = 0x8000

-- `int.from_bytes(data[i:i + 3], "big")`
abbrev pub u24_at : Bytes → ℕ → ℕ
u24_at buf i = byte_at buf i * 65536 + byte_at buf (i + 1) * 256 + byte_at buf (i + 2)

-- `~_BIT_MNC_2_BYTES & 0xFFFF` is the mask 0x7FFF.
pub decode_cell_at : ℕ → ℕ → Bytes → Option Cell × ℕ
decode_cell_at mcc_word mnc_len bytes =
    let consumed = cell_len - 1 + mnc_len in
    let mcc = bit_and mcc_word 0x7fff in
    let mnc = if mnc_len == 2 then u16_at bytes 2 else byte_at bytes 2 in
    let lac = u16_at bytes (2 + mnc_len) in
    let cell_id = u24_at bytes (4 + mnc_len) in
    if ltb (length bytes) consumed
    then (none, 0)
    else if mcc == 0 && lac == 0 && cell_id == 0
    then (none, consumed)
    else (some (record { mcc = mcc; mnc = mnc; lac = lac; cell_id = cell_id }), consumed)

unfoldable pub decode_cell : Bytes → Option Cell × ℕ
decode_cell bytes =
    let mcc_word = u16_at bytes 0 in
    if ltb (length bytes) 2
    then (none, 0)
    else decode_cell_at mcc_word (if not (bit_and mcc_word bit_mnc_2_bytes == 0) then 2 else 1)
        bytes

pub ignition_of : ℕ → Bool
ignition_of terminal_info = not (bit_and terminal_info 0x02 == 0)

-- `received_at` is the clock's reading at the decoding, which the events' consumers only pass on;
-- it is left out here and in the other events.
pub record StatusEvent : Type 0 where
  pub device_id : Text
  pub ignition : Bool

pub decode_heartbeat : Bytes → Text → Option StatusEvent
decode_heartbeat [] device_id = none
decode_heartbeat (terminal_info ∷ content) device_id =
    some (record { device_id = device_id; ignition = ignition_of terminal_info })

pub record CellReport : Type 0 where
  pub device_id : Text
  pub cell : Cell
  pub signal : Option ℕ
  pub reported_at : Option DateTime

abbrev pub lbs_min_len : ℕ
lbs_min_len = 6 + cell_len

pub report_of : Bytes → Text → Option Cell × ℕ → Option CellReport
report_of content device_id (none, consumed) = none
report_of content device_id (some cell, consumed) = some (record {
  device_id = device_id;
  cell = cell;
  signal =
      if ltb (6 + consumed) (length content) then some (byte_at content (6 + consumed)) else none;
  reported_at = decode_timestamp content;
})

pub decode_lbs : Bytes → Text → Option CellReport
decode_lbs content device_id =
    if ltb (length content) lbs_min_len
    then none
    else report_of content device_id (decode_cell (drop 6 content))
