-- ===== src/Protocol/Codec/Location.antt =====
-- `decode_location` of gps_gateway/protocol/codec.py and `LocationEvent` of gps_gateway/models.py.
-- Coordinates are whole micro-degrees: the code divides a whole number of 1/1800000 degrees and rounds
-- to six decimals, and the quotient `raw * 5 / 9` is never half-way between two micro-degrees, so the
-- rounding is exact in spite of the floats. The limits of 90 and 180 degrees are whole raw numbers.
mod Flags
pub mod Fields
use Prim.Native.Nat.{bit_and}
use gps_tracking.Prelude.{
  ℕ, ◌+◌, ◌*◌, ◌/◌, Bool, not, ◌&&◌, Option, none, some, drop, slice, length, ltb, leb, ◌==◌, max,
  if◌then◌else◌,
}
use gps_tracking.Prelude.Int.{ℤ, signed}
use gps_tracking.Protocol.Bytes.{Bytes, byte_at, u16_at, u32_at}
use gps_tracking.Protocol.Constants.{proto_location_acc, proto_alarm}
use gps_tracking.Protocol.Codec.Clock.{DateTime, decode_timestamp}
use gps_tracking.Protocol.Codec.Cell.{Text, Cell, decode_cell, ignition_of}

pub data EventType : Type 0 where
  location alarm : EventType

pub record LocationEvent : Type 0 where
  pub device_id : Text
  pub latitude : ℤ
  pub longitude : ℤ
  pub speed_kmh : ℕ
  pub course_deg : ℕ
  pub gps_fixed : Bool
  pub satellites : ℕ
  pub fixed_at : Option DateTime
  pub event_type : EventType
  pub cell : Option Cell
  pub ignition : Option Bool

abbrev pub course_mask : ℕ
course_mask = 0x03ff

abbrev pub bit_north : ℕ
bit_north = 0x0400

abbrev pub bit_west : ℕ
bit_west = 0x0800

abbrev pub bit_gps_fixed : ℕ
bit_gps_fixed = 0x1000

abbrev pub location_min_len : ℕ
location_min_len = 18

-- `flags & bit`, as a truth value.
abbrev pub flag_set : ℕ → ℕ → Bool
flag_set flags bit = not (bit_and flags bit == 0)

-- `round(raw / _COORD_SCALE, 6)` in micro-degrees.
unfoldable pub micro_degrees : ℕ → ℕ
micro_degrees raw = (raw * 10 + 9) / 18

-- The branches on the protocol: what follows the first 18 bytes.
pub acc_byte : ℕ → Bytes → ℕ → Option Bool
acc_byte protocol tail consumed =
    if protocol == proto_location_acc && not (consumed == 0) && ltb consumed (length tail)
    then some (not (byte_at tail consumed == 0))
    else none

pub alarm_cell : Bytes → ℕ → Option Cell
alarm_cell content lbs_len =
    if lbs_len == 0
    then none
    else (decode_cell (slice content (location_min_len + 1) (location_min_len + lbs_len))).0

pub decode_tail : ℕ → Bytes → Option Cell × Option Bool
decode_tail protocol content =
    let tail = drop location_min_len content in
    let found = decode_cell tail in
    let lbs_len = byte_at content location_min_len in
    let status_at = location_min_len + max lbs_len 1 in
    if not (protocol == proto_alarm)
    then (found.0, acc_byte protocol tail found.1)
    else if ltb location_min_len (length content)
    then (
      alarm_cell content lbs_len,
      (if ltb status_at (length content)
          then some (ignition_of (byte_at content status_at))
          else none),
    )
    else (none, none)

abbrev pub in_range : ℕ → ℕ → Bool
in_range lat_raw lon_raw = leb lat_raw 162000000 && leb lon_raw 324000000

abbrev pub event_of : Bytes → Text → ℕ → LocationEvent
event_of content device_id protocol =
    let flags = u16_at content 16 in
    let satellites = bit_and (byte_at content 6) 0x0f in
    let tail = decode_tail protocol content in
    record {
      device_id = device_id;
      latitude = signed (not (flag_set flags bit_north)) (micro_degrees (u32_at content 7));
      longitude = signed (flag_set flags bit_west) (micro_degrees (u32_at content 11));
      speed_kmh = byte_at content 15;
      course_deg = bit_and flags course_mask;
      gps_fixed = flag_set flags bit_gps_fixed && ltb 0 satellites;
      satellites = satellites;
      fixed_at = decode_timestamp content;
      event_type = location;
      cell = tail.0;
      ignition = tail.1;
    }

pub decode_location : Bytes → Text → ℕ → Option LocationEvent
decode_location content device_id protocol =
    if ltb (length content) location_min_len
    then none
    else if in_range (u32_at content 7) (u32_at content 11)
    then some (event_of content device_id protocol)
    else none
