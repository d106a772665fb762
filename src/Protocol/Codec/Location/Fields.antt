-- ===== src/Protocol/Codec/Location/Fields.antt =====
-- The fields of a decoded location: their ranges, and the values that were packed.
use Prim.Native.Nat.{bit_and}
use gps_tracking.Prelude.{
  ◌==◌, ℕ, ◌+◌, ◌*◌, ◌/◌, ◌%◌, ◌≤◌, ◌<◌, ◌≡◌, refl, Bool, true, false, not, ◌&&◌, Option, some, ◌∷◌,
  ◌++◌, length, ltb, if◌then◌else◌, arith, Bool-cases, inl, inr,
}
use mathlib.Core.Path.{subst}
use gps_tracking.Prelude.Bits.{bit_and_nibble}
use gps_tracking.Prelude.Int.{signed, abs}
use gps_tracking.Protocol.Bytes.{Bytes, byte_at, u16_at, u32_at, pack_u16, pack_u32}
use gps_tracking.Protocol.Codec.Clock.{
  DateTime, is_datetime, decode_timestamp, clock_bytes, decode_timestamp-clock_bytes,
}
use gps_tracking.Protocol.Codec.Cell.{Text, Cell}
use gps_tracking.Protocol.Codec.Location.{
  location, LocationEvent, in_range, flag_set, micro_degrees, event_of, decode_tail,
  decode_location,
}
use gps_tracking.Protocol.Codec.Location.Flags.{
  bit_and_course, bit_and_north, bit_and_west, bit_and_gps_fixed,
}

-- The coordinate is the micro-degree next to `raw / 1800000` degrees: less than half of one away.
pub micro_degrees_nearest :
    (raw : ℕ)
    → (2 * (9 * micro_degrees raw) < 2 * (5 * raw) + 9)
      × (2 * (5 * raw) < 2 * (9 * micro_degrees raw) + 9)
unfolding micro_degrees
micro_degrees_nearest raw = omega arith

abs-signed : (b : Bool) (n : ℕ) → abs (signed b n) ≡ n
abs-signed b n = ground arith

-- The ranges that every published location keeps.
pub record IsLocation (e : LocationEvent) : Type 0 where
  pub latitude_range : abs e.latitude ≤ 90000000
  pub longitude_range : abs e.longitude ≤ 180000000
  pub course_range : e.course_deg < 1024
  pub satellites_range : e.satellites < 16
  pub fixed_by_satellites : (e.gps_fixed && e.satellites == 0) ≡ false

decode_location-some :
    (content : Bytes) (id : Text) (protocol : ℕ) (e : LocationEvent)
    → decode_location content id protocol ≡ some e
    → (in_range (u32_at content 7) (u32_at content 11) ≡ true) × (event_of content id protocol ≡ e)
unfolding decode_location
decode_location-some content id protocol e h = elim (Bool-cases (ltb (length content) 18)) [
  | inl short ↦ cc (rw short at h)
  | inr long ↦ elim (Bool-cases (in_range (u32_at content 7) (u32_at content 11))) [
    | inr out ↦ cc (rw (long, out) at h)
    | inl within ↦ let same = rw (long, within) at h in (within, cc same)
  ]
]

event_of-IsLocation :
    (content : Bytes) (id : Text) (protocol : ℕ)
    → in_range (u32_at content 7) (u32_at content 11) ≡ true
    → IsLocation (event_of content id protocol)
unfolding micro_degrees
event_of-IsLocation content id protocol h = record {
  latitude_range = rw abs-signed (ground arith);
  longitude_range = rw abs-signed (ground arith);
  course_range = omega (arith, bit_and_course (u16_at content 16));
  satellites_range = omega (arith, bit_and_nibble (byte_at content 6));
  fixed_by_satellites = ground arith;
}

-- Every decoded location has a latitude of at most 90 and a longitude of at most 180 degrees, a course
-- below 1024, at most 15 satellites, and says that it is a fix only with a satellite in view.
pub decode_location-IsLocation :
    (content : Bytes) (id : Text) (protocol : ℕ) (e : LocationEvent)
    → decode_location content id protocol ≡ some e
    → IsLocation e
decode_location-IsLocation content id protocol e h =
    let (within, same) = decode_location-some content id protocol e h in
    subst IsLocation same (event_of-IsLocation content id protocol within)

-- The fields of a location packet's first 18 bytes, as the protocol lays them out.
pub record Report : Type 0 where
  pub time : DateTime
  pub satellites : ℕ
  pub lat_raw : ℕ
  pub lon_raw : ℕ
  pub speed : ℕ
  pub course : ℕ
  pub north : Bool
  pub west : Bool
  pub fixed : Bool

abbrev pub flag_value : Bool → ℕ → ℕ
flag_value b bit = if b then bit else 0

abbrev pub flags_of : Report → ℕ
flags_of r =
    r.course + flag_value r.north 0x0400 + flag_value r.west 0x0800 + flag_value r.fixed 0x1000

abbrev pub pack_report : Report → Bytes
pack_report r =
    clock_bytes r.time
    ++ ((0xc0 + r.satellites)
        ∷ (pack_u32 r.lat_raw ++ (pack_u32 r.lon_raw ++ (r.speed ∷ pack_u16 (flags_of r)))))

pub record IsReport (r : Report) : Type 0 where
  pub time_valid : is_datetime r.time ≡ true
  pub since_2000 : 2000 ≤ r.time.year
  pub few_satellites : r.satellites < 16
  pub within : in_range r.lat_raw r.lon_raw ≡ true
  pub course_fits : r.course < 1024

module _ (r : Report) (h : IsReport r) where
  north-flags : flag_set (flags_of r) 0x0400 ≡ r.north
  north-flags = ground (arith, bit_and_north (flags_of r))

  west-flags : flag_set (flags_of r) 0x0800 ≡ r.west
  west-flags = ground (arith, bit_and_west (flags_of r))

  fixed-flags : flag_set (flags_of r) 0x1000 ≡ r.fixed
  fixed-flags = ground (arith, bit_and_gps_fixed (flags_of r))

  course-flags : bit_and (flags_of r) 0x03ff ≡ r.course
  course-flags = ground (arith, bit_and_course (flags_of r))

u16-packed : (v : ℕ) → v / 256 * 256 + v % 256 ≡ v
u16-packed v = omega arith

u32-packed :
    (v : ℕ) → v / 16777216 * 16777216 + v / 65536 % 256 * 65536 + v / 256 % 256 * 256 + v % 256 ≡ v
u32-packed v = omega arith

-- The event that a report stands for, with what the rest of the packet says.
abbrev pub reported : Report → Text → Option Cell × Option Bool → LocationEvent
reported r id tail = record {
  device_id = id;
  latitude = signed (not r.north) (micro_degrees r.lat_raw);
  longitude = signed r.west (micro_degrees r.lon_raw);
  speed_kmh = r.speed;
  course_deg = r.course;
  gps_fixed = r.fixed && ltb 0 r.satellites;
  satellites = r.satellites;
  fixed_at = some r.time;
  event_type = location;
  cell = tail.0;
  ignition = tail.1;
}

-- A packet laid out from a report in range decodes to that report: its time, its satellites, its speed,
-- its course, its coordinates in micro-degrees with the hemispheres' signs, and a fix only where there
-- is a satellite. Cell and ignition come from the bytes that follow.
pub decode_location-pack_report :
    (r : Report) (more : Bytes) (id : Text) (protocol : ℕ)
    → IsReport r
    → let content = pack_report r ++ more in
      decode_location content id protocol ≡ some (reported r id (decode_tail protocol content))
unfolding decode_location
decode_location-pack_report r more id protocol h =
    let content = pack_report r ++ more in
    let long : ltb (length content) 18 ≡ false = ground arith in
    let time : decode_timestamp content ≡ some r.time =
      decode_timestamp-clock_bytes r.time _ h.time_valid h.since_2000 in
    let satellites : bit_and (0xc0 + r.satellites) 0x0f ≡ r.satellites =
      omega (arith, bit_and_nibble (0xc0 + r.satellites), h.few_satellites) in
    rw
      (
        long,
        u32-packed r.lat_raw,
        u32-packed r.lon_raw,
        h.within,
        u16-packed (flags_of r),
        north-flags r h,
        west-flags r h,
        fixed-flags r h,
        course-flags r h,
        satellites,
        time,
      )
      refl
