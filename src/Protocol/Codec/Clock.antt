-- ===== src/Protocol/Codec/Clock.antt =====
-- Date fields of gps_gateway/protocol/codec.py: `_decode_timestamp` and `build_time_response`.
-- `datetime(...)` of Python's library is its range check, on the proleptic Gregorian calendar.
use gps_tracking.Prelude.{
  ℕ, ◌+◌, ◌-◌, ◌%◌, ◌≤◌, ◌<◌, ◌≡◌, refl, sym, ap, ◌∙◌, Bool, true, false, not, ◌&&◌, ◌||◌, Option,
  none, some, [], ◌∷◌, ◌++◌, leb, ltb, ◌==◌, if◌then◌else◌, arith, inl, inr, Bool-cases,
}
use gps_tracking.Protocol.Bytes.{Bytes, byte_at}
use gps_tracking.Protocol.Constants.{proto_time_request}
use gps_tracking.Protocol.Result.{Result, ok, err, value_error, ◌>>=◌}
use gps_tracking.Protocol.Framing.{Frame}
use gps_tracking.Protocol.Framing.Wire.{short_wire, IsWire}
use gps_tracking.Protocol.Codec.Build.{single_byte, build_frame}
use gps_tracking.Protocol.Codec.Build.RoundTrip.{built_frame, build_frame_total}

-- A `datetime` in UTC, to the second.
pub record DateTime : Type 0 where
  pub year : ℕ
  pub month : ℕ
  pub day : ℕ
  pub hour : ℕ
  pub minute : ℕ
  pub second : ℕ

unfoldable pub is_leap : ℕ → Bool
is_leap year = year % 4 == 0 && (not (year % 100 == 0) || year % 400 == 0)

unfoldable pub days_in_month : ℕ → ℕ → ℕ
days_in_month year month =
    if month == 2
    then if is_leap year then 29 else 28
    else if month == 4 || month == 6 || month == 9 || month == 11
    then 30
    else 31

abbrev pub is_datetime : DateTime → Bool
is_datetime t =
    leb 1 t.year
    && leb t.year 9999
    && leb 1 t.month
    && leb t.month 12
    && leb 1 t.day
    && leb t.day (days_in_month t.year t.month)
    && ltb t.hour 24
    && ltb t.minute 60
    && ltb t.second 60

-- `datetime(...)`, where `none` is its `ValueError`.
pub make_datetime : DateTime → Option DateTime
make_datetime t = if is_datetime t then some t else none

-- The callers have checked that there are six bytes.
pub decode_timestamp : Bytes → Option DateTime
decode_timestamp content = make_datetime (record {
  year = 2000 + byte_at content 0;
  month = byte_at content 1;
  day = byte_at content 2;
  hour = byte_at content 3;
  minute = byte_at content 4;
  second = byte_at content 5;
})

-- `bytes([t.year - 2000, …])`; a year before 2000 gives a negative number, a `ValueError`.
pub time_content : DateTime → Result Bytes
time_content t = if ltb t.year 2000 then err value_error else do
  yy ← single_byte (t.year - 2000)
  mm ← single_byte t.month
  dd ← single_byte t.day
  hh ← single_byte t.hour
  mi ← single_byte t.minute
  ss ← single_byte t.second
  ok (yy ++ (mm ++ (dd ++ (hh ++ (mi ++ ss)))))

-- `t` is the clock's reading.
pub build_time_response : ℕ → DateTime → Result Bytes
build_time_response serial t = do
  content ← time_content t
  build_frame proto_time_request serial content

make_datetime-some : (r t : DateTime) → make_datetime r ≡ some t → (is_datetime r ≡ true) × (r ≡ t)
unfolding make_datetime
make_datetime-some r t e = elim (Bool-cases (is_datetime r)) [
  | inl valid ↦ let same = rw valid at e in (valid, cc same)
  | inr bad ↦ cc (rw bad at e)
]

-- A decoded timestamp is a date and time of the calendar, in the year 2000 or later.
pub decode_timestamp-is_datetime :
    (content : Bytes) (t : DateTime)
    → decode_timestamp content ≡ some t
    → (is_datetime t ≡ true) × (2000 ≤ t.year)
unfolding decode_timestamp
decode_timestamp-is_datetime content t e =
    let (valid, same) = make_datetime-some _ t e in
    (
      ap (λ (r : DateTime). is_datetime r) (sym same) ∙ valid,
      omega (arith, ap (λ (r : DateTime). r.year) same),
    )

abbrev pub clock_bytes : DateTime → Bytes
clock_bytes t = (t.year - 2000) ∷ t.month ∷ t.day ∷ t.hour ∷ t.minute ∷ t.second ∷ []

days_in_month-le : (year month : ℕ) → days_in_month year month ≤ 31
unfolding days_in_month
days_in_month-le year month = ground arith

pub datetime_bounds :
    (t : DateTime)
    → is_datetime t ≡ true
    → (t.month ≤ 12) × (t.day ≤ 31) × (t.hour < 24) × (t.minute < 60) × (t.second < 60)
datetime_bounds t h = ground (arith, days_in_month-le t.year t.month)

single_byte-lt : (n : ℕ) → n < 256 → single_byte n ≡ ok (n ∷ [])
single_byte-lt n h = ground arith

time_content-eq :
    (t : DateTime)
    → is_datetime t ≡ true
    → 2000 ≤ t.year
    → t.year < 2256
    → time_content t ≡ ok (clock_bytes t)
unfolding time_content
time_content-eq t h lo hi =
    let (mm, dd, hh, mi, ss) = datetime_bounds t h in
    let since : ltb t.year 2000 ≡ false = ground arith in
    rw
      (
        since,
        single_byte-lt (t.year - 2000) (omega arith),
        single_byte-lt t.month (omega arith),
        single_byte-lt t.day (omega arith),
        single_byte-lt t.hour (omega arith),
        single_byte-lt t.minute (omega arith),
        single_byte-lt t.second (omega arith),
      )
      refl

pub decode_timestamp-clock_bytes :
    (t : DateTime) (more : Bytes)
    → is_datetime t ≡ true
    → 2000 ≤ t.year
    → decode_timestamp (clock_bytes t ++ more) ≡ some t
unfolding decode_timestamp make_datetime
decode_timestamp-clock_bytes t more h lo =
    let year : 2000 + (t.year - 2000) ≡ t.year = omega arith in rw (year, h) refl

pub build_time_response-eq :
    (serial : ℕ) (t : DateTime)
    → serial < 65536
    → is_datetime t ≡ true
    → 2000 ≤ t.year
    → t.year < 2256
    → build_time_response serial t
      ≡ ok (short_wire (built_frame proto_time_request serial (clock_bytes t)))
unfolding build_time_response
build_time_response-eq serial t hs h lo hi =
    let (mm, dd, hh, mi, ss) = datetime_bounds t h in
    rw (time_content-eq t h lo hi) (
      build_frame_total proto_time_request serial (clock_bytes t) (omega arith) hs (omega arith)
        (omega arith))

-- The answer to a time request is a frame with protocol number 0x8A and the request's serial, whose
-- content decodes, as a timestamp of the protocol, to the time that was sent.
pub build_time_response-decode_timestamp :
    (serial : ℕ) (t : DateTime)
    → serial < 65536
    → is_datetime t ≡ true
    → 2000 ≤ t.year
    → t.year < 2256
    → (w : Bytes) × (f : Frame) × (build_time_response serial t ≡ ok w)
      × IsWire w f
      × (f.protocol ≡ proto_time_request)
      × (f.serial ≡ serial)
      × (decode_timestamp f.content ≡ some t)
build_time_response-decode_timestamp serial t hs h lo hi =
    let f = built_frame proto_time_request serial (clock_bytes t) in
    (
      short_wire f,
      f,
      build_time_response-eq serial t hs h lo hi,
      inl ((omega arith, refl, refl), refl),
      refl,
      refl,
      decode_timestamp-clock_bytes t [] h lo,
    )
