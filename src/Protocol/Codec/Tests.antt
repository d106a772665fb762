-- ===== src/Protocol/Codec/Tests.antt =====
-- Runs of the codec on packets of a tracker.
use gps_tracking.Prelude.{
  inl, inr, ℕ, ◌+◌, ◌≡◌, refl, true, false, some, List, [], ◌∷◌, ◌++◌, All, ltb, arith,
}
use gps_tracking.Protocol.Bytes.{Bytes}
use gps_tracking.Protocol.Result.{ok}
use gps_tracking.Protocol.Framing.{Frame}
use gps_tracking.Protocol.Framing.Wire.{IsWire}
use gps_tracking.Protocol.Constants.{proto_time_request}
use gps_tracking.Protocol.Codec.Login.{decode_login}
use gps_tracking.Protocol.Codec.Login.Imei.{
  pack_bcd, digit_text, IsDigitPair, decode_login-pack_bcd,
}
use gps_tracking.Protocol.Codec.Clock.{
  DateTime, is_leap, days_in_month, is_datetime, decode_timestamp, build_time_response,
  build_time_response-decode_timestamp,
}
use gps_tracking.Protocol.Codec.Cell.{Text, Cell, decode_cell}
use gps_tracking.Protocol.Codec.Cell.RoundTrip.{pack_cell, decode_cell-pack_cell}
use gps_tracking.Protocol.Codec.Location.{decode_tail, decode_location}
use gps_tracking.Protocol.Codec.Location.Fields.{
  Report, IsReport, IsLocation, pack_report, reported, decode_location-IsLocation,
  decode_location-pack_report,
}
use gps_tracking.Protocol.Codec.Reply.{decode_command_reply}
use gps_tracking.Protocol.Codec.Reply.Trimming.{IsPadded}
use gps_tracking.Protocol.Codec.Reply.Flag.{
  classic_reply, new_reply, wide_reply, decode_command_reply-flag,
}

-- The IMEI 351608080779288.
abbrev imei_digits : List (ℕ × ℕ)
imei_digits = (5, 1) ∷ (6, 0) ∷ (8, 0) ∷ (8, 0) ∷ (7, 7) ∷ (9, 2) ∷ (8, 8) ∷ []

abbrev imei : Text
imei = (b'0' + 3) ∷ digit_text imei_digits

abbrev login_content : Bytes
login_content = pack_bcd ((0, 3) ∷ imei_digits) ++ (0x80 ∷ [])

imei-IsDigitPair : All IsDigitPair imei_digits
imei-IsDigitPair =
    let digits : (a b : ℕ) → ltb a 10 ≡ true → ltb b 10 ≡ true → IsDigitPair (a, b) =
      λ a b ha hb. (ground arith, ground arith) in
    (
      digits 5 1 refl refl,
      (
        digits 6 0 refl refl,
        (
          digits 8 0 refl refl,
          (
            digits 8 0 refl refl,
            (digits 7 7 refl refl, (digits 9 2 refl refl, (digits 8 8 refl refl, tt))),
          ),
        ),
      ),
    )

decode_login-pack_bcd_example : decode_login login_content ≡ some imei
decode_login-pack_bcd_example =
    decode_login-pack_bcd 3 imei_digits (0x80 ∷ []) (omega arith) imei-IsDigitPair refl

login_content-imei : decode_login login_content ≡ some imei
login_content-imei =
    decode_login-pack_bcd 3 imei_digits (0x80 ∷ []) (omega arith) imei-IsDigitPair refl

abbrev leap_day : DateTime
leap_day = record { year = 2024; month = 2; day = 29; hour = 23; minute = 59; second = 58 }

leap_day-valid : is_datetime leap_day ≡ true
unfolding is_leap days_in_month
leap_day-valid = refl

build_time_response-decode_timestamp_example :
    (w : Bytes) × (f : Frame) × (build_time_response 9 leap_day ≡ ok w)
    × IsWire w f
    × (f.protocol ≡ proto_time_request)
    × (f.serial ≡ 9)
    × (decode_timestamp f.content ≡ some leap_day)
build_time_response-decode_timestamp_example =
    build_time_response-decode_timestamp 9 leap_day (omega arith) leap_day-valid (omega arith)
      (omega arith)

abbrev tower : Cell
tower = record { mcc = 404; mnc = 300; lac = 1234; cell_id = 56789 }

decode_cell-pack_cell_example : decode_cell (pack_cell true tower ++ (0x01 ∷ [])) ≡ (some tower, 9)
decode_cell-pack_cell_example =
    decode_cell-pack_cell true tower (0x01 ∷ [])
      (omega arith, omega arith, omega arith, omega arith)

abbrev fix : Report
fix = record {
  time = leap_day;
  satellites = 9;
  lat_raw = 22334455;
  lon_raw = 139876543;
  speed = 62;
  course = 271;
  north = true;
  west = false;
  fixed = true;
}

fix-IsReport : IsReport fix
fix-IsReport = record {
  time_valid = leap_day-valid;
  since_2000 = omega arith;
  few_satellites = omega arith;
  within = refl;
  course_fits = omega arith;
}

abbrev fix_content : Bytes
fix_content = pack_report fix ++ []

decode_location-pack_report_example :
    decode_location fix_content imei 0x12 ≡ some (reported fix imei (decode_tail 0x12 fix_content))
decode_location-pack_report_example = decode_location-pack_report fix [] imei 0x12 fix-IsReport

decode_location-IsLocation_example : IsLocation (reported fix imei (decode_tail 0x12 fix_content))
decode_location-IsLocation_example =
    decode_location-IsLocation fix_content imei 0x12
      (reported fix imei (decode_tail 0x12 fix_content))
      (decode_location-pack_report fix [] imei 0x12 fix-IsReport)

-- "OK"
abbrev okay : Text
okay = 0x4f ∷ 0x4b ∷ []

-- The same with a space before it and a NUL behind.
abbrev padded_okay : Text
padded_okay = 0x20 ∷ 0x4f ∷ 0x4b ∷ 0 ∷ []

padded_okay-IsPadded : IsPadded padded_okay okay
padded_okay-IsPadded = (
  [],
  0x20 ∷ [],
  [],
  0 ∷ [],
  refl,
  tt,
  (inl refl, tt),
  (
    (0x4f, 0x4b ∷ [], refl, (omega arith, omega arith)),
    (0x4b, 0x4f ∷ [], refl, (omega arith, omega arith)),
  ),
  tt,
  (refl, tt),
)

-- "O", U+1F697, "K"
abbrev car_okay : Text
car_okay = 0x4f ∷ 0x1f697 ∷ 0x4b ∷ []

car_okay-IsPadded : IsPadded car_okay car_okay
car_okay-IsPadded = (
  [],
  [],
  [],
  [],
  refl,
  tt,
  tt,
  (
    (0x4f, 0x1f697 ∷ 0x4b ∷ [], refl, (omega arith, omega arith)),
    (0x4b, 0x4f ∷ 0x1f697 ∷ [], refl, (omega arith, omega arith)),
  ),
  tt,
  tt,
)

decode_command_reply-flag_example :
    (decode_command_reply 0x15 (classic_reply 77 padded_okay (0 ∷ 2 ∷ []))
      ≡ some (record { server_flag = 77; text = okay }))
    × (decode_command_reply 0x21 (new_reply 77 padded_okay)
        ≡ some (record { server_flag = 77; text = okay }))
    × (decode_command_reply 0x21 (wide_reply 77 car_okay)
        ≡ some (record { server_flag = 77; text = car_okay }))
decode_command_reply-flag_example =
    decode_command_reply-flag 77 padded_okay okay car_okay car_okay (0 ∷ 2 ∷ [])
      (omega arith, (omega arith, (omega arith, (omega arith, tt)))) padded_okay-IsPadded
      (inl (omega arith), (inr (omega arith, omega arith), (inl (omega arith), tt)))
      car_okay-IsPadded
