-- ===== src/Protocol/Constants.antt =====
-- gps_gateway/protocol/constants.py
use gps_tracking.Prelude.{ℕ, [], ◌∷◌}
use gps_tracking.Protocol.Bytes.{Bytes}

abbrev pub start_short : Bytes
start_short = 0x78 ∷ 0x78 ∷ []

abbrev pub start_long : Bytes
start_long = 0x79 ∷ 0x79 ∷ []

abbrev pub stop_bits : Bytes
stop_bits = 0x0d ∷ 0x0a ∷ []

abbrev pub trailer_len : ℕ
trailer_len = 4

abbrev pub proto_login : ℕ
proto_login = 0x01

abbrev pub proto_location : ℕ
proto_location = 0x12

abbrev pub proto_location_acc : ℕ
proto_location_acc = 0x22

abbrev pub proto_heartbeat : ℕ
proto_heartbeat = 0x13

abbrev pub proto_alarm : ℕ
proto_alarm = 0x16

abbrev pub proto_lbs : ℕ
proto_lbs = 0x18

abbrev pub proto_time_request : ℕ
proto_time_request = 0x8a

abbrev pub proto_command : ℕ
proto_command = 0x80

abbrev pub proto_command_reply : ℕ
proto_command_reply = 0x15

abbrev pub proto_command_reply_new : ℕ
proto_command_reply_new = 0x21
