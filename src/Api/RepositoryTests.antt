-- ===== src/Api/RepositoryTests.antt =====
-- Runs of the command queue, the allowlist and the alerts history over both backends.
use gps_tracking.Prelude.{
  true, ◌≡◌, ◌≢◌, false, not, ◌&&◌, none, some, [], ◌∷◌, keep, arith, if◌then◌else◌,
}
use gps_tracking.Prelude.Dict.{lookup}
use gps_tracking.Protocol.Codec.Cell.{Text}
use gps_tracking.Gateway.Text.{text_eq}
use gps_tracking.Api.Commands as Memory
use gps_tracking.Api.Commands.{cut, restore, Command, Commands, new_commands, command_ttl}
use gps_tracking.Api.Commands.Pending.{
  replaced_by, unaffected, waiting_cut, other_waiting, create-waiting, set_relay_enabled-waiting,
}
use gps_tracking.Api.Commands.Sql as Sql
use gps_tracking.Api.Commands.Sql.{Tables, Users}
use gps_tracking.Api.Commands.Sql.Refinement.{
  view, IsFresh, create-refines, set_relay_enabled-refines,
}
use gps_tracking.Api.Trackers.{new_trackers}
use gps_tracking.Api.Trackers.Standing.{IsApart, standing, step, spec, login, step-refines}
use gps_tracking.Api.Alerts.{AlertViewer, Alerts, Query, list_alerts, unread}
use gps_tracking.Api.Alerts.Sql.{sql_list_alerts, sql_unread, sql_list_alerts-eq}
use gps_tracking.Prelude.Int.{pos}
use gps_tracking.Api.Geofences.{
  circle, enter, exit, GeofenceShape, GeofenceFields, GeofenceEventOut, Geofences, create_geofence,
  record_event,
}
use gps_tracking.Api.Geofences.Report as Report
use gps_tracking.Api.Geofences.Report.{same_pair}

abbrev car : Text
car = b'8' ∷ b'6' ∷ []

abbrev van : Text
van = b'8' ∷ b'7' ∷ []

abbrev text : Text
text = b'R' ∷ []

-- A cut waits for the car.
abbrev queue : Commands
queue = (Memory.create new_commands 1000 car cut text command_ttl none).1

create-waiting_example :
    let (c, r') = Memory.create queue 2000 car restore text 300 none in
    (keep (replaced_by 2000 car restore) r'.commands ≡ c ∷ [])
    × (keep (unaffected 2000 car restore van) r'.commands
        ≡ keep (unaffected 2000 car restore van) queue.commands)
create-waiting_example = create-waiting queue 2000 car restore text 300 none van (omega arith)

set_relay_enabled-waiting_example :
    let r' = (Memory.set_relay_enabled queue 2000 car false none).1 in
    (keep (waiting_cut 2000 car) r'.commands ≡ [])
    × (keep (other_waiting 2000 car van) r'.commands
        ≡ keep (other_waiting 2000 car van) queue.commands)
    × ((r'.relay van).enabled ≡ ((queue.relay van).enabled && not (text_eq car van)))
set_relay_enabled-waiting_example = set_relay_enabled-waiting queue 2000 car van none

abbrev names : Users
names = λ id. none

abbrev no_rows : Tables
no_rows = record { rows = []; next_id = 1; relay = λ id. none }

create-refines_example :
    let (answer, t') = Sql.create names no_rows 2000 car cut text 300 (some 1) in
    let (c, r') =
      Memory.create (view names no_rows) 2000 car cut text 300 (Sql.username names (some 1)) in
    (answer ≡ some c) × (view names t' ≡ r') × IsFresh t'
create-refines_example =
    create-refines names no_rows 2000 car cut text 300 (some 1) tt (omega arith)

set_relay_enabled-refines_example :
    let (answer, t') = Sql.set_relay_enabled names no_rows 2000 car false (some 1) in
    let (s, r') =
      Memory.set_relay_enabled (view names no_rows) 2000 car false (Sql.username names (some 1)) in
    (view names t' ≡ r') × (answer ≡ s)
set_relay_enabled-refines_example = set_relay_enabled-refines names no_rows 2000 car false (some 1)

new_trackers-IsApart : IsApart new_trackers
unfolding lookup
new_trackers-IsApart id = tt

step-refines_example :
    (standing (step new_trackers 5 car none login) car ≡ (
      if text_eq car car
      then spec false login (standing new_trackers car)
      else standing new_trackers car))
    × IsApart (step new_trackers 5 car none login)
step-refines_example = step-refines new_trackers 5 car car none login new_trackers-IsApart

abbrev viewer : AlertViewer
viewer = record { user_id = 2; is_admin = false; devices = car ∷ []; can_use_geofences = false }

abbrev history : Alerts
history = record { alerts = []; next_id = 1; limits = []; seen = λ id. none }

abbrev everything : Query
everything = record { device_id = none; kinds = none; since = none; until = none; after_id = none }

no_kinds : everything.kinds ≢ some []
no_kinds e = absurd (ground (arith, e))

sql_list_alerts-eq_example :
    (sql_list_alerts history viewer everything 0 50 ≡ list_alerts history viewer everything 0 50)
    × (sql_unread history viewer ≡ unread history viewer)
sql_list_alerts-eq_example = sql_list_alerts-eq history viewer everything 0 50 no_kinds

abbrev square : GeofenceShape
square = record {
  kind = circle;
  vertex_lats = none;
  vertex_lngs = none;
  center_lat = none;
  center_lng = none;
  radius_m = some 200;
}

abbrev yard_fields : GeofenceFields
yard_fields = record {
  name = some text;
  device_ids = none;
  alert_on_exit = none;
  alert_on_enter = none;
}

abbrev drawn : Geofences
drawn =
    (create_geofence
      (record { fences = []; events = []; next_id = 1; next_event_id = 1; usernames = λ id. none })
      5 2 square yard_fields).1

abbrev crossed : Geofences
crossed =
    (record_event (record_event drawn 1 car exit (pos 0) (pos 0) 40).1 1 van enter (pos 0) (pos 0)
      60).1

abbrev reports : Report.Query
reports = record {
  owner_id = some 2;
  device_scope = none;
  geofence_id = none;
  device_id = none;
  after_id = none;
  since = none;
  until = none;
}

abbrev pair : GeofenceEventOut
pair = record {
  id = 0;
  geofence_id = 1;
  geofence_name = text;
  device_id = car;
  kind = exit;
  latitude = pos 0;
  longitude = pos 0;
  occurred_at = 0;
  alerted = true;
}
