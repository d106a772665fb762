-- ===== src/Api/Tests.antt =====
-- Runs of the API's parts.
use gps_tracking.Prelude.{◌+◌, ◌<◌, ◌≡◌, ◌↔◌, true, false, none, some, List, [], ◌∷◌, arith}
use gps_tracking.Protocol.Codec.Cell.{Text}
use gps_tracking.Gateway.Text.{text_eq}
use gps_tracking.Api.Throttle.{key_eq, source, username, LoginThrottle, times_of, retry_after}
use gps_tracking.Api.Throttle.Window.{count_recent, InOrder, retry_after_iff}
use gps_tracking.Api.GeofenceReport.{
  enter, exit, Crossing, window_of, seconds_inside, seconds_outside,
}
use gps_tracking.Api.GeofenceReport.Window.{seconds_inside_outside}
use gps_tracking.Api.Driving.{spans_of}
use gps_tracking.Api.Driving.Spans
use gps_tracking.Api.Account.{admin, Role, AuthenticatedUser}
use gps_tracking.Api.Live.{broadcast}
use gps_tracking.Api.Live.Fanout.{
  Step, connect, disconnect, run_steps, sent_to, IsEntitled, broadcast-sent_to,
}

abbrev amy : Text
amy = b'a' ∷ b'm' ∷ b'y' ∷ []

abbrev here : Text
here = b'h' ∷ []

abbrev as_is : Text → Text
as_is name = name

abbrev two_failures : LoginThrottle
two_failures = record {
  per_source = 2;
  per_username = 5;
  window = 900;
  failures = (source amy here, 10 ∷ 500 ∷ []) ∷ (username amy, 10 ∷ 500 ∷ []) ∷ [];
}

source_InOrder : InOrder 1000 (times_of two_failures.failures (source amy here))
unfolding times_of key_eq text_eq
source_InOrder = (omega arith, omega arith)

username_InOrder : InOrder 1000 (times_of two_failures.failures (username amy))
unfolding times_of key_eq text_eq
username_InOrder = (omega arith, omega arith)

retry_after_iff_example : ((retry_after as_is two_failures 1000 amy here).0 ≡ 0) ↔ (
    (count_recent 900 1000 (times_of two_failures.failures (source amy here)) < 2)
    × (count_recent 900 1000 (times_of two_failures.failures (username amy)) < 5))
retry_after_iff_example =
    retry_after_iff as_is two_failures 1000 amy here (omega arith) (omega arith) source_InOrder
      username_InOrder

abbrev day : List Crossing
day =
    record { id = 2; kind = exit; occurred_at = 400; alerted = false }
    ∷ record { id = 1; kind = enter; occurred_at = 150; alerted = true }
    ∷ []

seconds_inside_outside_example :
    seconds_inside 100 1000 900 none day + seconds_outside 100 1000 900 none day
    ≡ window_of 100 1000 900
seconds_inside_outside_example = seconds_inside_outside 100 1000 900 none day

spans_of-Between_example :
    Spans.Between 100 1000 (spans_of 100 1000 ((50, true) ∷ (300, false) ∷ (700, true) ∷ []))
spans_of-Between_example =
    Spans.spans_of-Between 100 1000 ((50, true) ∷ (300, false) ∷ (700, true) ∷ []) (omega arith)
      (omega arith, (omega arith, (omega arith, tt)))

abbrev boss : AuthenticatedUser
boss = record {
  id = 1;
  username = amy;
  role = admin;
  is_active = true;
  devices = [];
  geofence_enabled = false;
}

abbrev customer : AuthenticatedUser
customer = record boss { id = 2; role = Role.user; devices = here ∷ [] }

-- The customer's second socket goes to the administrator.
abbrev dashboards : List Step
dashboards =
    connect 1 boss ∷ connect 2 customer ∷ disconnect 2 ∷ connect 3 customer ∷ connect 2 boss ∷ []

broadcast-sent_to_example :
    (sent_to 3 (broadcast (run_steps dashboards []) (some amy)) ≡ true)
    ↔ IsEntitled dashboards 3 amy
broadcast-sent_to_example = broadcast-sent_to dashboards 3 b'a' (b'm' ∷ b'y' ∷ [])
