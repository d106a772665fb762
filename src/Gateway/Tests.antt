-- ===== src/Gateway/Tests.antt =====
-- Runs of the gateway's parts with two trackers.
use gps_tracking.Prelude.{
  ◌≢◌, Bool, ℕ, ◌++◌, All, ◌≡◌, ◌↔◌, refl, true, false, none, some, List, [], ◌∷◌, ◌≤◌, arith,
  if◌then◌else◌, map,
}
use gps_tracking.Protocol.Result.{ok}
use gps_tracking.Protocol.Framing.{Frame, feed}
use gps_tracking.Protocol.Framing.Drain.{decoder}
use gps_tracking.Protocol.Codec.Build.RoundTrip.{built_frame}
use gps_tracking.Protocol.Codec.Clock.{DateTime, is_leap, days_in_month, is_datetime}
use gps_tracking.Protocol.Codec.Cell.{Text}
use gps_tracking.Gateway.Text.{text_eq}
use gps_tracking.Gateway.Registry.{Registry, get, add, remove}
use gps_tracking.Gateway.Registry.Laws.{get-remove-add}
use gps_tracking.Gateway.Admission.{
  enforce, Answer, allowed, unknown, admit_answer, postgres, until_of, admit,
}
use gps_tracking.Gateway.Admission.Laws.{admit-refuses}
use gps_tracking.Gateway.Commands.{Row, confirmed, sent, no_reply}
use gps_tracking.Gateway.Commands.Completions.{
  Completion, ends_as, complete_all, complete_all_settles,
}
use gps_tracking.Gateway.Session.{
  Session, Env, Turn, Effect, handle_frames, first_turn, process_frames,
}
use gps_tracking.Gateway.Session.Anonymous.{IsAnonymous, handle_frames-IsAnonymous}
use gps_tracking.Gateway.Session.Connection.{Connection, close}
use gps_tracking.Gateway.Session.Connection.Leaving.{Owns, close_gone}
use gps_tracking.Gateway.Session.Deliver.{PendingCommand, cut, deliver_commands}
use gps_tracking.Gateway.Session.Deliver.Cuts.{
  SameSent, without_cuts, deliver_commands-without_cuts,
}
use gps_tracking.Gateway.Session.Deliver.Settled.{IsSettled, deliver_commands_settles}
use gps_tracking.Gateway.Batching.{Signal, got, deadline, event, stop_marker, run}
use gps_tracking.Gateway.Batching.Order.{before_stop, content, run-before_stop}
use gps_tracking.Gateway.Session.Acks.{written, answers, process_frames-acks}

abbrev car : Text
car = b'1' ∷ b'2' ∷ []

abbrev truck : Text
truck = b'1' ∷ b'3' ∷ []

abbrev two_sessions : Registry
two_sessions = (car, 1) ∷ (truck, 2) ∷ []

get-remove-add_example :
    get (remove (add two_sessions car 3) car 1) car
    ≡ (if text_eq car car then some 3 else get two_sessions car)
get-remove-add_example = get-remove-add two_sessions car car 1 3 (λ e. absurd (omega (arith, e)))

abbrev knows_nobody : Text → Answer
knows_nobody id = unknown

abbrev knows_all : Text → Answer
knows_all id = allowed

admit-refuses_example :
    ((admit (postgres enforce 60 []) 100 knows_nobody car).0 ≡ false)
    ↔ ((enforce ≡ enforce) × (until_of [] car ≤ 100) × (unknown ≡ unknown))
admit-refuses_example = admit-refuses enforce 60 [] 100 knows_nobody car

abbrev waiting : Row
waiting = record { id = 5; device_id = car; status = sent; reply = none; error = none }

-- The time runs out, another tracker answers, then the tracker itself, and then another answer comes.
abbrev completions : List Completion
completions =
    (record { id = 5; device_id = car; ok = false; reply = none; error = some no_reply })
    ∷ (record { id = 5; device_id = truck; ok = false; reply = none; error = none })
    ∷ (record { id = 5; device_id = car; ok = true; reply = some truck; error = none })
    ∷ (record { id = 5; device_id = car; ok = false; reply = none; error = some no_reply })
    ∷ []

waiting_ends :
    ends_as waiting completions ≡ record waiting { status = confirmed; reply = some truck }
unfolding text_eq
waiting_ends = refl

complete_all_settles_example :
    complete_all completions (waiting ∷ []) ≡ map (λ row. ends_as row completions) (waiting ∷ [])
complete_all_settles_example = complete_all_settles completions (waiting ∷ []) (refl, tt)

abbrev noon : DateTime
noon = record { year = 2026; month = 3; day = 1; hour = 12; minute = 0; second = 0 }

noon-valid : is_datetime noon ≡ true
unfolding is_leap days_in_month
noon-valid = refl

abbrev offline : Env
offline = record { now = 100; clock = noon; ask = knows_nobody }

abbrev fresh : Session
fresh = record {
  ident = 3;
  device_id = none;
  refused = false;
  ignition = none;
  out_serial = 0;
  awaiting = [];
}

abbrev two_requests : List Frame
two_requests = built_frame 0x13 1 [] ∷ built_frame 0x8a 2 [] ∷ []

refuses_all :
    (id : Text)
    → admit (postgres enforce 60 []) 100 knows_nobody id ≡ (false, postgres enforce 60 [])
unfolding admit admit_answer until_of
refuses_all id = refl

handle_frames-IsAnonymous_example :
    IsAnonymous two_sessions
      (postgres enforce 60 [])
      (handle_frames offline (first_turn fresh two_sessions (postgres enforce 60 [])) two_requests)
handle_frames-IsAnonymous_example =
    handle_frames-IsAnonymous offline fresh two_sessions (postgres enforce 60 []) two_requests
      refuses_all refl

process_frames-acks_example :
    (t' : Turn) × (effects : List Effect) × (process_frames offline fresh two_sessions
        (postgres enforce 60 [])
        two_requests
      ≡ ok (t', effects))
    × (feed (decoder [] 4096 0) (written effects)
        ≡ some (
          answers noon (
              handle_frames offline
                (first_turn fresh two_sessions (postgres enforce 60 []))
                two_requests),
          decoder [] 4096 0,
        ))
process_frames-acks_example =
    process_frames-acks offline fresh two_sessions (postgres enforce 60 []) two_requests 4096
      ((omega arith, omega arith), ((omega arith, omega arith), tt))
      (noon-valid, omega arith, omega arith)

abbrev driving : Session
driving = record fresh { device_id = some car; ignition = some true }

abbrev two_commands : List PendingCommand
two_commands =
    record { id = 7; device_id = car; action = cut; command = b'R' ∷ [] }
    ∷ record { id = 8; device_id = car; action = []; command = b'S' ∷ [] }
    ∷ []

abbrev never : ℕ → Bool
never id = false

deliver_commands-without_cuts_example :
    SameSent
      (deliver_commands never driving two_commands)
      (deliver_commands never driving (without_cuts two_commands))
deliver_commands-without_cuts_example =
    deliver_commands-without_cuts never driving two_commands refl

deliver_commands_settles_example :
    ((deliver_commands never driving two_commands).raised ≡ none)
    × All (IsSettled (deliver_commands never driving two_commands)) two_commands
deliver_commands_settles_example = deliver_commands_settles never driving two_commands (
  (omega arith, (omega arith, tt), omega arith),
  ((omega arith, (omega arith, tt), omega arith), tt),
)

abbrev signals : List (Signal ℕ)
signals =
    got (event 1)
    ∷ got (event 2)
    ∷ got (event 3)
    ∷ deadline
    ∷ got (event 4)
    ∷ got stop_marker
    ∷ got (event 5)
    ∷ []

run-before_stop_example : content (run 2 [] signals) ≡ [] ++ before_stop signals
run-before_stop_example = run-before_stop 2 [] signals

abbrev opened : Connection
opened = record {
  decoder = decoder [] 8192 0;
  session = fresh;
  registry = [];
  admission = postgres enforce 60 [];
  is_open = true;
}

opened-Owns : Owns 3 [] fresh
unfolding get
opened-Owns = record { same_ident = refl; only_there = λ k e. cc }

abbrev login_frames : List Frame
login_frames = built_frame 0x01 1 (0x01 ∷ 0x23 ∷ 0x45 ∷ 0x67 ∷ 0x89 ∷ 0x01 ∷ 0x23 ∷ 0x45 ∷ []) ∷ []

abbrev open_door : Env
open_door = record { now = 100; clock = noon; ask = knows_all }

close_gone_example :
    let t = handle_frames open_door (first_turn fresh [] (postgres enforce 60 [])) login_frames in
    get
      (close (record opened {
        session = t.session;
        registry = t.registry;
        admission = t.admission;
      })).registry
      car
    ≢ some 3
close_gone_example = close_gone 3 open_door opened login_frames car opened-Owns
