-- ===== src/Gateway/Session.antt =====
-- `DeviceSession` of gps_gateway/server.py: the frames of one read, and the delivery of commands.
-- Log lines are left out, and the session always has its registry, as `serve` builds it.
pub mod Anonymous
pub mod Answers
pub mod Acks
pub mod Deliver
pub mod Connection
use gps_tracking.Prelude.{
  ℕ, Bool, true, false, not, ◌||◌, Option, none, some, List, [], ◌∷◌, ◌++◌, ◌==◌, if◌then◌else◌,
}
use gps_tracking.Protocol.Bytes.{Bytes}
use gps_tracking.Protocol.Constants.{
  proto_login, proto_location, proto_location_acc, proto_alarm, proto_lbs, proto_heartbeat,
  proto_time_request, proto_command_reply, proto_command_reply_new,
}
use gps_tracking.Protocol.Result.{Result, ok, err, ◌>>=◌}
use gps_tracking.Protocol.Framing.{Frame}
use gps_tracking.Protocol.Codec.Build.{build_ack}
use gps_tracking.Protocol.Codec.Login.{decode_login}
use gps_tracking.Protocol.Codec.Clock.{DateTime, build_time_response}
use gps_tracking.Protocol.Codec.Cell.{Text, StatusEvent, decode_heartbeat}
use gps_tracking.Protocol.Codec.Location.{LocationEvent, alarm, decode_location}
use gps_tracking.Protocol.Codec.Reply.{CommandReply, decode_command_reply}
use gps_tracking.Gateway.Text.{text_eq}
use gps_tracking.Gateway.Registry.{Registry, add, remove}
use gps_tracking.Gateway.Admission.{Answer, Admission, admit}
use gps_tracking.Gateway.Commands.{Reason, tracker_reported_failure, reply_is_failure}

-- The object's fields; `ident` is its identity, and `awaiting` the keys of `_awaiting`.
pub record Session : Type 0 where
  pub ident : ℕ
  pub device_id : Option Text
  pub refused : Bool
  pub ignition : Option Bool
  pub out_serial : ℕ
  pub awaiting : List ℕ

-- What the clocks and the database say during one read.
pub record Env : Type 0 where
  pub now : ℕ
  pub clock : DateTime
  pub ask : Text → Answer

-- What `publishes` collects: a coroutine each.
pub data Publish : Type 0 where
  event : LocationEvent → Publish
  status : StatusEvent → Publish
  reply : Frame → Publish

-- Calls on the sink and on the command queue, bytes to the tracker, and the background delivery.
pub data Effect : Type 0 where
  publish : LocationEvent → Effect
  publish_status : StatusEvent → Effect
  complete : ℕ → Option Text → Bool → Option Text → Option Reason → Effect
  write : Bytes → Effect
  schedule_delivery : Effect

-- The local variables of `_process_frames`, with the objects that it changes.
pub record Turn : Type 0 where
  pub session : Session
  pub registry : Registry
  pub admission : Admission
  pub acks : List Frame
  pub time_replies : List Frame
  pub publishes : List Publish
  pub logged_in : Bool

abbrev pub acked : Turn → Frame → Turn
acked t frame = record t { acks = t.acks ++ (frame ∷ []) }

-- `if self.device_id and self.device_id != device_id: self.registry.remove(…)`
pub leave : Registry → Session → Option Text → Text → Registry
leave r s none device_id = r
leave r s (some old) device_id = if text_eq old device_id then r else remove r old s.ident

pub on_admit : Turn → Frame → Text → Bool × Admission → Turn
on_admit t frame device_id (false, a) = record t {
  session = record t.session { refused = true };
  admission = a;
}
on_admit t frame device_id (true, a) = record t {
  session = record t.session { device_id = some device_id };
  registry =
      add (leave t.registry t.session t.session.device_id device_id) device_id t.session.ident;
  admission = a;
  acks = t.acks ++ (frame ∷ []);
  logged_in = true;
}

pub on_login : Env → Turn → Frame → Option Text → Turn
on_login env t frame none = t
on_login env t frame (some device_id) =
    on_admit t frame device_id (admit t.admission env.now env.ask device_id)

-- `if event.ignition is not None: self.ignition = event.ignition`
pub latest : Option Bool → Option Bool → Option Bool
latest old none = old
latest old (some now_on) = some now_on

pub on_event : Turn → Frame → Option LocationEvent → Turn
on_event t frame none = acked t frame
on_event t frame (some e) =
    let e' = if frame.protocol == proto_alarm then record e { event_type = alarm } else e in
    record t {
      session = record t.session { ignition = latest t.session.ignition e.ignition };
      publishes = t.publishes ++ (event e' ∷ []);
      acks = t.acks ++ (frame ∷ []);
    }

pub on_location : Turn → Frame → Option Text → Turn
on_location t frame none = t
on_location t frame (some device_id) =
    on_event t frame (decode_location frame.content device_id frame.protocol)

-- The decoded cell report is only logged.
pub on_lbs : Turn → Frame → Option Text → Turn
on_lbs t frame none = t
on_lbs t frame (some device_id) = acked t frame

pub on_status : Turn → Frame → Option StatusEvent → Turn
on_status t frame none = acked t frame
on_status t frame (some s) = record t {
  session = record t.session { ignition = some s.ignition };
  publishes = t.publishes ++ (status s ∷ []);
  acks = t.acks ++ (frame ∷ []);
}

pub on_heartbeat : Turn → Frame → Option Text → Turn
on_heartbeat t frame none = acked t frame
on_heartbeat t frame (some device_id) = on_status t frame (decode_heartbeat frame.content device_id)

pub on_reply : Turn → Frame → Option Text → Turn
on_reply t frame none = t
on_reply t frame (some device_id) = record t { publishes = t.publishes ++ (reply frame ∷ []) }

-- The body of the loop of `_process_frames`.
pub handle_frame : Env → Turn → Frame → Turn
handle_frame env t frame =
    let p = frame.protocol in
    if p == proto_login
    then on_login env t frame (decode_login frame.content)
    else if p == proto_location || p == proto_location_acc || p == proto_alarm
    then on_location t frame t.session.device_id
    else if p == proto_lbs
    then on_lbs t frame t.session.device_id
    else if p == proto_heartbeat
    then on_heartbeat t frame t.session.device_id
    else if p == proto_time_request
    then record t { time_replies = t.time_replies ++ (frame ∷ []) }
    else if p == proto_command_reply || p == proto_command_reply_new
    then on_reply t frame t.session.device_id
    else t

pub handle_frames : Env → Turn → List Frame → Turn
handle_frames env t [] = t
handle_frames env t (frame ∷ frames) = handle_frames env (handle_frame env t frame) frames

-- `self._awaiting.pop(id, None)`
pub drop_id : ℕ → List ℕ → List ℕ
drop_id id [] = []
drop_id id (a ∷ ids) = let rest = drop_id id ids in if a == id then rest else a ∷ rest

pub on_command_reply : Session → Option CommandReply → Session × List Effect
on_command_reply s none = (s, [])
on_command_reply s (some r) =
    let failed = reply_is_failure r.text in
    (
      record s { awaiting = drop_id r.server_flag s.awaiting },
      complete r.server_flag s.device_id (not failed) (some r.text)
            (if failed then some tracker_reported_failure else none)
          ∷ [],
    )

pub command_replied : Session → Frame → Session × List Effect
command_replied s frame = on_command_reply s (decode_command_reply frame.protocol frame.content)

-- `_reply_timed_out`: only a command that is still awaited is given up.
pub has_id : ℕ → List ℕ → Bool
has_id id [] = false
has_id id (a ∷ ids) = a == id || has_id id ids

pub reply_timed_out : Session → ℕ → Session × List Effect
reply_timed_out s id =
    if has_id id s.awaiting
    then (
      record s { awaiting = drop_id id s.awaiting },
      complete id s.device_id false none (some Reason.no_reply) ∷ [],
    )
    else (s, [])

-- `asyncio.gather(*publishes)`: each coroutine reaches its call in turn.
pub run_publish : Session → Publish → Session × List Effect
run_publish s (event e) = (s, publish e ∷ [])
run_publish s (status e) = (s, publish_status e ∷ [])
run_publish s (reply frame) = command_replied s frame

pub run_publishes : Session → List Publish → Session × List Effect
run_publishes s [] = (s, [])
run_publishes s (p ∷ ps) =
    let (s1, done) = run_publish s p in let (s2, rest) = run_publishes s1 ps in (s2, done ++ rest)

pub write_acks : List Frame → Result (List Effect)
write_acks [] = ok []
write_acks (frame ∷ frames) = do
  ack ← build_ack frame.protocol frame.serial []
  rest ← write_acks frames
  ok (write ack ∷ rest)

pub write_times : DateTime → List Frame → Result (List Effect)
write_times clock [] = ok []
write_times clock (frame ∷ frames) = do
  answer ← build_time_response frame.serial clock
  rest ← write_times clock frames
  ok (write answer ∷ rest)

abbrev pub first_turn : Session → Registry → Admission → Turn
first_turn s r a = record {
  session = s;
  registry = r;
  admission = a;
  acks = [];
  time_replies = [];
  publishes = [];
  logged_in = false;
}

-- From `if publishes:` on. An exception of the encoders would end the connection: `err`.
pub finish : Env → Turn → Result (Turn × List Effect)
finish env t = do
  let (s, published) = run_publishes t.session t.publishes
  acks ← write_acks t.acks
  times ← write_times env.clock t.time_replies
  ok (
    record t { session = s },
    published ++ (acks ++ (times ++ (if t.logged_in then schedule_delivery ∷ [] else []))),
  )

pub process_frames : Env → Session → Registry → Admission → List Frame → Result (Turn × List Effect)
process_frames env s r a frames = finish env (handle_frames env (first_turn s r a) frames)
