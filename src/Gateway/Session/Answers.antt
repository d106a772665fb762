-- ===== src/Gateway/Session/Answers.antt =====
-- The frames that `_process_frames` answers came in over the wire.
use gps_tracking.Prelude.{
  ◌<◌, Bool, true, false, Option, none, some, List, [], ◌∷◌, ◌++◌, if◌then◌else◌, All, All-append,
}
use gps_tracking.Protocol.Framing.{Frame}
use gps_tracking.Protocol.Codec.Cell.{Text, StatusEvent, decode_heartbeat}
use gps_tracking.Protocol.Codec.Login.{decode_login}
use gps_tracking.Protocol.Codec.Location.{LocationEvent, decode_location}
use gps_tracking.Gateway.Admission.{Admission, admit}
use gps_tracking.Gateway.Session.{
  on_login, on_admit, on_event, on_location, on_lbs, on_status, on_heartbeat, on_reply,
  handle_frame, Env, Turn, handle_frames,
}

-- The numbers of a frame that came over the wire.
abbrev pub InRange : Frame → Type 0
InRange frame = (frame.protocol < 256) × (frame.serial < 65536)

-- The frames to be answered are frames that came in.
pub record Answers (t : Turn) : Type 0 where
  pub acks_came : All InRange t.acks
  pub times_came : All InRange t.time_replies

if-Answers : (b : Bool) (x y : Turn) → Answers x → Answers y → Answers (if b then x else y)
if-Answers true x y hx hy = hx
if-Answers false x y hx hy = hy

module _ (env : Env) (t : Turn) (frame : Frame) (r : InRange frame) (h : Answers t) where
  more_acks : All InRange (t.acks ++ (frame ∷ []))
  more_acks = All-append InRange t.acks (frame ∷ []) h.acks_came (r, tt)

  on_login-Answers : (id : Option Text) → Answers (on_login env t frame id)
  unfolding on_login
  on_login-Answers none = h
  on_login-Answers (some id) = go (admit t.admission env.now env.ask id)
    where
      go : (a : Bool × Admission) → Answers (on_admit t frame id a)
      go (false, a) =
          unfold on_admit in record { acks_came = h.acks_came; times_came = h.times_came }
      go (true, a) = unfold on_admit in record { acks_came = more_acks; times_came = h.times_came }

  on_event-Answers : (e : Option LocationEvent) → Answers (on_event t frame e)
  unfolding on_event
  on_event-Answers none = record { acks_came = more_acks; times_came = h.times_came }
  on_event-Answers (some e) = record { acks_came = more_acks; times_came = h.times_came }

  on_location-Answers : (id : Option Text) → Answers (on_location t frame id)
  unfolding on_location
  on_location-Answers none = h
  on_location-Answers (some id) = on_event-Answers (decode_location frame.content id frame.protocol)

  on_lbs-Answers : (id : Option Text) → Answers (on_lbs t frame id)
  unfolding on_lbs
  on_lbs-Answers none = h
  on_lbs-Answers (some id) = record { acks_came = more_acks; times_came = h.times_came }

  on_status-Answers : (e : Option StatusEvent) → Answers (on_status t frame e)
  unfolding on_status
  on_status-Answers none = record { acks_came = more_acks; times_came = h.times_came }
  on_status-Answers (some e) = record { acks_came = more_acks; times_came = h.times_came }

  on_heartbeat-Answers : (id : Option Text) → Answers (on_heartbeat t frame id)
  unfolding on_heartbeat
  on_heartbeat-Answers none = record { acks_came = more_acks; times_came = h.times_came }
  on_heartbeat-Answers (some id) = on_status-Answers (decode_heartbeat frame.content id)

  on_reply-Answers : (id : Option Text) → Answers (on_reply t frame id)
  unfolding on_reply
  on_reply-Answers none = h
  on_reply-Answers (some id) = record { acks_came = h.acks_came; times_came = h.times_came }

  time_request-Answers : Answers (record t { time_replies = t.time_replies ++ (frame ∷ []) })
  time_request-Answers = record {
    acks_came = h.acks_came;
    times_came = All-append InRange t.time_replies (frame ∷ []) h.times_came (r, tt);
  }

  handle_frame-Answers : Answers (handle_frame env t frame)
  unfolding handle_frame
  handle_frame-Answers = if-Answers _ _ _ (on_login-Answers (decode_login frame.content)) (
      if-Answers _ _ _ (on_location-Answers t.session.device_id) (
        if-Answers _ _ _ (on_lbs-Answers t.session.device_id) (
          if-Answers _ _ _ (on_heartbeat-Answers t.session.device_id) (
            if-Answers _ _ _ time_request-Answers
              (if-Answers _ _ _ (on_reply-Answers t.session.device_id) h)))))

pub handle_frames-Answers :
    (env : Env) (t : Turn) (frames : List Frame)
    → All InRange frames
    → Answers t
    → Answers (handle_frames env t frames)
unfolding handle_frames
handle_frames-Answers env t [] r h = h
handle_frames-Answers env t (frame ∷ frames) r h =
    handle_frames-Answers env (handle_frame env t frame) frames r.1
      (handle_frame-Answers env t frame r.0 h)
