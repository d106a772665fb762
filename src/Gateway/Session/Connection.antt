-- ===== src/Gateway/Session/Connection.antt =====
-- `DeviceSession.handle` of gps_gateway/server.py: the reads of one connection, and its end.
pub mod Leaving
use gps_tracking.Prelude.{
  ℕ, Bool, true, false, Option, none, some, List, [], ◌∷◌, ◌++◌, if◌then◌else◌,
}
use gps_tracking.Protocol.Bytes.{Bytes}
use gps_tracking.Protocol.Result.{Result, ok, err}
use gps_tracking.Protocol.Framing.{Frame, FrameDecoder, feed}
use gps_tracking.Protocol.Codec.Build.{build_ack}
use gps_tracking.Protocol.Codec.Clock.{build_time_response}
use gps_tracking.Protocol.Codec.Cell.{Text}
use gps_tracking.Gateway.Registry.{Registry, remove}
use gps_tracking.Gateway.Admission.{Admission}
use gps_tracking.Gateway.Session.{
  Session, Env, Turn, Effect, first_turn, handle_frames, run_publishes, finish, write, write_acks,
}

-- What `reader.read` gives; no bytes are the end of the stream.
pub data Read : Type 0 where
  chunk : Env → Bytes → Read
  idle_timeout : Read
  connection_reset : Read

pub record Connection : Type 0 where
  pub decoder : FrameDecoder
  pub session : Session
  pub registry : Registry
  pub admission : Admission
  pub is_open : Bool

-- `finally: if self.registry is not None and self.device_id: …`
pub leave_registry : Registry → Session → Option Text → Registry
leave_registry r s none = r
leave_registry r s (some device_id) = remove r device_id s.ident

pub close : Connection → Connection
close c = record c {
  registry = leave_registry c.registry c.session c.session.device_id;
  is_open = false;
}

-- What is written of a turn before an encoder raises: the answers to the frames ahead of the one it raises at.
pub written_before : (Frame → Result Bytes) → List Frame → List Effect
written_before encode [] = []
written_before encode (frame ∷ frames) =
    let rest = written_before encode frames in
    elim (encode frame) [ err e ↦ [] | ok bytes ↦ write bytes ∷ rest ]

-- The acks, and the time answers where no ack raised.
pub answers_before : Env → Turn → List Effect
answers_before env t =
    let acks = written_before (λ frame. build_ack frame.protocol frame.serial []) t.acks in
    let times =
      written_before (λ frame. build_time_response frame.serial env.clock) t.time_replies in
    acks ++ elim (write_acks t.acks) [ err e ↦ [] | ok all_acks ↦ times ]

-- An exception of the encoders ends the connection with what the frames had changed, and what had been
-- published and written, by then.
pub on_result : Env → Connection → Turn → Result (Turn × List Effect) → Connection × List Effect
on_result env c t (err e) =
    let (s, published) = run_publishes t.session t.publishes in
    (
      close (record c { session = s; registry = t.registry; admission = t.admission }),
      published ++ answers_before env t,
    )
on_result env c t (ok (t', effects)) =
    let c' = record c { session = t'.session; registry = t'.registry; admission = t'.admission } in
    ((if t'.session.refused then close c' else c'), effects)

pub on_frames : Env → Connection → List Frame → Connection × List Effect
on_frames env c [] = ((if c.session.refused then close c else c), [])
on_frames env c (frame ∷ frames) =
    let t = handle_frames env (first_turn c.session c.registry c.admission) (frame ∷ frames) in
    on_result env c t (finish env t)

pub on_feed :
    Env → Connection → Option (List Frame × FrameDecoder) → Option (Connection × List Effect)
on_feed env c none = none
on_feed env c (some (frames, d)) = some (on_frames env (record c { decoder = d }) frames)

pub on_read : Connection → Read → Option (Connection × List Effect)
on_read c idle_timeout = some (close c, [])
on_read c connection_reset = some (close c, [])
on_read c (chunk env []) = some (close c, [])
on_read c (chunk env (b ∷ bytes)) = on_feed env c (feed c.decoder (b ∷ bytes))
