-- ===== src/Gateway/Session/Acks.antt =====
-- What the tracker reads: the acknowledgements, in order, as frames.
use gps_tracking.Prelude.{
  ℕ, ◌≤◌, ◌<◌, ◌≡◌, refl, sym, ap, ◌∙◌, Bool, true, false, Option, none, some, List, [], ◌∷◌, ◌++◌,
  map, if◌then◌else◌, arith, All, inl,
}
use mathlib.Core.List.{append-nil, append_assoc}
use gps_tracking.Protocol.Bytes.{Bytes}
use gps_tracking.Protocol.Constants.{proto_time_request}
use gps_tracking.Protocol.Result.{ok}
use gps_tracking.Protocol.Framing.{Frame, feed}
use gps_tracking.Protocol.Framing.Drain.{decoder}
use gps_tracking.Protocol.Framing.Wire.{short_wire, stream, frames_of, AllWires, feed-stream}
use gps_tracking.Protocol.Codec.Build.{build_ack}
use gps_tracking.Protocol.Codec.Build.RoundTrip.{built_frame, build_frame_total}
use gps_tracking.Protocol.Codec.Clock.{DateTime, is_datetime, clock_bytes, build_time_response-eq}
use gps_tracking.Protocol.Codec.Reply.{CommandReply, decode_command_reply}
use gps_tracking.Gateway.Session.Answers.{InRange, Answers, handle_frames-Answers}
use gps_tracking.Gateway.Registry.{Registry}
use gps_tracking.Gateway.Admission.{Admission}
use gps_tracking.Gateway.Session.{
  Publish, event, status, reply, on_command_reply, command_replied, schedule_delivery, Session, Env,
  Turn, Effect, write, write_acks, write_times, run_publish, run_publishes, finish, handle_frames,
  first_turn, process_frames,
}

-- The bytes among the effects, in order.
abbrev pub written : List Effect → Bytes
written [] = []
written (write bytes ∷ effects) = bytes ++ written effects
written (_ ∷ effects) = written effects

-- What the tracker should read: its own protocol number and serial, with no content or with the time.
abbrev pub ack_frame : Frame → Frame
ack_frame frame = built_frame frame.protocol frame.serial []

abbrev pub time_frame : DateTime → Frame → Frame
time_frame clock frame = built_frame proto_time_request frame.serial (clock_bytes clock)

abbrev pub IsClock : DateTime → Type 0
IsClock t = (is_datetime t ≡ true) × (2000 ≤ t.year) × (t.year < 2256)

abbrev wires : List Frame → List (Bytes × Frame)
wires [] = []
wires (f ∷ fs) = (short_wire f, f) ∷ wires fs

writes : List Frame → List Effect
writes [] = []
writes (f ∷ fs) = write (short_wire f) ∷ writes fs

frames_of-wires : (fs : List Frame) → frames_of (wires fs) ≡ fs
frames_of-wires [] = refl
frames_of-wires (f ∷ fs) = ap (◌∷◌ f) (frames_of-wires fs)

pub written-append : (xs ys : List Effect) → written (xs ++ ys) ≡ written xs ++ written ys
written-append [] ys = refl
written-append (write bytes ∷ xs) ys =
    ap (◌++◌ bytes) (written-append xs ys) ∙ sym (append_assoc bytes (written xs) (written ys))
written-append (_ ∷ xs) ys = written-append xs ys

written-writes : (fs : List Frame) → written (writes fs) ≡ stream (wires fs)
unfolding writes
written-writes [] = refl
written-writes (f ∷ fs) = ap (◌++◌ (short_wire f)) (written-writes fs)

write_acks-eq :
    (frames : List Frame)
    → All InRange frames
    → write_acks frames ≡ ok (writes (map ack_frame frames))
unfolding write_acks writes build_ack
write_acks-eq [] h = refl
write_acks-eq (frame ∷ frames) h =
    rw
      (
        build_frame_total frame.protocol frame.serial [] h.0.0 h.0.1 tt (omega arith),
        write_acks-eq frames h.1,
      )
      refl

write_times-eq :
    (clock : DateTime) (frames : List Frame)
    → IsClock clock
    → All InRange frames
    → write_times clock frames ≡ ok (writes (map (time_frame clock) frames))
unfolding write_times writes
write_times-eq clock [] v h = refl
write_times-eq clock (frame ∷ frames) (valid, lo, hi) h =
    rw
      (
        build_time_response-eq frame.serial clock h.0.1 valid lo hi,
        write_times-eq clock frames (valid, lo, hi) h.1,
      )
      refl

AllWires-acks : (frames : List Frame) → AllWires (wires (map ack_frame frames))
AllWires-acks [] = tt
AllWires-acks (frame ∷ frames) = (inl ((omega arith, refl, refl), refl), AllWires-acks frames)

AllWires-times :
    (clock : DateTime) (frames : List Frame) → AllWires (wires (map (time_frame clock) frames))
AllWires-times clock [] = tt
AllWires-times clock (frame ∷ frames) =
    (inl ((omega arith, refl, refl), refl), AllWires-times clock frames)

AllWires-append :
    (fs gs : List Frame) → AllWires (wires fs) → AllWires (wires gs) → AllWires (wires (fs ++ gs))
AllWires-append [] gs h k = k
AllWires-append (f ∷ fs) gs h k = (h.0, AllWires-append fs gs h.1 k)

writes-append : (fs gs : List Frame) → writes fs ++ writes gs ≡ writes (fs ++ gs)
unfolding writes
writes-append [] gs = refl
writes-append (f ∷ fs) gs = ap (◌∷◌ (write (short_wire f))) (writes-append fs gs)

-- Publishing writes nothing to the tracker.
run_publish-silent : (s : Session) (p : Publish) → written (run_publish s p).1 ≡ []
unfolding run_publish command_replied
run_publish-silent s (event e) = refl
run_publish-silent s (status e) = refl
run_publish-silent s (reply frame) = go (decode_command_reply frame.protocol frame.content)
  where
    go : (r : Option CommandReply) → written (on_command_reply s r).1 ≡ []
    go none = unfold on_command_reply in refl
    go (some r) = unfold on_command_reply in refl

run_publishes-silent : (s : Session) (ps : List Publish) → written (run_publishes s ps).1 ≡ []
unfolding run_publishes
run_publishes-silent s [] = refl
run_publishes-silent s (p ∷ ps) =
    written-append (run_publish s p).1 (run_publishes (run_publish s p).0 ps).1
    ∙ rw (run_publish-silent s p, run_publishes-silent (run_publish s p).0 ps) refl

-- What is written for the frames of a turn.
abbrev pub answers : DateTime → Turn → List Frame
answers clock t = map ack_frame t.acks ++ map (time_frame clock) t.time_replies

deliveries : Bool → List Effect
deliveries logged_in = if logged_in then schedule_delivery ∷ [] else []

written-deliveries : (b : Bool) → written (deliveries b) ≡ []
unfolding deliveries
written-deliveries true = refl
written-deliveries false = refl

finish-eq :
    (env : Env) (t : Turn)
    → IsClock env.clock
    → Answers t
    → finish env t
      ≡ ok (
        record t { session = (run_publishes t.session t.publishes).0 },
        (run_publishes t.session t.publishes).1
            ++ (writes (map ack_frame t.acks)
                ++ (writes (map (time_frame env.clock) t.time_replies) ++ deliveries t.logged_in)),
      )
unfolding finish deliveries
finish-eq env t v h =
    rw (write_acks-eq t.acks h.acks_came, write_times-eq env.clock t.time_replies v h.times_came)
      refl

written-answers :
    (published : List Effect) (fs gs : List Frame) (b : Bool)
    → written published ≡ []
    → written (published ++ (writes fs ++ (writes gs ++ deliveries b))) ≡ stream (wires (fs ++ gs))
written-answers published fs gs b e =
    rw
      (
        written-append published (writes fs ++ (writes gs ++ deliveries b)),
        e,
        sym (append_assoc (writes fs) (writes gs) (deliveries b)),
        writes-append fs gs,
        written-append (writes (fs ++ gs)) (deliveries b),
        written-deliveries b,
        append-nil (written (writes (fs ++ gs))),
      )
      (written-writes (fs ++ gs))

-- For frames as they come over the wire and a clock of the years 2000 to 2255, a read ends without an
-- exception. The bytes written to the tracker are frames: reading them with an empty buffer gives, in order,
-- one acknowledgement for each frame of `acks`, with its protocol number and serial, then one answer
-- with the time for each frame of `time_replies`, and leaves nothing in the buffer.
pub process_frames-acks :
    (env : Env) (s : Session) (r : Registry) (a : Admission) (frames : List Frame) (limit : ℕ)
    → All InRange frames
    → IsClock env.clock
    → (t' : Turn) × (effects : List Effect) × (process_frames env s r a frames ≡ ok (t', effects))
      × (feed (decoder [] limit 0) (written effects)
          ≡ some
              (answers env.clock (handle_frames env (first_turn s r a) frames), decoder [] limit 0))
unfolding process_frames
process_frames-acks env s r a frames limit came v =
    let t = handle_frames env (first_turn s r a) frames in
    let fs = map ack_frame t.acks in
    let gs = map (time_frame env.clock) t.time_replies in
    let h =
      handle_frames-Answers env (first_turn s r a) frames came
        (record { acks_came = tt; times_came = tt }) in
    (
      _,
      _,
      finish-eq env t v h,
      ap (feed (decoder [] limit 0)) (
            written-answers (run_publishes t.session t.publishes).1 fs gs t.logged_in
              (run_publishes-silent t.session t.publishes))
          ∙ (feed-stream limit 0 (wires (fs ++ gs)) (
                AllWires-append fs gs (AllWires-acks t.acks)
                  (AllWires-times env.clock t.time_replies))
              ∙ ap (λ (read : List Frame). some (read, decoder [] limit 0))
                  (frames_of-wires (fs ++ gs))),
    )
