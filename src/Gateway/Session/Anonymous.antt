-- ===== src/Gateway/Session/Anonymous.antt =====
-- A connection whose tracker was not admitted.
use gps_tracking.Prelude.{
  ◌≡◌, refl, ap, ◌∙◌, Bool, true, false, Option, none, some, List, [], ◌∷◌, ◌++◌, ◌==◌,
  if◌then◌else◌, All, All-append, ==_iff,
}
use gps_tracking.Protocol.Constants.{proto_heartbeat}
use gps_tracking.Protocol.Framing.{Frame}
use gps_tracking.Protocol.Codec.Cell.{Text}
use gps_tracking.Protocol.Codec.Login.{decode_login}
use gps_tracking.Gateway.Registry.{Registry}
use gps_tracking.Gateway.Admission.{Admission, admit}
use gps_tracking.Gateway.Session.{
  Session, Env, Turn, acked, first_turn, on_admit, on_login, on_location, on_lbs, on_heartbeat,
  on_reply, handle_frame, handle_frames,
}

abbrev IsHeartbeat : Frame → Type 0
IsHeartbeat frame = frame.protocol ≡ proto_heartbeat

-- Nothing of this tracker has gone further.
pub record IsAnonymous (r : Registry) (a : Admission) (t : Turn) : Type 0 where
  pub no_device : t.session.device_id ≡ none
  pub same_registry : t.registry ≡ r
  pub same_admission : t.admission ≡ a
  pub nothing_published : t.publishes ≡ []
  pub heartbeats_acked : All IsHeartbeat t.acks
  pub not_logged_in : t.logged_in ≡ false

module _ (env : Env) (r : Registry) (a : Admission)
    (refuses : (id : Text) → admit a env.now env.ask id ≡ (false, a)) where
  on_login-IsAnonymous :
      (t : Turn) (frame : Frame) (id : Option Text)
      → IsAnonymous r a t
      → IsAnonymous r a (on_login env t frame id)
  unfolding on_login on_admit
  on_login-IsAnonymous t frame none h = h
  on_login-IsAnonymous t frame (some id) h =
      let e : admit t.admission env.now env.ask id ≡ (false, a) =
        ap (λ (b : Admission). admit b env.now env.ask id) h.same_admission ∙ refuses id in
      rw e (record {
        no_device = h.no_device;
        same_registry = h.same_registry;
        same_admission = refl;
        nothing_published = h.nothing_published;
        heartbeats_acked = h.heartbeats_acked;
        not_logged_in = h.not_logged_in;
      })

  acked-IsAnonymous :
      (t : Turn) (frame : Frame)
      → IsHeartbeat frame
      → IsAnonymous r a t
      → IsAnonymous r a (acked t frame)
  acked-IsAnonymous t frame beat h = record {
    no_device = h.no_device;
    same_registry = h.same_registry;
    same_admission = h.same_admission;
    nothing_published = h.nothing_published;
    heartbeats_acked = All-append IsHeartbeat t.acks (frame ∷ []) h.heartbeats_acked (beat, tt);
    not_logged_in = h.not_logged_in;
  }

  time_request-IsAnonymous :
      (t : Turn) (frame : Frame)
      → IsAnonymous r a t
      → IsAnonymous r a (record t { time_replies = t.time_replies ++ (frame ∷ []) })
  time_request-IsAnonymous t frame h = record {
    no_device = h.no_device;
    same_registry = h.same_registry;
    same_admission = h.same_admission;
    nothing_published = h.nothing_published;
    heartbeats_acked = h.heartbeats_acked;
    not_logged_in = h.not_logged_in;
  }

  -- With no device the handlers of the other frames do nothing, or acknowledge.
  module _ (t : Turn) (frame : Frame) (h : IsAnonymous r a t) where
    on_location-none : (id : Option Text) → id ≡ none → IsAnonymous r a (on_location t frame id)
    unfolding on_location
    on_location-none none e = h
    on_location-none (some id) e = cc

    on_lbs-none : (id : Option Text) → id ≡ none → IsAnonymous r a (on_lbs t frame id)
    unfolding on_lbs
    on_lbs-none none e = h
    on_lbs-none (some id) e = cc

    on_reply-none : (id : Option Text) → id ≡ none → IsAnonymous r a (on_reply t frame id)
    unfolding on_reply
    on_reply-none none e = h
    on_reply-none (some id) e = cc

    on_heartbeat-none :
        (id : Option Text)
        → id ≡ none
        → IsHeartbeat frame
        → IsAnonymous r a (on_heartbeat t frame id)
    unfolding on_heartbeat
    on_heartbeat-none none e beat = acked-IsAnonymous t frame beat h
    on_heartbeat-none (some id) e beat = cc

  if-IsAnonymous :
      (b : Bool) (x y : Turn)
      → (b ≡ true → IsAnonymous r a x)
      → IsAnonymous r a y
      → IsAnonymous r a (if b then x else y)
  if-IsAnonymous true x y hx hy = hx refl
  if-IsAnonymous false x y hx hy = hy

  handle_frame-IsAnonymous :
      (t : Turn) (frame : Frame) → IsAnonymous r a t → IsAnonymous r a (handle_frame env t frame)
  unfolding handle_frame
  handle_frame-IsAnonymous t frame h =
      let id = t.session.device_id in
      let unknown = h.no_device in
      if-IsAnonymous _ _ _ (λ _. on_login-IsAnonymous t frame (decode_login frame.content) h)
        (if-IsAnonymous _ _ _ (λ _. on_location-none t frame h id unknown)
          (if-IsAnonymous _ _ _ (λ _. on_lbs-none t frame h id unknown)
            (if-IsAnonymous (frame.protocol == proto_heartbeat) _ _
              (λ beat.
                on_heartbeat-none t frame h id unknown
                  ((==_iff frame.protocol proto_heartbeat).0 beat))
              (if-IsAnonymous _ _ _ (λ _. time_request-IsAnonymous t frame h)
                (if-IsAnonymous _ _ _ (λ _. on_reply-none t frame h id unknown) h)))))

  handle_frames-IsAnonymous_from :
      (t : Turn) (frames : List Frame)
      → IsAnonymous r a t
      → IsAnonymous r a (handle_frames env t frames)
  unfolding handle_frames
  handle_frames-IsAnonymous_from t [] h = h
  handle_frames-IsAnonymous_from t (frame ∷ frames) h =
      handle_frames-IsAnonymous_from (handle_frame env t frame) frames
        (handle_frame-IsAnonymous t frame h)

-- On a connection with no device, while the allowlist refuses every login, no frames whatever publish
-- a location or a status, complete a command or enter the registry: the connection stays without a
-- device, and only heartbeats are acknowledged.
pub handle_frames-IsAnonymous :
    (env : Env) (s : Session) (r : Registry) (a : Admission) (frames : List Frame)
    → ((id : Text) → admit a env.now env.ask id ≡ (false, a))
    → s.device_id ≡ none
    → IsAnonymous r a (handle_frames env (first_turn s r a) frames)
handle_frames-IsAnonymous env s r a frames refuses none_yet =
    handle_frames-IsAnonymous_from env r a refuses (first_turn s r a) frames (record {
      no_device = none_yet;
      same_registry = refl;
      same_admission = refl;
      nothing_published = refl;
      heartbeats_acked = tt;
      not_logged_in = refl;
    })
