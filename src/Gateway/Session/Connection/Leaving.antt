-- ===== src/Gateway/Session/Connection/Leaving.antt =====
-- The registry forgets a connection that has ended.
use gps_tracking.Prelude.{
  ℕ, ◌≡◌, ◌≢◌, refl, sym, ap, ◌∙◌, Bool, true, false, Option, none, some, List, [], ◌∷◌, ◌++◌,
  if◌then◌else◌, Bool-cases, inl, inr,
}
use gps_tracking.Protocol.Framing.{Frame}
use gps_tracking.Protocol.Codec.Cell.{Text, StatusEvent, decode_heartbeat}
use gps_tracking.Protocol.Codec.Login.{decode_login}
use gps_tracking.Protocol.Codec.Location.{LocationEvent, decode_location}
use gps_tracking.Gateway.Text.{text_eq, text_eq_iff}
use gps_tracking.Gateway.Registry.{Registry, get}
use gps_tracking.Gateway.Registry.Laws.{get-add, remove_gone}
use gps_tracking.Gateway.Admission.{Admission, admit}
use gps_tracking.Gateway.Session.Connection.{Connection, leave_registry, close}
use gps_tracking.Gateway.Session.{
  Session, Env, Turn, leave, on_admit, on_login, on_event, on_location, on_lbs, on_status,
  on_heartbeat, on_reply, handle_frame, handle_frames, first_turn,
}

-- Where the session holds a tracker at all, the registry knows it under that one.
pub record Owns (ident : ℕ) (r : Registry) (s : Session) : Type 0 where
  pub same_ident : s.ident ≡ ident
  pub only_there : (k : Text) → get r k ≡ some ident → s.device_id ≡ some k

leave_gone :
    (r : Registry) (s : Session) (o : Option Text) (id k : Text)
    → ((j : Text) → get r j ≡ some s.ident → o ≡ some j)
    → get (leave r s o id) k ≡ some s.ident
    → id ≡ k
unfolding leave
leave_gone r s none id k only h = let e = only k h in cc
leave_gone r s (some old) id k only h = elim (Bool-cases (text_eq old id)) [
  | inl e ↦
      let held = rw e at h in let known = only k held in let same = (text_eq_iff old id).0 e in cc
  | inr e ↦
      let held = rw e at h in
      absurd (remove_gone r old s.ident (λ j x. let y = only j x in cc) k held)
]

on_admit-Owns :
    (ident : ℕ) (t : Turn) (frame : Frame) (id : Text) (a : Bool × Admission)
    → Owns ident t.registry t.session
    → Owns ident (on_admit t frame id a).registry (on_admit t frame id a).session
unfolding on_admit
on_admit-Owns ident t frame id (false, a) h = record {
  same_ident = h.same_ident;
  only_there = h.only_there;
}
on_admit-Owns ident t frame id (true, a) h = record {
  same_ident = h.same_ident;
  only_there = λ k e. elim (Bool-cases (text_eq id k)) [
    | inl same ↦ ap some ((text_eq_iff id k).0 same)
    | inr other ↦
        let kept =
          rw
            (
              get-add (leave t.registry t.session t.session.device_id id) id k t.session.ident,
              other,
            )
            at e in
        ap some (
          leave_gone t.registry t.session t.session.device_id id k
            (λ j x. h.only_there j (x ∙ ap some h.same_ident)) (kept ∙ ap some (sym h.same_ident)))
  ];
}

record Kept (ident : ℕ) (t : Turn) : Type 0 where
  owns : Owns ident t.registry t.session

module _ (ident : ℕ) (env : Env) (t : Turn) (frame : Frame)
    (h : Owns ident t.registry t.session) where
  same :
      (t' : Turn)
      → t'.registry ≡ t.registry
      → t'.session.ident ≡ t.session.ident
      → t'.session.device_id ≡ t.session.device_id
      → Kept ident t'
  same t' er ei ed = record {
    owns = record {
      same_ident = ei ∙ h.same_ident;
      only_there = λ k e. ed ∙ h.only_there k (ap (λ (r : Registry). get r k) (sym er) ∙ e);
    };
  }

  on_login-Kept : (id : Option Text) → Kept ident (on_login env t frame id)
  unfolding on_login
  on_login-Kept none = record { owns = h }
  on_login-Kept (some id) = record {
    owns = on_admit-Owns ident t frame id (admit t.admission env.now env.ask id) h;
  }

  on_location-Kept : (id : Option Text) → Kept ident (on_location t frame id)
  unfolding on_location on_event
  on_location-Kept none = record { owns = h }
  on_location-Kept (some id) = go (decode_location frame.content id frame.protocol)
    where
      go : (e : Option LocationEvent) → Kept ident (on_event t frame e)
      go none = same _ refl refl refl
      go (some e) = same _ refl refl refl

  on_lbs-Kept : (id : Option Text) → Kept ident (on_lbs t frame id)
  unfolding on_lbs
  on_lbs-Kept none = record { owns = h }
  on_lbs-Kept (some id) = same _ refl refl refl

  on_heartbeat-Kept : (id : Option Text) → Kept ident (on_heartbeat t frame id)
  unfolding on_heartbeat on_status
  on_heartbeat-Kept none = same _ refl refl refl
  on_heartbeat-Kept (some id) = go (decode_heartbeat frame.content id)
    where
      go : (e : Option StatusEvent) → Kept ident (on_status t frame e)
      go none = same _ refl refl refl
      go (some e) = same _ refl refl refl

  on_reply-Kept : (id : Option Text) → Kept ident (on_reply t frame id)
  unfolding on_reply
  on_reply-Kept none = record { owns = h }
  on_reply-Kept (some id) = same _ refl refl refl

  time_request-Kept : Kept ident (record t { time_replies = t.time_replies ++ (frame ∷ []) })
  time_request-Kept = same _ refl refl refl

  if-Kept : (b : Bool) (x y : Turn) → Kept ident x → Kept ident y → Kept ident (if b then x else y)
  if-Kept true x y hx hy = hx
  if-Kept false x y hx hy = hy

  handle_frame-Kept : Kept ident (handle_frame env t frame)
  unfolding handle_frame
  handle_frame-Kept = if-Kept _ _ _ (on_login-Kept (decode_login frame.content)) (
      if-Kept _ _ _ (on_location-Kept t.session.device_id) (
        if-Kept _ _ _ (on_lbs-Kept t.session.device_id) (
          if-Kept _ _ _ (on_heartbeat-Kept t.session.device_id) (
            if-Kept _ _ _ time_request-Kept
              (if-Kept _ _ _ (on_reply-Kept t.session.device_id) (record { owns = h }))))))

-- Whatever the frames of a read, the registry knows the session under its own tracker only.
pub handle_frames-Owns :
    (ident : ℕ) (env : Env) (t : Turn) (frames : List Frame)
    → Owns ident t.registry t.session
    → Owns ident (handle_frames env t frames).registry (handle_frames env t frames).session
unfolding handle_frames
handle_frames-Owns ident env t [] h = h
handle_frames-Owns ident env t (frame ∷ frames) h =
    handle_frames-Owns ident env (handle_frame env t frame) frames
      (handle_frame-Kept ident env t frame h).owns

leave_registry_gone :
    (ident : ℕ) (r : Registry) (s : Session) (o : Option Text) (k : Text)
    → s.ident ≡ ident
    → ((j : Text) → get r j ≡ some ident → o ≡ some j)
    → get (leave_registry r s o) k ≢ some ident
unfolding leave_registry
leave_registry_gone ident r s none k same only = λ h. let e = only k h in cc
leave_registry_gone ident r s (some id) k same only =
    rw same (remove_gone r id ident (λ j x. let e = only j x in cc) k)

-- A connection that closes after any frames is in the registry under no tracker, if before them the
-- registry knew it under its own tracker at most.
pub close_gone :
    (ident : ℕ) (env : Env) (c : Connection) (frames : List Frame) (k : Text)
    → Owns ident c.registry c.session
    → let t = handle_frames env (first_turn c.session c.registry c.admission) frames in
      get
        (close (record c {
          session = t.session;
          registry = t.registry;
          admission = t.admission;
        })).registry
        k
      ≢ some ident
unfolding close
close_gone ident env c frames k h =
    let t = handle_frames env (first_turn c.session c.registry c.admission) frames in
    let kept =
      handle_frames-Owns ident env (first_turn c.session c.registry c.admission) frames h in
    leave_registry_gone ident t.registry t.session t.session.device_id k kept.same_ident
      kept.only_there
