-- ===== src/Gateway/Session/Deliver/Cuts.antt =====
-- Cuts while the ignition is on.
use gps_tracking.Prelude.{
  ℕ, ◌≡◌, refl, sym, ap, ◌∙◌, Bool, true, false, Option, none, some, List, [], ◌∷◌, ◌++◌,
  if◌then◌else◌, Bool-cases, inl, inr,
}
use gps_tracking.Protocol.Bytes.{Bytes}
use gps_tracking.Protocol.Result.{Result, ok, err, Error}
use gps_tracking.Protocol.Codec.Build.{build_command}
use gps_tracking.Gateway.Text.{text_eq}
use gps_tracking.Gateway.Commands.{ignition_on}
use gps_tracking.Gateway.Session.{Session, complete}
use gps_tracking.Gateway.Session.Acks.{written, written-append}
use gps_tracking.Gateway.Session.Deliver.{
  PendingCommand, Delivery, cut, is_refused, bump, send, deliver_one, join, go_on, deliver_commands,
}

-- The commands that are not cuts.
pub without_cuts : List PendingCommand → List PendingCommand
without_cuts [] = []
without_cuts (c ∷ cs) =
    let rest = without_cuts cs in if text_eq c.action cut then rest else c ∷ rest

pub record SameSent (d d' : Delivery) : Type 0 where
  pub same_session : d.session ≡ d'.session
  pub same_bytes : written d.effects ≡ written d'.effects
  pub same_exception : d.raised ≡ d'.raised

send_keeps :
    (lost : ℕ → Bool) (s : Session) (c : PendingCommand) (r : Result Bytes)
    → (send lost s c r).session.ignition ≡ s.ignition
unfolding send
send_keeps lost s c (err e) = refl
send_keeps lost s c (ok bytes) = elim (Bool-cases (lost c.id)) [
  | inl e ↦ rw e refl
  | inr e ↦ rw e refl
]

deliver_one_keeps :
    (lost : ℕ → Bool) (s : Session) (c : PendingCommand)
    → (deliver_one lost s c).session.ignition ≡ s.ignition
unfolding deliver_one
deliver_one_keeps lost s c = elim (Bool-cases (is_refused s c)) [
  | inl e ↦ rw e refl
  | inr e ↦ rw e (send_keeps lost (bump s) c (build_command (bump s).out_serial c.id c.command))
]

deliver_one-refused :
    (lost : ℕ → Bool) (s : Session) (c : PendingCommand)
    → is_refused s c ≡ true
    → deliver_one lost s c ≡ record {
      session = s;
      effects = complete c.id s.device_id false none (some ignition_on) ∷ [];
      raised = none;
    }
unfolding deliver_one
deliver_one-refused lost s c e = rw e refl

go_on-SameSent :
    (d rest rest' : Delivery)
    → SameSent rest rest'
    → SameSent (go_on d d.raised rest) (go_on d d.raised rest')
unfolding go_on join
go_on-SameSent d rest rest' h = split d.raised
  where
    split : (r : Option Error) → SameSent (go_on d r rest) (go_on d r rest')
    split none = record {
      same_session = h.same_session;
      same_bytes =
          written-append d.effects rest.effects
          ∙ (ap (◌++◌ (written d.effects)) h.same_bytes
              ∙ sym (written-append d.effects rest'.effects));
      same_exception = h.same_exception;
    }
    split (some e) = record { same_session = refl; same_bytes = refl; same_exception = refl }

-- While the session knows the ignition to be on, no cut is sent: the bytes written, the session after it
-- and the exception, if there is one, are those of a delivery with no cuts among the commands.
pub deliver_commands-without_cuts :
    (lost : ℕ → Bool) (s : Session) (cs : List PendingCommand)
    → s.ignition ≡ some true
    → SameSent (deliver_commands lost s cs) (deliver_commands lost s (without_cuts cs))
unfolding deliver_commands without_cuts go_on join
deliver_commands-without_cuts lost s [] on = record {
  same_session = refl;
  same_bytes = refl;
  same_exception = refl;
}
deliver_commands-without_cuts lost s (c ∷ cs) on = elim (Bool-cases (text_eq c.action cut)) [
  | inl e ↦
      let refused : is_refused s c ≡ true = rw (e, on) refl in
      let h = deliver_commands-without_cuts lost s cs on in
      rw (deliver_one-refused lost s c refused, e)
        (record {
          same_session = h.same_session;
          same_bytes = h.same_bytes;
          same_exception = h.same_exception;
        })
  | inr e ↦
      let d = deliver_one lost s c in
      rw e (
        go_on-SameSent d _ _
          (deliver_commands-without_cuts lost d.session cs (deliver_one_keeps lost s c ∙ on)))
]
