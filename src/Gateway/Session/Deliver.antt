-- ===== src/Gateway/Session/Deliver.antt =====
-- `deliver_commands` of gps_gateway/server.py, from the claimed commands on.
pub mod Cuts
pub mod Settled
use Prim.Native.Nat.{bit_and}
use gps_tracking.Prelude.{
  ℕ, ◌+◌, Bool, true, false, ◌&&◌, Option, none, some, List, [], ◌∷◌, ◌++◌, if◌then◌else◌,
}
use gps_tracking.Protocol.Bytes.{Bytes}
use gps_tracking.Protocol.Result.{Result, ok, err, Error}
use gps_tracking.Protocol.Codec.Build.{build_command}
use gps_tracking.Protocol.Codec.Cell.{Text}
use gps_tracking.Gateway.Text.{text_eq}
use gps_tracking.Gateway.Commands.{Reason, ignition_on, connection_lost}
use gps_tracking.Gateway.Session.{Session, Effect, complete, write, has_id}

pub record PendingCommand : Type 0 where
  pub id : ℕ
  pub device_id : Text
  pub action : Text
  pub command : Text

-- The session, the calls made so far, and the exception that ended the loop, if one did.
pub record Delivery : Type 0 where
  pub session : Session
  pub effects : List Effect
  pub raised : Option Error

abbrev pub cut : Text
cut = b'c' ∷ b'u' ∷ b't' ∷ []

abbrev pub is_on : Option Bool → Bool
is_on none = false
is_on (some on) = on

-- `command.action == "cut" and self.ignition`
abbrev pub is_refused : Session → PendingCommand → Bool
is_refused s c = text_eq c.action cut && is_on s.ignition

-- `self._awaiting[command.id] = …`
abbrev pub await_id : ℕ → List ℕ → List ℕ
await_id id ids = if has_id id ids then ids else id ∷ ids

-- `lost` says for which commands the connection is found broken. The calls of `build_command` and of the
-- encoders it rests on raise what the handler does not catch.
pub send : (ℕ → Bool) → Session → PendingCommand → Result Bytes → Delivery
send lost s c (err e) = record { session = s; effects = []; raised = some e }
send lost s c (ok bytes) =
    if lost c.id
    then record {
      session = s;
      effects = write bytes ∷ complete c.id s.device_id false none (some connection_lost) ∷ [];
      raised = none;
    }
    else record {
      session = record s { awaiting = await_id c.id s.awaiting };
      effects = write bytes ∷ [];
      raised = none;
    }

abbrev pub bump : Session → Session
bump s = record s { out_serial = bit_and (s.out_serial + 1) 0xffff }

-- The body of the loop.
pub deliver_one : (ℕ → Bool) → Session → PendingCommand → Delivery
deliver_one lost s c =
    if is_refused s c
    then record {
      session = s;
      effects = complete c.id s.device_id false none (some ignition_on) ∷ [];
      raised = none;
    }
    else send lost (bump s) c (build_command (bump s).out_serial c.id c.command)

-- What the rest of the loop adds, unless an exception ended it.
pub join : Delivery → Delivery → Delivery
join d rest = record {
  session = rest.session;
  effects = d.effects ++ rest.effects;
  raised = rest.raised;
}

pub go_on : Delivery → Option Error → Delivery → Delivery
go_on d none rest = join d rest
go_on d (some e) rest = d

-- The loop, with no other handler of the session running in between.
pub deliver_commands : (ℕ → Bool) → Session → List PendingCommand → Delivery
deliver_commands lost s [] = record { session = s; effects = []; raised = none }
deliver_commands lost s (c ∷ cs) =
    let d = deliver_one lost s c in
    let rest = deliver_commands lost d.session cs in go_on d d.raised rest
