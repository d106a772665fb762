-- ===== src/Api/Commands.antt =====
-- `InMemoryCommandRepository` of api/commands_repository.py. Times are whole microseconds.
pub mod Pending
pub mod Sql
use gps_tracking.Prelude.{
  ℕ, ◌+◌, ◌*◌, Bool, true, false, not, ◌&&◌, ◌||◌, Option, none, some, List, [], ◌∷◌, ◌++◌, map,
  take, keep, ltb, ◌==◌, if◌then◌else◌,
}
use gps_tracking.Prelude.Sorting.{sorted}
use gps_tracking.Protocol.Codec.Cell.{Text}
use gps_tracking.Gateway.Text.{text_eq}

pub data Action : Type 0 where
  cut restore timer param : Action

pub data Status : Type 0 where
  queued sent confirmed failed expired superseded : Status

pub data Error : Type 0 where
  relay_disabled : Error
  other_error : Text → Error

-- `DeviceCommandOut` of api/schemas.py.
pub record Command : Type 0 where
  pub id : ℕ
  pub device_id : Text
  pub action : Action
  pub command : Text
  pub status : Status
  pub requested_by : Option Text
  pub requested_at : ℕ
  pub expires_at : ℕ
  pub sent_at : Option ℕ
  pub completed_at : Option ℕ
  pub reply : Option Text
  pub error : Option Error

abbrev pub action_eq : Action → Action → Bool
action_eq cut cut = true
action_eq restore restore = true
action_eq timer timer = true
action_eq param param = true
action_eq a b = false

abbrev pub is_queued : Status → Bool
is_queued queued = true
is_queued s = false

-- `RELAY,1#` and `RELAY,0#`: the keys of `RELAY_COMMANDS` are the relay's two actions.
pub data RelayAction : Type 0 where
  cut_off engine_on : RelayAction

abbrev pub relay_word : ℕ → Text
relay_word digit = b'R' ∷ b'E' ∷ b'L' ∷ b'A' ∷ b'Y' ∷ b',' ∷ digit ∷ b'#' ∷ []

abbrev pub relay_action : RelayAction → Action
relay_action cut_off = cut
relay_action engine_on = restore

abbrev pub relay_command : RelayAction → Text
relay_command cut_off = relay_word b'1'
relay_command engine_on = relay_word b'0'

abbrev pub is_relay : Action → Bool
is_relay cut = true
is_relay restore = true
is_relay a = false

-- `c.action in _group(action)`
abbrev pub in_group : Action → Action → Bool
in_group action a = if is_relay action then is_relay a else action_eq a action

abbrev pub microseconds : ℕ → ℕ
microseconds s = s * 1000000

-- `COMMAND_TTL` and `SETTINGS_TTL`
abbrev pub command_ttl : ℕ
command_ttl = microseconds 300

abbrev pub settings_ttl : ℕ
settings_ttl = microseconds 86400

-- `_effective`
pub effective : ℕ → Command → Command
effective now c =
    if is_queued c.status && not (ltb now c.expires_at) then record c { status = expired } else c

-- The condition on `c` that the updates share, but for the actions.
abbrev pub is_live : ℕ → Text → Command → Bool
is_live now device_id c =
    text_eq c.device_id device_id && is_queued c.status && ltb now c.expires_at

-- What the relay's switch was last set to: on or off, when, and by whom.
pub record Switch : Type 0 where
  pub enabled : Bool
  pub changed_at : Option ℕ
  pub changed_by : Option Text

pub record Commands : Type 0 where
  pub commands : List Command
  pub next_id : ℕ
  pub relay : Text → Switch

abbrev pub never_set : Switch
never_set = record { enabled = false; changed_at = none; changed_by = none }

abbrev pub new_commands : Commands
new_commands = record { commands = []; next_id = 1; relay = λ device_id. never_set }

pub set_switch : (Text → Switch) → Text → Switch → Text → Switch
set_switch relay device_id s id = if text_eq device_id id then s else relay id

-- The comprehension of `_create`.
pub supersede : ℕ → Text → Action → Command → Command
supersede now device_id action c =
    if is_live now device_id c && in_group action c.action
    then record c { status = superseded; completed_at = some now }
    else c

pub new_command : ℕ → ℕ → Text → Action → Text → ℕ → Option Text → Command
new_command now id device_id action text ttl requester = record {
  id = id;
  device_id = device_id;
  action = action;
  command = text;
  status = queued;
  requested_by = requester;
  requested_at = now;
  expires_at = now + ttl;
  sent_at = none;
  completed_at = none;
  reply = none;
  error = none;
}

-- `_create`
pub create : Commands → ℕ → Text → Action → Text → ℕ → Option Text → Command × Commands
create r now device_id action text ttl requester =
    let c = new_command now r.next_id device_id action text ttl requester in
    (
      c,
      record r {
        commands = map (supersede now device_id action) r.commands ++ (c ∷ []);
        next_id = r.next_id + 1;
      },
    )

pub create_relay_command : Commands → ℕ → Text → RelayAction → Option Text → Command × Commands
create_relay_command r now device_id a requester =
    create r now device_id (relay_action a) (relay_command a) command_ttl requester

pub create_tracker_command : Commands → ℕ → Text → Action → Text → Option Text → Command × Commands
create_tracker_command r now device_id action text requester =
    create r now device_id action text settings_ttl requester

-- `actions is None or c.action in actions`
pub among : Option (List Action) → Action → Bool
among none a = true
among (some []) a = false
among (some (b ∷ actions)) a = action_eq a b || among (some actions) a

abbrev pub newer : Command → Command → Bool
newer c d = ltb d.id c.id

pub list_commands : Commands → ℕ → Text → ℕ → Option (List Action) → List Command
list_commands r now device_id limit actions =
    let mine =
      keep (λ (c : Command). text_eq c.device_id device_id && among actions c.action) r.commands in
    map (effective now) (take limit (sorted newer mine))

-- `RelayStateOut`
pub record RelayState : Type 0 where
  pub device_id : Text
  pub switch : Switch
  pub recent : List Command

abbrev pub relay_actions : Option (List Action)
relay_actions = some (cut ∷ restore ∷ [])

pub relay_state : Commands → ℕ → Text → ℕ → RelayState
relay_state r now device_id limit = record {
  device_id = device_id;
  switch = r.relay device_id;
  recent = list_commands r now device_id limit relay_actions;
}

pub disable : ℕ → Text → Command → Command
disable now device_id c =
    if is_live now device_id c && action_eq c.action cut
    then record c { status = failed; error = some relay_disabled; completed_at = some now }
    else c

pub set_relay_enabled : Commands → ℕ → Text → Bool → Option Text → RelayState × Commands
set_relay_enabled r now device_id enabled requester =
    let s : Switch = record { enabled = enabled; changed_at = some now; changed_by = requester } in
    let r' = record r {
      commands = if enabled then r.commands else map (disable now device_id) r.commands;
      relay = set_switch r.relay device_id s;
    } in
    (relay_state r' now device_id 5, r')
