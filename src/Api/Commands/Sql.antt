-- ===== src/Api/Commands/Sql.antt =====
-- `PostgresCommandRepository` of api/commands_repository.py: the statements of its SQL as functions of the
-- tables `device_commands` and `device_relay`. `users` is the table of accounts, which it only joins.
pub mod Refinement
use gps_tracking.Prelude.{
  ℕ, ◌+◌, Bool, true, false, not, ◌&&◌, Option, none, some, List, [], ◌∷◌, ◌++◌, map, take, keep,
  ltb, ◌==◌, if◌then◌else◌,
}
use gps_tracking.Prelude.Sorting.{sorted}
use gps_tracking.Protocol.Codec.Cell.{Text}
use gps_tracking.Gateway.Text.{text_eq}
use gps_tracking.Api.Commands.{
  Action, cut, Status, queued, failed, superseded, expired, Error, relay_disabled, Command,
  action_eq, is_queued, in_group, RelayAction, relay_action, relay_command, command_ttl,
  settings_ttl, among, relay_actions, Switch, RelayState,
}

-- A row of `device_commands`.
pub record Row : Type 0 where
  pub id : ℕ
  pub device_id : Text
  pub action : Action
  pub command : Text
  pub status : Status
  pub requested_by : Option ℕ
  pub requested_at : ℕ
  pub expires_at : ℕ
  pub sent_at : Option ℕ
  pub completed_at : Option ℕ
  pub reply : Option Text
  pub error : Option Error

-- A row of `device_relay`; `device_id` is its key.
pub record RelayRow : Type 0 where
  pub enabled : Bool
  pub changed_by : Option ℕ
  pub changed_at : ℕ

pub record Tables : Type 0 where
  pub rows : List Row
  pub next_id : ℕ
  pub relay : Text → Option RelayRow

abbrev pub Users : Type 0
Users = ℕ → Option Text

-- `LEFT JOIN users u ON u.id = c.requested_by`
abbrev pub username : Users → Option ℕ → Option Text
username users none = none
username users (some id) = users id

abbrev pub is_live_row : ℕ → Text → Row → Bool
is_live_row now device_id r =
    text_eq r.device_id device_id && is_queued r.status && ltb now r.expires_at

-- The columns of `_COLUMNS`, with its `CASE`.
pub select_row : Users → ℕ → Row → Command
select_row users now r = record {
  id = r.id;
  device_id = r.device_id;
  action = r.action;
  command = r.command;
  status = if is_queued r.status && not (ltb now r.expires_at) then expired else r.status;
  requested_by = username users r.requested_by;
  requested_at = r.requested_at;
  expires_at = r.expires_at;
  sent_at = r.sent_at;
  completed_at = r.completed_at;
  reply = r.reply;
  error = r.error;
}

-- `UPDATE device_commands SET status = 'superseded', …`
pub update_superseded : ℕ → Text → Action → Row → Row
update_superseded now device_id action r =
    if is_live_row now device_id r && in_group action r.action
    then record r { status = superseded; completed_at = some now }
    else r

-- `INSERT INTO device_commands …`, with the columns' defaults.
pub insert_row : ℕ → ℕ → Text → Action → Text → Option ℕ → ℕ → Row
insert_row now id device_id action text requested_by ttl = record {
  id = id;
  device_id = device_id;
  action = action;
  command = text;
  status = queued;
  requested_by = requested_by;
  requested_at = now;
  expires_at = now + ttl;
  sent_at = none;
  completed_at = none;
  reply = none;
  error = none;
}

-- `WHERE c.id = $1`, the first row of the answer.
pub find_row : ℕ → List Row → Option Row
find_row id [] = none
find_row id (r ∷ rows) = if r.id == id then some r else find_row id rows

abbrev pub select_one : Users → ℕ → Option Row → Option Command
select_one users now none = none
select_one users now (some r) = some (select_row users now r)

-- `_create`; a missing row would be an exception.
pub create : Users → Tables → ℕ → Text → Action → Text → ℕ → Option ℕ → Option Command × Tables
create users t now device_id action text ttl requested_by =
    let rows =
      map (update_superseded now device_id action) t.rows
      ++ (insert_row now t.next_id device_id action text requested_by ttl ∷ []) in
    (
      select_one users now (find_row t.next_id rows),
      record t { rows = rows; next_id = t.next_id + 1 },
    )

pub create_relay_command :
    Users → Tables → ℕ → Text → RelayAction → Option ℕ → Option Command × Tables
create_relay_command users t now device_id a requested_by =
    create users t now device_id (relay_action a) (relay_command a) command_ttl requested_by

pub create_tracker_command :
    Users → Tables → ℕ → Text → Action → Text → Option ℕ → Option Command × Tables
create_tracker_command users t now device_id action text requested_by =
    create users t now device_id action text settings_ttl requested_by

abbrev pub newer_row : Row → Row → Bool
newer_row r s = ltb s.id r.id

-- `ORDER BY c.id DESC LIMIT $2`
pub list_commands : Users → Tables → ℕ → Text → ℕ → Option (List Action) → List Command
list_commands users t now device_id limit actions =
    let mine = keep (λ (r : Row). text_eq r.device_id device_id && among actions r.action) t.rows in
    map (select_row users now) (take limit (sorted newer_row mine))

abbrev pub switch_of : Users → Option RelayRow → Switch
switch_of users none = record { enabled = false; changed_at = none; changed_by = none }
switch_of users (some r) = record {
  enabled = r.enabled;
  changed_at = some r.changed_at;
  changed_by = username users r.changed_by;
}

pub relay_state : Users → Tables → ℕ → Text → ℕ → RelayState
relay_state users t now device_id limit = record {
  device_id = device_id;
  switch = switch_of users (t.relay device_id);
  recent = list_commands users t now device_id limit relay_actions;
}

-- `UPDATE device_commands SET status = 'failed', error = 'relay_disabled', …`
pub update_disabled : ℕ → Text → Row → Row
update_disabled now device_id r =
    if is_live_row now device_id r && action_eq r.action cut
    then record r { status = failed; error = some relay_disabled; completed_at = some now }
    else r

-- `INSERT INTO device_relay … ON CONFLICT (device_id) DO UPDATE …`
pub upsert_relay : (Text → Option RelayRow) → Text → RelayRow → Text → Option RelayRow
upsert_relay relay device_id row id = if text_eq device_id id then some row else relay id

pub set_relay_enabled : Users → Tables → ℕ → Text → Bool → Option ℕ → RelayState × Tables
set_relay_enabled users t now device_id enabled changed_by =
    let row : RelayRow = record { enabled = enabled; changed_by = changed_by; changed_at = now } in
    let t' = record t {
      rows = if enabled then t.rows else map (update_disabled now device_id) t.rows;
      relay = upsert_relay t.relay device_id row;
    } in
    (relay_state users t' now device_id 5, t')
