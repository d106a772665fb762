-- ===== src/Api/Commands/Sql/Refinement.antt =====
-- The SQL backend of the command queue does what the in-memory one does.
use mathlib.Core.Path.{fun_ext}
use gps_tracking.Prelude.{
  ℕ, ◌+◌, ◌≤◌, ◌<◌, ◌≡◌, refl, sym, ap, ◌∙◌, Bool, true, false, not, ◌&&◌, Option, some, List, [],
  ◌∷◌, ◌++◌, map, take, All, All-append, keep, map-keep, take-map, map-append, map_comm, map_factor,
  ltb, ◌==◌, ==_refl, if◌then◌else◌, arith, Bool-cases, inl, inr,
}
use gps_tracking.Prelude.Sorting.{sorted, map-sorted}
use gps_tracking.Protocol.Codec.Cell.{Text}
use gps_tracking.Gateway.Text.{text_eq}
use gps_tracking.Api.Commands as Memory
use gps_tracking.Api.Commands.{
  Action, Command, Commands, Switch, RelayState, is_queued, among, effective, supersede, disable,
  newer, set_switch, new_command,
}
use gps_tracking.Api.Commands.Sql.{
  Row, RelayRow, Tables, Users, username, is_live_row, select_row, update_superseded, insert_row,
  find_row, select_one, create, newer_row, list_commands, switch_of, relay_state, update_disabled,
  upsert_relay, set_relay_enabled,
}

-- A row with its requester's name, as the in-memory backend keeps it.
abbrev pub named : Users → Row → Command
named users r = record {
  id = r.id;
  device_id = r.device_id;
  action = r.action;
  command = r.command;
  status = r.status;
  requested_by = username users r.requested_by;
  requested_at = r.requested_at;
  expires_at = r.expires_at;
  sent_at = r.sent_at;
  completed_at = r.completed_at;
  reply = r.reply;
  error = r.error;
}

-- The in-memory state that the tables stand for.
abbrev pub view : Users → Tables → Commands
view users t = record {
  commands = map (named users) t.rows;
  next_id = t.next_id;
  relay = λ (id : Text). switch_of users (t.relay id);
}

-- The sequence of ids is ahead of every row.
abbrev pub IsFresh : Tables → Type 0
IsFresh t = All (λ (r : Row). r.id < t.next_id) t.rows

select_row-eq :
    (users : Users) (now : ℕ) (r : Row) → select_row users now r ≡ effective now (named users r)
unfolding select_row effective
select_row-eq users now r = elim (Bool-cases (is_queued r.status && not (ltb now r.expires_at))) [
  | inl e ↦ rw e refl
  | inr e ↦ rw e refl
]

named-update_superseded :
    (users : Users) (now : ℕ) (device_id : Text) (action : Action) (r : Row)
    → named users (update_superseded now device_id action r)
      ≡ supersede now device_id action (named users r)
unfolding update_superseded supersede
named-update_superseded users now device_id action r =
    elim (Bool-cases (is_live_row now device_id r && Memory.in_group action r.action)) [
      | inl e ↦ rw e refl
      | inr e ↦ rw e refl
    ]

named-update_disabled :
    (users : Users) (now : ℕ) (device_id : Text) (r : Row)
    → named users (update_disabled now device_id r) ≡ disable now device_id (named users r)
unfolding update_disabled disable
named-update_disabled users now device_id r =
    elim (Bool-cases (is_live_row now device_id r && Memory.action_eq r.action Action.cut)) [
      | inl e ↦ rw e refl
      | inr e ↦ rw e refl
    ]

-- Listing gives the same answer.
pub list_commands-eq :
    (users : Users) (t : Tables) (now : ℕ) (device_id : Text) (limit : ℕ)
    (actions : Option (List Action))
    → list_commands users t now device_id limit actions
      ≡ Memory.list_commands (view users t) now device_id limit actions
unfolding list_commands Memory.list_commands
list_commands-eq users t now device_id limit actions =
    let mine = λ (r : Row). text_eq r.device_id device_id && among actions r.action in
    let mine' = λ (c : Command). text_eq c.device_id device_id && among actions c.action in
    map_factor (named users) (select_row users now) (effective now)
      (take limit (sorted newer_row (keep mine t.rows))) (select_row-eq users now)
    ∙ ap (map (effective now)) (
        sym (take-map limit (named users) (sorted newer_row (keep mine t.rows)))
        ∙ ap (take limit) (
            map-sorted newer_row newer (named users) (λ a b. refl) (keep mine t.rows)
            ∙ ap (sorted newer) (map-keep mine mine' (named users) t.rows (λ x. refl))))

find_row-append :
    (id : ℕ) (rows : List Row) (r : Row)
    → All (λ (x : Row). x.id < id) rows
    → r.id ≡ id
    → find_row id (rows ++ (r ∷ [])) ≡ some r
unfolding find_row
find_row-append id [] r h e = rw (e, ==_refl id) refl
find_row-append id (x ∷ rows) r h e =
    let other : (x.id == id) ≡ false = ground (arith, h.0) in
    rw other (find_row-append id rows r h.1 e)

update-IsFresh :
    (now n : ℕ) (device_id : Text) (action : Action) (rows : List Row)
    → All (λ (x : Row). x.id < n) rows
    → All (λ (x : Row). x.id < n) (map (update_superseded now device_id action) rows)
unfolding update_superseded
update-IsFresh now n device_id action [] h = tt
update-IsFresh now n device_id action (x ∷ rows) h = (
  elim (Bool-cases (is_live_row now device_id x && Memory.in_group action x.action)) [
    | inl e ↦ rw e h.0
    | inr e ↦ rw e h.0
  ],
  update-IsFresh now n device_id action rows h.1,
)

fresh_suc :
    (n : ℕ) (rows : List Row)
    → All (λ (x : Row). x.id < n) rows
    → All (λ (x : Row). x.id < n + 1) rows
fresh_suc n [] h = tt
fresh_suc n (x ∷ rows) h = (omega (arith, h.0), fresh_suc n rows h.1)

-- Queueing a command over the tables, where every row's id is below the sequence, answers with the command
-- that the in-memory backend answers with, leaves tables that stand for the state it leaves, and keeps the
-- ids below the sequence.
pub create-refines :
    (users : Users) (t : Tables) (now : ℕ) (device_id : Text) (action : Action) (text : Text)
    (ttl : ℕ) (requested_by : Option ℕ)
    → IsFresh t
    → 1 ≤ ttl
    → let (answer, t') = create users t now device_id action text ttl requested_by in
      let (c, r') =
        Memory.create (view users t) now device_id action text ttl (username users requested_by) in
      (answer ≡ some c) × (view users t' ≡ r') × IsFresh t'
unfolding create Memory.create insert_row new_command
create-refines users t now device_id action text ttl requested_by fresh long =
    let row = insert_row now t.next_id device_id action text requested_by ttl in
    let rows = map (update_superseded now device_id action) t.rows in
    let fresh' = update-IsFresh now t.next_id device_id action t.rows fresh in
    let alive : ltb now (now + ttl) ≡ true = ground arith in
    (
      ap (select_one users now) (find_row-append t.next_id rows row fresh' refl)
          ∙ ap some (select_row-eq users now row ∙ unfold effective in rw alive refl),
      ap (λ (cs : List Command). record (view users t) { commands = cs; next_id = t.next_id + 1 })
          (map-append (named users) rows (row ∷ [])
            ∙ ap (λ (cs : List Command). cs ++ (named users row ∷ []))
                (map_comm (named users) (update_superseded now device_id action)
                  (supersede now device_id action) t.rows
                  (named-update_superseded users now device_id action))),
      All-append (λ (x : Row). x.id < t.next_id + 1) rows (row ∷ [])
          (fresh_suc t.next_id rows fresh') (omega arith, tt),
    )

relay_state-eq :
    (users : Users) (t : Tables) (now : ℕ) (device_id : Text) (limit : ℕ)
    → relay_state users t now device_id limit
      ≡ Memory.relay_state (view users t) now device_id limit
unfolding relay_state Memory.relay_state
relay_state-eq users t now device_id limit =
    ap
      (λ (cs : List Command). record {
        device_id = device_id;
        switch = switch_of users (t.relay device_id);
        recent = cs;
      })
      (list_commands-eq users t now device_id limit Memory.relay_actions)

disable_if :
    (users : Users) (now : ℕ) (device_id : Text) (enabled : Bool) (rows : List Row)
    → map (named users) (if enabled then rows else map (update_disabled now device_id) rows) ≡ (
        if enabled
        then map (named users) rows
        else map (disable now device_id) (map (named users) rows))
disable_if users now device_id true rows = refl
disable_if users now device_id false rows =
    map_comm (named users) (update_disabled now device_id) (disable now device_id) rows
      (named-update_disabled users now device_id)

switch_of-upsert :
    (users : Users) (relay : Text → Option RelayRow) (device_id : Text) (row : RelayRow) (id : Text)
    → switch_of users (upsert_relay relay device_id row id)
      ≡ set_switch
          (λ (j : Text). switch_of users (relay j))
          device_id
          (switch_of users (some row))
          id
unfolding upsert_relay set_switch
switch_of-upsert users relay device_id row id = elim (Bool-cases (text_eq device_id id)) [
  | inl e ↦ rw e refl
  | inr e ↦ rw e refl
]

-- Switching cut-off on or off over the tables leaves tables that stand for the state that the in-memory
-- backend leaves, and gives its answer: the switch and the recent commands.
pub set_relay_enabled-refines :
    (users : Users) (t : Tables) (now : ℕ) (device_id : Text) (enabled : Bool)
    (changed_by : Option ℕ)
    → let (answer, t') = set_relay_enabled users t now device_id enabled changed_by in
      let (s, r') =
        Memory.set_relay_enabled (view users t) now device_id enabled (username users changed_by) in
      (view users t' ≡ r') × (answer ≡ s)
unfolding set_relay_enabled Memory.set_relay_enabled
set_relay_enabled-refines users t now device_id enabled changed_by =
    let row : RelayRow = record { enabled = enabled; changed_by = changed_by; changed_at = now } in
    let t' : Tables = record t {
      rows = if enabled then t.rows else map (update_disabled now device_id) t.rows;
      relay = upsert_relay t.relay device_id row;
    } in
    let same : view users t' ≡ record (view users t) {
      commands =
          if enabled
          then map (named users) t.rows
          else map (disable now device_id) (map (named users) t.rows);
      relay =
          set_switch (λ (j : Text). switch_of users (t.relay j)) device_id
            (switch_of users (some row));
    } =
      rw (disable_if users now device_id enabled t.rows) (
        ap
          (λ (f : Text → Switch). record (view users t) {
            commands =
                if enabled
                then map (named users) t.rows
                else map (disable now device_id) (map (named users) t.rows);
            relay = f;
          })
          (fun_ext (switch_of-upsert users t.relay device_id row))) in
    (
      same,
      relay_state-eq users t' now device_id 5
          ∙ ap (λ (r : Commands). Memory.relay_state r now device_id 5) same,
    )
