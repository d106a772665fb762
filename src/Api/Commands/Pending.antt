-- ===== src/Api/Commands/Pending.antt =====
-- Which commands wait for a tracker.
use gps_tracking.Prelude.{
  ℕ, ◌+◌, ◌≤◌, ◌≡◌, refl, ◌∙◌, Bool, true, false, not, ◌&&◌, Option, some, [], ◌∷◌, ◌++◌, map, keep,
  keep-append, keep-map_none, keep-map_same, ltb, if◌then◌else◌, arith, Bool-cases, inl, inr,
}
use mathlib.Core.List.{append-nil}
use gps_tracking.Protocol.Codec.Cell.{Text}
use gps_tracking.Gateway.Text.{text_eq, text_eq_refl, text_eq_iff}
use gps_tracking.Api.Commands.{
  Action, cut, Command, action_eq, in_group, is_live, Commands, set_switch, supersede, new_command,
  create, disable, set_relay_enabled,
}

-- The live commands of a device that a new one with this action replaces.
abbrev pub replaced_by : ℕ → Text → Action → Command → Bool
replaced_by now device_id action c = is_live now device_id c && in_group action c.action

-- The other live commands, of any device.
abbrev pub unaffected : ℕ → Text → Action → Text → Command → Bool
unaffected now device_id action d c =
    is_live now d c && not (text_eq d device_id && in_group action c.action)

supersede_replaced :
    (now : ℕ) (device_id : Text) (action : Action) (c : Command)
    → replaced_by now device_id action (supersede now device_id action c) ≡ false
unfolding supersede
supersede_replaced now device_id action c = elim (Bool-cases (replaced_by now device_id action c)) [
  | inl e ↦ rw e (ground arith)
  | inr e ↦ rw e e
]

supersede-unaffected :
    (now : ℕ) (device_id d : Text) (action : Action) (c : Command)
    → (unaffected now device_id action d (supersede now device_id action c)
        ≡ unaffected now device_id action d c)
      × (unaffected now device_id action d c ≡ true → supersede now device_id action c ≡ c)
unfolding supersede
supersede-unaffected now device_id d action c =
    elim (Bool-cases (replaced_by now device_id action c)) [
      | inl e ↦
          let hidden : unaffected now device_id action d c ≡ false = ground (
            arith,
            e,
            text_eq_iff c.device_id device_id,
            text_eq_iff c.device_id d,
            text_eq_iff d device_id,
          ) in
          rw e (rw hidden (ground arith, λ h. cc))
      | inr e ↦ rw e (refl, λ _. refl)
    ]

-- A new command leaves itself, and nothing else, waiting among those of its device that it replaces: of a
-- cut and a restore only the newest waits, of a settings command only the newest of its kind. What waits
-- for other devices, or for this one in another group, waits on unchanged.
pub create-waiting :
    (r : Commands) (now : ℕ) (device_id : Text) (action : Action) (text : Text) (ttl : ℕ)
    (requester : Option Text) (d : Text)
    → 1 ≤ ttl
    → let (c, r') = create r now device_id action text ttl requester in
      (keep (replaced_by now device_id action) r'.commands ≡ c ∷ [])
      × (keep (unaffected now device_id action d) r'.commands
          ≡ keep (unaffected now device_id action d) r.commands)
unfolding create new_command
create-waiting r now device_id action text ttl requester d long = (own, others)
  where
    c : Command
    c = new_command now r.next_id device_id action text ttl requester

    in_own_group : in_group action action ≡ true
    in_own_group = self action
      where
        self : (a : Action) → in_group a a ≡ true
        self Action.cut = refl
        self Action.restore = refl
        self Action.timer = refl
        self Action.param = refl

    alive : ltb now (now + ttl) ≡ true
    alive = ground arith

    own :
        keep
          (replaced_by now device_id action)
          (map (supersede now device_id action) r.commands ++ (c ∷ []))
        ≡ c ∷ []
    own =
        keep-append (replaced_by now device_id action)
          (map (supersede now device_id action) r.commands) (c ∷ [])
        ∙ rw
            (
              keep-map_none (replaced_by now device_id action) (supersede now device_id action)
                  r.commands (supersede_replaced now device_id action),
              text_eq_refl device_id,
              alive,
              in_own_group,
            )
            refl

    others :
        keep
          (unaffected now device_id action d)
          (map (supersede now device_id action) r.commands ++ (c ∷ []))
        ≡ keep (unaffected now device_id action d) r.commands
    others =
        let not_mine : unaffected now device_id action d c ≡ false =
          ground (arith, in_own_group, text_eq_iff device_id d, text_eq_iff d device_id) in
        let kept = supersede-unaffected now device_id d action in
        keep-append (unaffected now device_id action d)
          (map (supersede now device_id action) r.commands) (c ∷ [])
        ∙ rw
            (
              not_mine,
              keep-map_same (unaffected now device_id action d) (supersede now device_id action)
                  r.commands (λ x. (kept x).0) (λ x. (kept x).1),
            )
            (append-nil (keep (unaffected now device_id action d) r.commands))

abbrev pub waiting_cut : ℕ → Text → Command → Bool
waiting_cut now device_id c = is_live now device_id c && action_eq c.action cut

abbrev pub other_waiting : ℕ → Text → Text → Command → Bool
other_waiting now device_id d c =
    is_live now d c && not (text_eq d device_id && action_eq c.action cut)

disable_waiting :
    (now : ℕ) (device_id d : Text) (c : Command)
    → (waiting_cut now device_id (disable now device_id c) ≡ false)
      × (other_waiting now device_id d (disable now device_id c) ≡ other_waiting now device_id d c)
      × (other_waiting now device_id d c ≡ true → disable now device_id c ≡ c)
unfolding disable
disable_waiting now device_id d c = elim (Bool-cases (waiting_cut now device_id c)) [
  | inl e ↦
      let hidden : other_waiting now device_id d c ≡ false = ground (
        arith,
        e,
        text_eq_iff c.device_id device_id,
        text_eq_iff c.device_id d,
        text_eq_iff d device_id,
      ) in
      rw e (rw hidden (ground arith, ground arith, λ h. cc))
  | inr e ↦ rw e (e, refl, λ _. refl)
]

-- Switching a tracker's cut-off off leaves no cut waiting for it. Every other command that waits, a restore
-- for the same tracker among them, waits on unchanged, and no other tracker's switch moves.
pub set_relay_enabled-waiting :
    (r : Commands) (now : ℕ) (device_id d : Text) (requester : Option Text)
    → let r' = (set_relay_enabled r now device_id false requester).1 in
      (keep (waiting_cut now device_id) r'.commands ≡ [])
      × (keep (other_waiting now device_id d) r'.commands
          ≡ keep (other_waiting now device_id d) r.commands)
      × ((r'.relay d).enabled ≡ ((r.relay d).enabled && not (text_eq device_id d)))
unfolding set_relay_enabled set_switch
set_relay_enabled-waiting r now device_id d requester = (
  keep-map_none (waiting_cut now device_id) (disable now device_id) r.commands
      (λ c. (disable_waiting now device_id d c).0),
  keep-map_same (other_waiting now device_id d) (disable now device_id) r.commands
      (λ c. (disable_waiting now device_id d c).1) (λ c. (disable_waiting now device_id d c).2),
  switch (text_eq device_id d),
)
  where
    switch :
        (b : Bool)
        → (if b
            then (record { enabled = false; changed_at = some now; changed_by = requester })
            else r.relay d).enabled
          ≡ ((r.relay d).enabled && not b)
    switch true = ground arith
    switch false = ground arith
