-- ===== src/Api/Geofences/Report/Asked.antt =====
-- What the report of api/geofences_repository.py is asked for, apart from how it is computed.
use mathlib.Core.Path.{subst}
use gps_tracking.Prelude.{
  ℕ, ◌<◌, ◌≤◌, ◌≡◌, ◌↔◌, inl, inr, refl, sym, ap, ◌∙◌, Bool, true, false, Option, none, some, List,
  [], ◌∷◌, ◌++◌, ltb, leb, arith, Bool-cases, Option-cases,
}
use gps_tracking.Prelude.Dict.{nat_keys, lookup}
use gps_tracking.Protocol.Codec.Cell.{Text}
use gps_tracking.Gateway.Text.{text_eq, text_eq_iff}
use gps_tracking.Api.Account.{is_device}
use gps_tracking.Api.Geofences.{
  CrossingKind, enter, exit, alerted, Fence, Event, GeofenceEventOut, Geofences, is_wanted,
}
use gps_tracking.Api.Geofences.Report.{Query, or_true, passes, event_out, row_of}
use gps_tracking.Api.Geofences.Report.Newest.{rows_of}

-- A filter that is not given asks for nothing.
abbrev pub Wanted : {A : Type 0} → Option A → (A → Type 0) → Type 0
Wanted none P = Unit
Wanted (some a) P = P a

abbrev pub IsListed : Text → List Text → Type 0
IsListed id devices = (front : List Text) × (back : List Text) × (devices ≡ front ++ (id ∷ back))

abbrev pub IsWanted : Query → Fence → Event → Type 0
IsWanted q fence e =
    Wanted q.owner_id (λ (o : ℕ). fence.owner_id ≡ o)
    × Wanted q.device_scope (λ (ds : List Text). IsListed e.device_id ds)
    × Wanted q.geofence_id (λ (g : ℕ). e.geofence_id ≡ g)
    × Wanted q.device_id (λ (d : Text). e.device_id ≡ d)
    × Wanted q.after_id (λ (id : ℕ). id < e.id)
    × Wanted q.since (λ (t : ℕ). t ≤ e.occurred_at)
    × Wanted q.until (λ (t : ℕ). e.occurred_at ≤ t)

-- The event in the row's fields, and whether its fence asks for an alert at such a crossing.
abbrev pub row_for : Fence → Event → GeofenceEventOut
row_for fence e = record {
  id = e.id;
  geofence_id = e.geofence_id;
  geofence_name = fence.name;
  device_id = e.device_id;
  kind = e.kind;
  latitude = e.latitude;
  longitude = e.longitude;
  occurred_at = e.occurred_at;
  alerted = elim e.kind [ enter ↦ fence.alert_on_enter | exit ↦ fence.alert_on_exit ];
}

-- The row that shows the event, of a fence that still exists, if all the filters want it.
abbrev pub Shows : Geofences → Query → Event → GeofenceEventOut → Type 0
Shows r q e row =
    (fence : Fence) × (lookup nat_keys r.fences e.geofence_id ≡ some fence)
    × IsWanted q fence e
    × (row ≡ row_for fence e)

-- The rows of the events in the order in which they are stored.
pub data Asked (r : Geofences) (q : Query) : List Event → List GeofenceEventOut → Type 0 where
  nothing : Asked r q [] []
  shown :
      (e : Event) (events : List Event) (row : GeofenceEventOut) (rows : List GeofenceEventOut)
      → Shows r q e row
      → Asked r q events rows
      → Asked r q (e ∷ events) (row ∷ rows)
  skipped :
      (e : Event) (events : List Event) (rows : List GeofenceEventOut)
      → ((row : GeofenceEventOut) → ¬ Shows r q e row)
      → Asked r q events rows
      → Asked r q (e ∷ events) rows

or_true_iff :
    {A : Type 0} (o : Option A) (test : A → Bool) (P : A → Type 0)
    → ((a : A) → (test a ≡ true) ↔ P a)
    → (or_true o test ≡ true) ↔ Wanted o P
or_true_iff none test P h = (λ e. tt, λ w. refl)
or_true_iff (some a) test P h = h a

is_wanted_iff : (o : Option ℕ) (id : ℕ) → (is_wanted o id ≡ true) ↔ Wanted o (λ (w : ℕ). id ≡ w)
is_wanted_iff none id = (λ e. tt, λ w. refl)
is_wanted_iff (some w) id = (λ e. ground (arith, e), λ e. ground (arith, e))

is_device→ : (id : Text) (devices : List Text) → is_device id devices ≡ true → IsListed id devices
unfolding is_device
is_device→ id [] h = absurd (ground (arith, h))
is_device→ id (d ∷ devices) h = elim (Bool-cases (text_eq id d)) [
  | inl e ↦ ([], devices, ap (λ (x : Text). x ∷ devices) (sym ((text_eq_iff id d).0 e)))
  | inr e ↦
      let (front, back, eq) = is_device→ id devices (ground (arith, h, e)) in
      (d ∷ front, back, ap (◌∷◌ d) eq)
]

is_device-append : (id : Text) (front back : List Text) → is_device id (front ++ (id ∷ back)) ≡ true
unfolding is_device
is_device-append id [] back = rw ((text_eq_iff id id).1 refl) refl
is_device-append id (d ∷ front) back = ground (arith, is_device-append id front back)

is_device_iff :
    (id : Text) (devices : List Text) → (is_device id devices ≡ true) ↔ IsListed id devices
is_device_iff id devices =
    (is_device→ id devices, λ h. let (front, back, e) = h in rw e (is_device-append id front back))

passes_iff :
    (q : Query) (fence : Fence) (e : Event) → (passes q fence e ≡ true) ↔ IsWanted q fence e
unfolding passes
passes_iff q fence e =
    let owner = is_wanted_iff q.owner_id fence.owner_id in
    let scope =
      or_true_iff q.device_scope (λ (ds : List Text). is_device e.device_id ds)
        (λ (ds : List Text). IsListed e.device_id ds) (is_device_iff e.device_id) in
    let geofence = is_wanted_iff q.geofence_id e.geofence_id in
    let device =
      or_true_iff q.device_id (λ (d : Text). text_eq e.device_id d) (λ (d : Text). e.device_id ≡ d)
        (text_eq_iff e.device_id) in
    let after =
      or_true_iff q.after_id (λ (id : ℕ). ltb id e.id) (λ (id : ℕ). id < e.id)
        (λ id. (λ h. ground (arith, h), λ h. ground (arith, h))) in
    let since =
      or_true_iff q.since (λ (t : ℕ). leb t e.occurred_at) (λ (t : ℕ). t ≤ e.occurred_at)
        (λ t. (λ h. ground (arith, h), λ h. ground (arith, h))) in
    let until =
      or_true_iff q.until (λ (t : ℕ). leb e.occurred_at t) (λ (t : ℕ). e.occurred_at ≤ t)
        (λ t. (λ h. ground (arith, h), λ h. ground (arith, h))) in
    (
      λ h. (
        owner.0 (ground (arith, h)),
        scope.0 (ground (arith, h)),
        geofence.0 (ground (arith, h)),
        device.0 (ground (arith, h)),
        after.0 (ground (arith, h)),
        since.0 (ground (arith, h)),
        until.0 (ground (arith, h)),
      ),
      λ w.
          rw
            (
              owner.1 w.0,
              scope.1 w.1,
              geofence.1 w.2,
              device.1 w.3,
              after.1 w.4,
              since.1 w.5,
              until.1 w.6,
            )
            refl,
    )

pub some_injective : {A : Type 0} → {a b : A} → some a ≡ some b → a ≡ b
some_injective {A} {a} {b} e = ap (get_or a) e
  where
    get_or : {A : Type 0} → A → Option A → A
    get_or d none = d
    get_or d (some x) = x

event_out-row_for : (fence : Fence) (e : Event) → event_out fence e ≡ row_for fence e
unfolding alerted
event_out-row_for fence e =
    ap (λ (b : Bool). record (row_for fence e) { alerted = b }) (same e.kind)
  where
    same :
        (kind : CrossingKind)
        → alerted kind fence.alert_on_exit fence.alert_on_enter
          ≡ (elim kind as (λ k. Bool) [ enter ↦ fence.alert_on_enter | exit ↦ fence.alert_on_exit ])
    same enter = refl
    same exit = refl

not_shown :
    (r : Geofences) (q : Query) (e : Event) (fence : Fence)
    → lookup nat_keys r.fences e.geofence_id ≡ some fence
    → passes q fence e ≡ false
    → (row : GeofenceEventOut) → ¬ Shows r q e row
not_shown r q e fence n p row (fence', n', w, x) =
    let same : fence' ≡ fence = some_injective (sym n' ∙ n) in
    let passed : passes q fence e ≡ true =
      subst (λ (f : Fence). passes q f e ≡ true) same ((passes_iff q fence' e).1 w) in
    ground (arith, p, passed)

-- The loop shows the events that are asked for, each as its row.
pub rows_of-Asked :
    (r : Geofences) (q : Query) (events : List Event)
    → Asked r q events (rows_of (row_of r q) events)
unfolding row_of
rows_of-Asked r q [] = nothing
rows_of-Asked r q (e ∷ events) =
    let rest = rows_of-Asked r q events in
    elim (Option-cases (lookup nat_keys r.fences e.geofence_id)) [
      | inl n ↦
          rw (rows_of, row_of, n)
            (skipped e events _ (λ row s. let (fence, k, w, x) = s in ground (arith, n, k)) rest)
      | inr (fence, n) ↦ elim (Bool-cases (passes q fence e)) [
        | inl p ↦
            rw (rows_of, row_of, n, p)
              (shown e events (event_out fence e) _
                (fence, n, (passes_iff q fence e).0 p, event_out-row_for fence e) rest)
        | inr p ↦ rw (rows_of, row_of, n, p) (skipped e events _ (not_shown r q e fence n p) rest)
      ]
    ]
