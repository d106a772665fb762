-- ===== src/Api/Geofences/Report.antt =====
-- The report of crossings of `InMemoryGeofenceRepository` of api/geofences_repository.py.
pub mod Newest
pub mod Asked
pub mod Order
use gps_tracking.Prelude.{
  ℕ, ◌+◌, Bool, true, false, not, ◌&&◌, ◌||◌, Option, none, some, List, [], ◌∷◌, ◌++◌, length, ltb,
  leb, ◌==◌, if◌then◌else◌, map,
}
use gps_tracking.Prelude.Dict.{nat_keys, lookup}
use gps_tracking.Prelude.Sorting.{sorted}
use gps_tracking.Protocol.Codec.Cell.{Text}
use gps_tracking.Gateway.Text.{text_eq}
use gps_tracking.Api.Account.{is_device}
use gps_tracking.Api.Geofences.{Fence, Event, GeofenceEventOut, Geofences, is_wanted, alerted}

-- The filters of `list_events`.
pub record Query : Type 0 where
  pub owner_id : Option ℕ
  pub device_scope : Option (List Text)
  pub geofence_id : Option ℕ
  pub device_id : Option Text
  pub after_id : Option ℕ
  pub since : Option ℕ
  pub until : Option ℕ

abbrev pub or_true : {A : Type 0} → Option A → (A → Bool) → Bool
or_true none test = true
or_true (some a) test = test a

pub passes : Query → Fence → Event → Bool
passes q fence e =
    is_wanted q.owner_id fence.owner_id
    && or_true q.device_scope (λ (ds : List Text). is_device e.device_id ds)
    && is_wanted q.geofence_id e.geofence_id
    && or_true q.device_id (λ (d : Text). text_eq e.device_id d)
    && or_true q.after_id (λ (id : ℕ). ltb id e.id)
    && or_true q.since (λ (t : ℕ). leb t e.occurred_at)
    && or_true q.until (λ (t : ℕ). leb e.occurred_at t)

abbrev pub event_out : Fence → Event → GeofenceEventOut
event_out fence e = record {
  id = e.id;
  geofence_id = e.geofence_id;
  geofence_name = fence.name;
  device_id = e.device_id;
  kind = e.kind;
  latitude = e.latitude;
  longitude = e.longitude;
  occurred_at = e.occurred_at;
  alerted = alerted e.kind fence.alert_on_exit fence.alert_on_enter;
}

-- One round of the loop: a row of the report, or none where the event is passed over.
pub row_of : Geofences → Query → Event → Option GeofenceEventOut
row_of r q e = elim (lookup nat_keys r.fences e.geofence_id) [
  | none ↦ none
  | some fence ↦ if passes q fence e then some (event_out fence e) else none
]

-- `key=lambda e: (e["occurred_at"], e["id"]), reverse=True`
abbrev pub newer : Event → Event → Bool
newer a b = ltb b.occurred_at a.occurred_at || (b.occurred_at == a.occurred_at && ltb b.id a.id)

-- The loop, which stops once `limit` rows are out; `count` are.
pub collect : {A B : Type 0} → (A → Option B) → ℕ → ℕ → List A → List B
collect f limit count [] = []
collect f limit count (e ∷ events) = elim (f e) [
  | none ↦ collect f limit count events
  | some row ↦
      row ∷ elim (leb limit (count + 1)) [ true ↦ [] | false ↦ collect f limit (count + 1) events ]
]

pub list_events : Geofences → Query → ℕ → List GeofenceEventOut
list_events r q limit = collect (row_of r q) limit 0 (sorted newer r.events)

-- `(event.geofence_id, event.device_id)`
abbrev pub same_pair : GeofenceEventOut → GeofenceEventOut → Bool
same_pair a b = a.geofence_id == b.geofence_id && text_eq a.device_id b.device_id

-- `newest.setdefault(…, event)`, for an event before the time; `newest` is what the dict holds, in order.
abbrev pub is_in : GeofenceEventOut → List GeofenceEventOut → Bool
is_in e [] = false
is_in e (n ∷ newest) = let rest = is_in e newest in same_pair n e || rest

abbrev pub add_newest : ℕ → List GeofenceEventOut → GeofenceEventOut → List GeofenceEventOut
add_newest before newest e =
    if ltb e.occurred_at before && not (is_in e newest) then newest ++ (e ∷ []) else newest

pub newest_of : ℕ → List GeofenceEventOut → List GeofenceEventOut → List GeofenceEventOut
newest_of before newest [] = newest
newest_of before newest (e ∷ events) = newest_of before (add_newest before newest e) events

abbrev pub any_query : Option ℕ → Option (List Text) → Query
any_query owner_id device_scope = record {
  owner_id = owner_id;
  device_scope = device_scope;
  geofence_id = none;
  device_id = none;
  after_id = none;
  since = none;
  until = none;
}

pub last_crossings_before : Geofences → Option ℕ → Option (List Text) → ℕ → List GeofenceEventOut
last_crossings_before r owner_id device_scope before =
    newest_of before [] (list_events r (any_query owner_id device_scope) (length r.events + 1))
