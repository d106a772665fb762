-- ===== src/Api/Geofences/Report/Order.antt =====
-- The report of api/geofences_repository.py is the newest part of what it is asked for.
use mathlib.Core.List.Perm
use mathlib.Core.List.{Perm}
use gps_tracking.Prelude.{none, ℕ, ◌<◌, ◌≤◌, ◌≡◌, ◌⊎◌, Option, List, [], ◌∷◌, All}
use gps_tracking.Protocol.Codec.Cell.{Text}
use gps_tracking.Api.Geofences.{GeofenceEventOut, Geofences}
use gps_tracking.Api.Geofences.Report.{Query}
use gps_tracking.Api.Geofences.Report.Asked.{Asked}

-- `y` is no newer than `x`: by time, and where the times are equal by id.
abbrev pub IsNoNewer : GeofenceEventOut → GeofenceEventOut → Type 0
IsNoNewer x y = (y.occurred_at < x.occurred_at) ⊎ ((y.occurred_at ≡ x.occurred_at) × (y.id ≤ x.id))

abbrev pub NewestFirst : List GeofenceEventOut → Type 0
NewestFirst [] = Unit
NewestFirst (x ∷ rows) = All (IsNoNewer x) rows × NewestFirst rows

-- All rows that are asked for, and only those, each as often as it is stored, newest first.
abbrev pub IsReport : Geofences → Query → List GeofenceEventOut → Type 0
IsReport r q rows =
    NewestFirst rows
    × ((stored : List GeofenceEventOut) × Asked r q r.events stored × Perm rows stored)

-- All that an account sees in its scope.
abbrev pub no_filters : Option ℕ → Option (List Text) → Query
no_filters owner_id device_scope = record {
  owner_id = owner_id;
  device_scope = device_scope;
  geofence_id = none;
  device_id = none;
  after_id = none;
  since = none;
  until = none;
}
