-- ===== src/Api/Geofences.antt =====
-- `InMemoryGeofenceRepository` of api/geofences_repository.py. `now` is the clock's reading; coordinates are whole
-- micro-degrees.
pub mod Report
use gps_tracking.Prelude.{
  ℕ, ◌+◌, Bool, true, false, not, ◌&&◌, ◌||◌, Option, none, some, List, [], ◌∷◌, ◌++◌, map, keep,
  length, ltb, leb, ◌==◌, if◌then◌else◌,
}
use gps_tracking.Prelude.Int.{ℤ}
use gps_tracking.Prelude.Dict.{Keys, nat_keys, lookup, store, erase}
use gps_tracking.Prelude.Sorting.{sorted}
use gps_tracking.Protocol.Codec.Cell.{Text}
use gps_tracking.Gateway.Text.{text_eq, text_eq_iff, distinct}
use gps_tracking.Api.Account.{is_device}
use gps_tracking.Api.Users.{text_before}

pub data ShapeKind : Type 0 where
  polygon circle : ShapeKind

pub data CrossingKind : Type 0 where
  enter exit : CrossingKind

-- `GeofenceShape` without the bounding box, which only the database reads.
pub record GeofenceShape : Type 0 where
  pub kind : ShapeKind
  pub vertex_lats : Option (List ℤ)
  pub vertex_lngs : Option (List ℤ)
  pub center_lat : Option ℤ
  pub center_lng : Option ℤ
  pub radius_m : Option ℕ

pub record GeofenceFields : Type 0 where
  pub name : Option Text
  pub device_ids : Option (List Text)
  pub alert_on_exit : Option Bool
  pub alert_on_enter : Option Bool

pub record Fence : Type 0 where
  pub id : ℕ
  pub owner_id : ℕ
  pub name : Text
  pub shape : GeofenceShape
  pub device_ids : List Text
  pub alert_on_exit : Bool
  pub alert_on_enter : Bool
  pub created_at : ℕ
  pub updated_at : ℕ

-- `GeofenceOut` and `GeofenceEventOut` of api/schemas.py.
pub record GeofenceOut : Type 0 where
  pub id : ℕ
  pub name : Text
  pub kind : ShapeKind
  pub vertices : Option (List (ℤ × ℤ))
  pub center : Option (ℤ × ℤ)
  pub radius_m : Option ℕ
  pub device_ids : List Text
  pub alert_on_exit : Bool
  pub alert_on_enter : Bool
  pub owner_id : ℕ
  pub owner_username : Option Text
  pub created_at : ℕ
  pub updated_at : ℕ

pub record GeofenceEventOut : Type 0 where
  pub id : ℕ
  pub geofence_id : ℕ
  pub geofence_name : Text
  pub device_id : Text
  pub kind : CrossingKind
  pub latitude : ℤ
  pub longitude : ℤ
  pub occurred_at : ℕ
  pub alerted : Bool

pub record Event : Type 0 where
  pub id : ℕ
  pub geofence_id : ℕ
  pub device_id : Text
  pub kind : CrossingKind
  pub latitude : ℤ
  pub longitude : ℤ
  pub occurred_at : ℕ

pub record Geofences : Type 0 where
  pub fences : List (ℕ × Fence)
  pub events : List Event
  pub next_id : ℕ
  pub next_event_id : ℕ
  pub usernames : ℕ → Option Text

abbrev pub or_else : {A : Type 0} → Option A → A → A
or_else none d = d
or_else (some a) d = a

-- `zip`
abbrev pub pairs : {A B : Type 0} → List A → List B → List (A × B)
pairs [] bs = []
pairs (a ∷ rest) [] = []
pairs (a ∷ rest) (b ∷ bs) = (a, b) ∷ pairs rest bs

abbrev pub both : {A B : Type 0} → Option A → Option B → Option (A × B)
both none b = none
both (some a) none = none
both (some a) (some b) = some (a, b)

-- `_points`
pub points : Option (List ℤ) → Option (List ℤ) → Option (List (ℤ × ℤ))
points none lngs = none
points (some lats) none = none
points (some lats) (some lngs) = some (pairs lats lngs)

-- `_alerted`
pub alerted : CrossingKind → Bool → Bool → Bool
alerted exit alert_on_exit alert_on_enter = alert_on_exit
alerted enter alert_on_exit alert_on_enter = alert_on_enter

-- `_out`
pub out : Geofences → Fence → GeofenceOut
out r row = record {
  id = row.id;
  name = row.name;
  kind = row.shape.kind;
  vertices = points row.shape.vertex_lats row.shape.vertex_lngs;
  center = both row.shape.center_lat row.shape.center_lng;
  radius_m = row.shape.radius_m;
  device_ids = sorted text_before row.device_ids;
  alert_on_exit = row.alert_on_exit;
  alert_on_enter = row.alert_on_enter;
  owner_id = row.owner_id;
  owner_username = r.usernames row.owner_id;
  created_at = row.created_at;
  updated_at = row.updated_at;
}

abbrev pub is_wanted : Option ℕ → ℕ → Bool
is_wanted none id = true
is_wanted (some wanted) id = id == wanted

-- `lower` is Python's.
pub list_geofences : (Text → Text) → Geofences → Option ℕ → List GeofenceOut
list_geofences lower r owner_id = map (out r) (
    sorted (λ (a b : Fence). text_before (lower a.name) (lower b.name))
      (keep (λ (f : Fence). is_wanted owner_id f.owner_id) (map (λ (e : ℕ × Fence). e.1) r.fences)))

abbrev pub map_option : {A B : Type 0} → (A → B) → Option A → Option B
map_option f none = none
map_option f (some a) = some (f a)

pub get_geofence : Geofences → ℕ → Option GeofenceOut
get_geofence r geofence_id = map_option (out r) (lookup nat_keys r.fences geofence_id)

abbrev pub new_fence : ℕ → ℕ → ℕ → GeofenceShape → GeofenceFields → Fence
new_fence id now owner_id shape fields = record {
  id = id;
  owner_id = owner_id;
  name = or_else fields.name [];
  shape = shape;
  device_ids = distinct (or_else fields.device_ids []);
  alert_on_exit = or_else fields.alert_on_exit true;
  alert_on_enter = or_else fields.alert_on_enter false;
  created_at = now;
  updated_at = now;
}

pub create_geofence : Geofences → ℕ → ℕ → GeofenceShape → GeofenceFields → GeofenceOut × Geofences
create_geofence r now owner_id shape fields =
    let row = new_fence r.next_id now owner_id shape fields in
    (out r row, record r { fences = store nat_keys r.fences row.id row; next_id = r.next_id + 1 })

abbrev pub updated_fence : ℕ → Option GeofenceShape → GeofenceFields → Fence → Fence
updated_fence now shape fields row = record row {
  shape = or_else shape row.shape;
  name = or_else fields.name row.name;
  device_ids = or_else (map_option distinct fields.device_ids) row.device_ids;
  alert_on_exit = or_else fields.alert_on_exit row.alert_on_exit;
  alert_on_enter = or_else fields.alert_on_enter row.alert_on_enter;
  updated_at = now;
}

pub update_geofence :
    Geofences → ℕ → ℕ → Option GeofenceShape → GeofenceFields → Option (GeofenceOut × Geofences)
update_geofence r now geofence_id shape fields = elim (lookup nat_keys r.fences geofence_id) [
  | none ↦ none
  | some row ↦
      let row' = updated_fence now shape fields row in
      some (out r row', record r { fences = store nat_keys r.fences geofence_id row' })
]

pub delete_geofence : Geofences → ℕ → Bool × Geofences
delete_geofence r geofence_id = elim (lookup nat_keys r.fences geofence_id) [
  | none ↦ (false, r)
  | some row ↦ (
    true,
    record r {
      fences = erase nat_keys r.fences geofence_id;
      events = keep (λ (e : Event). not (e.geofence_id == geofence_id)) r.events;
    },
  )
]

pub record_event : Geofences → ℕ → Text → CrossingKind → ℤ → ℤ → ℕ → ℕ × Geofences
record_event r geofence_id device_id kind latitude longitude occurred_at =
    let e : Event = record {
      id = r.next_event_id;
      geofence_id = geofence_id;
      device_id = device_id;
      kind = kind;
      latitude = latitude;
      longitude = longitude;
      occurred_at = occurred_at;
    } in
    (
      r.next_event_id,
      record r { events = r.events ++ (e ∷ []); next_event_id = r.next_event_id + 1 },
    )
