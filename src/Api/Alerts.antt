-- ===== src/Api/Alerts.antt =====
-- `AlertViewer` and `InMemoryAlertRepository` of api/alerts_repository.py. Times are whole microseconds.
pub mod Sql
pub mod Router
use gps_tracking.Prelude.{
  ℕ, ◌+◌, Bool, true, false, ◌&&◌, ◌||◌, Option, none, some, List, [], ◌∷◌, ◌++◌, map, keep, length,
  take, drop, ltb, leb, ◌==◌, max, if◌then◌else◌,
}
use gps_tracking.Prelude.Int.{ℤ}
use gps_tracking.Prelude.Sorting.{sorted}
use gps_tracking.Prelude.Dict.{lookup, store}
use gps_tracking.Protocol.Codec.Cell.{Text}
use gps_tracking.Gateway.Text.{text_eq, text_keys}
use gps_tracking.Api.Account.{is_device}

-- `AlertKind` of api/schemas.py.
pub data AlertKind : Type 0 where
  moving stopped ignition_on ignition_off geofence_enter geofence_exit : AlertKind
  overspeed harsh_braking harsh_acceleration : AlertKind

-- A place in the list of kinds, to compare them by.
abbrev pub kind_number : AlertKind → ℕ
kind_number moving = 0
kind_number stopped = 1
kind_number ignition_on = 2
kind_number ignition_off = 3
kind_number geofence_enter = 4
kind_number geofence_exit = 5
kind_number overspeed = 6
kind_number harsh_braking = 7
kind_number harsh_acceleration = 8

pub record AlertViewer : Type 0 where
  pub user_id : ℕ
  pub is_admin : Bool
  pub devices : List Text
  pub can_use_geofences : Bool

abbrev pub is_kind : List AlertKind → AlertKind → Bool
is_kind [] k = false
is_kind (j ∷ kinds) k = kind_number j == kind_number k || is_kind kinds k

abbrev pub geofence_kinds : List AlertKind
geofence_kinds = geofence_enter ∷ geofence_exit ∷ []

abbrev pub is_owner : Option ℕ → ℕ → Bool
is_owner none user_id = false
is_owner (some owner_id) user_id = owner_id == user_id

-- `AlertViewer.sees`
pub sees : AlertViewer → Text → AlertKind → Option ℕ → Bool
sees v device_id kind owner_id =
    if v.is_admin
    then true
    else if is_device device_id v.devices
    then (if is_kind geofence_kinds kind
        then v.can_use_geofences && is_owner owner_id v.user_id
        else true)
    else false

-- The fields that are only passed on.
pub record Details : Type 0 where
  pub latitude : Option ℤ
  pub longitude : Option ℤ
  pub speed_kmh : Option ℕ
  pub from_kmh : Option ℕ
  pub limit_kmh : Option ℕ
  pub geofence_id : Option ℕ
  pub geofence_name : Option Text

-- `AlertOut` of api/schemas.py, and a row with its owner.
pub record Alert : Type 0 where
  pub id : ℕ
  pub device_id : Text
  pub kind : AlertKind
  pub occurred_at : ℕ
  pub details : Details

pub record Row : Type 0 where
  pub alert : Alert
  pub owner_id : Option ℕ

pub record Alerts : Type 0 where
  pub alerts : List Row
  pub next_id : ℕ
  pub limits : List (Text × ℕ)
  pub seen : ℕ → Option ℕ

pub record_alert : Alerts → Text → AlertKind → ℕ → Details → Option ℕ → ℕ × Alerts
record_alert r device_id kind occurred_at details owner_id =
    let a : Alert = record {
      id = r.next_id;
      device_id = device_id;
      kind = kind;
      occurred_at = occurred_at;
      details = details;
    } in
    let row : Row = record { alert = a; owner_id = owner_id } in
    (r.next_id, record r { alerts = r.alerts ++ (row ∷ []); next_id = r.next_id + 1 })

abbrev pub sees_row : AlertViewer → Row → Bool
sees_row v r = sees v r.alert.device_id r.alert.kind r.owner_id

-- `key=lambda r: (r["occurred_at"], r["id"]), reverse=True`
abbrev pub newer : Row → Row → Bool
newer a b =
    ltb b.alert.occurred_at a.alert.occurred_at
    || (b.alert.occurred_at == a.alert.occurred_at && ltb b.alert.id a.alert.id)

pub visible : Alerts → AlertViewer → List Row
visible r v = sorted newer (keep (sees_row v) r.alerts)

-- The filters of `list_alerts`.
pub record Query : Type 0 where
  pub device_id : Option Text
  pub kinds : Option (List AlertKind)
  pub since : Option ℕ
  pub until : Option ℕ
  pub after_id : Option ℕ

abbrev pub or_true : {A : Type 0} → Option A → (A → Bool) → Bool
or_true none test = true
or_true (some a) test = test a

pub matches : Query → Row → Bool
matches q r =
    or_true q.device_id (λ (d : Text). text_eq r.alert.device_id d)
    && or_true q.kinds (λ (ks : List AlertKind). is_kind ks r.alert.kind)
    && or_true q.since (λ (t : ℕ). leb t r.alert.occurred_at)
    && or_true q.until (λ (t : ℕ). leb r.alert.occurred_at t)
    && or_true q.after_id (λ (i : ℕ). ltb i r.alert.id)

-- The page, and how many match in all.
pub list_alerts : Alerts → AlertViewer → Query → ℕ → ℕ → List Alert × ℕ
list_alerts r v q offset limit =
    let rows = keep (matches q) (visible r v) in
    (map (λ (x : Row). x.alert) (take limit (drop offset rows)), length rows)

abbrev pub mark_of : Option ℕ → ℕ
mark_of none = 0
mark_of (some id) = id

pub unread : Alerts → AlertViewer → ℕ × ℕ
unread r v =
    let mark = mark_of (r.seen v.user_id) in
    (length (keep (λ (x : Row). ltb mark x.alert.id) (visible r v)), mark)

abbrev pub set_mark : (ℕ → Option ℕ) → ℕ → ℕ → ℕ → Option ℕ
set_mark seen user_id mark id = if user_id == id then some mark else seen id

pub mark_seen : Alerts → AlertViewer → ℕ → ℕ × Alerts
mark_seen r v seen_id =
    let mark = max (mark_of (r.seen v.user_id)) seen_id in
    (mark, record r { seen = set_mark r.seen v.user_id mark })

abbrev pub in_scope : Option (List Text) → Text → Bool
in_scope none d = true
in_scope (some devices) d = is_device d devices

pub speed_limits : Alerts → Option (List Text) → List (Text × ℕ)
speed_limits r device_ids = keep (λ (e : Text × ℕ). in_scope device_ids e.0) r.limits

pub set_speed_limit : Alerts → Text → ℕ → Alerts
set_speed_limit r device_id limit_kmh = record r {
  limits = store text_keys r.limits device_id limit_kmh;
}
