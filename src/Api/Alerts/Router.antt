-- ===== src/Api/Alerts/Router.antt =====
-- api/routers/alerts.py.
pub mod Paging
pub mod Marking
use gps_tracking.Prelude.{
  ℕ, zero, suc, ◌+◌, ◌-◌, ◌*◌, ◌/◌, ◌%◌, ◌<◌, ◌≤◌, ◌≡◌, refl, sym, ap, ◌∙◌, Bool, true, false, not,
  ◌&&◌, ◌||◌, Option, none, some, List, [], ◌∷◌, ◌++◌, map, keep, length, take, drop, max, ltb,
  if◌then◌else◌, arith,
}
use gps_tracking.Protocol.Codec.Cell.{Text}
use gps_tracking.Gateway.Text.{text_eq}
use gps_tracking.Api.Http.{Reply, ok, not_found, ◌>>=◌}
use gps_tracking.Api.Account.{AuthenticatedUser, is_admin, can_use_geofences, is_device}
use gps_tracking.Api.Alerts as Repository
use gps_tracking.Api.Alerts.{AlertKind, AlertViewer, Alert, Row, Alerts, Query}

-- `_viewer`
pub viewer_of : AuthenticatedUser → AlertViewer
viewer_of u = record {
  user_id = u.id;
  is_admin = is_admin u;
  devices = u.devices;
  can_use_geofences = can_use_geofences u;
}

-- `_check_device`
pub check_device : AuthenticatedUser → Text → Reply Unit
check_device u device_id =
    if not (is_admin u) && not (is_device device_id u.devices) then not_found else ok tt

abbrev pub check_filter : AuthenticatedUser → Option Text → Reply Unit
check_filter u none = ok tt
check_filter u (some device_id) = check_device u device_id

pub record AlertPage : Type 0 where
  pub page : ℕ
  pub size : ℕ
  pub total : ℕ
  pub pages : ℕ
  pub entries : List Alert

-- `max(1, -(-total // size))`, rounded up; `size` is at least 1.
pub page_count : ℕ → ℕ → ℕ
page_count total size = max 1 ((total + (size - 1)) / size)

-- `tuple(kind) if kind else None`
abbrev pub kinds_or_none : Option (List AlertKind) → Option (List AlertKind)
kinds_or_none none = none
kinds_or_none (some []) = none
kinds_or_none (some (k ∷ kinds)) = some (k ∷ kinds)

pub list_alerts : Alerts → AuthenticatedUser → Query → ℕ → ℕ → Reply AlertPage
list_alerts r u q page size = do
  allowed ← check_filter u q.device_id
  let q' : Query = record q { kinds = kinds_or_none q.kinds }
  let (entries, total) = Repository.list_alerts r (viewer_of u) q' ((page - 1) * size) size
  ok (record {
    page = page;
    size = size;
    total = total;
    pages = page_count total size;
    entries = entries;
  })

pub unread : Alerts → AuthenticatedUser → ℕ × ℕ
unread r u = Repository.unread r (viewer_of u)

pub mark_seen : Alerts → AuthenticatedUser → ℕ → (ℕ × ℕ) × Alerts
mark_seen r u seen_id =
    let (mark, r') = Repository.mark_seen r (viewer_of u) seen_id in
    (Repository.unread r' (viewer_of u), r')

pub set_speed_limit : Alerts → AuthenticatedUser → Text → ℕ → Reply ((Text × ℕ) × Alerts)
set_speed_limit r u device_id limit_kmh = do
  allowed ← check_device u device_id
  ok ((device_id, limit_kmh), Repository.set_speed_limit r device_id limit_kmh)
