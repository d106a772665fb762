-- ===== src/Api/Account.antt =====
-- `AuthenticatedUser` of api/users_repository.py.
use gps_tracking.Prelude.{ℕ, Bool, true, false, ◌||◌, List, [], ◌∷◌}
use gps_tracking.Protocol.Codec.Cell.{Text}
use gps_tracking.Gateway.Text.{text_eq}

-- `Role` of api/schemas.py.
pub data Role : Type 0 where
  admin user : Role

abbrev pub is_admin_role : Role → Bool
is_admin_role admin = true
is_admin_role user = false

pub record AuthenticatedUser : Type 0 where
  pub id : ℕ
  pub username : Text
  pub role : Role
  pub is_active : Bool
  pub devices : List Text
  pub geofence_enabled : Bool

abbrev pub is_admin : AuthenticatedUser → Bool
is_admin u = is_admin_role u.role

abbrev pub can_use_geofences : AuthenticatedUser → Bool
can_use_geofences u = is_admin u || u.geofence_enabled

-- `device_id in devices`
unfoldable pub is_device : Text → List Text → Bool
is_device id [] = false
is_device id (d ∷ devices) = text_eq id d || is_device id devices
