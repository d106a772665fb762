-- ===== src/Api/Users/Model.antt =====
-- The data of api/users_repository.py, and of the accounts in api/schemas.py.
use gps_tracking.Prelude.{ℕ, Bool, Option, List, []}
use gps_tracking.Protocol.Codec.Cell.{Text}
use gps_tracking.Api.Account.{Role}

-- `str.lower` and `str.strip`, bcrypt and SHA-256, which api/security.py calls.
pub record Platform : Type 0 where
  pub lower : Text → Text
  pub strip : Text → Text
  pub hash_password : ℕ → Text → Text
  pub verify_password : Text → Text → Bool
  pub token_fingerprint : Text → Text

pub record UserRow : Type 0 where
  pub id : ℕ
  pub username : Text
  pub password_hash : Text
  pub full_name : Option Text
  pub email : Option Text
  pub mobile : Option Text
  pub role : Role
  pub is_active : Bool
  pub geofence_enabled : Bool
  pub created_at : ℕ
  pub last_login_at : Option ℕ

-- `UserOut`, `UserCreate` and `UserUpdate` of api/schemas.py.
pub record UserOut : Type 0 where
  pub id : ℕ
  pub username : Text
  pub full_name : Option Text
  pub email : Option Text
  pub mobile : Option Text
  pub role : Role
  pub is_active : Bool
  pub geofence_enabled : Bool
  pub devices : List Text
  pub created_at : ℕ
  pub last_login_at : Option ℕ

pub record UserCreate : Type 0 where
  pub username : Text
  pub password : Text
  pub full_name : Option Text
  pub email : Option Text
  pub mobile : Option Text
  pub role : Role
  pub geofence_enabled : Bool
  pub devices : List Text

pub record UserUpdate : Type 0 where
  pub full_name : Option Text
  pub email : Option Text
  pub mobile : Option Text
  pub role : Option Role
  pub geofence_enabled : Option Bool
  pub is_active : Option Bool
  pub devices : Option (List Text)
  pub password : Option Text

pub record Session : Type 0 where
  pub user_id : ℕ
  pub expires_at : ℕ

-- `PushSubscription`, and the account that made it.
pub record PushSubscription : Type 0 where
  pub endpoint : Text
  pub p256dh : Text
  pub auth : Text

pub record Subscriber : Type 0 where
  pub user_id : ℕ
  pub p256dh : Text
  pub auth : Text

pub record Users : Type 0 where
  pub rows : List (ℕ × UserRow)
  pub devices : List (ℕ × List Text)
  pub sessions : List (Text × Session)
  pub claims : List (Text × ℕ)
  pub subscriptions : List (Text × Subscriber)
  pub next_id : ℕ

abbrev pub new_users : Users
new_users = record {
  rows = [];
  devices = [];
  sessions = [];
  claims = [];
  subscriptions = [];
  next_id = 1;
}
