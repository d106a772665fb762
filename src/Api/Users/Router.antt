-- ===== src/Api/Users/Router.antt =====
-- api/routers/users.py over the repository of the accounts.
pub mod Standing
pub mod Signup
pub mod Requests
pub mod Administration
use gps_tracking.Prelude.{
  ℕ, Bool, true, false, not, ◌&&◌, ◌||◌, Option, none, some, [], ◌∷◌, ◌==◌, if◌then◌else◌,
}
use gps_tracking.Protocol.Codec.Cell.{Text}
use gps_tracking.Gateway.Text.{text_eq}
use gps_tracking.Api.Http.{
  Reply, ok, bad_request, unauthorized, forbidden, not_found, conflict, too_many_requests,
}
use gps_tracking.Api.Account.{Role, user, is_admin_role, AuthenticatedUser}
use gps_tracking.Api.Throttle.{LoginThrottle, retry_after, failed, succeeded}
use gps_tracking.Api.Users.{
  Platform, UserOut, UserCreate, UserUpdate, Users, or_else, get_user, username_taken, email_taken,
  delete_user, claim_device, verify_current_password, count_active_admins,
}
use gps_tracking.Api.Users.Accounts as Repository
use gps_tracking.Api.Users.Sessions as Repository_sessions

-- `LoginResponse` of api/schemas.py.
pub record LoginResponse : Type 0 where
  pub token : Text
  pub expires_at : ℕ
  pub account : UserOut

abbrev pub response : Text × ℕ × UserOut → LoginResponse
response (token, expires_at, account) = record {
  token = token;
  expires_at = expires_at;
  account = account;
}

-- `normal` is `strip().lower()`, `address` the caller's; the clock reads `now` throughout.
pub login :
    Platform
    → LoginThrottle
    → Users
    → ℕ
    → ℕ
    → Text
    → Text
    → Text
    → Text
    → Reply LoginResponse × LoginThrottle × Users
login p throttle r ttl now token address username password =
    let normal = λ (s : Text). p.lower (p.strip s) in
    let (wait, t) = retry_after normal throttle now username address in
    if wait == 0
    then elim (Repository_sessions.start_session p r now token username password ttl) [
      | none ↦ (unauthorized, failed normal t now username address, r)
      | some started ↦ (ok (response started.0), succeeded normal t username address, started.1)
    ]
    else (too_many_requests wait, t, r)

-- `has_reported` is what the repository of positions knows of the device.
pub claim_or_conflict : (Text → Bool) → Users → Text → ℕ → Reply Unit × Users
claim_or_conflict has_reported r device_id user_id =
    if has_reported device_id
    then elim (claim_device r user_id device_id) [ none ↦ (conflict, r) | some r' ↦ (ok tt, r') ]
    else (not_found, r)

-- `SignupRequest` and `SelfUpdate` of api/schemas.py.
pub record SignupRequest : Type 0 where
  pub username : Text
  pub password : Text
  pub full_name : Option Text
  pub email : Option Text
  pub mobile : Option Text
  pub device_id : Option Text

pub record SelfUpdate : Type 0 where
  pub full_name : Option Text
  pub email : Option Text
  pub mobile : Option Text
  pub current_password : Option Text
  pub password : Option Text

-- A string that was given and is not empty.
abbrev pub given : Option Text → Option Text
given none = none
given (some []) = none
given (some (c ∷ s)) = some (c ∷ s)

abbrev pub signup_account : SignupRequest → UserCreate
signup_account payload = record {
  username = payload.username;
  password = payload.password;
  full_name = payload.full_name;
  email = payload.email;
  mobile = payload.mobile;
  role = user;
  geofence_enabled = false;
  devices = [];
}

abbrev pub email_conflict : Platform → Users → Option Text → Bool
email_conflict p r none = false
email_conflict p r (some email) = email_taken p r email

-- `except HTTPException`, which takes the account away again.
abbrev pub undo_refused : ℕ → Reply Unit × Users → Reply Unit × Users
undo_refused user_id (ok claimed, r) = (ok claimed, r)
undo_refused user_id (refusal, r) = (refusal, delete_user r user_id)

abbrev pub signup_claim : (Text → Bool) → Users → ℕ → Option Text → Reply Unit × Users
signup_claim has_reported r user_id none = (ok tt, r)
signup_claim has_reported r user_id (some device_id) =
    undo_refused user_id (claim_or_conflict has_reported r device_id user_id)

-- The sign-in that ends `signup`.
abbrev pub signup_session :
    Platform → ℕ → ℕ → Text → SignupRequest → Reply Unit × Users → Reply LoginResponse × Users
signup_session p ttl now token payload (ok claimed, r) =
    elim (Repository_sessions.start_session p r now token payload.username payload.password ttl) [
      | none ↦ (unauthorized, r)
      | some (started, r') ↦ (ok (response started), r')
    ]
signup_session p ttl now token payload (bad_request, r) = (bad_request, r)
signup_session p ttl now token payload (unauthorized, r) = (unauthorized, r)
signup_session p ttl now token payload (forbidden, r) = (forbidden, r)
signup_session p ttl now token payload (not_found, r) = (not_found, r)
signup_session p ttl now token payload (conflict, r) = (conflict, r)
signup_session p ttl now token payload (too_many_requests wait, r) = (too_many_requests wait, r)

pub signup :
    Platform
    → (Text → Bool)
    → Users
    → ℕ
    → ℕ
    → ℕ
    → Text
    → SignupRequest
    → Reply LoginResponse × Users
signup p has_reported r ttl now salt token payload =
    if username_taken p r payload.username || email_conflict p r (given payload.email)
    then (conflict, r)
    else let (created, r') = Repository.create_user p r now salt (signup_account payload) in
      signup_session p ttl now token payload
        (signup_claim has_reported r' created.id (given payload.device_id))

pub logout : Platform → Users → Option Text → Users
logout p r none = r
logout p r (some []) = r
logout p r (some (c ∷ token)) = Repository_sessions.end_session p r (c ∷ token)

-- An account that is gone is a 404.
abbrev pub found : {A : Type 0} → Option A → Reply A
found none = not_found
found (some a) = ok a

pub me : Users → AuthenticatedUser → Reply UserOut
me r caller = found (get_user r caller.id)

abbrev pub password_proved : Platform → Users → ℕ → SelfUpdate → Bool
password_proved p r user_id payload = elim payload.password [
  | none ↦ true
  | some password ↦ elim (given payload.current_password) [
    | none ↦ false
    | some current ↦ verify_current_password p r user_id current
  ]
]

abbrev pub is_new_email : Platform → Option UserOut → Text → Bool
is_new_email p none email = true
is_new_email p (some account) email =
    not (text_eq (p.lower (or_else account.email [])) (p.lower email))

-- A new email of `update_me` that another account has.
abbrev pub new_email_conflict : Platform → Users → ℕ → Option Text → Bool
new_email_conflict p r user_id none = false
new_email_conflict p r user_id (some email) =
    is_new_email p (get_user r user_id) email && email_taken p r email

abbrev pub self_update : SelfUpdate → UserUpdate
self_update payload = record {
  full_name = payload.full_name;
  email = payload.email;
  mobile = payload.mobile;
  role = none;
  geofence_enabled = none;
  is_active = none;
  devices = none;
  password = payload.password;
}

-- The update's answer, and the repository.
abbrev pub answer : Users → Option (UserOut × Users) → Reply UserOut × Users
answer r none = (not_found, r)
answer r (some (account, r')) = (ok account, r')

pub update_me : Platform → Users → ℕ → AuthenticatedUser → SelfUpdate → Reply UserOut × Users
update_me p r salt caller payload =
    if password_proved p r caller.id payload
    then if new_email_conflict p r caller.id (given payload.email)
      then (conflict, r)
      else answer r (Repository.update_user p r salt caller.id (self_update payload))
    else (forbidden, r)

pub create_user : Platform → Users → ℕ → ℕ → UserCreate → Reply UserOut × Users
create_user p r now salt payload =
    if username_taken p r payload.username
    then (conflict, r)
    else let (account, r') = Repository.create_user p r now salt payload in (ok account, r')

abbrev pub is_demotion : Option Role → Bool
is_demotion none = false
is_demotion (some role) = not (is_admin_role role)

-- `losing_admin`
abbrev pub losing_admin : UserUpdate → Bool
losing_admin payload = Repository.is_false payload.is_active || is_demotion payload.role

pub update_user : Platform → Users → ℕ → ℕ → UserUpdate → AuthenticatedUser → Reply UserOut × Users
update_user p r salt user_id payload caller = elim (get_user r user_id) [
  | none ↦ (not_found, r)
  | some target ↦
      if losing_admin payload
        && is_admin_role target.role
        && (target.id == caller.id || count_active_admins r (some user_id) == 0)
      then (bad_request, r)
      else answer r (Repository.update_user p r salt user_id payload)
]
