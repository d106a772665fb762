-- ===== src/Api/RouterTests.antt =====
-- Runs of the accounts, the shop and the alerts.
use gps_tracking.Prelude.{
  ℕ, ◌≡◌, ◌≢◌, refl, true, false, none, some, [], ◌∷◌, arith, ltb, if◌then◌else◌,
}
use gps_tracking.Prelude.Dict.{lookup, store}
use gps_tracking.Protocol.Codec.Cell.{Text}
use gps_tracking.Gateway.Text.{text_eq, text_eq_refl}
use gps_tracking.Api.Account.{admin, user, AuthenticatedUser}
use gps_tracking.Api.Users.{Platform, UserUpdate, UserOut, UserRow, Users, new_users}
use gps_tracking.Api.Users.Accounts as Accounts
use gps_tracking.Api.Users.Accounts.{bootstrap_admin}
use gps_tracking.Api.Users.Accounts.Administrators.{IsKeyed}
use gps_tracking.Api.Users.Accounts.Revocation.{update_user-revokes}
use gps_tracking.Api.Users.Sessions as Sessions
use gps_tracking.Api.Users.Sessions.Laws.{account_at, start_session-account_at}
use gps_tracking.Api.Users.Router.{SignupRequest, signup}
use gps_tracking.Api.Users.Router.Standing.{IsAdministered}
use gps_tracking.Api.Users.Router.Signup.{Outcome, signup-outcome}
use gps_tracking.Api.Users.Router.Administration.{
  sign_up, edit, handle_all, handle_all-IsAdministered,
}

abbrev amy : Text
amy = b'a' ∷ b'm' ∷ b'y' ∷ []

abbrev bob : Text
bob = b'b' ∷ b'o' ∷ b'b' ∷ []

abbrev secret : Text
secret = b'x' ∷ b'y' ∷ []

abbrev car : Text
car = b'8' ∷ b'6' ∷ []

-- A platform that stores a password as it is.
abbrev plain : Platform
plain = record {
  lower = λ s. s;
  strip = λ s. s;
  hash_password = λ salt s. s;
  verify_password = text_eq;
  token_fingerprint = λ s. s;
}

abbrev root_row : UserRow
root_row = record {
  id = 1;
  username = amy;
  password_hash = secret;
  full_name = none;
  email = none;
  mobile = none;
  role = admin;
  is_active = true;
  geofence_enabled = false;
  created_at = 0;
  last_login_at = none;
}

-- One administrator.
abbrev office : Users
office = record new_users { rows = (1, root_row) ∷ []; devices = (1, []) ∷ []; next_id = 2 }

abbrev bob_signs_up : SignupRequest
bob_signs_up = record {
  username = bob;
  password = secret;
  full_name = none;
  email = none;
  mobile = none;
  device_id = some car;
}

abbrev caller : AuthenticatedUser
caller = record {
  id = 1;
  username = amy;
  role = admin;
  is_active = true;
  devices = [];
  geofence_enabled = false;
}

abbrev deactivation : UserUpdate
deactivation = record {
  full_name = none;
  email = none;
  mobile = none;
  role = none;
  geofence_enabled = none;
  is_active = some false;
  devices = none;
  password = none;
}

office-IsAdministered : IsAdministered office
unfolding lookup
office-IsAdministered = ((refl, refl, tt), (omega arith, tt), omega arith)

handle_all-IsAdministered_example : IsAdministered (
    handle_all plain
      (λ d. true)
      3600
      office
      (sign_up 10 0 amy bob_signs_up ∷ edit 0 1 deactivation caller ∷ []))
handle_all-IsAdministered_example =
    handle_all-IsAdministered plain (λ d. true) 3600 office
      (sign_up 10 0 amy bob_signs_up ∷ edit 0 1 deactivation caller ∷ []) office-IsAdministered

signup-outcome_example :
    Outcome plain
      (λ salt s. text_eq_refl s)
      office
      3600
      10
      amy
      bob_signs_up
      3609
      (signup plain (λ d. true) office 3600 10 0 amy bob_signs_up)
signup-outcome_example =
    signup-outcome plain (λ salt s. text_eq_refl s) (λ d. true) office 3600 10 0 amy bob_signs_up
      3609 (omega arith, tt) (omega arith, tt) refl

abbrev bob_row : UserRow
bob_row = record root_row { id = 2; username = bob; role = user }

-- With a customer, and the administrator signed in.
abbrev both : Users
both = record new_users {
  rows = (1, root_row) ∷ (2, bob_row) ∷ [];
  devices = (1, []) ∷ (2, []) ∷ [];
  sessions = (amy, record { user_id = 1; expires_at = 100 }) ∷ [];
  next_id = 3;
}

abbrev bob_deactivated : UserOut × Users
bob_deactivated = Accounts.update_row plain both 0 2 deactivation bob_row

bob_updated :
    Accounts.update_user plain both 0 2 deactivation ≡ some (bob_deactivated.0, bob_deactivated.1)
unfolding lookup Accounts.update_user
bob_updated = refl

amy_stays : Sessions.resolve_token plain bob_deactivated.1 50 amy ≡ some caller
unfolding Sessions.resolve_token Sessions.resolve_session Accounts.drop_sessions Accounts.update_row
    Accounts.updated_row lookup store text_eq
amy_stays = refl

both-IsKeyed : IsKeyed both.rows
unfolding lookup
both-IsKeyed = (refl, refl, (refl, refl, tt))

update_user-revokes_example : caller.id ≢ bob_row.id
update_user-revokes_example =
    update_user-revokes plain both 0 2 deactivation bob_deactivated.0 bob_deactivated.1 50 amy
      caller both-IsKeyed refl bob_updated amy_stays

abbrev signed_in : (Text × ℕ × UserOut) × Users
signed_in = Sessions.open_session plain office 5 car 100 root_row

amy_signed_in :
    Sessions.start_session plain office 5 car amy secret 100 ≡ some (signed_in.0, signed_in.1)
unfolding Sessions.start_session Sessions.signed_in_row text_eq
amy_signed_in = refl

start_session-account_at_example :
    account_at plain signed_in.1 104 signed_in.0.0
    ≡ (if ltb 104 signed_in.0.1 then some signed_in.0.2.id else none)
start_session-account_at_example =
    start_session-account_at plain office 5 car amy secret 100 signed_in.0 signed_in.1 104
      amy_signed_in
