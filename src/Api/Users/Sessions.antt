-- ===== src/Api/Users/Sessions.antt =====
-- The sessions and the push subscriptions of `InMemoryUserRepository` of api/users_repository.py.
pub mod Laws
use gps_tracking.Prelude.{
  ℕ, ◌+◌, Bool, true, false, not, ◌&&◌, ◌||◌, Option, none, some, List, [], ◌∷◌, leb, ◌==◌,
  if◌then◌else◌,
}
use gps_tracking.Prelude.Dict.{nat_keys, lookup, store, erase}
use gps_tracking.Protocol.Codec.Cell.{Text}
use gps_tracking.Gateway.Text.{text_eq, text_keys}
use gps_tracking.Api.Account.{is_admin_role, AuthenticatedUser, is_device}
use gps_tracking.Api.Users.{
  Platform, UserRow, UserOut, Users, Session, Subscriber, PushSubscription, values, to_out,
  devices_of,
}

-- `next(…, None)`
abbrev pub first_row : (UserRow → Bool) → List UserRow → Option UserRow
first_row test [] = none
first_row test (row ∷ rows) = let rest = first_row test rows in if test row then some row else rest

-- The row that may sign in with these credentials.
unfoldable pub signed_in_row : Platform → Users → Text → Text → Option UserRow
signed_in_row p r username password =
    elim (first_row (λ (row : UserRow). text_eq row.username (p.lower (p.strip username)))
      (values r.rows)) [
        | none ↦ none
        | some row ↦
            if row.is_active
            then (if p.verify_password password row.password_hash then some row else none)
            else none
      ]

abbrev pub session_for : UserRow → ℕ → Session
session_for row expires_at = record { user_id = row.id; expires_at = expires_at }

unfoldable pub open_session :
    Platform → Users → ℕ → Text → ℕ → UserRow → (Text × ℕ × UserOut) × Users
open_session p r now token ttl row =
    let row' : UserRow = record row { last_login_at = some now } in
    let r' : Users = record r {
      sessions =
          store text_keys r.sessions (p.token_fingerprint token) (session_for row (now + ttl));
      rows = store nat_keys r.rows row.id row';
    } in
    ((token, now + ttl, to_out r' row'), r')

unfoldable pub start_session :
    Platform → Users → ℕ → Text → Text → Text → ℕ → Option ((Text × ℕ × UserOut) × Users)
start_session p r now token username password ttl = elim (signed_in_row p r username password) [
  | none ↦ none
  | some row ↦ some (open_session p r now token ttl row)
]

abbrev pub authenticated : Users → UserRow → AuthenticatedUser
authenticated r row = record {
  id = row.id;
  username = row.username;
  role = row.role;
  is_active = row.is_active;
  devices = devices_of r row.id;
  geofence_enabled = row.geofence_enabled;
}

abbrev pub active_row : Users → Option UserRow → Option AuthenticatedUser
active_row r none = none
active_row r (some row) = if row.is_active then some (authenticated r row) else none

unfoldable pub resolve_session : Users → ℕ → Option Session → Option AuthenticatedUser
resolve_session r now none = none
resolve_session r now (some s) =
    if leb s.expires_at now then none else active_row r (lookup nat_keys r.rows s.user_id)

unfoldable pub resolve_token : Platform → Users → ℕ → Text → Option AuthenticatedUser
resolve_token p r now token =
    resolve_session r now (lookup text_keys r.sessions (p.token_fingerprint token))

unfoldable pub end_session : Platform → Users → Text → Users
end_session p r token = record r {
  sessions = erase text_keys r.sessions (p.token_fingerprint token);
}

pub add_subscription : Users → ℕ → Text → Text → Text → Users
add_subscription r user_id endpoint p256dh auth =
    let s : Subscriber = record { user_id = user_id; p256dh = p256dh; auth = auth } in
    record r { subscriptions = store text_keys r.subscriptions endpoint s }

pub remove_subscription : Users → Text → Users
remove_subscription r endpoint = record r {
  subscriptions = erase text_keys r.subscriptions endpoint;
}

abbrev pub is_wanted : Option ℕ → ℕ → Bool
is_wanted none id = true
is_wanted (some wanted) id = id == wanted

-- Whether the account may look at the device now.
pub can_see : Users → Text → ℕ → Bool
can_see r device_id user_id = elim (lookup nat_keys r.rows user_id) [
  | none ↦ false
  | some row ↦
      row.is_active && (is_admin_role row.role || is_device device_id (devices_of r row.id))
]

pub subscriptions_for_device : Users → Text → Option ℕ → List PushSubscription
subscriptions_for_device r device_id user_id = visible r.subscriptions
  where
    visible : List (Text × Subscriber) → List PushSubscription
    visible [] = []
    visible ((endpoint, s) ∷ subscriptions) =
        let rest = visible subscriptions in
        let subscription : PushSubscription = record {
          endpoint = endpoint;
          p256dh = s.p256dh;
          auth = s.auth;
        } in
        if is_wanted user_id s.user_id && can_see r device_id s.user_id
        then subscription ∷ rest
        else rest
