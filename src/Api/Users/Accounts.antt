-- ===== src/Api/Users/Accounts.antt =====
-- The writes of `InMemoryUserRepository` of api/users_repository.py.
pub mod Administrators
pub mod Revocation
use gps_tracking.Prelude.{
  ℕ, ◌+◌, Bool, true, false, not, ◌&&◌, ◌||◌, Option, none, some, List, [], ◌∷◌, keep, ◌==◌,
  if◌then◌else◌,
}
use gps_tracking.Prelude.Dict.{nat_keys, lookup, store}
use gps_tracking.Protocol.Codec.Cell.{Text}
use gps_tracking.Api.Account.{Role, admin, user, is_admin_role}
use gps_tracking.Api.Users.{
  Platform, UserRow, UserOut, UserCreate, UserUpdate, Session, Users, or_else, is_some, to_out,
  auto_claim_unowned,
}

abbrev pub user_row : Platform → ℕ → ℕ → ℕ → UserCreate → UserRow
user_row p id now salt payload = record {
  id = id;
  username = p.lower payload.username;
  password_hash = p.hash_password salt payload.password;
  full_name = payload.full_name;
  email = payload.email;
  mobile = payload.mobile;
  role = payload.role;
  is_active = true;
  geofence_enabled = payload.geofence_enabled;
  created_at = now;
  last_login_at = none;
}

unfoldable pub create_user : Platform → Users → ℕ → ℕ → UserCreate → UserOut × Users
create_user p r now salt payload =
    let row = user_row p r.next_id now salt payload in
    let devices = if is_admin_role payload.role then [] else payload.devices in
    let r' : Users = record r {
      rows = store nat_keys r.rows row.id row;
      devices = store nat_keys r.devices row.id devices;
      claims = auto_claim_unowned r.claims row.id devices;
      next_id = r.next_id + 1;
    } in
    (to_out r' row, r')

-- A field that was sent, or the one that is there.
abbrev pub sent : {A : Type 0} → Option A → Option A → Option A
sent none current = current
sent (some a) current = some a

abbrev pub new_hash : Platform → ℕ → Option Text → Text → Text
new_hash p salt none current = current
new_hash p salt (some password) current = p.hash_password salt password

-- What `update_user` makes of the row.
unfoldable pub updated_row : Platform → ℕ → UserUpdate → UserRow → UserRow
updated_row p salt payload row = record row {
  full_name = sent payload.full_name row.full_name;
  email = sent payload.email row.email;
  mobile = sent payload.mobile row.mobile;
  role = or_else payload.role row.role;
  is_active = or_else payload.is_active row.is_active;
  geofence_enabled = or_else payload.geofence_enabled row.geofence_enabled;
  password_hash = new_hash p salt payload.password row.password_hash;
}

abbrev pub promoted : Option Role → Bool
promoted none = false
promoted (some role) = is_admin_role role

-- The devices and the claims after the role and the devices that were sent; `is_now_admin` is the new row's role.
abbrev pub assign_devices :
    ℕ
    → Bool
    → Option (List Text)
    → List (ℕ × List Text)
    → List (Text × ℕ)
    → List (ℕ × List Text) × List (Text × ℕ)
assign_devices user_id is_now_admin none devices claims = (devices, claims)
assign_devices user_id is_now_admin (some ds) devices claims =
    if is_now_admin
    then (devices, claims)
    else (store nat_keys devices user_id ds, auto_claim_unowned claims user_id ds)

-- `_drop_sessions`
unfoldable pub drop_sessions : List (Text × Session) → ℕ → List (Text × Session)
drop_sessions sessions user_id =
    keep (λ (e : Text × Session). not (e.1.user_id == user_id)) sessions

abbrev pub is_false : Option Bool → Bool
is_false none = false
is_false (some b) = not b

abbrev pub drop_if : Bool → List (Text × Session) → ℕ → List (Text × Session)
drop_if true sessions user_id = drop_sessions sessions user_id
drop_if false sessions user_id = sessions

unfoldable pub update_row : Platform → Users → ℕ → ℕ → UserUpdate → UserRow → UserOut × Users
update_row p r salt user_id payload row =
    let row' = updated_row p salt payload row in
    let cleared =
      if promoted payload.role then store nat_keys r.devices user_id [] else r.devices in
    let inactive = drop_if (is_false payload.is_active) r.sessions user_id in
    let (devices, claims) =
      assign_devices user_id (is_admin_role row'.role) payload.devices cleared r.claims in
    let r' : Users = record r {
      rows = store nat_keys r.rows user_id row';
      devices = devices;
      claims = claims;
      sessions = drop_if (is_some payload.password) inactive user_id;
    } in
    (to_out r' row', r')

-- None: no such account.
unfoldable pub update_user : Platform → Users → ℕ → ℕ → UserUpdate → Option (UserOut × Users)
update_user p r salt user_id payload = elim (lookup nat_keys r.rows user_id) [
  | none ↦ none
  | some row ↦ some (update_row p r salt user_id payload row)
]

-- `_bootstrap_admin`
pub bootstrap_admin : Text → Text → UserCreate
bootstrap_admin username password = record {
  username = username;
  password = password;
  full_name = some (66 ∷ 111 ∷ 111 ∷ 116 ∷ 115 ∷ 116 ∷ 114 ∷ 97 ∷ 112 ∷ []);
  email = none;
  mobile = none;
  role = admin;
  geofence_enabled = false;
  devices = [];
}

pub ensure_bootstrap_admin : Platform → Users → ℕ → ℕ → Text → Text → Bool × Users
ensure_bootstrap_admin p r now salt username password = ensure r.rows
  where
    ensure : List (ℕ × UserRow) → Bool × Users
    ensure [] =
        let (out, r') = create_user p r now salt (bootstrap_admin username password) in (true, r')
    ensure (row ∷ rows) = (false, r)
