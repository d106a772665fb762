-- ===== src/Api/Users.antt =====
-- `InMemoryUserRepository` of api/users_repository.py. `now` is the clock's reading, `salt` and `token` what the
-- random source gives.
pub mod Accounts
pub mod Sessions
pub mod Router
mod Model
pub use Model.*
use gps_tracking.Prelude.{
  ℕ, ◌+◌, Bool, true, false, not, ◌&&◌, ◌||◌, Option, none, some, List, [], ◌∷◌, ◌++◌, map, keep,
  length, ltb, leb, ◌==◌, if◌then◌else◌,
}
use gps_tracking.Prelude.Dict.{nat_keys, lookup, store, erase}
use gps_tracking.Prelude.Sorting.{sorted}
use gps_tracking.Protocol.Codec.Cell.{Text}
use gps_tracking.Gateway.Text.{text_eq, text_keys}
use gps_tracking.Api.Account.{Role, admin, user, is_admin_role, AuthenticatedUser, is_device}

-- `get(key, default)`
abbrev pub or_else : {A : Type 0} → Option A → A → A
or_else none d = d
or_else (some a) d = a

abbrev pub is_some : {A : Type 0} → Option A → Bool
is_some none = false
is_some (some a) = true

abbrev pub values : {K V : Type 0} → List (K × V) → List V
values {K} {V} d = map (λ (e : K × V). e.1) d

-- `self._devices.get(user_id, [])`
abbrev pub devices_of : Users → ℕ → List Text
devices_of r user_id = or_else (lookup nat_keys r.devices user_id) []

pub to_out : Users → UserRow → UserOut
to_out r row = record {
  id = row.id;
  username = row.username;
  full_name = row.full_name;
  email = row.email;
  mobile = row.mobile;
  role = row.role;
  is_active = row.is_active;
  geofence_enabled = row.geofence_enabled;
  devices = devices_of r row.id;
  created_at = row.created_at;
  last_login_at = row.last_login_at;
}

-- Python's order of strings.
abbrev pub text_before : Text → Text → Bool
text_before [] [] = false
text_before [] (d ∷ t) = true
text_before (c ∷ s) [] = false
text_before (c ∷ s) (d ∷ t) = let rest = text_before s t in ltb c d || (c == d && rest)

pub list_users : Users → List UserOut
list_users r =
    map (to_out r) (sorted (λ (a b : UserRow). text_before a.username b.username) (values r.rows))

abbrev pub map_option : {A B : Type 0} → (A → B) → Option A → Option B
map_option f none = none
map_option f (some a) = some (f a)

pub get_user : Users → ℕ → Option UserOut
get_user r user_id = map_option (to_out r) (lookup nat_keys r.rows user_id)

-- `any(…)`
abbrev pub any : {A : Type 0} → (A → Bool) → List A → Bool
any test [] = false
any test (x ∷ xs) = let rest = any test xs in test x || rest

pub username_taken : Platform → Users → Text → Bool
username_taken p r username =
    any (λ (row : UserRow). text_eq row.username (p.lower username)) (values r.rows)

pub email_taken : Platform → Users → Text → Bool
email_taken p r email =
    any (λ (row : UserRow). text_eq (p.lower (or_else row.email [])) (p.lower (p.strip email)))
      (values r.rows)

-- `_auto_claim_unowned`
pub auto_claim_unowned : List (Text × ℕ) → ℕ → List Text → List (Text × ℕ)
auto_claim_unowned claims user_id [] = claims
auto_claim_unowned claims user_id (d ∷ devices) =
    auto_claim_unowned
      (if is_some (lookup text_keys claims d) then claims else store text_keys claims d user_id)
      user_id devices

pub delete_user : Users → ℕ → Users
delete_user r user_id = record r {
  rows = erase nat_keys r.rows user_id;
  devices = erase nat_keys r.devices user_id;
}

unfoldable pub device_owner : Users → Text → Option ℕ
device_owner r device_id = lookup text_keys r.claims device_id

-- `device_owners`: the claims in scope whose owner is still there, with the owner's name.
pub device_owners : Users → Option (List Text) → List (Text × Text)
device_owners r device_ids = owners r.claims
  where
    wanted : Text → Bool
    wanted d = elim device_ids [ none ↦ true | some ds ↦ is_device d ds ]

    owners : List (Text × ℕ) → List (Text × Text)
    owners [] = []
    owners ((d, user_id) ∷ claims) =
        let rest = owners claims in
        elim (lookup nat_keys r.rows user_id) [
          | none ↦ rest
          | some row ↦ if wanted d then (d, row.username) ∷ rest else rest
        ]

pub verify_current_password : Platform → Users → ℕ → Text → Bool
verify_current_password p r user_id password = elim (lookup nat_keys r.rows user_id) [
  | none ↦ false
  | some row ↦ p.verify_password password row.password_hash
]

abbrev pub claimed : Users → ℕ → Text → Users
claimed r user_id device_id =
    let devices = devices_of r user_id in
    record r {
      claims = store text_keys r.claims device_id user_id;
      devices =
          store nat_keys r.devices user_id
            (if is_device device_id devices then devices else devices ++ (device_id ∷ []));
    }

-- The repository after a claim, or none if the device has an owner.
unfoldable pub claim_device : Users → ℕ → Text → Option Users
claim_device r user_id device_id = elim (lookup text_keys r.claims device_id) [
  | some owner ↦ none
  | none ↦ some (claimed r user_id device_id)
]

-- `list.remove`, of the first that is equal.
abbrev pub remove_first : Text → List Text → List Text
remove_first id [] = []
remove_first id (d ∷ devices) =
    let rest = remove_first id devices in if text_eq id d then devices else d ∷ rest

abbrev pub replace_devices :
    List (ℕ × List Text) → ℕ → Text → Option (List Text) → List (ℕ × List Text)
replace_devices devices owner device_id none = devices
replace_devices devices owner device_id (some ds) =
    store nat_keys devices owner (remove_first device_id ds)

pub release_device : Users → Text → Bool × Users
release_device r device_id = elim (lookup text_keys r.claims device_id) [
  | none ↦ (false, r)
  | some owner ↦ (
    true,
    record r {
      claims = erase text_keys r.claims device_id;
      devices = replace_devices r.devices owner device_id (lookup nat_keys r.devices owner);
    },
  )
]

abbrev pub is_active_admin : UserRow → Bool
is_active_admin row = is_admin_role row.role && row.is_active

abbrev pub differs : Option ℕ → ℕ → Bool
differs none id = true
differs (some e) id = not (id == e)

pub count_active_admins : Users → Option ℕ → ℕ
count_active_admins r excluding =
    length
      (keep (λ (row : UserRow). is_active_admin row && differs excluding row.id) (values r.rows))
