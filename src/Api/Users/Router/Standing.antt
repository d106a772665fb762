-- ===== src/Api/Users/Router/Standing.antt =====
-- api/routers/users.py: what each request leaves of the accounts.
use gps_tracking.Prelude.{
  ℕ, ◌≤◌, ◌≡◌, refl, ◌∙◌, Bool, true, false, ◌&&◌, ◌||◌, none, some, ◌==◌, ◌⊎◌, Option-cases, arith,
  Bool-cases, inl, inr,
}
use gps_tracking.Prelude.Dict.{nat_keys, lookup, store, IsFresh, IsFresh-store, lookup-IsFresh_lt}
use gps_tracking.Api.Account.{AuthenticatedUser, is_admin_role}
use gps_tracking.Api.Users.{
  Platform, UserRow, UserUpdate, Users, get_user, to_out, is_active_admin, count_active_admins,
}
use gps_tracking.Api.Users.Accounts as Repository
use gps_tracking.Api.Users.Router.{losing_admin, update_user}
use gps_tracking.Api.Users.Accounts.Administrators.{
  IsKeyed, admins, IsKeyed-store, admins-store, admins_le, admins-store_le, lookup-IsKeyed,
}

-- The ids are told apart, and somebody can administer the accounts.
abbrev pub IsAdministered : Users → Type 0
IsAdministered r = IsKeyed r.rows × IsFresh r.next_id r.rows × (1 ≤ admins none r.rows)

-- A row that is changed without losing an administrator.
pub updated_row-is_active_admin :
    (p : Platform) (salt : ℕ) (payload : UserUpdate) (row : UserRow)
    → (losing_admin payload && is_admin_role row.role) ≡ false
    → is_active_admin row ≡ true
    → is_active_admin (Repository.updated_row p salt payload row) ≡ true
unfolding Repository.updated_row
updated_row-is_active_admin p salt payload row l h = ground (arith, l, h)

-- An update of the row of `user_id`.
pub store-IsAdministered :
    (r : Users) (user_id : ℕ) (old new : UserRow)
    → IsAdministered r
    → lookup nat_keys r.rows user_id ≡ some old
    → new.id ≡ old.id
    → (is_active_admin old ≡ true → is_active_admin new ≡ true) ⊎ (1 ≤ admins (some user_id) r.rows)
    → IsKeyed (store nat_keys r.rows user_id new)
      × IsFresh r.next_id (store nat_keys r.rows user_id new)
      × (1 ≤ admins none (store nat_keys r.rows user_id new))
store-IsAdministered r user_id old new h e i c =
    let same : new.id ≡ user_id = i ∙ lookup-IsKeyed r.rows user_id old h.0 e in
    (
      IsKeyed-store r.rows user_id new same h.0,
      IsFresh-store r.next_id user_id new r.rows h.1
          (lookup-IsFresh_lt r.next_id user_id old r.rows h.1 e),
      still_one c,
    )
  where
    still_one :
        (is_active_admin old ≡ true → is_active_admin new ≡ true)
          ⊎ (1 ≤ admins (some user_id) r.rows)
        → 1 ≤ admins none (store nat_keys r.rows user_id new)
    still_one (inl k) = omega (arith, h.2, admins-store_le r.rows user_id old new e k)
    still_one (inr k) = omega (
      arith,
      k,
      admins-store r.rows user_id new (i ∙ lookup-IsKeyed r.rows user_id old h.0 e) h.0,
      admins_le user_id (store nat_keys r.rows user_id new),
    )

-- The guard of `update_user` on an account that is there.
abbrev pub refuses : Users → UserUpdate → ℕ → AuthenticatedUser → UserRow → Bool
refuses r payload user_id caller row =
    losing_admin payload
    && is_admin_role row.role
    && (row.id == caller.id || count_active_admins r (some user_id) == 0)

guard-others :
    (p : Platform) (r : Users) (salt user_id : ℕ) (payload : UserUpdate)
    (caller : AuthenticatedUser) (row : UserRow)
    → refuses r payload user_id caller row ≡ false
    → (is_active_admin row ≡ true
        → is_active_admin (Repository.updated_row p salt payload row) ≡ true)
      ⊎ (1 ≤ admins (some user_id) r.rows)
unfolding count_active_admins
guard-others p r salt user_id payload caller row g =
    elim (Bool-cases (losing_admin payload && is_admin_role row.role)) [
      | inl l ↦ inr (ground (arith, l, g))
      | inr l ↦ inl (updated_row-is_active_admin p salt payload row l)
    ]

pub update_user-IsAdministered :
    (p : Platform) (r : Users) (salt user_id : ℕ) (payload : UserUpdate)
    (caller : AuthenticatedUser)
    → IsAdministered r
    → IsAdministered (update_user p r salt user_id payload caller).1
unfolding update_user Repository.update_user Repository.update_row Repository.updated_row get_user
    to_out
update_user-IsAdministered p r salt user_id payload caller h =
    elim (Option-cases (lookup nat_keys r.rows user_id)) [
      | inl e ↦ rw (update_user, get_user, e) h
      | inr (row, e) ↦ elim (Bool-cases (refuses r payload user_id caller row)) [
        | inl g ↦ rw (update_user, get_user, e, g) h
        | inr g ↦
            rw (update_user, get_user, e, g, Repository.update_user, e)
              (store-IsAdministered r user_id row (Repository.updated_row p salt payload row) h e
                refl (guard-others p r salt user_id payload caller row g))
      ]
    ]
