-- ===== src/Api/Users/Router/Requests.antt =====
-- The handlers of api/routers/users.py one by one: each keeps the accounts administered.
use gps_tracking.Prelude.{
  ℕ, ◌+◌, ◌≡◌, refl, Bool, ◌||◌, Option, none, some, List, [], ◌∷◌, Option-cases, arith, Bool-cases,
  inl, inr,
}
use gps_tracking.Prelude.Dict.{
  nat_keys, lookup, erase-store, IsFresh-store, IsFresh-suc, lookup-IsFresh,
}
use gps_tracking.Protocol.Codec.Cell.{Text}
use gps_tracking.Gateway.Text.{text_eq, text_keys}
use gps_tracking.Api.Http.{ok}
use gps_tracking.Api.Account.{AuthenticatedUser}
use gps_tracking.Api.Users.{
  Platform, UserRow, UserCreate, Users, to_out, values, delete_user, claim_device, claimed,
  username_taken,
}
use gps_tracking.Api.Users.Accounts as Repository
use gps_tracking.Api.Users.Accounts.{user_row}
use gps_tracking.Api.Users.Accounts.Administrators.{IsKeyed, IsKeyed-store, admins-store_new}
use gps_tracking.Api.Users.Sessions as Repository_sessions
use gps_tracking.Api.Users.Sessions.{first_row, signed_in_row, open_session}
use gps_tracking.Api.Users.Router.{
  SignupRequest, SelfUpdate, given, claim_or_conflict, signup_account, email_conflict, signup_claim,
  signup_session, signup, password_proved, new_email_conflict, self_update, update_me,
}
use gps_tracking.Api.Users.Router.Signup.{with_account, create_user-signup_account}
use gps_tracking.Api.Users.Router.Standing.{IsAdministered, store-IsAdministered}

-- The row that a test finds first stands under its own id.
lookup-first_row :
    (test : UserRow → Bool) (rows : List (ℕ × UserRow)) (row : UserRow)
    → IsKeyed rows
    → first_row test (values rows) ≡ some row
    → lookup nat_keys rows row.id ≡ some row
unfolding lookup
lookup-first_row test [] row h e = ground (arith, e)
lookup-first_row test ((k, w) ∷ rows) row h e =
    ground (arith, h.0, h.1, e, lookup-first_row test rows row h.2)

lookup-signed_in_row :
    (p : Platform) (r : Users) (username password : Text) (row : UserRow)
    → IsKeyed r.rows
    → signed_in_row p r username password ≡ some row
    → lookup nat_keys r.rows row.id ≡ some row
unfolding signed_in_row
lookup-signed_in_row p r username password row h e =
    elim (Option-cases (
      first_row (λ (w : UserRow). text_eq w.username (p.lower (p.strip username)))
        (values r.rows))) [
          | inl n ↦ absurd (ground (arith, n, e))
          | inr (w, n) ↦ ground (
            arith,
            n,
            e,
            lookup-first_row (λ (v : UserRow). text_eq v.username (p.lower (p.strip username)))
                r.rows row h,
          )
        ]

pub open_session-IsAdministered :
    (p : Platform) (r : Users) (now ttl : ℕ) (token username password : Text) (row : UserRow)
    → IsAdministered r
    → signed_in_row p r username password ≡ some row
    → IsAdministered (open_session p r now token ttl row).1
unfolding open_session
open_session-IsAdministered p r now ttl token username password row h e =
    store-IsAdministered r row.id row (record row { last_login_at = some now }) h
      (lookup-signed_in_row p r username password row h.0 e) refl (inl (λ a. a))

pub create_user-IsAdministered :
    (p : Platform) (r : Users) (now salt : ℕ) (payload : UserCreate)
    → IsAdministered r
    → IsAdministered (Repository.create_user p r now salt payload).1
unfolding Repository.create_user
create_user-IsAdministered p r now salt payload h =
    let row = user_row p r.next_id now salt payload in
    (
      IsKeyed-store r.rows r.next_id row refl h.0,
      IsFresh-store (r.next_id + 1) r.next_id row r.rows (IsFresh-suc r.next_id r.rows h.1)
          (omega arith),
      omega
          (arith, h.2, admins-store_new r.rows r.next_id row (lookup-IsFresh r.next_id r.rows h.1)),
    )

signup_session-IsAdministered :
    (p : Platform) (r : Users) (ttl now : ℕ) (token : Text) (payload : SignupRequest)
    → IsAdministered r
    → IsAdministered (signup_session p ttl now token payload (ok tt, r)).1
unfolding Repository_sessions.start_session
signup_session-IsAdministered p r ttl now token payload h =
    elim (Option-cases (signed_in_row p r payload.username payload.password)) [
      | inl n ↦ rw (signup_session, Repository_sessions.start_session, n) h
      | inr (row, n) ↦
          rw (signup_session, Repository_sessions.start_session, n)
            (open_session-IsAdministered p r now ttl token payload.username payload.password row h
              n)
    ]

with_account-IsAdministered :
    (p : Platform) (r : Users) (now salt : ℕ) (payload : SignupRequest)
    → IsAdministered r
    → IsAdministered (with_account p r now salt payload)
unfolding Repository.create_user
with_account-IsAdministered p r now salt payload =
    create_user-IsAdministered p r now salt (signup_account payload)

-- The account of a refused signup, taken away again.
deleted-IsAdministered :
    (p : Platform) (r : Users) (now salt : ℕ) (payload : SignupRequest)
    → IsAdministered r
    → IsAdministered (delete_user (with_account p r now salt payload) r.next_id)
unfolding delete_user
deleted-IsAdministered p r now salt payload h =
    rw
      (erase-store nat_keys r.rows r.next_id
        (user_row p r.next_id now salt (signup_account payload))
        (lookup-IsFresh r.next_id r.rows h.1))
      (h.0, IsFresh-suc r.next_id r.rows h.1, h.2)

signup_claim-IsAdministered :
    (p : Platform) (has_reported : Text → Bool) (r : Users) (ttl now salt : ℕ) (token : Text)
    (payload : SignupRequest) (o : Option Text)
    → IsAdministered r
    → IsAdministered
        (signup_session p ttl now token payload
          (signup_claim has_reported (with_account p r now salt payload) r.next_id o)).1
unfolding claim_or_conflict claim_device delete_user
signup_claim-IsAdministered p has_reported r ttl now salt token payload none h =
    signup_session-IsAdministered p (with_account p r now salt payload) ttl now token payload
      (with_account-IsAdministered p r now salt payload h)
signup_claim-IsAdministered p has_reported r ttl now salt token payload (some d) h =
    let w = with_account p r now salt payload in
    elim (Bool-cases (has_reported d)) [
      | inr e ↦
          rw (signup_session, claim_or_conflict, e) (deleted-IsAdministered p r now salt payload h)
      | inl e ↦ elim (Option-cases (lookup text_keys r.claims d)) [
        | inr (owner, n) ↦
            rw (signup_session, claim_or_conflict, e, claim_device, n)
              (deleted-IsAdministered p r now salt payload h)
        | inl n ↦
            rw (claim_or_conflict, e, claim_device, n)
              (signup_session-IsAdministered p (claimed w r.next_id d) ttl now token payload
                (with_account-IsAdministered p r now salt payload h))
      ]
    ]

pub signup-IsAdministered :
    (p : Platform) (has_reported : Text → Bool) (r : Users) (ttl now salt : ℕ) (token : Text)
    (payload : SignupRequest)
    → IsAdministered r
    → IsAdministered (signup p has_reported r ttl now salt token payload).1
unfolding signup to_out
signup-IsAdministered p has_reported r ttl now salt token payload h =
    elim (Bool-cases
      (username_taken p r payload.username || email_conflict p r (given payload.email))) [
        | inl e ↦ rw (signup, e) h
        | inr e ↦
            rw (signup, e, create_user-signup_account p r now salt payload)
              (signup_claim-IsAdministered p has_reported r ttl now salt token payload
                (given payload.device_id) h)
      ]

pub update_me-IsAdministered :
    (p : Platform) (r : Users) (salt : ℕ) (caller : AuthenticatedUser) (payload : SelfUpdate)
    → IsAdministered r
    → IsAdministered (update_me p r salt caller payload).1
unfolding update_me Repository.update_user Repository.update_row Repository.updated_row
update_me-IsAdministered p r salt caller payload h =
    elim (Bool-cases (password_proved p r caller.id payload)) [
      | inr e ↦ rw (update_me, e) h
      | inl e ↦ elim (Bool-cases (new_email_conflict p r caller.id (given payload.email))) [
        | inl k ↦ rw (update_me, e, k) h
        | inr k ↦ elim (Option-cases (lookup nat_keys r.rows caller.id)) [
          | inl n ↦ rw (update_me, e, k, Repository.update_user, n) h
          | inr (row, n) ↦
              rw (update_me, e, k, Repository.update_user, n)
                (store-IsAdministered r caller.id row
                  (Repository.updated_row p salt (self_update payload) row) h n refl (inl (λ a. a)))
        ]
      ]
    ]
