-- ===== src/Api/Users/Router/Administration.antt =====
-- The requests of api/routers/users.py that change the accounts, in any order.
use gps_tracking.Prelude.{
  ℕ, Bool, Option, none, some, List, [], ◌∷◌, ◌==◌, Option-cases, Bool-cases, inl, inr,
}
use gps_tracking.Protocol.Codec.Cell.{Text}
use gps_tracking.Api.Account.{AuthenticatedUser}
use gps_tracking.Api.Throttle.{LoginThrottle, retry_after}
use gps_tracking.Api.Users.{Platform, UserCreate, UserUpdate, Users, username_taken}
use gps_tracking.Api.Users.Sessions as Repository_sessions
use gps_tracking.Api.Users.Sessions.{signed_in_row}
use gps_tracking.Api.Users.Router.{
  SignupRequest, SelfUpdate, login, signup, logout, update_me, create_user, update_user,
}
use gps_tracking.Api.Users.Router.Standing.{IsAdministered, update_user-IsAdministered}
use gps_tracking.Api.Users.Router.Requests.{
  open_session-IsAdministered, create_user-IsAdministered, signup-IsAdministered,
  update_me-IsAdministered,
}

-- A request, with the clock's and the random source's readings.
pub data Request : Type 0 where
  sign_in : LoginThrottle → ℕ → Text → Text → Text → Text → Request
  sign_up : ℕ → ℕ → Text → SignupRequest → Request
  sign_out : Option Text → Request
  edit_self : ℕ → AuthenticatedUser → SelfUpdate → Request
  creation : ℕ → ℕ → UserCreate → Request
  edit : ℕ → ℕ → UserUpdate → AuthenticatedUser → Request

module _ (p : Platform) (has_reported : Text → Bool) (ttl : ℕ) where
  -- The accounts after a request.
  pub handle : Users → Request → Users
  handle r (sign_in t now token address username password) =
      (login p t r ttl now token address username password).2
  handle r (sign_up now salt token payload) = (signup p has_reported r ttl now salt token payload).1
  handle r (sign_out credentials) = logout p r credentials
  handle r (edit_self salt caller payload) = (update_me p r salt caller payload).1
  handle r (creation now salt payload) = (create_user p r now salt payload).1
  handle r (edit salt user_id payload caller) = (update_user p r salt user_id payload caller).1

  pub handle_all : Users → List Request → Users
  handle_all r [] = r
  handle_all r (q ∷ requests) = handle_all (handle r q) requests

  login-IsAdministered :
      (t : LoginThrottle) (r : Users) (now : ℕ) (token address username password : Text)
      → IsAdministered r
      → IsAdministered (login p t r ttl now token address username password).2
  unfolding login Repository_sessions.start_session
  login-IsAdministered t r now token address username password h =
      let waited = retry_after (λ (s : Text). p.lower (p.strip s)) t now username address in
      elim (Bool-cases (waited.0 == 0)) [
        | inr e ↦ rw (login, e) h
        | inl e ↦ elim (Option-cases (signed_in_row p r username password)) [
          | inl n ↦ rw (login, e, Repository_sessions.start_session, n) h
          | inr (row, n) ↦
              rw (login, e, Repository_sessions.start_session, n)
                (open_session-IsAdministered p r now ttl token username password row h n)
        ]
      ]

  routed_creation-IsAdministered :
      (r : Users) (now salt : ℕ) (payload : UserCreate)
      → IsAdministered r
      → IsAdministered (create_user p r now salt payload).1
  unfolding create_user
  routed_creation-IsAdministered r now salt payload h =
      elim (Bool-cases (username_taken p r payload.username)) [
        | inl e ↦ rw (create_user, e) h
        | inr e ↦ rw (create_user, e) (create_user-IsAdministered p r now salt payload h)
      ]

  logout-IsAdministered :
      (r : Users) (credentials : Option Text)
      → IsAdministered r
      → IsAdministered (logout p r credentials)
  unfolding logout Repository_sessions.end_session
  logout-IsAdministered r none h = h
  logout-IsAdministered r (some []) h = h
  logout-IsAdministered r (some (c ∷ token)) h = h

  handle-IsAdministered : (r : Users) (q : Request) → IsAdministered r → IsAdministered (handle r q)
  unfolding handle
  handle-IsAdministered r (sign_in t now token address username password) h =
      login-IsAdministered t r now token address username password h
  handle-IsAdministered r (sign_up now salt token payload) h =
      signup-IsAdministered p has_reported r ttl now salt token payload h
  handle-IsAdministered r (sign_out credentials) h = logout-IsAdministered r credentials h
  handle-IsAdministered r (edit_self salt caller payload) h =
      update_me-IsAdministered p r salt caller payload h
  handle-IsAdministered r (creation now salt payload) h =
      routed_creation-IsAdministered r now salt payload h
  handle-IsAdministered r (edit salt user_id payload caller) h =
      update_user-IsAdministered p r salt user_id payload caller h

  -- While the accounts have distinct ids below the next one and at least one active administrator,
  -- they still have after any sequence of sign-ins, signups, sign-outs, new accounts and edits,
  -- whoever asks for them.
  pub handle_all-IsAdministered :
      (r : Users) (requests : List Request)
      → IsAdministered r
      → IsAdministered (handle_all r requests)
  unfolding handle_all
  handle_all-IsAdministered r [] h = h
  handle_all-IsAdministered r (q ∷ requests) h =
      handle_all-IsAdministered (handle r q) requests (handle-IsAdministered r q h)
