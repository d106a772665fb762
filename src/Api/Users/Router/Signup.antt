-- ===== src/Api/Users/Router/Signup.antt =====
-- `signup` of api/routers/users.py: what it leaves, granted or refused.
use gps_tracking.Prelude.{
  ℕ, ◌+◌, ◌≡◌, refl, ap, ◌∙◌, Bool, true, false, ◌||◌, Option, none, some, List, [], ◌∷◌, ◌⊎◌,
  Option-cases, arith, Bool-cases, inl, inr, ltb, if◌then◌else◌,
}
use gps_tracking.Prelude.Dict.{
  nat_keys, lookup, store, erase-store, lookup-store_hit, IsFresh, lookup-IsFresh,
}
use gps_tracking.Protocol.Codec.Cell.{Text}
use gps_tracking.Gateway.Text.{text_keys, text_eq, text_eq_refl}
use gps_tracking.Api.Http.{Reply, ok, not_found, conflict}
use gps_tracking.Api.Users.{
  Platform, UserRow, Users, Session, Subscriber, any, values, delete_user, claim_device, claimed,
  device_owner, auto_claim_unowned, to_out, username_taken,
}
use gps_tracking.Api.Users.Accounts as Repository
use gps_tracking.Api.Users.Accounts.{user_row}
use gps_tracking.Api.Users.Sessions.{first_row, signed_in_row, start_session, open_session}
use gps_tracking.Api.Users.Sessions.Laws.{account_at, open_session-account_at}
use gps_tracking.Api.Users.Router.{
  SignupRequest, LoginResponse, response, signup_account, signup_claim, signup_session, signup,
  claim_or_conflict, email_conflict, given,
}

-- All that the repository keeps but the next id.
abbrev pub Tables : Type 0
Tables =
    List (ℕ × UserRow)
    × List (ℕ × List Text)
    × List (Text × Session)
    × List (Text × ℕ)
    × List (Text × Subscriber)

abbrev pub tables : Users → Tables
tables r = (r.rows, r.devices, r.sessions, r.claims, r.subscriptions)

-- The repository once the account of a signup stands.
abbrev pub with_account : Platform → Users → ℕ → ℕ → SignupRequest → Users
with_account p r now salt payload = record r {
  rows = store nat_keys r.rows r.next_id (user_row p r.next_id now salt (signup_account payload));
  devices = store nat_keys r.devices r.next_id [];
  next_id = r.next_id + 1;
}

pub create_user-signup_account :
    (p : Platform) (r : Users) (now salt : ℕ) (payload : SignupRequest)
    → Repository.create_user p r now salt (signup_account payload) ≡ (
      to_out
          (with_account p r now salt payload)
          (user_row p r.next_id now salt (signup_account payload)),
      with_account p r now salt payload,
    )
unfolding Repository.create_user auto_claim_unowned
create_user-signup_account p r now salt payload = refl

-- Taking the account away again leaves nothing of it.
pub tables-delete_user :
    (p : Platform) (r : Users) (now salt : ℕ) (payload : SignupRequest)
    → IsFresh r.next_id r.rows
    → IsFresh r.next_id r.devices
    → tables (delete_user (with_account p r now salt payload) r.next_id) ≡ tables r
unfolding delete_user
tables-delete_user p r now salt payload h k =
    rw
      (
        erase-store nat_keys r.rows r.next_id
            (user_row p r.next_id now salt (signup_account payload))
            (lookup-IsFresh r.next_id r.rows h),
        erase-store nat_keys r.devices r.next_id [] (lookup-IsFresh r.next_id r.devices k),
      )
      refl

-- A claim gives the device to the account, or the answer is an exception and the repository is as it was.
abbrev pub Claimed : Users → Text → ℕ → Users → Type 0
Claimed r device_id user_id r' = (r'.rows ≡ r.rows) × (device_owner r' device_id ≡ some user_id)

abbrev pub ClaimOutcome : Users → Text → ℕ → Reply Unit × Users → Type 0
ClaimOutcome r device_id user_id o =
    ((r' : Users) × (o ≡ (ok tt, r')) × Claimed r device_id user_id r')
    ⊎ ((o ≡ (not_found, r)) ⊎ (o ≡ (conflict, r)))

claim-outcome :
    (has_reported : Text → Bool) (r : Users) (device_id : Text) (user_id : ℕ)
    → ClaimOutcome r device_id user_id (claim_or_conflict has_reported r device_id user_id)
unfolding claim_or_conflict claim_device device_owner
claim-outcome has_reported r device_id user_id = elim (Bool-cases (has_reported device_id)) [
  | inr e ↦ rw e (inr (inl refl))
  | inl e ↦ elim (Option-cases (lookup text_keys r.claims device_id)) [
    | inr (owner, n) ↦ rw (e, n) (inr (inr refl))
    | inl n ↦
        rw (e, n)
          (inl (
            claimed r user_id device_id,
            refl,
            (
              refl,
              lookup-store_hit text_keys r.claims device_id device_id user_id
                  (text_eq_refl device_id),
            ),
          ))
  ]
]

-- Whether the account owns the device that was named.
abbrev pub Owns : Users → ℕ → Option Text → Type 0
Owns r user_id none = Unit
Owns r user_id (some device_id) = device_owner r device_id ≡ some user_id

-- Signing in, once the account is there.
module _ (p : Platform)
    (verifies : (salt : ℕ) (password : Text)
      → p.verify_password password (p.hash_password salt password) ≡ true) where
  first_row-store :
      (test : UserRow → Bool) (rows : List (ℕ × UserRow)) (k : ℕ) (row : UserRow)
      → any test (values rows) ≡ false
      → lookup nat_keys rows k ≡ none
      → test row ≡ true
      → first_row test (values (store nat_keys rows k row)) ≡ some row
  unfolding lookup store
  first_row-store test [] k row a n t = rw t refl
  first_row-store test ((j, w) ∷ rows) k row a n t =
      ground (arith, a, n, t, first_row-store test rows k row)

  signed_in_row-new :
      (r r' : Users) (now salt : ℕ) (payload : SignupRequest)
      → IsFresh r.next_id r.rows
      → username_taken p r payload.username ≡ false
      → p.lower (p.strip payload.username) ≡ p.lower payload.username
      → r'.rows ≡ (with_account p r now salt payload).rows
      → signed_in_row p r' payload.username payload.password
        ≡ some (user_row p r.next_id now salt (signup_account payload))
  unfolding signed_in_row username_taken
  signed_in_row-new r r' now salt payload h u l same =
      rw
        (
          same,
          signed_in_row,
          first_row-store
              (λ (row : UserRow). text_eq row.username (p.lower (p.strip payload.username))) r.rows
              r.next_id (user_row p r.next_id now salt (signup_account payload))
              (ap (λ (s : Text). any (λ (row : UserRow). text_eq row.username s) (values r.rows)) l
                ∙ u)
              (lookup-IsFresh r.next_id r.rows h)
              (ap (text_eq (p.lower payload.username)) l ∙ text_eq_refl (p.lower payload.username)),
          verifies salt payload.password,
        )
        refl

  -- The account is made and signed in: `token` stands for it at `t` exactly if the session has not expired by
  -- then, and it owns the device that was named. Or the answer is an exception and the tables are as they were.
  abbrev pub Outcome :
      Users → ℕ → ℕ → Text → SignupRequest → ℕ → Reply LoginResponse × Users → Type 0
  Outcome r ttl now token payload t o =
      ((response : LoginResponse) × (o.0 ≡ ok response)
        × (response.account.id ≡ r.next_id)
        × (response.token ≡ token)
        × (response.expires_at ≡ now + ttl)
        × (account_at p o.1 t token ≡ (if ltb t (now + ttl) then some r.next_id else none))
        × Owns o.1 r.next_id (given payload.device_id))
      ⊎ (((o.0 ≡ not_found) ⊎ (o.0 ≡ conflict)) × (tables o.1 ≡ tables r))

  session-outcome :
      (r r' : Users) (ttl now salt : ℕ) (token : Text) (payload : SignupRequest) (t : ℕ)
      → IsFresh r.next_id r.rows
      → username_taken p r payload.username ≡ false
      → p.lower (p.strip payload.username) ≡ p.lower payload.username
      → r'.rows ≡ (with_account p r now salt payload).rows
      → Owns r' r.next_id (given payload.device_id)
      → Outcome r ttl now token payload t (signup_session p ttl now token payload (ok tt, r'))
  unfolding start_session open_session to_out device_owner
  session-outcome r r' ttl now salt token payload t h u l same o =
      rw (signup_session, start_session, signed_in_row-new r r' now salt payload h u l same)
        (inl (
          response
              (open_session p r' now token ttl
                (user_row p r.next_id now salt (signup_account payload))).0,
          refl,
          refl,
          refl,
          refl,
          open_session-account_at p r' now ttl t token
              (user_row p r.next_id now salt (signup_account payload)) refl,
          o,
        ))

  claim-outcome_signup :
      (has_reported : Text → Bool) (r : Users) (ttl now salt : ℕ) (token : Text)
      (payload : SignupRequest) (t : ℕ)
      → IsFresh r.next_id r.rows
      → IsFresh r.next_id r.devices
      → username_taken p r payload.username ≡ false
      → p.lower (p.strip payload.username) ≡ p.lower payload.username
      → (o : Option Text) → given payload.device_id ≡ o
      → Outcome r ttl now token payload t (
          signup_session p ttl now token payload
            (signup_claim has_reported (with_account p r now salt payload) r.next_id o))
  claim-outcome_signup has_reported r ttl now salt token payload t h k u l none e =
      session-outcome r (with_account p r now salt payload) ttl now salt token payload t h u l refl
        (rw e tt)
  claim-outcome_signup has_reported r ttl now salt token payload t h k u l (some device_id) e =
      elim (claim-outcome has_reported (with_account p r now salt payload) device_id r.next_id) [
        | inl (r', done, (rows, owner)) ↦
            rw done (session-outcome r r' ttl now salt token payload t h u l rows (rw e owner))
        | inr (inl done) ↦ rw done (inr (inl refl, tables-delete_user p r now salt payload h k))
        | inr (inr done) ↦ rw done (inr (inr refl, tables-delete_user p r now salt payload h k))
      ]

  -- For a username without blanks around it, and fresh ids, a signup either answers with the new
  -- account, which owns the device it named and is signed in: the token of the answer stands for that
  -- account until the session's time is over, and no longer; or it answers with 404 or 409, and then
  -- all tables are as they were: no account is left behind. This needs only that a password verifies
  -- against its own hash.
  pub signup-outcome :
      (has_reported : Text → Bool) (r : Users) (ttl now salt : ℕ) (token : Text)
      (payload : SignupRequest) (t : ℕ)
      → IsFresh r.next_id r.rows
      → IsFresh r.next_id r.devices
      → p.lower (p.strip payload.username) ≡ p.lower payload.username
      → Outcome r ttl now token payload t (signup p has_reported r ttl now salt token payload)
  unfolding signup to_out
  signup-outcome has_reported r ttl now salt token payload t h k l =
      elim (Bool-cases
        (username_taken p r payload.username || email_conflict p r (given payload.email))) [
          | inl e ↦ rw (signup, e) (inr (inr refl, refl))
          | inr e ↦
              rw (signup, e, create_user-signup_account p r now salt payload)
                (claim-outcome_signup has_reported r ttl now salt token payload t h k
                  (ground (arith, e)) l (given payload.device_id) refl)
        ]
