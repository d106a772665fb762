-- ===== src/Api/Users/Accounts/Revocation.antt =====
-- api/users_repository.py: what a new password or a deactivation leaves of an account's sessions.
use gps_tracking.Prelude.{
  ℕ, ◌≡◌, ◌≢◌, refl, sym, ap, ◌∙◌, Bool, true, false, ◌||◌, Option, none, some, List, [], ◌∷◌, ◌==◌,
  leb, arith, Option-cases, Bool-cases, inl, inr,
}
use gps_tracking.Prelude.Dict.{nat_keys, lookup}
use gps_tracking.Protocol.Codec.Cell.{Text}
use gps_tracking.Gateway.Text.{text_eq, text_keys}
use gps_tracking.Api.Account.{AuthenticatedUser}
use gps_tracking.Api.Users.{Platform, UserRow, UserOut, UserUpdate, Users, Session, is_some}
use gps_tracking.Api.Users.Accounts.{
  is_false, drop_if, drop_sessions, updated_row, update_row, update_user,
}
use gps_tracking.Api.Users.Accounts.Administrators.{IsKeyed, lookup-IsKeyed, IsKeyed-store}
use gps_tracking.Api.Users.Sessions.{active_row, authenticated, resolve_session, resolve_token}

-- A session that is found after the account's are dropped is another account's.
lookup-drop_sessions :
    (sessions : List (Text × Session)) (user_id : ℕ) (key : Text) (s : Session)
    → lookup text_keys (drop_sessions sessions user_id) key ≡ some s
    → (s.user_id == user_id) ≡ false
unfolding lookup drop_sessions
lookup-drop_sessions [] user_id key s e = ground arith
lookup-drop_sessions ((k, t) ∷ sessions) user_id key s e =
    elim (Bool-cases (t.user_id == user_id)) [
      | inl same ↦ lookup-drop_sessions sessions user_id key s (ground (arith, same, e))
      | inr same ↦ elim (Bool-cases (text_eq k key)) [
        | inl found ↦ ground (arith, same, found, e)
        | inr found ↦ lookup-drop_sessions sessions user_id key s (ground (arith, same, found, e))
      ]
    ]

abbrev pub drops : UserUpdate → Bool
drops payload = is_some payload.password || is_false payload.is_active

lookup-drop_if :
    (password inactive : Bool) (sessions : List (Text × Session)) (user_id : ℕ) (key : Text)
    (s : Session)
    → (password || inactive) ≡ true
    → lookup text_keys (drop_if password (drop_if inactive sessions user_id) user_id) key ≡ some s
    → (s.user_id == user_id) ≡ false
lookup-drop_if true inactive sessions user_id key s d e =
    lookup-drop_sessions (drop_if inactive sessions user_id) user_id key s e
lookup-drop_if false true sessions user_id key s d e = lookup-drop_sessions sessions user_id key s e
lookup-drop_if false false sessions user_id key s d e = absurd (ground (arith, d))

active_row-id :
    (r : Users) (k : ℕ) (o : Option UserRow) (u : AuthenticatedUser)
    → ((row : UserRow) → o ≡ some row → row.id ≡ k)
    → active_row r o ≡ some u
    → u.id ≡ k
active_row-id r k none u h e = ground (arith, e)
active_row-id r k (some row) u h e = elim (Bool-cases row.is_active) [
  | inl a ↦
      let e' : some (authenticated r row) ≡ some u = ground (arith, a, e) in
      ap (λ (o : Option AuthenticatedUser). id_of o k) (sym e') ∙ h row refl
  | inr a ↦ ground (arith, a, e)
]
  where
    id_of : Option AuthenticatedUser → ℕ → ℕ
    id_of none d = d
    id_of (some v) d = v.id

resolve_session-owner :
    (r : Users) (now : ℕ) (o : Option Session) (u : AuthenticatedUser)
    → IsKeyed r.rows
    → resolve_session r now o ≡ some u
    → (s : Session) × (o ≡ some s) × (u.id ≡ s.user_id)
unfolding resolve_session
resolve_session-owner r now none u k e = absurd (ground (arith, e))
resolve_session-owner r now (some s) u k e = elim (Bool-cases (leb s.expires_at now)) [
  | inl a ↦ absurd (ground (arith, a, e))
  | inr a ↦ (
    s,
    refl,
    active_row-id r s.user_id (lookup nat_keys r.rows s.user_id) u
        (λ (row : UserRow). lookup-IsKeyed r.rows s.user_id row k) (ground (arith, a, e)),
  )
]

update_row-revokes :
    (p : Platform) (r : Users) (salt user_id : ℕ) (payload : UserUpdate) (row : UserRow) (now : ℕ)
    (token : Text) (u : AuthenticatedUser)
    → IsKeyed r.rows
    → drops payload ≡ true
    → lookup nat_keys r.rows user_id ≡ some row
    → resolve_token p (update_row p r salt user_id payload row).1 now token ≡ some u
    → u.id ≢ user_id
unfolding update_row updated_row resolve_token
update_row-revokes p r salt user_id payload row now token u k d n t same =
    let r' : Users = (update_row p r salt user_id payload row).1 in
    let keyed : IsKeyed r'.rows =
      IsKeyed-store r.rows user_id (updated_row p salt payload row)
        (lookup-IsKeyed r.rows user_id row k n) k in
    let (s, found, owner) =
      resolve_session-owner r' now (lookup text_keys r'.sessions (p.token_fingerprint token)) u
        keyed t in
    ground (
      arith,
      owner,
      same,
      lookup-drop_if (is_some payload.password) (is_false payload.is_active) r.sessions user_id
          (p.token_fingerprint token) s d found,
    )

abbrev pub state_of : Users → Option (UserOut × Users) → Users
state_of r none = r
state_of r (some (account, r')) = r'

-- Once an account has a new password or is deactivated, no token stands for it any more, at any
-- time.
pub update_user-revokes :
    (p : Platform) (r : Users) (salt user_id : ℕ) (payload : UserUpdate) (account : UserOut)
    (r' : Users) (now : ℕ) (token : Text) (u : AuthenticatedUser)
    → IsKeyed r.rows
    → drops payload ≡ true
    → update_user p r salt user_id payload ≡ some (account, r')
    → resolve_token p r' now token ≡ some u
    → u.id ≢ user_id
unfolding update_user update_row updated_row resolve_token
update_user-revokes p r salt user_id payload account r' now token u k d e t same =
    elim (Option-cases (lookup nat_keys r.rows user_id)) [
      | inl n ↦ absurd (ground (arith, n, e))
      | inr (row, n) ↦
          let f : update_user p r salt user_id payload
              ≡ some (update_row p r salt user_id payload row) =
            rw (update_user, n) refl in
          let g : (update_row p r salt user_id payload row).1 ≡ r' = ap (state_of r) (sym f ∙ e) in
          update_row-revokes p r salt user_id payload row now token u k d n
            (ap (λ (x : Users). resolve_token p x now token) g ∙ t) same
    ]
