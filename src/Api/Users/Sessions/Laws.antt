-- ===== src/Api/Users/Sessions/Laws.antt =====
-- What tokens of api/users_repository.py stand for.
use gps_tracking.Prelude.{
  ℕ, ◌+◌, ◌≡◌, refl, sym, ap, ◌∙◌, true, Option, none, some, leb, ltb, ==_refl, if◌then◌else◌,
  arith, Option-cases, Bool-cases, inl, inr,
}
use mathlib.Core.Path.{subst}
use gps_tracking.Prelude.Dict.{nat_keys, lookup-store_hit, lookup-erase}
use gps_tracking.Protocol.Codec.Cell.{Text}
use gps_tracking.Gateway.Text.{text_eq, text_eq_refl, text_keys}
use gps_tracking.Api.Account.{AuthenticatedUser}
use gps_tracking.Api.Users.{Platform, UserRow, UserOut, Users, map_option, to_out, values}
use gps_tracking.Api.Users.Sessions.{
  first_row, signed_in_row, session_for, open_session, start_session, resolve_session,
  resolve_token, end_session,
}

signed_in_row-is_active :
    (p : Platform) (r : Users) (username password : Text) (row : UserRow)
    → signed_in_row p r username password ≡ some row
    → row.is_active ≡ true
unfolding signed_in_row
signed_in_row-is_active p r username password row e =
    elim (Option-cases (
      first_row (λ (w : UserRow). text_eq w.username (p.lower (p.strip username)))
        (values r.rows))) [ inl n ↦ ground (arith, n, e) | inr (w, n) ↦ ground (arith, n, e) ]

-- The account of a token that is asked about at `t`.
abbrev pub account_at : Platform → Users → ℕ → Text → Option ℕ
account_at p r t token = map_option (λ (u : AuthenticatedUser). u.id) (resolve_token p r t token)

pub open_session-account_at :
    (p : Platform) (r : Users) (now ttl t : ℕ) (token : Text) (row : UserRow)
    → row.is_active ≡ true
    → account_at p (open_session p r now token ttl row).1 t token
      ≡ (if ltb t (now + ttl) then some row.id else none)
unfolding open_session resolve_token resolve_session
open_session-account_at p r now ttl t token row a =
    let row' : UserRow = record row { last_login_at = some now } in
    rw
      (
        resolve_token,
        lookup-store_hit text_keys r.sessions (p.token_fingerprint token)
            (p.token_fingerprint token) (session_for row (now + ttl))
            (text_eq_refl (p.token_fingerprint token)),
        lookup-store_hit nat_keys r.rows row.id row.id row' (==_refl row.id),
        a,
      )
      (elim (Bool-cases (leb (now + ttl) t)) [
        | inl late ↦ rw late (ground (arith, late))
        | inr early ↦ rw early (ground (arith, early))
      ])

-- The same in the words of the answer.
abbrev pub Resolves : Platform → ℕ → (Text × ℕ × UserOut) × Users → Type 0
Resolves p t o = account_at p o.1 t o.0.0 ≡ (if ltb t o.0.1 then some o.0.2.id else none)

open_session-Resolves :
    (p : Platform) (r : Users) (now ttl t : ℕ) (token : Text) (row : UserRow)
    → row.is_active ≡ true
    → Resolves p t (open_session p r now token ttl row)
unfolding open_session to_out
open_session-Resolves p r now ttl t token row a = open_session-account_at p r now ttl t token row a

-- From a sign-in until its session expires, and no longer, its token stands for the account that signed in.
pub start_session-account_at :
    (p : Platform) (r : Users) (now : ℕ) (token username password : Text) (ttl : ℕ)
    (started : Text × ℕ × UserOut) (r' : Users) (t : ℕ)
    → start_session p r now token username password ttl ≡ some (started, r')
    → account_at p r' t started.0 ≡ (if ltb t started.1 then some started.2.id else none)
unfolding start_session
start_session-account_at p r now token username password ttl started r' t e =
    elim (Option-cases (signed_in_row p r username password)) [
      | inl n ↦ absurd (ground (arith, n, e))
      | inr (row, n) ↦
          let f : start_session p r now token username password ttl
              ≡ some (open_session p r now token ttl row) =
            rw (start_session, n) refl in
          let g : open_session p r now token ttl row ≡ (started, r') = get f e in
          subst (Resolves p t) g (
            open_session-Resolves p r now ttl t token row
              (signed_in_row-is_active p r username password row n))
    ]
  where
    get_or : {A : Type 0} → A → Option A → A
    get_or d none = d
    get_or d (some a) = a

    get : {A : Type 0} → {o : Option A} → {a b : A} → o ≡ some a → o ≡ some b → a ≡ b
    get {A} {o} {a} {b} f g = ap (get_or a) (sym f ∙ g)

-- Signing out ends what stands under that token's fingerprint, and no other session.
pub end_session-account_at :
    (p : Platform) (r : Users) (t : ℕ) (token other : Text)
    → account_at p (end_session p r token) t other ≡ (
        if text_eq (p.token_fingerprint token) (p.token_fingerprint other)
        then none
        else account_at p r t other)
unfolding end_session resolve_token resolve_session
end_session-account_at p r t token other =
    elim (Bool-cases (text_eq (p.token_fingerprint token) (p.token_fingerprint other))) [
      | inl e ↦
          rw
            (
              resolve_token,
              lookup-erase text_keys r.sessions (p.token_fingerprint token)
                  (p.token_fingerprint other),
              e,
            )
            refl
      | inr e ↦
          rw
            (
              resolve_token,
              lookup-erase text_keys r.sessions (p.token_fingerprint token)
                  (p.token_fingerprint other),
              e,
            )
            refl
    ]
