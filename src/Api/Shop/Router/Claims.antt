-- ===== src/Api/Shop/Router/Claims.antt =====
-- The claims of `update_order` of api/routers/shop.py one by one.
use gps_tracking.Prelude.{
  ℕ, ◌≡◌, refl, true, false, not, ◌&&◌, Option, none, some, List, [], ◌∷◌, ◌==◌, ==_iff,
  if◌then◌else◌, Option-cases, some-injective, arith, Bool-cases, inl, inr,
}
use mathlib.Core.Path.{subst}
use gps_tracking.Prelude.Dict.{lookup, lookup-store}
use gps_tracking.Protocol.Codec.Cell.{Text}
use gps_tracking.Gateway.Text.{text_eq, text_eq_refl, text_eq_iff, text_keys, without, distinct}
use gps_tracking.Api.Http.{ok}
use gps_tracking.Api.Account.{is_device}
use gps_tracking.Api.Users.{Users, device_owner, claim_device, claimed}
use gps_tracking.Api.Shop.{sent}
use gps_tracking.Api.Shop.Router.Update.{to_claim, claim_all, map_option}

abbrev pub IsDistinct : List Text → Type 0
IsDistinct [] = Unit
IsDistinct (d ∷ ds) = (is_device d ds ≡ false) × IsDistinct ds

is_device-without :
    (d x : Text) (ds : List Text)
    → is_device x (without d ds) ≡ (not (text_eq d x) && is_device x ds)
unfolding is_device
is_device-without d x [] = ground arith
is_device-without d x (e ∷ ds) =
    ground (arith, text_eq_iff d e, text_eq_iff d x, text_eq_iff x e, is_device-without d x ds)

IsDistinct-without : (d : Text) (ds : List Text) → IsDistinct ds → IsDistinct (without d ds)
IsDistinct-without d [] h = tt
IsDistinct-without d (e ∷ ds) h = elim (Bool-cases (text_eq d e)) [
  | inl same ↦ rw same (IsDistinct-without d ds h.1)
  | inr same ↦ rw same (ground (arith, is_device-without d e ds, h.0), IsDistinct-without d ds h.1)
]

distinct-IsDistinct : (ds : List Text) → IsDistinct (distinct ds)
distinct-IsDistinct [] = tt
distinct-IsDistinct (d ∷ ds) = (
  ground (arith, is_device-without d d (distinct ds), text_eq_refl d),
  IsDistinct-without d (distinct ds) (distinct-IsDistinct ds),
)

pub sent-IsDistinct :
    (o : Option (List Text)) (ds : List Text)
    → IsDistinct ds
    → IsDistinct (sent (map_option distinct o) ds)
sent-IsDistinct none ds h = h
sent-IsDistinct (some new) ds h = distinct-IsDistinct new

-- What `to_claim` finds: the devices without an owner, in a list where all others are the customer's.
abbrev pub IsToClaim : Users → ℕ → List Text → List Text → Type 0
IsToClaim users user_id ds cs =
    ((x : Text) → is_device x cs ≡ true → device_owner users x ≡ none)
    × ((x : Text) → is_device x cs ≡ true → is_device x ds ≡ true)
    × ((x : Text)
        → is_device x ds ≡ true
        → is_device x cs ≡ false
        → device_owner users x ≡ some user_id)
    × (IsDistinct ds → IsDistinct cs)

pub to_claim-IsToClaim :
    (users : Users) (user_id : ℕ) (ds cs : List Text)
    → to_claim users user_id ds ≡ some cs
    → IsToClaim users user_id ds cs
unfolding to_claim is_device
to_claim-IsToClaim users user_id [] cs e = subst (IsToClaim users user_id []) (some-injective e) (
  (λ x h. absurd (ground (arith, h))),
  (λ x h. h),
  (λ x h k. absurd (ground (arith, h))),
  (λ h. h),
)
to_claim-IsToClaim users user_id (d ∷ ds) cs e = elim (Option-cases (device_owner users d)) [
  | inl n ↦ elim (Option-cases (to_claim users user_id ds)) [
    | inl m ↦ absurd (ground (arith, n, m, e))
    | inr (cs', m) ↦
        let rest = to_claim-IsToClaim users user_id ds cs' m in
        let e' : some (d ∷ cs') ≡ some cs = ground (arith, n, m, e) in
        subst (IsToClaim users user_id (d ∷ ds)) (some-injective e') (
          (λ x h. ground (arith, text_eq_iff x d, n, h, rest.0 x)),
          (λ x h. ground (arith, h, rest.1 x)),
          (λ x h k. ground (arith, h, k, rest.2 x)),
          (λ h. (ground (arith, h.0, rest.1 d), rest.3 h.1)),
        )
  ]
  | inr (owner, n) ↦ elim (Bool-cases (owner == user_id)) [
    | inr same ↦ absurd (ground (arith, n, same, e))
    | inl same ↦
        let rest = to_claim-IsToClaim users user_id ds cs (ground (arith, n, same, e)) in
        (
          rest.0,
          (λ x h. ground (arith, h, rest.1 x)),
          (λ x h k. ground (arith, text_eq_iff x d, ==_iff owner user_id, n, same, h, k, rest.2 x)),
          (λ h. rest.3 h.1),
        )
  ]
]

-- The claims of devices that have no owner all succeed.
pub claim_all-owned :
    (users : Users) (user_id : ℕ) (cs : List Text)
    → IsDistinct cs
    → ((x : Text) → is_device x cs ≡ true → device_owner users x ≡ none)
    → (users' : Users) × (claim_all users user_id cs ≡ (ok tt, users'))
      × ((x : Text)
          → device_owner users' x ≡ (if is_device x cs then some user_id else device_owner users x))
unfolding claim_all claim_device device_owner is_device
claim_all-owned users user_id [] h free = (users, refl, λ x. refl)
claim_all-owned users user_id (d ∷ cs) h free =
    let unowned : lookup text_keys users.claims d ≡ none =
      free d (ground (arith, text_eq_refl d)) in
    let users1 = claimed users user_id d in
    let owner1 = λ (x : Text). lookup-store text_keys users.claims d x user_id in
    let (users', done, owner) =
      claim_all-owned users1 user_id cs h.1
        (λ x k. ground (arith, owner1 x, k, h.0, text_eq_iff d x, free x)) in
    (
      users',
      rw (claim_all, claim_device, unowned) done,
      λ x. ground (arith, owner x, owner1 x, text_eq_iff d x, text_eq_iff x d),
    )
