-- ===== src/Api/Shop/Router/Claiming.antt =====
-- `update_order` of api/routers/shop.py: whose the devices of an order are.
use gps_tracking.Prelude.{
  ℕ, ◌≡◌, refl, Bool, true, false, not, ◌&&◌, Option, none, some, List, ◌==◌, ==_refl,
  if◌then◌else◌, ◌⊎◌, Option-cases, arith, Bool-cases, inl, inr,
}
use gps_tracking.Prelude.Dict.{nat_keys, lookup, lookup-store_hit}
use gps_tracking.Protocol.Codec.Cell.{Text}
use gps_tracking.Api.Http.{Reply, ok, conflict}
use gps_tracking.Api.Account.{AuthenticatedUser, is_device}
use gps_tracking.Api.Users.{Users, device_owner}
use gps_tracking.Api.Shop as Repository
use gps_tracking.Api.Shop.{Order, Shop, same_status, sent, get_order}
use gps_tracking.Api.Shop.Router.{is_final, is_claiming, shown_to}
use gps_tracking.Api.Shop.Router.Update.{
  OrderUpdate, distinct_changes, to_claim, update_order, new_status, new_devices, store_update,
}
use gps_tracking.Api.Shop.Router.Claims.{
  IsDistinct, sent-IsDistinct, to_claim-IsToClaim, claim_all-owned,
}

-- Whether the device has that owner.
abbrev pub owned_by : Option ℕ → ℕ → Bool
owned_by none user_id = false
owned_by (some owner) user_id = owner == user_id

-- The owner of a device after the update of an order that claims it, or does not.
abbrev pub owner_after : Option ℕ → Bool → ℕ → Option ℕ
owner_after (some owner) is_claimed user_id = some owner
owner_after none is_claimed user_id = if is_claimed then some user_id else none

abbrev pub claims_device : Order → Text → Bool
claims_device order x = is_claiming order.status && is_device x order.device_ids

abbrev pub Outcome :
    Shop → Users → ℕ → AuthenticatedUser → Order → Text → Reply Order × Shop × Users → Type 0
Outcome r users order_id u order x o =
    (o ≡ (conflict, r, users))
    ⊎ ((updated : Order) × (o.0 ≡ ok (shown_to u updated))
        × (lookup nat_keys o.1.orders order_id ≡ some updated)
        × (device_owner o.2 x
            ≡ owner_after (device_owner users x) (claims_device updated x) order.user_id)
        × ((claims_device updated x && not (owned_by (device_owner o.2 x) order.user_id)) ≡ false))

abbrev pub asks_for : OrderUpdate → Order → Text → Bool
asks_for payload order x =
    is_claiming (new_status payload order) && is_device x (new_devices payload order)

store_update-Outcome :
    (r : Shop) (users users' : Users) (now order_id : ℕ) (payload : OrderUpdate)
    (u : AuthenticatedUser) (order : Order) (x : Text)
    → lookup nat_keys r.orders order_id ≡ some order
    → (device_owner users' x
        ≡ owner_after (device_owner users x) (asks_for payload order x) order.user_id)
    → ((asks_for payload order x && not (owned_by (device_owner users' x) order.user_id)) ≡ false)
    → Outcome r users order_id u order x (store_update r users' now order_id payload u)
unfolding Repository.update_order Repository.updated_order
store_update-Outcome r users users' now order_id payload u order x e c k =
    let changes = distinct_changes payload.changes in
    let updated = Repository.updated_order now changes (some u.username) payload.note order in
    rw (Repository.update_order, e)
      (inr (
        updated,
        refl,
        lookup-store_hit nat_keys r.orders order_id order_id updated (==_refl order_id),
        c,
        k,
      ))

not_claimed : (o : Option ℕ) (b : Bool) (user_id : ℕ) → b ≡ false → o ≡ owner_after o b user_id
not_claimed none b user_id h = rw h refl
not_claimed (some owner) b user_id h = refl

-- What the claims of `to_claim`'s list make of a device's owner, for a list `ds` in which the others are the
-- customer's.
module _ (users users' : Users) (user_id : ℕ) (ds cs : List Text) (x : Text)
    (after : device_owner users' x
      ≡ (if is_device x cs then some user_id else device_owner users x))
    (free : is_device x cs ≡ true → device_owner users x ≡ none)
    (among : is_device x cs ≡ true → is_device x ds ≡ true)
    (others : is_device x ds ≡ true
      → is_device x cs ≡ false
      → device_owner users x ≡ some user_id) where
  claimed_owner :
      device_owner users' x ≡ owner_after (device_owner users x) (is_device x ds) user_id
  claimed_owner = elim (Bool-cases (is_device x cs)) [
    | inl e ↦ rw (after, e, free e, among e) refl
    | inr e ↦ elim (Bool-cases (is_device x ds)) [
      | inl k ↦ rw (after, e, others k e) refl
      | inr k ↦ rw (after, e) (not_claimed (device_owner users x) (is_device x ds) user_id k)
    ]
  ]

  claimed_owned : (is_device x ds && not (owned_by (device_owner users' x) user_id)) ≡ false
  claimed_owned = elim (Bool-cases (is_device x cs)) [
    | inl e ↦ rw (after, e) (ground arith)
    | inr e ↦ elim (Bool-cases (is_device x ds)) [
      | inl k ↦ rw (after, e, others k e) (ground arith)
      | inr k ↦ rw k refl
    ]
  ]

-- For an order whose devices are listed once each, an administrator's update either answers 409 and
-- leaves shop and accounts as they were, with nothing claimed, or is stored and shown; then, if the
-- order is shipped or delivered, each of its devices is the customer's, and no device that had an
-- owner has changed it.
pub update_order-outcome :
    (r : Shop) (users : Users) (now order_id : ℕ) (payload : OrderUpdate) (u : AuthenticatedUser)
    (order : Order) (x : Text)
    → get_order r order_id ≡ some order
    → IsDistinct order.device_ids
    → Outcome r users order_id u order x (update_order r users now order_id payload u)
unfolding update_order Repository.get_order
update_order-outcome r users now order_id payload u order x e h =
    rw (update_order, Repository.get_order, e)
      (elim (Bool-cases
        (not (same_status (new_status payload order) order.status) && is_final order.status)) [
          | inl f ↦ rw f (inl refl)
          | inr f ↦ elim (Bool-cases (is_claiming (new_status payload order))) [
            | inr c ↦
                rw (f, c)
                  (store_update-Outcome r users users now order_id payload u order x e
                    (not_claimed (device_owner users x) (asks_for payload order x) order.user_id
                      (ground (arith, c)))
                    (ground (arith, c)))
            | inl c ↦
                elim (Option-cases (to_claim users order.user_id (new_devices payload order))) [
                  | inl n ↦ rw (f, c, n) (inl refl)
                  | inr (cs, n) ↦
                      let found =
                        to_claim-IsToClaim users order.user_id (new_devices payload order) cs n in
                      let (users', done, owner) =
                        claim_all-owned users order.user_id cs
                          (found.3 (sent-IsDistinct payload.changes.device_ids order.device_ids h))
                          found.0 in
                      rw (f, c, n, done)
                        (store_update-Outcome r users users' now order_id payload u order x e
                          (rw c (
                            claimed_owner users users' order.user_id (new_devices payload order) cs
                              x (owner x) (found.0 x) (found.1 x) (found.2 x)))
                          (rw c (
                            claimed_owned users users' order.user_id (new_devices payload order) cs
                              x (owner x) (found.0 x) (found.1 x) (found.2 x))))
                ]
          ]
        ])
