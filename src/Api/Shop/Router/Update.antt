-- ===== src/Api/Shop/Router/Update.antt =====
-- `update_order` of api/routers/shop.py, an administrator's.
use gps_tracking.Prelude.{ℕ, not, ◌&&◌, Option, none, some, List, [], ◌∷◌, ◌==◌, if◌then◌else◌}
use gps_tracking.Protocol.Codec.Cell.{Text}
use gps_tracking.Gateway.Text.{distinct}
use gps_tracking.Api.Http.{Reply, ok, not_found, conflict}
use gps_tracking.Api.Account.{AuthenticatedUser}
use gps_tracking.Api.Users.{Users, device_owner, claim_device}
use gps_tracking.Api.Shop as Repository
use gps_tracking.Api.Shop.{OrderStatus, same_status, Order, Shop, Changes, sent}
use gps_tracking.Api.Shop.Router.{is_final, is_claiming, answer}

-- `OrderUpdate` of api/schemas.py: `changes`, and the note of the status change.
pub record OrderUpdate : Type 0 where
  pub changes : Changes
  pub note : Option Text

abbrev pub map_option : {A : Type 0} → (A → A) → Option A → Option A
map_option f none = none
map_option f (some a) = some (f a)

-- The devices without an owner, or none if one is another account's.
unfoldable pub to_claim : Users → ℕ → List Text → Option (List Text)
to_claim users user_id [] = some []
to_claim users user_id (d ∷ device_ids) =
    let rest = to_claim users user_id device_ids in
    elim (device_owner users d) [
      | none ↦ map_option (λ (ds : List Text). d ∷ ds) rest
      | some owner ↦ if owner == user_id then rest else none
    ]

unfoldable pub claim_all : Users → ℕ → List Text → Reply Unit × Users
claim_all users user_id [] = (ok tt, users)
claim_all users user_id (d ∷ device_ids) = elim (claim_device users user_id d) [
  | none ↦ (conflict, users)
  | some users' ↦ claim_all users' user_id device_ids
]

-- `changes`, with each device once.
abbrev pub distinct_changes : Changes → Changes
distinct_changes changes = record changes { device_ids = map_option distinct changes.device_ids }

abbrev pub store_update :
    Shop → Users → ℕ → ℕ → OrderUpdate → AuthenticatedUser → Reply Order × Shop × Users
store_update r users now order_id payload u =
    let (reply, r') = answer r u (
      Repository.update_order r now order_id (distinct_changes payload.changes) (some u.username)
        payload.note) in
    (reply, r', users)

abbrev pub claim_then :
    Shop → ℕ → ℕ → OrderUpdate → AuthenticatedUser → Reply Unit × Users → Reply Order × Shop × Users
claim_then r now order_id payload u (ok done, users) = store_update r users now order_id payload u
claim_then r now order_id payload u (refusal, users) = (conflict, r, users)

abbrev pub claim_first :
    Shop
    → Users
    → ℕ
    → ℕ
    → OrderUpdate
    → AuthenticatedUser
    → ℕ
    → Option (List Text)
    → Reply Order × Shop × Users
claim_first r users now order_id payload u user_id none = (conflict, r, users)
claim_first r users now order_id payload u user_id (some ds) =
    claim_then r now order_id payload u (claim_all users user_id ds)

-- The status and the devices that the update would leave.
abbrev pub new_status : OrderUpdate → Order → OrderStatus
new_status payload order = sent payload.changes.status order.status

abbrev pub new_devices : OrderUpdate → Order → List Text
new_devices payload order = sent (distinct_changes payload.changes).device_ids order.device_ids

abbrev pub update_found :
    Shop → Users → ℕ → ℕ → OrderUpdate → AuthenticatedUser → Order → Reply Order × Shop × Users
update_found r users now order_id payload u order =
    if not (same_status (new_status payload order) order.status) && is_final order.status
    then (conflict, r, users)
    else if is_claiming (new_status payload order)
    then claim_first r users now order_id payload u order.user_id
        (to_claim users order.user_id (new_devices payload order))
    else store_update r users now order_id payload u

-- An administrator's.
unfoldable pub update_order :
    Shop → Users → ℕ → ℕ → OrderUpdate → AuthenticatedUser → Reply Order × Shop × Users
update_order r users now order_id payload u = elim (Repository.get_order r order_id) [
  | none ↦ (not_found, r, users)
  | some order ↦ update_found r users now order_id payload u order
]
