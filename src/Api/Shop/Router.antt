-- ===== src/Api/Shop/Router.antt =====
-- api/routers/shop.py over the repositories of the shop and of the accounts.
pub mod Update
pub mod Claims
pub mod Claiming
pub mod Final
pub mod History
pub mod Privacy
pub mod Standing
use gps_tracking.Prelude.{
  ℕ, Bool, true, false, not, ◌&&◌, ◌||◌, Option, none, some, List, [], ◌∷◌, map, keep, ◌==◌,
  if◌then◌else◌,
}
use gps_tracking.Protocol.Codec.Cell.{Text}
use gps_tracking.Gateway.Text.{text_eq}
use gps_tracking.Api.Http.{Reply, ok, not_found, conflict}
use gps_tracking.Api.Account.{AuthenticatedUser, is_admin}
use gps_tracking.Api.Users.{Users, device_owner, claim_device}
use gps_tracking.Api.Shop as Repository
use gps_tracking.Api.Shop.{
  OrderStatus, placed, confirmed, shipped, delivered, cancelled, same_status, ProductIn, Product,
  ProductUpdate, OrderCreate, Order, Shop, Changes, sent,
}

-- `FINAL` and `CLAIMING`
abbrev pub is_final : OrderStatus → Bool
is_final placed = false
is_final confirmed = false
is_final shipped = false
is_final delivered = true
is_final cancelled = true

abbrev pub is_claiming : OrderStatus → Bool
is_claiming placed = false
is_claiming confirmed = false
is_claiming shipped = true
is_claiming delivered = true
is_claiming cancelled = false

-- `_for`
pub shown_to : AuthenticatedUser → Order → Order
shown_to u order = if is_admin u then order else record order { admin_note = none }

-- `_visible_order`
pub visible_order : Shop → ℕ → AuthenticatedUser → Reply Order
visible_order r order_id u = elim (Repository.get_order r order_id) [
  | none ↦ not_found
  | some order ↦ if not (is_admin u) && not (order.user_id == u.id) then not_found else ok order
]

pub list_products : Shop → AuthenticatedUser → List Product
list_products r u = Repository.list_products r (is_admin u)

pub update_product : Shop → ℕ → ProductUpdate → Reply Product × Shop
update_product r product_id payload = elim (Repository.update_product r product_id payload) [
  | none ↦ (not_found, r)
  | some (product, r') ↦ (ok product, r')
]

pub create_order : Shop → ℕ → OrderCreate → AuthenticatedUser → Reply Order × Shop
create_order r now payload u = elim (Repository.get_product r payload.product_id) [
  | none ↦ (not_found, r)
  | some product ↦
      let (order, r') = Repository.create_order r now u.id u.username product payload in
      if product.active then (ok (shown_to u order), r') else (not_found, r)
]

pub list_orders : Shop → Option OrderStatus → AuthenticatedUser → List Order
list_orders r status u =
    map (shown_to u) (Repository.list_orders r (if is_admin u then none else some u.id) status 200)

abbrev pub shown_reply : AuthenticatedUser → Reply Order → Reply Order
shown_reply u (ok order) = ok (shown_to u order)
shown_reply u refusal = refusal

pub get_order : Shop → ℕ → AuthenticatedUser → Reply Order
get_order r order_id u = shown_reply u (visible_order r order_id u)

-- `allowed`, of an order that is not cancelled.
pub may_cancel : AuthenticatedUser → OrderStatus → Bool
may_cancel u status = if is_admin u then not (is_final status) else same_status status placed

abbrev pub cancellation : Changes
cancellation = record {
  status = some cancelled;
  tracking = none;
  admin_note = none;
  device_ids = none;
}

-- The answer to an update; an order that went meanwhile, which the code leaves open, is a 404 here.
abbrev pub answer : Shop → AuthenticatedUser → Option (Order × Shop) → Reply Order × Shop
answer r u none = (not_found, r)
answer r u (some (order, r')) = (ok (shown_to u order), r')

abbrev pub cancel_visible : Shop → ℕ → ℕ → AuthenticatedUser → Reply Order → Reply Order × Shop
cancel_visible r now order_id u (ok order) =
    if same_status order.status cancelled
    then (ok (shown_to u order), r)
    else if may_cancel u order.status
    then answer r u (Repository.update_order r now order_id cancellation (some u.username) none)
    else (conflict, r)
cancel_visible r now order_id u refusal = (refusal, r)

pub cancel_order : Shop → ℕ → ℕ → AuthenticatedUser → Reply Order × Shop
cancel_order r now order_id u = cancel_visible r now order_id u (visible_order r order_id u)
