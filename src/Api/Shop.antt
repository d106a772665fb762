-- ===== src/Api/Shop.antt =====
-- `InMemoryShopRepository` of api/shop_repository.py. `now` is the clock's reading, a price is in hundredths.
pub mod Router
mod Model
pub use Model.*
use gps_tracking.Prelude.{
  ℕ, ◌+◌, ◌*◌, Bool, true, false, not, ◌&&◌, ◌||◌, Option, none, some, List, [], ◌∷◌, ◌++◌, map,
  keep, take, ltb, ◌==◌, if◌then◌else◌,
}
use gps_tracking.Prelude.Dict.{nat_keys, lookup, store}
use gps_tracking.Prelude.Sorting.{sorted}
use gps_tracking.Protocol.Codec.Cell.{Text}

abbrev pub values : {V : Type 0} → List (ℕ × V) → List V
values {V} d = map (λ (e : ℕ × V). e.1) d

-- `key=lambda p: (p.price, p.id)`
abbrev pub cheaper : Product → Product → Bool
cheaper a b = ltb a.price b.price || (a.price == b.price && ltb a.id b.id)

pub list_products : Shop → Bool → List Product
list_products r include_inactive =
    sorted cheaper (keep (λ (p : Product). include_inactive || p.active) (values r.products))

pub get_product : Shop → ℕ → Option Product
get_product r product_id = lookup nat_keys r.products product_id

pub create_product : Shop → ℕ → ProductIn → Product × Shop
create_product r now payload =
    let product : Product = record {
      id = r.next_product;
      name = payload.name;
      description = payload.description;
      price = payload.price;
      active = payload.active;
      created_at = now;
    } in
    (
      product,
      record r {
        products = store nat_keys r.products r.next_product product;
        next_product = r.next_product + 1;
      },
    )

-- A field that was sent, or the one that is there.
abbrev pub sent : {A : Type 0} → Option A → A → A
sent none current = current
sent (some a) current = a

pub update_product : Shop → ℕ → ProductUpdate → Option (Product × Shop)
update_product r product_id payload = elim (lookup nat_keys r.products product_id) [
  | none ↦ none
  | some current ↦
      let updated : Product = record current {
        name = sent payload.name current.name;
        description = sent payload.description current.description;
        price = sent payload.price current.price;
        active = sent payload.active current.active;
      } in
      some (updated, record r { products = store nat_keys r.products product_id updated })
]

-- `_total`
pub total_of : ℕ → ℕ → ℕ
total_of unit_price quantity = unit_price * quantity

abbrev pub event : OrderStatus → Option Text → Option Text → ℕ → OrderEvent
event status note changed_by changed_at = record {
  status = status;
  note = note;
  changed_by = changed_by;
  changed_at = changed_at;
}

abbrev pub placed_order : ℕ → ℕ → ℕ → Text → Product → OrderCreate → Order
placed_order id now user_id username product payload = record {
  id = id;
  user_id = user_id;
  username = username;
  product_id = product.id;
  product_name = product.name;
  unit_price = product.price;
  quantity = payload.quantity;
  total = total_of product.price payload.quantity;
  delivery = payload.delivery;
  status = placed;
  tracking = none;
  admin_note = none;
  device_ids = [];
  created_at = now;
  updated_at = now;
  events = event placed none (some username) now ∷ [];
}

pub create_order : Shop → ℕ → ℕ → Text → Product → OrderCreate → Order × Shop
create_order r now user_id username product payload =
    let order = placed_order r.next_order now user_id username product payload in
    (
      order,
      record r {
        orders = store nat_keys r.orders r.next_order order;
        next_order = r.next_order + 1;
      },
    )

abbrev pub or_any : {A : Type 0} → Option A → (A → Bool) → Bool
or_any none test = true
or_any (some a) test = test a

-- `key=lambda o: (o.created_at, o.id), reverse=True`
abbrev pub newer : Order → Order → Bool
newer a b = ltb b.created_at a.created_at || (b.created_at == a.created_at && ltb b.id a.id)

pub list_orders : Shop → Option ℕ → Option OrderStatus → ℕ → List Order
list_orders r user_id status limit = take limit (
    sorted newer (
      keep
        (λ (o : Order).
          or_any user_id (λ (u : ℕ). o.user_id == u)
          && or_any status (λ (s : OrderStatus). same_status o.status s))
        (values r.orders)))

unfoldable pub get_order : Shop → ℕ → Option Order
get_order r order_id = lookup nat_keys r.orders order_id

-- `changes`: the fields that were sent.
pub record Changes : Type 0 where
  pub status : Option OrderStatus
  pub tracking : Option (Option Text)
  pub admin_note : Option (Option Text)
  pub device_ids : Option (List Text)

-- The timeline, longer by an event where the status changes.
abbrev pub events_after :
    ℕ → Option OrderStatus → Option Text → Option Text → Order → List OrderEvent
events_after now none remark changed_by current = current.events
events_after now (some status) remark changed_by current =
    if same_status status current.status
    then current.events
    else current.events ++ (event status remark changed_by now ∷ [])

pub updated_order : ℕ → Changes → Option Text → Option Text → Order → Order
updated_order now changes changed_by note current = record current {
  status = sent changes.status current.status;
  tracking = sent changes.tracking current.tracking;
  admin_note = sent changes.admin_note current.admin_note;
  device_ids = sent changes.device_ids current.device_ids;
  events = events_after now changes.status note changed_by current;
  updated_at = now;
}

pub update_order : Shop → ℕ → ℕ → Changes → Option Text → Option Text → Option (Order × Shop)
update_order r now order_id changes changed_by note = elim (lookup nat_keys r.orders order_id) [
  | none ↦ none
  | some current ↦
      let updated = updated_order now changes changed_by note current in
      some (updated, record r { orders = store nat_keys r.orders order_id updated })
]
