-- ===== src/Api/ShopTests.antt =====
-- Runs of the shop and of the alerts.
use gps_tracking.Prelude.{
  ℕ, ◌≡◌, refl, true, false, none, some, [], ◌∷◌, map, length, arith, keep, ltb, All,
}
use gps_tracking.Prelude.Dict.{nat_keys, lookup}
use gps_tracking.Protocol.Codec.Cell.{Text}
use gps_tracking.Api.Account.{admin, user, AuthenticatedUser}
use gps_tracking.Api.Users.{new_users}
use gps_tracking.Api.Shop.{placed, shipped, Delivery, Order, Shop, new_shop, get_order}
use gps_tracking.Api.Shop.Router as Shop_router
use gps_tracking.Api.Shop.Router.Update.{OrderUpdate, update_order}
use gps_tracking.Api.Shop.Router.Claiming.{Outcome, update_order-outcome}
use gps_tracking.Api.Shop.Router.History.{
  cancelling, updating, handle_all, IsKept, handle_all-IsKept,
}
use gps_tracking.Api.Shop.Router.Privacy.{IsOwn, ShowsOwn, orders-IsOwn}
use gps_tracking.Api.Alerts.{overspeed, Row, Alerts, Query, visible}
use gps_tracking.Api.Alerts.Router as Alert_router
use gps_tracking.Api.Alerts.Router.{viewer_of}
use gps_tracking.Api.Alerts.Router.Paging.{
  read_pages, pages_of, total_of, all_matching, list_alerts-pages,
}
use gps_tracking.Api.Alerts.Router.Marking.{mark_after, mark_seen-unread}

abbrev bob : Text
bob = b'b' ∷ b'o' ∷ b'b' ∷ []

abbrev car : Text
car = b'8' ∷ b'6' ∷ []

abbrev customer : AuthenticatedUser
customer = record {
  id = 2;
  username = bob;
  role = user;
  is_active = true;
  devices = car ∷ [];
  geofence_enabled = false;
}

abbrev office : AuthenticatedUser
office = record customer { id = 1; role = admin }

abbrev home : Delivery
home = record {
  contact_name = bob;
  phone = car;
  address = bob;
  city = bob;
  state = none;
  pincode = car;
  notes = none;
}

abbrev waiting_order : Order
waiting_order = record {
  id = 1;
  user_id = 2;
  username = bob;
  product_id = 1;
  product_name = car;
  unit_price = 250000;
  quantity = 1;
  total = 250000;
  delivery = home;
  status = placed;
  tracking = none;
  admin_note = some bob;
  device_ids = [];
  created_at = 5;
  updated_at = 5;
  events = record { status = placed; note = none; changed_by = some bob; changed_at = 5 } ∷ [];
}

abbrev open_shop : Shop
open_shop = record new_shop { orders = (1, waiting_order) ∷ []; next_order = 2 }

-- Shipped, with one tracker that was typed twice.
abbrev shipment : OrderUpdate
shipment = record {
  changes = record {
    status = some shipped;
    tracking = none;
    admin_note = none;
    device_ids = some (car ∷ car ∷ []);
  };
  note = none;
}

its_order : get_order open_shop 1 ≡ some waiting_order
unfolding get_order lookup
its_order = refl

update_order-outcome_example :
    Outcome open_shop new_users 1 office waiting_order car
      (update_order open_shop new_users 9 1 shipment office)
update_order-outcome_example =
    update_order-outcome open_shop new_users 9 1 shipment office waiting_order car its_order tt

stored_order : lookup nat_keys open_shop.orders 1 ≡ some waiting_order
unfolding lookup
stored_order = refl

handle_all-IsKept_example :
    (new : Order) × (lookup nat_keys
        (handle_all
          (open_shop, new_users)
          (updating 9 1 shipment office ∷ cancelling 10 1 customer ∷ [])).0.orders
        1
      ≡ some new)
    × IsKept waiting_order new
handle_all-IsKept_example =
    handle_all-IsKept open_shop new_users
      (updating 9 1 shipment office ∷ cancelling 10 1 customer ∷ []) 1 waiting_order
      (omega arith, tt) stored_order refl

orders-IsOwn_example :
    All (IsOwn customer) (Shop_router.list_orders open_shop none customer)
    × ShowsOwn customer (Shop_router.get_order open_shop 1 customer)
orders-IsOwn_example = orders-IsOwn open_shop none 1 customer refl

abbrev speeding : ℕ → ℕ → Row
speeding id at = record {
  alert = record {
    id = id;
    device_id = car;
    kind = overspeed;
    occurred_at = at;
    details = record {
      latitude = none;
      longitude = none;
      speed_kmh = some 95;
      from_kmh = none;
      limit_kmh = some 80;
      geofence_id = none;
      geofence_name = none;
    };
  };
  owner_id = none;
}

abbrev history : Alerts
history = record {
  alerts = speeding 1 10 ∷ speeding 2 30 ∷ speeding 3 20 ∷ [];
  next_id = 4;
  limits = [];
  seen = λ id. none;
}

abbrev everything : Query
everything = record { device_id = none; kinds = none; since = none; until = none; after_id = none }

list_alerts-pages_example :
    (read_pages history customer everything 2 0
        (pages_of (Alert_router.list_alerts history customer everything 1 2))
      ≡ map (λ (x : Row). x.alert) (all_matching history customer everything 2))
    × (total_of (Alert_router.list_alerts history customer everything 1 2)
        ≡ length (all_matching history customer everything 2))
list_alerts-pages_example = list_alerts-pages history customer everything 2 1 refl (omega arith)

mark_seen-unread_example :
    Alert_router.unread (Alert_router.mark_seen history customer 2).1 customer ≡ (
      length (
          keep
            (λ (x : Row). ltb (mark_after history.seen customer.id 2 customer.id) x.alert.id)
            (visible history (viewer_of customer))),
      mark_after history.seen customer.id 2 customer.id,
    )
mark_seen-unread_example = mark_seen-unread history customer customer 2
