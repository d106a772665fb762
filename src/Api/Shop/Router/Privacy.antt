-- ===== src/Api/Shop/Router/Privacy.antt =====
-- What api/routers/shop.py shows a customer of the orders.
use gps_tracking.Prelude.{
  ℕ, ◌≡◌, refl, ◌&&◌, true, false, Option, none, some, List, [], ◌∷◌, map, ◌==◌, ==_iff, arith,
  Bool-cases, Option-cases, inl, inr, All, All-take, keep, keep-All, Bool, ◌⊎◌,
}
use gps_tracking.Prelude.Sorting.{sorted, sorted-All}
use gps_tracking.Prelude.Dict.{nat_keys, lookup}
use gps_tracking.Api.Http.{Reply, ok, not_found}
use gps_tracking.Api.Account.{AuthenticatedUser, is_admin}
use gps_tracking.Api.Shop as Repository
use gps_tracking.Api.Shop.{OrderStatus, Order, Shop, newer, same_status, or_any, values}
use gps_tracking.Api.Shop.Router.{shown_to, visible_order, list_orders, get_order}

-- An order that a customer may see, the way it is shown.
abbrev pub IsOwn : AuthenticatedUser → Order → Type 0
IsOwn u o = (o.user_id ≡ u.id) × (o.admin_note ≡ none)

abbrev pub selected : AuthenticatedUser → Option OrderStatus → Order → Bool
selected u status o =
    or_any (some u.id) (λ (k : ℕ). o.user_id == k)
    && or_any status (λ (s : OrderStatus). same_status o.status s)

shown_to-IsOwn :
    (u : AuthenticatedUser) (status : Option OrderStatus) (orders : List Order)
    → is_admin u ≡ false
    → All (λ (o : Order). selected u status o ≡ true) orders
    → All (IsOwn u) (map (shown_to u) orders)
unfolding shown_to
shown_to-IsOwn u status [] a h = tt
shown_to-IsOwn u status (o ∷ orders) a h = (
  rw (shown_to, a) ((==_iff o.user_id u.id).0 (ground (arith, h.0)), refl),
  shown_to-IsOwn u status orders a h.1,
)

list_orders-IsOwn :
    (r : Shop) (status : Option OrderStatus) (u : AuthenticatedUser)
    → is_admin u ≡ false
    → All (IsOwn u) (list_orders r status u)
unfolding list_orders Repository.list_orders
list_orders-IsOwn r status u a =
    rw (list_orders, a)
      (shown_to-IsOwn u status (Repository.list_orders r (some u.id) status 200) a (
        All-take (λ (o : Order). selected u status o ≡ true) 200
          (sorted newer (keep (selected u status) (values r.orders)))
          (sorted-All newer (λ (o : Order). selected u status o ≡ true)
            (keep (selected u status) (values r.orders))
            (keep-All (selected u status) (values r.orders)))))

-- An answer that shows at most the customer's own order.
abbrev pub ShowsOwn : AuthenticatedUser → Reply Order → Type 0
ShowsOwn u reply = (reply ≡ not_found) ⊎ ((o : Order) × (reply ≡ ok o) × IsOwn u o)

get_order-ShowsOwn :
    (r : Shop) (order_id : ℕ) (u : AuthenticatedUser)
    → is_admin u ≡ false
    → ShowsOwn u (get_order r order_id u)
unfolding get_order visible_order Repository.get_order shown_to
get_order-ShowsOwn r order_id u a = elim (Option-cases (lookup nat_keys r.orders order_id)) [
  | inl n ↦ rw (get_order, visible_order, Repository.get_order, n) (inl refl)
  | inr (o, n) ↦ elim (Bool-cases (o.user_id == u.id)) [
    | inr e ↦ rw (get_order, visible_order, Repository.get_order, n, a, e) (inl refl)
    | inl e ↦
        rw (get_order, visible_order, Repository.get_order, n, a, e)
          (inr (
            record o { admin_note = none },
            rw (shown_to, a) refl,
            ((==_iff o.user_id u.id).0 e, refl),
          ))
  ]
]

-- A customer who is no administrator is listed, and is shown by id, no order but their own, and no
-- admin note.
pub orders-IsOwn :
    (r : Shop) (status : Option OrderStatus) (order_id : ℕ) (u : AuthenticatedUser)
    → is_admin u ≡ false
    → All (IsOwn u) (list_orders r status u) × ShowsOwn u (get_order r order_id u)
orders-IsOwn r status order_id u a =
    (list_orders-IsOwn r status u a, get_order-ShowsOwn r order_id u a)
