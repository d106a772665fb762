-- ===== src/Api/Shop/Router/Standing.antt =====
-- api/routers/shop.py: what the requests keep of an order.
use gps_tracking.Prelude.{
  ℕ, zero, suc, ◌≡◌, refl, sym, ap, ◌∙◌, true, Option, none, some, List, [], ◌∷◌, ◌++◌, ◌==◌,
  ==_iff, some-injective, Bool-cases, inl, inr,
}
use mathlib.Core.Path.{subst}
use gps_tracking.Prelude.Dict.{
  nat_keys, lookup, store, lookup-store_hit, lookup-store_miss, IsFresh, lookup-IsFresh_lt,
  IsFresh-store,
}
use gps_tracking.Protocol.Codec.Cell.{Text}
use gps_tracking.Api.Shop as Repository
use gps_tracking.Api.Shop.{
  OrderStatus, placed, confirmed, shipped, delivered, cancelled, status_number, same_status,
  OrderCreate, OrderEvent, Order, Shop, Changes, sent, event, events_after, placed_order, get_order,
}
use gps_tracking.Api.Shop.Router.{is_final}

abbrev pub number_status : ℕ → OrderStatus
number_status zero = placed
number_status (suc zero) = confirmed
number_status (suc (suc zero)) = shipped
number_status (suc (suc (suc zero))) = delivered
number_status (suc (suc (suc (suc n)))) = cancelled

number-status : (s : OrderStatus) → number_status (status_number s) ≡ s
number-status placed = refl
number-status confirmed = refl
number-status shipped = refl
number-status delivered = refl
number-status cancelled = refl

pub same_status→eq : (s t : OrderStatus) → same_status s t ≡ true → s ≡ t
same_status→eq s t h =
    sym (number-status s)
    ∙ ap number_status ((==_iff (status_number s) (status_number t)).0 h)
    ∙ number-status t

abbrev pub last_status : List OrderEvent → Option OrderStatus
last_status [] = none
last_status (e ∷ []) = some e.status
last_status (e ∷ f ∷ events) = last_status (f ∷ events)

last_status-append :
    (events : List OrderEvent) (e : OrderEvent) → last_status (events ++ (e ∷ [])) ≡ some e.status
last_status-append [] e = refl
last_status-append (f ∷ []) e = refl
last_status-append (f ∷ g ∷ events) e = last_status-append (g ∷ events) e

-- The timeline ends with the order's status.
abbrev pub IsTold : Order → Type 0
IsTold order = last_status order.events ≡ some order.status

pub updated_order-IsTold :
    (now : ℕ) (changes : Changes) (changed_by remark : Option Text) (order : Order)
    → IsTold order
    → IsTold (Repository.updated_order now changes changed_by remark order)
unfolding Repository.updated_order
updated_order-IsTold now changes changed_by remark order h = events-told changes.status
  where
    events-told :
        (o : Option OrderStatus)
        → last_status (events_after now o remark changed_by order) ≡ some (sent o order.status)
    events-told none = h
    events-told (some status) = elim (Bool-cases (same_status status order.status)) [
      | inl e ↦ rw e (h ∙ ap some (sym (same_status→eq status order.status e)))
      | inr e ↦ rw e (last_status-append order.events (event status remark changed_by now))
    ]

-- An order may follow another under its id.
abbrev pub Follows : Order → Order → Type 0
Follows old new =
    (IsTold old → IsTold new)
    × (is_final old.status ≡ true → new.status ≡ old.status)
    × (new.user_id ≡ old.user_id)

-- What a request keeps: the ids are told apart, and under each stands an order that may follow the one before.
abbrev pub Keeps : Shop → Shop → Type 0
Keeps r r' =
    IsFresh r'.next_order r'.orders
    × ((id : ℕ) (old : Order)
        → lookup nat_keys r.orders id ≡ some old
        → (new : Order) × (lookup nat_keys r'.orders id ≡ some new) × Follows old new)

pub Keeps-refl : (r : Shop) → IsFresh r.next_order r.orders → Keeps r r
Keeps-refl r h = (h, λ id old e. (old, e, ((λ t. t), (λ f. refl), refl)))

pub store-Keeps :
    (r : Shop) (order_id : ℕ) (old new : Order)
    → IsFresh r.next_order r.orders
    → lookup nat_keys r.orders order_id ≡ some old
    → Follows old new
    → Keeps r (record r { orders = store nat_keys r.orders order_id new })
store-Keeps r order_id old new h e f = (
  IsFresh-store r.next_order order_id new r.orders h
      (lookup-IsFresh_lt r.next_order order_id old r.orders h e),
  λ id before l. elim (Bool-cases (order_id == id)) [
    | inl same ↦
        let same' = (==_iff order_id id).0 same in
        let p : old ≡ before = some-injective (sym e ∙ ap (lookup nat_keys r.orders) same' ∙ l) in
        (
          new,
          lookup-store_hit nat_keys r.orders order_id id new same,
          subst (λ (o : Order). Follows o new) p f,
        )
    | inr differ ↦ (
      before,
      lookup-store_miss nat_keys r.orders order_id id new differ ∙ l,
      ((λ t. t), (λ g. refl), refl),
    )
  ],
)
