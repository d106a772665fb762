-- ===== src/Api/Shop/Router/History.antt =====
-- The requests of api/routers/shop.py that change orders, in any order.
use gps_tracking.Prelude.{
  ==_refl, ℕ, ◌≡◌, refl, ap, ◌∙◌, true, false, not, ◌&&◌, some, List, [], ◌∷◌, Bool-cases, inl, inr,
}
use gps_tracking.Prelude.Dict.{nat_keys, lookup, IsFresh}
use gps_tracking.Api.Account.{AuthenticatedUser}
use gps_tracking.Api.Users.{Users}
use gps_tracking.Api.Shop.{status_number, same_status, OrderCreate, Order, Shop}
use gps_tracking.Api.Shop.Router.{is_final, create_order, cancel_order}
use gps_tracking.Api.Shop.Router.Update.{OrderUpdate, update_order}
use gps_tracking.Api.Shop.Router.Standing.{Keeps, Keeps-refl, IsTold}
use gps_tracking.Api.Shop.Router.Final.{create_order-Keeps, cancel_order-Keeps, update_order-Keeps}

-- A request, with the clock's reading.
pub data Request : Type 0 where
  ordering : ℕ → OrderCreate → AuthenticatedUser → Request
  cancelling : ℕ → ℕ → AuthenticatedUser → Request
  updating : ℕ → ℕ → OrderUpdate → AuthenticatedUser → Request

pub handle : Shop × Users → Request → Shop × Users
handle (r, users) (ordering now payload u) = ((create_order r now payload u).1, users)
handle (r, users) (cancelling now order_id u) = ((cancel_order r now order_id u).1, users)
handle (r, users) (updating now order_id payload u) =
    let o = update_order r users now order_id payload u in (o.1, o.2)

pub handle_all : Shop × Users → List Request → Shop × Users
handle_all s [] = s
handle_all s (q ∷ requests) = handle_all (handle s q) requests

handle-Keeps :
    (r : Shop) (users : Users) (q : Request)
    → IsFresh r.next_order r.orders
    → Keeps r (handle (r, users) q).0
unfolding handle
handle-Keeps r users (ordering now payload u) h = create_order-Keeps r now payload u h
handle-Keeps r users (cancelling now order_id u) h = cancel_order-Keeps r now order_id u h
handle-Keeps r users (updating now order_id payload u) h =
    update_order-Keeps r users now order_id payload u h

handle_all-Keeps :
    (r : Shop) (users : Users) (requests : List Request)
    → IsFresh r.next_order r.orders
    → Keeps r (handle_all (r, users) requests).0
unfolding handle_all
handle_all-Keeps r users [] h = Keeps-refl r h
handle_all-Keeps r users (q ∷ requests) h =
    let first = handle-Keeps r users q h in
    let o = handle (r, users) q in
    let rest = handle_all-Keeps o.0 o.1 requests first.0 in
    (
      rest.0,
      λ id old e.
          let (new, e', f) = first.1 id old e in
          let (last, e'', g) = rest.1 id new e' in
          (
            last,
            e'',
            ((λ t. g.0 (f.0 t)), (λ i. g.1 (ap is_final (f.1 i) ∙ i) ∙ f.1 i), g.2 ∙ f.2),
          ),
    )

-- The customer is the same, a final status too, and the timeline ends with the status.
abbrev pub IsKept : Order → Order → Type 0
IsKept old new =
    (new.user_id ≡ old.user_id)
    × IsTold new
    × ((is_final old.status && not (same_status new.status old.status)) ≡ false)

-- While order ids are below the next one, no sequence of orders, cancellations and updates removes an
-- order, gives it to another customer, changes a status that is delivered or cancelled, or parts the
-- end of an order's timeline from its status, where they were one.
pub handle_all-IsKept :
    (r : Shop) (users : Users) (requests : List Request) (id : ℕ) (old : Order)
    → IsFresh r.next_order r.orders
    → lookup nat_keys r.orders id ≡ some old
    → IsTold old
    → (new : Order) × (lookup nat_keys (handle_all (r, users) requests).0.orders id ≡ some new)
      × IsKept old new
handle_all-IsKept r users requests id old h e t =
    let (new, e', f) = (handle_all-Keeps r users requests h).1 id old e in
    (new, e', (f.2, f.0 t, kept new (f.1)))
  where
    kept :
        (new : Order)
        → (is_final old.status ≡ true → new.status ≡ old.status)
        → (is_final old.status && not (same_status new.status old.status)) ≡ false
    kept new f = elim (Bool-cases (is_final old.status)) [
      | inr i ↦ rw i refl
      | inl i ↦ rw (i, f i, ==_refl (status_number old.status)) refl
    ]
