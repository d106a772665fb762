-- ===== src/Api/Shop/Router/Final.antt =====
-- The handlers of api/routers/shop.py that change orders, one by one.
use gps_tracking.Prelude.{
  ℕ, ◌+◌, ◌≡◌, refl, ◌∙◌, true, false, not, ◌&&◌, Option, none, some, ◌==◌, Option-cases, arith,
  Bool-cases, inl, inr,
}
use gps_tracking.Prelude.Dict.{
  nat_keys, lookup, store, lookup-store_miss, IsFresh, lookup-IsFresh_lt, IsFresh-store,
  IsFresh-suc,
}
use gps_tracking.Protocol.Codec.Cell.{Text}
use gps_tracking.Api.Http.{
  Reply, ok, bad_request, unauthorized, forbidden, not_found, conflict, too_many_requests,
}
use gps_tracking.Api.Account.{AuthenticatedUser, is_admin}
use gps_tracking.Api.Users.{Users}
use gps_tracking.Api.Shop as Repository
use gps_tracking.Api.Shop.{
  OrderStatus, placed, confirmed, shipped, delivered, cancelled, same_status, OrderCreate, Order,
  Shop, Changes, sent, placed_order,
}
use gps_tracking.Api.Shop.Router.{
  is_final, is_claiming, may_cancel, cancellation, create_order, visible_order, cancel_order,
}
use gps_tracking.Api.Shop.Router.Update.{
  OrderUpdate, to_claim, claim_all, distinct_changes, update_order, new_status, new_devices,
  store_update, claim_then, update_found,
}
use gps_tracking.Api.Shop.Router.Standing.{
  same_status→eq, Follows, Keeps, Keeps-refl, store-Keeps, updated_order-IsTold,
}

may_cancel-open :
    (u : AuthenticatedUser) (status : OrderStatus)
    → may_cancel u status ≡ true
    → is_final status ≡ false
unfolding may_cancel
may_cancel-open u placed c = refl
may_cancel-open u confirmed c = refl
may_cancel-open u shipped c = refl
may_cancel-open u delivered c = ground (arith, c)
may_cancel-open u cancelled c = ground (arith, c)

updated_order-Follows :
    (now : ℕ) (changes : Changes) (changed_by remark : Option Text) (order : Order)
    → (not (same_status (sent changes.status order.status) order.status) && is_final order.status)
      ≡ false
    → Follows order (Repository.updated_order now changes changed_by remark order)
unfolding Repository.updated_order
updated_order-Follows now changes changed_by remark order g = (
  updated_order-IsTold now changes changed_by remark order,
  (λ f. same_status→eq (sent changes.status order.status) order.status (ground (arith, g, f))),
  refl,
)

update-Keeps :
    (r : Shop) (now order_id : ℕ) (changes : Changes) (changed_by remark : Option Text)
    (order : Order)
    → IsFresh r.next_order r.orders
    → lookup nat_keys r.orders order_id ≡ some order
    → (not (same_status (sent changes.status order.status) order.status) && is_final order.status)
      ≡ false
    → Keeps r (record r {
      orders =
          store nat_keys r.orders order_id
            (Repository.updated_order now changes changed_by remark order);
    })
update-Keeps r now order_id changes changed_by remark order h e g =
    store-Keeps r order_id order (Repository.updated_order now changes changed_by remark order) h e
      (updated_order-Follows now changes changed_by remark order g)

pub create_order-Keeps :
    (r : Shop) (now : ℕ) (payload : OrderCreate) (u : AuthenticatedUser)
    → IsFresh r.next_order r.orders
    → Keeps r (create_order r now payload u).1
unfolding create_order Repository.create_order Repository.get_product
create_order-Keeps r now payload u h =
    elim (Option-cases (lookup nat_keys r.products payload.product_id)) [
      | inl n ↦ rw (create_order, Repository.get_product, n) (Keeps-refl r h)
      | inr (product, n) ↦ elim (Bool-cases product.active) [
        | inr a ↦ rw (create_order, Repository.get_product, n, a) (Keeps-refl r h)
        | inl a ↦
            let new = placed_order r.next_order now u.id u.username product payload in
            rw (create_order, Repository.get_product, n, a)
              (
                IsFresh-store (r.next_order + 1) r.next_order new r.orders
                    (IsFresh-suc r.next_order r.orders h) (omega arith),
                λ id old e. (
                  old,
                  lookup-store_miss nat_keys r.orders r.next_order id new
                        (ground (arith, lookup-IsFresh_lt r.next_order id old r.orders h e))
                      ∙ e,
                  ((λ t. t), (λ f. refl), refl),
                ),
              )
      ]
    ]

pub cancel_order-Keeps :
    (r : Shop) (now order_id : ℕ) (u : AuthenticatedUser)
    → IsFresh r.next_order r.orders
    → Keeps r (cancel_order r now order_id u).1
unfolding cancel_order visible_order may_cancel Repository.get_order Repository.update_order
cancel_order-Keeps r now order_id u h = elim (Option-cases (lookup nat_keys r.orders order_id)) [
  | inl n ↦ rw (cancel_order, visible_order, Repository.get_order, n) (Keeps-refl r h)
  | inr (order, n) ↦ elim (Bool-cases (not (is_admin u) && not (order.user_id == u.id))) [
    | inl a ↦ rw (cancel_order, visible_order, Repository.get_order, n, a) (Keeps-refl r h)
    | inr a ↦ elim (Bool-cases (same_status order.status cancelled)) [
      | inl b ↦ rw (cancel_order, visible_order, Repository.get_order, n, a, b) (Keeps-refl r h)
      | inr b ↦ elim (Bool-cases (may_cancel u order.status)) [
        | inr c ↦
            rw (cancel_order, visible_order, Repository.get_order, n, a, b, c) (Keeps-refl r h)
        | inl c ↦
            rw
              (
                cancel_order, visible_order, Repository.get_order, n, a, b, c,
                Repository.update_order, n,
              )
              (update-Keeps r now order_id cancellation (some u.username) none order h n
                (ground (arith, may_cancel-open u order.status c)))
      ]
    ]
  ]
]

claimed-Keeps :
    (r : Shop) (now order_id : ℕ) (payload : OrderUpdate) (u : AuthenticatedUser)
    (c : Reply Unit × Users)
    → Keeps r r
    → ((users : Users) → Keeps r (store_update r users now order_id payload u).1)
    → Keeps r (claim_then r now order_id payload u c).1
claimed-Keeps r now order_id payload u (ok done, users) k d = d users
claimed-Keeps r now order_id payload u (bad_request, users) k d = k
claimed-Keeps r now order_id payload u (unauthorized, users) k d = k
claimed-Keeps r now order_id payload u (forbidden, users) k d = k
claimed-Keeps r now order_id payload u (not_found, users) k d = k
claimed-Keeps r now order_id payload u (conflict, users) k d = k
claimed-Keeps r now order_id payload u (too_many_requests wait, users) k d = k

pub update_order-Keeps :
    (r : Shop) (users : Users) (now order_id : ℕ) (payload : OrderUpdate) (u : AuthenticatedUser)
    → IsFresh r.next_order r.orders
    → Keeps r (update_order r users now order_id payload u).1
unfolding update_order Repository.get_order Repository.update_order
update_order-Keeps r users now order_id payload u h =
    elim (Option-cases (lookup nat_keys r.orders order_id)) [
      | inl n ↦ rw (update_order, Repository.get_order, n) (Keeps-refl r h)
      | inr (order, n) ↦
          elim (Bool-cases
            (not (same_status (new_status payload order) order.status) && is_final order.status)) [
              | inl a ↦ rw (update_order, Repository.get_order, n, update_found, a) (Keeps-refl r h)
              | inr a ↦
                  let done =
                    update-Keeps r now order_id (distinct_changes payload.changes) (some u.username)
                      payload.note order h n a in
                  elim (Bool-cases (is_claiming (new_status payload order))) [
                    | inr c ↦
                        rw
                          (
                            update_order, Repository.get_order, n, update_found, a, c,
                            Repository.update_order, n,
                          )
                          done
                    | inl c ↦
                        elim (Option-cases
                          (to_claim users order.user_id (new_devices payload order))) [
                            | inl m ↦
                                rw (update_order, Repository.get_order, n, update_found, a, c, m)
                                  (Keeps-refl r h)
                            | inr (cs, m) ↦
                                rw (update_order, Repository.get_order, n, update_found, a, c, m)
                                  (claimed-Keeps r now order_id payload u
                                    (claim_all users order.user_id cs) (Keeps-refl r h)
                                    (λ users'. rw (Repository.update_order, n) done))
                          ]
                  ]
            ]
    ]
