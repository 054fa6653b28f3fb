-- ===== src/Db/Orders/Cancel.antt =====
-- `CancelPendingOrder` and `CancelStalePendingOrders`: which orders they fail, and how many.
use mathlib.Core.Option
use router_billing.Prelude.{
  ℕ, ◌+◌, ◌≡◌, refl, Bool, true, false, ◌&&◌, some, List, [], ◌∷◌, Text, text_eq, text_eq_refl,
  text_eq-eq, text_eq_comm, subst, arith, inl, inr, Option-cases, Bool-cases, if◌then◌else◌, ◌==◌,
  All,
}
use router_billing.Prelude.Int.{ℤ, pos, ◌-ℤ◌}
use router_billing.Prelude.Table.{
  update_where, count, get, find, has_key, get-key, get-update_where,
}
use router_billing.Models.{Time, Order, OrderStatus, is_pending, after}
use router_billing.Db.{Db, ok, err, only_pending_canceled}
use router_billing.Db.Orders.{
  order_key, find_order, update_orders, failed_row, is_pending_at, cancel_pending_order, is_stale,
  cancel_stale_pending_orders,
}

-- A row that a SELECT by key finds is counted by the UPDATE with the same key.
count-get :
    {A : Type 0} (key : A → Text) (k : Text) (q : A → Bool) (t : List A) {x : A}
    → get key k t ≡ some x
    → q x ≡ true
    → (count (λ y. has_key key k y && q y) t == 0) ≡ false
unfolding get find count
count-get key k q [] e h = cc
count-get key k q (y ∷ t) {x} e h = ground (arith, count-get key k q t {x = x})

-- Of the pending orders, the UPDATE leaves those that it did not count.
count-failed :
    (cutoff : Time) (t : List Order)
    → count (λ o. is_pending o.status) t
      ≡ count (is_stale cutoff) t
        + count (λ o. is_pending o.status) (update_where (is_stale cutoff) failed_row t)
unfolding count update_where
count-failed cutoff [] = refl
count-failed cutoff (o ∷ t) = ground (arith, count-failed cutoff t)

no_stale :
    (cutoff : Time) (t : List Order)
    → All (λ o. is_stale cutoff o ≡ false) (update_where (is_stale cutoff) failed_row t)
unfolding update_where
no_stale cutoff [] = tt
no_stale cutoff (o ∷ t) = (ground arith, no_stale cutoff t)

is_pending-eq : (s : OrderStatus) → is_pending s ≡ true → s ≡ OrderStatus.pending
is_pending-eq s h = ground arith

cancel_pending_order-get :
    (number : Text) (d : Db) (o : Order)
    → find_order number d ≡ some o
    → o.status ≡ OrderStatus.pending
    → (k : Text)
    → find_order k (update_orders (is_pending_at number) failed_row d)
      ≡ (if text_eq number k then some (failed_row o) else find_order k d)
cancel_pending_order-get number d o e pending k = elim (Bool-cases (text_eq number k)) [
  | inl y ↦
      let here : find_order k d ≡ some o =
        subst (λ j. find_order j d ≡ some o) (text_eq-eq number k y) e in
      rw (
        get-update_where order_key k (is_pending_at number) failed_row d.orders (λ x. refl),
        here,
        get-key order_key number d.orders e,
        text_eq_refl number,
        pending,
        y,
      )
  | inr n ↦
      rw (get-update_where order_key k (is_pending_at number) failed_row d.orders (λ x. refl), n)
        (elim (Option-cases (find_order k d)) [
          | inl missing ↦ rw missing
          | inr (x, found) ↦
              rw (found, get-key order_key k d.orders found, text_eq_comm k number, n)
        ])
]

-- A pending order is canceled: the answer is the order as it then stands, with the status failed, and no
-- other order changes. An order with another status gives an error that names it, and nothing changes.
pub cancel_pending_order_lem :
    (number : Text) (d : Db) (o : Order)
    → find_order number d ≡ some o
    → let (r, d') = cancel_pending_order true number d in
      (r ≡ (
        if is_pending o.status
        then ok (failed_row o)
        else err (only_pending_canceled number o.status)))
      × ((k : Text)
          → find_order k d' ≡ (
              if is_pending o.status && text_eq number k
              then some (failed_row o)
              else find_order k d))
unfolding cancel_pending_order
cancel_pending_order_lem number d o e = elim (Bool-cases (is_pending o.status)) [
  | inr other ↦ (rw (e, other), λ k. rw (e, other))
  | inl pending ↦
      let some_row : (count (is_pending_at number) d.orders == 0) ≡ false =
        count-get order_key number (λ x. is_pending x.status) d.orders e pending in
      (
        rw (e, pending, some_row),
        λ k.
            rw (e, pending, some_row)
              (cancel_pending_order-get number d o e (is_pending-eq o.status pending) k),
      )
]

-- The sweep of old pending orders, for a positive age: afterwards no pending order is older than that age, the
-- answer is by how many the pending orders have become fewer, and any other order is as before.
pub cancel_stale_pending_orders_lem :
    (older_than : ℤ) (now : Time) (d : Db)
    → after older_than (pos 0) ≡ true
    → let (r, d') = cancel_stale_pending_orders true older_than now d in
      (n : ℕ) × (r ≡ ok n)
      × (count (λ o. is_pending o.status) d.orders ≡ n + count (λ o. is_pending o.status) d'.orders)
      × All (λ o. is_stale (now -ℤ older_than) o ≡ false) d'.orders
      × ((k : Text)
          → find_order k d'
            ≡ Option.map
                (λ o. if is_stale (now -ℤ older_than) o then failed_row o else o)
                (find_order k d))
unfolding cancel_stale_pending_orders
cancel_stale_pending_orders_lem older_than now d h = rw h (
  count (is_stale (now -ℤ older_than)) d.orders,
  refl,
  count-failed (now -ℤ older_than) d.orders,
  no_stale (now -ℤ older_than) d.orders,
  λ k. get-update_where order_key k (is_stale (now -ℤ older_than)) failed_row d.orders (λ x. refl),
)
