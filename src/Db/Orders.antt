-- ===== src/Db/Orders.antt =====
-- internal/db/db.go, the section "Orders": payment orders and their status.
pub mod RoundTrip
pub mod Pay
pub mod Refund
pub mod Status
pub mod Cancel
use router_billing.Prelude.{
  ℕ, zero, suc, ◌+◌, ◌*◌, Bool, true, false, ◌&&◌, ◌||◌, not, Option, none, some, List, [], ◌∷◌,
  ◌++◌, Text, text_eq, is_empty, ◌==◌, if◌then◌else◌, keep, take, leb, ltb,
}
use router_billing.Prelude.Int.{ℤ, pos, ◌+ℤ◌, ◌-ℤ◌}
use router_billing.Prelude.Table.{get, update_where, has_key, count, find}
use router_billing.Models.{
  Time, Mac, MacStatus, Order, OrderStatus, after, before, minus_days, is_paid, is_pending,
}
use router_billing.Db.{
  Db, Query, Result, ok, err, order_not_found, only_paid_refunded, only_pending_canceled,
  no_longer_pending, bad_older_than, unique_violation, pure, fail, reads, or_fail, ◌>>=◌, ◌>>◌,
  modify, fail_if, call,
}
use router_billing.Db.Macs.{mac_key, find_mac, update_macs}

abbrev pub order_key : Order → Text
order_key o = o.order_no

-- `SELECT … FROM orders WHERE order_no = ?`
abbrev pub find_order : Text → Db → Option Order
find_order number d = get order_key number d.orders

unfoldable pub get_order : Bool → Text → Query (Option Order)
get_order works number = call works (reads (find_order number))

abbrev pub update_orders : (Order → Bool) → (Order → Order) → Db → Db
update_orders p f d = record d { orders = update_where p f d.orders }

abbrev pub update_order : Text → (Order → Order) → Db → Db
update_order number = update_orders (has_key order_key number)

-- The row that `CreateOrder` inserts, given the caller's `models.Order`.
abbrev pub order_row : ℕ → Order → Time → Order
order_row id o now = record o {
  id = id;
  trade_no = [];
  last_queried_at = none;
  paid_at = none;
  created_at = now;
}

-- `CreateOrder`: it returns the order with the new id, which the code writes into `o.ID`.
unfoldable pub create_order : Bool → Order → Time → Query Order
create_order works o now = call works (do
  fail_if (elim (← reads (find_order o.order_no)) [ none ↦ false | some _ ↦ true ]) unique_violation
  id ← reads λ d. d.order_seq + 1
  modify λ d. record d { orders = d.orders ++ order_row id o now ∷ []; order_seq = id }
  pure (record o { id = id }))

-- `MarkOrderQueried`
unfoldable pub mark_order_queried : Bool → Text → Time → Query (Unit {0})
mark_order_queried works number now =
    call works (modify (update_order number λ o. record o { last_queried_at = some now }))

-- The UPDATE of `MarkOrderPaid`, and the same fields set on the struct that it returns.
abbrev pub paid_row : Text → Time → Order → Order
paid_row trade now o = record o { status = OrderStatus.paid; trade_no = trade; paid_at = some now }

-- What `MarkOrderPaid` does with the row that it read.
abbrev pub pay_row : Order → Text → Text → Time → Query (Bool × Order)
pay_row o number trade now =
    if is_paid o.status
    then pure (false, o)
    else (modify (update_order number (paid_row trade now)) >> pure (true, paid_row trade now o))

-- `MarkOrderPaid`: whether the status changed, and the order.
unfoldable pub mark_order_paid : Bool → Text → Text → Time → Query (Bool × Order)
mark_order_paid works number trade now = call works (do
  o ← or_fail (← reads (find_order number)) (order_not_found number)
  pay_row o number trade now)

-- `"refund: " + reason`, behind the gateway's number and a separator.
unfoldable pub refund_trade_no : Text → Text → Text
refund_trade_no trade reason =
    if is_empty reason
    then trade
    else ((if is_empty trade then [] else trade ++ (32 ∷ 124 ∷ 32 ∷ []))
        ++ ((114 ∷ 101 ∷ 102 ∷ 117 ∷ 110 ∷ 100 ∷ 58 ∷ 32 ∷ []) ++ reason))

abbrev pub refunded_row : Text → Order → Order
refunded_row reason o = record o {
  status = OrderStatus.refunded;
  trade_no = refund_trade_no o.trade_no reason;
}

-- The MAC's row after a refund of `days`.
abbrev pub rolled_back_mac : ℕ → Time → Mac → Mac
rolled_back_mac days now m =
    let expiry = m.expires_at +ℤ minus_days days in
    record m {
      expires_at = expiry;
      status = if not (after expiry now) then MacStatus.expired else m.status;
      updated_at = now;
    }

-- `UPDATE macs SET expires_at = ?, status = ?, updated_at = ? WHERE id = ?`, if the MAC still exists.
abbrev pub roll_back_mac : Option Mac → ℕ → Time → Query (Option Mac)
roll_back_mac none days now = pure none
roll_back_mac (some m) days now =
    let m' = rolled_back_mac days now m in
    modify (
      update_macs (λ r. r.id == m.id)
        (λ r. record r { expires_at = m'.expires_at; status = m'.status; updated_at = now }))
    >> pure (some m')

-- `MarkOrderRefunded`
unfoldable pub mark_order_refunded : Bool → Text → Text → Time → Query (Option Mac)
mark_order_refunded works number reason now = call works (do
  o ← or_fail (← reads (find_order number)) (order_not_found number)
  fail_if (not (is_paid o.status)) (only_paid_refunded number o.status)
  modify (update_order number (refunded_row reason))
  roll_back_mac (← reads (find_mac o.mac)) o.days now)

abbrev pub failed_row : Order → Order
failed_row o = record o { status = OrderStatus.failed }

-- `order_no = ? AND status = 'pending'`
abbrev pub is_pending_at : Text → Order → Bool
is_pending_at number o = has_key order_key number o && is_pending o.status

-- `CancelPendingOrder`, with the check of `RowsAffected`.
unfoldable pub cancel_pending_order : Bool → Text → Query Order
cancel_pending_order works number = call works (do
  o ← or_fail (← reads (find_order number)) (order_not_found number)
  fail_if (not (is_pending o.status)) (only_pending_canceled number o.status)
  n ← reads λ d. count (is_pending_at number) d.orders
  modify (update_orders (is_pending_at number) failed_row)
  fail_if (n == 0) (no_longer_pending number)
  pure (failed_row o))

-- `status = 'pending' AND created_at < ?`
abbrev pub is_stale : Time → Order → Bool
is_stale cutoff o = is_pending o.status && before o.created_at cutoff

-- `CancelStalePendingOrders`: the number of rows that it changed. `older_than` is in nanoseconds.
unfoldable pub cancel_stale_pending_orders : Bool → ℤ → Time → Query ℕ
cancel_stale_pending_orders works older_than now =
    fail_if (not (after older_than (pos 0))) bad_older_than
    >> call works (do
      let cutoff = now -ℤ older_than
      n ← reads λ d. count (is_stale cutoff) d.orders
      modify (update_orders (is_stale cutoff) failed_row)
      pure n)

-- `last_queried_at IS NULL OR last_queried_at < ?`
abbrev pub is_unqueried : Time → Option Time → Bool
is_unqueried cutoff none = true
is_unqueried cutoff (some t) = before t cutoff

-- The WHERE of `ListPendingOrdersToPoll`.
abbrev pub is_to_poll : Time → Time → Order → Bool
is_to_poll cutoff_age cutoff_stale o =
    is_pending o.status
    && (after o.created_at cutoff_age && is_unqueried cutoff_stale o.last_queried_at)
