-- ===== src/Db/Orders/Pay.antt =====
-- `MarkOrderPaid` on each branch, and a second call of it.
use router_billing.Prelude.{
  ◌≡◌, refl, ◌∙◌, Bool, true, false, none, some, Text, text_eq, text_eq_refl, arith, inl, inr,
  Option-cases, Bool-cases, if◌then◌else◌,
}
use router_billing.Prelude.Keyed.{get-update_key}
use router_billing.Models.{Time, Order, is_paid}
use router_billing.Db.{Db, ok, err, sql_failed, order_not_found}
use router_billing.Db.Orders.{order_key, find_order, update_order, paid_row, mark_order_paid}

-- The orders after a payment of one of them.
pub find-pay_row :
    (k number trade : Text) (now : Time) (d : Db) {o : Order}
    → find_order number d ≡ some o
    → find_order k (update_order number (paid_row trade now) d)
      ≡ (if text_eq number k then some (paid_row trade now o) else find_order k d)
find-pay_row k number trade now d e =
    get-update_key order_key k number (paid_row trade now) d.orders (λ o. refl) e

-- An order that is not there: an error, and nothing changes.
pub mark_order_paid_missing :
    (number trade : Text) (now : Time) (d : Db)
    → find_order number d ≡ none
    → mark_order_paid true number trade now d ≡ (err (order_not_found number), d)
unfolding mark_order_paid
mark_order_paid_missing number trade now d e = ground arith

-- An order that is paid already: no transition, the row as it stands, and nothing changes.
pub mark_order_paid_again :
    (number trade : Text) (now : Time) (d : Db) {o : Order}
    → find_order number d ≡ some o
    → is_paid o.status ≡ true
    → mark_order_paid true number trade now d ≡ (ok (false, o), d)
unfolding mark_order_paid
mark_order_paid_again number trade now d {o} e paid = ground arith

-- Any other order becomes paid.
pub mark_order_paid_first :
    (number trade : Text) (now : Time) (d : Db) {o : Order}
    → find_order number d ≡ some o
    → is_paid o.status ≡ false
    → mark_order_paid true number trade now d
      ≡ (ok (true, paid_row trade now o), update_order number (paid_row trade now) d)
unfolding mark_order_paid
mark_order_paid_first number trade now d {o} e unpaid = ground arith

-- What SQLite does not carry out changes nothing.
pub mark_order_paid_failed :
    (number trade : Text) (now : Time) (d : Db)
    → mark_order_paid false number trade now d ≡ (err sql_failed, d)
unfolding mark_order_paid
mark_order_paid_failed number trade now d = refl

-- Of any number of calls for an order, at most the first makes the transition: after a call that
-- succeeded, another one, with whatever trade number, reports no transition, returns the order that
-- the first one left, and changes nothing.
pub mark_order_paid_twice :
    (number trade later_trade : Text) (now later : Time) (d : Db) (moved : Bool) (o : Order)
    → (mark_order_paid true number trade now d).0 ≡ ok (moved, o)
    → let d' = (mark_order_paid true number trade now d).1 in
      mark_order_paid true number later_trade later d' ≡ (ok (false, o), d')
mark_order_paid_twice number trade later_trade now later d moved o h =
    elim (Option-cases (find_order number d)) [
      | inl e ↦ absurd (ground (arith, mark_order_paid_missing number trade now d e))
      | inr (x, e) ↦ elim (Bool-cases (is_paid x.status)) [
        | inl y ↦ ground (
          arith,
          mark_order_paid_again number trade now d e y,
          mark_order_paid_again number later_trade later d e y,
        )
        | inr y ↦ ground (
          arith,
          mark_order_paid_first number trade now d e y,
          mark_order_paid_again number later_trade later
              (update_order number (paid_row trade now) d) {o = paid_row trade now x}
              (find-pay_row number number trade now d e ∙ rw (text_eq_refl number)) refl,
        )
      ]
    ]
