-- ===== src/Db/Orders/Refund.antt =====
-- `MarkOrderRefunded`: what a refund takes back, and from whom.
use router_billing.Prelude.{
  ℕ, ◌*◌, ◌≤◌, ◌≡◌, ◌≢◌, refl, true, none, some, Text, text_eq, arith, if◌then◌else◌, ◌==◌,
}
use router_billing.Prelude.Int.{pos, ◌-ℤ◌, ◌≤ℤ◌, int_laws}
use router_billing.Prelude.Keyed.{get-update_key}
use router_billing.Models.{Time, Mac, MacStatus, Order, OrderStatus, day_ns}
use router_billing.Models.Arithmetic.{minus_days-exact}
use router_billing.Db.{Db, ok, err, order_not_found, only_paid_refunded}
use router_billing.Db.Macs.{find_mac, update_macs}
use router_billing.Db.Orders.{
  order_key, find_order, update_order, refunded_row, rolled_back_mac, mark_order_refunded,
}
use router_billing.Db.Invariant.{IsValid}
use router_billing.Db.Invariant.Ids.{get-update_id}

-- The row of the device after a refund of `days`, told without the code's Duration.
pub record IsRolledBack (days : ℕ) (now : Time) (m m' : Mac) : Type 0 where
  pub same_device : m'.mac ≡ m.mac
  pub same_owner : m'.user_id ≡ m.user_id
  pub expiry : m'.expires_at ≡ m.expires_at -ℤ pos (days * day_ns)
  pub over : m'.expires_at ≤ℤ now → m'.status ≡ MacStatus.expired
  pub not_over : ¬ (m'.expires_at ≤ℤ now) → m'.status ≡ m.status

rolled_back_mac-IsRolledBack :
    (days : ℕ) (now : Time) (m : Mac)
    → days ≤ 106_751
    → IsRolledBack days now m (rolled_back_mac days now m)
rolled_back_mac-IsRolledBack days now m h = record {
  same_device = refl;
  same_owner = refl;
  expiry = rw (minus_days-exact days h) (omega int_laws);
  over = λ le. ground arith;
  not_over = λ gt. ground arith;
}

-- The call in one equation.
mark_order_refunded_lem :
    (number reason : Text) (now : Time) (d : Db) (o : Order) (m : Mac)
    → find_order number d ≡ some o
    → o.status ≡ OrderStatus.paid
    → find_mac o.mac d ≡ some m
    → let m' = rolled_back_mac o.days now m in
      mark_order_refunded true number reason now d ≡ (
        ok (some m'),
        update_macs
            (λ r. r.id == m.id)
            (λ r. record r { expires_at = m'.expires_at; status = m'.status; updated_at = now })
            (update_order number (refunded_row reason) d),
      )
unfolding mark_order_refunded
mark_order_refunded_lem number reason now d o m eo paid em = ground arith

-- A refund of a paid order whose device still exists takes the order's days off that device's
-- expiry, marks it expired if it then lies in the past, and marks the order refunded. No other
-- device and no other order changes. The days are at most 106,751.
pub mark_order_refunded-IsRolledBack :
    (number reason : Text) (now : Time) (d : Db) (o : Order) (m : Mac)
    → IsValid d
    → find_order number d ≡ some o
    → o.status ≡ OrderStatus.paid
    → find_mac o.mac d ≡ some m
    → o.days ≤ 106_751
    → let (r, d') = mark_order_refunded true number reason now d in
      (m' : Mac) × (r ≡ ok (some m'))
      × IsRolledBack o.days now m m'
      × ((k : Text) → find_mac k d' ≡ (if text_eq o.mac k then some m' else find_mac k d))
      × ((k : Text)
          → find_order k d'
            ≡ (if text_eq number k then some (refunded_row reason o) else find_order k d))
mark_order_refunded-IsRolledBack number reason now d o m v eo paid em h =
    rw (mark_order_refunded_lem number reason now d o m eo paid em) (
      rolled_back_mac o.days now m,
      refl,
      rolled_back_mac-IsRolledBack o.days now m h,
      λ k. get-update_id 0 d.mac_seq k o.mac _ d.macs v.macs_ascend (λ x. refl) em,
      λ k. get-update_key order_key k number (refunded_row reason) d.orders (λ x. refl) eo,
    )

-- Any order that is not paid cannot be refunded: an error that names its status, and no change.
pub mark_order_refunded_unpaid :
    (number reason : Text) (now : Time) (d : Db) (o : Order)
    → find_order number d ≡ some o
    → o.status ≢ OrderStatus.paid
    → mark_order_refunded true number reason now d ≡ (err (only_paid_refunded number o.status), d)
unfolding mark_order_refunded
mark_order_refunded_unpaid number reason now d o e unpaid = ground arith

-- An order that is not there: an error, and no change.
pub mark_order_refunded_missing :
    (number reason : Text) (now : Time) (d : Db)
    → find_order number d ≡ none
    → mark_order_refunded true number reason now d ≡ (err (order_not_found number), d)
unfolding mark_order_refunded
mark_order_refunded_missing number reason now d e = ground arith
