-- ===== src/Db/Orders/RoundTrip.antt =====
-- A grant and its refund: together they leave the device with the time that it had.
use router_billing.Prelude.{
  ℕ, ◌*◌, ◌≤◌, ◌≡◌, ap, subst, ◌∙◌, true, Option, some, Text, text_eq, text_eq_refl, arith,
  if◌then◌else◌,
}
use router_billing.Prelude.Int.{pos, ◌-ℤ◌, ◌≤ℤ◌, +ℤ_cancel}
use router_billing.Models.{Time, Mac, MacStatus, Order, OrderStatus, after, add_days, day_ns}
use router_billing.Db.{Db}
use router_billing.Db.Macs.{find_mac, upsert_mac}
use router_billing.Db.Macs.Upsert.{upsert_mac-IsGrant, upsert_mac-orders, latest, paid_until}
use router_billing.Db.Orders.{find_order, mark_order_refunded}
use router_billing.Db.Orders.Refund.{mark_order_refunded-IsRolledBack}
use router_billing.Db.Invariant.{IsValid}
use router_billing.Db.Invariant.Steps.{upsert_mac-IsValid}

-- The time of a device that is still paid for.
paid_for :
    (old : Mac) (now : Time)
    → old.status ≡ MacStatus.active
    → now ≤ℤ old.expires_at
    → latest now (paid_until (some old) now) ≡ old.expires_at
paid_for old now active paid = ground arith

-- Adding days and taking them off again.
add_days-off : (t : Time) (days : ℕ) → add_days t days -ℤ pos (days * day_ns) ≡ t
unfolding add_days
add_days-off t days = +ℤ_cancel t (pos (days * day_ns))

-- The days of an order are granted to an active device that is still paid for, and later refunded, while
-- what the device had before is still running: then it is active, and has the expiry that it had
-- before the grant, and the other devices have not changed. The days are at most 106,751.
pub upsert_mac-mark_order_refunded :
    (number label reason : Text) (owner : Option ℕ) (now later : Time) (d : Db) (o : Order)
    (old : Mac)
    → IsValid d
    → find_order number d ≡ some o
    → o.status ≡ OrderStatus.paid
    → o.days ≤ 106_751
    → find_mac o.mac d ≡ some old
    → old.status ≡ MacStatus.active
    → now ≤ℤ old.expires_at
    → after old.expires_at later ≡ true
    → let d1 = (upsert_mac true true o.mac label o.days owner now d).1 in
      let d2 = (mark_order_refunded true number reason later d1).1 in
      (m : Mac) × (m.expires_at ≡ old.expires_at)
      × (m.status ≡ MacStatus.active)
      × ((k : Text) → find_mac k d2 ≡ (if text_eq o.mac k then some m else find_mac k d))
upsert_mac-mark_order_refunded number label reason owner now later d o old v eo paid h em active
      early still =
    let (m1, done, grant, rows) = upsert_mac-IsGrant o.mac label o.days owner now d in
    let d1 = (upsert_mac true true o.mac label o.days owner now d).1 in
    let (m2, back, rolled, rows2, orders2) =
      mark_order_refunded-IsRolledBack number reason later d1 o m1
        (upsert_mac-IsValid true true o.mac label o.days owner now d v)
        (rw (upsert_mac-orders true true o.mac label o.days owner now d) eo) paid
        (rows o.mac ∙ rw (text_eq_refl o.mac)) h in
    let same : m2.expires_at ≡ old.expires_at =
      rolled.expiry
      ∙ ap (λ t. t -ℤ pos (o.days * day_ns))
          (grant.expiry ∙ rw em (ap (λ t. add_days t o.days) (paid_for old now active early)))
      ∙ add_days-off old.expires_at o.days in
    let runs : ¬ (m2.expires_at ≤ℤ later) = λ over.
      let over' : old.expires_at ≤ℤ later = subst (λ t. t ≤ℤ later) same over in ground arith in
    (m2, same, rolled.not_over runs ∙ grant.online, λ k. rows2 k ∙ rw (rows k) (ground arith))
