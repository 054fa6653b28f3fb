-- ===== src/Tests/Tables.antt =====
-- The theorems on devices, orders and vouchers, at the tables of `Data`.
use router_billing.Prelude.{
  List, ◌⊎◌, inl, inr, ◌*◌, ◌≡◌, refl, true, none, some, [], ◌∷◌, Text, arith, if◌then◌else◌,
}
use router_billing.Prelude.Lists.{text_eq}
use router_billing.Prelude.Int.{pos}
use router_billing.Prelude.Table.{find, get}
use router_billing.Models.{Mac, MacStatus, OrderStatus, Voucher, day_ns}
use router_billing.Db.{ok, err, voucher_used}
use router_billing.Db.Macs.{find_mac, upsert_mac, replace_mac}
use router_billing.Db.Macs.Upsert.{IsGrant, upsert_mac-IsGrant}
use router_billing.Db.Macs.Replace.{refusal, IsMoved, replace_mac-IsMoved}
use router_billing.Db.Orders.{find_order, mark_order_refunded, refunded_row}
use router_billing.Db.Orders.Refund.{IsRolledBack, mark_order_refunded-IsRolledBack}
use router_billing.Db.Orders.RoundTrip.{upsert_mac-mark_order_refunded}
use router_billing.Db.Orders.Status.{Lasts, step-Lasts}
use router_billing.Db.Vouchers.{find_voucher, redeemed_row, redeem_voucher}
use router_billing.Db.Vouchers.Redeem.{redeem_voucher-once}
use router_billing.Db.Calls.{Call, pays, revokes, upserts, step, run}
use router_billing.Db.Invariant.Accounts.{AccountCall, deletes_user}
use router_billing.Tests.Data.{
  phone, laptop, number, trade, code, early, late, phone_row, order_with, voucher, tables,
  tables-IsValid,
}

find-phone : (s : OrderStatus) → find_mac phone (tables s) ≡ some phone_row
unfolding get find text_eq
find-phone s = refl

find-number : (s : OrderStatus) → find_order number (tables s) ≡ some (order_with s)
unfolding get find text_eq
find-number s = refl

find-code : (s : OrderStatus) → find_voucher code (tables s) ≡ some voucher
unfolding get find text_eq
find-code s = refl

-- A payment, a grant, and the deletion of the user.
abbrev some_history : List (Call ⊎ AccountCall)
some_history =
    inl (pays true number trade early)
    ∷ inl (upserts true true phone [] 30 none early)
    ∷ inr (deletes_user true true 7)
    ∷ []

step-Lasts_example :
    Lasts
      (pays true number trade early)
      number
      (order_with OrderStatus.pending)
      (step (pays true number trade early) (tables OrderStatus.pending))
step-Lasts_example =
    step-Lasts (pays true number trade early) number (tables OrderStatus.pending)
      (order_with OrderStatus.pending) (find-number OrderStatus.pending)

upsert_mac-IsGrant_example :
    let (r, d') = upsert_mac true true phone [] 30 none early (tables OrderStatus.paid) in
    (m : Mac) × (r ≡ ok (some m))
    × IsGrant (find_mac phone (tables OrderStatus.paid)) phone [] 30 none early m
    × ((k : Text)
        → find_mac k d'
          ≡ (if text_eq phone k then some m else find_mac k (tables OrderStatus.paid)))
upsert_mac-IsGrant_example = upsert_mac-IsGrant phone [] 30 none early (tables OrderStatus.paid)

mark_order_refunded-IsRolledBack_example :
    let (r, d') = mark_order_refunded true number [] late (tables OrderStatus.paid) in
    (m' : Mac) × (r ≡ ok (some m'))
    × IsRolledBack 30 late phone_row m'
    × ((k : Text)
        → find_mac k d'
          ≡ (if text_eq phone k then some m' else find_mac k (tables OrderStatus.paid)))
    × ((k : Text)
        → find_order k d' ≡ (
            if text_eq number k
            then some (refunded_row [] (order_with OrderStatus.paid))
            else find_order k (tables OrderStatus.paid)))
mark_order_refunded-IsRolledBack_example =
    mark_order_refunded-IsRolledBack number [] late (tables OrderStatus.paid)
      (order_with OrderStatus.paid) phone_row (tables-IsValid OrderStatus.paid)
      (find-number OrderStatus.paid) refl (find-phone OrderStatus.paid) (omega arith)

upsert_mac-mark_order_refunded_example :
    let d1 = (upsert_mac true true phone [] 30 none early (tables OrderStatus.paid)).1 in
    let d2 = (mark_order_refunded true number [] late d1).1 in
    (m : Mac) × (m.expires_at ≡ pos (20 * day_ns))
    × (m.status ≡ MacStatus.active)
    × ((k : Text)
        → find_mac k d2
          ≡ (if text_eq phone k then some m else find_mac k (tables OrderStatus.paid)))
upsert_mac-mark_order_refunded_example =
    upsert_mac-mark_order_refunded number [] [] none early late (tables OrderStatus.paid)
      (order_with OrderStatus.paid) phone_row (tables-IsValid OrderStatus.paid)
      (find-number OrderStatus.paid) refl (omega arith) (find-phone OrderStatus.paid) refl
      (omega arith) refl

abbrev redeemed : Voucher
redeemed = redeemed_row phone none early voucher

first_redemption :
    (redeem_voucher true code phone none early (tables OrderStatus.paid)).0 ≡ ok redeemed
unfolding redeem_voucher get find text_eq
first_redemption = refl

redeem_voucher-once_example :
    let d' =
      run
        (revokes true code ∷ [])
        (redeem_voucher true code phone none early (tables OrderStatus.paid)).1 in
    redeem_voucher true code laptop (some 8) late d' ≡ (err voucher_used, d')
redeem_voucher-once_example =
    redeem_voucher-once code phone laptop none (some 8) early late (tables OrderStatus.paid)
      redeemed (revokes true code ∷ []) first_redemption

allowed :
    refusal (some phone_row) (find_mac laptop (tables OrderStatus.paid)) 7 phone laptop early ≡ none
unfolding refusal get find text_eq
allowed = refl

replace_mac-IsMoved_example :
    let (r, d') = replace_mac true true 7 phone laptop [] early (tables OrderStatus.paid) in
    (m : Mac) × (r ≡ ok (some m))
    × IsMoved phone_row 7 laptop [] m
    × ((k : Text)
        → find_mac k d' ≡ (
            if text_eq laptop k
            then some m
            else if text_eq phone k
            then none
            else find_mac k (tables OrderStatus.paid)))
replace_mac-IsMoved_example =
    replace_mac-IsMoved 7 phone laptop [] early (tables OrderStatus.paid) phone_row
      (tables-IsValid OrderStatus.paid) (find-phone OrderStatus.paid) allowed
