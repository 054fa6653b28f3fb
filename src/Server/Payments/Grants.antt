-- ===== src/Server/Payments/Grants.antt =====
-- `finalizeOrder`, on an order that was not paid: what a payment gives, and what is lost when the grant fails.
use router_billing.Prelude.{
  ◌≡◌, refl, ap, ◌∙◌, Bool, true, false, some, List, [], ◌∷◌, All, ◌++◌, Text, text_eq, arith,
  if◌then◌else◌,
}
use router_billing.Models.{Time, Mac, Order, is_paid}
use router_billing.Db.{ok, err, sql_failed}
use router_billing.Db.Macs.{find_mac, upsert_mac}
use router_billing.Db.Macs.Upsert.{IsGrant, upsert_mac-IsGrant, upsert_mac-orders}
use router_billing.Db.Orders.{find_order, update_order, paid_row}
use router_billing.Db.Orders.Status.{is_refund_of}
use router_billing.Db.Calls.{Call, run}
use router_billing.Db.Orders.Pay.{find-pay_row}
use router_billing.Firewall.{Nft, add}
use router_billing.Service.{Router, paid_label, grant_from_order}
use router_billing.Server.{App}
use router_billing.Server.Wait.{signal_order}
use router_billing.Server.Payments.{Faults, finalize_order, pay_event}
use router_billing.Server.Payments.Once.{
  announced, settle-ok, settle-err, announced-router, finalize_order-first, finalize_order-row,
  finalize_order_twice,
}

module _ (n : Nft) where
  -- A grant whose steps all succeed.
  grant_from_order-ok :
      (o : Order) (now : Time) (r : Router n.State) (m : Mac)
      → (upsert_mac true true o.mac (paid_label o.plan) o.days o.user_id now r.db).0 ≡ ok (some m)
      → m.mac ≡ o.mac
      → (add n o.mac r.set).0 ≡ ok tt
      → grant_from_order n true true o now r ≡ (
        ok tt,
        record {
          db = (upsert_mac true true o.mac (paid_label o.plan) o.days o.user_id now r.db).1;
          set = (add n o.mac r.set).1;
        },
      )
  unfolding grant_from_order
  grant_from_order-ok o now r m up device added = ground arith

  grant_from_order-fails :
      (reread : Bool) (o : Order) (now : Time) (r : Router n.State)
      → grant_from_order n false reread o now r ≡ (err sql_failed, r)
  unfolding grant_from_order upsert_mac
  grant_from_order-fails reread o now r = refl

  announced-events :
      (writes : Bool) (o : Order) (number : Text) (a : App n.State)
      → (announced n writes o number a).events ≡ a.events ++ pay_event o ∷ []
  unfolding signal_order
  announced-events true o number a = refl
  announced-events false o number a = refl

  -- The state after the mark and the grant.
  abbrev settled : Text → Text → Time → Order → App n.State → App n.State
  settled number trade now o a = record a {
    router = record {
      db =
          (upsert_mac true true o.mac (paid_label o.plan) o.days o.user_id now
            (update_order number (paid_row trade now) a.router.db)).1;
      set = (add n o.mac a.router.set).1;
    };
  }

  finalize_order-ok :
      (w : Faults) (number trade : Text) (now : Time) (a : App n.State) (o : Order) (m : Mac)
      → find_order number a.router.db ≡ some o
      → is_paid o.status ≡ false
      → w.pays ≡ true
      → w.grants ≡ true
      → w.rereads ≡ true
      → (upsert_mac true true o.mac
          (paid_label o.plan)
          o.days
          o.user_id
          now
          (update_order number (paid_row trade now) a.router.db)).0
        ≡ ok (some m)
      → m.mac ≡ o.mac
      → (add n o.mac a.router.set).0 ≡ ok tt
      → finalize_order n w number trade now a
        ≡ (ok tt, announced n w.audits (paid_row trade now o) number (settled number trade now o a))
  finalize_order-ok w number trade now a o m e unpaid pays grants rereads up device added =
      let r : Router n.State = record (a.router) {
        db = update_order number (paid_row trade now) a.router.db;
      } in
      let ran = grant_from_order-ok (paid_row trade now o) now r m up device added in
      finalize_order-first n w number trade now a o pays e unpaid
      ∙ settle-ok n w (paid_row trade now o) number now (record a { router = r })
          (rw (grants, rereads) (ap (λ z. z.0) ran))
      ∙ rw (grants, rereads, ran)

  -- The first report of a payment, with the database and the firewall working: the device has the order's
  -- days added to its paid time and is put in the firewall's set, the order is paid, and the
  -- event is sent. No other device and no other order changes.
  pub finalize_order_lem :
      (w : Faults) (number trade : Text) (now : Time) (a : App n.State) (o : Order)
      → find_order number a.router.db ≡ some o
      → is_paid o.status ≡ false
      → w.pays ≡ true
      → w.grants ≡ true
      → w.rereads ≡ true
      → (add n o.mac a.router.set).0 ≡ ok tt
      → let (r, a') = finalize_order n w number trade now a in
        (r ≡ ok tt)
        × ((m : Mac) × IsGrant
              (find_mac o.mac a.router.db)
              o.mac
              (paid_label o.plan)
              o.days
              o.user_id
              now
              m
            × ((k : Text)
                → find_mac k a'.router.db
                  ≡ (if text_eq o.mac k then some m else find_mac k a.router.db)))
        × ((k : Text)
            → find_order k a'.router.db ≡ (
                if text_eq number k then some (paid_row trade now o) else find_order k a.router.db))
        × (a'.router.set ≡ (add n o.mac a.router.set).1)
        × (a'.events ≡ a.events ++ pay_event (paid_row trade now o) ∷ [])
  finalize_order_lem w number trade now a o e unpaid pays grants rereads added =
      let d = update_order number (paid_row trade now) a.router.db in
      let (m, up, granted, rows) =
        upsert_mac-IsGrant o.mac (paid_label o.plan) o.days o.user_id now d in
      let runs =
        finalize_order-ok w number trade now a o m e unpaid pays grants rereads up
          granted.same_device added in
      rw
        (
          runs,
          announced-router n w.audits (paid_row trade now o) number (settled number trade now o a),
          announced-events w.audits (paid_row trade now o) number (settled number trade now o a),
        )
        (
          refl,
          (m, granted, rows),
          λ k.
              rw (upsert_mac-orders true true o.mac (paid_label o.plan) o.days o.user_id now d)
                (find-pay_row k number trade now a.router.db e),
          refl,
          refl,
        )

  -- A payment whose grant the database does not carry out: the answer is the error, the order is paid all
  -- the same, no device and not the firewall's set has changed, and another report of the order is
  -- answered with success and does not grant the days either. So it is after any of the calls on devices,
  -- orders, vouchers and sessions in between, as long as none of them refunds this order.
  pub finalize_order-lost :
      (w w' : Faults) (number trade trade' : Text) (now now' : Time) (a later : App n.State)
      (o : Order) (cs : List Call)
      → find_order number a.router.db ≡ some o
      → is_paid o.status ≡ false
      → w.pays ≡ true
      → w.grants ≡ false
      → w'.pays ≡ true
      → All (λ c. is_refund_of number c ≡ false) cs
      → later.router.db ≡ run cs (finalize_order n w number trade now a).1.router.db
      → let (r, a') = finalize_order n w number trade now a in
        (r ≡ err sql_failed)
        × (find_order number a'.router.db ≡ some (paid_row trade now o))
        × (a'.router.set ≡ a.router.set)
        × ((k : Text) → find_mac k a'.router.db ≡ find_mac k a.router.db)
        × (finalize_order n w' number trade' now' later ≡ (ok tt, later))
  finalize_order-lost w w' number trade trade' now now' a later o cs e unpaid pays lost pays' other
        since =
      let r : Router n.State = record (a.router) {
        db = update_order number (paid_row trade now) a.router.db;
      } in
      let stopped = grant_from_order-fails w.rereads (paid_row trade now o) now r in
      let runs : finalize_order n w number trade now a ≡ (err sql_failed, record a { router = r }) =
        finalize_order-first n w number trade now a o pays e unpaid
        ∙ settle-err n w (paid_row trade now o) number now (record a { router = r }) sql_failed
            (rw lost (ap (λ z. z.0) stopped))
        ∙ rw (lost, stopped) in
      (
        ap (λ z. z.0) runs,
        finalize_order-row n w number trade now a o e pays unpaid,
        ap (λ z. z.1.router.set) runs,
        λ k. ap (λ z. find_mac k z.1.router.db) runs,
        finalize_order_twice n w w' number trade trade' now now' a later o cs e pays pays' other
            since,
      )
