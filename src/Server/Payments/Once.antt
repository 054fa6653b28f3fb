-- ===== src/Server/Payments/Once.antt =====
-- `finalizeOrder`: a payment is settled once, and what a settled payment leaves.
use router_billing.Prelude.{
  ◌≡◌, refl, ap, Bool, true, false, some, List, All, Text, text_eq_refl, arith, inl, inr,
  Bool-cases,
}
use router_billing.Models.{Time, Order, is_paid}
use router_billing.Db.{Db, Query, Result, ok, err, Error, Result-cases}
use router_billing.Db.Macs.{upsert_mac}
use router_billing.Db.Macs.Upsert.{upsert_mac-orders}
use router_billing.Db.Orders.{find_order, update_order, paid_row, mark_order_paid}
use router_billing.Db.Orders.Status.{is_refund_of, run-is_paid}
use router_billing.Db.Calls.{Call, run}
use router_billing.Db.Orders.Pay.{mark_order_paid_first, mark_order_paid_again, find-pay_row}
use router_billing.Firewall.{Nft}
use router_billing.Service.{Router, Action, paid_label, grant_from_order}
use router_billing.Server.{App, Handler, audit, send, query, service, ◌>>=◌}
use router_billing.Server.Wait.{signal_order}
use router_billing.Server.Payments.{Faults, announce, settle, finalize_order, pay_audit, pay_event}

-- What a handler does after a call of the database whose outcome is known.
query-bind :
    {S A B : Type 0} (q : Query A) (f : A → Handler S B) (a : App S) (x : A) (d : Db)
    → q a.router.db ≡ (ok x, d)
    → (query q >>= f) a ≡ f x (record a { router = record (a.router) { db = d } })
query-bind {S} {A} {B} q f a x d e =
    ap
      (λ (p : Result A × Db). elim p.0 as (λ _. Result B × App S) [
        | ok y ↦ f y (record a { router = record (a.router) { db = p.1 } })
        | err e ↦ (err e, record a { router = record (a.router) { db = p.1 } })
      ])
      e

service-bind :
    {S A B : Type 0} (m : Action S A) (f : A → Handler S B) (a : App S) (x : Result A)
    → (m a.router).0 ≡ x
    → (service m >>= f) a ≡ elim x as (λ _. Result B × App S) [
      | ok y ↦ f y (record a { router = (m a.router).1 })
      | err e ↦ (err e, record a { router = (m a.router).1 })
    ]
service-bind {S} {A} {B} m f a x e =
    ap
      (λ (z : Result A). elim z as (λ _. Result B × App S) [
        | ok y ↦ f y (record a { router = (m a.router).1 })
        | err e ↦ (err e, record a { router = (m a.router).1 })
      ])
      e

module _ (n : Nft) where
  -- What `finalizeOrder` does after a grant that went through.
  abbrev pub announced : Bool → Order → Text → App n.State → App n.State
  announced writes o number a =
      send (pay_event o) (audit writes (pay_audit o) (signal_order number a))

  pub settle-ok :
      (w : Faults) (o : Order) (number : Text) (now : Time) (a : App n.State)
      → (grant_from_order n w.grants w.rereads o now a.router).0 ≡ ok tt
      → settle n w (true, o) number now a ≡ (
        ok tt,
        announced w.audits o number
            (record a { router = (grant_from_order n w.grants w.rereads o now a.router).1 }),
      )
  settle-ok w o number now a h =
      service-bind (grant_from_order n w.grants w.rereads o now) (λ _. announce n w.audits o number)
        a (ok tt) h

  pub settle-err :
      (w : Faults) (o : Order) (number : Text) (now : Time) (a : App n.State) (e : Error)
      → (grant_from_order n w.grants w.rereads o now a.router).0 ≡ err e
      → settle n w (true, o) number now a
        ≡ (err e, record a { router = (grant_from_order n w.grants w.rereads o now a.router).1 })
  settle-err w o number now a e h =
      service-bind (grant_from_order n w.grants w.rereads o now) (λ _. announce n w.audits o number)
        a (err e) h

  pub announced-router :
      (writes : Bool) (o : Order) (number : Text) (a : App n.State)
      → (announced writes o number a).router ≡ a.router
  unfolding signal_order
  announced-router true o number a = refl
  announced-router false o number a = refl

  -- A grant writes what `UpsertMAC` writes.
  pub grant_from_order-db :
      (works reread : Bool) (o : Order) (now : Time) (r : Router n.State)
      → (grant_from_order n works reread o now r).1.db
        ≡ (upsert_mac works reread o.mac (paid_label o.plan) o.days o.user_id now r.db).1
  unfolding grant_from_order
  grant_from_order-db works reread o now r = ground arith

  pub settle-router :
      (w : Faults) (o : Order) (number : Text) (now : Time) (a : App n.State)
      → (settle n w (true, o) number now a).1.router
        ≡ (grant_from_order n w.grants w.rereads o now a.router).1
  settle-router w o number now a =
      elim (Result-cases (grant_from_order n w.grants w.rereads o now a.router).0) [
        | inl (_, done) ↦
            rw (settle-ok w o number now a done) (announced-router w.audits o number _)
        | inr (e, failed) ↦ rw (settle-err w o number now a e failed)
      ]

  pub finalize_order-first :
      (w : Faults) (number trade : Text) (now : Time) (a : App n.State) (o : Order)
      → w.pays ≡ true
      → find_order number a.router.db ≡ some o
      → is_paid o.status ≡ false
      → finalize_order n w number trade now a
        ≡ settle n w
            (true, paid_row trade now o)
            number
            now
            (record a {
              router = record (a.router) {
                db = update_order number (paid_row trade now) a.router.db;
              };
            })
  unfolding finalize_order
  finalize_order-first w number trade now a o works e unpaid =
      query-bind (mark_order_paid w.pays number trade now) (λ paid. settle n w paid number now) a
        (true, paid_row trade now o) (update_order number (paid_row trade now) a.router.db)
        (rw (works, mark_order_paid_first number trade now a.router.db e unpaid))

  finalize_order-again :
      (w : Faults) (number trade : Text) (now : Time) (a : App n.State) (o : Order)
      → w.pays ≡ true
      → find_order number a.router.db ≡ some o
      → is_paid o.status ≡ true
      → finalize_order n w number trade now a ≡ (ok tt, a)
  unfolding finalize_order
  finalize_order-again w number trade now a o works e paid =
      query-bind (mark_order_paid w.pays number trade now) (λ paid. settle n w paid number now) a
        (false, o) a.router.db
        (rw (works, mark_order_paid_again number trade now a.router.db e paid))

  -- The order's row after the first report, whether the grant went through or not.
  pub finalize_order-row :
      (w : Faults) (number trade : Text) (now : Time) (a : App n.State) (o : Order)
      → find_order number a.router.db ≡ some o
      → w.pays ≡ true
      → is_paid o.status ≡ false
      → find_order number (finalize_order n w number trade now a).1.router.db
        ≡ some (paid_row trade now o)
  finalize_order-row w number trade now a o e works unpaid = rw (
    finalize_order-first w number trade now a o works e unpaid,
    settle-router w (paid_row trade now o) number now _,
    grant_from_order-db w.grants w.rereads (paid_row trade now o) now _,
    upsert_mac-orders w.grants w.rereads o.mac (paid_label o.plan) o.days o.user_id now _,
    find-pay_row number number trade now a.router.db e,
    text_eq_refl number,
  )

  -- Once the mark of a payment has been written, whatever else failed, another report of the order does nothing:
  -- no grant, no signal, no audit row and no event. So it is after any of the calls on devices, orders,
  -- vouchers and sessions in between, as long as none of them refunds this order.
  pub finalize_order_twice :
      (w w' : Faults) (number trade trade' : Text) (now now' : Time) (a a' : App n.State)
      (o : Order) (cs : List Call)
      → find_order number a.router.db ≡ some o
      → w.pays ≡ true
      → w'.pays ≡ true
      → All (λ c. is_refund_of number c ≡ false) cs
      → a'.router.db ≡ run cs (finalize_order n w number trade now a).1.router.db
      → finalize_order n w' number trade' now' a' ≡ (ok tt, a')
  finalize_order_twice w w' number trade trade' now now' a a' o cs e works works' other since =
      let (o', found, paid') : (o' : Order) × (find_order number
              (run cs (finalize_order n w number trade now a).1.router.db)
            ≡ some o')
          × (is_paid o'.status ≡ true) =
        elim (Bool-cases (is_paid o.status)) [
          | inl paid ↦
              run-is_paid cs number (finalize_order n w number trade now a).1.router.db o other
                (rw (finalize_order-again w number trade now a o works e paid) e) paid
          | inr unpaid ↦
              run-is_paid cs number (finalize_order n w number trade now a).1.router.db
                (paid_row trade now o) other
                (finalize_order-row w number trade now a o e works unpaid) refl
        ] in
      finalize_order-again w' number trade' now' a' o' works' (rw since found) paid'
