-- ===== src/Db/Invariant/Steps.antt =====
-- The transactions of `db.DB` keep the tables valid, whether SQLite carries them out or not.
use router_billing.Prelude.{
  ℕ, ◌+◌, ◌≡◌, refl, Bool, true, false, Option, none, some, Text, arith, inl, inr, Option-cases,
}
use router_billing.Prelude.Table.{get, has_key, append-IsUnique, delete_where, delete_where-absent}
use router_billing.Prelude.Int.{ℤ, ◌-ℤ◌}
use router_billing.Models.{Time, Mac, Order}
use router_billing.Db.{Db, SessionKind}
use router_billing.Db.Macs.{
  mac_key, find_mac, insert_mac, upsert_row, upsert_mac, replace_mac, or_old, is_due, expire_row,
  expire_due_macs,
}
use router_billing.Db.Orders.{
  order_key, find_order, update_order, paid_row, refunded_row, mark_order_paid, mark_order_refunded,
  create_order, roll_back_mac, order_row, is_pending_at, failed_row, cancel_pending_order, is_stale,
  cancel_stale_pending_orders,
}
use router_billing.Db.Vouchers.{
  voucher_key, find_voucher, new_voucher, create_voucher, redeemed_row, redeem_voucher,
}
use router_billing.Db.Sessions.{session_key, new_session, create_session}
use router_billing.Db.Invariant.{
  IsValid, update_macs-IsValid, insert_mac-IsValid, delete_macs-IsValid, update_orders-IsValid,
  set_orders-IsValid, set_vouchers-IsValid, update_vouchers-IsValid, set_sessions-IsValid,
}

pub upsert_row-IsValid :
    (mac label : Text) (days : ℕ) (owner : Option ℕ) (now : Time) (d : Db)
    → IsValid d
    → IsValid (upsert_row (find_mac mac d) mac label days owner now d)
upsert_row-IsValid mac label days owner now d v = elim (Option-cases (find_mac mac d)) [
  | inl e ↦ rw e (insert_mac-IsValid d v mac label _ owner now e)
  | inr (m, e) ↦ rw e (update_macs-IsValid d v _ _ (λ x. refl) (λ x. refl))
]

pub upsert_mac-IsValid :
    (works reread : Bool) (mac label : Text) (days : ℕ) (owner : Option ℕ) (now : Time) (d : Db)
    → IsValid d
    → IsValid (upsert_mac works reread mac label days owner now d).1
unfolding upsert_mac
upsert_mac-IsValid true true mac label days owner now d v =
    upsert_row-IsValid mac label days owner now d v
upsert_mac-IsValid true false mac label days owner now d v =
    upsert_row-IsValid mac label days owner now d v
upsert_mac-IsValid false _ mac label days owner now d v = v

pub moved-IsValid :
    (mac to label : Text) (expiry : Time) (owner : Option ℕ) (now : Time) (d : Db)
    → IsValid d
    → find_mac to d ≡ none
    → IsValid (
        insert_mac to label expiry owner now
          (record d { macs = delete_where (has_key mac_key mac) d.macs }))
moved-IsValid mac to label expiry owner now d v free =
    insert_mac-IsValid (record d { macs = delete_where (has_key mac_key mac) d.macs })
      (delete_macs-IsValid d v (has_key mac_key mac)) to label expiry owner now
      (delete_where-absent mac_key to (has_key mac_key mac) d.macs free)

pub replace_mac-IsValid :
    (works reread : Bool) (user : ℕ) (mac to label : Text) (now : Time) (d : Db)
    → IsValid d
    → IsValid (replace_mac works reread user mac to label now d).1
unfolding replace_mac
replace_mac-IsValid works reread user mac to label now d v = elim (Option-cases (find_mac mac d)) [
  | inl e ↦ ground arith
  | inr (old, e) ↦
      ground
        (arith, moved-IsValid mac to (or_old label old.label) old.expires_at (some user) now d v)
]

pub expire_due_macs-IsValid :
    (selects updates : Bool) (now : Time) (d : Db)
    → IsValid d
    → IsValid (expire_due_macs selects updates now d).1
unfolding expire_due_macs
expire_due_macs-IsValid selects updates now d v =
    ground (arith, update_macs-IsValid d v (is_due now) (expire_row now) (λ x. refl) (λ x. refl))

pub create_order-IsValid :
    (works : Bool) (o : Order) (now : Time) (d : Db)
    → IsValid d
    → IsValid (create_order works o now d).1
unfolding create_order
create_order-IsValid works o now d v = elim (Option-cases (find_order o.order_no d)) [
  | inl e ↦ ground (
    arith,
    set_orders-IsValid d v _ (d.order_seq + 1)
        (append-IsUnique order_key d.orders (order_row (d.order_seq + 1) o now) e v.orders_unique),
  )
  | inr (x, e) ↦ ground arith
]

pub mark_order_paid-IsValid :
    (works : Bool) (number trade : Text) (now : Time) (d : Db)
    → IsValid d
    → IsValid (mark_order_paid works number trade now d).1
unfolding mark_order_paid
mark_order_paid-IsValid works number trade now d v =
    ground
      (arith, update_orders-IsValid d v (has_key order_key number) (paid_row trade now) (λ x. refl))

pub roll_back_mac-IsValid :
    (m : Option Mac) (days : ℕ) (now : Time) (d : Db)
    → IsValid d
    → IsValid (roll_back_mac m days now d).1
roll_back_mac-IsValid none days now d v = v
roll_back_mac-IsValid (some m) days now d v = update_macs-IsValid d v _ _ (λ x. refl) (λ x. refl)

pub mark_order_refunded-IsValid :
    (works : Bool) (number reason : Text) (now : Time) (d : Db)
    → IsValid d
    → IsValid (mark_order_refunded works number reason now d).1
unfolding mark_order_refunded
mark_order_refunded-IsValid works number reason now d v =
    elim (Option-cases (find_order number d)) [
      | inl e ↦ ground arith
      | inr (o, e) ↦ ground (
        arith,
        roll_back_mac-IsValid (find_mac o.mac d) o.days now
            (update_order number (refunded_row reason) d)
            (update_orders-IsValid d v (has_key order_key number) (refunded_row reason)
              (λ x. refl)),
      )
    ]

pub cancel_pending_order-IsValid :
    (works : Bool) (number : Text) (d : Db)
    → IsValid d
    → IsValid (cancel_pending_order works number d).1
unfolding cancel_pending_order
cancel_pending_order-IsValid works number d v =
    ground (arith, update_orders-IsValid d v (is_pending_at number) failed_row (λ x. refl))

pub cancel_stale_pending_orders-IsValid :
    (works : Bool) (older_than : ℤ) (now : Time) (d : Db)
    → IsValid d
    → IsValid (cancel_stale_pending_orders works older_than now d).1
unfolding cancel_stale_pending_orders
cancel_stale_pending_orders-IsValid works older_than now d v =
    ground (arith, update_orders-IsValid d v (is_stale (now -ℤ older_than)) failed_row (λ x. refl))

pub create_voucher-IsValid :
    (works : Bool) (code : Text) (days : ℕ) (label batch : Text) (until : Option Time) (now : Time)
    (d : Db)
    → IsValid d
    → IsValid (create_voucher works code days label batch until now d).1
unfolding create_voucher
create_voucher-IsValid works code days label batch until now d v =
    elim (Option-cases (find_voucher code d)) [
      | inl e ↦ ground (
        arith,
        set_vouchers-IsValid d v _ (d.voucher_seq + 1) (
            append-IsUnique voucher_key d.vouchers
              (new_voucher (d.voucher_seq + 1) code days label batch until now) e
              v.vouchers_unique),
      )
      | inr (x, e) ↦ ground arith
    ]

pub redeem_voucher-IsValid :
    (works : Bool) (code mac : Text) (user : Option ℕ) (now : Time) (d : Db)
    → IsValid d
    → IsValid (redeem_voucher works code mac user now d).1
unfolding redeem_voucher
redeem_voucher-IsValid works code mac user now d v = ground (
  arith,
  update_vouchers-IsValid d v (has_key voucher_key code) (redeemed_row mac user now) (λ x. refl),
)

pub create_session-IsValid :
    (works : Bool) (token : Text) (kind : SessionKind) (subject : Text) (user : Option ℕ) (ttl : ℤ)
    (now : Time) (d : Db)
    → IsValid d
    → IsValid (create_session works token kind subject user ttl now d).1
unfolding create_session
create_session-IsValid works token kind subject user ttl now d v =
    elim (Option-cases (get session_key token d.sessions)) [
      | inl e ↦ ground (
        arith,
        set_sessions-IsValid d v _ (
            append-IsUnique session_key d.sessions (new_session token kind subject user ttl now) e
              v.sessions_unique),
      )
      | inr (x, e) ↦ ground arith
    ]
