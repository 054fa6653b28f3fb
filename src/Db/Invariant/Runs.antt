-- ===== src/Db/Invariant/Runs.antt =====
-- Runs of `db.DB`: the tables stay valid through any calls in any order.
use router_billing.Prelude.{refl, Bool, true, false, List, [], ◌∷◌}
use router_billing.Db.{Db, Session, call, modify}
use router_billing.Db.Macs.{
  delete_mac, set_mac_status, set_mac_label, set_mac_notes, set_mac_schedule,
}
use router_billing.Db.Orders.{mark_order_queried}
use router_billing.Db.Vouchers.{revoke_voucher, revoke_voucher_batch}
use router_billing.Db.Sessions.{
  delete_session, delete_sessions, delete_sessions_by_user_id, delete_all_admin_sessions_except,
  delete_all_user_sessions, delete_user_sessions_except, purge_expired_sessions,
}
use router_billing.Db.Calls.{
  Call, upserts, deletes, sets_status, sets_label, sets_notes, sets_schedule, replaces, expires,
  creates_order, queried, pays, refunds, cancels, cancels_stale, creates_voucher, revokes,
  revokes_batch, redeems, creates_session, ends_session, ends_user_sessions, ends_other_admins,
  ends_all_users, ends_other_sessions, purges_sessions, step, run,
}
use router_billing.Db.Invariant.{
  IsValid, update_macs-IsValid, delete_macs-IsValid, update_orders-IsValid, update_vouchers-IsValid,
  delete_sessions-IsValid,
}
use router_billing.Db.Invariant.Steps.{
  upsert_mac-IsValid, replace_mac-IsValid, expire_due_macs-IsValid, create_order-IsValid,
  mark_order_paid-IsValid, mark_order_refunded-IsValid, cancel_pending_order-IsValid,
  cancel_stale_pending_orders-IsValid, create_voucher-IsValid, redeem_voucher-IsValid,
  create_session-IsValid,
}

-- A call of one statement that writes.
pub call-modify-IsValid :
    (works : Bool) (f : Db → Db) (d : Db)
    → IsValid d
    → IsValid (f d)
    → IsValid (call works (modify f) d).1
call-modify-IsValid true f d v w = w
call-modify-IsValid false f d v w = v

pub call-delete_sessions-IsValid :
    (works : Bool) (p : Session → Bool) (d : Db)
    → IsValid d
    → IsValid (call works (delete_sessions p) d).1
call-delete_sessions-IsValid true p d v = delete_sessions-IsValid d v p
call-delete_sessions-IsValid false p d v = v

revoke_voucher_batch-IsValid :
    (works : Bool) (batch : _) (d : Db) → IsValid d → IsValid (revoke_voucher_batch works batch d).1
unfolding revoke_voucher_batch
revoke_voucher_batch-IsValid true batch d v = update_vouchers-IsValid d v _ _ (λ x. refl)
revoke_voucher_batch-IsValid false batch d v = v

-- Every call keeps the tables valid: MACs, order numbers, voucher codes and session tokens stay
-- unique, and no two device rows share an id.
pub step-IsValid : (c : Call) (d : Db) → IsValid d → IsValid (step c d)
unfolding step delete_mac set_mac_status set_mac_label set_mac_notes set_mac_schedule
    mark_order_queried revoke_voucher delete_session delete_sessions_by_user_id
    delete_all_admin_sessions_except delete_all_user_sessions delete_user_sessions_except
    purge_expired_sessions
step-IsValid (upserts works reread mac label days owner now) d v =
    upsert_mac-IsValid works reread mac label days owner now d v
step-IsValid (deletes works mac) d v = call-modify-IsValid works _ d v (delete_macs-IsValid d v _)
step-IsValid (sets_status works mac status now) d v =
    call-modify-IsValid works _ d v (update_macs-IsValid d v _ _ (λ x. refl) (λ x. refl))
step-IsValid (sets_label works mac label now) d v =
    call-modify-IsValid works _ d v (update_macs-IsValid d v _ _ (λ x. refl) (λ x. refl))
step-IsValid (sets_notes works mac notes now) d v =
    call-modify-IsValid works _ d v (update_macs-IsValid d v _ _ (λ x. refl) (λ x. refl))
step-IsValid (sets_schedule works mac schedule now) d v =
    call-modify-IsValid works _ d v (update_macs-IsValid d v _ _ (λ x. refl) (λ x. refl))
step-IsValid (replaces works reread user mac to label now) d v =
    replace_mac-IsValid works reread user mac to label now d v
step-IsValid (expires selects updates now) d v = expire_due_macs-IsValid selects updates now d v
step-IsValid (creates_order works o now) d v = create_order-IsValid works o now d v
step-IsValid (queried works number now) d v =
    call-modify-IsValid works _ d v (update_orders-IsValid d v _ _ (λ x. refl))
step-IsValid (pays works number trade now) d v = mark_order_paid-IsValid works number trade now d v
step-IsValid (refunds works number reason now) d v =
    mark_order_refunded-IsValid works number reason now d v
step-IsValid (cancels works number) d v = cancel_pending_order-IsValid works number d v
step-IsValid (cancels_stale works older_than now) d v =
    cancel_stale_pending_orders-IsValid works older_than now d v
step-IsValid (creates_voucher works code days label batch until now) d v =
    create_voucher-IsValid works code days label batch until now d v
step-IsValid (revokes works code) d v =
    call-modify-IsValid works _ d v (update_vouchers-IsValid d v _ _ (λ x. refl))
step-IsValid (revokes_batch works batch) d v = revoke_voucher_batch-IsValid works batch d v
step-IsValid (redeems works code mac user now) d v =
    redeem_voucher-IsValid works code mac user now d v
step-IsValid (creates_session works token kind subject user ttl now) d v =
    create_session-IsValid works token kind subject user ttl now d v
step-IsValid (ends_session works token) d v =
    call-modify-IsValid works _ d v (delete_sessions-IsValid d v _)
step-IsValid (ends_user_sessions works user) d v = call-delete_sessions-IsValid works _ d v
step-IsValid (ends_other_admins works token) d v = call-delete_sessions-IsValid works _ d v
step-IsValid (ends_all_users works) d v = call-delete_sessions-IsValid works _ d v
step-IsValid (ends_other_sessions works user token) d v = call-delete_sessions-IsValid works _ d v
step-IsValid (purges_sessions works now) d v =
    call-modify-IsValid works _ d v (delete_sessions-IsValid d v _)

-- Through any of the calls on devices, orders, vouchers and sessions, in any order and whichever of them SQLite carries
-- out, MACs, order numbers, voucher codes and session tokens stay unique, and the ids of the devices
-- grow along the table up to its counter.
pub run-IsValid : (cs : List Call) (d : Db) → IsValid d → IsValid (run cs d)
unfolding run
run-IsValid [] d v = v
run-IsValid (c ∷ cs) d v = run-IsValid cs (step c d) (step-IsValid c d v)
