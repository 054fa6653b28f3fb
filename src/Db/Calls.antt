-- ===== src/Db/Calls.antt =====
-- The calls of `db.DB` on devices, orders, vouchers and sessions that write, as data, and a run of them in any order.
-- Those on accounts and second factors are the `AccountCall`s of `Db.Invariant.Accounts`.
-- SQLite carries one call at a time: `SetMaxOpenConns(1)`.
use router_billing.Prelude.{ℕ, Bool, Option, List, [], ◌∷◌, Text}
use router_billing.Prelude.Int.{ℤ}
use router_billing.Models.{Time, MacStatus, Order}
use router_billing.Db.{Db, SessionKind}
use router_billing.Db.Macs.{
  upsert_mac, delete_mac, set_mac_status, set_mac_label, set_mac_notes, set_mac_schedule,
  replace_mac, expire_due_macs,
}
use router_billing.Db.Orders.{
  create_order, mark_order_queried, mark_order_paid, mark_order_refunded, cancel_pending_order,
  cancel_stale_pending_orders,
}
use router_billing.Db.Vouchers.{
  create_voucher, revoke_voucher, revoke_voucher_batch, redeem_voucher,
}
use router_billing.Db.Sessions.{
  create_session, delete_session, delete_sessions_by_user_id, delete_all_admin_sessions_except,
  delete_all_user_sessions, delete_user_sessions_except, purge_expired_sessions,
}

-- The arguments stand as in the functions of the same names, the outcome of the database first.
pub data Call : Type 0 where
  upserts : Bool → Bool → Text → Text → ℕ → Option ℕ → Time → Call
  deletes : Bool → Text → Call
  sets_status : Bool → Text → MacStatus → Time → Call
  sets_label sets_notes sets_schedule : Bool → Text → Text → Time → Call
  replaces : Bool → Bool → ℕ → Text → Text → Text → Time → Call
  expires : Bool → Bool → Time → Call
  creates_order : Bool → Order → Time → Call
  queried : Bool → Text → Time → Call
  pays refunds : Bool → Text → Text → Time → Call
  cancels : Bool → Text → Call
  cancels_stale : Bool → ℤ → Time → Call
  creates_voucher : Bool → Text → ℕ → Text → Text → Option Time → Time → Call
  revokes revokes_batch : Bool → Text → Call
  redeems : Bool → Text → Text → Option ℕ → Time → Call
  creates_session : Bool → Text → SessionKind → Text → Option ℕ → ℤ → Time → Call
  ends_session : Bool → Text → Call
  ends_user_sessions : Bool → ℕ → Call
  ends_other_admins : Bool → Text → Call
  ends_all_users : Bool → Call
  ends_other_sessions : Bool → ℕ → Text → Call
  purges_sessions : Bool → Time → Call

unfoldable pub step : Call → Db → Db
step (upserts works reread mac label days owner now) d =
    (upsert_mac works reread mac label days owner now d).1
step (deletes works mac) d = (delete_mac works mac d).1
step (sets_status works mac status now) d = (set_mac_status works mac status now d).1
step (sets_label works mac label now) d = (set_mac_label works mac label now d).1
step (sets_notes works mac notes now) d = (set_mac_notes works mac notes now d).1
step (sets_schedule works mac schedule now) d = (set_mac_schedule works mac schedule now d).1
step (replaces works reread user mac to label now) d =
    (replace_mac works reread user mac to label now d).1
step (expires selects updates now) d = (expire_due_macs selects updates now d).1
step (creates_order works o now) d = (create_order works o now d).1
step (queried works number now) d = (mark_order_queried works number now d).1
step (pays works number trade now) d = (mark_order_paid works number trade now d).1
step (refunds works number reason now) d = (mark_order_refunded works number reason now d).1
step (cancels works number) d = (cancel_pending_order works number d).1
step (cancels_stale works older_than now) d = (cancel_stale_pending_orders works older_than now d).1
step (creates_voucher works code days label batch until now) d =
    (create_voucher works code days label batch until now d).1
step (revokes works code) d = (revoke_voucher works code d).1
step (revokes_batch works batch) d = (revoke_voucher_batch works batch d).1
step (redeems works code mac user now) d = (redeem_voucher works code mac user now d).1
step (creates_session works token kind subject user ttl now) d =
    (create_session works token kind subject user ttl now d).1
step (ends_session works token) d = (delete_session works token d).1
step (ends_user_sessions works user) d = (delete_sessions_by_user_id works user d).1
step (ends_other_admins works token) d = (delete_all_admin_sessions_except works token d).1
step (ends_all_users works) d = (delete_all_user_sessions works d).1
step (ends_other_sessions works user token) d = (delete_user_sessions_except works user token d).1
step (purges_sessions works now) d = (purge_expired_sessions works now d).1

unfoldable pub run : List Call → Db → Db
unfolding step
run [] d = d
run (c ∷ cs) d = run cs (step c d)
