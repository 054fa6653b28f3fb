-- ===== src/Server/Api/Orders.antt =====
-- internal/server/api_admin.go: the calls on orders and vouchers.
use router_billing.Prelude.{◌*◌, Bool, true, false, not, Option, [], ◌++◌, Text, leb, is_empty}
use router_billing.Prelude.Digits.{itoa}
use router_billing.Prelude.Int.{ℤ, pos}
use router_billing.Prelude.Texts.{codes, trim_space}
use router_billing.Models.{Mac}
use router_billing.Db.{Result, ok, err}
use router_billing.Db.Orders.{
  mark_order_refunded, cancel_pending_order, cancel_stale_pending_orders,
}
use router_billing.Db.Vouchers.{revoke_voucher_batch}
use router_billing.Firewall.{Nft}
use router_billing.Service.{resync}
use router_billing.Server.Web.{
  Request, Body, Host, Step, ◌>>=◌, ◌>>◌, go, leave, need, need_ok, ask, serve, reply,
}
use router_billing.Server.Api.{
  bad_request, failed, done, capped, refund_status, cancel_status, default, has_ended, hours_of,
  log_as,
}

module _ (n : Nft) (h : Host) (r : Request) (actor : Text) where
  abbrev ApiStep : Type 0 → Type 0
  ApiStep = Step n.State

  -- The `Resync` after a refund that ended a device's time. The code starts it beside the answer; here it runs before it.
  abbrev resync_if : Bool → ApiStep (Unit {0})
  resync_if false = go tt
  resync_if true = do _ ← serve h λ w _. resync n w h.now; go tt

  abbrev refunded : Text → Text → Result (Option Mac) → ApiStep (Unit {0})
  refunded number reason (err e) = leave (refund_status e)
  refunded number reason (ok m) = do
    log_as h r actor (codes "order_refunded") number (codes "reason=" ++ (reason ++ codes " ")) []
    resync_if (has_ended m)
    reply done

  -- `handleAPIOrderRefund`
  unfoldable pub api_order_refund : Body → ApiStep (Unit {0})
  api_order_refund b = do
    let number = trim_space (b.text (codes "order_no"))
    need (not (is_empty number)) (bad_request (codes "order_no required"))
    let reason = capped 200 (trim_space (b.text (codes "reason")))
    m ← ask h λ w. mark_order_refunded w number reason h.now
    refunded number reason m

  abbrev canceled : Text → {A : Type 0} → Result A → ApiStep (Unit {0})
  canceled number (err e) = leave (cancel_status e)
  canceled number (ok _) = do log_as h r actor (codes "order_canceled") number [] []; reply done

  -- `handleAPIOrderCancel`
  unfoldable pub api_order_cancel : Body → ApiStep (Unit {0})
  api_order_cancel b = do
    let number = trim_space (b.text (codes "order_no"))
    need (not (is_empty number)) (bad_request (codes "order_no required"))
    o ← ask h λ w. cancel_pending_order w number
    canceled number o

  -- `handleAPIOrderCancelStale`; a body that cannot be decoded counts as an empty one.
  unfoldable pub api_order_cancel_stale : ℤ → ApiStep (Unit {0})
  api_order_cancel_stale wanted = do
    let hours = hours_of wanted
    need (leb hours 720) (bad_request (codes "older_than_hours must be <= 720"))
    count ← ask h λ w. cancel_stale_pending_orders w (pos (hours * 3_600_000_000_000)) h.now
    k ← need_ok count failed
    log_as h r actor (codes "orders_cancel_stale") []
        ((codes "count=" ++ itoa k) ++ (codes " hours=" ++ (itoa hours ++ codes " "))) []
    reply done

  -- `handleAPIVoucherBatchRevoke`
  unfoldable pub api_voucher_batch_revoke : Body → ApiStep (Unit {0})
  api_voucher_batch_revoke b = do
    let batch = trim_space (b.text (codes "batch"))
    count ← ask h λ w. revoke_voucher_batch w batch
    k ← need_ok count failed
    log_as h r actor (codes "voucher_batch_revoke") (default batch (codes "(no batch)"))
        (codes "count=" ++ (itoa k ++ codes " ")) []
    reply done
