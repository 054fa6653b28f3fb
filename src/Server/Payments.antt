-- ===== src/Server/Payments.antt =====
-- internal/server/pay.go: what happens to an order when a payment provider reports it.
pub mod Once
pub mod Grants
use router_billing.Prelude.{
  ℕ, ◌≡◌, Bool, true, false, Option, none, some, List, [], ◌∷◌, ◌++◌, Text, text_eq, if◌then◌else◌,
}
use router_billing.Prelude.Digits.{itoa}
use router_billing.Prelude.Int.{pos, ◌-ℤ◌}
use router_billing.Models.{Time, Order, after, is_pending}
use router_billing.Db.{Result, ok, err, order_not_found}
use router_billing.Db.Orders.{mark_order_paid, mark_order_queried, get_order}
use router_billing.Firewall.{Nft}
use router_billing.Service.{grant_from_order}
use router_billing.Server.{
  App, AuditEntry, Event, Handler, ◌>>=◌, ◌>>◌, return, service, query, modify, audit, send,
}
use router_billing.Server.Wait.{signal_order}

-- "wechat", "alipay", "webhook:", "pay", "order=", " amount="
abbrev pub wechat : Text
wechat = b'w' ∷ b'e' ∷ b'c' ∷ b'h' ∷ b'a' ∷ b't' ∷ []

abbrev pub alipay : Text
alipay = b'a' ∷ b'l' ∷ b'i' ∷ b'p' ∷ b'a' ∷ b'y' ∷ []

abbrev webhook_by : Text → Text
webhook_by m = b'w' ∷ b'e' ∷ b'b' ∷ b'h' ∷ b'o' ∷ b'o' ∷ b'k' ∷ b':' ∷ m

abbrev pay_kind : Text
pay_kind = b'p' ∷ b'a' ∷ b'y' ∷ []

abbrev pay_detail : Order → Text
pay_detail o =
    (b'o' ∷ b'r' ∷ b'd' ∷ b'e' ∷ b'r' ∷ b'=' ∷ o.order_no)
    ++ (b' ' ∷ b'a' ∷ b'm' ∷ b'o' ∷ b'u' ∷ b'n' ∷ b't' ∷ b'=' ∷ itoa o.amount_cents)

unfoldable pub pay_audit : Order → AuditEntry
pay_audit o = record {
  actor = webhook_by o.payment_method;
  action = pay_kind;
  target = o.mac;
  detail = pay_detail o;
}

unfoldable pub pay_event : Order → Event
pay_event o = record {
  kind = pay_kind;
  actor = o.payment_method;
  mac = o.mac;
  user_id = elim o.user_id [ none ↦ 0 | some u ↦ u ];
  amount = o.amount_cents;
  days = o.days;
  order_no = o.order_no;
  voucher = [];
}

-- Which of the database calls on the way SQLite carries out.
pub record Faults : Type 0 where
  pub pays : Bool
  pub grants : Bool
  pub rereads : Bool
  pub audits : Bool

module _ (n : Nft) where
  -- The part of `finalizeOrder` that tells others, after the grant.
  abbrev pub announce : Bool → Order → Text → Handler n.State (Unit {0})
  announce writes o number = do
    modify (signal_order number)
    modify (audit writes (pay_audit o))
    modify (send (pay_event o))

  -- `finalizeOrder` after `MarkOrderPaid`.
  abbrev pub settle : Faults → Bool × Order → Text → Time → Handler n.State (Unit {0})
  settle works (false, o) number now = return tt
  settle works (true, o) number now = do
    service (grant_from_order n works.grants works.rereads o now)
    announce works.audits o number

  -- `finalizeOrder`. The mutex `pollMu` lets one call run at a time.
  unfoldable pub finalize_order : Faults → Text → Text → Time → Handler n.State (Unit {0})
  finalize_order works number trade now = do
    paid ← query (mark_order_paid works.pays number trade now)
    settle works paid number now
