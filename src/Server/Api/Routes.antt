-- ===== src/Server/Api/Routes.antt =====
-- internal/server/api_admin.go and server.go: the calls behind `requireAPITokenWrite`.
use router_billing.Prelude.{not, ◌||◌, Option, none, some, List, ◌++◌, Text}
use router_billing.Prelude.Int.{ℤ, pos}
use router_billing.Prelude.Texts.{codes}
use router_billing.Firewall.{Nft}
use router_billing.Server.Web.{
  Request, Body, Host, json, Step, is_get, is_post, ◌>>=◌, ◌>>◌, need, need_some,
}
use router_billing.Server.Api.Devices.{DeviceCall, device_call, api_expire_now}
use router_billing.Server.Api.Orders.{
  api_order_refund, api_order_cancel, api_order_cancel_stale, api_voucher_batch_revoke,
}
use router_billing.Server.Api.Users.{
  api_user_suspend, api_user_notify_expiry, api_user_grant, api_user_grant_by_phone,
}
use router_billing.Server.Api.{bad_request, match_bearer, token_label, ApiToken}

-- The calls that are modelled, as `Routes` names them.
pub data ApiCall : Type 0 where
  on_device : DeviceCall → ApiCall
  order_refund order_cancel order_cancel_stale voucher_batch_revoke : ApiCall
  user_suspend user_notify_expiry user_grant user_grant_by_phone expire_now : ApiCall

abbrev number_in : Option Body → Text → ℤ
number_in none name = pos 0
number_in (some b) name = b.number name

module _ (n : Nft) (h : Host) (r : Request) (actor : Text) where
  abbrev ApiStep : Type 0 → Type 0
  ApiStep = Step n.State

  abbrev with_body : (Body → ApiStep (Unit {0})) → ApiStep (Unit {0})
  with_body f = do b ← need_some r.body (bad_request (codes "bad json")); f b

  -- A call behind its check of the method and of the body.
  unfoldable pub api_call : ApiCall → ApiStep (Unit {0})
  unfolding device_call api_order_refund api_order_cancel api_order_cancel_stale
      api_voucher_batch_revoke api_user_suspend api_user_notify_expiry api_user_grant
      api_user_grant_by_phone api_expire_now
  api_call (on_device what) = with_body (device_call n h r actor what)
  api_call order_refund = with_body (api_order_refund n h r actor)
  api_call order_cancel = with_body (api_order_cancel n h r actor)
  api_call order_cancel_stale =
      api_order_cancel_stale n h r actor (number_in r.body (codes "older_than_hours"))
  api_call voucher_batch_revoke = with_body (api_voucher_batch_revoke n h r actor)
  api_call user_suspend = with_body (api_user_suspend n h r actor)
  api_call user_notify_expiry = with_body (api_user_notify_expiry n h r actor)
  api_call user_grant = with_body (api_user_grant n h r actor)
  api_call user_grant_by_phone = with_body (api_user_grant_by_phone n h r actor)
  api_call expire_now = api_expire_now n h r actor

module _ (n : Nft) (h : Host) (r : Request) where
  -- The body of `requireAPITokenWrite`, and the check of the method with which each of the calls starts.
  abbrev pub gated : ApiCall → ApiToken → Step n.State (Unit {0})
  gated what t = do
    need (is_get r.method || not t.read_only) (json 403 (codes "token is read-only"))
    need (is_post r.method) (json 405 (codes "POST only"))
    api_call n h r (codes "api:" ++ token_label t) what

  -- `requireAPITokenWrite(handler)`
  unfoldable pub serve_api : List ApiToken → ApiCall → Step n.State (Unit {0})
  unfolding match_bearer api_call
  serve_api ts what = do t ← match_bearer h ts r; gated what t
