-- ===== src/Server/Redeem.antt =====
-- internal/server/voucher.go: `handleRedeem`, with which anyone turns a voucher into days for a device.
pub mod Spent
use router_billing.Prelude.{
  ℕ, Bool, Option, none, some, List, [], ◌∷◌, ◌++◌, Text, is_empty, ◌==◌, if◌then◌else◌,
}
use router_billing.Prelude.Digits.{itoa}
use router_billing.Prelude.Texts.{codes}
use router_billing.Models.{Time, Mac, Voucher}
use router_billing.Models.TypedText.{normalize_mac}
use router_billing.Codes.{canon, validate}
use router_billing.Db.{
  Result, ok, err, Error, voucher_not_found, voucher_used, voucher_revoked, voucher_expired,
}
use router_billing.Db.Vouchers.{redeem_voucher}
use router_billing.Firewall.{Nft}
use router_billing.Service.{extend}
use router_billing.Server.{AuditEntry, Event, send}
use router_billing.Server.Web.{
  Request, Host, Reply, redirect, Step, ◌>>=◌, ◌>>◌, go, leave, need, need_some, need_ok, ask,
  serve, note, change, reply, is_post, client_ip,
}
use router_billing.Server.Accounts.{current_user_id}
use router_billing.Server.Login.{bad_form, limit}

-- What is known of the browser's device, and how a date is printed.
pub record Visitor : Type 0 where
  -- `a.detectMAC(r)`
  pub detected : Text
  -- `Format("2006-01-02")`
  pub date : Time → Text

-- One letter of `httpEsc`.
abbrev escaped : ℕ → Text
escaped c =
    if c == b'&'
    then codes "%26"
    else if c == b'?'
    then codes "%3F"
    else if c == b'#'
    then codes "%23"
    else if c == b'='
    then codes "%3D"
    else if c == b'+'
    then codes "%2B"
    else if c == b'%'
    then codes "%25"
    else if c == b' '
    then codes "%20"
    else c ∷ []

-- `httpEsc`
unfoldable pub http_esc : Text → Text
http_esc [] = []
http_esc (c ∷ s) = escaped c ++ http_esc s

-- `redeemErrLabel`
unfoldable pub redeem_err_label : Error → Text
redeem_err_label voucher_not_found = codes "充值码不存在或已被作废"
redeem_err_label voucher_used = codes "该充值码已被使用"
redeem_err_label voucher_revoked = codes "该充值码已作废"
redeem_err_label voucher_expired = codes "该充值码已过期"
redeem_err_label _ = codes "error"

abbrev refused_code : Text → Text → Reply
refused_code raw why = redirect (codes "/redeem?code=" ++ (raw ++ (codes "&err=" ++ why)))

abbrev redeemer : Option ℕ → Text
redeemer none = codes "user-anon"
redeemer (some uid) = codes "user:" ++ itoa uid

abbrev redeem_audit : Option ℕ → Text → Text → AuditEntry
redeem_audit user mac code = record {
  actor = redeemer user;
  action = codes "redeem";
  target = mac;
  detail = codes "voucher=" ++ code;
}

abbrev redeem_event : Option ℕ → Text → Text → ℕ → Event
redeem_event user mac code days = record {
  kind = codes "redeem";
  actor = redeemer user;
  mac = mac;
  user_id = elim user [ none ↦ 0 | some u ↦ u ];
  amount = 0;
  days = days;
  order_no = [];
  voucher = code;
}

-- `macInput`
abbrev pub typed_mac : Visitor → (Text → Text) → Text
typed_mac v f = if is_empty (f (codes "mac")) then v.detected else f (codes "mac")

abbrev pub voucher_label : Voucher → Text
voucher_label v = codes "voucher:" ++ v.batch

module _ (n : Nft) (h : Host) (b : Visitor) (r : Request) where
  abbrev RedeemStep : Type 0 → Type 0
  RedeemStep = Step n.State

  -- The voucher that was redeemed, or the answer to why it was not.
  abbrev redeemed_or : Text → Result Voucher → RedeemStep Voucher
  redeemed_or raw (err e) = leave (refused_code raw (http_esc (redeem_err_label e)))
  redeemed_or raw (ok v) = go v

  -- The end of `handleRedeem`, from the transaction on.
  unfoldable pub redeem_to : Text → Text → Option ℕ → RedeemStep (Unit {0})
  redeem_to raw mac user = do
    got ← ask h λ w. redeem_voucher w (canon raw) mac user h.now
    v ← redeemed_or raw got
    given ← serve h λ w reread. extend n w reread mac (voucher_label v) v.days user h.now
    m ← need_ok given (refused_code raw (codes "授权失败请联系管理员"))
    note h (redeem_audit user mac (canon raw))
    change (send (redeem_event user mac (canon raw) v.days))
    reply (
        redirect (
          codes "/redeem?ok=1&days="
          ++ (itoa v.days ++ (codes "&expires_at=" ++ b.date m.expires_at))))

  abbrev pub limit_redeem : RedeemStep Bool
  limit_redeem = limit h r (λ l. l.redeem) (λ k l. record l { redeem = k }) (client_ip r)

  -- The code and the device that a form names. The two messages of `Validate` are one here.
  unfoldable pub redeem_form : (Text → Text) → RedeemStep Text
  redeem_form f = do
    need (validate (canon (f (codes "code")))) (refused_code (f (codes "code")) (codes "error"))
    need_some (normalize_mac (typed_mac b f))
        (refused_code (f (codes "code")) (http_esc (codes "无法识别 MAC，请填写")))

  -- `handleRedeem`
  unfoldable pub handle_redeem : RedeemStep (Unit {0})
  unfolding redeem_to redeem_form
  handle_redeem = do
    need (is_post r.method) (redirect (codes "/redeem"))
    passed ← limit_redeem
    need passed (redirect (codes "/redeem?err=" ++ http_esc (codes "尝试过于频繁，请 10 分钟后再试")))
    f ← need_some r.form bad_form
    mac ← redeem_form f
    user ← current_user_id h r
    redeem_to (f (codes "code")) mac user
