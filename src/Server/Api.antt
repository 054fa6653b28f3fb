-- ===== src/Server/Api.antt =====
-- internal/server/api_admin.go: the calls that scripts make with a token, on devices, orders, vouchers and users.
pub mod Devices
pub mod Orders
pub mod Users
pub mod Routes
pub mod Scoped
pub mod Synced
use router_billing.Prelude.{
  ℕ, zero, suc, ◌+◌, ◌*◌, Bool, true, false, not, ◌&&◌, ◌||◌, Option, none, some, List, [], ◌∷◌,
  ◌++◌, Text, length, leb, ltb, ◌==◌, is_empty, text_eq, take, if◌then◌else◌,
}
use router_billing.Prelude.Digits.{itoa}
use router_billing.Prelude.Int.{ℤ, pos}
use router_billing.Prelude.Texts.{codes, trim_space, has_prefix}
use router_billing.Models.{Time, Mac, MacStatus}
use router_billing.Models.Accounts.{User}
use router_billing.Models.TypedText.{normalize_mac, valid_phone}
use router_billing.Db.{Result, ok, err, Error, order_not_found, only_paid_refunded}
use router_billing.Db.Macs.{
  get_mac, set_mac_label, set_mac_notes, expire_due_macs, list_macs_for_user,
}
use router_billing.Db.Orders.{
  mark_order_refunded, cancel_pending_order, cancel_stale_pending_orders,
}
use router_billing.Db.Vouchers.{revoke_voucher_batch}
use router_billing.Db.Sessions.{delete_sessions_by_user_id}
use router_billing.Db.Users.{get_user, get_user_by_phone, suspend_user, set_user_notify_expiry}
use router_billing.Firewall.{Nft}
use router_billing.Service.{extend, delete, resync}
use router_billing.Server.{App, AuditEntry, ApiLimit}
use router_billing.Server.RateLimiter.{Limiter, allow, new_rate_limiter, minute_ns}
use router_billing.Prelude.Table.{get, has_key, update_where}
use router_billing.Server.Web.{
  Request, Body, Host, Reply, json, Step, Outcome, goes, replied, Exchange, is_get, is_post, ◌>>=◌,
  ◌>>◌, go, leave, need, need_some, need_ok, ask, ask_two, serve, note, reply, client_ip,
}

-- An entry of `api_tokens`.
pub record ApiToken : Type 0 where
  pub token : Text
  pub label : Text
  pub read_only : Bool
  pub rate_limit_per_min : ℕ

-- `MatchAPITokenFull`: the last entry with this token, never an empty one.
abbrev or_else : Option ApiToken → Option ApiToken → Option ApiToken
or_else none b = b
or_else (some t) b = some t

unfoldable pub match_from : Text → List ApiToken → Option ApiToken
match_from presented [] = none
match_from presented (t ∷ ts) =
    or_else (match_from presented ts)
      (if not (is_empty t.token) && text_eq presented t.token then some t else none)

unfoldable pub match_api_token_full : Text → List ApiToken → Option ApiToken
match_api_token_full presented ts = if is_empty presented then none else match_from presented ts

abbrev pub token_label : ApiToken → Text
token_label t = if is_empty t.label then codes "unnamed-token" else t.label

-- `strings.TrimPrefix(hdr, "Bearer ")`, where it has that prefix.
abbrev drop_bearer : ℕ → Text → Text
drop_bearer zero s = s
drop_bearer (suc n) [] = []
drop_bearer (suc n) (c ∷ s) = drop_bearer n s

unfoldable pub presented_token : Request → Option Text
presented_token r =
    let hdr = r.header (codes "Authorization") in
    if has_prefix hdr (codes "Bearer ") then some (trim_space (drop_bearer 7 hdr)) else none

abbrev pub limit_key : ApiLimit → Text
limit_key l = l.label

-- The limiter of a token: a new one where there is none, or where the configured limit has changed.
abbrev limiter_of : ℕ → Option ApiLimit → Limiter
limiter_of per_min none = new_rate_limiter per_min (pos minute_ns)
limiter_of per_min (some l) =
    if l.limiter.max == per_min then l.limiter else new_rate_limiter per_min (pos minute_ns)

abbrev put_limit : Option ApiLimit → Text → Limiter → List ApiLimit → List ApiLimit
put_limit none label l ls = ls ++ record { label = label; limiter = l } ∷ []
put_limit (some _) label l ls =
    update_where (has_key limit_key label) (λ x. record x { limiter = l }) ls

-- `apiTokenAllow`
unfoldable pub api_token_allow : {S : Type 0} → Text → ℕ → Time → App S → Bool × App S
api_token_allow label per_min now a =
    let held = get limit_key label a.api_limits in
    let (passed, l) = allow label now (limiter_of per_min held) in
    (passed, record a { api_limits = put_limit held label l a.api_limits })

abbrev pub unauthorized : Text → Reply
unauthorized = json 401

-- `matchBearerOrUnauthorized`
abbrev within_limit : {S : Type 0} → ApiToken → Time → Step S Bool
within_limit t now x =
    if t.rate_limit_per_min == 0
    then (goes true, x)
    else (let (passed, a) = api_token_allow (token_label t) t.rate_limit_per_min now x.app in
        (goes passed, record x { app = a }))

unfoldable pub match_bearer : {S : Type 0} → Host → List ApiToken → Request → Step S ApiToken
unfolding presented_token match_api_token_full
match_bearer h ts r = do
  presented ← need_some (presented_token r) (unauthorized (codes "missing Bearer token"))
  t ← need_some (match_api_token_full presented ts) (unauthorized (codes "invalid token"))
  passed ← within_limit t h.now
  need passed (json 429 (codes "rate limit exceeded"))
  go t

abbrev pub bad_request : Text → Reply
bad_request = json 400

abbrev pub failed : Reply
failed = json 500 (codes "error")

abbrev pub done : Reply
done = json 200 []

-- Text that is cut after a number of bytes.
abbrev pub capped : ℕ → Text → Text
capped n s = if ltb n (length s) then take n s else s

-- An `int64` that must be positive.
abbrev pub positive : ℤ → Option ℕ
positive (pos zero) = none
positive (pos (suc n)) = some (suc n)
positive _ = none

-- The status of a refund that failed.
abbrev pub refund_status : Error → Reply
refund_status (order_not_found _) = json 404 (codes "error")
refund_status (only_paid_refunded _ _) = json 409 (codes "error")
refund_status _ = failed

abbrev pub cancel_status : Error → Reply
cancel_status (order_not_found _) = json 404 (codes "order not found")
cancel_status _ = json 409 (codes "error")

abbrev pub default : Text → Text → Text
default s other = if is_empty s then other else s

abbrev pub has_ended : Option Mac → Bool
has_ended none = false
has_ended (some m) = elim m.status [ MacStatus.expired ↦ true | _ ↦ false ]

abbrev pub hours_of : ℤ → ℕ
hours_of z = elim (positive z) [ none ↦ 24 | some hours ↦ hours ]

module _ {S : Type 0} (h : Host) (r : Request) (actor : Text) where
  -- `a.DB.Audit`, with what the detail has before and after "via=api".
  abbrev pub log_as : Text → Text → Text → Text → Step S (Unit {0})
  log_as action target before after = note h (record {
    actor = actor;
    action = action;
    target = target;
    detail = (before ++ codes "via=api") ++ (after ++ (codes " ip=" ++ client_ip r));
  })
