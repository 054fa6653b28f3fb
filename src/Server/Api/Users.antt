-- ===== src/Server/Api/Users.antt =====
-- internal/server/api_admin.go: the calls on users.
use router_billing.Prelude.{
  ℕ, ◌+◌, Bool, true, false, some, List, [], ◌∷◌, ◌++◌, Text, if◌then◌else◌,
}
use router_billing.Prelude.Digits.{itoa}
use router_billing.Prelude.Int.{ℤ}
use router_billing.Prelude.Texts.{codes, trim_space}
use router_billing.Models.{Mac}
use router_billing.Models.Accounts.{User}
use router_billing.Models.TypedText.{valid_phone}
use router_billing.Db.{Result, ok, err}
use router_billing.Db.Macs.{list_macs_for_user}
use router_billing.Db.Sessions.{delete_sessions_by_user_id}
use router_billing.Db.Users.{get_user, get_user_by_phone, suspend_user, set_user_notify_expiry}
use router_billing.Firewall.{Nft}
use router_billing.Service.{extend}
use router_billing.Server.Web.{
  Request, Body, Host, json, Step, ◌>>=◌, ◌>>◌, go, need, need_some, need_ok, ask, ask_two, serve,
  reply,
}
use router_billing.Server.Api.{bad_request, failed, done, positive, default, log_as}

module _ (n : Nft) (h : Host) (r : Request) (actor : Text) where
  abbrev ApiStep : Type 0 → Type 0
  ApiStep = Step n.State

  abbrev named_user : ℤ → ApiStep User
  named_user z = do
    id ← need_some (positive z) (bad_request (codes "user_id required"))
    got ← ask h λ w. get_user w id
    u ← need_ok got failed
    need_some u (json 404 (codes "user not found"))

  abbrev drop_if : Bool → ℕ → ApiStep (Unit {0})
  drop_if false id = go tt
  drop_if true id = do _ ← ask h λ w. delete_sessions_by_user_id w id; go tt

  -- `handleAPIUserSuspend`
  unfoldable pub api_user_suspend : Body → ApiStep (Unit {0})
  api_user_suspend b = do
    u ← named_user (b.number (codes "user_id"))
    let on = b.flag (codes "suspend")
    set ← ask_two h λ w drops. suspend_user w drops u.id on h.now
    _ ← need_ok set failed
    drop_if on u.id
    log_as h r actor (if on then codes "user_suspend" else codes "user_unsuspend") (itoa u.id) [] []
    reply done

  -- `handleAPIUserNotifyExpiry`
  unfoldable pub api_user_notify_expiry : Body → ApiStep (Unit {0})
  api_user_notify_expiry b = do
    u ← named_user (b.number (codes "user_id"))
    let on = b.flag (codes "on")
    set ← ask h λ w. set_user_notify_expiry w u.id on h.now
    _ ← need_ok set failed
    log_as h r actor (codes "user_notify_pref") (itoa u.id)
        (if on then codes "on=1 " else codes "on=0 ") []
    reply done

  -- The loop over the devices of a user, with the number of those that were extended; one that fails is logged, and
  -- the loop goes on.
  abbrev extend_each : Text → Text → Text → Result Mac → ApiStep ℕ
  extend_each mac before after (err e) = go 0
  extend_each mac before after (ok m) = do log_as h r actor (codes "grant") mac before after; go 1

  unfoldable pub extend_all : List Mac → Text → ℕ → ℕ → Text → Text → ApiStep ℕ
  extend_all [] label days user before after = go 0
  extend_all (m ∷ ms) label days user before after = do
    x ← serve h λ w reread. extend n w reread m.mac label days (some user) h.now
    one ← extend_each m.mac before after x
    rest ← extend_all ms label days user before after
    go (one + rest)

  abbrev grant_to : User → Text → ℕ → Text → Text → ApiStep (Unit {0})
  grant_to u label days by_mac summary = do
    got ← ask h λ w. list_macs_for_user w u.id
    macs ← need_ok got failed
    let before = codes "days=" ++ (itoa days ++ codes " ")
    count ← extend_all macs label days u.id before by_mac
    log_as h r actor (codes "user_grant") (itoa u.id)
        (before ++ (codes "macs=" ++ (itoa count ++ codes " "))) summary
    reply done

  -- `handleAPIUserGrant`
  unfoldable pub api_user_grant : Body → ApiStep (Unit {0})
  unfolding extend_all
  api_user_grant b = do
    _ ← need_some (positive (b.number (codes "user_id"))) (bad_request (codes "user_id required"))
    days ← need_some (positive (b.number (codes "days"))) (bad_request (codes "days must be > 0"))
    u ← named_user (b.number (codes "user_id"))
    grant_to u (default (trim_space (b.text (codes "label"))) (codes "user-grant")) days
        (codes " user_id=" ++ itoa u.id) []

  -- `handleAPIUserGrantByPhone`
  unfoldable pub api_user_grant_by_phone : Body → ApiStep (Unit {0})
  unfolding extend_all
  api_user_grant_by_phone b = do
    let phone = trim_space (b.text (codes "phone"))
    need (valid_phone phone) (bad_request (codes "invalid phone"))
    days ← need_some (positive (b.number (codes "days"))) (bad_request (codes "days must be > 0"))
    got ← ask h λ w. get_user_by_phone w phone
    found ← need_ok got failed
    u ← need_some found (json 404 (codes "no user for phone"))
    grant_to u (default (trim_space (b.text (codes "label"))) (codes "user-grant-by-phone")) days
        (codes " phone=" ++ phone) (codes " phone=" ++ phone)
