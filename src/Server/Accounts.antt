-- ===== src/Server/Accounts.antt =====
-- internal/server/user.go and user_trusted_devices.go: who a request comes from, and how a login starts and ends.
pub mod Gate
use router_billing.Prelude.{
  ℕ, Bool, true, false, not, ◌&&◌, Option, none, some, List, [], ◌∷◌, ◌++◌, Text, is_empty, ◌==◌,
  if◌then◌else◌,
}
use router_billing.Prelude.Int.{ℤ, pos, negsuc}
use router_billing.Prelude.Texts.{codes, trim_space}
use router_billing.Models.Accounts.{User, TrustedDevice}
use router_billing.Db.{Query, Result, ok, err, Session, SessionKind}
use router_billing.Db.Sessions.{is_user, get_session, create_session, delete_session}
use router_billing.Db.Users.{get_user}
use router_billing.Db.SecondFactor.{get_trusted_device, create_trusted_device}
use router_billing.Server.{AuditEntry}
use router_billing.Server.Web.{
  Request, Host, Reply, redirect, refused, Step, Outcome, goes, replied, Cookie, for_session,
  for_trust, value_of, ◌>>=◌, ◌>>◌, go, need, set_cookie, ask, ask_two, reply, is_post, verify_csrf,
  leave,
}

-- The names of the cookies: `userCookieName`, `userPendingCookie`, `userTrustedCookie`.
abbrev pub user_cookie_name : Text
user_cookie_name = codes "rb_user"

abbrev pub user_pending_cookie : Text
user_pending_cookie = codes "rb_user_pending"

abbrev pub user_trusted_cookie : Text
user_trusted_cookie = codes "rb_user_trusted"

-- `userPending2FATTL` and `userTrustedTTL`, in nanoseconds and in the seconds of a cookie.
abbrev pub user_pending_ttl : ℤ
user_pending_ttl = pos 300_000_000_000

abbrev pub user_trusted_ttl : ℤ
user_trusted_ttl = pos 2_592_000_000_000_000

-- An audit entry of a user's own doing.
abbrev pub by_user : Text → Text → Text → Text → AuditEntry
by_user phone action target detail = record {
  actor = codes "user:" ++ phone;
  action = action;
  target = target;
  detail = detail;
}

abbrev pub to_login : Reply
to_login = redirect (codes "/user/login")

-- `sess == nil || sess.Kind != "user" || sess.UserID == nil`
abbrev pub user_of : Result (Option Session) → Option ℕ
user_of (err e) = none
user_of (ok none) = none
user_of (ok (some s)) = if is_user s.kind then s.user_id else none

-- `err == nil && u != nil && u.Suspended`
abbrev pub is_suspended : Result (Option User) → Bool
is_suspended (err e) = false
is_suspended (ok none) = false
is_suspended (ok (some u)) = u.suspended

-- `c, err := r.Cookie(name); err != nil || c.Value == ""`
abbrev pub token_of : Option Text → Option Text
token_of none = none
token_of (some v) = if is_empty v then none else some v

-- A row that a call may not have found.
abbrev pub found : {A : Type 0} → Result (Option A) → Option A
found (err e) = none
found (ok o) = o

-- `dev == nil || dev.UserID != userID`
abbrev pub is_device_for : ℕ → Option TrustedDevice → Bool
is_device_for user none = false
is_device_for user (some t) = t.user_id == user

module _ {S : Type 0} (h : Host) (r : Request) where
  -- The end of `currentUserID`, for the user of a session.
  abbrev pub unless_suspended : Option ℕ → Step S (Option ℕ)
  unless_suspended none = go none
  unless_suspended (some uid) = do
    u ← ask h λ w. get_user w uid
    go (if is_suspended u then none else some uid)

  abbrev pub session_user : Option Text → Step S (Option ℕ)
  session_user none = go none
  session_user (some token) = do
    s ← ask h λ w. get_session w token h.now
    unless_suspended (user_of s)

  -- `currentUserID`; its 0 is `none` here.
  unfoldable pub current_user_id : Step S (Option ℕ)
  current_user_id = session_user (token_of (r.cookie user_cookie_name))

  -- `requireUser`, and the lookup of the user with which every handler behind it starts.
  abbrev login_first : Option ℕ → Step S (Unit {0})
  login_first none = leave (redirect (codes "/user/login?next=" ++ r.uri))
  login_first (some uid) = go tt

  unfoldable pub require_user : Step S (Unit {0})
  unfolding current_user_id
  require_user = do
    uid ← current_user_id
    login_first uid
    need (verify_csrf r)
        (refused 403 (codes "CSRF token invalid — please refresh the page and retry"))

  abbrev pub known_user : Option ℕ → Step S User
  known_user none = leave to_login
  known_user (some uid) = do
    u ← ask h λ w. get_user w uid
    elim (found u) [ none ↦ leave to_login | some x ↦ go x ]

  unfoldable pub load_user : Step S User
  unfolding current_user_id
  load_user = do uid ← current_user_id; known_user uid

  -- `startUserSession`: without a session there is no cookie, and the handler goes on.
  abbrev cookie_if : Result (Unit {0}) → Step S (Unit {0})
  cookie_if (err e) = go tt
  cookie_if (ok _) =
      set_cookie
        (record { name = user_cookie_name; value = h.fresh for_session; max_age = h.session_ttl })

  unfoldable pub start_user_session : User → Step S (Unit {0})
  start_user_session u = do
    made ← ask h λ w.
        create_session w (h.fresh for_session) SessionKind.user u.phone (some u.id) h.session_ttl
          h.now
    cookie_if made

  -- `handleUserLogout`
  abbrev drop_session : Option Text → Step S (Unit {0})
  drop_session none = go tt
  drop_session (some token) = do _ ← ask h λ w. delete_session w token; go tt

  unfoldable pub handle_user_logout : Step S (Unit {0})
  handle_user_logout = do
    drop_session (r.cookie user_cookie_name)
    set_cookie (record { name = user_cookie_name; value = []; max_age = negsuc 0 })
    reply (redirect (codes "/portal"))

  -- `clearTrustedCookie`
  abbrev pub clear_trusted_cookie : Step S (Unit {0})
  clear_trusted_cookie =
      set_cookie (record { name = user_trusted_cookie; value = []; max_age = negsuc 0 })

  abbrev judged : ℕ → Result (Option TrustedDevice) → Step S Bool
  judged user (err e) = go false
  judged user (ok t) = if is_device_for user t then go true else (clear_trusted_cookie >> go false)

  abbrev checked_device : ℕ → Option Text → Step S Bool
  checked_device user none = go false
  checked_device user (some token) = do
    t ← ask_two h λ w bumps. get_trusted_device w bumps token h.now
    judged user t

  -- `consumeTrustedDeviceCookie`
  unfoldable pub consume_trusted_device_cookie : ℕ → Step S Bool
  consume_trusted_device_cookie user = checked_device user (token_of (r.cookie user_trusted_cookie))

  -- The start of the handlers behind `requireUser`: a POST, and the user of the session.
  unfoldable pub as_user : Reply → (User → Step S (Unit {0})) → Step S (Unit {0})
  unfolding load_user
  as_user elsewhere rest = do need (is_post r.method) elsewhere; u ← load_user; rest u
