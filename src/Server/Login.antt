-- ===== src/Server/Login.antt =====
-- internal/server/user.go: `handleUserLogin` and `handleUserRegister`.
pub mod Admitted
use router_billing.Prelude.{
  ℕ, Bool, true, false, not, ◌&&◌, Option, none, some, List, [], ◌∷◌, ◌++◌, Text, is_empty, ◌==◌,
  if◌then◌else◌,
}
use router_billing.Prelude.Int.{ℤ, pos}
use router_billing.Prelude.Texts.{codes, trim_space, has_prefix}
use router_billing.Models.Accounts.{User}
use router_billing.Models.Passwords.{valid_password, valid_password_strong}
use router_billing.Models.TypedText.{valid_phone}
use router_billing.Db.{Query, Result, ok, err, SessionKind}
use router_billing.Db.Sessions.{create_session}
use router_billing.Db.Users.{get_user_by_phone, create_user}
use router_billing.Server.{App}
use router_billing.Server.RateLimiter.{Limiter, Limits, allow}
use router_billing.Server.Web.{
  Request, Host, Reply, redirect, page, refused, Step, Outcome, goes, replied, Exchange,
  for_pending, is_get, is_post, ◌>>=◌, ◌>>◌, go, leave, need, need_some, need_ok, set_cookie, ask,
  note, reply, client_ip,
}
use router_billing.Server.Accounts.{
  user_pending_cookie, user_pending_ttl, by_user, start_user_session, consume_trusted_device_cookie,
}

-- One of the limiters, and how it is put back.
abbrev pub with_limits : {S : Type 0} → Limits → App S → App S
with_limits l a = record a { limits = l }

abbrev pub login_err : Text → Reply
login_err code = redirect (codes "/user/login?err=" ++ code)

abbrev pub register_err : Text → Reply
register_err code = redirect (codes "/user/register?err=" ++ code)

-- `http.Error(w, "method", http.StatusMethodNotAllowed)`, and that of a form that cannot be parsed.
abbrev pub bad_method : Reply
bad_method = refused 405 (codes "method")

abbrev pub bad_form : Reply
bad_form = refused 400 (codes "form")

-- `user == nil || bcrypt.CompareHashAndPassword(…) != nil`
abbrev pub with_password : Host → Text → Option User → Option User
with_password h password none = none
with_password h password (some u) = if h.matches u.password_hash password then some u else none

-- `if !strings.HasPrefix(next, "/")`
abbrev pub next_of : Text → Text
next_of next = if has_prefix next (codes "/") then next else codes "/user/me"

-- `passwordValidatorFor`
abbrev pub password_valid : Host → Text → Bool
password_valid h p = if h.strict then valid_password_strong p else valid_password p

-- `existing, _ := …; existing != nil`
abbrev is_taken : Result (Option User) → Bool
is_taken (ok (some u)) = true
is_taken _ = false

module _ {S : Type 0} (h : Host) (r : Request) where
  -- A limiter is asked, and keeps what it has seen.
  abbrev pub limit : (Limits → Limiter) → (Limiter → Limits → Limits) → Text → Step S Bool
  limit get put key x =
      let (passed, l) = allow key h.now (get x.app.limits) in
      (goes passed, record x { app = with_limits (put l x.app.limits) x.app })

  abbrev pub limit_login : Step S Bool
  limit_login = limit (λ l. l.login) (λ k l. record l { login = k }) (client_ip r)

  abbrev pub limit_phone : Text → Step S Bool
  limit_phone = limit (λ l. l.login_by_phone) (λ k l. record l { login_by_phone = k })

  -- `handleUserLogin` up to the check of the password, which gives the user and the rest of the form.
  abbrev checked_password : Text → Option User → Step S User
  checked_password phone none = do
    note h (by_user phone (codes "login_failed") [] (client_ip r))
    leave (login_err (codes "bad_credentials"))
  checked_password phone (some u) = go u

  abbrev refuse_suspended : Text → User → Step S (Unit {0})
  refuse_suspended phone u =
      if u.suspended
      then (note h (by_user phone (codes "login_suspended") [] (client_ip r))
          >> leave (login_err (codes "suspended")))
      else go tt

  unfoldable pub check_login : Text → Text → Step S User
  check_login phone password = do
    need (valid_phone phone) (login_err (codes "bad_phone"))
    passed ← limit_phone phone
    need passed (login_err (codes "rate_limited"))
    looked ← ask h λ w. get_user_by_phone w phone
    u ← need_ok looked (login_err (codes "internal"))
    user ← checked_password phone (with_password h password u)
    refuse_suspended phone user
    go user

  -- The session that waits for the second factor.
  abbrev hold : User → Text → Step S (Unit {0})
  hold u next = do
    made ← ask h λ w.
        create_session w (h.fresh for_pending) SessionKind.user_pending_2fa u.phone (some u.id)
          user_pending_ttl h.now
    need_ok made (login_err (codes "internal"))
    set_cookie
        (record { name = user_pending_cookie; value = h.fresh for_pending; max_age = pos 300 })
    reply (redirect (codes "/user/login/2fa?next=" ++ h.escape next))

  abbrev pub enter : User → Text → Text → Step S (Unit {0})
  enter u detail next = do
    start_user_session h r u
    note h (by_user u.phone (codes "login") [] detail)
    reply (redirect next)

  abbrev unless_trusted : User → Text → Bool → Step S (Unit {0})
  unless_trusted u next true = enter u (codes "via=trusted_device ip=" ++ client_ip r) next
  unless_trusted u next false = hold u next

  -- `handleUserLogin` from the check of the second factor on.
  unfoldable pub admit_user : User → Text → Step S (Unit {0})
  unfolding start_user_session consume_trusted_device_cookie
  admit_user u next =
      if is_empty u.totp_secret
      then enter u (client_ip r) next
      else (consume_trusted_device_cookie h r u.id >>= unless_trusted u next)

  abbrev pub posted_login : (Text → Text) → Step S (Unit {0})
  posted_login f = do
    u ← check_login (trim_space (f (codes "phone"))) (f (codes "password"))
    admit_user u (next_of (f (codes "next")))

  -- `handleUserLogin`
  unfoldable pub handle_user_login : Step S (Unit {0})
  unfolding check_login admit_user
  handle_user_login = do
    need (not (is_get r.method)) (page (codes "user_login.html") [])
    need (is_post r.method) bad_method
    passed ← limit_login
    need passed (login_err (codes "rate_limited"))
    f ← need_some r.form bad_form
    posted_login f

  abbrev posted_register : Text → Text → Step S (Unit {0})
  posted_register phone password = do
    need (valid_phone phone) (register_err (codes "bad_phone"))
    need (password_valid h password) (register_err (codes "bad_password"))
    existing ← ask h λ w. get_user_by_phone w phone
    need (not (is_taken existing)) (register_err (codes "phone_exists"))
    hash ← need_some (h.hash password) (register_err (codes "internal"))
    made ← ask h λ w. create_user w phone hash h.now
    u ← need_ok made (register_err (codes "internal"))
    start_user_session h r u
    note h (by_user phone (codes "register") [] (client_ip r))
    reply (redirect (codes "/user/me?ok=registered"))

  -- `handleUserRegister`
  unfoldable pub handle_user_register : Step S (Unit {0})
  handle_user_register = do
    need (not (is_get r.method)) (page (codes "user_register.html") [])
    need (is_post r.method) bad_method
    passed ← limit (λ l. l.register) (λ k l. record l { register = k }) (client_ip r)
    need passed (register_err (codes "rate_limited"))
    f ← need_some r.form bad_form
    posted_register (trim_space (f (codes "phone"))) (f (codes "password"))
