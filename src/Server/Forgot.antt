-- ===== src/Server/Forgot.antt =====
-- internal/server/user_forgot.go: a password that is reset with a code sent by SMS.
pub mod Burned
use router_billing.Prelude.{
  ℕ, zero, suc, ◌+◌, ◌*◌, ◌/◌, ◌%◌, ◌-◌, ◌^◌, Bool, true, false, not, ◌&&◌, ◌||◌, Option, none,
  some, List, [], ◌∷◌, ◌++◌, Text, length, leb, ltb, ◌==◌, is_empty, all, if◌then◌else◌,
}
use router_billing.Prelude.Digits.{itoa}
use router_billing.Prelude.Int.{ℤ, pos}
use router_billing.Prelude.Texts.{codes, trim_space}
use router_billing.Models.Accounts.{User, PasswordReset}
use router_billing.Models.Passwords.{is_digit}
use router_billing.Models.TypedText.{valid_phone}
use router_billing.Db.{Result, ok, err}
use router_billing.Db.Sessions.{delete_sessions_by_user_id}
use router_billing.Db.Users.{get_user_by_phone, update_user_password}
use router_billing.Db.SecondFactor.{
  create_password_reset, get_active_password_reset, bump_password_reset_attempts,
  delete_password_reset,
}
use router_billing.Server.{App, SmsEntry}
use router_billing.Server.RateLimiter.{Limits, allow}
use router_billing.Server.Web.{
  Request, Host, Reply, redirect, page, refused, Step, Outcome, goes, replied, Exchange, is_get,
  is_post, ◌>>=◌, ◌>>◌, go, leave, need, need_some, need_ok, ask, ask_two, note, reply, change,
  client_ip, verify_csrf,
}
use router_billing.Server.Accounts.{by_user}
use router_billing.Server.Login.{login_err, bad_method, bad_form, password_valid, limit}

-- `pwResetCodeTTL`, `pwResetMaxAttempts` and `pwResetCodeLen`
abbrev pub reset_code_ttl : ℤ
reset_code_ttl = pos 600_000_000_000

abbrev pub reset_max_attempts : ℕ
reset_max_attempts = 5

abbrev pub reset_code_len : ℕ
reset_code_len = 6

-- The SMS provider: whether one is set, its name, and whether a message goes through.
pub record Provider : Type 0 where
  pub available : Bool
  pub name : Text
  pub sends : Text → Text → Bool
  -- the eight random bytes, as a number, that `genNumericCode` ends up with
  pub draws : ℕ

-- The last `n` decimal digits of a number, in the loop of `genNumericCode`.
unfoldable pub digits_of : ℕ → ℕ → Text → Text
digits_of zero v rest = rest
digits_of (suc n) v rest = digits_of n (v / 10) ((b'0' + v % 10) ∷ rest)

-- `genNumericCode`, at the first number that is below the largest multiple of 10^n.
unfoldable pub gen_numeric_code : ℕ → ℕ → Text
gen_numeric_code n v = digits_of n (v % 10 ^ n) []

unfoldable pub all_digits : Text → Bool
all_digits s = if is_empty s then false else all is_digit s

unfoldable pub pad_mins : ℕ → Text
pad_mins n = if n == 0 then codes "10 分钟" else itoa n ++ codes " 分钟"

abbrev pub reset_body : Text → Text
reset_body code =
    (codes "【router-billing】您的密码重置验证码：" ++ code)
    ++ (codes "，" ++ (pad_mins 10 ++ codes "内有效。若非本人操作，请忽略。"))

abbrev pub forgot_page : Text → Reply
forgot_page e = page (codes "user_forgot_password.html") e

abbrev bad_csrf : Reply
bad_csrf = refused 403 (codes "CSRF token invalid — please refresh the page and retry")

-- `user != nil && !user.Suspended`
abbrev pub usable_user : Option User → Option User
usable_user none = none
usable_user (some u) = if u.suspended then none else some u

-- The number of attempts after a wrong code; `n, _ :=` makes it 0 where the call fails.
abbrev pub counted : Result ℕ → ℕ
counted (err e) = 0
counted (ok n) = n

module _ {S : Type 0} (p : Provider) (h : Host) (r : Request) where
  -- `LogSMS`, whose failure is dropped.
  abbrev log_sms : Bool → Text → Text → App S → App S
  log_sms works phone message a =
      if works
      then record a {
        sms_log =
            a.sms_log
            ++ record {
              provider = p.name;
              phone = phone;
              message = message;
              success = p.sends phone message;
            }
              ∷ [];
      }
      else a

  -- `SendSMS`
  abbrev send_sms : Text → Text → Step S Bool
  send_sms phone message x = (
    goes (p.sends phone message),
    record x { app = log_sms (h.works x.calls) phone message x.app; calls = x.calls + 1 },
  )

  -- The code for a user that exists; nothing of it shows for one that does not.
  unfoldable pub send_code : Text → Option User → Step S (Unit {0})
  send_code phone none = go tt
  send_code phone (some u) = do
    let code = gen_numeric_code reset_code_len p.draws
    hash ← need_some (h.hash code) (forgot_page (codes "internal"))
    row ← ask h λ w. create_password_reset w u.id hash reset_code_ttl h.now
    _ ← need_ok row (forgot_page (codes "internal"))
    sent ← send_sms u.phone (reset_body code)
    need sent (forgot_page (codes "sms_failed"))
    note h (
        by_user u.phone (codes "password_reset_request") []
          ((codes "provider=" ++ p.name) ++ (codes " ip=" ++ client_ip r)))

  abbrev posted_forgot : Text → Step S (Unit {0})
  posted_forgot phone = do
    need (valid_phone phone) (forgot_page (codes "bad_phone"))
    passed ← limit h r (λ l. l.reset_issue_phone) (λ k l. record l { reset_issue_phone = k }) phone
    need passed (forgot_page (codes "rate_limited"))
    looked ← ask h λ w. get_user_by_phone w phone
    user ← need_ok looked (forgot_page (codes "internal"))
    send_code phone (usable_user user)
    reply (forgot_page [])

  -- `handleUserForgotPassword`
  unfoldable pub handle_user_forgot_password : Step S (Unit {0})
  unfolding send_code
  handle_user_forgot_password = do
    need p.available (login_err (codes "sms_unavailable"))
    need (not (is_get r.method)) (forgot_page [])
    need (is_post r.method) bad_method
    need (verify_csrf r) bad_csrf
    passed ←
        limit h r (λ l. l.reset_issue_ip) (λ k l. record l { reset_issue_ip = k }) (client_ip r)
    need passed (forgot_page (codes "rate_limited"))
    f ← need_some r.form bad_form
    posted_forgot (trim_space (f (codes "phone")))

  abbrev give_up_if : Bool → PasswordReset → Step S (Unit {0})
  give_up_if false row = leave (forgot_page (codes "bad_code"))
  give_up_if true row = do
    _ ← ask h λ w. delete_password_reset w row.id
    leave (forgot_page (codes "too_many_attempts"))

  unfoldable pub wrong_code : User → PasswordReset → Step S (Unit {0})
  wrong_code u row = do
    n ← ask_two h λ w rereads. bump_password_reset_attempts w rereads row.id
    note h (
        by_user u.phone (codes "password_reset_failed") []
          ((codes "attempts=" ++ itoa (counted n)) ++ (codes " ip=" ++ client_ip r)))
    give_up_if (leb reset_max_attempts (counted n)) row

  unfoldable pub right_code : User → PasswordReset → Text → Step S (Unit {0})
  right_code u row password = do
    hash ← need_some (h.hash password) (forgot_page (codes "internal"))
    changed ← ask h λ w. update_user_password w u.id hash h.now
    _ ← need_ok changed (forgot_page (codes "internal"))
    _ ← ask h λ w. delete_password_reset w row.id
    _ ← ask h λ w. delete_sessions_by_user_id w u.id
    note h (by_user u.phone (codes "password_reset") [] (codes "via=sms ip=" ++ client_ip r))
    reply (redirect (codes "/user/login?ok=password_reset"))

  -- The checks of `handleUserForgotPasswordVerify` before it asks the database.
  unfoldable pub check_verify : Text → Text → Text → Step S (Unit {0})
  check_verify phone code password = do
    need (valid_phone phone) (forgot_page (codes "bad_phone"))
    passed ←
        limit h r (λ l. l.reset_verify_ip) (λ k l. record l { reset_verify_ip = k }) (client_ip r)
    need passed (forgot_page (codes "rate_limited"))
    passed_phone ←
        limit h r (λ l. l.reset_verify_phone) (λ k l. record l { reset_verify_phone = k }) phone
    need passed_phone (forgot_page (codes "rate_limited"))
    need (length code == reset_code_len && all_digits code) (forgot_page (codes "bad_code"))
    need (password_valid h password) (forgot_page (codes "bad_password"))

  -- The row that the code is compared with.
  unfoldable pub open_reset : Text → Step S (User × PasswordReset)
  open_reset phone = do
    looked ← ask h λ w. get_user_by_phone w phone
    user ← need_ok looked (forgot_page (codes "internal"))
    u ← need_some (usable_user user) (forgot_page (codes "bad_code"))
    got ← ask h λ w. get_active_password_reset w u.id h.now
    opened ← need_ok got (forgot_page (codes "internal"))
    row ← need_some opened (forgot_page (codes "expired"))
    go (u, row)

  -- What follows the comparison of the code.
  abbrev pub try_code : Text → Text → User → PasswordReset → Step S (Unit {0})
  try_code code password u row =
      if h.matches row.code_hash code then right_code u row password else wrong_code u row

  unfoldable pub posted_verify : Text → Text → Text → Step S (Unit {0})
  unfolding check_verify open_reset right_code wrong_code
  posted_verify phone code password = do
    check_verify phone code password
    (u, row) ← open_reset phone
    try_code code password u row

  -- `handleUserForgotPasswordVerify`
  unfoldable pub handle_user_forgot_password_verify : Step S (Unit {0})
  unfolding posted_verify
  handle_user_forgot_password_verify = do
    need p.available (login_err (codes "sms_unavailable"))
    need (is_post r.method) (redirect (codes "/user/forgot-password"))
    need (verify_csrf r) bad_csrf
    f ← need_some r.form bad_form
    posted_verify (trim_space (f (codes "phone"))) (trim_space (f (codes "code")))
        (f (codes "new_password"))
