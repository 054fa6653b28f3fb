-- ===== src/Server/SecondFactor.antt =====
-- internal/server/user_2fa.go: the login's second step. The settings of the second factor are in `Server.Settings`.
pub mod Swap
use router_billing.Prelude.{
  ℕ, ◌+◌, Bool, true, false, not, ◌&&◌, ◌||◌, Option, none, some, List, [], ◌∷◌, ◌++◌, Text, length,
  leb, ltb, ◌==◌, is_empty, text_eq, keep, take, if◌then◌else◌,
}
use router_billing.Prelude.Int.{ℤ, pos, negsuc}
use router_billing.Prelude.Table.{get, has_key, update_where, delete_where}
use router_billing.Prelude.Texts.{codes, trim_space}
use router_billing.Models.Accounts.{User, TrustedDevice}
use router_billing.Models.Passwords.{is_digit}
use router_billing.Totp.{verify}
use router_billing.Db.{Result, ok, err, Session}
use router_billing.Db.Sessions.{is_user_pending, get_session, delete_session}
use router_billing.Db.Users.{get_user}
use router_billing.Db.SecondFactor.{create_trusted_device}
use router_billing.Server.{App, AuditEntry, Tries}
use router_billing.Server.Web.{
  Request, Host, Reply, redirect, page, refused, Step, Outcome, goes, replied, Exchange, for_trust,
  is_get, is_post, ◌>>=◌, ◌>>◌, go, leave, need, need_some, set_cookie, ask, note, reply, change,
  client_ip, verify_csrf,
}
use router_billing.Server.Accounts.{
  user_pending_cookie, user_trusted_cookie, user_trusted_ttl, by_user, token_of, found,
  start_user_session,
}
use router_billing.Server.Login.{login_err, bad_method, bad_form}
use router_billing.Server.BackupCodes.{looks_like_backup_code, verify_and_consume_backup_code}

abbrev pub tries_key : Tries → Text
tries_key t = t.token

abbrev pub count_of : Option Tries → ℕ
count_of none = 0
count_of (some t) = t.count

-- `userTwoFAAttempts.m[token]`
unfoldable pub tries_of : Text → List Tries → ℕ
tries_of token ts = count_of (get tries_key token ts)

abbrev store_tries : Option Tries → Text → ℕ → List Tries → List Tries
store_tries none token n ts = ts ++ record { token = token; count = n } ∷ []
store_tries (some _) token n ts =
    update_where (has_key tries_key token) (λ t. record t { count = n }) ts

-- The write of `userTwoFANextAttempt`, and `userTwoFAReset`.
unfoldable pub next_attempt : Text → List Tries → List Tries
next_attempt token ts = store_tries (get tries_key token ts) token (tries_of token ts + 1) ts

unfoldable pub reset_attempts : Text → List Tries → List Tries
reset_attempts token ts = delete_where (has_key tries_key token) ts

unfoldable pub extract_digits : Text → Text
extract_digits s = keep is_digit s

-- `labelFromUserAgent`, which cuts a long text after 80 bytes: for a header of ASCII, whose letters are bytes.
unfoldable pub label_from_user_agent : Text → Text
label_from_user_agent ua =
    let t = trim_space ua in
    if is_empty t
    then codes "(unknown browser)"
    else if ltb 80 (length t)
    then take 80 t ++ codes "…"
    else t

-- An audit entry of somebody who has not proved who he is.
abbrev pub by_attempt : Text → Text → Text → AuditEntry
by_attempt phone action detail = record {
  actor = codes "user-attempt:" ++ phone;
  action = action;
  target = [];
  detail = detail;
}

-- `sess == nil || sess.Kind != userPendingSessionKind || sess.UserID == nil`
abbrev pub pending_of : Result (Option Session) → Option ℕ
pending_of (err e) = none
pending_of (ok none) = none
pending_of (ok (some s)) = if is_user_pending s.kind then s.user_id else none

-- `user == nil || user.TOTPSecret == "" || user.Suspended`
abbrev pub enrolled_of : Result (Option User) → Option User
enrolled_of (err e) = none
enrolled_of (ok none) = none
enrolled_of (ok (some u)) = if is_empty u.totp_secret || u.suspended then none else some u

abbrev two_fa_expired : Reply
two_fa_expired = login_err (codes "2fa_expired")

abbrev pub code_page : Text → Reply
code_page message = page (codes "user_2fa_login.html") message

abbrev pub two_fa_next : Request → Text
two_fa_next r =
    if is_empty (r.query (codes "next")) then codes "/user/me" else r.query (codes "next")

module _ {S : Type 0} (h : Host) (r : Request) where
  -- `issueTrustedDeviceCookie`
  abbrev trusted_cookie_if : User → Result TrustedDevice → Step S (Unit {0})
  trusted_cookie_if u (err e) = go tt
  trusted_cookie_if u (ok _) = do
    set_cookie
        (record { name = user_trusted_cookie; value = h.fresh for_trust; max_age = pos 2_592_000 })
    note h (by_user u.phone (codes "2fa_trusted_device_issued") [] (codes "ip=" ++ client_ip r))

  unfoldable pub trust_if : Bool → User → Step S (Unit {0})
  trust_if wanted u =
      if wanted
      then (ask h (λ w.
            create_trusted_device w u.id (h.fresh for_trust)
              (label_from_user_agent (r.header (codes "User-Agent"))) user_trusted_ttl h.now)
          >>= trusted_cookie_if u)
      else go tt

  -- Whose session waits for the code: the session's token and its user.
  unfoldable pub pending_login : Step S (Text × User)
  pending_login = do
    token ← need_some (token_of (r.cookie user_pending_cookie)) two_fa_expired
    sess ← ask h λ w. get_session w token h.now
    uid ← need_some (pending_of sess) two_fa_expired
    looked ← ask h λ w. get_user w uid
    u ← need_some (enrolled_of looked) two_fa_expired
    go (token, u)

  -- The cap on the attempts of a token.
  unfoldable pub count_attempt : Text → User → Step S (Unit {0})
  count_attempt token u = do
    change λ a. record a { tries = next_attempt token a.tries }
    n ← λ x. (goes (tries_of token x.app.tries), x)
    elim (ltb 5 n) [
      | false ↦ go tt
      | true ↦ do
        _ ← ask h λ w. delete_session w token
        change λ a. record a { tries = reset_attempts token a.tries }
        note h (by_attempt u.phone (codes "2fa_locked") (codes "attempts>5 ip=" ++ client_ip r))
        leave (login_err (codes "2fa_locked"))
    ]

  -- Is the code good? First the authenticator's, then a backup code.
  unfoldable pub check_code : User → Text → Step S (Option Text)
  check_code u raw =
      if verify h.crypto u.totp_secret (extract_digits raw) h.now
      then go (some (codes "totp"))
      else if looks_like_backup_code raw
      then (verify_and_consume_backup_code h u.id raw >>= λ used.
          go (if used then some (codes "backup_code") else none))
      else go none

  -- The pending session ends; an error of the DELETE is only logged.
  unfoldable pub drop_pending : Text → Step S (Unit {0})
  drop_pending token = do
    _ ← ask h λ w. delete_session w token
    change λ a. record a { tries = reset_attempts token a.tries }
    set_cookie (record { name = user_pending_cookie; value = []; max_age = negsuc 0 })

  unfoldable pub finish_login : User → Text → Text → Step S (Unit {0})
  unfolding start_user_session
  finish_login u via next = do
    start_user_session h r u
    note h (
        by_user u.phone (codes "login") [] ((codes "via=" ++ via) ++ (codes " ip=" ++ client_ip r)))
    reply (redirect next)

  -- The pending session is swapped for a real one.
  abbrev pub swap_session : Text → User → Text → Bool → Text → Step S (Unit {0})
  swap_session token u via trust next = do
    drop_pending token
    trust_if trust u
    finish_login u via next

  abbrev refuse_code : User → Step S (Unit {0})
  refuse_code u = do
    note h (by_attempt u.phone (codes "2fa_failed") (codes "ip=" ++ client_ip r))
    leave (code_page (codes "验证码错误，请再试一次"))

  abbrev pub judge_code : Text → User → (Text → Text) → Text → Option Text → Step S (Unit {0})
  judge_code token u f next none = refuse_code u
  judge_code token u f next (some via) =
      swap_session token u via (text_eq (f (codes "trust_device")) (codes "1")) next

  -- `handleUserLogin2FA` from the count of the attempts on.
  unfoldable pub posted_code : Text → User → (Text → Text) → Step S (Unit {0})
  unfolding count_attempt check_code
  posted_code token u f = do
    count_attempt token u
    good ← check_code u (f (codes "code"))
    judge_code token u f (two_fa_next r) good

  abbrev pub asked_code : Text → User → Step S (Unit {0})
  asked_code token u = do
    need (not (is_get r.method)) (code_page [])
    need (is_post r.method) bad_method
    need (verify_csrf r)
        (refused 403 (codes "CSRF token invalid — please refresh the page and retry"))
    f ← need_some r.form bad_form
    posted_code token u f

  -- `handleUserLogin2FA`
  unfoldable pub handle_user_login_2fa : Step S (Unit {0})
  unfolding pending_login posted_code
  handle_user_login_2fa = do (token, u) ← pending_login; asked_code token u
