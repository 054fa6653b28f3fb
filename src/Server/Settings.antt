-- ===== src/Server/Settings.antt =====
-- internal/server/user_2fa.go, user_trusted_devices.go, user_backup_codes.go and user.go: what a user who is logged in
-- changes of his account. Each handler runs behind `requireUser`.
pub mod Isolated
use router_billing.Prelude.{
  ℕ, Bool, true, false, not, ◌&&◌, ◌||◌, Option, none, some, List, [], ◌∷◌, ◌++◌, Text, ltb, ◌==◌,
  is_empty, text_eq, if◌then◌else◌,
}
use router_billing.Prelude.Digits.{itoa}
use router_billing.Prelude.Int.{ℤ, negsuc}
use router_billing.Prelude.Texts.{codes}
use router_billing.Models.Accounts.{User}
use router_billing.Totp.{verify}
use router_billing.Db.{Result, ok, err}
use router_billing.Db.Sessions.{delete_user_sessions_except}
use router_billing.Db.Users.{
  get_user, set_user_totp_pending, confirm_user_totp, set_user_notify_expiry, update_user_password,
  delete_user,
}
use router_billing.Db.SecondFactor.{
  clear_user_totp, delete_trusted_device, delete_all_trusted_devices,
}
use router_billing.Server.Web.{
  Request, Host, Reply, redirect, page, Step, Outcome, goes, replied, is_post, ◌>>=◌, ◌>>◌, go,
  leave, need, need_some, panicked, need_ok, set_cookie, ask, ask_two, ask_three, note, reply,
  client_ip, value_of,
}
use router_billing.Server.Accounts.{
  by_user, to_login, user_cookie_name, user_trusted_cookie, require_user, as_user, load_user,
  clear_trusted_cookie, found,
}
use router_billing.Server.Login.{bad_form, password_valid}
use router_billing.Server.BackupCodes.{generate_and_store_backup_codes}
use router_billing.Server.SecondFactor.{extract_digits}

abbrev pub to_2fa : Text → Reply
to_2fa what = redirect (codes "/user/2fa" ++ what)

abbrev pub to_me : Text → Reply
to_me what = redirect (codes "/user/me" ++ what)

abbrev internal_2fa : Reply
internal_2fa = to_2fa (codes "?err=internal")

abbrev internal_me : Reply
internal_me = to_me (codes "?err=internal")

abbrev codes_page : Reply
codes_page = page (codes "user_2fa_codes.html") []

-- `strconv.ParseInt(s, 10, 64)`, whose error leaves 0, and `deviceID <= 0`: a positive number, or nothing.
-- The parser belongs to Go's library.
pub record Parser : Type 0 where
  pub positive : Text → Option ℕ

abbrev pub wants_notice : Text → Bool
wants_notice s = text_eq s (codes "on") || text_eq s (codes "1")

abbrev pub hash_or_empty : Option Text → Text
hash_or_empty none = []
hash_or_empty (some hash) = hash

module _ {S : Type 0} (h : Host) (r : Request) where
  -- `a.DB.Audit(…, "user:"+user.Phone, action, target, detail)`
  abbrev pub note_user : User → Text → Text → Text → Step S (Unit {0})
  note_user u action target detail = note h (by_user u.phone action target detail)

  -- `handleUser2FABegin`
  unfoldable pub user_2fa_begin_of : User → Step S (Unit {0})
  user_2fa_begin_of u = do
    need (is_empty u.totp_secret) (to_2fa (codes "?err=2fa_already_on"))
    secret ← need_some h.secret internal_2fa
    set ← ask h λ w. set_user_totp_pending w u.id secret h.now
    _ ← need_ok set internal_2fa
    note_user u (codes "2fa_enroll_begin") [] (codes "ip=" ++ client_ip r)
    reply (to_2fa [])

  abbrev show_codes : User → Option (List Text) → Step S (Unit {0})
  show_codes u none = leave (to_2fa (codes "?ok=2fa_enabled&err=backup_codes_failed"))
  show_codes u (some plain) = do
    note_user u (codes "2fa_backup_codes_issued") [] (codes "count=10 ip=" ++ client_ip r)
    leave codes_page

  unfoldable pub confirm_code : User → Text → Step S (Unit {0})
  confirm_code u code =
      if verify h.crypto u.totp_pending code h.now
      then go tt
      else (note_user u (codes "2fa_enroll_failed") [] (codes "ip=" ++ client_ip r)
          >> leave (to_2fa (codes "?err=2fa_failed")))

  -- `handleUser2FAConfirm` after the secret has been confirmed. The user is read again, and where that fails the code
  -- reads the phone number of a nil pointer.
  unfoldable pub enrolled : User → Step S (Unit {0})
  unfolding generate_and_store_backup_codes
  enrolled u = do
    got ← ask h λ w. get_user w u.id
    now_on ← need_some (found got) panicked
    note_user now_on (codes "2fa_enrolled") [] (codes "ip=" ++ client_ip r)
    plain ← generate_and_store_backup_codes h u.id
    show_codes now_on plain

  -- `handleUser2FAConfirm`
  unfoldable pub user_2fa_confirm_of : User → Step S (Unit {0})
  unfolding confirm_code enrolled
  user_2fa_confirm_of u = do
    need (not (is_empty u.totp_pending)) (to_2fa (codes "?err=2fa_not_enrolled"))
    f ← need_some r.form bad_form
    confirm_code u (extract_digits (f (codes "code")))
    done ← ask h λ w. confirm_user_totp w u.id h.now
    _ ← need_ok done internal_2fa
    enrolled u

  -- The two checks of `handleUser2FADisable`: the password, then the code.
  unfoldable pub check_both : User → Text → Text → Step S (Unit {0})
  check_both u password code =
      if not (h.matches u.password_hash password)
      then (note_user u (codes "2fa_disable_failed") []
            (codes "reason=bad_password ip=" ++ client_ip r)
          >> leave (to_2fa (codes "?err=bad_credentials")))
      else if not (verify h.crypto u.totp_secret code h.now)
      then (note_user u (codes "2fa_disable_failed") [] (codes "reason=bad_code ip=" ++ client_ip r)
          >> leave (to_2fa (codes "?err=2fa_failed")))
      else go tt

  -- `handleUser2FADisable`
  unfoldable pub user_2fa_disable_of : User → Step S (Unit {0})
  unfolding check_both
  user_2fa_disable_of u = do
    need (not (is_empty u.totp_secret)) (to_2fa (codes "?err=2fa_not_enrolled"))
    f ← need_some r.form bad_form
    check_both u (f (codes "password")) (extract_digits (f (codes "code")))
    cleared ← ask_three h λ w c t. clear_user_totp w c t u.id h.now
    _ ← need_ok cleared internal_2fa
    note_user u (codes "2fa_disabled") [] (codes "ip=" ++ client_ip r)
    reply (to_2fa (codes "?ok=2fa_disabled"))

  abbrev show_new_codes : User → Option (List Text) → Step S (Unit {0})
  show_new_codes u none = leave internal_2fa
  show_new_codes u (some plain) = do
    note_user u (codes "2fa_backup_codes_regenerated") [] (codes "ip=" ++ client_ip r)
    leave codes_page

  -- `handleUser2FARegenerateCodes`
  unfoldable pub user_2fa_regenerate_codes_of : User → Step S (Unit {0})
  unfolding generate_and_store_backup_codes
  user_2fa_regenerate_codes_of u = do
    need (not (is_empty u.totp_secret)) (to_2fa (codes "?err=2fa_not_enrolled"))
    plain ← generate_and_store_backup_codes h u.id
    show_new_codes u plain

  -- `handleUserTrustedDeviceRevoke`
  unfoldable pub user_trusted_device_revoke_of : Parser → User → Step S (Unit {0})
  user_trusted_device_revoke_of p u = do
    f ← need_some r.form bad_form
    device ← need_some (p.positive (f (codes "device_id"))) internal_2fa
    gone ← ask h λ w. delete_trusted_device w u.id device
    _ ← need_ok gone internal_2fa
    note_user u (codes "2fa_trusted_device_revoked") (itoa device) (codes "ip=" ++ client_ip r)
    reply (to_2fa (codes "?ok=device_revoked"))

  -- `handleUserTrustedDeviceRevokeAll`
  unfoldable pub user_trusted_device_revoke_all_of : User → Step S (Unit {0})
  user_trusted_device_revoke_all_of u = do
    gone ← ask h λ w. delete_all_trusted_devices w u.id
    _ ← need_ok gone internal_2fa
    clear_trusted_cookie h r
    note_user u (codes "2fa_trusted_devices_revoked_all") [] (codes "ip=" ++ client_ip r)
    reply (to_2fa (codes "?ok=devices_revoked"))

  -- `handleUserNotificationPrefs`
  unfoldable pub user_notification_prefs_of : User → Step S (Unit {0})
  user_notification_prefs_of u = do
    f ← need_some r.form bad_form
    let on = wants_notice (f (codes "notify_expiry"))
    set ← ask h λ w. set_user_notify_expiry w u.id on h.now
    _ ← need_ok set internal_me
    note_user u (if on then codes "notify_expiry_on" else codes "notify_expiry_off") []
        (codes "ip=" ++ client_ip r)
    reply (to_me (codes "?ok=prefs"))

  -- `handleUserAccountDelete`
  unfoldable pub check_password : User → Text → Step S (Unit {0})
  check_password u password =
      if h.matches u.password_hash password
      then go tt
      else (note_user u (codes "account_delete_failed") []
            (codes "reason=bad_password ip=" ++ client_ip r)
          >> leave (to_me (codes "?err=bad_credentials")))

  unfoldable pub user_account_delete_of : User → Step S (Unit {0})
  unfolding check_password
  user_account_delete_of u = do
    f ← need_some r.form bad_form
    check_password u (f (codes "password"))
    gone ← ask_two h λ drops w. delete_user drops w u.id
    _ ← need_ok gone internal_me
    note_user u (codes "account_self_deleted") [] (codes "ip=" ++ client_ip r)
    set_cookie (record { name = user_cookie_name; value = []; max_age = negsuc 0 })
    clear_trusted_cookie h r
    reply (redirect (codes "/portal?ok=account_deleted"))

  -- `handleUserSignOutOthers`
  unfoldable pub user_sign_out_others_of : User → Step S (Unit {0})
  user_sign_out_others_of u = do
    n ← ask h λ w. delete_user_sessions_except w u.id (value_of (r.cookie user_cookie_name))
    gone ← need_ok n internal_me
    note_user u (codes "sessions_revoked_others") []
        ((codes "killed=" ++ itoa gone) ++ (codes " ip=" ++ client_ip r))
    reply (to_me (codes "?ok=signed_out_others"))

  -- `handleUserPassword`; where the hash fails, the code stores the empty text.
  unfoldable pub user_password_of : User → Step S (Unit {0})
  user_password_of u = do
    f ← need_some r.form bad_form
    need (h.matches u.password_hash (f (codes "old_password")))
        (to_me (codes "?err=bad_credentials"))
    need (password_valid h (f (codes "new_password"))) (to_me (codes "?err=bad_password"))
    changed ←
        ask h
          λ w. update_user_password w u.id (hash_or_empty (h.hash (f (codes "new_password")))) h.now
    _ ← need_ok changed internal_me
    note_user u (codes "password_change") [] []
    reply (to_me (codes "?ok=password"))

-- The settings' handlers, as `Routes` names them.
pub data Setting : Type 0 where
  begins_2fa confirms_2fa disables_2fa regenerates_codes : Setting
  revokes_device : Parser → Setting
  revokes_all_devices sets_notices deletes_account signs_out_others sets_password : Setting

-- Where a request goes that is not a POST.
unfoldable pub elsewhere_of : Setting → Reply
elsewhere_of begins_2fa = to_2fa []
elsewhere_of confirms_2fa = to_2fa []
elsewhere_of disables_2fa = to_2fa []
elsewhere_of regenerates_codes = to_2fa []
elsewhere_of (revokes_device _) = to_2fa []
elsewhere_of revokes_all_devices = to_2fa []
elsewhere_of sets_notices = to_me []
elsewhere_of deletes_account = to_me []
elsewhere_of signs_out_others = to_me []
elsewhere_of sets_password = to_me []

module _ {S : Type 0} (h : Host) (r : Request) where
  unfoldable pub setting_of : Setting → User → Step S (Unit {0})
  setting_of begins_2fa = user_2fa_begin_of h r
  setting_of confirms_2fa = user_2fa_confirm_of h r
  setting_of disables_2fa = user_2fa_disable_of h r
  setting_of regenerates_codes = user_2fa_regenerate_codes_of h r
  setting_of (revokes_device p) = user_trusted_device_revoke_of h r p
  setting_of revokes_all_devices = user_trusted_device_revoke_all_of h r
  setting_of sets_notices = user_notification_prefs_of h r
  setting_of deletes_account = user_account_delete_of h r
  setting_of signs_out_others = user_sign_out_others_of h r
  setting_of sets_password = user_password_of h r

  -- `a.requireUser(handler)`
  unfoldable pub serve_setting : Setting → Step S (Unit {0})
  unfolding require_user
  serve_setting what = do require_user h r; as_user h r (elsewhere_of what) (setting_of what)
