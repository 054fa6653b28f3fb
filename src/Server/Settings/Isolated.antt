-- ===== src/Server/Settings/Isolated.antt =====
-- The handlers of a user's settings: they change nothing without a login, and nothing of any other user.
use router_billing.Prelude.{
  ℕ, ◌+◌, ◌≡◌, refl, sym, ap, subst, ◌∙◌, Bool, true, false, not, ◌&&◌, Option, none, some, [],
  ◌++◌, arith, inl, inr, Option-cases, Bool-cases, ◌==◌,
}
use router_billing.Prelude.Texts.{codes}
use router_billing.Models.Accounts.{User}
use router_billing.Db.{Db}
use router_billing.Db.Users.{get_user, confirm_user_totp}
use router_billing.Db.Users.Apart.{
  IsUntouched, set_user_totp_pending-IsUntouched, set_user_notify_expiry-IsUntouched,
  update_user_password-IsUntouched, confirm_user_totp-IsUntouched,
  delete_user_sessions_except-IsUntouched, delete_trusted_device-IsUntouched,
  delete_all_trusted_devices-IsUntouched, replace_backup_codes-IsUntouched,
  clear_user_totp-IsUntouched, delete_user-IsUntouched,
}
use router_billing.Server.{App}
use router_billing.Server.Web.{
  Request, Host, Step, Exchange, is_post, verify_csrf, client_ip, ask, value_of, Outcome-cases,
  bind-goes, bind-replied,
}
use router_billing.Server.Accounts.{user_cookie_name, load_user, as_user, require_user}
use router_billing.Server.Accounts.Gate.{
  is_some, signed_in, require_user-app, require_user-admits, load_user-app, load_user-signed_in,
}
use router_billing.Server.BackupCodes.{
  generate_and_store_backup_codes, generate_backup_codes, hash_backup_codes,
}
use router_billing.Server.Accounts.{found}
use router_billing.Server.Settings.{
  Parser, Setting, begins_2fa, confirms_2fa, disables_2fa, regenerates_codes, revokes_device,
  revokes_all_devices, sets_notices, deletes_account, signs_out_others, sets_password, elsewhere_of,
  setting_of, serve_setting, user_2fa_begin_of, user_2fa_confirm_of, user_2fa_disable_of,
  user_2fa_regenerate_codes_of, user_trusted_device_revoke_of, user_trusted_device_revoke_all_of,
  user_notification_prefs_of, user_account_delete_of, user_sign_out_others_of, user_password_of,
  wants_notice, hash_or_empty, enrolled, note_user, confirm_code, check_both, check_password,
}

-- Is this somebody else than the user who is logged in?
abbrev pub is_other : ℕ → Option ℕ → Bool
is_other v none = true
is_other v (some u) = not (v == u)

untouched : (v : ℕ) (d : Db) → IsUntouched v d d
untouched v d = (refl, refl, refl, refl, refl)

is_other-ne : (v u : ℕ) → is_other v (some u) ≡ true → (v == u) ≡ false
is_other-ne v u h = ground arith

module _ {S : Type 0} (h : Host) (r : Request) (v : ℕ) where
  -- A step for the user `u` that leaves the other user alone.
  abbrev Spares : Step S (Unit {0}) → Type 0
  Spares m = (x : Exchange S) → IsUntouched v x.app.router.db (m x).1.app.router.db

  module _ (u : User) (other : (v == u.id) ≡ false) where
    begin-Spares : Spares (user_2fa_begin_of h r u)
    unfolding user_2fa_begin_of
    begin-Spares x = elim (Option-cases h.secret) [
      | inl failed ↦ ground arith
      | inr (secret, e) ↦ ground (
        arith,
        set_user_totp_pending-IsUntouched v u.id other (h.works x.calls) secret h.now
            x.app.router.db,
      )
    ]

    store-Spares :
        (x : Exchange S)
        → IsUntouched v x.app.router.db (generate_and_store_backup_codes h u.id x).1.app.router.db
    unfolding generate_and_store_backup_codes
    store-Spares x = elim (Option-cases (generate_backup_codes h.backup_bytes)) [
      | inl failed ↦ ground arith
      | inr (plain, e) ↦ elim (Option-cases (hash_backup_codes h plain)) [
        | inl failed ↦ ground arith
        | inr (hashes, e2) ↦ ground (
          arith,
          replace_backup_codes-IsUntouched v u.id other (h.works x.calls) hashes h.now
              x.app.router.db,
        )
      ]
    ]

    disable-Spares : Spares (user_2fa_disable_of h r u)
    unfolding user_2fa_disable_of check_both
    disable-Spares x = ground (
      arith,
      clear_user_totp-IsUntouched v u.id other (h.works x.calls) (h.works (x.calls + 1))
          (h.works (x.calls + 2)) h.now x.app.router.db,
    )

    sign_out-Spares : Spares (user_sign_out_others_of h r u)
    unfolding user_sign_out_others_of
    sign_out-Spares x = ground (
      arith,
      delete_user_sessions_except-IsUntouched v u.id other (h.works x.calls)
          (value_of (r.cookie user_cookie_name)) x.app.router.db,
    )

    regenerate-Spares : Spares (user_2fa_regenerate_codes_of h r u)
    unfolding user_2fa_regenerate_codes_of
    regenerate-Spares x = ground (arith, store-Spares x)

    revoke-Spares : (p : Parser) → Spares (user_trusted_device_revoke_of h r p u)
    unfolding user_trusted_device_revoke_of
    revoke-Spares p x = elim (Option-cases r.form) [
      | inl missing ↦ ground arith
      | inr (f, e) ↦ elim (Option-cases (p.positive (f (codes "device_id")))) [
        | inl bad ↦ ground arith
        | inr (device, e2) ↦ ground (
          arith,
          delete_trusted_device-IsUntouched v u.id other (h.works x.calls) device x.app.router.db,
        )
      ]
    ]

    revoke_all-Spares : Spares (user_trusted_device_revoke_all_of h r u)
    unfolding user_trusted_device_revoke_all_of
    revoke_all-Spares x = ground (
      arith,
      delete_all_trusted_devices-IsUntouched v u.id other (h.works x.calls) x.app.router.db,
    )

    notices-Spares : Spares (user_notification_prefs_of h r u)
    unfolding user_notification_prefs_of
    notices-Spares x = elim (Option-cases r.form) [
      | inl missing ↦ ground arith
      | inr (f, e) ↦ ground (
        arith,
        set_user_notify_expiry-IsUntouched v u.id other (h.works x.calls)
            (wants_notice (f (codes "notify_expiry"))) h.now x.app.router.db,
      )
    ]

    delete-Spares : Spares (user_account_delete_of h r u)
    unfolding user_account_delete_of check_password
    delete-Spares x = ground (
      arith,
      delete_user-IsUntouched v u.id other (h.works x.calls) (h.works (x.calls + 1))
          x.app.router.db,
    )

    password-Spares : Spares (user_password_of h r u)
    unfolding user_password_of
    password-Spares x = elim (Option-cases r.form) [
      | inl missing ↦ ground arith
      | inr (f, e) ↦ ground (
        arith,
        update_user_password-IsUntouched v u.id other (h.works x.calls)
            (hash_or_empty (h.hash (f (codes "new_password")))) h.now x.app.router.db,
      )
    ]

    enrolled-Spares : Spares (enrolled h r u)
    unfolding enrolled get_user
    enrolled-Spares x =
        elim (Option-cases (found (get_user (h.works x.calls) u.id x.app.router.db).0)) [
          | inl missing ↦ ground arith
          | inr (w, e) ↦
              let x1 =
                (note_user h r w (codes "2fa_enrolled") [] (codes "ip=" ++ client_ip r)
                  (ask h (λ w. get_user w u.id) x).1).1 in
              ground (arith, store-Spares x1)
        ]

    confirm-Spares : Spares (user_2fa_confirm_of h r u)
    unfolding user_2fa_confirm_of confirm_code
    confirm-Spares x =
        let x1 = (ask h (λ w. confirm_user_totp w u.id h.now) x).1 in
        ground (
          arith,
          confirm_user_totp-IsUntouched v u.id other (h.works x.calls) h.now x.app.router.db,
          enrolled-Spares x1,
        )

    setting_of-Spares : (what : Setting) → Spares (setting_of h r what u)
    unfolding setting_of
    setting_of-Spares begins_2fa = begin-Spares
    setting_of-Spares confirms_2fa = confirm-Spares
    setting_of-Spares disables_2fa = disable-Spares
    setting_of-Spares regenerates_codes = regenerate-Spares
    setting_of-Spares (revokes_device p) = revoke-Spares p
    setting_of-Spares revokes_all_devices = revoke_all-Spares
    setting_of-Spares sets_notices = notices-Spares
    setting_of-Spares deletes_account = delete-Spares
    setting_of-Spares signs_out_others = sign_out-Spares
    setting_of-Spares sets_password = password-Spares

  as_user-Spares :
      (what : Setting) (x : Exchange S)
      → is_other v (signed_in h r x.app.router.db) ≡ true
      → IsUntouched v x.app.router.db
          (as_user h r (elsewhere_of what) (setting_of h r what) x).1.app.router.db
  unfolding as_user
  as_user-Spares what x apart =
      let x1 = (load_user h r x).1 in
      let same = load_user-app h r x in
      elim (Bool-cases (is_post r.method)) [
        | inr not_post ↦ rw not_post (untouched v x.app.router.db)
        | inl post ↦ elim (Outcome-cases (load_user h r x).0) [
          | inr (reply, e) ↦
              rw (post, bind-replied (load_user h r) (setting_of h r what) x reply e, same)
                (untouched v x.app.router.db)
          | inl (u, e) ↦
              let (own, found) = load_user-signed_in h r x u e in
              let other : (v == u.id) ≡ false =
                is_other-ne v u.id (ap (is_other v) (sym own) ∙ apart) in
              rw (post, bind-goes (load_user h r) (setting_of h r what) x u e)
                (subst
                  (λ (a : App S).
                    IsUntouched v a.router.db (setting_of h r what u x1).1.app.router.db)
                  same (setting_of-Spares u other what x1))
        ]
      ]

  -- A handler of the settings, whichever it is and whatever fails, leaves the account, the sessions, the trusted browsers, the
  -- backup codes and the devices of every user alone but those of the user who is logged in.
  pub serve_setting-IsUntouched :
      (what : Setting) (x : Exchange S)
      → is_other v (signed_in h r x.app.router.db) ≡ true
      → IsUntouched v x.app.router.db (serve_setting h r what x).1.app.router.db
  unfolding serve_setting
  serve_setting-IsUntouched what x apart =
      let rest = λ (_ : Unit {0}). as_user h r (elsewhere_of what) (setting_of h r what) in
      let x1 = (require_user h r x).1 in
      let same = require_user-app h r x in
      elim (Outcome-cases (require_user h r x).0) [
        | inr (reply, e) ↦
            rw (bind-replied (require_user h r) rest x reply e, same) (untouched v x.app.router.db)
        | inl (_, e) ↦
            let run = bind-goes (require_user h r) rest x tt e in
            let after =
              (as_user h r (elsewhere_of what) (setting_of h r what) x1).1.app.router.db in
            let apart1 =
              subst (λ (a : App S). is_other v (signed_in h r a.router.db) ≡ true) (sym same)
                apart in
            rw run (
              subst (λ (a : App S). IsUntouched v a.router.db after) same
                (as_user-Spares what x1 apart1))
      ]

module _ {S : Type 0} (h : Host) (r : Request) where
  -- Without a login, or without the page's CSRF token, a handler of the settings changes nothing.
  pub serve_setting-refused :
      (what : Setting) (x : Exchange S)
      → (is_some (signed_in h r x.app.router.db) && verify_csrf r) ≡ false
      → (serve_setting h r what x).1.app ≡ x.app
  unfolding serve_setting
  serve_setting-refused what x closed = elim (Outcome-cases (require_user h r x).0) [
    | inl (_, e) ↦ let admitted = require_user-admits h r x e in absurd (ground arith)
    | inr (reply, e) ↦
        let rest = λ (_ : Unit {0}). as_user h r (elsewhere_of what) (setting_of h r what) in
        rw (bind-replied (require_user h r) rest x reply e) (require_user-app h r x)
  ]
