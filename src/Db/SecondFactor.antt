-- ===== src/Db/SecondFactor.antt =====
-- internal/db/db.go: the sections on trusted devices, backup codes and password resets.
pub mod Trust
pub mod Resets
use router_billing.Prelude.{
  ℕ, suc, ◌+◌, Bool, true, false, ◌&&◌, not, Option, none, some, List, [], ◌∷◌, ◌++◌, Text, text_eq,
  is_empty, ◌==◌, if◌then◌else◌,
}
use router_billing.Prelude.Lists.{keep}
use router_billing.Prelude.Int.{ℤ, ◌+ℤ◌, leb_ℤ}
use router_billing.Prelude.Table.{find, get, has_key, update_where, delete_where}
use router_billing.Models.{Time, after}
use router_billing.Models.Accounts.{User, TrustedDevice, BackupCode, PasswordReset}
use router_billing.Db.{
  Db, Query, Result, ok, err, sql_failed, unique_violation, pure, fail, reads, or_fail, ◌>>=◌, ◌>>◌,
  modify, fail_if, call,
}
use router_billing.Db.Users.{update_user, try}

abbrev pub device_key : TrustedDevice → Text
device_key t = t.token

abbrev pub new_trusted_device : ℕ → ℕ → Text → Text → ℤ → Time → TrustedDevice
new_trusted_device id user token label ttl now = record {
  id = id;
  user_id = user;
  token = token;
  label = label;
  expires_at = now +ℤ ttl;
  last_seen = now;
  created_at = now;
}

unfoldable pub create_trusted_device : Bool → ℕ → Text → Text → ℤ → Time → Query TrustedDevice
create_trusted_device works user token label ttl now = call works (do
  fail_if (elim (← reads λ d. get device_key token d.trusted) [ none ↦ false | some _ ↦ true ])
      unique_violation
  t ← reads λ d. new_trusted_device (d.trusted_seq + 1) user token label ttl now
  modify λ d. record d { trusted = d.trusted ++ t ∷ []; trusted_seq = t.id }
  pure t)

-- `token = ? AND expires_at > ?`
abbrev pub is_trusted : Text → Time → TrustedDevice → Bool
is_trusted token now t = has_key device_key token t && after t.expires_at now

-- The bump of `last_seen`, best effort.
abbrev pub bump_seen : Bool → Time → Option TrustedDevice → Query (Option TrustedDevice)
bump_seen bumps now none = pure none
bump_seen bumps now (some t) =
    try bumps (λ d. record d {
      trusted = update_where (λ x. x.id == t.id) (λ x. record x { last_seen = now }) d.trusted;
    })
    >> pure (some t)

unfoldable pub get_trusted_device : Bool → Bool → Text → Time → Query (Option TrustedDevice)
get_trusted_device works bumps token now =
    if is_empty token
    then pure none
    else (call works (reads λ d. find (is_trusted token now) d.trusted) >>= bump_seen bumps now)

-- `ORDER BY id DESC`: the last row first.
unfoldable pub latest_first : List TrustedDevice → List TrustedDevice
latest_first [] = []
latest_first (t ∷ ts) = latest_first ts ++ t ∷ []

unfoldable pub list_trusted_devices : Bool → ℕ → Query (List TrustedDevice)
list_trusted_devices works user =
    call works (reads λ d. latest_first (keep (λ t. t.user_id == user) d.trusted))

-- `id = ? AND user_id = ?`
abbrev pub is_device_of : ℕ → ℕ → TrustedDevice → Bool
is_device_of user id t = t.id == id && t.user_id == user

unfoldable pub delete_trusted_device : Bool → ℕ → ℕ → Query (Unit {0})
delete_trusted_device works user id =
    call works (modify λ d. record d { trusted = delete_where (is_device_of user id) d.trusted })

unfoldable pub delete_all_trusted_devices : Bool → ℕ → Query (Unit {0})
delete_all_trusted_devices works user =
    call works (modify λ d. record d { trusted = delete_where (λ t. t.user_id == user) d.trusted })

unfoldable pub purge_expired_trusted_devices : Bool → Time → Query (Unit {0})
purge_expired_trusted_devices works now =
    call works
      (modify λ d. record d { trusted = delete_where (λ t. leb_ℤ t.expires_at now) d.trusted })

-- The INSERTs of `ReplaceBackupCodes`, with ids from `id` on.
unfoldable pub new_backup_codes : ℕ → ℕ → List Text → Time → List BackupCode
new_backup_codes id user [] now = []
new_backup_codes id user (h ∷ hashes) now =
    record { id = id; user_id = user; code_hash = h; used_at = none; created_at = now }
    ∷ new_backup_codes (id + 1) user hashes now

abbrev pub count_codes : List BackupCode → ℕ
count_codes [] = 0
count_codes (b ∷ bs) = suc (count_codes bs)

unfoldable pub replace_backup_codes : Bool → ℕ → List Text → Time → Query (Unit {0})
replace_backup_codes works user hashes now = call works (do
  modify λ d. record d { backup_codes = delete_where (λ b. b.user_id == user) d.backup_codes }
  codes ← reads λ d. new_backup_codes (d.backup_seq + 1) user hashes now
  modify λ d. record d {
    backup_codes = d.backup_codes ++ codes;
    backup_seq = d.backup_seq + count_codes codes;
  })

unfoldable pub list_backup_codes : Bool → ℕ → Query (List BackupCode)
list_backup_codes works user = call works (reads λ d. keep (λ b. b.user_id == user) d.backup_codes)

abbrev pub is_unused : Option Time → Bool
is_unused none = true
is_unused (some _) = false

unfoldable pub unused_backup_codes : Bool → ℕ → Query (List BackupCode)
unused_backup_codes works user =
    call works (reads λ d. keep (λ b. b.user_id == user && is_unused b.used_at) d.backup_codes)

abbrev pub is_usable_code : ℕ → BackupCode → Bool
is_usable_code id b = b.id == id && is_unused b.used_at

unfoldable pub mark_backup_code_used : Bool → ℕ → Time → Query (Unit {0})
mark_backup_code_used works id now = call works (
    modify λ d. record d {
      backup_codes =
          update_where (is_usable_code id) (λ b. record b { used_at = some now }) d.backup_codes;
    })

unfoldable pub clear_backup_codes : Bool → ℕ → Query (Unit {0})
clear_backup_codes works user =
    call works
      (modify λ d. record d { backup_codes = delete_where (λ b. b.user_id == user) d.backup_codes })

-- `ClearUserTOTP`: three statements, each of which may fail on its own.
unfoldable pub clear_user_totp : Bool → Bool → Bool → ℕ → Time → Query (Unit {0})
unfolding clear_backup_codes delete_all_trusted_devices
clear_user_totp works codes devices user now =
    call works (
      modify
        (update_user user λ u. record u { totp_secret = []; totp_pending = []; updated_at = now }))
    >> clear_backup_codes codes user
    >> delete_all_trusted_devices devices user

abbrev pub new_reset : ℕ → ℕ → Text → ℤ → Time → PasswordReset
new_reset id user hash ttl now = record {
  id = id;
  user_id = user;
  code_hash = hash;
  attempts = 0;
  expires_at = now +ℤ ttl;
  created_at = now;
}

unfoldable pub create_password_reset : Bool → ℕ → Text → ℤ → Time → Query PasswordReset
create_password_reset works user hash ttl now = call works (do
  modify λ d. record d { resets = delete_where (λ r. r.user_id == user) d.resets }
  r ← reads λ d. new_reset (d.reset_seq + 1) user hash ttl now
  modify λ d. record d { resets = d.resets ++ r ∷ []; reset_seq = r.id }
  pure r)

-- `ORDER BY id DESC LIMIT 1`: the last match, as ids grow with the rows.
unfoldable pub find_last : (PasswordReset → Bool) → List PasswordReset → Option PasswordReset
find_last p [] = none
find_last p (r ∷ rs) = elim (find_last p rs) [
  | none ↦ (if p r then some r else none)
  | some x ↦ some x
]

-- `user_id = ? AND expires_at > ?`
abbrev pub is_open_reset : ℕ → Time → PasswordReset → Bool
is_open_reset user now r = r.user_id == user && after r.expires_at now

unfoldable pub get_active_password_reset : Bool → ℕ → Time → Query (Option PasswordReset)
get_active_password_reset works user now =
    call works (reads λ d. find_last (is_open_reset user now) d.resets)

-- `BumpPasswordResetAttempts`: the UPDATE, then a SELECT that fails where the row is gone.
unfoldable pub bump_password_reset_attempts : Bool → Bool → ℕ → Query ℕ
bump_password_reset_attempts works rereads id = do
  call works (
      modify λ d. record d {
        resets =
            update_where (λ r. r.id == id) (λ r. record r { attempts = r.attempts + 1 }) d.resets;
      })
  r ← call rereads (do or_fail (← reads λ d. find (λ r. r.id == id) d.resets) sql_failed)
  pure r.attempts

unfoldable pub delete_password_reset : Bool → ℕ → Query (Unit {0})
delete_password_reset works id =
    call works (modify λ d. record d { resets = delete_where (λ r. r.id == id) d.resets })

unfoldable pub purge_expired_password_resets : Bool → Time → Query (Unit {0})
purge_expired_password_resets works now =
    call works
      (modify λ d. record d { resets = delete_where (λ r. leb_ℤ r.expires_at now) d.resets })
