-- ===== src/Db/Invariant/Accounts.antt =====
-- Runs of `db.DB` with the calls on accounts and second factors: the tables stay valid.
use router_billing.Prelude.{ℕ, ◌≡◌, ◌⊎◌, inl, inr, Bool, List, [], ◌∷◌, Text}
use router_billing.Prelude.Int.{ℤ}
use router_billing.Models.{Time}
use router_billing.Db.{Db}
use router_billing.Db.Users.{
  create_user, update_user_password, set_user_notify_expiry, set_user_totp_pending,
  confirm_user_totp, suspend_user, delete_user,
}
use router_billing.Db.SecondFactor.{
  create_trusted_device, get_trusted_device, delete_trusted_device, delete_all_trusted_devices,
  purge_expired_trusted_devices, replace_backup_codes, mark_backup_code_used, clear_backup_codes,
  clear_user_totp, create_password_reset, bump_password_reset_attempts, delete_password_reset,
  purge_expired_password_resets,
}
use router_billing.Db.Calls.{Call, step}

-- The calls on accounts and second factors that write; each with the outcome of its statements.
pub data AccountCall : Type 0 where
  creates_user : Bool → Text → Text → Time → AccountCall
  sets_password : Bool → ℕ → Text → Time → AccountCall
  sets_notify : Bool → ℕ → Bool → Time → AccountCall
  sets_pending : Bool → ℕ → Text → Time → AccountCall
  confirms : Bool → ℕ → Time → AccountCall
  suspends : Bool → Bool → ℕ → Bool → Time → AccountCall
  deletes_user : Bool → Bool → ℕ → AccountCall
  clears_totp : Bool → Bool → Bool → ℕ → Time → AccountCall
  trusts : Bool → ℕ → Text → Text → ℤ → Time → AccountCall
  asks_trusted : Bool → Bool → Text → Time → AccountCall
  distrusts : Bool → ℕ → ℕ → AccountCall
  distrusts_all : Bool → ℕ → AccountCall
  purges_trusted : Bool → Time → AccountCall
  replaces_codes : Bool → ℕ → List Text → Time → AccountCall
  uses_code : Bool → ℕ → Time → AccountCall
  clears_codes : Bool → ℕ → AccountCall
  creates_reset : Bool → ℕ → Text → ℤ → Time → AccountCall
  bumps_reset : Bool → Bool → ℕ → AccountCall
  deletes_reset : Bool → ℕ → AccountCall
  purges_resets : Bool → Time → AccountCall

unfoldable pub account_step : AccountCall → Db → Db
account_step (creates_user w phone hash now) d = (create_user w phone hash now d).1
account_step (sets_password w id hash now) d = (update_user_password w id hash now d).1
account_step (sets_notify w id on now) d = (set_user_notify_expiry w id on now d).1
account_step (sets_pending w id secret now) d = (set_user_totp_pending w id secret now d).1
account_step (confirms w id now) d = (confirm_user_totp w id now d).1
account_step (suspends w drops id on now) d = (suspend_user w drops id on now d).1
account_step (deletes_user drops w id) d = (delete_user drops w id d).1
account_step (clears_totp w c t id now) d = (clear_user_totp w c t id now d).1
account_step (trusts w id token label ttl now) d =
    (create_trusted_device w id token label ttl now d).1
account_step (asks_trusted w b token now) d = (get_trusted_device w b token now d).1
account_step (distrusts w user id) d = (delete_trusted_device w user id d).1
account_step (distrusts_all w user) d = (delete_all_trusted_devices w user d).1
account_step (purges_trusted w now) d = (purge_expired_trusted_devices w now d).1
account_step (replaces_codes w user hashes now) d = (replace_backup_codes w user hashes now d).1
account_step (uses_code w id now) d = (mark_backup_code_used w id now d).1
account_step (clears_codes w user) d = (clear_backup_codes w user d).1
account_step (creates_reset w user hash ttl now) d = (create_password_reset w user hash ttl now d).1
account_step (bumps_reset w rereads id) d = (bump_password_reset_attempts w rereads id d).1
account_step (deletes_reset w id) d = (delete_password_reset w id d).1
account_step (purges_resets w now) d = (purge_expired_password_resets w now d).1

-- The tables of `IsValid` are as they were.
record IsAside (d d' : Db) : Type 0 where
  same_macs : d'.macs ≡ d.macs
  same_seq : d'.mac_seq ≡ d.mac_seq
  same_orders : d'.orders ≡ d.orders
  same_vouchers : d'.vouchers ≡ d.vouchers
  same_sessions : d'.sessions ≡ d.sessions
  same_users : d'.users ≡ d.users

-- The calls on second factors and password resets.
abbrev IsSecondFactor : AccountCall → Type 0
IsSecondFactor (trusts _ _ _ _ _ _) = Unit
IsSecondFactor (asks_trusted _ _ _ _) = Unit
IsSecondFactor (distrusts _ _ _) = Unit
IsSecondFactor (distrusts_all _ _) = Unit
IsSecondFactor (purges_trusted _ _) = Unit
IsSecondFactor (replaces_codes _ _ _ _) = Unit
IsSecondFactor (uses_code _ _ _) = Unit
IsSecondFactor (clears_codes _ _) = Unit
IsSecondFactor (creates_reset _ _ _ _ _) = Unit
IsSecondFactor (bumps_reset _ _ _) = Unit
IsSecondFactor (deletes_reset _ _) = Unit
IsSecondFactor (purges_resets _ _) = Unit
IsSecondFactor _ = ⊥

-- Calls of both kinds, in their order.
unfoldable pub history : List (Call ⊎ AccountCall) → Db → Db
history [] d = d
history (inl c ∷ cs) d = history cs (step c d)
history (inr c ∷ cs) d = history cs (account_step c d)
