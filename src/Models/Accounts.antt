-- ===== src/Models/Accounts.antt =====
-- internal/models/models.go: the rows of accounts and of their second factor.
use router_billing.Prelude.{ℕ, Bool, Option, Text}
use router_billing.Models.{Time}

-- A row of `users`.
pub record User : Type 0 where
  pub id : ℕ
  pub phone : Text
  pub password_hash : Text
  pub suspended : Bool
  pub totp_secret : Text
  pub totp_pending : Text
  pub notify_expiry : Bool
  pub created_at : Time
  pub updated_at : Time

-- A row of `user_trusted_devices`.
pub record TrustedDevice : Type 0 where
  pub id : ℕ
  pub user_id : ℕ
  pub token : Text
  pub label : Text
  pub expires_at : Time
  pub last_seen : Time
  pub created_at : Time

-- A row of `user_backup_codes`.
pub record BackupCode : Type 0 where
  pub id : ℕ
  pub user_id : ℕ
  pub code_hash : Text
  pub used_at : Option Time
  pub created_at : Time

-- A row of `password_resets`.
pub record PasswordReset : Type 0 where
  pub id : ℕ
  pub user_id : ℕ
  pub code_hash : Text
  pub attempts : ℕ
  pub expires_at : Time
  pub created_at : Time
