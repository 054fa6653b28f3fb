-- ===== src/Db/Users.antt =====
-- internal/db/db.go, the section "Users": accounts. A NULL-able foreign key that SQLite refuses is a failed call.
pub mod Access
pub mod Apart
use router_billing.Prelude.{
  ℕ, ◌+◌, Bool, true, false, ◌&&◌, not, Option, none, some, List, [], ◌∷◌, ◌++◌, Text, text_eq,
  is_empty, ◌==◌, if◌then◌else◌,
}
use router_billing.Prelude.Table.{find, get, has_key, update_where, delete_where}
use router_billing.Models.{Time, Mac, Order, Voucher}
use router_billing.Models.Accounts.{User, TrustedDevice, BackupCode, PasswordReset}
use router_billing.Db.{
  Db, Query, Result, ok, err, Session, unique_violation, pure, fail, reads, ◌>>=◌, ◌>>◌, modify,
  fail_if, call,
}
use router_billing.Db.Sessions.{is_of_user}

abbrev pub phone_key : User → Text
phone_key u = u.phone

abbrev pub is_user_id : ℕ → User → Bool
is_user_id id u = u.id == id

-- The row that `CreateUser` inserts; the other columns take the schema's defaults.
abbrev pub new_user : ℕ → Text → Text → Time → User
new_user id phone hash now = record {
  id = id;
  phone = phone;
  password_hash = hash;
  suspended = false;
  totp_secret = [];
  totp_pending = [];
  notify_expiry = true;
  created_at = now;
  updated_at = now;
}

unfoldable pub create_user : Bool → Text → Text → Time → Query User
create_user works phone hash now = call works (do
  fail_if (elim (← reads λ d. get phone_key phone d.users) [ none ↦ false | some _ ↦ true ])
      unique_violation
  u ← reads λ d. new_user (d.user_seq + 1) phone hash now
  modify λ d. record d { users = d.users ++ u ∷ []; user_seq = u.id }
  pure u)

unfoldable pub get_user_by_phone : Bool → Text → Query (Option User)
get_user_by_phone works phone = call works (reads λ d. get phone_key phone d.users)

abbrev pub find_user : ℕ → Db → Option User
find_user id d = find (is_user_id id) d.users

unfoldable pub get_user : Bool → ℕ → Query (Option User)
get_user works id = call works (reads (find_user id))

abbrev pub update_user : ℕ → (User → User) → Db → Db
update_user id f d = record d { users = update_where (is_user_id id) f d.users }

unfoldable pub update_user_password : Bool → ℕ → Text → Time → Query (Unit {0})
update_user_password works id hash now =
    call works (modify (update_user id λ u. record u { password_hash = hash; updated_at = now }))

unfoldable pub set_user_notify_expiry : Bool → ℕ → Bool → Time → Query (Unit {0})
set_user_notify_expiry works id on now =
    call works (modify (update_user id λ u. record u { notify_expiry = on; updated_at = now }))

unfoldable pub set_user_totp_pending : Bool → ℕ → Text → Time → Query (Unit {0})
set_user_totp_pending works id secret now =
    call works (modify (update_user id λ u. record u { totp_pending = secret; updated_at = now }))

-- `id = ? AND totp_pending != ''`
abbrev pub is_enrolling : ℕ → User → Bool
is_enrolling id u = is_user_id id u && not (is_empty u.totp_pending)

abbrev pub enrolled_row : Time → User → User
enrolled_row now u = record u { totp_secret = u.totp_pending; totp_pending = []; updated_at = now }

unfoldable pub confirm_user_totp : Bool → ℕ → Time → Query (Unit {0})
confirm_user_totp works id now =
    call works
      (modify λ d. record d { users = update_where (is_enrolling id) (enrolled_row now) d.users })

abbrev pub drop_sessions : ℕ → Db → Db
drop_sessions id d = record d { sessions = delete_where (is_of_user id) d.sessions }

-- A statement whose error the code drops.
abbrev pub try : Bool → (Db → Db) → Query (Unit {0})
try works f = modify λ d. if works then f d else d

-- `SuspendUser`; `drops` says whether the DELETE of the sessions goes through.
unfoldable pub suspend_user : Bool → Bool → ℕ → Bool → Time → Query (Unit {0})
suspend_user works drops id suspended now =
    call works (modify (update_user id λ u. record u { suspended = suspended; updated_at = now }))
    >> try (suspended && drops) (drop_sessions id)

-- `ON DELETE SET NULL`
abbrev pub without_owner : ℕ → Option ℕ → Option ℕ
without_owner id none = none
without_owner id (some u) = if u == id then none else some u

-- What SQLite does to the tables that refer to a deleted user.
abbrev pub cascade : ℕ → Db → Db
cascade id d = record d {
  macs = update_where (λ _. true) (λ m. record m { user_id = without_owner id m.user_id }) d.macs;
  orders =
      update_where (λ _. true) (λ o. record o { user_id = without_owner id o.user_id }) d.orders;
  vouchers =
      update_where (λ _. true)
        (λ v. record v { redeemed_user_id = without_owner id v.redeemed_user_id }) d.vouchers;
  trusted = delete_where (λ t. t.user_id == id) d.trusted;
  backup_codes = delete_where (λ b. b.user_id == id) d.backup_codes;
  resets = delete_where (λ r. r.user_id == id) d.resets;
}

-- `DeleteUser`: the DELETE of the sessions is best effort.
unfoldable pub delete_user : Bool → Bool → ℕ → Query (Unit {0})
delete_user drops works id =
    try drops (drop_sessions id)
    >> call works
        (modify λ d. cascade id (record d { users = delete_where (is_user_id id) d.users }))
