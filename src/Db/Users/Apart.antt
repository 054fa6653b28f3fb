-- ===== src/Db/Users/Apart.antt =====
-- What a call of the database for one user leaves to all others.
use router_billing.Prelude.{
  ℕ, ◌+◌, ◌≡◌, refl, ap, Bool, true, false, ◌&&◌, not, Option, none, some, List, [], ◌∷◌, ◌++◌,
  Text, arith, ◌==◌,
}
use router_billing.Prelude.Lists.{keep}
use router_billing.Prelude.Apart.{
  find-delete_apart, find-update_apart, keep-delete_apart, keep-update_same, keep-append,
}
use router_billing.Prelude.Table.{delete_where, has_key}
use router_billing.Models.{Time}
use router_billing.Models.Accounts.{User, TrustedDevice, BackupCode}
use router_billing.Db.{Db}
use router_billing.Db.Sessions.{is_of_user, belongs_to, session_key, delete_user_sessions_except}
use router_billing.Db.Users.{
  is_user_id, find_user, update_user, is_enrolling, enrolled_row, without_owner,
  set_user_totp_pending, confirm_user_totp, set_user_notify_expiry, update_user_password,
  delete_user,
}
use router_billing.Db.SecondFactor.{
  clear_user_totp, delete_trusted_device, delete_all_trusted_devices, replace_backup_codes,
  new_backup_codes,
}

-- The account of a user, with all sessions, trusted browsers, backup codes and devices, is what it was.
abbrev pub IsUntouched : ℕ → Db → Db → Type 0
IsUntouched v d d' =
    (find_user v d' ≡ find_user v d)
    × (keep (is_of_user v) d'.sessions ≡ keep (is_of_user v) d.sessions)
    × (keep (λ t. t.user_id == v) d'.trusted ≡ keep (λ t. t.user_id == v) d.trusted)
    × (keep (λ b. b.user_id == v) d'.backup_codes ≡ keep (λ b. b.user_id == v) d.backup_codes)
    × (keep (λ m. belongs_to v m.user_id) d'.macs ≡ keep (λ m. belongs_to v m.user_id) d.macs)

module _ (v id : ℕ) (other : (v == id) ≡ false) where
  update_user-other :
      (f : User → User) (d : Db)
      → ((u : User) → (f u).id ≡ u.id)
      → find_user v (update_user id f d) ≡ find_user v d
  update_user-other f d same =
      find-update_apart (is_user_id v) (is_user_id id) f d.users (λ u. ground arith)
        (λ u. ground (arith, same u))

  pub set_user_totp_pending-IsUntouched :
      (works : Bool) (secret : Text) (now : Time) (d : Db)
      → IsUntouched v d (set_user_totp_pending works id secret now d).1
  unfolding set_user_totp_pending
  set_user_totp_pending-IsUntouched works secret now d = ground (
    arith,
    update_user-other (λ u. record u { totp_pending = secret; updated_at = now }) d (λ u. refl),
  )

  pub set_user_notify_expiry-IsUntouched :
      (works on : Bool) (now : Time) (d : Db)
      → IsUntouched v d (set_user_notify_expiry works id on now d).1
  unfolding set_user_notify_expiry
  set_user_notify_expiry-IsUntouched works on now d = ground (
    arith,
    update_user-other (λ u. record u { notify_expiry = on; updated_at = now }) d (λ u. refl),
  )

  pub update_user_password-IsUntouched :
      (works : Bool) (hash : Text) (now : Time) (d : Db)
      → IsUntouched v d (update_user_password works id hash now d).1
  unfolding update_user_password
  update_user_password-IsUntouched works hash now d = ground (
    arith,
    update_user-other (λ u. record u { password_hash = hash; updated_at = now }) d (λ u. refl),
  )

  pub confirm_user_totp-IsUntouched :
      (works : Bool) (now : Time) (d : Db) → IsUntouched v d (confirm_user_totp works id now d).1
  unfolding confirm_user_totp
  confirm_user_totp-IsUntouched works now d = ground (
    arith,
    find-update_apart (is_user_id v) (is_enrolling id) (enrolled_row now) d.users
        (λ u. ground arith) (λ u. refl),
  )

  pub delete_user_sessions_except-IsUntouched :
      (works : Bool) (token : Text) (d : Db)
      → IsUntouched v d (delete_user_sessions_except works id token d).1
  unfolding delete_user_sessions_except
  delete_user_sessions_except-IsUntouched works token d = ground (
    arith,
    keep-delete_apart (is_of_user v) (λ s. is_of_user id s && not (has_key session_key token s))
        d.sessions (λ s. ground arith),
  )

  drop_trusted :
      (q : TrustedDevice → Bool) (d : Db)
      → ((t : TrustedDevice) → (t.user_id == v) ≡ true → q t ≡ false)
      → IsUntouched v d (record d { trusted = delete_where q d.trusted })
  drop_trusted q d h = ground (arith, keep-delete_apart (λ t. t.user_id == v) q d.trusted h)

  pub delete_trusted_device-IsUntouched :
      (works : Bool) (device : ℕ) (d : Db)
      → IsUntouched v d (delete_trusted_device works id device d).1
  unfolding delete_trusted_device
  delete_trusted_device-IsUntouched works device d =
      ground (arith, drop_trusted (λ t. t.id == device && t.user_id == id) d (λ t. ground arith))

  pub delete_all_trusted_devices-IsUntouched :
      (works : Bool) (d : Db) → IsUntouched v d (delete_all_trusted_devices works id d).1
  unfolding delete_all_trusted_devices
  delete_all_trusted_devices-IsUntouched works d =
      ground (arith, drop_trusted (λ t. t.user_id == id) d (λ t. ground arith))

  new_codes-other :
      (n : ℕ) (hashes : List Text) (now : Time)
      → keep (λ b. b.user_id == v) (new_backup_codes n id hashes now) ≡ []
  unfolding keep new_backup_codes
  new_codes-other n [] now = refl
  new_codes-other n (x ∷ hashes) now = ground (arith, new_codes-other (n + 1) hashes now)

  append_nil : (xs : List BackupCode) → xs ++ [] ≡ xs
  append_nil [] = refl
  append_nil (x ∷ xs) = ap (◌∷◌ x) (append_nil xs)

  drop_codes :
      (d : Db)
      → keep (λ b. b.user_id == v) (delete_where (λ b. b.user_id == id) d.backup_codes)
        ≡ keep (λ b. b.user_id == v) d.backup_codes
  drop_codes d =
      keep-delete_apart (λ b. b.user_id == v) (λ b. b.user_id == id) d.backup_codes
        (λ b. ground arith)

  pub replace_backup_codes-IsUntouched :
      (works : Bool) (hashes : List Text) (now : Time) (d : Db)
      → IsUntouched v d (replace_backup_codes works id hashes now d).1
  unfolding replace_backup_codes
  replace_backup_codes-IsUntouched false hashes now d = ground arith
  replace_backup_codes-IsUntouched true hashes now d =
      let old = delete_where (λ b. b.user_id == id) d.backup_codes in
      let new = new_backup_codes (d.backup_seq + 1) id hashes now in
      (
        refl,
        refl,
        refl,
        rw
            (
              keep-append (λ b. b.user_id == v) old new,
              new_codes-other (d.backup_seq + 1) hashes now,
              drop_codes d,
            )
            (append_nil _),
        refl,
      )

  pub clear_user_totp-IsUntouched :
      (works codes devices : Bool) (now : Time) (d : Db)
      → IsUntouched v d (clear_user_totp works codes devices id now d).1
  unfolding clear_user_totp
  clear_user_totp-IsUntouched works codes devices now d = ground (
    arith,
    update_user-other (λ u. record u { totp_secret = []; totp_pending = []; updated_at = now }) d
        (λ u. refl),
    drop_codes d,
    keep-delete_apart (λ t. t.user_id == v) (λ t. t.user_id == id) d.trusted (λ t. ground arith),
  )

  disowned : (o : Option ℕ) → belongs_to v (without_owner id o) ≡ belongs_to v o
  disowned none = refl
  disowned (some u) = ground arith

  still_owned : (o : Option ℕ) → belongs_to v o ≡ true → without_owner id o ≡ o
  still_owned none h = refl
  still_owned (some u) h = ground arith

  pub delete_user-IsUntouched :
      (drops works : Bool) (d : Db) → IsUntouched v d (delete_user drops works id d).1
  unfolding delete_user
  delete_user-IsUntouched drops works d = ground (
    arith,
    find-delete_apart (is_user_id v) (is_user_id id) d.users (λ u. ground arith),
    drop_codes d,
    keep-delete_apart (λ t. t.user_id == v) (λ t. t.user_id == id) d.trusted (λ t. ground arith),
    keep-delete_apart (is_of_user v) (is_of_user id) d.sessions (λ s. ground arith),
    keep-update_same (λ m. belongs_to v m.user_id) (λ _. true)
        (λ m. record m { user_id = without_owner id m.user_id }) d.macs
        (λ m h. ap (λ o. record m { user_id = o }) (still_owned m.user_id h))
        (λ m. disowned m.user_id),
  )
