-- ===== src/Db/SecondFactor/Trust.antt =====
-- Trusted browsers and backup codes: what lets a user past the second factor.
use router_billing.Prelude.{
  ℕ, ◌+◌, ◌≡◌, refl, ap, Bool, true, false, ◌&&◌, some, List, [], ◌∷◌, ◌++◌, Text, text_eq-eq,
  is_empty, arith, inl, inr, ◌==◌, All, Option-cases,
}
use router_billing.Prelude.Lists.{keep}
use router_billing.Prelude.Table.{
  find, update_where, delete_where, delete_where-All, find-passes, find-kept, find-update_where,
}
use router_billing.Models.{Time, after}
use router_billing.Models.Accounts.{User, TrustedDevice, BackupCode}
use router_billing.Db.{Db, ok}
use router_billing.Db.Users.{is_user_id, find_user}
use router_billing.Db.SecondFactor.{
  is_trusted, is_device_of, get_trusted_device, delete_trusted_device, new_backup_codes,
  replace_backup_codes, is_unused, unused_backup_codes, is_usable_code, mark_backup_code_used,
  clear_user_totp,
}

-- A browser is trusted only by its own token, which is not empty, and only before its end.
pub get_trusted_device-after :
    (bumps : Bool) (token : Text) (now : Time) (d : Db) (t : TrustedDevice)
    → (get_trusted_device true bumps token now d).0 ≡ ok (some t)
    → (is_empty token ≡ false) × (t.token ≡ token) × (after t.expires_at now ≡ true)
unfolding get_trusted_device
get_trusted_device-after bumps token now d t h =
    elim (Option-cases (find (is_trusted token now) d.trusted)) [
      | inl nothing ↦ absurd (ground arith)
      | inr (x, found) ↦
          ground
            (arith, find-passes (is_trusted token now) d.trusted found, text_eq-eq x.token token)
    ]

-- Nobody can remove a browser of another user by its id.
pub delete_trusted_device-other :
    (user id : ℕ) (bumps : Bool) (token : Text) (now : Time) (d : Db) (t : TrustedDevice)
    → (get_trusted_device true bumps token now d).0 ≡ ok (some t)
    → (t.user_id == user) ≡ false
    → (get_trusted_device true bumps token now (delete_trusted_device true user id d).1).0
      ≡ ok (some t)
unfolding get_trusted_device delete_trusted_device
delete_trusted_device-other user id bumps token now d t h other =
    elim (Option-cases (find (is_trusted token now) d.trusted)) [
      | inl nothing ↦ absurd (ground arith)
      | inr (x, found) ↦
          ground (arith, find-kept (is_trusted token now) (is_device_of user id) d.trusted found)
    ]

abbrev unused_of : ℕ → BackupCode → Bool
unused_of user b = b.user_id == user && is_unused b.used_at

keep-append :
    (p : BackupCode → Bool) (xs ys : List BackupCode) → keep p (xs ++ ys) ≡ keep p xs ++ keep p ys
unfolding keep
keep-append p [] ys = refl
keep-append p (x ∷ xs) ys = ground (arith, keep-append p xs ys)

keep-deleted :
    (user : ℕ) (xs : List BackupCode)
    → keep (unused_of user) (delete_where (λ b. b.user_id == user) xs) ≡ []
unfolding keep delete_where
keep-deleted user [] = refl
keep-deleted user (x ∷ xs) = ground (arith, keep-deleted user xs)

keep-other :
    (user other : ℕ) (xs : List BackupCode)
    → (user == other) ≡ false
    → keep (unused_of other) (delete_where (λ b. b.user_id == user) xs) ≡ keep (unused_of other) xs
unfolding keep delete_where
keep-other user other [] h = refl
keep-other user other (x ∷ xs) h = ground (arith, keep-other user other xs h)

keep-new :
    (id user : ℕ) (hashes : List Text) (now : Time)
    → keep (unused_of user) (new_backup_codes id user hashes now)
      ≡ new_backup_codes id user hashes now
unfolding keep new_backup_codes
keep-new id user [] now = refl
keep-new id user (h ∷ hashes) now = ground (arith, keep-new (id + 1) user hashes now)

keep-new_other :
    (id user other : ℕ) (hashes : List Text) (now : Time)
    → (user == other) ≡ false
    → keep (unused_of other) (new_backup_codes id user hashes now) ≡ []
unfolding keep new_backup_codes
keep-new_other id user other [] now h = refl
keep-new_other id user other (x ∷ hashes) now h =
    ground (arith, keep-new_other (id + 1) user other hashes now h)

append_nil : (xs : List BackupCode) → xs ++ [] ≡ xs
append_nil [] = refl
append_nil (x ∷ xs) = ap (◌∷◌ x) (append_nil xs)

-- New backup codes replace the user's old ones: the usable ones are the new ones, in their order, and
-- those of every other user stay.
pub replace_backup_codes-unused_backup_codes :
    (user : ℕ) (hashes : List Text) (now : Time) (d : Db)
    → let d' = (replace_backup_codes true user hashes now d).1 in
      ((unused_backup_codes true user d').0
        ≡ ok (new_backup_codes (d.backup_seq + 1) user hashes now))
      × ((other : ℕ)
          → (user == other) ≡ false
          → (unused_backup_codes true other d').0 ≡ (unused_backup_codes true other d).0)
unfolding replace_backup_codes unused_backup_codes
replace_backup_codes-unused_backup_codes user hashes now d =
    let old = delete_where (λ b. b.user_id == user) d.backup_codes in
    let new = new_backup_codes (d.backup_seq + 1) user hashes now in
    (
      rw (
        keep-append (unused_of user) old new,
        keep-deleted user d.backup_codes,
        keep-new (d.backup_seq + 1) user hashes now,
      ),
      λ other h. rw (
        keep-append (unused_of other) old new,
        keep-other user other d.backup_codes h,
        keep-new_other (d.backup_seq + 1) user other hashes now h,
        append_nil (keep (unused_of other) d.backup_codes),
      ),
    )

marked-gone :
    (user id : ℕ) (now : Time) (xs : List BackupCode)
    → All
        (λ b. (b.id == id) ≡ false)
        (keep
          (unused_of user)
          (update_where (is_usable_code id) (λ b. record b { used_at = some now }) xs))
unfolding keep update_where
marked-gone user id now [] = tt
marked-gone user id now (b ∷ bs) = ground (arith, marked-gone user id now bs)

-- A backup code that was marked used is not among the usable ones of any user.
pub mark_backup_code_used-unused_backup_codes :
    (id user : ℕ) (now : Time) (d : Db)
    → let d' = (mark_backup_code_used true id now d).1 in
      (codes : List BackupCode) × ((unused_backup_codes true user d').0 ≡ ok codes)
      × All (λ b. (b.id == id) ≡ false) codes
unfolding mark_backup_code_used unused_backup_codes
mark_backup_code_used-unused_backup_codes id user now d = (
  keep (unused_of user)
      (update_where (is_usable_code id) (λ b. record b { used_at = some now }) d.backup_codes),
  refl,
  marked-gone user id now d.backup_codes,
)

-- Turning the second factor off, with all statements going through: the user has no secret, no backup code and
-- no trusted browser.
pub clear_user_totp_lem :
    (user : ℕ) (now : Time) (d : Db) (u : User)
    → find_user user d ≡ some u
    → let (r, d') = clear_user_totp true true true user now d in
      (r ≡ ok tt)
      × (find_user user d'
          ≡ some (record u { totp_secret = []; totp_pending = []; updated_at = now }))
      × All (λ t. (t.user_id == user) ≡ false) d'.trusted
      × All (λ b. (b.user_id == user) ≡ false) d'.backup_codes
unfolding clear_user_totp
clear_user_totp_lem user now d u e = (
  refl,
  ground (
    arith,
    find-passes (is_user_id user) d.users e,
    find-update_where (is_user_id user) (is_user_id user)
        (λ x. record x { totp_secret = []; totp_pending = []; updated_at = now }) d.users
        (λ x. refl),
  ),
  delete_where-All (λ t. t.user_id == user) d.trusted,
  delete_where-All (λ b. b.user_id == user) d.backup_codes,
)
