-- ===== src/Db/Vouchers.antt =====
-- internal/db/db.go, the section "Vouchers": redemption codes.
pub mod Redeem
use router_billing.Prelude.{
  ℕ, ◌+◌, Bool, true, false, ◌&&◌, not, Option, none, some, List, [], ◌∷◌, ◌++◌, Text, text_eq,
  ◌==◌, if◌then◌else◌,
}
use router_billing.Prelude.Table.{get, update_where, has_key, count}
use router_billing.Models.{Time, Voucher, before, after}
use router_billing.Db.{
  Db, Query, Result, ok, err, unique_violation, voucher_not_found, voucher_used, voucher_revoked,
  voucher_expired, pure, fail, reads, or_fail, ◌>>=◌, ◌>>◌, modify, fail_if, call,
}

abbrev pub voucher_key : Voucher → Text
voucher_key v = v.code

abbrev pub find_voucher : Text → Db → Option Voucher
find_voucher code d = get voucher_key code d.vouchers

abbrev pub update_vouchers : (Voucher → Bool) → (Voucher → Voucher) → Db → Db
update_vouchers p f d = record d { vouchers = update_where p f d.vouchers }

unfoldable pub get_voucher : Bool → Text → Query (Option Voucher)
get_voucher works code = call works (reads (find_voucher code))

abbrev pub new_voucher : ℕ → Text → ℕ → Text → Text → Option Time → Time → Voucher
new_voucher id code days label batch expires now = record {
  id = id;
  code = code;
  days = days;
  label = label;
  batch = batch;
  expires_at = expires;
  redeemed_at = none;
  redeemed_by_mac = [];
  redeemed_user_id = none;
  revoked = false;
  created_at = now;
}

-- `CreateVoucher`: a code that is there already violates the UNIQUE constraint.
unfoldable pub create_voucher : Bool → Text → ℕ → Text → Text → Option Time → Time → Query Voucher
create_voucher works code days label batch expires now = call works (do
  fail_if (elim (← reads (find_voucher code)) [ none ↦ false | some _ ↦ true ]) unique_violation
  v ← reads λ d. new_voucher (d.voucher_seq + 1) code days label batch expires now
  modify λ d. record d { vouchers = d.vouchers ++ v ∷ []; voucher_seq = v.id }
  pure v)

-- A nullable DATETIME column that is not NULL.
abbrev pub is_set : Option Time → Bool
is_set none = false
is_set (some _) = true

-- `code = ? AND redeemed_at IS NULL`
abbrev pub is_unredeemed : Text → Voucher → Bool
is_unredeemed code v = has_key voucher_key code v && not (is_set v.redeemed_at)

abbrev pub revoke_row : Voucher → Voucher
revoke_row v = record v { revoked = true }

unfoldable pub revoke_voucher : Bool → Text → Query (Unit {0})
revoke_voucher works code = call works (modify (update_vouchers (is_unredeemed code) revoke_row))

-- `redeemed_at IS NULL AND revoked = 0 AND batch = ?`; a NULL batch is the empty text.
abbrev pub is_usable_in : Text → Voucher → Bool
is_usable_in batch v = not (is_set v.redeemed_at) && (not v.revoked && text_eq v.batch batch)

-- `RevokeVoucherBatch`: the number of rows that it changed.
unfoldable pub revoke_voucher_batch : Bool → Text → Query ℕ
revoke_voucher_batch works batch = call works (do
  n ← reads λ d. count (is_usable_in batch) d.vouchers
  modify (update_vouchers (is_usable_in batch) revoke_row)
  pure n)

-- `v.ExpiresAt != nil && v.ExpiresAt.Before(now)`
abbrev pub is_lapsed : Option Time → Time → Bool
is_lapsed none now = false
is_lapsed (some t) now = before t now

abbrev pub redeemed_row : Text → Option ℕ → Time → Voucher → Voucher
redeemed_row mac user now v = record v {
  redeemed_at = some now;
  redeemed_by_mac = mac;
  redeemed_user_id = user;
}

-- `RedeemVoucher`
unfoldable pub redeem_voucher : Bool → Text → Text → Option ℕ → Time → Query Voucher
redeem_voucher works code mac user now = call works (do
  v ← or_fail (← reads (find_voucher code)) voucher_not_found
  fail_if v.revoked voucher_revoked
  fail_if (is_set v.redeemed_at) voucher_used
  fail_if (is_lapsed v.expires_at now) voucher_expired
  modify (update_vouchers (has_key voucher_key code) (redeemed_row mac user now))
  pure (redeemed_row mac user now v))
