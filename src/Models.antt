-- ===== src/Models.antt =====
-- internal/models/models.go: the rows of the database, and the text checks on what users type.
pub mod Arithmetic
pub mod Accounts
pub mod Schedule
pub mod Passwords
pub mod TypedText
use router_billing.Prelude.{
  ℕ, ◌+◌, ◌*◌, ◌^◌, ◌-◌, ◌%◌, Bool, true, false, Option, Text, ltb, if◌then◌else◌,
}
use router_billing.Prelude.Int.{ℤ, pos, negsuc, ◌+ℤ◌, ltb_ℤ}

-- A `time.Time` in UTC: nanoseconds since 1970, as Go keeps it, without a bound.
abbrev pub Time : Type 0
Time = ℤ

-- `t.After(u)`, and SQL's `t > u` on DATETIME values.
abbrev pub after : Time → Time → Bool
after t u = ltb_ℤ u t

-- `t.Before(u)`, and SQL's `t < u`.
abbrev pub before : Time → Time → Bool
before t u = ltb_ℤ t u

abbrev pub day_ns : ℕ
day_ns = 86_400_000_000_000

-- `t.AddDate(0, 0, days)` in UTC, which has no daylight saving.
unfoldable pub add_days : Time → ℕ → Time
add_days t days = t +ℤ pos (days * day_ns)

-- The `time.Duration` (int64 nanoseconds) that a 64-bit pattern stands for.
unfoldable pub duration_of : ℕ → ℤ
duration_of w = if ltb w (2 ^ 63) then pos w else negsuc (2 ^ 64 - w - 1)

-- `-time.Duration(days) * 24 * time.Hour`, which wraps around.
unfoldable pub minus_days : ℕ → ℤ
unfolding duration_of
minus_days days = duration_of ((2 ^ 64 - days * day_ns % 2 ^ 64) % 2 ^ 64)

pub data MacStatus : Type 0 where
  active expired blocked : MacStatus

pub data OrderStatus : Type 0 where
  pending paid failed expired refunded : OrderStatus

abbrev pub is_active : MacStatus → Bool
is_active MacStatus.active = true
is_active _ = false

abbrev pub is_paid : OrderStatus → Bool
is_paid OrderStatus.paid = true
is_paid _ = false

abbrev pub is_pending : OrderStatus → Bool
is_pending OrderStatus.pending = true
is_pending _ = false

-- A row of `macs`: one device.
pub record Mac : Type 0 where
  pub id : ℕ
  pub mac : Text
  pub label : Text
  pub status : MacStatus
  pub expires_at : Time
  pub user_id : Option ℕ
  pub schedule_json : Text
  pub notes : Text
  pub created_at : Time
  pub updated_at : Time

-- A row of `orders`.
pub record Order : Type 0 where
  pub id : ℕ
  pub order_no : Text
  pub mac : Text
  pub plan : Text
  pub days : ℕ
  pub amount_cents : ℕ
  pub status : OrderStatus
  pub payment_method : Text
  pub trade_no : Text
  pub user_id : Option ℕ
  pub last_queried_at : Option Time
  pub paid_at : Option Time
  pub created_at : Time

-- A row of `vouchers`; a NULL `redeemed_by_mac` reads as the empty text.
pub record Voucher : Type 0 where
  pub id : ℕ
  pub code : Text
  pub days : ℕ
  pub label : Text
  pub batch : Text
  pub expires_at : Option Time
  pub redeemed_at : Option Time
  pub redeemed_by_mac : Text
  pub redeemed_user_id : Option ℕ
  pub revoked : Bool
  pub created_at : Time
