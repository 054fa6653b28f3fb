-- ===== src/Models/Arithmetic.antt =====
-- The arithmetic of days: `AddDate` and the `time.Duration` of a refund.
use router_billing.Prelude.{ℕ, ◌+◌, ◌*◌, ◌≤◌, ◌≡◌, arith}
use router_billing.Prelude.Int.{pos, ◌+ℤ◌, ◌-ℤ◌, ◌≤ℤ◌, int_laws}
use router_billing.Models.{Time, add_days, minus_days, day_ns}

-- Up to 106,751 days, some 292 years, the duration does not wrap around.
pub minus_days-exact : (days : ℕ) → days ≤ 106_751 → minus_days days ≡ pos 0 -ℤ pos (days * day_ns)
unfolding minus_days ◌-ℤ◌
minus_days-exact days h = ground arith

-- One day more, and it does: the refund would move the expiry forward.
pub minus_days_wraps : (t : Time) → t ≤ℤ (t +ℤ minus_days 106_752)
unfolding minus_days ◌+ℤ◌
minus_days_wraps t = ground arith

pub add_days-minus_days :
    (t : Time) (days : ℕ) → days ≤ 106_751 → add_days t days +ℤ minus_days days ≡ t
unfolding add_days
add_days-minus_days t days h = rw (minus_days-exact days h) (omega int_laws)

pub add_days_mono : (t : Time) (days : ℕ) → t ≤ℤ add_days t days
unfolding add_days
add_days_mono t days = omega int_laws

pub add_days-add : (t : Time) (m n : ℕ) → add_days (add_days t m) n ≡ add_days t (m + n)
unfolding add_days
add_days-add t m n = omega int_laws
