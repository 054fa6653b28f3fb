-- ===== src/Models/Schedule.antt =====
-- internal/models/schedule.go: the hours of the week in which a device may be online.
use router_billing.Prelude.{
  ℕ, ◌+◌, ◌*◌, ◌-◌, ◌%◌, ◌<◌, ◌≡◌, Bool, true, false, ◌&&◌, ◌||◌, not, List, [], ◌∷◌, arith, leb,
  ltb, ◌==◌, if◌then◌else◌,
}
use router_billing.Prelude.Lists.{any, all}

-- `days` are ISO weekdays, the ends are minutes from midnight.
pub record MacSchedule : Type 0 where
  pub days : List ℕ
  pub start_min : ℕ
  pub end_min : ℕ

-- What `Active` asks of a `time.Time` in its zone: `Weekday()` with Sunday as 0, `Hour()`, `Minute()`.
pub record Moment : Type 0 where
  pub weekday : ℕ
  pub hour : ℕ
  pub minute : ℕ

abbrev is_nil : List ℕ → Bool
is_nil [] = true
is_nil (_ ∷ _) = false

unfoldable pub schedule_is_empty : MacSchedule → Bool
schedule_is_empty s = is_nil s.days || s.start_min == s.end_min

-- ISO: Sunday is 7.
abbrev pub iso_weekday : ℕ → ℕ
iso_weekday wd = if wd == 0 then 7 else wd

abbrev pub now_min : Moment → ℕ
now_min t = t.hour * 60 + t.minute

-- `Active`
unfoldable pub is_scheduled : MacSchedule → Moment → Bool
is_scheduled s t =
    if is_nil s.days || s.start_min == s.end_min
    then true
    else if not (any (λ d. d == iso_weekday t.weekday) s.days)
    then false
    else if ltb s.start_min s.end_min
    then leb s.start_min (now_min t) && ltb (now_min t) s.end_min
    else leb s.start_min (now_min t) || ltb (now_min t) s.end_min

-- The checks of `ParseSchedule` on what it decoded.
unfoldable pub is_in_range : MacSchedule → Bool
is_in_range s = leb s.start_min 1439 && (leb s.end_min 1439 && all (λ d. leb 1 d && leb d 7) s.days)

-- A schedule that `ParseSchedule` accepts and that is not empty lets a device through on its days, in the minutes that
-- lie less far behind its start, around the clock, than its end does. In the code this is two cases.
pub is_scheduled_lem :
    (s : MacSchedule) (t : Moment)
    → is_in_range s ≡ true
    → schedule_is_empty s ≡ false
    → now_min t < 1440
    → is_scheduled s t ≡ (
        any (λ d. d == iso_weekday t.weekday) s.days
        && ltb ((now_min t + 1440 - s.start_min) % 1440) ((s.end_min + 1440 - s.start_min) % 1440))
unfolding is_scheduled is_in_range schedule_is_empty
is_scheduled_lem s t range some_days h = ground arith
