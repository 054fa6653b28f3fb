-- ===== src/Tests/Accounts.antt =====
-- The theorems on accounts, their second factor and the schedules, at the tables of `Data`.
use mathlib.Core.Option
use router_billing.Prelude.{
  ℕ, ◌+◌, ◌-◌, ◌%◌, ◌≡◌, ◌⊎◌, refl, true, false, ◌&&◌, Option, none, some, [], ◌∷◌, Text, arith,
  All, if◌then◌else◌, ltb, ◌==◌,
}
use router_billing.Prelude.Lists.{any, all, text_eq}
use router_billing.Prelude.Int.{pos, ◌+ℤ◌}
use router_billing.Prelude.Table.{find, get, IsUnique}
use router_billing.Models.{Time, Mac, OrderStatus, day_ns, after}
use router_billing.Models.Schedule.{
  MacSchedule, Moment, is_scheduled, iso_weekday, is_scheduled_lem, is_in_range, schedule_is_empty,
}
use router_billing.Db.{Db, ok, Session, SessionKind}
use router_billing.Db.Macs.{find_mac}
use router_billing.Db.Sessions.{session_key, is_of_user, new_session}
use router_billing.Db.Users.{find_user, suspend_user, delete_user, without_owner}
use router_billing.Db.Users.Access.{unless_of_user, suspend_user_lem, delete_user_lem}
use router_billing.Db.SecondFactor.{
  get_trusted_device, new_backup_codes, replace_backup_codes, unused_backup_codes, clear_user_totp,
  new_reset, create_password_reset, get_active_password_reset,
}
use router_billing.Db.SecondFactor.Trust.{
  replace_backup_codes-unused_backup_codes, clear_user_totp_lem,
}
use router_billing.Db.SecondFactor.Resets.{create_password_reset-get_active_password_reset}
use router_billing.Firewall.{among}
use router_billing.Service.Schedules.{
  enforce_schedules_once, wanted, IsFailing, enforce_schedules_once_lem,
}
use router_billing.Tests.Data.{
  phone, number, trade, early, owner, laptop_trust, session, tables, tables-IsValid, memory,
  memory-IsNft, router,
}

abbrev start : Db
start = tables OrderStatus.paid

find-owner : find_user 7 start ≡ some owner
unfolding find
find-owner = refl

abbrev admin_session : Session
admin_session = new_session number SessionKind.admin [] none (pos day_ns) (pos 0)

abbrev with_admin : Db
with_admin = record start { sessions = session ∷ admin_session ∷ [] }

with_admin-IsUnique : IsUnique session_key with_admin.sessions
unfolding get find text_eq
with_admin-IsUnique = (refl, (refl, tt))

suspend_user_lem_example :
    let d' = (suspend_user true true 7 true early with_admin).1 in
    (find_user 7 d' ≡ some (record owner { suspended = true; updated_at = early }))
    × All (λ s. is_of_user 7 s ≡ false) d'.sessions
    × ((k : Text)
        → get session_key k d'.sessions ≡ unless_of_user 7 (get session_key k with_admin.sessions))
suspend_user_lem_example = suspend_user_lem 7 early with_admin owner find-owner with_admin-IsUnique

delete_user_lem_example :
    let d' = (delete_user true true 7 with_admin).1 in
    (find_user 7 d' ≡ none)
    × All (λ s. is_of_user 7 s ≡ false) d'.sessions
    × ((k : Text)
        → get session_key k d'.sessions ≡ unless_of_user 7 (get session_key k with_admin.sessions))
    × All (λ x. (x.user_id == 7) ≡ false) d'.trusted
    × All (λ x. (x.user_id == 7) ≡ false) d'.backup_codes
    × All (λ x. (x.user_id == 7) ≡ false) d'.resets
    × ((mac : Text)
        → find_mac mac d'
          ≡ Option.map {A = Mac} {B = Mac}
              (λ m. record m { user_id = without_owner 7 m.user_id })
              (find_mac mac with_admin))
delete_user_lem_example = delete_user_lem 7 with_admin with_admin-IsUnique

trusted_now : (get_trusted_device true false trade early start).0 ≡ ok (some laptop_trust)
unfolding get_trusted_device find text_eq ◌+ℤ◌
trusted_now = refl

replace_backup_codes-unused_backup_codes_example :
    let d' = (replace_backup_codes true 7 (trade ∷ number ∷ []) early start).1 in
    ((unused_backup_codes true 7 d').0 ≡ ok (new_backup_codes 2 7 (trade ∷ number ∷ []) early))
    × ((other : ℕ)
        → (7 == other) ≡ false
        → (unused_backup_codes true other d').0 ≡ (unused_backup_codes true other start).0)
replace_backup_codes-unused_backup_codes_example =
    replace_backup_codes-unused_backup_codes 7 (trade ∷ number ∷ []) early start

clear_user_totp_lem_example :
    let (r, d') = clear_user_totp true true true 7 early start in
    (r ≡ ok tt)
    × (find_user 7 d'
        ≡ some (record owner { totp_secret = []; totp_pending = []; updated_at = early }))
    × All (λ t. (t.user_id == 7) ≡ false) d'.trusted
    × All (λ b. (b.user_id == 7) ≡ false) d'.backup_codes
clear_user_totp_lem_example = clear_user_totp_lem 7 early start owner find-owner

create_password_reset-get_active_password_reset_example :
    let (r, d') = create_password_reset true 7 trade (pos 60) early start in
    let x = new_reset 1 7 trade (pos 60) early in
    (r ≡ ok x)
    × ((other : ℕ) (t : Time)
        → (get_active_password_reset true other t d').0 ≡ (
            if 7 == other
            then ok (if after (early +ℤ pos 60) t then some x else none)
            else (get_active_password_reset true other t start).0))
create_password_reset-get_active_password_reset_example =
    create_password_reset-get_active_password_reset 7 trade (pos 60) early start

-- Monday to Friday, from 22:00 to 6:00.
abbrev nights : MacSchedule
nights = record { days = 1 ∷ 2 ∷ 3 ∷ 4 ∷ 5 ∷ []; start_min = 1320; end_min = 360 }

abbrev monday_night : Moment
monday_night = record { weekday = 1; hour = 23; minute = 30 }

in_range : is_in_range nights ≡ true
unfolding is_in_range all
in_range = refl

not_empty : schedule_is_empty nights ≡ false
unfolding schedule_is_empty
not_empty = refl

is_scheduled_lem_example : is_scheduled nights monday_night ≡ (
    any (λ d. d == iso_weekday 1) nights.days
    && ltb ((1410 + 1440 - 1320) % 1440) ((360 + 1440 - 1320) % 1440))
is_scheduled_lem_example = is_scheduled_lem nights monday_night in_range not_empty (omega arith)

abbrev always : Text → Option MacSchedule
always _ = some nights

abbrev at_night : Time → Moment
at_night _ = monday_night

enforce_schedules_once_lem_example :
    let r' =
      (enforce_schedules_once memory always at_night true early (router OrderStatus.paid)).1 in
    (r'.db ≡ start)
    × ((k : Text)
        → (among k r'.set ≡ (
            if true
            then wanted memory always at_night early (find_mac k start) (among k (phone ∷ []))
            else among k (phone ∷ [])))
          ⊎ (IsFailing memory always at_night k × (among k r'.set ≡ among k (phone ∷ []))))
enforce_schedules_once_lem_example =
    enforce_schedules_once_lem memory always at_night memory-IsNft true early
      (router OrderStatus.paid) (tables-IsValid OrderStatus.paid)
