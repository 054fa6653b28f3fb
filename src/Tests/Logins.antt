-- ===== src/Tests/Logins.antt =====
-- The theorems on sessions, waiters and the rate limiter, at the tables of `Data`.
use router_billing.Prelude.{
  if◌then◌else◌, ℕ, ◌≡◌, refl, true, false, not, ◌||◌, none, some, List, [], ◌∷◌, Text, All,
  if◌then◌else◌, ◌==◌,
}
use router_billing.Prelude.Lists.{keep, any, text_eq}
use router_billing.Prelude.Int.{pos, ◌+ℤ◌}
use router_billing.Prelude.Table.{find, get, delete_where}
use router_billing.Models.{Time, OrderStatus, day_ns, after}
use router_billing.Db.{ok, SessionKind}
use router_billing.Db.Sessions.{
  new_session, create_session, get_session, delete_user_sessions_except,
}
use router_billing.Db.Sessions.Live.{
  create_session-get_session, delete_user_sessions_except-get_session,
}
use router_billing.Server.{App}
use router_billing.Server.Wait.{waits_for, wait_for, signal_order}
use router_billing.Server.Wait.Signal.{holds_token, signal_order_lem}
use router_billing.Server.RateLimiter.{Limiter, new_rate_limiter}
use router_billing.Tests.Data.{number, token, early, session, tables, app}

abbrev admin_token : Text
admin_token = b'A' ∷ []

fresh_token : get (λ s. s.token) admin_token (tables OrderStatus.paid).sessions ≡ none
unfolding get find text_eq
fresh_token = refl

create_session-get_session_example :
    let (r, d') =
      create_session true admin_token SessionKind.admin [] none
        (pos day_ns)
        early
        (tables OrderStatus.paid) in
    (r ≡ ok tt)
    × ((k : Text) (t : Time)
        → (get_session true k t d').0 ≡ (
            if text_eq admin_token k
            then ok (
                if after (early +ℤ pos day_ns) t
                then some (new_session admin_token SessionKind.admin [] none (pos day_ns) early)
                else none)
            else (get_session true k t (tables OrderStatus.paid)).0))
create_session-get_session_example =
    create_session-get_session admin_token SessionKind.admin [] none (pos day_ns) early
      (tables OrderStatus.paid) fresh_token

still_logged_in :
    (get_session true token early
      (delete_user_sessions_except true 7 token (tables OrderStatus.paid)).1).0
    ≡ ok (some session)
unfolding get_session delete_user_sessions_except delete_where find text_eq ◌+ℤ◌
still_logged_in = refl

delete_user_sessions_except-get_session_example : token ≡ token
delete_user_sessions_except-get_session_example =
    delete_user_sessions_except-get_session 7 token token early (tables OrderStatus.paid) session
      still_logged_in refl

abbrev waiting : App (List Text)
waiting = (wait_for number (app OrderStatus.pending)).1

signal_order_lem_example :
    let a' = signal_order number waiting in
    (a'.waiters ≡ keep (λ w. not (waits_for number w)) waiting.waiters)
    × All (λ w. waits_for number w ≡ false) a'.waiters
    × ((c : ℕ)
        → holds_token a'.signaled c ≡ (
            any (λ w. w.channel == c) (keep (waits_for number) waiting.waiters)
            || holds_token waiting.signaled c))
signal_order_lem_example = signal_order_lem number waiting

abbrev limiter : Limiter
limiter = new_rate_limiter 2 (pos 60)
