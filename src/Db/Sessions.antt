-- ===== src/Db/Sessions.antt =====
-- internal/db/db.go, the section "Sessions": login sessions of admins and users.
pub mod Live
use router_billing.Prelude.{
  ℕ, ◌+◌, Bool, true, false, ◌&&◌, not, Option, none, some, List, [], ◌∷◌, ◌++◌, Text, text_eq,
  ◌==◌, if◌then◌else◌,
}
use router_billing.Prelude.Int.{ℤ, ◌+ℤ◌, leb_ℤ}
use router_billing.Prelude.Table.{find, get, has_key, delete_where, count}
use router_billing.Models.{Time, after}
use router_billing.Db.{
  Db, Query, Result, ok, err, Session, SessionKind, unique_violation, pure, fail, reads, ◌>>=◌,
  ◌>>◌, modify, fail_if, call,
}

abbrev pub session_key : Session → Text
session_key s = s.token

abbrev pub is_user : SessionKind → Bool
is_user SessionKind.user = true
is_user _ = false

abbrev pub is_admin : SessionKind → Bool
is_admin SessionKind.admin = true
is_admin _ = false

abbrev pub is_user_pending : SessionKind → Bool
is_user_pending SessionKind.user_pending_2fa = true
is_user_pending _ = false

abbrev pub new_session : Text → SessionKind → Text → Option ℕ → ℤ → Time → Session
new_session token kind subject user ttl now = record {
  token = token;
  kind = kind;
  subject = subject;
  user_id = user;
  expires_at = now +ℤ ttl;
}

-- `CreateSession`: the token is the primary key.
unfoldable pub create_session :
    Bool → Text → SessionKind → Text → Option ℕ → ℤ → Time → Query (Unit {0})
create_session works token kind subject user ttl now = call works (do
  fail_if (elim (← reads λ d. get session_key token d.sessions) [ none ↦ false | some _ ↦ true ])
      unique_violation
  modify
      λ d. record d { sessions = d.sessions ++ new_session token kind subject user ttl now ∷ [] })

-- `token = ? AND expires_at > CURRENT_TIMESTAMP`. SQLite compares the texts, and CURRENT_TIMESTAMP has whole seconds: `now`
-- is the instant of that text, up to a second before the clock's, so a row is found up to a second longer.
abbrev pub is_live : Text → Time → Session → Bool
is_live token now s = has_key session_key token s && after s.expires_at now

-- `GetSession`
unfoldable pub get_session : Bool → Text → Time → Query (Option Session)
get_session works token now = call works (reads λ d. find (is_live token now) d.sessions)

-- A DELETE, with the number of rows that it removed.
abbrev pub delete_sessions : (Session → Bool) → Query ℕ
delete_sessions p = do
  n ← reads λ d. count p d.sessions
  modify λ d. record d { sessions = delete_where p d.sessions }
  pure n

unfoldable pub delete_session : Bool → Text → Query (Unit {0})
delete_session works token =
    call works
      (modify λ d. record d { sessions = delete_where (has_key session_key token) d.sessions })

-- `user_id = ?`; NULL equals nothing.
abbrev pub belongs_to : ℕ → Option ℕ → Bool
belongs_to u none = false
belongs_to u (some v) = v == u

-- `kind = 'user' AND user_id = ?`
abbrev pub is_of_user : ℕ → Session → Bool
is_of_user user s = is_user s.kind && belongs_to user s.user_id

unfoldable pub delete_sessions_by_user_id : Bool → ℕ → Query ℕ
delete_sessions_by_user_id works user = call works (delete_sessions (is_of_user user))

unfoldable pub delete_all_admin_sessions_except : Bool → Text → Query ℕ
delete_all_admin_sessions_except works token =
    call works (delete_sessions λ s. is_admin s.kind && not (has_key session_key token s))

unfoldable pub delete_all_user_sessions : Bool → Query ℕ
delete_all_user_sessions works = call works (delete_sessions λ s. is_user s.kind)

unfoldable pub delete_user_sessions_except : Bool → ℕ → Text → Query ℕ
delete_user_sessions_except works user token =
    call works (delete_sessions λ s. is_of_user user s && not (has_key session_key token s))

unfoldable pub count_user_sessions : Bool → ℕ → Time → Query ℕ
count_user_sessions works user now =
    call works (reads λ d. count (λ s. is_of_user user s && after s.expires_at now) d.sessions)

-- `expires_at <= CURRENT_TIMESTAMP`
abbrev pub is_over : Time → Session → Bool
is_over now s = leb_ℤ s.expires_at now

unfoldable pub purge_expired_sessions : Bool → Time → Query (Unit {0})
purge_expired_sessions works now =
    call works (modify λ d. record d { sessions = delete_where (is_over now) d.sessions })
