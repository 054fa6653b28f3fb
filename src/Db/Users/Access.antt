-- ===== src/Db/Users/Access.antt =====
-- `SuspendUser` and `DeleteUser`: who can still use the app afterwards, and what stays of the user's devices.
use mathlib.Core.Option
use router_billing.Prelude.{
  ℕ, ◌≡◌, refl, true, false, none, some, List, [], ◌∷◌, Text, arith, ◌==◌, All, Option,
  if◌then◌else◌,
}
use router_billing.Prelude.Table.{
  find, delete_where, delete_where-All, find-update_where, find-passes, get-update_where, get,
  get-delete_where, IsUnique,
}
use router_billing.Models.{Time, Mac}
use router_billing.Models.Accounts.{User}
use router_billing.Db.{Db, Session}
use router_billing.Db.Macs.{mac_key, find_mac}
use router_billing.Db.Sessions.{session_key, is_of_user}
use router_billing.Db.Users.{is_user_id, find_user, suspend_user, without_owner, delete_user}

deleted-none :
    (id : ℕ) (us : List User) → find (is_user_id id) (delete_where (is_user_id id) us) ≡ none
unfolding find delete_where
deleted-none id [] = refl
deleted-none id (u ∷ us) = ground (arith, deleted-none id us)

-- What is left of the session of a token: nothing where it is a session of the user.
abbrev pub unless_of_user : ℕ → Option Session → Option Session
unless_of_user id none = none
unless_of_user id (some s) = if is_of_user id s then none else some s

-- A suspension that goes through: the user is suspended, no session of the kind "user" is left of the user, and
-- every other session is, with a login that waits for its second step.
pub suspend_user_lem :
    (id : ℕ) (now : Time) (d : Db) (u : User)
    → find_user id d ≡ some u
    → IsUnique session_key d.sessions
    → let d' = (suspend_user true true id true now d).1 in
      (find_user id d' ≡ some (record u { suspended = true; updated_at = now }))
      × All (λ s. is_of_user id s ≡ false) d'.sessions
      × ((k : Text)
          → get session_key k d'.sessions ≡ unless_of_user id (get session_key k d.sessions))
unfolding suspend_user
suspend_user_lem id now d u e unique = (
  ground (
    arith,
    find-passes (is_user_id id) d.users e,
    find-update_where (is_user_id id) (is_user_id id)
        (λ x. record x { suspended = true; updated_at = now }) d.users (λ x. refl),
  ),
  delete_where-All (is_of_user id) d.sessions,
  λ k. ground (arith, get-delete_where session_key k (is_of_user id) d.sessions unique),
)

-- A deletion that goes through: the user is gone with the trusted browsers, backup codes and password resets, no
-- session of the kind "user" is left of the user and every other session is, and every device keeps
-- its row, less the user as its owner.
pub delete_user_lem :
    (id : ℕ) (d : Db)
    → IsUnique session_key d.sessions
    → let d' = (delete_user true true id d).1 in
      (find_user id d' ≡ none)
      × All (λ s. is_of_user id s ≡ false) d'.sessions
      × ((k : Text)
          → get session_key k d'.sessions ≡ unless_of_user id (get session_key k d.sessions))
      × All (λ x. (x.user_id == id) ≡ false) d'.trusted
      × All (λ x. (x.user_id == id) ≡ false) d'.backup_codes
      × All (λ x. (x.user_id == id) ≡ false) d'.resets
      × ((mac : Text)
          → find_mac mac d'
            ≡ Option.map {A = Mac} {B = Mac}
                (λ m. record m { user_id = without_owner id m.user_id })
                (find_mac mac d))
unfolding delete_user
delete_user_lem id d unique = (
  deleted-none id d.users,
  delete_where-All (is_of_user id) d.sessions,
  λ k. ground (arith, get-delete_where session_key k (is_of_user id) d.sessions unique),
  delete_where-All (λ x. x.user_id == id) d.trusted,
  delete_where-All (λ x. x.user_id == id) d.backup_codes,
  delete_where-All (λ x. x.user_id == id) d.resets,
  λ mac.
      get-update_where mac_key mac (λ _. true)
        (λ x. record x { user_id = without_owner id x.user_id }) d.macs (λ x. refl),
)
