-- ===== src/Db/SecondFactor/Resets.antt =====
-- Password resets: which row a code is checked against.
use router_billing.Prelude.{
  ℕ, ◌+◌, ◌≡◌, refl, true, none, some, List, [], ◌∷◌, ◌++◌, Text, arith, ◌==◌, if◌then◌else◌,
}
use router_billing.Prelude.Int.{ℤ, ◌+ℤ◌}
use router_billing.Prelude.Table.{delete_where}
use router_billing.Models.{Time, after}
use router_billing.Models.Accounts.{PasswordReset}
use router_billing.Db.{Db, ok}
use router_billing.Db.SecondFactor.{
  new_reset, find_last, is_open_reset, create_password_reset, get_active_password_reset,
}

-- The last match of the table after the prior rows of the user went and the new one came.
last-created :
    (user other : ℕ) (t : Time) (x : PasswordReset) (rs : List PasswordReset)
    → x.user_id ≡ user
    → find_last (is_open_reset other t) (delete_where (λ r. r.user_id == user) rs ++ x ∷ []) ≡ (
        if user == other
        then if after x.expires_at t then some x else none
        else find_last (is_open_reset other t) rs)
unfolding find_last delete_where
last-created user other t x [] h = ground arith
last-created user other t x (r ∷ rs) h = ground (arith, last-created user other t x rs h)

-- A new reset: until its end it is the only one that the user's codes are checked against, with no attempt
-- counted, and from then on there is none. The resets of other users stay.
pub create_password_reset-get_active_password_reset :
    (user : ℕ) (hash : Text) (ttl : ℤ) (now : Time) (d : Db)
    → let (r, d') = create_password_reset true user hash ttl now d in
      let x = new_reset (d.reset_seq + 1) user hash ttl now in
      (r ≡ ok x)
      × ((other : ℕ) (t : Time)
          → (get_active_password_reset true other t d').0 ≡ (
              if user == other
              then ok (if after (now +ℤ ttl) t then some x else none)
              else (get_active_password_reset true other t d).0))
unfolding create_password_reset get_active_password_reset
create_password_reset-get_active_password_reset user hash ttl now d = (
  refl,
  λ other t.
      rw (last-created user other t (new_reset (d.reset_seq + 1) user hash ttl now) d.resets refl)
        (ground arith),
)
