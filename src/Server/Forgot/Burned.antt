-- ===== src/Server/Forgot/Burned.antt =====
-- A password reset: what it takes, and what it changes.
use router_billing.Prelude.{
  ℕ, ◌+◌, ◌==◌, Bool, ◌≡◌, refl, ap, subst, ◌∙◌, true, false, ◌&&◌, some, List, Text, arith, inl,
  inr, ◌⊎◌, Bool-cases, Option-cases,
}
use router_billing.Prelude.Table.{get, update_where, delete_where}
use router_billing.Prelude.Texts.{codes, trim_space}
use router_billing.Models.Accounts.{User, PasswordReset}
use router_billing.Db.{Db}
use router_billing.Db.Sessions.{is_of_user, delete_sessions_by_user_id}
use router_billing.Db.Users.{phone_key, is_user_id, get_user_by_phone, update_user_password}
use router_billing.Db.SecondFactor.{
  find_last, is_open_reset, get_active_password_reset, bump_password_reset_attempts,
  delete_password_reset,
}
use router_billing.Service.{Router}
use router_billing.Server.Web.{
  Request, Host, HasFailed, Exchange, is_post, verify_csrf, ◌>>=◌, goes, Outcome-cases, bind-goes,
  bind-replied,
}
use router_billing.Server.Login.{password_valid}
use router_billing.Server.Forgot.{
  Provider, check_verify, open_reset, right_code, wrong_code, try_code, posted_verify,
  handle_user_forgot_password_verify,
}

-- Who may set a new password: the user of the phone number, who is not suspended and has an open reset.
abbrev pub IsOpenReset : Host → Text → Db → User → PasswordReset → Type 0
IsOpenReset h phone d u row =
    (get phone_key phone d.users ≡ some u)
    × (u.suspended ≡ false)
    × (find_last (is_open_reset u.id h.now) d.resets ≡ some row)

abbrev with_password : ℕ → Text → Host → List User → List User
with_password id hash h us =
    update_where (is_user_id id) (λ u. record u { password_hash = hash; updated_at = h.now }) us

-- Nobody's password and no session has changed.
abbrev pub AreKept : Db → Db → Type 0
AreKept d d' = (d'.users ≡ d.users) × (d'.sessions ≡ d.sessions)

-- The rows after a DELETE that the code does not wait for: they stay only where the database fails.
abbrev IsDropped : {A : Type 0} → Host → (A → Bool) → List A → List A → Type 0
IsDropped h p xs after = (after ≡ delete_where p xs) ⊎ (HasFailed h × (after ≡ xs))

abbrev IsChanged : Host → User → PasswordReset → Text → Db → Db → Type 0
IsChanged h u row password d d' =
    (hash : Text) × (h.hash password ≡ some hash)
    × (d'.users ≡ with_password u.id hash h d.users)
    × IsDropped h (λ x. x.id == row.id) d.resets d'.resets
    × IsDropped h (is_of_user u.id) d.sessions d'.sessions

-- The password of the user has changed, after the right code for an open reset.
abbrev pub IsReset : Host → Text → Text → Text → Db → Db → Type 0
IsReset h phone code password d d' =
    (u : User) × (row : PasswordReset) × IsOpenReset h phone d u row
    × (h.matches row.code_hash code ≡ true)
    × (password_valid h password ≡ true)
    × IsChanged h u row password d d'

abbrev IsTried : Host → User → PasswordReset → Text → Text → Db → Db → Type 0
IsTried h u row code password d d' =
    AreKept d d' ⊎ ((h.matches row.code_hash code ≡ true) × IsChanged h u row password d d')

module _ {S : Type 0} (p : Provider) (h : Host) (r : Request) where
  check_verify-app :
      (phone code password : Text) (x : Exchange S)
      → (check_verify p h r phone code password x).1.app.router ≡ x.app.router
  unfolding check_verify
  check_verify-app phone code password x = ground arith

  check_verify-valid :
      (phone code password : Text) (x : Exchange S)
      → (check_verify p h r phone code password x).0 ≡ goes tt
      → password_valid h password ≡ true
  unfolding check_verify
  check_verify-valid phone code password x e = ground arith

  open_reset-router :
      (phone : Text) (x : Exchange S) → (open_reset p h r phone x).1.app.router ≡ x.app.router
  unfolding open_reset get_user_by_phone get_active_password_reset
  open_reset-router phone x = ground arith

  open_reset-IsOpenReset :
      (phone : Text) (x : Exchange S) (u : User) (row : PasswordReset)
      → (open_reset p h r phone x).0 ≡ goes (u, row)
      → IsOpenReset h phone x.app.router.db u row
  unfolding open_reset get_user_by_phone get_active_password_reset
  open_reset-IsOpenReset phone x u row e =
      let d = x.app.router.db in
      elim (Option-cases (get phone_key phone d.users)) [
        | inl unknown ↦ absurd (ground arith)
        | inr (v, known) ↦ elim (Option-cases (find_last (is_open_reset v.id h.now) d.resets)) [
          | inl unopened ↦ absurd (ground arith)
          | inr (w, opened) ↦
              let same : (v ≡ u) × (w ≡ row) = ground arith in
              (
                ground arith,
                ground arith,
                subst (λ (z : User). find_last (is_open_reset z.id h.now) d.resets ≡ some row)
                    same.0 (opened ∙ ap some same.1),
              )
        ]
      ]

  wrong_code-users :
      (u : User) (row : PasswordReset) (x : Exchange S)
      → let d' = (wrong_code p h r u row x).1.app.router.db in
        (d'.users ≡ x.app.router.db.users) × (d'.sessions ≡ x.app.router.db.sessions)
  unfolding wrong_code bump_password_reset_attempts delete_password_reset
  wrong_code-users u row x = ground arith

  right_code-users :
      (u : User) (row : PasswordReset) (password : Text) (x : Exchange S)
      → let d = x.app.router.db in
        let d' = (right_code p h r u row password x).1.app.router.db in
        AreKept d d' ⊎ IsChanged h u row password d d'
  unfolding right_code update_user_password delete_password_reset delete_sessions_by_user_id
  right_code-users u row password x = elim (Option-cases (h.hash password)) [
    | inl failed ↦ inl (ground arith)
    | inr (hash, e) ↦ elim (Bool-cases (h.works x.calls)) [
      | inl changed ↦ inr (
        hash,
        e,
        ground arith,
        elim (Bool-cases (h.works (x.calls + 1))) [
          | inl burned ↦ inl (ground arith)
          | inr broken ↦ inr ((x.calls + 1, broken), ground arith)
        ],
        elim (Bool-cases (h.works (x.calls + 1 + 1))) [
          | inl ended ↦ inl (ground arith)
          | inr broken ↦ inr ((x.calls + 1 + 1, broken), ground arith)
        ],
      )
      | inr failed ↦ inl (ground arith)
    ]
  ]

  try_code-users :
      (code password : Text) (u : User) (row : PasswordReset) (x : Exchange S)
      → let d = x.app.router.db in
        let d' = (try_code p h r code password u row x).1.app.router.db in
        IsTried h u row code password d d'
  try_code-users code password u row x = elim (Bool-cases (h.matches row.code_hash code)) [
    | inl right ↦ elim (right_code-users u row password x) [
      | inl kept ↦ inl (rw right kept)
      | inr changed ↦ inr (right, rw right changed)
    ]
    | inr wrong ↦ inl (rw wrong (wrong_code-users u row x))
  ]

  posted_verify-users :
      (phone code password : Text) (x : Exchange S)
      → let d = x.app.router.db in
        let d' = (posted_verify p h r phone code password x).1.app.router.db in
        AreKept d d' ⊎ IsReset h phone code password d d'
  unfolding posted_verify
  posted_verify-users phone code password x =
      let check = check_verify p h r phone code password in
      let opening = open_reset p h r phone in
      let rest = λ (c : User × PasswordReset). try_code p h r code password c.0 c.1 in
      let x1 = (check x).1 in
      let x2 = (opening x1).1 in
      let same1 : x1.app.router ≡ x.app.router = check_verify-app phone code password x in
      let same2 : x2.app.router ≡ x.app.router = open_reset-router phone x1 ∙ same1 in
      elim (Outcome-cases (check x).0) [
        | inr (reply, e) ↦
            let run = bind-replied check (λ _. opening >>= rest) x reply e in
            inl (rw (run, same1) (refl, refl))
        | inl (_, e) ↦
            let run1 = bind-goes check (λ _. opening >>= rest) x tt e in
            elim (Outcome-cases (opening x1).0) [
              | inr (reply, e2) ↦
                  let run = bind-replied opening rest x1 reply e2 in
                  inl (rw (run1, run, same2) (refl, refl))
              | inl ((u, row), e2) ↦
                  let run = bind-goes opening rest x1 (u, row) e2 in
                  let after = (try_code p h r code password u row x2).1.app.router.db in
                  let opened =
                    subst (λ (z : Router S). IsOpenReset h phone z.db u row) same1
                      (open_reset-IsOpenReset phone x1 u row e2) in
                  elim (subst (λ (z : Router S). IsTried h u row code password z.db after) same2
                    (try_code-users code password u row x2)) [
                      | inl kept ↦ inl (rw (run1, run) kept)
                      | inr (right, changed) ↦ inr (
                        u,
                        row,
                        opened,
                        right,
                        check_verify-valid phone code password x e,
                        rw (run1, run) changed,
                      )
                    ]
            ]
      ]

  -- A request to set a new password with a code changes nobody's password and no session, or the typed phone number is
  -- that of a user who is not suspended, the code is that of his open reset, and the password is acceptable. Then his
  -- password alone changes, and the reset and his sessions are deleted, each unless a call of the database fails.
  pub handle_user_forgot_password_verify_lem :
      (x : Exchange S)
      → let d = x.app.router.db in
        let d' = (handle_user_forgot_password_verify p h r x).1.app.router.db in
        AreKept d d'
        ⊎ ((f : Text → Text) × (r.form ≡ some f)
            × (verify_csrf r ≡ true)
            × IsReset h
                (trim_space (f (codes "phone")))
                (trim_space (f (codes "code")))
                (f (codes "new_password"))
                d
                d')
  unfolding handle_user_forgot_password_verify
  handle_user_forgot_password_verify_lem x = elim (Option-cases r.form) [
    | inl missing ↦ inl (ground arith)
    | inr (f, e) ↦ elim (Bool-cases (p.available && (is_post r.method && verify_csrf r))) [
      | inr turned ↦ inl (ground arith)
      | inl entered ↦
          let there : p.available ≡ true = ground arith in
          let post : is_post r.method ≡ true = ground arith in
          let signed : verify_csrf r ≡ true = ground arith in
          let phone = trim_space (f (codes "phone")) in
          let code = trim_space (f (codes "code")) in
          let password = f (codes "new_password") in
          let run : handle_user_forgot_password_verify p h r x
              ≡ posted_verify p h r phone code password x =
            rw (there, post, signed, e) in
          elim (posted_verify-users phone code password x) [
            | inl kept ↦ inl (rw run kept)
            | inr reset ↦ inr (f, e, signed, rw run reset)
          ]
    ]
  ]
