-- ===== src/Server/Login/Admitted.antt =====
-- Which logins end in a session.
use router_billing.Prelude.{
  ◌≡◌, subst, Bool, true, false, not, ◌&&◌, none, some, List, [], ◌∷◌, ◌++◌, Text, is_empty, arith,
  inl, inr, ◌⊎◌, Bool-cases, Option-cases,
}
use router_billing.Prelude.Table.{get, find}
use router_billing.Prelude.Texts.{codes, trim_space}
use router_billing.Models.Accounts.{User}
use router_billing.Models.TypedText.{valid_phone}
use router_billing.Db.{Db, Session, SessionKind}
use router_billing.Db.Users.{phone_key, get_user_by_phone}
use router_billing.Db.Sessions.{new_session, create_session}
use router_billing.Db.SecondFactor.{is_trusted, get_trusted_device}
use router_billing.Service.{Router}
use router_billing.Server.Accounts.{
  token_of, is_device_for, user_trusted_cookie, user_pending_ttl, start_user_session,
  consume_trusted_device_cookie,
}
use router_billing.Server.RateLimiter.{allow}
use router_billing.Server.Web.{
  Request, Host, Exchange, is_get, is_post, client_ip, goes, replied, Outcome-cases, bind-goes,
  bind-replied, for_session, for_pending,
}
use router_billing.Server.Login.{
  next_of, posted_login, limit_login, check_login, admit_user, handle_user_login,
}

module _ (h : Host) (r : Request) where
  -- The second factor is asked for, unless the browser presents the token of a device that the user trusts.
  abbrev pub needs_code : User → Db → Bool
  needs_code u d =
      not (is_empty u.totp_secret)
      && not (elim (token_of (r.cookie user_trusted_cookie)) [
        | none ↦ false
        | some token ↦ is_device_for u.id (find (is_trusted token h.now) d.trusted)
      ])

  abbrev pub new_user_session : User → Session
  new_user_session u =
      new_session (h.fresh for_session) SessionKind.user u.phone (some u.id) h.session_ttl h.now

  abbrev pub new_pending_session : User → Session
  new_pending_session u =
      new_session (h.fresh for_pending) SessionKind.user_pending_2fa u.phone (some u.id)
        user_pending_ttl h.now

  -- What a login may leave of the sessions: what was there, and at most one more, for the user of the phone
  -- number that was typed, with the right password and not suspended. It is a user's session only
  -- where no second factor is needed, and else one that waits for the code.
  abbrev pub IsAdmitted : (Text → Text) → Db → List Session → Type 0
  IsAdmitted f d after =
      (u : User) × (get phone_key (trim_space (f (codes "phone"))) d.users ≡ some u)
      × (h.matches u.password_hash (f (codes "password")) ≡ true)
      × (u.suspended ≡ false)
      × (((needs_code u d ≡ false) × (after ≡ d.sessions ++ new_user_session u ∷ []))
          ⊎ (after ≡ d.sessions ++ new_pending_session u ∷ []))

module _ {S : Type 0} (h : Host) (r : Request) where
  check_login-router :
      (phone password : Text) (x : Exchange S)
      → (check_login h r phone password x).1.app.router ≡ x.app.router
  unfolding check_login get_user_by_phone
  check_login-router phone password x = ground arith

  -- Who comes through the check of the password.
  pub check_login_lem :
      (phone password : Text) (x : Exchange S) (u : User)
      → (check_login h r phone password x).0 ≡ goes u
      → (get phone_key phone x.app.router.db.users ≡ some u)
        × (valid_phone phone ≡ true)
        × (h.matches u.password_hash password ≡ true)
        × (u.suspended ≡ false)
  unfolding check_login get_user_by_phone
  check_login_lem phone password x u e = ground arith

  -- What `startUserSession` leaves of the sessions.
  pub start_user_session-sessions :
      (u : User) (x : Exchange S)
      → let ss = x.app.router.db.sessions in
        let after = (start_user_session h r u x).1.app.router.db.sessions in
        (after ≡ ss) ⊎ (after ≡ ss ++ new_user_session h r u ∷ [])
  unfolding start_user_session create_session
  start_user_session-sessions u x = ground arith

  -- The outcome of the second half of a login.
  pub admit_user-sessions :
      (u : User) (next : Text) (x : Exchange S)
      → let d = x.app.router.db in
        let after = (admit_user h r u next x).1.app.router.db.sessions in
        (after ≡ d.sessions)
        ⊎ (((needs_code h r u d ≡ false) × (after ≡ d.sessions ++ new_user_session h r u ∷ []))
            ⊎ (after ≡ d.sessions ++ new_pending_session h r u ∷ []))
  unfolding admit_user create_session start_user_session consume_trusted_device_cookie
      get_trusted_device
  admit_user-sessions u next x = ground arith

  posted_login-sessions :
      (f : Text → Text) (x : Exchange S)
      → let d = x.app.router.db in
        let after = (posted_login h r f x).1.app.router.db.sessions in
        (after ≡ d.sessions) ⊎ IsAdmitted h r f d after
  posted_login-sessions f x =
      let phone = trim_space (f (codes "phone")) in
      let password = f (codes "password") in
      let next = next_of (f (codes "next")) in
      let same = check_login-router phone password x in
      let x' = (check_login h r phone password x).1 in
      elim (Outcome-cases (check_login h r phone password x).0) [
        | inl (u, e) ↦
            let (found, valid, right, fine) = check_login_lem phone password x u e in
            let run : posted_login h r f x ≡ admit_user h r u next x' =
              bind-goes (check_login h r phone password) (λ v. admit_user h r v next) x u e in
            elim (admit_user-sessions u next x') [
              | inl nothing ↦ inl (rw (run, nothing, same))
              | inr (inl (free, more)) ↦ inr (
                u,
                found,
                right,
                fine,
                inl (
                  subst (λ (z : Router S). needs_code h r u z.db ≡ false) same free,
                  rw (run, more, same),
                ),
              )
              | inr (inr more) ↦ inr (u, found, right, fine, inr (rw (run, more, same)))
            ]
        | inr (reply, e) ↦
            let run : posted_login h r f x ≡ (replied reply, x') =
              bind-replied (check_login h r phone password) (λ v. admit_user h r v next) x reply
                e in
            inl (rw (run, same))
      ]

  abbrev passes_gate : Exchange S → Bool
  passes_gate x = is_post r.method && (allow (client_ip r) h.now x.app.limits.login).0

  handle_user_login-run :
      (f : Text → Text) (x : Exchange S)
      → r.form ≡ some f
      → passes_gate x ≡ true
      → handle_user_login h r x ≡ posted_login h r f (limit_login h r x).1
  unfolding handle_user_login
  handle_user_login-run f x e entered =
      let post : is_post r.method ≡ true = ground arith in
      let not_get : is_get r.method ≡ false = ground arith in
      let passed : (allow (client_ip r) h.now x.app.limits.login).0 ≡ true = ground arith in
      rw (not_get, post, passed, e)

  -- A login leaves the sessions as they were, or adds one: for the user of the phone number that was typed, with the right
  -- password and not suspended. It is a session of a user only where no second factor is needed, and else one that
  -- waits for the code.
  pub handle_user_login_lem :
      (x : Exchange S)
      → let d = x.app.router.db in
        let after = (handle_user_login h r x).1.app.router.db.sessions in
        (after ≡ d.sessions) ⊎ ((f : Text → Text) × (r.form ≡ some f) × IsAdmitted h r f d after)
  unfolding handle_user_login
  handle_user_login_lem x = elim (Option-cases r.form) [
    | inl missing ↦ inl (ground arith)
    | inr (f, e) ↦ elim (Bool-cases (passes_gate x)) [
      | inl entered ↦
          let run = handle_user_login-run f x e entered in
          elim (posted_login-sessions f (limit_login h r x).1) [
            | inl nothing ↦ inl (rw run nothing)
            | inr more ↦ inr (f, e, rw run more)
          ]
      | inr turned ↦ inl (ground arith)
    ]
  ]
