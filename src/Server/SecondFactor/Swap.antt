-- ===== src/Server/SecondFactor/Swap.antt =====
-- The second step of a login: what has to hold before a pending session becomes a real one.
use router_billing.Prelude.{
  ℕ, ◌≡◌, ◌≤◌, refl, sym, ap, ◌∙◌, subst, Bool, true, false, ◌&&◌, Option, none, some, List, [],
  ◌∷◌, ◌++◌, Text, is_empty, text_eq, arith, inl, inr, ◌⊎◌, Bool-cases, Option-cases, ◌==◌,
  if◌then◌else◌, ltb,
}
use router_billing.Prelude.Lists.{keep}
use router_billing.Prelude.Table.{find, has_key, delete_where}
use router_billing.Prelude.Texts.{codes}
use router_billing.Models.Accounts.{User, BackupCode}
use router_billing.Totp.{verify}
use router_billing.Db.{Db, Session}
use router_billing.Db.Sessions.{
  is_live, is_user_pending, get_session, delete_session, create_session, session_key,
}
use router_billing.Db.Users.{find_user, get_user}
use router_billing.Db.SecondFactor.{
  is_unused, create_trusted_device, unused_backup_codes, mark_backup_code_used,
}
use router_billing.Service.{Router}
use router_billing.Server.{App}
use router_billing.Server.Accounts.{token_of, user_pending_cookie, start_user_session}
use router_billing.Server.Login.Admitted.{new_user_session}
use router_billing.Server.BackupCodes.{
  verify_and_consume_backup_code, last_match, normalize_backup_code,
}
use router_billing.Server.Web.{
  Request, Host, Reply, Exchange, is_get, is_post, verify_csrf, ◌>>=◌, ◌>>◌, goes, replied,
  Outcome-cases, bind-goes, bind-replied,
}
use router_billing.Server.SecondFactor.{
  drop_pending, finish_login, posted_code, two_fa_next, pending_login, count_attempt, check_code,
  swap_session, trust_if, judge_code, asked_code, handle_user_login_2fa, tries_of, next_attempt,
  extract_digits,
}

-- The request's pending cookie names a live session that waits for the code of the user, who has a second factor
-- and is not suspended.
abbrev pub IsWaiting : Host → Request → Db → Text → User → Type 0
IsWaiting h r d token u =
    (s : Session) × (uid : ℕ) × (token_of (r.cookie user_pending_cookie) ≡ some token)
    × (find (is_live token h.now) d.sessions ≡ some s)
    × (is_user_pending s.kind ≡ true)
    × (s.user_id ≡ some uid)
    × (find_user uid d ≡ some u)
    × (is_empty u.totp_secret ≡ false)
    × (u.suspended ≡ false)

-- The codes that `UnusedBackupCodes` reads.
abbrev pub usable_codes : ℕ → Db → List BackupCode
usable_codes user d = keep (λ b. b.user_id == user && is_unused b.used_at) d.backup_codes

-- The code that was typed: the authenticator's, or an unused backup code of the user.
abbrev pub IsGoodCode : Host → User → Text → Db → Type 0
IsGoodCode h u raw d =
    (verify h.crypto u.totp_secret (extract_digits raw) h.now ≡ true)
    ⊎ ((last_match h (normalize_backup_code raw) 0 (usable_codes u.id d) == 0) ≡ false)

-- The sessions after the pending one was dropped, which SQLite may have refused.
abbrev pub AreLeft : Text → List Session → List Session → Type 0
AreLeft token ss left = (left ≡ ss) ⊎ (left ≡ delete_where (has_key session_key token) ss)

-- What a typed code may leave of the sessions.
abbrev pub IsSwapped : Host → Request → Text → User → (Text → Text) → Db → ℕ → List Session → Type 0
IsSwapped h r token u f d tries after =
    AreLeft token d.sessions after
    ⊎ ((left : List Session) × AreLeft token d.sessions left
        × (after ≡ left ++ new_user_session h r u ∷ [])
        × (tries ≤ 5)
        × IsGoodCode h u (f (codes "code")) d)

abbrev IsAsked : {S : Type 0} → Host → Request → Text → User → App S → List Session → Type 0
IsAsked h r token u a after =
    (after ≡ a.router.db.sessions)
    ⊎ ((f : Text → Text) × (r.form ≡ some f)
        × (verify_csrf r ≡ true)
        × IsSwapped h r token u f a.router.db (tries_of token (next_attempt token a.tries)) after)

module _ {S : Type 0} (h : Host) (r : Request) where
  pending_login-router : (x : Exchange S) → (pending_login h r x).1.app ≡ x.app
  unfolding pending_login get_session get_user
  pending_login-router x = ground arith

  -- Who the code is asked of.
  pub pending_login_lem :
      (x : Exchange S) (token : Text) (u : User)
      → (pending_login h r x).0 ≡ goes (token, u)
      → IsWaiting h r x.app.router.db token u
  unfolding pending_login get_session get_user
  pending_login_lem x token u e = elim (Option-cases (token_of (r.cookie user_pending_cookie))) [
    | inl nothing ↦ absurd (ground arith)
    | inr (t, cookie) ↦ elim (Option-cases (find (is_live t h.now) x.app.router.db.sessions)) [
      | inl nothing ↦ absurd (ground arith)
      | inr (s, live) ↦ elim (Option-cases s.user_id) [
        | inl nothing ↦ absurd (ground arith)
        | inr (uid, owned) ↦ elim (Option-cases (find_user uid x.app.router.db)) [
          | inl nothing ↦ absurd (ground arith)
          | inr (v, known) ↦
              let same : (t ≡ token) × (v ≡ u) = ground arith in
              (
                s,
                uid,
                ground arith,
                subst (λ k. find (is_live k h.now) x.app.router.db.sessions ≡ some s) same.0 live,
                ground arith,
                owned,
                ground arith,
                ground arith,
                ground arith,
              )
        ]
      ]
    ]
  ]

  count_attempt-sessions :
      (token : Text) (u : User) (x : Exchange S)
      → (count_attempt h r token u x).0 ≡ goes tt
      → let x' = (count_attempt h r token u x).1 in
        (x'.app.router ≡ x.app.router)
        × (ltb 5 (tries_of token (next_attempt token x.app.tries)) ≡ false)
        × (x'.app.tries ≡ next_attempt token x.app.tries)
  unfolding count_attempt
  count_attempt-sessions token u x e = ground arith

  check_code-sessions :
      (u : User) (raw : Text) (x : Exchange S)
      → (check_code h r u raw x).1.app.router.db.sessions ≡ x.app.router.db.sessions
  unfolding check_code verify_and_consume_backup_code unused_backup_codes mark_backup_code_used
  check_code-sessions u raw x = ground arith

  trust_if-sessions :
      (wanted : Bool) (u : User) (x : Exchange S)
      → (trust_if h r wanted u x).1.app.router.db.sessions ≡ x.app.router.db.sessions
  unfolding trust_if create_trusted_device
  trust_if-sessions wanted u x = ground arith

  check_code_lem :
      (u : User) (raw via : Text) (x : Exchange S)
      → (check_code h r u raw x).0 ≡ goes (some via)
      → IsGoodCode h u raw x.app.router.db
  unfolding check_code verify_and_consume_backup_code unused_backup_codes mark_backup_code_used
  check_code_lem u raw via x e = ground arith

  count_attempt-refused :
      (token : Text) (u : User) (x : Exchange S) (reply : Reply)
      → (count_attempt h r token u x).0 ≡ replied reply
      → AreLeft token x.app.router.db.sessions
          (count_attempt h r token u x).1.app.router.db.sessions
  unfolding count_attempt delete_session
  count_attempt-refused token u x reply e = ground arith

  drop_pending-goes : (token : Text) (x : Exchange S) → (drop_pending h r token x).0 ≡ goes tt
  unfolding drop_pending
  drop_pending-goes token x = refl

  drop_pending-sessions :
      (token : Text) (x : Exchange S)
      → let ss = x.app.router.db.sessions in
        (drop_pending h r token x).1.app.router.db.sessions
        ≡ (if h.works x.calls then delete_where (has_key session_key token) ss else ss)
  unfolding drop_pending delete_session
  drop_pending-sessions token x = ground arith

  trust_if-goes :
      (wanted : Bool) (u : User) (x : Exchange S) → (trust_if h r wanted u x).0 ≡ goes tt
  unfolding trust_if
  trust_if-goes wanted u x = ground arith

  finish_login-sessions :
      (u : User) (via next : Text) (x : Exchange S)
      → let ss = x.app.router.db.sessions in
        let after = (finish_login h r u via next x).1.app.router.db.sessions in
        (after ≡ ss) ⊎ (after ≡ ss ++ new_user_session h r u ∷ [])
  unfolding finish_login start_user_session create_session
  finish_login-sessions u via next x = ground arith

  swap_session-sessions :
      (token : Text) (u : User) (via : Text) (trust : Bool) (next : Text) (x : Exchange S)
      → let ss = x.app.router.db.sessions in
        let left = if h.works x.calls then delete_where (has_key session_key token) ss else ss in
        let after = (swap_session h r token u via trust next x).1.app.router.db.sessions in
        (after ≡ left) ⊎ (after ≡ left ++ new_user_session h r u ∷ [])
  swap_session-sessions token u via trust next x =
      let x1 = (drop_pending h r token x).1 in
      let x2 = (trust_if h r trust u x1).1 in
      let run : swap_session h r token u via trust next x ≡ finish_login h r u via next x2 =
        bind-goes (drop_pending h r token)
          (λ _. trust_if h r trust u >> finish_login h r u via next) x tt
          (drop_pending-goes token x)
        ∙ bind-goes (trust_if h r trust u) (λ _. finish_login h r u via next) x1 tt
            (trust_if-goes trust u x1) in
      ground (
        arith,
        run,
        finish_login-sessions u via next x2,
        trust_if-sessions trust u x1,
        drop_pending-sessions token x,
      )

  swap_session-AreLeft :
      (token : Text) (u : User) (via : Text) (trust : Bool) (next : Text) (x : Exchange S)
      → let ss = x.app.router.db.sessions in
        let after = (swap_session h r token u via trust next x).1.app.router.db.sessions in
        (left : List Session) × AreLeft token ss left
        × ((after ≡ left) ⊎ (after ≡ left ++ new_user_session h r u ∷ []))
  swap_session-AreLeft token u via trust next x =
      let ss = x.app.router.db.sessions in
      (
        if h.works x.calls then delete_where (has_key session_key token) ss else ss,
        ground arith,
        swap_session-sessions token u via trust next x,
      )

  judge_code-AreLeft :
      (token : Text) (u : User) (f : Text → Text) (good : Option Text) (x : Exchange S)
      → let ss = x.app.router.db.sessions in
        let after = (judge_code h r token u f (two_fa_next r) good x).1.app.router.db.sessions in
        AreLeft token ss after
        ⊎ ((left : List Session) × (via : Text) × AreLeft token ss left
            × (after ≡ left ++ new_user_session h r u ∷ [])
            × (good ≡ some via))
  judge_code-AreLeft token u f none x = inl (inl (ground arith))
  judge_code-AreLeft token u f (some via) x =
      let trust = text_eq (f (codes "trust_device")) (codes "1") in
      let (left, dropped, both) = swap_session-AreLeft token u via trust (two_fa_next r) x in
      elim both [
        | inl e ↦ inl (subst (AreLeft token x.app.router.db.sessions) (sym e) dropped)
        | inr e ↦ inr (left, via, dropped, e, refl)
      ]

  check_code-replied :
      (u : User) (raw : Text) (x : Exchange S) (reply : Reply)
      → (check_code h r u raw x).0 ≡ replied reply
      → ⊥
  unfolding check_code verify_and_consume_backup_code
  check_code-replied u raw x reply e = ground arith

  posted_code-good :
      (token : Text) (u : User) (f : Text → Text) (x x1 : Exchange S) (good : Option Text)
      → x1.app.router ≡ x.app.router
      → (check_code h r u (f (codes "code")) x1).0 ≡ goes good
      → ltb 5 (tries_of token (next_attempt token x.app.tries)) ≡ false
      → let x2 = (check_code h r u (f (codes "code")) x1).1 in
        IsSwapped h r token u f x.app.router.db
          (tries_of token (next_attempt token x.app.tries))
          (judge_code h r token u f (two_fa_next r) good x2).1.app.router.db.sessions
  posted_code-good token u f x x1 good same e few =
      let x2 = (check_code h r u (f (codes "code")) x1).1 in
      let kept : x2.app.router.db.sessions ≡ x.app.router.db.sessions =
        check_code-sessions u (f (codes "code")) x1 ∙ ap (λ (z : Router S). z.db.sessions) same in
      elim (judge_code-AreLeft token u f good x2) [
        | inl left ↦ inl (
            subst
              (λ ss.
                AreLeft token ss
                  (judge_code h r token u f (two_fa_next r) good x2).1.app.router.db.sessions)
              kept left)
        | inr (left, via, dropped, after, some_via) ↦ inr (
          left,
          subst (λ ss. AreLeft token ss left) kept dropped,
          after,
          ground arith,
          subst (λ (z : Router S). IsGoodCode h u (f (codes "code")) z.db) same
              (check_code_lem u (f (codes "code")) via x1 (e ∙ ap goes some_via)),
        )
      ]

  posted_code-IsSwapped :
      (token : Text) (u : User) (f : Text → Text) (x : Exchange S)
      → IsSwapped h r token u f x.app.router.db
          (tries_of token (next_attempt token x.app.tries))
          (posted_code h r token u f x).1.app.router.db.sessions
  unfolding posted_code
  posted_code-IsSwapped token u f x =
      let rest = λ (good : Option Text). judge_code h r token u f (two_fa_next r) good in
      let checked = check_code h r u (f (codes "code")) in
      let x1 = (count_attempt h r token u x).1 in
      elim (Outcome-cases (count_attempt h r token u x).0) [
        | inr (reply, e) ↦
            let run : posted_code h r token u f x ≡ (replied reply, x1) =
              bind-replied (count_attempt h r token u) (λ _. checked >>= rest) x reply e in
            rw run (inl (count_attempt-refused token u x reply e))
        | inl (_, e) ↦
            let (same, few, counted) = count_attempt-sessions token u x e in
            let run : posted_code h r token u f x ≡ (checked >>= rest) x1 =
              bind-goes (count_attempt h r token u) (λ _. checked >>= rest) x tt e in
            elim (Outcome-cases (checked x1).0) [
              | inr (reply, e2) ↦ absurd (check_code-replied u (f (codes "code")) x1 reply e2)
              | inl (good, e2) ↦
                  rw (run, bind-goes checked rest x1 good e2)
                    (posted_code-good token u f x x1 good same e2 few)
            ]
      ]

  asked_code-IsSwapped :
      (token : Text) (u : User) (x : Exchange S)
      → IsAsked h r token u x.app (asked_code h r token u x).1.app.router.db.sessions
  asked_code-IsSwapped token u x = elim (Option-cases r.form) [
    | inl missing ↦ inl (ground arith)
    | inr (f, e) ↦ elim (Bool-cases (is_post r.method && verify_csrf r)) [
      | inr turned ↦ inl (ground arith)
      | inl entered ↦
          let post : is_post r.method ≡ true = ground arith in
          let not_get : is_get r.method ≡ false = ground arith in
          let signed : verify_csrf r ≡ true = ground arith in
          let run : asked_code h r token u x ≡ posted_code h r token u f x =
            rw (not_get, post, signed, e) in
          inr (f, e, signed, rw run (posted_code-IsSwapped token u f x))
    ]
  ]

  -- The second step of a login leaves the sessions as they were, unless a session of the request waits for the code. Then
  -- it may end that session, and it adds a session of that user only after at most five attempts with that
  -- token, with the authenticator's code or an unused backup code, and with the page's CSRF token.
  pub handle_user_login_2fa_lem :
      (x : Exchange S)
      → let d = x.app.router.db in
        let after = (handle_user_login_2fa h r x).1.app.router.db.sessions in
        (after ≡ d.sessions)
        ⊎ ((token : Text) × (u : User) × (f : Text → Text) × IsWaiting h r d token u
            × (r.form ≡ some f)
            × (verify_csrf r ≡ true)
            × IsSwapped h r token u f d (tries_of token (next_attempt token x.app.tries)) after)
  unfolding handle_user_login_2fa
  handle_user_login_2fa_lem x =
      let rest = λ (p : Text × User). asked_code h r p.0 p.1 in
      let x1 = (pending_login h r x).1 in
      let same = pending_login-router x in
      elim (Outcome-cases (pending_login h r x).0) [
        | inr (reply, e) ↦ inl (
            rw (bind-replied (pending_login h r) rest x reply e)
              (ap (λ (z : App S). z.router.db.sessions) same))
        | inl ((token, u), e) ↦
            let run = bind-goes (pending_login h r) rest x (token, u) e in
            let after = (asked_code h r token u x1).1.app.router.db.sessions in
            elim (subst (λ (z : App S). IsAsked h r token u z after) same
              (asked_code-IsSwapped token u x1)) [
                | inl nothing ↦ inl (rw run nothing)
                | inr (f, filled, signed, swapped) ↦
                    inr (token, u, f, pending_login_lem x token u e, filled, signed, rw run swapped)
              ]
      ]
