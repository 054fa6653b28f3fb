-- ===== src/Db/Sessions/Live.antt =====
-- `GetSession` after the other calls on sessions: what a login, a logout and a purge change for a token.
use router_billing.Prelude.{
  ℕ, ◌≡◌, refl, ap, subst, true, false, ◌&&◌, not, Option, none, some, List, [], ◌∷◌, Text, text_eq,
  text_eq-eq, arith, inl, inr, Bool-cases, Option-cases, if◌then◌else◌,
}
use router_billing.Prelude.Int.{ℤ, ◌+ℤ◌, ◌≤ℤ◌}
use router_billing.Prelude.Table.{find, get, has_key, delete_where, find-append}
use router_billing.Models.{Time, after}
use router_billing.Db.{Db, ok, Session, SessionKind}
use router_billing.Db.Sessions.{
  session_key, new_session, create_session, is_live, get_session, delete_session, is_of_user,
  delete_user_sessions_except, is_over, purge_expired_sessions,
}

-- A token that no row has is not live at any time.
absent-find :
    (token : Text) (t : Time) (ss : List Session)
    → get session_key token ss ≡ none
    → find (is_live token t) ss ≡ none
unfolding get find
absent-find token t [] h = refl
absent-find token t (s ∷ ss) h = ground (arith, absent-find token t ss)

-- A login with a fresh token: it is answered with the session at any time before its end, and not after. Other
-- tokens are answered as before.
pub create_session-get_session :
    (token : Text) (kind : SessionKind) (subject : Text) (user : Option ℕ) (ttl : ℤ) (now : Time)
    (d : Db)
    → get session_key token d.sessions ≡ none
    → let (r, d') = create_session true token kind subject user ttl now d in
      (r ≡ ok tt)
      × ((k : Text) (t : Time)
          → (get_session true k t d').0 ≡ (
              if text_eq token k
              then ok (
                  if after (now +ℤ ttl) t
                  then some (new_session token kind subject user ttl now)
                  else none)
              else (get_session true k t d).0))
unfolding create_session get_session find
create_session-get_session token kind subject user ttl now d fresh = rw fresh (
  refl,
  λ k t.
      let new = new_session token kind subject user ttl now in
      let both = find-append (is_live k t) d.sessions (new ∷ []) in
      elim (Bool-cases (text_eq token k)) [
        | inl y ↦
            let absent : get session_key k d.sessions ≡ none =
              subst (λ j. get session_key j d.sessions ≡ none) (text_eq-eq token k y) fresh in
            ground (arith, both, absent-find k t d.sessions absent)
        | inr n ↦ elim (Option-cases (find (is_live k t) d.sessions)) [
          | inl nothing ↦ ground (arith, both)
          | inr (s, found) ↦ ground (arith, both)
        ]
      ],
)

deleted-find :
    (token k : Text) (t : Time) (ss : List Session)
    → find (is_live k t) (delete_where (has_key session_key token) ss)
      ≡ (if text_eq token k then none else find (is_live k t) ss)
unfolding find delete_where
deleted-find token k t [] = ground arith
deleted-find token k t (s ∷ ss) = elim (Bool-cases (text_eq s.token token)) [
  | inl y ↦
      let same : text_eq s.token k ≡ text_eq token k =
        ap (λ z. text_eq z k) (text_eq-eq s.token token y) in
      ground (arith, deleted-find token k t ss, same)
  | inr n ↦ elim (Bool-cases (text_eq token k)) [
    | inl e ↦
        let other : text_eq s.token k ≡ false =
          subst (λ j. text_eq s.token j ≡ false) (text_eq-eq token k e) n in
        ground (arith, deleted-find token k t ss)
    | inr e ↦ ground (arith, deleted-find token k t ss)
  ]
]

-- A logout: the token is refused from then on, and other tokens are answered as before.
pub delete_session-get_session :
    (token k : Text) (t : Time) (d : Db)
    → (get_session true k t (delete_session true token d).1).0
      ≡ (if text_eq token k then ok none else (get_session true k t d).0)
unfolding delete_session get_session
delete_session-get_session token k t d = rw (deleted-find token k t d.sessions) (ground arith)

purged-find :
    (k : Text) (now t : Time) (ss : List Session)
    → now ≤ℤ t
    → find (is_live k t) (delete_where (is_over now) ss) ≡ find (is_live k t) ss
unfolding find delete_where
purged-find k now t [] h = refl
purged-find k now t (s ∷ ss) h = ground (arith, purged-find k now t ss h)

-- A purge goes unseen: at its time and later, every token is answered as it would have been.
pub purge_expired_sessions-get_session :
    (now t : Time) (k : Text) (d : Db)
    → now ≤ℤ t
    → (get_session true k t (purge_expired_sessions true now d).1).0 ≡ (get_session true k t d).0
unfolding purge_expired_sessions get_session
purge_expired_sessions-get_session now t k d h = rw (purged-find k now t d.sessions h)

kept-find :
    (user : ℕ) (token k : Text) (t : Time) (ss : List Session) (s : Session)
    → find
        (is_live k t)
        (delete_where (λ x. is_of_user user x && not (has_key session_key token x)) ss)
      ≡ some s
    → is_of_user user s ≡ true
    → k ≡ token
unfolding find delete_where
kept-find user token k t [] s e h = absurd (ground arith)
kept-find user token k t (x ∷ ss) s e h =
    ground (arith, kept-find user token k t ss s, text_eq-eq x.token token, text_eq-eq x.token k)

-- Logging a user's other devices out: afterwards a token that is still answered with a session of the user is the
-- one that was kept.
pub delete_user_sessions_except-get_session :
    (user : ℕ) (token k : Text) (t : Time) (d : Db) (s : Session)
    → (get_session true k t (delete_user_sessions_except true user token d).1).0 ≡ ok (some s)
    → is_of_user user s ≡ true
    → k ≡ token
unfolding delete_user_sessions_except get_session
delete_user_sessions_except-get_session user token k t d s e h =
    kept-find user token k t d.sessions s (ground arith) h
