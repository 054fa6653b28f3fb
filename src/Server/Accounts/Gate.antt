-- ===== src/Server/Accounts/Gate.antt =====
-- Who gets past `requireUser`.
use router_billing.Prelude.{
  ℕ, ◌≡◌, sym, ap, subst, ◌∙◌, Bool, true, false, ◌&&◌, Option, none, some, arith, inl, inr,
  Option-cases,
}
use router_billing.Prelude.Table.{find, find-passes}
use router_billing.Models.Accounts.{User}
use router_billing.Db.{Db, ok}
use router_billing.Db.Sessions.{is_live, get_session}
use router_billing.Db.Users.{is_user_id, find_user, get_user}
use router_billing.Server.{App}
use router_billing.Server.Web.{
  Request, Host, verify_csrf, Exchange, goes, Outcome-cases, bind-goes, bind-replied,
}
use router_billing.Server.Accounts.{
  token_of, user_cookie_name, user_of, known_user, current_user_id, load_user, require_user,
}

abbrev pub is_some : {A : Type 0} → Option A → Bool
is_some none = false
is_some (some _) = true

-- The user of the live session that the request's cookie names.
unfoldable pub signed_in : Host → Request → Db → Option ℕ
signed_in h r d = elim (token_of (r.cookie user_cookie_name)) [
  | none ↦ none
  | some token ↦ user_of (ok (find (is_live token h.now) d.sessions))
]

module _ {S : Type 0} (h : Host) (r : Request) where
  pub current_user_id-app : (x : Exchange S) → (current_user_id h r x).1.app ≡ x.app
  unfolding current_user_id get_session get_user
  current_user_id-app x = ground arith

  pub current_user_id-signed_in :
      (x : Exchange S) (uid : ℕ)
      → (current_user_id h r x).0 ≡ goes (some uid)
      → signed_in h r x.app.router.db ≡ some uid
  unfolding current_user_id get_session get_user signed_in
  current_user_id-signed_in x uid e = ground arith

  pub load_user-app : (x : Exchange S) → (load_user h r x).1.app ≡ x.app
  unfolding load_user get_session get_user
  load_user-app x = ground arith

  known_user-found :
      (uid : ℕ) (x : Exchange S) (u : User)
      → (known_user h r (some uid) x).0 ≡ goes u
      → (uid ≡ u.id) × (find_user uid x.app.router.db ≡ some u)
  unfolding get_user
  known_user-found uid x u e = elim (Option-cases (find_user uid x.app.router.db)) [
    | inl missing ↦ absurd (ground arith)
    | inr (v, found) ↦ ground (arith, find-passes (is_user_id uid) x.app.router.db.users found)
  ]

  pub load_user-signed_in :
      (x : Exchange S) (u : User)
      → (load_user h r x).0 ≡ goes u
      → (signed_in h r x.app.router.db ≡ some u.id) × (find_user u.id x.app.router.db ≡ some u)
  unfolding load_user get_session get_user signed_in
  load_user-signed_in x u e =
      let x1 = (current_user_id h r x).1 in
      let same = current_user_id-app x in
      elim (Outcome-cases (current_user_id h r x).0) [
        | inr (reply, e1) ↦
            let run = bind-replied (current_user_id h r) (known_user h r) x reply e1 in
            absurd (ground arith)
        | inl (none, e1) ↦
            let run = bind-goes (current_user_id h r) (known_user h r) x none e1 in
            absurd (ground arith)
        | inl (some uid, e1) ↦
            let run = bind-goes (current_user_id h r) (known_user h r) x (some uid) e1 in
            let (own, found) = known_user-found uid x1 u (ap (λ z. z.0) (sym run) ∙ e) in
            (
              current_user_id-signed_in x uid e1 ∙ ap some own,
              subst (λ (i : ℕ). find_user i x.app.router.db ≡ some u) own
                  (subst (λ (a : App S). find_user uid a.router.db ≡ some u) same found),
            )
      ]

  pub require_user-app : (x : Exchange S) → (require_user h r x).1.app ≡ x.app
  unfolding require_user get_session get_user
  require_user-app x = ground arith

  pub require_user-admits :
      (x : Exchange S)
      → (require_user h r x).0 ≡ goes tt
      → (is_some (signed_in h r x.app.router.db) && verify_csrf r) ≡ true
  unfolding require_user get_session get_user signed_in
  require_user-admits x e = ground arith
