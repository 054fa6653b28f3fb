-- ===== src/Server/Redeem/Spent.antt =====
-- What `handleRedeem` does to vouchers and devices.
use router_billing.Prelude.{
  ℕ, ◌≡◌, refl, ap, sym, subst, ◌∙◌, ◌⊎◌, inl, inr, Bool, true, false, ◌&&◌, Option, none, some,
  ◌+◌, Text, text_eq, arith, Option-cases, Bool-cases, if◌then◌else◌,
}
use router_billing.Prelude.Texts.{codes}
use router_billing.Prelude.Table.{get}
use router_billing.Models.{Time, Mac, Voucher}
use router_billing.Models.TypedText.{normalize_mac}
use router_billing.Codes.{canon, validate}
use router_billing.Db.{Db, Error, ok, err, sql_failed, voucher_not_found}
use router_billing.Db.Macs.{mac_key, find_mac, upsert_mac, get_mac}
use router_billing.Db.Macs.Upsert.{IsGrant, upsert_mac-IsGrant}
use router_billing.Db.Sessions.{get_session}
use router_billing.Db.Users.{get_user, find_user}
use router_billing.Db.Vouchers.{voucher_key, find_voucher, redeem_voucher, redeemed_row}
use router_billing.Db.Vouchers.Redeem.{is_none, redeem_voucher_lem}
use router_billing.Db.Vouchers.Redeem
use router_billing.Firewall.{Nft}
use router_billing.Service.{extend, Router}
use router_billing.Server.{App}
use router_billing.Server.Web.{
  HasFailed, Request, Host, Exchange, Outcome-cases, goes, is_post, client_ip,
}
use router_billing.Server.RateLimiter.{allow}
use router_billing.Server.Accounts.{current_user_id, is_suspended}
use router_billing.Server.Accounts.Gate.{signed_in, current_user_id-app, current_user_id-signed_in}
use router_billing.Server.Redeem.{
  Visitor, typed_mac, voucher_label, redeem_to, redeem_form, limit_redeem, handle_redeem,
}

-- The user that a redemption is linked to: the one who is logged in, if he is not suspended.
unfoldable pub redeeming_user : Host → Request → Db → Option ℕ
redeeming_user h r d = elim (signed_in h r d) [
  | none ↦ none
  | some uid ↦ if is_suspended (ok (find_user uid d)) then none else some uid
]

-- What the redemption of the voucher `v` by a device does. The days are added to the device, unless the
-- database failed after the voucher was marked; then no device has changed.
abbrev pub IsSpent : Host → Text → Text → Option ℕ → Db → Db → Type 0
IsSpent h code mac user d after =
    (v : Voucher) × (find_voucher code d ≡ some v)
    × (Redeem.refusal v h.now ≡ none)
    × ((k : Text)
        → find_voucher k after
          ≡ (if text_eq code k then some (redeemed_row mac user h.now v) else find_voucher k d))
    × ((HasFailed h × ((k : Text) → find_mac k after ≡ find_mac k d))
        ⊎ ((m : Mac) × IsGrant (find_mac mac d) mac (voucher_label v) v.days user h.now m
            × ((k : Text) → find_mac k after ≡ (if text_eq mac k then some m else find_mac k d))))

abbrev is_usable_row : Time → Option Voucher → Bool
is_usable_row now none = false
is_usable_row now (some v) = is_none (Redeem.refusal v now)

-- A voucher of the code is there, and is neither revoked nor used nor over.
unfoldable pub is_usable : Text → Time → Db → Bool
is_usable code now d = is_usable_row now (find_voucher code d)

-- Why a request redeems nothing.
pub data IsTurnedAway {S : Type 0} (h : Host) (b : Visitor) (r : Request) (x : Exchange S)
    : Type 0 where
  not_posted : is_post r.method ≡ false → IsTurnedAway h b r x
  too_often : (allow (client_ip r) h.now x.app.limits.redeem).0 ≡ false → IsTurnedAway h b r x
  no_form : r.form ≡ none → IsTurnedAway h b r x
  bad_code :
      (f : Text → Text)
      → r.form ≡ some f
      → validate (canon (f (codes "code"))) ≡ false
      → IsTurnedAway h b r x
  no_device :
      (f : Text → Text)
      → r.form ≡ some f
      → normalize_mac (typed_mac b f) ≡ none
      → IsTurnedAway h b r x
  unusable :
      (f : Text → Text)
      → r.form ≡ some f
      → is_usable (canon (f (codes "code"))) h.now x.app.router.db ≡ false
      → IsTurnedAway h b r x
  failed : HasFailed h → IsTurnedAway h b r x

extend-db :
    (n : Nft) (works reread : Bool) (mac label : Text) (days : ℕ) (user : Option ℕ) (now : Time)
    (r : Router n.State)
    → let after = (extend n works reread mac label days user now r).1.db in
      ((works ≡ false) × (after ≡ r.db))
      ⊎ (after ≡ (upsert_mac true true mac label days user now r.db).1)
unfolding extend upsert_mac get_mac
extend-db n works reread mac label days user now r = ground arith

upsert_mac-vouchers :
    (mac label : Text) (days : ℕ) (user : Option ℕ) (now : Time) (d : Db)
    → (upsert_mac true true mac label days user now d).1.vouchers ≡ d.vouchers
unfolding upsert_mac get_mac
upsert_mac-vouchers mac label days user now d = ground arith

redeem_voucher-macs :
    (works : Bool) (code mac : Text) (user : Option ℕ) (now : Time) (d : Db)
    → (redeem_voucher works code mac user now d).1.macs ≡ d.macs
unfolding redeem_voucher
redeem_voucher-macs works code mac user now d = ground arith

-- A redemption that is refused writes nothing.
redeem_voucher-cases :
    (works : Bool) (code mac : Text) (user : Option ℕ) (now : Time) (d : Db)
    → ((e : Error) × (redeem_voucher works code mac user now d ≡ (err e, d))
        × ((works ≡ false) ⊎ (is_usable code now d ≡ false)))
      ⊎ ((v : Voucher) × (find_voucher code d ≡ some v)
          × (Redeem.refusal v now ≡ none)
          × (works ≡ true)
          × ((redeem_voucher works code mac user now d).0 ≡ ok (redeemed_row mac user now v)))
unfolding redeem_voucher Redeem.refusal is_usable
redeem_voucher-cases works code mac user now d = elim (Bool-cases works) [
  | inr off ↦ inl (sql_failed, ground arith, inl off)
  | inl on ↦ elim (Option-cases (find_voucher code d)) [
    | inl nothing ↦ inl (voucher_not_found, ground arith, inr (rw nothing refl))
    | inr (v, e) ↦ elim (Option-cases (Redeem.refusal v now)) [
      | inl free ↦ inr (v, e, free, on, ground arith)
      | inr (why, refused) ↦ inl (why, ground arith, inr (rw e (rw refused refl)))
    ]
  ]
]

module _ (n : Nft) (h : Host) (b : Visitor) (r : Request) where
  -- A refusal ends the handler, and a voucher that was redeemed reaches the service.
  redeem_to-refused :
      (raw mac : Text) (user : Option ℕ) (x : Exchange n.State) (why : Error)
      → redeem_voucher (h.works x.calls) (canon raw) mac user h.now x.app.router.db
        ≡ (err why, x.app.router.db)
      → (redeem_to n h b r raw mac user x).1.app.router ≡ x.app.router
  unfolding redeem_to
  redeem_to-refused raw mac user x why e = ground arith

  redeem_to-extend :
      (raw mac : Text) (user : Option ℕ) (x : Exchange n.State) (v : Voucher)
      → let redeemed =
          redeem_voucher (h.works x.calls) (canon raw) mac user h.now x.app.router.db in
        redeemed.0 ≡ ok v
        → (redeem_to n h b r raw mac user x).1.app.router.db
          ≡ (extend n
              (h.works (x.calls + 1))
              (h.works (x.calls + 1 + 1))
              mac
              (voucher_label v)
              v.days
              user
              h.now
              (record { db = redeemed.1; set = x.app.router.set })).1.db
  unfolding redeem_to
  redeem_to-extend raw mac user x v e = ground arith

  current_user_id-router :
      (x : Exchange n.State)
      → (user : Option ℕ) × ((current_user_id h r x).0 ≡ goes user)
        × ((current_user_id h r x).1.app.router ≡ x.app.router)
  unfolding current_user_id get_session get_user
  current_user_id-router x = elim (Outcome-cases (current_user_id h r x).0) [
    | inl (user, e) ↦ (user, e, ap (λ (a : App n.State). a.router) (current_user_id-app h r x))
    | inr (reply, e) ↦ absurd (ground arith)
  ]

  abbrev pub IsRedeemer : Option ℕ → Db → Type 0
  IsRedeemer user d =
      (user ≡ redeeming_user h r d) ⊎ (HasFailed h × ((user ≡ none) ⊎ (signed_in h r d ≡ user)))

  current_user_id-works :
      (user : Option ℕ) (x : Exchange n.State)
      → (current_user_id h r x).0 ≡ goes user
      → h.works x.calls ≡ true
      → h.works (x.calls + 1) ≡ true
      → user ≡ redeeming_user h r x.app.router.db
  unfolding current_user_id get_session get_user signed_in redeeming_user
  current_user_id-works user x e one two = ground arith

  whose :
      (user : Option ℕ) (x : Exchange n.State)
      → (current_user_id h r x).0 ≡ goes user
      → IsRedeemer user x.app.router.db
  whose user x e =
      let either : (user ≡ none) ⊎ (signed_in h r x.app.router.db ≡ user) =
        elim (Option-cases user) [
          | inl none_there ↦ inl none_there
          | inr (uid, there) ↦
              inr (current_user_id-signed_in h r x uid (e ∙ ap goes there) ∙ sym there)
        ] in
      elim (Bool-cases (h.works x.calls)) [
        | inr off ↦ inr ((x.calls, off), either)
        | inl one ↦ elim (Bool-cases (h.works (x.calls + 1))) [
          | inr off ↦ inr ((x.calls + 1, off), either)
          | inl two ↦ inl (current_user_id-works user x e one two)
        ]
      ]

  -- Where `handleRedeem` gets to the transaction, and what it does before.
  handle_redeem-cases :
      (x : Exchange n.State)
      → (((handle_redeem n h b r x).1.app.router ≡ x.app.router) × IsTurnedAway h b r x)
        ⊎ ((f : Text → Text) × (mac : Text) × (user : Option ℕ) × (x1 : Exchange n.State) × (r.form
              ≡ some f)
            × (validate (canon (f (codes "code"))) ≡ true)
            × (normalize_mac (typed_mac b f) ≡ some mac)
            × ((current_user_id h r x1).0 ≡ goes user)
            × (x1.app.router ≡ x.app.router)
            × (handle_redeem n h b r x
                ≡ redeem_to n h b r (f (codes "code")) mac user (current_user_id h r x1).1))
  unfolding handle_redeem redeem_form
  handle_redeem-cases x = elim (Option-cases r.form) [
    | inl none_given ↦ inl (ground arith, no_form none_given)
    | inr (f, form) ↦ elim (Option-cases (normalize_mac (typed_mac b f))) [
      | inl unknown ↦ inl (ground arith, no_device f form unknown)
      | inr (mac, known) ↦ elim (Bool-cases (validate (canon (f (codes "code"))))) [
        | inr invalid ↦ inl (ground arith, bad_code f form invalid)
        | inl valid ↦ elim (Bool-cases (is_post r.method)) [
          | inr other ↦ inl (ground arith, not_posted other)
          | inl post ↦ elim (Bool-cases (allow (client_ip r) h.now x.app.limits.redeem).0) [
            | inr often ↦ inl (ground arith, too_often often)
            | inl passed ↦
                let x1 = (limit_redeem n h b r x).1 in
                let (user, e, same) = current_user_id-router x1 in
                inr (f, mac, user, x1, form, valid, known, e, refl, ground arith)
          ]
        ]
      ]
    ]
  ]

  -- The transaction and the grant behind it.
  redeem_to-IsSpent :
      (raw mac : Text) (user : Option ℕ) (x : Exchange n.State)
      → let after = (redeem_to n h b r raw mac user x).1.app.router in
        ((after ≡ x.app.router)
          × (HasFailed h ⊎ (is_usable (canon raw) h.now x.app.router.db ≡ false)))
        ⊎ IsSpent h (canon raw) mac user x.app.router.db after.db
  redeem_to-IsSpent raw mac user x =
      let d = x.app.router.db in
      let code = canon raw in
      let works = h.works x.calls in
      elim (redeem_voucher-cases works code mac user h.now d) [
        | inl (why, refused, for_reason) ↦ inl (
          redeem_to-refused raw mac user x why refused,
          elim for_reason [ inl off ↦ inl (x.calls, off) | inr spoilt ↦ inr spoilt ],
        )
        | inr (v, e, free, on, done) ↦
            let after = (redeem_to n h b r raw mac user x).1.app.router.db in
            let d1 = (redeem_voucher works code mac user h.now d).1 in
            let granted = (upsert_mac true true mac (voucher_label v) v.days user h.now d1).1 in
            let reaches = redeem_to-extend raw mac user x (redeemed_row mac user h.now v) done in
            let marked : (k : Text)
                → find_voucher k d1 ≡ (
                    if text_eq code k
                    then some (redeemed_row mac user h.now v)
                    else find_voucher k d) =
              (λ k.
                ap (λ w. find_voucher k (redeem_voucher w code mac user h.now d).1) on
                ∙ (redeem_voucher_lem code mac user h.now d v e).1 k
                ∙ ap
                    (λ o.
                      if is_none o && text_eq code k
                      then some (redeemed_row mac user h.now v)
                      else find_voucher k d)
                    free) in
            let macs : d1.macs ≡ d.macs = redeem_voucher-macs works code mac user h.now d in
            let run =
              extend-db n (h.works (x.calls + 1)) (h.works (x.calls + 1 + 1)) mac (voucher_label v)
                v.days user h.now (record { db = d1; set = x.app.router.set }) in
            inr (elim run [
              | inl (off, lost) ↦
                  let same : after ≡ d1 = reaches ∙ lost in
                  (
                    v,
                    e,
                    free,
                    λ k. ap (find_voucher k) same ∙ marked k,
                    inl ((x.calls + 1, off), λ k. ap (find_mac k) same ∙ ap (get mac_key k) macs),
                  )
              | inr given ↦
                  let same : after ≡ granted = reaches ∙ given in
                  let (m, _, grant, others) =
                    upsert_mac-IsGrant mac (voucher_label v) v.days user h.now d1 in
                  (
                    v,
                    e,
                    free,
                    λ k.
                        ap (find_voucher k) same
                        ∙ ap (get voucher_key k)
                            (upsert_mac-vouchers mac (voucher_label v) v.days user h.now d1)
                        ∙ marked k,
                    inr (
                      m,
                      subst
                          (λ rows.
                            IsGrant (get mac_key mac rows) mac (voucher_label v) v.days user h.now
                              m)
                          macs grant,
                      λ k.
                          ap (find_mac k) same
                          ∙ others k
                          ∙ ap (λ rows. if text_eq mac k then some m else get mac_key k rows) macs,
                    ),
                  )
            ])
      ]

  -- `handleRedeem` either changes nothing of the tables and the firewall, and the request is turned away for one of the reasons of
  -- `IsTurnedAway`: another method, too many tries, no form, a bad code, no device, a voucher that is not there, revoked, used
  -- or over, or a failed call of the database. Or the voucher of the typed code, which is neither revoked nor used nor over, and no other, is
  -- marked as used by this device and by the user who is logged in, if any and not suspended. The
  -- device, and no other, gets the voucher's days after what it was paid for. Only where a call of the
  -- database fails may no device change, or the link to the user be missing or be a suspended one.
  pub handle_redeem_lem :
      (x : Exchange n.State)
      → let after = (handle_redeem n h b r x).1.app.router in
        ((after ≡ x.app.router) × IsTurnedAway h b r x)
        ⊎ ((f : Text → Text) × (mac : Text) × (user : Option ℕ) × (r.form ≡ some f)
            × (validate (canon (f (codes "code"))) ≡ true)
            × (normalize_mac (typed_mac b f) ≡ some mac)
            × IsRedeemer user x.app.router.db
            × IsSpent h (canon (f (codes "code"))) mac user x.app.router.db after.db)
  handle_redeem_lem x = elim (handle_redeem-cases x) [
    | inl nothing ↦ inl nothing
    | inr (f, mac, user, x1, form, valid, known, e, same, run) ↦
        let code = canon (f (codes "code")) in
        let x2 = (current_user_id h r x1).1 in
        let kept : x2.app.router ≡ x.app.router =
          ap (λ (a : App n.State). a.router) (current_user_id-app h r x1) ∙ same in
        let owner : IsRedeemer user x.app.router.db =
          subst (λ (z : Router n.State). IsRedeemer user z.db) same (whose user x1 e) in
        elim (redeem_to-IsSpent (f (codes "code")) mac user x2) [
          | inl (nothing, for_reason) ↦ inl (
            ap (λ p. p.1.app.router) run ∙ nothing ∙ kept,
            elim for_reason [
              | inl broken ↦ failed broken
              | inr spoilt ↦
                  unusable f form
                    (subst (λ (z : Router n.State). is_usable code h.now z.db ≡ false) kept spoilt)
            ],
          )
          | inr spent ↦ inr (
            f,
            mac,
            user,
            form,
            valid,
            known,
            owner,
            subst (λ p. IsSpent h code mac user x.app.router.db p.1.app.router.db) (sym run)
                (subst
                  (λ (z : Router n.State).
                    IsSpent h code mac user z.db
                      (redeem_to n h b r (f (codes "code")) mac user x2).1.app.router.db)
                  kept spent),
          )
        ]
  ]
