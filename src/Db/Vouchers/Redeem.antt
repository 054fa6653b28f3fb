-- ===== src/Db/Vouchers/Redeem.antt =====
-- `RedeemVoucher`: a code grants its days once, whatever calls come later.
use router_billing.Prelude.{
  ℕ, ◌+◌, ◌≡◌, refl, subst, Bool, true, false, ◌&&◌, Option, none, some, List, [], ◌∷◌, Text,
  text_eq, text_eq-eq, text_eq_refl, text_eq_comm, sym, arith, inl, inr, Option-cases, Bool-cases,
  if◌then◌else◌,
}
use router_billing.Prelude.Table.{has_key, get-key, get-append, get-update_where}
use router_billing.Prelude.Keyed.{get-update_key}
use router_billing.Models.{Time, Voucher, Mac}
use router_billing.Db.{Db, Error, ok, err, voucher_revoked, voucher_used, voucher_expired}
use router_billing.Db.Macs.{
  find_mac, upsert_mac, delete_mac, set_mac_status, set_mac_label, set_mac_notes, set_mac_schedule,
  replace_mac, expire_due_macs,
}
use router_billing.Db.Orders.{
  create_order, mark_order_queried, mark_order_paid, roll_back_mac, find_order, update_order,
  refunded_row, mark_order_refunded, cancel_pending_order, cancel_stale_pending_orders,
}
use router_billing.Db.Vouchers.{
  voucher_key, find_voucher, new_voucher, create_voucher, is_set, is_unredeemed, revoke_row,
  revoke_voucher, is_usable_in, revoke_voucher_batch, is_lapsed, redeemed_row, redeem_voucher,
  update_vouchers,
}
use router_billing.Db.Sessions.{
  create_session, delete_session, delete_sessions_by_user_id, delete_all_admin_sessions_except,
  delete_all_user_sessions, delete_user_sessions_except, purge_expired_sessions,
}
use router_billing.Db.Calls.{
  Call, upserts, deletes, sets_status, sets_label, sets_notes, sets_schedule, replaces, expires,
  creates_order, queried, pays, refunds, cancels, cancels_stale, creates_voucher, revokes,
  revokes_batch, redeems, creates_session, ends_session, ends_user_sessions, ends_other_admins,
  ends_all_users, ends_other_sessions, purges_sessions, step, run,
}

-- Why a voucher is refused, in the order of the checks.
unfoldable pub refusal : Voucher → Time → Option Error
refusal v now =
    if v.revoked
    then some voucher_revoked
    else if is_set v.redeemed_at
    then some voucher_used
    else if is_lapsed v.expires_at now
    then some voucher_expired
    else none

abbrev pub is_none : Option Error → Bool
is_none none = true
is_none (some _) = false

-- A voucher that nothing speaks against is redeemed: the answer is the voucher as it then stands, and no
-- other voucher changes. Any other gives the first of the errors revoked, used and expired that
-- applies, and nothing changes.
pub redeem_voucher_lem :
    (code mac : Text) (user : Option ℕ) (now : Time) (d : Db) (v : Voucher)
    → find_voucher code d ≡ some v
    → let (r, d') = redeem_voucher true code mac user now d in
      (r ≡ elim (refusal v now) [ none ↦ ok (redeemed_row mac user now v) | some e ↦ err e ])
      × ((k : Text)
          → find_voucher k d' ≡ (
              if is_none (refusal v now) && text_eq code k
              then some (redeemed_row mac user now v)
              else find_voucher k d))
unfolding redeem_voucher refusal
redeem_voucher_lem code mac user now d v e = (
  ground arith,
  λ k. ground (
    arith,
    get-update_key voucher_key k code (redeemed_row mac user now) d.vouchers (λ x. refl) e,
  ),
)

module _ (code : Text) (v : Voucher) (used : is_set v.redeemed_at ≡ true) where
  update-frozen :
      (p : Voucher → Bool) (f : Voucher → Voucher) (d : Db)
      → ((x : Voucher) → voucher_key (f x) ≡ voucher_key x)
      → p v ≡ false
      → find_voucher code d ≡ some v
      → find_voucher code (update_vouchers p f d) ≡ some v
  update-frozen p f d same out e =
      rw (get-update_where voucher_key code p f d.vouchers same, e, out)

  revoke_voucher-frozen :
      (works : Bool) (other : Text) (d : Db)
      → find_voucher code d ≡ some v
      → find_voucher code (revoke_voucher works other d).1 ≡ some v
  unfolding revoke_voucher
  revoke_voucher-frozen false other d e = e
  revoke_voucher-frozen true other d e =
      update-frozen (is_unredeemed other) revoke_row d (λ x. refl) (ground arith) e

  revoke_voucher_batch-frozen :
      (works : Bool) (batch : Text) (d : Db)
      → find_voucher code d ≡ some v
      → find_voucher code (revoke_voucher_batch works batch d).1 ≡ some v
  unfolding revoke_voucher_batch
  revoke_voucher_batch-frozen false batch d e = e
  revoke_voucher_batch-frozen true batch d e =
      update-frozen (is_usable_in batch) revoke_row d (λ x. refl) (ground arith) e

  create_voucher-frozen :
      (works : Bool) (other : Text) (days : ℕ) (label batch : Text) (until : Option Time)
      (now : Time) (d : Db)
      → find_voucher code d ≡ some v
      → find_voucher code (create_voucher works other days label batch until now d).1 ≡ some v
  unfolding create_voucher
  create_voucher-frozen false other days label batch until now d e = e
  create_voucher-frozen true other days label batch until now d e =
      elim (Option-cases (find_voucher other d)) [
        | inl fresh ↦ rw fresh (
            rw (
              get-append voucher_key code d.vouchers
                  (new_voucher (d.voucher_seq + 1) other days label batch until now),
              e,
            ))
        | inr (y, found) ↦ rw found e
      ]

  redeem_voucher-frozen :
      (works : Bool) (other mac : Text) (user : Option ℕ) (now : Time) (d : Db)
      → find_voucher code d ≡ some v
      → find_voucher code (redeem_voucher works other mac user now d).1 ≡ some v
  unfolding redeem_voucher
  redeem_voucher-frozen false other mac user now d e = e
  redeem_voucher-frozen true other mac user now d e = elim (Bool-cases (text_eq other code)) [
    | inl y ↦
        let here : find_voucher other d ≡ some v =
          subst (λ j. find_voucher j d ≡ some v) (sym (text_eq-eq other code y)) e in
        ground arith
    | inr n ↦
        let out : has_key voucher_key other v ≡ false =
          rw (get-key voucher_key code d.vouchers e, text_eq_comm code other, n) in
        ground (
          arith,
          update-frozen (has_key voucher_key other) (redeemed_row mac user now) d (λ x. refl) out e,
        )
  ]

roll_back_mac-vouchers :
    (m : Option Mac) (days : ℕ) (now : Time) (d : Db)
    → (roll_back_mac m days now d).1.vouchers ≡ d.vouchers
roll_back_mac-vouchers none days now d = refl
roll_back_mac-vouchers (some m) days now d = refl

mark_order_refunded-vouchers :
    (works : Bool) (number reason : Text) (now : Time) (d : Db)
    → (mark_order_refunded works number reason now d).1.vouchers ≡ d.vouchers
unfolding mark_order_refunded
mark_order_refunded-vouchers works number reason now d = elim (Option-cases (find_order number d)) [
  | inl missing ↦ ground arith
  | inr (o, found) ↦ ground (
    arith,
    roll_back_mac-vouchers (find_mac o.mac d) o.days now
        (update_order number (refunded_row reason) d),
  )
]

-- The other calls do not write the table.
unwritten :
    (c : Call) (code : Text) (v : Voucher) (d : Db)
    → find_voucher code d ≡ some v
    → (step c d).vouchers ≡ d.vouchers
    → find_voucher code (step c d) ≡ some v
unwritten c code v d e same = rw same e

step-frozen :
    (c : Call) (code : Text) (v : Voucher) (d : Db)
    → is_set v.redeemed_at ≡ true
    → find_voucher code d ≡ some v
    → find_voucher code (step c d) ≡ some v
unfolding step upsert_mac delete_mac set_mac_status set_mac_label set_mac_notes set_mac_schedule
    replace_mac expire_due_macs create_order mark_order_queried mark_order_paid cancel_pending_order
    cancel_stale_pending_orders create_session delete_session delete_sessions_by_user_id
    delete_all_admin_sessions_except delete_all_user_sessions delete_user_sessions_except
    purge_expired_sessions
step-frozen (upserts works reread mac label days owner now) code v d used e =
    unwritten (upserts works reread mac label days owner now) code v d e (ground arith)
step-frozen (deletes works mac) code v d used e =
    unwritten (deletes works mac) code v d e (ground arith)
step-frozen (sets_status works mac status now) code v d used e =
    unwritten (sets_status works mac status now) code v d e (ground arith)
step-frozen (sets_label works mac label now) code v d used e =
    unwritten (sets_label works mac label now) code v d e (ground arith)
step-frozen (sets_notes works mac notes now) code v d used e =
    unwritten (sets_notes works mac notes now) code v d e (ground arith)
step-frozen (sets_schedule works mac schedule now) code v d used e =
    unwritten (sets_schedule works mac schedule now) code v d e (ground arith)
step-frozen (replaces works reread user mac to label now) code v d used e =
    unwritten (replaces works reread user mac to label now) code v d e (ground arith)
step-frozen (expires selects updates now) code v d used e =
    unwritten (expires selects updates now) code v d e (ground arith)
step-frozen (creates_order works x now) code v d used e =
    unwritten (creates_order works x now) code v d e (ground arith)
step-frozen (queried works number now) code v d used e =
    unwritten (queried works number now) code v d e (ground arith)
step-frozen (pays works number trade now) code v d used e =
    unwritten (pays works number trade now) code v d e (ground arith)
step-frozen (refunds works number reason now) code v d used e =
    unwritten (refunds works number reason now) code v d e
      (mark_order_refunded-vouchers works number reason now d)
step-frozen (cancels works number) code v d used e =
    unwritten (cancels works number) code v d e (ground arith)
step-frozen (cancels_stale works older_than now) code v d used e =
    unwritten (cancels_stale works older_than now) code v d e (ground arith)
step-frozen (creates_voucher works other days label batch until now) code v d used e =
    create_voucher-frozen code v used works other days label batch until now d e
step-frozen (revokes works other) code v d used e =
    revoke_voucher-frozen code v used works other d e
step-frozen (revokes_batch works batch) code v d used e =
    revoke_voucher_batch-frozen code v used works batch d e
step-frozen (redeems works other mac user now) code v d used e =
    redeem_voucher-frozen code v used works other mac user now d e
step-frozen (creates_session works token kind subject user ttl now) code v d used e =
    unwritten (creates_session works token kind subject user ttl now) code v d e (ground arith)
step-frozen (ends_session works token) code v d used e =
    unwritten (ends_session works token) code v d e (ground arith)
step-frozen (ends_user_sessions works user) code v d used e =
    unwritten (ends_user_sessions works user) code v d e (ground arith)
step-frozen (ends_other_admins works token) code v d used e =
    unwritten (ends_other_admins works token) code v d e (ground arith)
step-frozen (ends_all_users works) code v d used e =
    unwritten (ends_all_users works) code v d e (ground arith)
step-frozen (ends_other_sessions works user token) code v d used e =
    unwritten (ends_other_sessions works user token) code v d e (ground arith)
step-frozen (purges_sessions works now) code v d used e =
    unwritten (purges_sessions works now) code v d e (ground arith)

-- A redeemed voucher stays as it is, whatever calls follow.
pub run-frozen :
    (cs : List Call) (code : Text) (v : Voucher) (d : Db)
    → is_set v.redeemed_at ≡ true
    → find_voucher code d ≡ some v
    → find_voucher code (run cs d) ≡ some v
unfolding run
run-frozen [] code v d used e = e
run-frozen (c ∷ cs) code v d used e =
    run-frozen cs code v (step c d) used (step-frozen c code v d used e)

-- What a redemption that went through leaves.
redeemed-facts :
    (code mac : Text) (user : Option ℕ) (now : Time) (d : Db) (v : Voucher)
    → (redeem_voucher true code mac user now d).0 ≡ ok v
    → (find_voucher code (redeem_voucher true code mac user now d).1 ≡ some v)
      × (is_set v.redeemed_at ≡ true)
      × (v.revoked ≡ false)
unfolding redeem_voucher
redeemed-facts code mac user now d v won = elim (Option-cases (find_voucher code d)) [
  | inl missing ↦ absurd (ground arith)
  | inr (x, found) ↦ ground (
    arith,
    text_eq_refl code,
    get-update_key voucher_key code code (redeemed_row mac user now) d.vouchers (λ y. refl) found,
  )
]

used-refused :
    (code mac : Text) (user : Option ℕ) (now : Time) (d : Db) (v : Voucher)
    → find_voucher code d ≡ some v
    → is_set v.redeemed_at ≡ true
    → v.revoked ≡ false
    → redeem_voucher true code mac user now d ≡ (err voucher_used, d)
unfolding redeem_voucher
used-refused code mac user now d v e used fresh = ground arith

-- Once a code has been redeemed, no later attempt redeems it, for any device, user and time, whatever calls on devices,
-- orders, vouchers and sessions lie between: the answer is the error that it was used, and the tables are left as they are.
pub redeem_voucher-once :
    (code mac mac' : Text) (user user' : Option ℕ) (now now' : Time) (d : Db) (v : Voucher)
    (cs : List Call)
    → (redeem_voucher true code mac user now d).0 ≡ ok v
    → let d' = run cs (redeem_voucher true code mac user now d).1 in
      redeem_voucher true code mac' user' now' d' ≡ (err voucher_used, d')
redeem_voucher-once code mac mac' user user' now now' d v cs won =
    let (here, used, fresh) = redeemed-facts code mac user now d v won in
    used-refused code mac' user' now' (run cs (redeem_voucher true code mac user now d).1) v
      (run-frozen cs code v _ used here) used fresh
