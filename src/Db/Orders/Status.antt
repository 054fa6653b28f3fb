-- ===== src/Db/Orders/Status.antt =====
-- The life of an order: which call may change which of its columns.
use router_billing.Prelude.{
  ℕ, ◌+◌, ◌≡◌, refl, sym, ap, ◌∙◌, ◌⊎◌, inl, inr, Bool, true, false, Option, none, some, List, [],
  ◌∷◌, All, Text, text_eq, text_eq-eq, text_eq_refl, subst, arith, Bool-cases, Option-cases,
}
use router_billing.Prelude.Int.{ℤ, ◌-ℤ◌}
use router_billing.Prelude.Table.{get-key, get-update_where, get-append}
use router_billing.Prelude.Keyed.{get-update_key}
use router_billing.Models.{before, Time, Mac, Order, OrderStatus, is_paid, is_pending}
use router_billing.Db.{Db}
use router_billing.Db.Macs.{
  find_mac, upsert_mac, delete_mac, set_mac_status, set_mac_label, set_mac_notes, set_mac_schedule,
  replace_mac, expire_due_macs,
}
use router_billing.Db.Orders.{
  order_key, find_order, update_orders, update_order, create_order, order_row, mark_order_queried,
  mark_order_paid, refunded_row, refund_trade_no, roll_back_mac, mark_order_refunded, failed_row,
  is_pending_at, cancel_pending_order, is_stale, cancel_stale_pending_orders,
}
use router_billing.Db.Vouchers.{
  create_voucher, revoke_voucher, revoke_voucher_batch, redeem_voucher,
}
use router_billing.Db.Sessions.{
  create_session, delete_session, delete_sessions_by_user_id, delete_all_admin_sessions_except,
  delete_all_user_sessions, delete_user_sessions_except, purge_expired_sessions,
}
use router_billing.Db.Calls.{
  Call, upserts, deletes, sets_status, sets_label, sets_notes, sets_schedule, replaces, expires,
  creates_order, queried, pays, refunds, cancels, cancels_stale, creates_voucher, revokes,
  revokes_batch, redeems, creates_session, ends_session, ends_user_sessions, ends_other_admins,
  ends_all_users, ends_other_sessions, purges_sessions, step, run,
}

-- What a call can make of the order `k`, besides leaving it as it is.
abbrev pub Moves : Call → Text → Order → Order → Type 0
Moves (queried _ n now) k o o' = (n ≡ k) × (o' ≡ record o { last_queried_at = some now })
Moves (pays _ n trade now) k o o' =
    (n ≡ k)
    × (is_paid o.status ≡ false)
    × (o' ≡ record o { status = OrderStatus.paid; trade_no = trade; paid_at = some now })
Moves (refunds _ n reason _) k o o' =
    (n ≡ k)
    × (o.status ≡ OrderStatus.paid)
    × (o'
        ≡ record o { status = OrderStatus.refunded; trade_no = refund_trade_no o.trade_no reason })
Moves (cancels _ n) k o o' =
    (n ≡ k) × (o.status ≡ OrderStatus.pending) × (o' ≡ record o { status = OrderStatus.failed })
Moves (cancels_stale _ older_than now) k o o' =
    (o.status ≡ OrderStatus.pending)
    × (before o.created_at (now -ℤ older_than) ≡ true)
    × (o' ≡ record o { status = OrderStatus.failed })
Moves _ k o o' = ⊥

-- The order `k` is still there after the call, as it was or moved.
abbrev pub Lasts : Call → Text → Order → Db → Type 0
Lasts c k o d = (o' : Order) × (find_order k d ≡ some o') × ((o' ≡ o) ⊎ Moves c k o o')

module _ (c : Call) (k : Text) (d : Db) (o : Order) (e : find_order k d ≡ some o) where
  unchanged-Lasts : (d' : Db) → d'.orders ≡ d.orders → Lasts c k o d'
  unchanged-Lasts d' same = (o, rw same e, inl refl)

  update-Lasts :
      (p : Order → Bool) (f : Order → Order)
      → ((x : Order) → order_key (f x) ≡ order_key x)
      → (order_key o ≡ k → p o ≡ true → Moves c k o (f o))
      → Lasts c k o (update_orders p f d)
  update-Lasts p f same later = elim (Bool-cases (p o)) [
    | inl y ↦ (
      f o,
      get-update_where order_key k p f d.orders same ∙ rw (e, y),
      inr (later (get-key order_key k d.orders e) y),
    )
    | inr n ↦ (o, get-update_where order_key k p f d.orders same ∙ rw (e, n), inl refl)
  ]

named :
    (number k : Text) (o : Order) → order_key o ≡ k → text_eq o.order_no number ≡ true → number ≡ k
named number k o here y = sym (text_eq-eq o.order_no number y) ∙ here

same_row :
    (number k : Text) (d : Db) (x o : Order)
    → number ≡ k
    → find_order number d ≡ some x
    → find_order k d ≡ some o
    → x ≡ o
same_row number k d x o same found e =
    let both : some x ≡ some o = sym found ∙ ap (λ j. find_order j d) same ∙ e in ground arith

is_pending-eq : (s : OrderStatus) → is_pending s ≡ true → s ≡ OrderStatus.pending
is_pending-eq s h = ground arith

is_paid-eq : (s : OrderStatus) → is_paid s ≡ true → s ≡ OrderStatus.paid
is_paid-eq s h = ground arith

-- What the two cancellations write.
cancel_pending_order-db :
    (works : Bool) (number : Text) (d : Db)
    → ((cancel_pending_order works number d).1 ≡ d)
      ⊎ ((cancel_pending_order works number d).1
          ≡ update_orders (is_pending_at number) failed_row d)
unfolding cancel_pending_order
cancel_pending_order-db works number d = ground arith

cancel_stale_pending_orders-db :
    (works : Bool) (older_than : ℤ) (now : Time) (d : Db)
    → ((cancel_stale_pending_orders works older_than now d).1 ≡ d)
      ⊎ ((cancel_stale_pending_orders works older_than now d).1
          ≡ update_orders (is_stale (now -ℤ older_than)) failed_row d)
unfolding cancel_stale_pending_orders
cancel_stale_pending_orders-db works older_than now d = ground arith

pays-Lasts :
    (works : Bool) (number trade : Text) (now : Time) (k : Text) (d : Db) (o : Order)
    → find_order k d ≡ some o
    → Lasts (pays works number trade now) k o (mark_order_paid works number trade now d).1
unfolding mark_order_paid
pays-Lasts false number trade now k d o e =
    unchanged-Lasts (pays false number trade now) k d o e d refl
pays-Lasts true number trade now k d o e = elim (Option-cases (find_order number d)) [
  | inl missing ↦ rw missing (unchanged-Lasts (pays true number trade now) k d o e d refl)
  | inr (x, found) ↦ elim (Bool-cases (is_paid x.status)) [
    | inl y ↦ rw (found, y) (unchanged-Lasts (pays true number trade now) k d o e d refl)
    | inr n ↦
        rw (found, n)
          (update-Lasts (pays true number trade now) k d o e _ _ (λ x. refl)
            (λ here y.
              let number_k = named number k o here y in
              (
                number_k,
                subst (λ (z : Order). is_paid z.status ≡ false)
                    (same_row number k d x o number_k found e) n,
                refl,
              )))
  ]
]

queried-Lasts :
    (works : Bool) (number : Text) (now : Time) (k : Text) (d : Db) (o : Order)
    → find_order k d ≡ some o
    → Lasts (queried works number now) k o (mark_order_queried works number now d).1
unfolding mark_order_queried
queried-Lasts false number now k d o e = unchanged-Lasts (queried false number now) k d o e d refl
queried-Lasts true number now k d o e =
    update-Lasts (queried true number now) k d o e _ _ (λ x. refl)
      (λ here y. (named number k o here y, refl))

cancels-Lasts :
    (works : Bool) (number : Text) (k : Text) (d : Db) (o : Order)
    → find_order k d ≡ some o
    → Lasts (cancels works number) k o (cancel_pending_order works number d).1
cancels-Lasts works number k d o e = elim (cancel_pending_order-db works number d) [
  | inl same ↦
      unchanged-Lasts (cancels works number) k d o e (cancel_pending_order works number d).1
        (rw same)
  | inr changed ↦ rw changed (
      update-Lasts (cancels works number) k d o e (is_pending_at number) failed_row (λ x. refl)
        (λ here y.
          (named number k o here (ground arith), is_pending-eq o.status (ground arith), refl)))
]

cancels_stale-Lasts :
    (works : Bool) (older_than : ℤ) (now : Time) (k : Text) (d : Db) (o : Order)
    → find_order k d ≡ some o
    → Lasts
        (cancels_stale works older_than now)
        k
        o
        (cancel_stale_pending_orders works older_than now d).1
cancels_stale-Lasts works older_than now k d o e =
    elim (cancel_stale_pending_orders-db works older_than now d) [
      | inl same ↦
          unchanged-Lasts (cancels_stale works older_than now) k d o e
            (cancel_stale_pending_orders works older_than now d).1 (rw same)
      | inr changed ↦ rw changed (
          update-Lasts (cancels_stale works older_than now) k d o e (is_stale (now -ℤ older_than))
            failed_row (λ x. refl)
            (λ here y. (is_pending-eq o.status (ground arith), ground arith, refl)))
    ]

roll_back_mac-orders :
    (m : Option Mac) (days : ℕ) (now : Time) (d : Db)
    → (roll_back_mac m days now d).1.orders ≡ d.orders
roll_back_mac-orders none days now d = refl
roll_back_mac-orders (some m) days now d = refl

-- A refund reaches the orders as one UPDATE of a paid row.
mark_order_refunded-orders :
    (works : Bool) (number reason : Text) (now : Time) (d : Db)
    → ((mark_order_refunded works number reason now d).1.orders ≡ d.orders)
      ⊎ ((x : Order) × (find_order number d ≡ some x)
          × (is_paid x.status ≡ true)
          × ((mark_order_refunded works number reason now d).1.orders
              ≡ (update_order number (refunded_row reason) d).orders))
unfolding mark_order_refunded
mark_order_refunded-orders false number reason now d = inl refl
mark_order_refunded-orders true number reason now d = elim (Option-cases (find_order number d)) [
  | inl missing ↦ inl (rw missing)
  | inr (x, found) ↦ elim (Bool-cases (is_paid x.status)) [
    | inr n ↦ inl (rw (found, n))
    | inl y ↦ inr (
      x,
      found,
      y,
      ground (
        arith,
        roll_back_mac-orders (find_mac x.mac d) x.days now
            (update_order number (refunded_row reason) d),
      ),
    )
  ]
]

refunds-Lasts :
    (works : Bool) (number reason : Text) (now : Time) (k : Text) (d : Db) (o : Order)
    → find_order k d ≡ some o
    → Lasts (refunds works number reason now) k o (mark_order_refunded works number reason now d).1
refunds-Lasts works number reason now k d o e =
    elim (mark_order_refunded-orders works number reason now d) [
      | inl same ↦
          unchanged-Lasts (refunds works number reason now) k d o e
            (mark_order_refunded works number reason now d).1 same
      | inr (x, found, paid, changed) ↦ elim (Bool-cases (text_eq number k)) [
        | inl y ↦ (
          refunded_row reason x,
          rw (
            changed,
            get-update_key order_key k number (refunded_row reason) d.orders (λ z. refl) found,
            y,
          ),
          let number_k = text_eq-eq number k y in
              inr (
                subst (λ z. Moves (refunds works number reason now) k z (refunded_row reason x))
                  (same_row number k d x o number_k found e)
                  (number_k, is_paid-eq x.status paid, refl)),
        )
        | inr n ↦ (
          o,
          rw (
            changed,
            get-update_key order_key k number (refunded_row reason) d.orders (λ z. refl) found,
            n,
            e,
          ),
          inl refl,
        )
      ]
    ]

creates_order-Lasts :
    (works : Bool) (x : Order) (now : Time) (k : Text) (d : Db) (o : Order)
    → find_order k d ≡ some o
    → Lasts (creates_order works x now) k o (create_order works x now d).1
unfolding create_order
creates_order-Lasts false x now k d o e = unchanged-Lasts (creates_order false x now) k d o e d refl
creates_order-Lasts true x now k d o e = elim (Option-cases (find_order x.order_no d)) [
  | inl fresh ↦ (
    o,
    rw fresh (rw (get-append order_key k d.orders (order_row (d.order_seq + 1) x now), e)),
    inl refl,
  )
  | inr (y, found) ↦ rw found (unchanged-Lasts (creates_order true x now) k d o e d refl)
]

unwritten-Lasts :
    (c : Call) (k : Text) (d : Db) (o : Order)
    → find_order k d ≡ some o
    → (step c d).orders ≡ d.orders
    → Lasts c k o (step c d)
unwritten-Lasts c k d o e same = unchanged-Lasts c k d o e (step c d) same

-- What the calls on devices, orders, vouchers and sessions make of an order. No call removes it, and it stays as it is
-- but for these moves, each of which changes the named columns alone: a query of it writes when it was
-- asked for, a payment of it, where it is not paid, writes the status, the trade number and the time,
-- a refund of it, where it is paid, the status and the trade number, and the two cancellations,
-- where it is pending (and, for the sweep, old enough), the status.
pub step-Lasts :
    (c : Call) (k : Text) (d : Db) (o : Order) → find_order k d ≡ some o → Lasts c k o (step c d)
unfolding step upsert_mac delete_mac set_mac_status set_mac_label set_mac_notes set_mac_schedule
    replace_mac expire_due_macs create_voucher revoke_voucher revoke_voucher_batch redeem_voucher
    create_session delete_session delete_sessions_by_user_id delete_all_admin_sessions_except
    delete_all_user_sessions delete_user_sessions_except purge_expired_sessions
step-Lasts (upserts works reread mac label days owner now) k d o e =
    unwritten-Lasts (upserts works reread mac label days owner now) k d o e (ground arith)
step-Lasts (deletes works mac) k d o e = unwritten-Lasts (deletes works mac) k d o e (ground arith)
step-Lasts (sets_status works mac status now) k d o e =
    unwritten-Lasts (sets_status works mac status now) k d o e (ground arith)
step-Lasts (sets_label works mac label now) k d o e =
    unwritten-Lasts (sets_label works mac label now) k d o e (ground arith)
step-Lasts (sets_notes works mac notes now) k d o e =
    unwritten-Lasts (sets_notes works mac notes now) k d o e (ground arith)
step-Lasts (sets_schedule works mac schedule now) k d o e =
    unwritten-Lasts (sets_schedule works mac schedule now) k d o e (ground arith)
step-Lasts (replaces works reread user mac to label now) k d o e =
    unwritten-Lasts (replaces works reread user mac to label now) k d o e (ground arith)
step-Lasts (expires selects updates now) k d o e =
    unwritten-Lasts (expires selects updates now) k d o e (ground arith)
step-Lasts (creates_order works x now) k d o e = creates_order-Lasts works x now k d o e
step-Lasts (queried works number now) k d o e = queried-Lasts works number now k d o e
step-Lasts (pays works number trade now) k d o e = pays-Lasts works number trade now k d o e
step-Lasts (refunds works number reason now) k d o e = refunds-Lasts works number reason now k d o e
step-Lasts (cancels works number) k d o e = cancels-Lasts works number k d o e
step-Lasts (cancels_stale works older_than now) k d o e =
    cancels_stale-Lasts works older_than now k d o e
step-Lasts (creates_voucher works code days label batch until now) k d o e =
    unwritten-Lasts (creates_voucher works code days label batch until now) k d o e (ground arith)
step-Lasts (revokes works code) k d o e =
    unwritten-Lasts (revokes works code) k d o e (ground arith)
step-Lasts (revokes_batch works batch) k d o e =
    unwritten-Lasts (revokes_batch works batch) k d o e (ground arith)
step-Lasts (redeems works code mac user now) k d o e =
    unwritten-Lasts (redeems works code mac user now) k d o e (ground arith)
step-Lasts (creates_session works token kind subject user ttl now) k d o e =
    unwritten-Lasts (creates_session works token kind subject user ttl now) k d o e (ground arith)
step-Lasts (ends_session works token) k d o e =
    unwritten-Lasts (ends_session works token) k d o e (ground arith)
step-Lasts (ends_user_sessions works user) k d o e =
    unwritten-Lasts (ends_user_sessions works user) k d o e (ground arith)
step-Lasts (ends_other_admins works token) k d o e =
    unwritten-Lasts (ends_other_admins works token) k d o e (ground arith)
step-Lasts (ends_all_users works) k d o e =
    unwritten-Lasts (ends_all_users works) k d o e (ground arith)
step-Lasts (ends_other_sessions works user token) k d o e =
    unwritten-Lasts (ends_other_sessions works user token) k d o e (ground arith)
step-Lasts (purges_sessions works now) k d o e =
    unwritten-Lasts (purges_sessions works now) k d o e (ground arith)

-- The calls that refund the order `k`.
abbrev pub is_refund_of : Text → Call → Bool
is_refund_of k (refunds _ n _ _) = text_eq n k
is_refund_of k _ = false

eq-text_eq : (a b : Text) → a ≡ b → text_eq a b ≡ true
eq-text_eq a b e = subst (λ z. text_eq a z ≡ true) e (text_eq_refl a)

paid-Moves :
    (c : Call) (k : Text) (o o' : Order)
    → is_refund_of k c ≡ false
    → is_paid o.status ≡ true
    → Moves c k o o'
    → is_paid o'.status ≡ true
paid-Moves c k o o' other paid move = grind (arith, eq-text_eq)

-- A paid order that is not refunded stays paid.
pub run-is_paid :
    (cs : List Call) (k : Text) (d : Db) (o : Order)
    → All (λ c. is_refund_of k c ≡ false) cs
    → find_order k d ≡ some o
    → is_paid o.status ≡ true
    → (o' : Order) × (find_order k (run cs d) ≡ some o') × (is_paid o'.status ≡ true)
unfolding run
run-is_paid [] k d o other e paid = (o, e, paid)
run-is_paid (c ∷ cs) k d o (first, other) e paid =
    let (o1, e1, move) = step-Lasts c k d o e in
    let paid1 : is_paid o1.status ≡ true = elim move [
      | inl same ↦ rw same paid
      | inr moved ↦ paid-Moves c k o o1 first paid moved
    ] in
    run-is_paid cs k (step c d) o1 other e1 paid1
