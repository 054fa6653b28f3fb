-- ===== src/Tests/Payments.antt =====
-- The theorems on the firewall, the service and payments, at the application of `Data`.
use router_billing.Prelude.{
  ◌*◌, ◌⊎◌, map, ◌≡◌, refl, subst, true, false, ◌&&◌, some, List, [], ◌∷◌, ◌++◌, Text, arith,
  if◌then◌else◌, inl, inr, Bool-cases,
}
use router_billing.Prelude.Lists.{keep, any, all, text_eq, text_eq-eq, text_eq_comm}
use router_billing.Prelude.Int.{pos}
use router_billing.Prelude.Table.{find, get, delete_where, update_where}
use router_billing.Models.{Time, Mac, OrderStatus, day_ns}
use router_billing.Db.{ok, err, sql_failed}
use router_billing.Db.Macs.{
  mac_key, is_due, find_mac, is_online, upsert_mac, get_mac, replace_mac, set_mac_status,
  list_active_macs, new_mac,
}
use router_billing.Db.Macs.Upsert.{IsGrant}
use router_billing.Db.Orders.{find_order, paid_row}
use router_billing.Db.Calls.{Call, cancels, run}
use router_billing.Server.{App}
use router_billing.Db.Invariant.{IsValid}
use router_billing.Firewall.{among, valid_mac, valid_from, add, remove, sync}
use router_billing.Service.{
  Router, paid_label, grant_from_order, revoke, replace, resync, expire_due,
}
use router_billing.Service.Synced.{is_allowed, IsSynced, row_is}
use router_billing.Service.Keeps.{grant_from_order-IsSynced, revoke-IsSynced}
use router_billing.Service.Sweep.{resync-member, IsStuck, expire_due_lem, replace-IsSynced}
use router_billing.Server.Payments.{Faults, finalize_order, pay_event}
use router_billing.Server.Payments.Once.{finalize_order_twice}
use router_billing.Server.Payments.Grants.{finalize_order_lem, finalize_order-lost}
use router_billing.Tests.Data.{
  phone, laptop, month, number, trade, early, late, order_with, tables, tables-IsValid, memory,
  memory-IsNft, router, app,
}

abbrev fine : Faults
fine = record { pays = true; grants = true; rereads = true; audits = true }

abbrev locked : Faults
locked = record { pays = true; grants = false; rereads = true; audits = true }

find-number :
    find_order number (app OrderStatus.pending).router.db ≡ some (order_with OrderStatus.pending)
unfolding get find text_eq
find-number = refl

-- What happens between the two reports.
abbrev between : List Call
between = cancels true number ∷ []

abbrev asked_again : App (List Text) → App (List Text)
asked_again a = record a { router = record (a.router) { db = run between a.router.db } }

finalize_order_twice_example :
    let a' = (finalize_order memory fine number trade early (app OrderStatus.pending)).1 in
    finalize_order memory fine number [] late (asked_again a') ≡ (ok tt, asked_again a')
finalize_order_twice_example =
    finalize_order_twice memory fine fine number trade [] early late (app OrderStatus.pending)
      (asked_again (finalize_order memory fine number trade early (app OrderStatus.pending)).1)
      (order_with OrderStatus.pending) between find-number refl refl (refl, tt) refl

finalize_order-lost_example :
    let (r, a') = finalize_order memory locked number trade early (app OrderStatus.pending) in
    (r ≡ err sql_failed)
    × (find_order number a'.router.db
        ≡ some (paid_row trade early (order_with OrderStatus.pending)))
    × (a'.router.set ≡ phone ∷ [])
    × ((k : Text) → find_mac k a'.router.db ≡ find_mac k (tables OrderStatus.pending))
    × (finalize_order memory fine number [] late (asked_again a') ≡ (ok tt, asked_again a'))
finalize_order-lost_example =
    finalize_order-lost memory locked fine number trade [] early late (app OrderStatus.pending)
      (asked_again (finalize_order memory locked number trade early (app OrderStatus.pending)).1)
      (order_with OrderStatus.pending) between find-number refl refl refl refl (refl, tt) refl

phone_added : (s : List Text) → (add memory phone s).0 ≡ ok tt
unfolding add valid_mac valid_from
phone_added s = refl

finalize_order_lem_example :
    let (r, a') = finalize_order memory fine number trade early (app OrderStatus.pending) in
    (r ≡ ok tt)
    × ((m : Mac) × IsGrant
          (find_mac phone (tables OrderStatus.pending))
          phone
          (paid_label month)
          30
          (some 7)
          early
          m
        × ((k : Text)
            → find_mac k a'.router.db
              ≡ (if text_eq phone k then some m else find_mac k (tables OrderStatus.pending))))
    × ((k : Text)
        → find_order k a'.router.db ≡ (
            if text_eq number k
            then some (paid_row trade early (order_with OrderStatus.pending))
            else find_order k (tables OrderStatus.pending)))
    × (a'.router.set ≡ (add memory phone (phone ∷ [])).1)
    × (a'.events ≡ [] ++ pay_event (paid_row trade early (order_with OrderStatus.pending)) ∷ [])
finalize_order_lem_example =
    finalize_order_lem memory fine number trade early (app OrderStatus.pending)
      (order_with OrderStatus.pending) find-number refl refl refl refl (phone_added (phone ∷ []))

phone_removed : (remove memory phone (phone ∷ [])).0 ≡ ok tt
unfolding remove valid_mac valid_from any all text_eq
phone_removed = refl

phone_valid : valid_mac phone ≡ true
unfolding valid_mac valid_from
phone_valid = refl

-- The firewall of `Data` lets exactly the phone through.
pub router-IsSynced : IsSynced memory (router OrderStatus.pending)
unfolding any get find
router-IsSynced = record {
  valid = tables-IsValid OrderStatus.pending;
  same = λ k. elim (Bool-cases (text_eq phone k)) [
    | inl y ↦
        let good : valid_mac k ≡ true =
          subst (λ j. valid_mac j ≡ true) (text_eq-eq phone k y) phone_valid in
        ground (arith, text_eq_comm k phone)
    | inr n ↦ ground (arith, text_eq_comm k phone)
  ];
}

granted :
    (grant_from_order memory true true
      (order_with OrderStatus.pending)
      early
      (router OrderStatus.pending)).0
    ≡ ok tt
unfolding grant_from_order upsert_mac get_mac find get update_where text_eq add valid_mac valid_from
granted = refl

grant_from_order-IsSynced_example :
    IsSynced memory
      (grant_from_order memory true true
        (order_with OrderStatus.pending)
        early
        (router OrderStatus.pending)).1
grant_from_order-IsSynced_example =
    grant_from_order-IsSynced memory memory-IsNft true true (order_with OrderStatus.pending) early
      (router OrderStatus.pending) router-IsSynced granted

revoked : (revoke memory true phone early (router OrderStatus.pending)).0 ≡ ok tt
unfolding revoke set_mac_status remove valid_mac valid_from any all text_eq
revoked = refl

revoke-IsSynced_example :
    IsSynced memory (revoke memory true phone early (router OrderStatus.pending)).1
revoke-IsSynced_example =
    revoke-IsSynced memory memory-IsNft true phone early (router OrderStatus.pending)
      router-IsSynced revoked

abbrev moved_row : Mac
moved_row = new_mac 2 laptop [] (pos (20 * day_ns)) (some 7) early

replaced :
    (replace memory true true 7 phone laptop [] early (router OrderStatus.pending)).0
    ≡ ok (some moved_row)
unfolding replace replace_mac get_mac find get delete_where text_eq add valid_mac valid_from
replaced = refl

replace-IsSynced_example :
    IsSynced memory
      (replace memory true true 7 phone laptop [] early (router OrderStatus.pending)).1
replace-IsSynced_example =
    replace-IsSynced memory memory-IsNft true true 7 phone laptop [] early
      (router OrderStatus.pending) (some moved_row) router-IsSynced phone_removed replaced

abbrev next_month : Time
next_month = pos (30 * day_ns)

expire_due_lem_example :
    let (o, r') = expire_due memory true true next_month (router OrderStatus.pending) in
    (o ≡ ok (map mac_key (keep (is_due next_month) (tables OrderStatus.pending).macs)))
    × IsValid r'.db
    × ((k : Text)
        → ((among k r'.set ≡ (
              valid_mac k
              && row_is (is_online next_month) (find_mac k (tables OrderStatus.pending))))
            × (among k r'.set ≡ (valid_mac k && is_allowed k r'.db)))
          ⊎ (IsStuck memory memory-IsNft k × (among k r'.set ≡ among k (phone ∷ []))))
expire_due_lem_example =
    expire_due_lem memory memory-IsNft next_month (router OrderStatus.pending) router-IsSynced

abbrev restarted : Router (List Text)
restarted = record { db = tables OrderStatus.pending; set = laptop ∷ [] }

resynced : (resync memory true early restarted).0 ≡ ok tt
unfolding resync list_active_macs sync keep valid_mac valid_from
resynced = refl

resync-member_example :
    among phone (resync memory true early restarted).1.set
    ≡ (valid_mac phone && row_is (is_online early) (find_mac phone (tables OrderStatus.pending)))
resync-member_example =
    resync-member memory memory-IsNft true early restarted phone
      (tables-IsValid OrderStatus.pending) resynced
