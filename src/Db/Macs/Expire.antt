-- ===== src/Db/Macs/Expire.antt =====
-- `ExpireDueMACs`: which devices the sweep marks, and what `ListActiveMACs` reads then.
use mathlib.Core.Option
use router_billing.Prelude.{
  ◌≡◌, refl, true, false, List, [], ◌∷◌, map, Text, arith, inl, inr, if◌then◌else◌, All,
}
use router_billing.Prelude.Lists.{keep, List-cases}
use router_billing.Prelude.Table.{update_where, get-update_where}
use router_billing.Models.{Time, Mac, is_active}
use router_billing.Db.{Db, ok}
use router_billing.Db.Macs.{
  mac_key, find_mac, update_macs, is_due, expire_row, expire_due_macs, is_online, list_active_macs,
}

-- A sweep leaves no row due, and the rows that are online are those that were.
none_due :
    (now : Time) (ms : List Mac)
    → All (λ m. is_due now m ≡ false) (update_where (is_due now) (expire_row now) ms)
unfolding update_where
none_due now [] = tt
none_due now (m ∷ ms) = (ground arith, none_due now ms)

keep_online :
    (now : Time) (ms : List Mac)
    → keep (is_online now) (update_where (is_due now) (expire_row now) ms) ≡ keep (is_online now) ms
unfolding keep update_where
keep_online now [] = refl
keep_online now (m ∷ ms) = ground (arith, keep_online now ms)

-- With the sweep, the rows that are online are all the active ones.
keep_active :
    (now : Time) (ms : List Mac)
    → All (λ m. is_due now m ≡ false) ms
    → keep (λ m. is_active m.status) ms ≡ keep (is_online now) ms
unfolding keep
keep_active now [] h = refl
keep_active now (m ∷ ms) h = ground (arith, keep_active now ms h.1)

-- No row is due where none is listed.
update-none_due :
    (now : Time) (ms : List Mac)
    → map mac_key (keep (is_due now) ms) ≡ []
    → update_where (is_due now) (expire_row now) ms ≡ ms
unfolding keep update_where
update-none_due now [] h = refl
update-none_due now (m ∷ ms) h = ground (arith, update-none_due now ms)

-- The sweep in one equation: with nothing due, the missing UPDATE makes no difference.
pub expire_due_macs-lem :
    (now : Time) (d : Db)
    → expire_due_macs true true now d
      ≡ (ok (map mac_key (keep (is_due now) d.macs)), update_macs (is_due now) (expire_row now) d)
unfolding expire_due_macs
expire_due_macs-lem now d = elim (List-cases (map mac_key (keep (is_due now) d.macs))) [
  | inl nothing ↦ ground (arith, update-none_due now d.macs nothing)
  | inr (x, xs, due) ↦ ground arith
]

-- After a sweep no device is due, the answer lists the devices that were, and every other row is as
-- before. The devices online at that time stay the same, and are then all the active ones.
pub expire_due_macs_lem :
    (now : Time) (d : Db)
    → let (r, d') = expire_due_macs true true now d in
      (r ≡ ok (map mac_key (keep (is_due now) d.macs)))
      × All (λ m. is_due now m ≡ false) d'.macs
      × ((k : Text)
          → find_mac k d'
            ≡ Option.map (λ m. if is_due now m then expire_row now m else m) (find_mac k d))
      × ((list_active_macs true now d').0 ≡ (list_active_macs true now d).0)
      × ((list_active_macs true now d').0 ≡ ok (keep (λ m. is_active m.status) d'.macs))
unfolding list_active_macs
expire_due_macs_lem now d = rw (expire_due_macs-lem now d) (
  refl,
  none_due now d.macs,
  λ k. get-update_where mac_key k (is_due now) (expire_row now) d.macs (λ x. refl),
  rw (keep_online now d.macs),
  rw (keep_active now (update_where (is_due now) (expire_row now) d.macs) (none_due now d.macs)),
)
