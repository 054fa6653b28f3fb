-- ===== src/Db/Macs/Replace.antt =====
-- `ReplaceMAC`: a subscription moves to another device.
use router_billing.Prelude.{
  ℕ, ◌+◌, ◌≡◌, refl, ◌∙◌, true, not, ◌||◌, Option, none, some, Text, text_eq, text_eq_refl, arith,
  if◌then◌else◌, is_empty,
}
use router_billing.Prelude.Table.{delete_where, delete_where-absent, has_key}
use router_billing.Prelude.Keyed.{get-insert, get-delete_key}
use router_billing.Models.{Time, Mac, MacStatus, is_active, before}
use router_billing.Db.{Db, ok, err, Error, mac_not_owned, mac_over, mac_taken}
use router_billing.Db.Macs.{
  mac_key, find_mac, new_mac, insert_mac, or_old, owned_by, replace_mac, get_mac,
}
use router_billing.Db.Invariant.{IsValid}

-- Why the code refuses to move the row `old` to the address `to`, in the order of the checks.
unfoldable pub refusal : Option Mac → Option Mac → ℕ → Text → Text → Time → Option Error
refusal none at_new user old_mac to now = some (mac_not_owned old_mac)
refusal (some old) at_new user old_mac to now =
    if not (owned_by user old.user_id)
    then some (mac_not_owned old_mac)
    else if not (is_active old.status) || before old.expires_at now
    then some (mac_over old_mac)
    else elim at_new [ none ↦ none | some _ ↦ some (mac_taken to) ]

-- The row that the new device gets.
pub record IsMoved (old : Mac) (user : ℕ) (to label : Text) (m : Mac) : Type 0 where
  pub device : m.mac ≡ to
  pub online : m.status ≡ MacStatus.active
  pub same_expiry : m.expires_at ≡ old.expires_at
  pub owner : m.user_id ≡ some user
  pub labelled : m.label ≡ (if is_empty label then old.label else label)

-- The tables after a move that goes through.
abbrev moved : ℕ → Text → Text → Text → Time → Mac → Db → Db
moved user old_mac to label now old d =
    insert_mac to (or_old label old.label) old.expires_at (some user) now
      (record d { macs = delete_where (has_key mac_key old_mac) d.macs })

allowed-free :
    (old : Mac) (at_new : Option Mac) (user : ℕ) (old_mac to : Text) (now : Time)
    → refusal (some old) at_new user old_mac to now ≡ none
    → at_new ≡ none
unfolding refusal
allowed-free old at_new user old_mac to now go = ground arith

replace_mac-moved :
    (user : ℕ) (old_mac to label : Text) (now : Time) (d : Db) (old : Mac)
    → find_mac old_mac d ≡ some old
    → refusal (some old) (find_mac to d) user old_mac to now ≡ none
    → replace_mac true true user old_mac to label now d ≡ (
      ok (find_mac to (moved user old_mac to label now old d)),
      moved user old_mac to label now old d,
    )
unfolding replace_mac refusal get_mac
replace_mac-moved user old_mac to label now d old e go = ground arith

find-moved :
    (user : ℕ) (old_mac to label : Text) (now : Time) (d : Db) (old : Mac)
    → IsValid d
    → find_mac to d ≡ none
    → (k : Text)
    → find_mac k (moved user old_mac to label now old d) ≡ (
        if text_eq to k
        then some
            (new_mac (d.mac_seq + 1) to (or_old label old.label) old.expires_at (some user) now)
        else if text_eq old_mac k
        then none
        else find_mac k d)
find-moved user old_mac to label now d old v free k =
    get-insert mac_key k (delete_where (has_key mac_key old_mac) d.macs)
      (new_mac (d.mac_seq + 1) to (or_old label old.label) old.expires_at (some user) now)
      (delete_where-absent mac_key to (has_key mac_key old_mac) d.macs free)
    ∙ rw (get-delete_key mac_key k old_mac d.macs v.macs_unique)

-- A move that nothing speaks against: the new device has the old one's expiry and the user as its owner,
-- the old device is gone, and no other row changes.
pub replace_mac-IsMoved :
    (user : ℕ) (old_mac to label : Text) (now : Time) (d : Db) (old : Mac)
    → IsValid d
    → find_mac old_mac d ≡ some old
    → refusal (some old) (find_mac to d) user old_mac to now ≡ none
    → let (r, d') = replace_mac true true user old_mac to label now d in
      (m : Mac) × (r ≡ ok (some m))
      × IsMoved old user to label m
      × ((k : Text)
          → find_mac k d'
            ≡ (if text_eq to k then some m else if text_eq old_mac k then none else find_mac k d))
replace_mac-IsMoved user old_mac to label now d old v e go =
    let rows =
      find-moved user old_mac to label now d old v
        (allowed-free old (find_mac to d) user old_mac to now go) in
    rw (replace_mac-moved user old_mac to label now d old e go) (
      new_mac (d.mac_seq + 1) to (or_old label old.label) old.expires_at (some user) now,
      rw (rows to, text_eq_refl to),
      record { device = refl; online = refl; same_expiry = refl; owner = refl; labelled = refl },
      rows,
    )

-- A move that the checks refuse answers with the first failing check and changes nothing.
pub replace_mac-refused :
    (user : ℕ) (old_mac to label : Text) (now : Time) (d : Db) (e : Error)
    → refusal (find_mac old_mac d) (find_mac to d) user old_mac to now ≡ some e
    → replace_mac true true user old_mac to label now d ≡ (err e, d)
unfolding replace_mac refusal get_mac
replace_mac-refused user old_mac to label now d e stop = ground arith
