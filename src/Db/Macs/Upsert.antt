-- ===== src/Db/Macs/Upsert.antt =====
-- `UpsertMAC`: what a grant of days does to the device's row, and to no other.
use router_billing.Prelude.{
  ℕ, ◌+◌, ◌≡◌, refl, Bool, true, Option, none, some, [], ◌∷◌, Text, text_eq, text_eq_refl, arith,
  is_empty, inl, inr, if◌then◌else◌, Option-cases,
}
use router_billing.Prelude.Int.{ltb_ℤ}
use router_billing.Prelude.Table.{get-key}
use router_billing.Prelude.Keyed.{get-insert, get-update_key}
use router_billing.Models.{Time, Mac, MacStatus, add_days, is_active}
use router_billing.Db.{Db, ok}
use router_billing.Db.Macs.{
  mac_key, find_mac, new_mac, renewed, extended, upsert_row, upsert_mac, get_mac,
}

-- Until when the device is paid for: its expiry while it is active, else the present.
abbrev pub paid_until : Option Mac → Time → Time
paid_until none now = now
paid_until (some m) now = if is_active m.status then m.expires_at else now

abbrev pub latest : Time → Time → Time
latest t u = if ltb_ℤ t u then u else t

abbrev pub owner_of : Option Mac → Option ℕ
owner_of none = none
owner_of (some m) = m.user_id

abbrev pub label_of : Option Mac → Text
label_of none = []
label_of (some m) = m.label

-- The row that a grant leaves.
abbrev pub granted : Option Mac → ℕ → Text → Text → ℕ → Option ℕ → Time → Mac
granted none id mac label days owner now = new_mac id mac label (extended none days now) owner now
granted (some m) id mac label days owner now =
    renewed label (extended (some m) days now) owner now m

-- The days count from the end of the paid time, or from the present where that is over.
pub extended-latest :
    (o : Option Mac) (days : ℕ) (now : Time)
    → extended o days now ≡ add_days (latest now (paid_until o now)) days
unfolding extended
extended-latest none days now = ground arith
extended-latest (some m) days now = ground arith

-- The row of the device after the statement, and the rows of the others.
pub find-upsert_row :
    (k mac label : Text) (days : ℕ) (owner : Option ℕ) (now : Time) (d : Db)
    → find_mac k (upsert_row (find_mac mac d) mac label days owner now d) ≡ (
        if text_eq mac k
        then some (granted (find_mac mac d) (d.mac_seq + 1) mac label days owner now)
        else find_mac k d)
find-upsert_row k mac label days owner now d = elim (Option-cases (find_mac mac d)) [
  | inl e ↦ rw e (get-insert mac_key k d.macs _ e)
  | inr (m, e) ↦ rw e (get-update_key mac_key k mac _ d.macs (λ y. refl) e)
]

-- What the row of a device is after a grant, told without the statements that write it.
pub record IsGrant (old : Option Mac) (mac label : Text) (days : ℕ) (owner : Option ℕ) (now : Time)
    (m : Mac) : Type 0 where
  pub same_device : m.mac ≡ mac
  pub online : m.status ≡ MacStatus.active
  pub expiry : m.expires_at ≡ add_days (latest now (paid_until old now)) days
  pub owned : m.user_id ≡ elim owner [ none ↦ owner_of old | some u ↦ some u ]
  pub labelled : m.label ≡ (if is_empty label then label_of old else label)

or_empty : (s : Text) → s ≡ (if is_empty s then [] else s)
or_empty [] = refl
or_empty (c ∷ s) = refl

granted-IsGrant :
    (old : Option Mac) (id : ℕ) (mac label : Text) (days : ℕ) (owner : Option ℕ) (now : Time)
    → ((m : Mac) → old ≡ some m → m.mac ≡ mac)
    → IsGrant old mac label days owner now (granted old id mac label days owner now)
granted-IsGrant none id mac label days none now same = record {
  same_device = refl;
  online = refl;
  expiry = extended-latest none days now;
  owned = refl;
  labelled = or_empty label;
}
granted-IsGrant none id mac label days (some u) now same = record {
  same_device = refl;
  online = refl;
  expiry = extended-latest none days now;
  owned = refl;
  labelled = or_empty label;
}
granted-IsGrant (some m) id mac label days none now same = record {
  same_device = same m refl;
  online = refl;
  expiry = extended-latest (some m) days now;
  owned = refl;
  labelled = refl;
}
granted-IsGrant (some m) id mac label days (some u) now same = record {
  same_device = same m refl;
  online = refl;
  expiry = extended-latest (some m) days now;
  owned = refl;
  labelled = refl;
}

-- A grant that the database carries out returns the device's new row: active, the days added to
-- what was paid for, the owner changed only where one is given. Other devices keep their rows.
pub upsert_mac-IsGrant :
    (mac label : Text) (days : ℕ) (owner : Option ℕ) (now : Time) (d : Db)
    → let (r, d') = upsert_mac true true mac label days owner now d in
      (m : Mac) × (r ≡ ok (some m))
      × IsGrant (find_mac mac d) mac label days owner now m
      × ((k : Text) → find_mac k d' ≡ (if text_eq mac k then some m else find_mac k d))
unfolding upsert_mac
upsert_mac-IsGrant mac label days owner now d = (
  granted (find_mac mac d) (d.mac_seq + 1) mac label days owner now,
  rw (find-upsert_row mac mac label days owner now d, text_eq_refl mac),
  granted-IsGrant (find_mac mac d) (d.mac_seq + 1) mac label days owner now
      (λ m e. get-key mac_key mac d.macs e),
  λ k. find-upsert_row k mac label days owner now d,
)

-- A grant does not write the table of orders.
pub upsert_mac-orders :
    (works reread : Bool) (mac label : Text) (days : ℕ) (owner : Option ℕ) (now : Time) (d : Db)
    → (upsert_mac works reread mac label days owner now d).1.orders ≡ d.orders
unfolding upsert_mac get_mac
upsert_mac-orders works reread mac label days owner now d = ground arith
