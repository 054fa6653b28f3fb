-- ===== src/Service/Synced.antt =====
-- What `MACService` keeps true: the firewall's set is the table of devices, read for the active ones.
use router_billing.Prelude.{
  ℕ, ◌≡◌, ◌⊎◌, subst, refl, Bool, true, false, ◌&&◌, ◌||◌, not, Option, none, some, List, [], ◌∷◌,
  map, Text, text_eq, text_eq-eq, text_eq_comm, arith, inl, inr, Bool-cases, Option-cases,
}
use router_billing.Prelude.Lists.{keep, any}
use router_billing.Prelude.Table.{get, IsUnique, get-key, has_key, find, get-update_where}
use router_billing.Prelude.Keyed.{get-delete_key}
use router_billing.Models.{Time, Mac, MacStatus, is_active}
use router_billing.Db.{Db, ok}
use router_billing.Db.Macs.{
  mac_key, find_mac, upsert_mac, get_mac, delete_mac, set_mac_status, replace_mac, is_due,
  is_online, expire_row, expire_due_macs,
}
use router_billing.Db.Macs.Upsert.{upsert_mac-IsGrant}
use router_billing.Db.Macs.Expire.{expire_due_macs-lem}
use router_billing.Db.Macs.Replace.{refusal, replace_mac-IsMoved, replace_mac-refused}
use router_billing.Db.Invariant.{IsValid}
use router_billing.Firewall.{Nft, among, valid_mac}
use router_billing.Service.{Router}

-- A row that passes the test.
abbrev pub row_is : (Mac → Bool) → Option Mac → Bool
row_is p none = false
row_is p (some m) = p m

abbrev pub is_allowed : Text → Db → Bool
is_allowed k d = row_is (λ m. is_active m.status) (find_mac k d)

-- The devices that the kernel lets through are those with an active row and a well-formed address.
pub record IsSynced (n : Nft) (r : Router n.State) : Type 0 where
  pub valid : IsValid r.db
  pub same : (k : Text) → n.member k r.set ≡ (valid_mac k && is_allowed k r.db)

-- What each call of the database does to the devices that are allowed.
upsert_mac-fails :
    (works reread : Bool) (mac label : Text) (days : ℕ) (owner : Option ℕ) (now : Time) (d : Db)
    (o : Option Mac)
    → (works ≡ false) ⊎ (reread ≡ false)
    → (upsert_mac works reread mac label days owner now d).0 ≡ ok o
    → ⊥
unfolding upsert_mac get_mac
upsert_mac-fails works reread mac label days owner now d o bad h = ground arith

pub upsert_mac-allowed :
    (works reread : Bool) (mac label : Text) (days : ℕ) (owner : Option ℕ) (now : Time) (d : Db)
    (o : Option Mac)
    → (upsert_mac works reread mac label days owner now d).0 ≡ ok o
    → (m : Mac) × (o ≡ some m)
      × (m.mac ≡ mac)
      × ((k : Text)
          → is_allowed k (upsert_mac works reread mac label days owner now d).1
            ≡ (text_eq mac k || is_allowed k d))
upsert_mac-allowed false reread mac label days owner now d o h =
    absurd (upsert_mac-fails false reread mac label days owner now d o (inl refl) h)
upsert_mac-allowed true false mac label days owner now d o h =
    absurd (upsert_mac-fails true false mac label days owner now d o (inr refl) h)
upsert_mac-allowed true true mac label days owner now d o h =
    let (m, done, grant, rows) = upsert_mac-IsGrant mac label days owner now d in
    (m, ground arith, grant.same_device, λ k. rw (rows k) (ground (arith, grant.online)))

pub block-allowed :
    (works : Bool) (mac : Text) (now : Time) (d : Db)
    → (set_mac_status works mac MacStatus.blocked now d).0 ≡ ok tt
    → (k : Text)
    → is_allowed k (set_mac_status works mac MacStatus.blocked now d).1
      ≡ (not (text_eq mac k) && is_allowed k d)
unfolding set_mac_status
block-allowed false mac now d h k = absurd (ground arith)
block-allowed true mac now d h k =
    rw
      (get-update_where mac_key k (has_key mac_key mac)
        (λ m. record m { status = MacStatus.blocked; updated_at = now }) d.macs (λ x. refl))
      (elim (Option-cases (find_mac k d)) [
        | inl missing ↦ rw missing (ground arith)
        | inr (m, found) ↦
            rw (found, get-key mac_key k d.macs found, text_eq_comm k mac) (ground arith)
      ])

pub delete_mac-allowed :
    (works : Bool) (mac : Text) (d : Db)
    → IsValid d
    → (delete_mac works mac d).0 ≡ ok tt
    → (k : Text) → is_allowed k (delete_mac works mac d).1 ≡ (not (text_eq mac k) && is_allowed k d)
unfolding delete_mac
delete_mac-allowed false mac d v h k = absurd (ground arith)
delete_mac-allowed true mac d v h k =
    rw (get-delete_key mac_key k mac d.macs v.macs_unique) (ground arith)

pub expire_due_macs-allowed :
    (now : Time) (d : Db) (k : Text)
    → is_allowed k (expire_due_macs true true now d).1 ≡ row_is (is_online now) (find_mac k d)
expire_due_macs-allowed now d k =
    rw
      (
        expire_due_macs-lem now d,
        get-update_where mac_key k (is_due now) (expire_row now) d.macs (λ x. refl),
      )
      (elim (Option-cases (find_mac k d)) [
        | inl missing ↦ rw missing
        | inr (m, found) ↦ rw found (ground arith)
      ])

-- The keys of the rows that pass a test.
pub among-rows :
    (p : Mac → Bool) (ms : List Mac) (k : Text)
    → IsUnique mac_key ms
    → among k (map mac_key (keep p ms)) ≡ row_is p (get mac_key k ms)
unfolding any keep get find
among-rows p [] k u = refl
among-rows p (m ∷ ms) k (fresh, u) = elim (Bool-cases (text_eq (mac_key m) k)) [
  | inl y ↦
      let absent : get mac_key k ms ≡ none =
        subst (λ j. get mac_key j ms ≡ none) (text_eq-eq (mac_key m) k y) fresh in
      ground (arith, among-rows p ms k u, text_eq_comm k (mac_key m))
  | inr other ↦ ground (arith, among-rows p ms k u, text_eq_comm k (mac_key m))
]

replace_mac-fails :
    (works reread : Bool) (user : ℕ) (old_mac to label : Text) (now : Time) (d : Db)
    (o : Option Mac)
    → (works ≡ false) ⊎ (reread ≡ false)
    → (replace_mac works reread user old_mac to label now d).0 ≡ ok o
    → ⊥
unfolding replace_mac get_mac
replace_mac-fails works reread user old_mac to label now d o bad h = ground arith

refusal-found :
    (old at_new : Option Mac) (user : ℕ) (old_mac to : Text) (now : Time)
    → refusal old at_new user old_mac to now ≡ none
    → (m : Mac) × (old ≡ some m) × (refusal (some m) at_new user old_mac to now ≡ none)
unfolding refusal
refusal-found none at_new user old_mac to now h = absurd (ground arith)
refusal-found (some m) at_new user old_mac to now h = (m, refl, h)

pub replace_mac-allowed :
    (works reread : Bool) (user : ℕ) (old_mac to label : Text) (now : Time) (d : Db)
    (o : Option Mac)
    → IsValid d
    → (replace_mac works reread user old_mac to label now d).0 ≡ ok o
    → (k : Text)
    → is_allowed k (replace_mac works reread user old_mac to label now d).1
      ≡ (text_eq to k || (not (text_eq old_mac k) && is_allowed k d))
replace_mac-allowed false reread user old_mac to label now d o v h k =
    absurd (replace_mac-fails false reread user old_mac to label now d o (inl refl) h)
replace_mac-allowed true false user old_mac to label now d o v h k =
    absurd (replace_mac-fails true false user old_mac to label now d o (inr refl) h)
replace_mac-allowed true true user old_mac to label now d o v h k =
    elim (Option-cases (refusal (find_mac old_mac d) (find_mac to d) user old_mac to now)) [
      | inr (e, stop) ↦
          absurd (ground (arith, replace_mac-refused user old_mac to label now d e stop))
      | inl go ↦
          let (old, found, allowed) =
            refusal-found (find_mac old_mac d) (find_mac to d) user old_mac to now go in
          let (m, done, fields, rows) =
            replace_mac-IsMoved user old_mac to label now d old v found allowed in
          rw (rows k) (ground (arith, fields.online))
    ]
