-- ===== src/Service.antt =====
-- internal/service/mac.go: `MACService`, which changes the database and the firewall together.
pub mod Synced
pub mod Keeps
pub mod Sweep
pub mod Schedules
use router_billing.Prelude.{
  ℕ, ◌≡◌, Bool, true, false, Option, none, some, List, [], ◌∷◌, ◌++◌, map, Text, if◌then◌else◌,
}
use router_billing.Models.{Time, Mac, MacStatus, Order}
use router_billing.Db.{Db, Query, Result, ok, err, Error, nil_pointer}
use router_billing.Db.Macs.{
  mac_key, upsert_mac, set_mac_status, delete_mac, replace_mac, list_active_macs, expire_due_macs,
}
use router_billing.Firewall.{Nft, add, remove, sync}

-- The database, and the state behind the firewall.
pub record Router (S : Type 0) : Type 0 where
  pub db : Db
  pub set : S

-- "paid-" ++ plan
unfoldable pub paid_label : Text → Text
paid_label plan = b'p' ∷ b'a' ∷ b'i' ∷ b'd' ∷ b'-' ∷ plan

abbrev pub Action : Type 0 → Type 0 → Type 0
Action S A = Router S → Result A × Router S

module _ {S : Type 0} where
  infixl 5 ◌>>=◌ ◌>>◌
  abbrev pub ◌>>=◌ : {A B : Type 0} → Action S A → (A → Action S B) → Action S B
  ◌>>=◌ m f r = let (a, r') = m r in elim a [ ok x ↦ f x r' | err e ↦ (err e, r') ]

  abbrev pub ◌>>◌ : {A B : Type 0} → Action S A → Action S B → Action S B
  m >> k = m >>= λ _. k

  abbrev pub return : {A : Type 0} → A → Action S A
  return a r = (ok a, r)

  -- A call of the database, and one of the firewall.
  abbrev pub db : {A : Type 0} → Query A → Action S A
  db q r = let (a, d) = q r.db in (a, record r { db = d })

  abbrev pub fw : (S → Result (Unit {0}) × S) → Action S (Unit {0})
  fw f r = let (a, s) = f r.set in (a, record r { set = s })

  -- An error that is logged and dropped.
  abbrev pub ignoring : Action S (Unit {0}) → Action S (Unit {0})
  ignoring m r = (ok tt, (m r).1)

  -- Go's access to a field of a pointer that may be nil.
  abbrev pub deref : Option Mac → Action S Mac
  deref none r = (err nil_pointer, r)
  deref (some m) r = (ok m, r)

module _ (n : Nft) where
  -- `Extend`
  unfoldable pub extend : Bool → Bool → Text → Text → ℕ → Option ℕ → Time → Action n.State Mac
  extend works reread mac label days user now = do
    m ← deref (← db (upsert_mac works reread mac label days user now))
    fw (add n m.mac)
    return m

  -- `GrantFromOrder`
  unfoldable pub grant_from_order : Bool → Bool → Order → Time → Action n.State (Unit {0})
  grant_from_order works reread o now = do
    m ← deref (← db (upsert_mac works reread o.mac (paid_label o.plan) o.days o.user_id now))
    fw (add n m.mac)

  -- `Revoke`
  unfoldable pub revoke : Bool → Text → Time → Action n.State (Unit {0})
  revoke works mac now = do db (set_mac_status works mac MacStatus.blocked now); fw (remove n mac)

  -- `Delete`
  unfoldable pub delete : Bool → Text → Action n.State (Unit {0})
  delete works mac = do db (delete_mac works mac); fw (remove n mac)

  -- `Replace`
  unfoldable pub replace : Bool → Bool → ℕ → Text → Text → Text → Time → Action n.State (Option Mac)
  replace works reread user old_mac to label now = do
    m ← db (replace_mac works reread user old_mac to label now)
    ignoring (fw (remove n old_mac))
    fw (add n to)
    return m

  -- `Resync`
  unfoldable pub resync : Bool → Time → Action n.State (Unit {0})
  resync works now = do macs ← db (list_active_macs works now); fw (sync n (map mac_key macs))

  -- The loop of `ExpireDue`; a failed removal is logged, and the loop goes on.
  unfoldable pub remove_all : List Text → Action n.State (Unit {0})
  remove_all [] r = (ok tt, r)
  remove_all (m ∷ ms) r = remove_all ms (fw (remove n m) r).1

  -- `ExpireDue`: the MACs that it expired, of which the code returns the number.
  unfoldable pub expire_due : Bool → Bool → Time → Action n.State (List Text)
  expire_due selects updates now = do
    macs ← db (expire_due_macs selects updates now)
    remove_all macs
    return macs
