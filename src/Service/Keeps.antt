-- ===== src/Service/Keeps.antt =====
-- The calls of `MACService` keep the firewall's set and the table of devices together.
use router_billing.Prelude.{
  ℕ, ◌≡◌, refl, sym, subst, Bool, true, ◌&&◌, ◌||◌, not, Option, some, Text, text_eq, text_eq-eq,
  arith, inl, inr, Bool-cases,
}
use router_billing.Models.{Time, Mac, MacStatus, Order}
use router_billing.Db.{Db, Result, ok, err, Result-cases}
use router_billing.Db.Macs.{upsert_mac, delete_mac, set_mac_status}
use router_billing.Db.Invariant.{IsValid}
use router_billing.Db.Invariant.Steps.{upsert_mac-IsValid}
use router_billing.Db.Invariant.Runs.{step-IsValid}
use router_billing.Db.Calls.{deletes, sets_status, step}
use router_billing.Firewall.{Nft, IsNft, valid_mac, add, remove}
use router_billing.Firewall.Members.{add-member, remove-member}
use router_billing.Service.{
  Router, Action, paid_label, ◌>>=◌, db, fw, deref, return, extend, grant_from_order, revoke,
  delete,
}
use router_billing.Service.Synced.{
  IsSynced, is_allowed, upsert_mac-allowed, block-allowed, delete_mac-allowed,
}

bind-run :
    {S A B : Type 0} (f : A → Action S B) (x : Result A) (r : Router S) (b : B)
    → (elim x as (λ _. Result B × Router S) [ ok a ↦ f a r | err e ↦ (err e, r) ]).0 ≡ ok b
    → (a : A) × (x ≡ ok a)
      × ((f a r).0 ≡ ok b)
      × ((elim x as (λ _. Result B × Router S) [ ok a ↦ f a r | err e ↦ (err e, r) ]).1 ≡ (f a r).1)
bind-run f (ok a) r b h = (a, refl, h, refl)
bind-run f (err e) r b h = absurd (ground arith)

-- A call that reports no error ran to its end.
pub bind-ok :
    {S A B : Type 0} (m : Action S A) (f : A → Action S B) (r : Router S) (b : B)
    → ((m >>= f) r).0 ≡ ok b
    → (a : A) × ((m r).0 ≡ ok a) × ((f a (m r).1).0 ≡ ok b) × (((m >>= f) r).1 ≡ (f a (m r).1).1)
bind-ok m f r b h = bind-run f (m r).0 (m r).1 b h

module _ (n : Nft) (laws : IsNft n) where
  -- A grant puts the device among the members, and the row among the active ones.
  add-IsSynced :
      (r : Router n.State) (mac : Text) (d : Db)
      → IsSynced n r
      → IsValid d
      → ((k : Text) → is_allowed k d ≡ (text_eq mac k || is_allowed k r.db))
      → (add n mac r.set).0 ≡ ok tt
      → IsSynced n (record { db = d; set = (add n mac r.set).1 })
  add-IsSynced r mac d y v rows h = record {
    valid = v;
    same = λ k.
        let (good, here) = add-member n laws mac r.set k h in
        elim (Bool-cases (text_eq mac k)) [
          | inl e ↦
              let goodk : valid_mac k ≡ true =
                subst (λ j. valid_mac j ≡ true) (text_eq-eq mac k e) good in
              rw (here, rows k, e, goodk)
          | inr e ↦ rw (here, rows k, e, y.same k)
        ];
  }

  -- A removal takes the device from the members, and its row from the active ones.
  remove-IsSynced :
      (r : Router n.State) (mac : Text) (d : Db)
      → IsSynced n r
      → IsValid d
      → ((k : Text) → is_allowed k d ≡ (not (text_eq mac k) && is_allowed k r.db))
      → (remove n mac r.set).0 ≡ ok tt
      → IsSynced n (record { db = d; set = (remove n mac r.set).1 })
  remove-IsSynced r mac d y v rows h = record {
    valid = v;
    same = λ k.
        let (good, here) = remove-member n laws mac r.set k h in
        ground (arith, here, rows k, y.same k);
  }

  extend-result :
      (works reread : Bool) (mac label : Text) (days : ℕ) (user : Option ℕ) (now : Time)
      (r : Router n.State) (m : Mac)
      → (extend n works reread mac label days user now r).0 ≡ ok m
      → (m.mac ≡ mac)
        × ((upsert_mac works reread mac label days user now r.db).0 ≡ ok (some m))
        × ((add n mac r.set).0 ≡ ok tt)
        × ((extend n works reread mac label days user now r).1 ≡ record {
          db = (upsert_mac works reread mac label days user now r.db).1;
          set = (add n mac r.set).1;
        })
  unfolding extend
  extend-result works reread mac label days user now r m h =
      let (o, up, ran, same) =
        bind-ok (db (upsert_mac works reread mac label days user now))
          (λ o. deref o >>= λ x. fw (add n x.mac) >>= λ _. return x) r m h in
      let (x, found, device, rows) =
        upsert_mac-allowed works reread mac label days user now r.db o up in
      let ran' : ((deref (some x) >>= λ x. fw (add n x.mac) >>= λ _. return x)
            (record r { db = (upsert_mac works reread mac label days user now r.db).1 })).0
          ≡ ok m =
        subst
          (λ z.
            ((deref z >>= λ x. fw (add n x.mac) >>= λ _. return x)
              (record r { db = (upsert_mac works reread mac label days user now r.db).1 })).0
            ≡ ok m)
          found ran in
      ground (arith, device, up, found, ran', same)

  -- An `Extend` without an error keeps the set and the table together.
  pub extend-IsSynced :
      (works reread : Bool) (mac label : Text) (days : ℕ) (user : Option ℕ) (now : Time)
      (r : Router n.State) (m : Mac)
      → IsSynced n r
      → (extend n works reread mac label days user now r).0 ≡ ok m
      → IsSynced n (extend n works reread mac label days user now r).1
  extend-IsSynced works reread mac label days user now r m y h =
      let (device, up, added, result) = extend-result works reread mac label days user now r m h in
      let (x, found, same, rows) =
        upsert_mac-allowed works reread mac label days user now r.db (some m) up in
      subst (IsSynced n) (sym result) (
        add-IsSynced r mac _ y
          (upsert_mac-IsValid works reread mac label days user now r.db y.valid) rows added)

  -- `GrantFromOrder` is `Extend` with the order's fields, less its answer.
  pub grant_from_order-extend :
      (works reread : Bool) (o : Order) (now : Time) (r : Router n.State)
      → let e = extend n works reread o.mac (paid_label o.plan) o.days o.user_id now r in
        grant_from_order n works reread o now r ≡ (elim e.0 [ ok _ ↦ ok tt | err x ↦ err x ], e.1)
  unfolding grant_from_order extend
  grant_from_order-extend works reread o now r = ground arith

  -- A `GrantFromOrder` without an error keeps the set and the table together.
  pub grant_from_order-IsSynced :
      (works reread : Bool) (o : Order) (now : Time) (r : Router n.State)
      → IsSynced n r
      → (grant_from_order n works reread o now r).0 ≡ ok tt
      → IsSynced n (grant_from_order n works reread o now r).1
  grant_from_order-IsSynced works reread o now r y h =
      rw (grant_from_order-extend works reread o now r)
        (elim (Result-cases
          (extend n works reread o.mac (paid_label o.plan) o.days o.user_id now r).0) [
            | inl (m, done) ↦
                extend-IsSynced works reread o.mac (paid_label o.plan) o.days o.user_id now r m y
                  done
            | inr (e, failed) ↦
                absurd (ground (arith, grant_from_order-extend works reread o now r))
          ])

  -- A `Revoke` without an error keeps the set and the table together.
  pub revoke-IsSynced :
      (works : Bool) (mac : Text) (now : Time) (r : Router n.State)
      → IsSynced n r
      → (revoke n works mac now r).0 ≡ ok tt
      → IsSynced n (revoke n works mac now r).1
  unfolding revoke step
  revoke-IsSynced works mac now r y h =
      let (u, blocked, removed, result) =
        bind-ok (db (set_mac_status works mac MacStatus.blocked now)) (λ _. fw (remove n mac)) r tt
          h in
      subst (IsSynced n) (sym result) (
        remove-IsSynced r mac _ y
          (step-IsValid (sets_status works mac MacStatus.blocked now) r.db y.valid)
          (block-allowed works mac now r.db blocked) removed)

  -- A `Delete` without an error keeps the set and the table together.
  pub delete-IsSynced :
      (works : Bool) (mac : Text) (r : Router n.State)
      → IsSynced n r
      → (delete n works mac r).0 ≡ ok tt
      → IsSynced n (delete n works mac r).1
  unfolding delete step
  delete-IsSynced works mac r y h =
      let (u, deleted, removed, result) =
        bind-ok (db (delete_mac works mac)) (λ _. fw (remove n mac)) r tt h in
      subst (IsSynced n) (sym result) (
        remove-IsSynced r mac _ y (step-IsValid (deletes works mac) r.db y.valid)
          (delete_mac-allowed works mac r.db y.valid deleted) removed)
