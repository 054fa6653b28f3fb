-- ===== src/Service/Sweep.antt =====
-- `Resync`, `ExpireDue` and `Replace`: the calls that touch several members of the firewall's set.
use router_billing.Prelude.{
  ℕ, ◌≡◌, refl, sym, ap, ◌∙◌, subst, Bool, true, false, ◌&&◌, not, ◌⊎◌, Option, List, [], ◌∷◌, map,
  Text, text_eq, text_eq-eq, text_eq_comm, arith, inl, inr, Bool-cases, Option-cases,
}
use router_billing.Prelude.Lists.{keep, any}
use router_billing.Models.{Time, Mac}
use router_billing.Db.{ok, err, Error, Result-cases}
use router_billing.Db.Macs.{
  mac_key, find_mac, replace_mac, is_online, is_due, list_active_macs, expire_due_macs,
}
use router_billing.Db.Macs.Expire.{expire_due_macs-lem}
use router_billing.Db.Invariant.{IsValid}
use router_billing.Db.Invariant.Steps.{replace_mac-IsValid, expire_due_macs-IsValid}
use router_billing.Firewall.{Nft, IsNft, among, valid_mac, add, remove}
use router_billing.Firewall.Members.{add-member, remove-member, remove-fails, sync-member}
use router_billing.Service.{
  Router, ◌>>=◌, db, fw, return, ignoring, resync, remove_all, expire_due, replace,
}
use router_billing.Service.Synced.{
  IsSynced, is_allowed, row_is, among-rows, expire_due_macs-allowed, replace_mac-allowed,
}
use router_billing.Service.Keeps.{bind-ok}

among-keep :
    (p : Text → Bool) (xs : List Text) (k : Text) → among k (keep p xs) ≡ (p k && among k xs)
unfolding keep any
among-keep p [] k = ground arith
among-keep p (x ∷ xs) k = elim (Bool-cases (text_eq k x)) [
  | inl e ↦
      let same : p x ≡ p k = ap p (sym (text_eq-eq k x e)) in ground (arith, among-keep p xs k)
  | inr e ↦ ground (arith, among-keep p xs k)
]

module _ (n : Nft) (laws : IsNft n) where
  -- A `Resync` without an error, from any set at all: the members are then the devices online.
  pub resync-member :
      (works : Bool) (now : Time) (r : Router n.State) (k : Text)
      → IsValid r.db
      → (resync n works now r).0 ≡ ok tt
      → n.member k (resync n works now r).1.set
        ≡ (valid_mac k && row_is (is_online now) (find_mac k r.db))
  unfolding resync list_active_macs
  resync-member false now r k v h = absurd (ground arith)
  resync-member true now r k v h =
      sync-member n laws (map mac_key (keep (is_online now) r.db.macs)) r.set k h
      ∙ rw (
        among-keep valid_mac (map mac_key (keep (is_online now) r.db.macs)) k,
        among-rows (is_online now) r.db.macs k v.macs_unique,
      )

  remove_all-ok : (ms : List Text) (r : Router n.State) → (remove_all n ms r).0 ≡ ok tt
  unfolding remove_all
  remove_all-ok [] r = refl
  remove_all-ok (m ∷ ms) r = remove_all-ok ms _

  remove_all-db : (ms : List Text) (r : Router n.State) → (remove_all n ms r).1.db ≡ r.db
  unfolding remove_all
  remove_all-db [] r = refl
  remove_all-db (m ∷ ms) r = remove_all-db ms _

  -- The removal of the device fails, in some state of the set.
  abbrev pub IsStuck : Text → Type 0
  IsStuck k = (s : n.State) × (e : Error) × ((remove n k s).0 ≡ err e)

  -- One removal, seen by a device: it is done, or it failed.
  remove-cases :
      (m k : Text) (s : n.State)
      → (n.member k (remove n m s).1 ≡ (not (text_eq m k) && n.member k s))
        ⊎ ((text_eq m k ≡ false) × (n.member k (remove n m s).1 ≡ n.member k s))
        ⊎ (IsStuck k × (n.member k (remove n m s).1 ≡ n.member k s))
  remove-cases m k s = elim (Result-cases (remove n m s).0) [
    | inl (_, fine) ↦ inl (let (good, here) = remove-member n laws m s k fine in here)
    | inr (e, failed) ↦ elim (Bool-cases (text_eq m k)) [
      | inr other ↦ inr (inl (other, remove-fails n laws m s e k failed))
      | inl y ↦ inr (
          inr (subst IsStuck (text_eq-eq m k y) (s, e, failed), remove-fails n laws m s e k failed))
    ]
  ]

  remove_all-cases :
      (ms : List Text) (r : Router n.State) (k : Text)
      → let after = n.member k (remove_all n ms r).1.set in
        (after ≡ (not (among k ms) && n.member k r.set)) ⊎ (IsStuck k × (after ≡ n.member k r.set))
  unfolding remove_all any
  remove_all-cases [] r k = inl (ground arith)
  remove_all-cases (m ∷ ms) r k =
      let rest = remove_all-cases ms (record r { set = (remove n m r.set).1 }) k in
      elim (remove-cases m k r.set) [
        | inl gone ↦ elim rest [
          | inl told ↦ inl (ground (arith, text_eq_comm k m))
          | inr (stuck, told) ↦ elim (Bool-cases (text_eq m k)) [
            | inl y ↦ inl (ground (arith, text_eq_comm k m))
            | inr other ↦ inr (stuck, ground arith)
          ]
        ]
        | inr (inl (other, kept)) ↦ elim rest [
          | inl told ↦ inl (ground (arith, text_eq_comm k m))
          | inr (stuck, told) ↦ inr (stuck, ground arith)
        ]
        | inr (inr (stuck, kept)) ↦ elim rest [
          | inl told ↦ elim (Bool-cases (among k ms)) [
            | inl listed ↦ inl (ground (arith, text_eq_comm k m))
            | inr unlisted ↦ inr (stuck, ground arith)
          ]
          | inr (_, told) ↦ inr (stuck, ground arith)
        ]
      ]

  -- The sweep of due devices, with the database working.
  expire_due-result :
      (now : Time) (r : Router n.State)
      → expire_due n true true now r ≡ (
        ok (map mac_key (keep (is_due now) r.db.macs)),
        (remove_all n
            (map mac_key (keep (is_due now) r.db.macs))
            (record r { db = (expire_due_macs true true now r.db).1 })).1,
      )
  unfolding expire_due
  expire_due-result now r =
      let macs = map mac_key (keep (is_due now) r.db.macs) in
      ground (
        arith,
        expire_due_macs-lem now r.db,
        remove_all-ok macs (record r { db = (expire_due_macs true true now r.db).1 }),
      )

  expire_due-db :
      (now : Time) (r : Router n.State)
      → (expire_due n true true now r).1.db ≡ (expire_due_macs true true now r.db).1
  expire_due-db now r = rw (expire_due-result now r) (remove_all-db _ _)

  expire_due-member :
      (now : Time) (r : Router n.State) (k : Text)
      → IsSynced n r
      → let after = n.member k (expire_due n true true now r).1.set in
        (after ≡ (valid_mac k && row_is (is_online now) (find_mac k r.db)))
        ⊎ (IsStuck k × (after ≡ n.member k r.set))
  expire_due-member now r k y =
      let macs = map mac_key (keep (is_due now) r.db.macs) in
      let cases =
        remove_all-cases macs (record r { db = (expire_due_macs true true now r.db).1 }) k in
      rw (expire_due-result now r) (elim cases [
        | inr failed ↦ inr failed
        | inl done ↦ inl (
            rw (done, among-rows (is_due now) r.db.macs k y.valid.macs_unique, y.same k)
              (elim (Option-cases (find_mac k r.db)) [
                | inl missing ↦ rw missing (ground arith)
                | inr (m, found) ↦ rw found (ground arith)
              ]))
      ])

  -- A sweep with the database working, whichever removals fail. Every device is in the set afterwards exactly if it is
  -- well-formed and online, and exactly if it is well-formed and its row is active. Only a device whose removal fails, in some
  -- state of the set, may be in the set as it was before instead. The sweep is answered with the MACs that were due.
  pub expire_due_lem :
      (now : Time) (r : Router n.State)
      → IsSynced n r
      → let (o, r') = expire_due n true true now r in
        (o ≡ ok (map mac_key (keep (is_due now) r.db.macs)))
        × IsValid r'.db
        × ((k : Text)
            → ((n.member k r'.set ≡ (valid_mac k && row_is (is_online now) (find_mac k r.db)))
                × (n.member k r'.set ≡ (valid_mac k && is_allowed k r'.db)))
              ⊎ (IsStuck k × (n.member k r'.set ≡ n.member k r.set)))
  expire_due_lem now r y = (
    ap (λ z. z.0) (expire_due-result now r),
    rw (expire_due-db now r) (expire_due_macs-IsValid true true now r.db y.valid),
    λ k. elim (expire_due-member now r k y) [
      | inr failed ↦ inr failed
      | inl told ↦ inl (told, told ∙ rw (expire_due-db now r, expire_due_macs-allowed now r.db k))
    ],
  )

  replace-result :
      (works reread : Bool) (user : ℕ) (old_mac to label : Text) (now : Time) (r : Router n.State)
      (o : Option Mac)
      → (replace n works reread user old_mac to label now r).0 ≡ ok o
      → ((replace_mac works reread user old_mac to label now r.db).0 ≡ ok o)
        × ((add n to (remove n old_mac r.set).1).0 ≡ ok tt)
        × ((replace n works reread user old_mac to label now r).1 ≡ record {
          db = (replace_mac works reread user old_mac to label now r.db).1;
          set = (add n to (remove n old_mac r.set).1).1;
        })
  unfolding replace
  replace-result works reread user old_mac to label now r o h =
      let (x, moved, ran, same) =
        bind-ok (db (replace_mac works reread user old_mac to label now))
          (λ x. ignoring (fw (remove n old_mac)) >>= λ _. fw (add n to) >>= λ _. return x) r o h in
      let (u, added, out, last) =
        bind-ok (fw (add n to)) (λ _. return x)
          (record {
            db = (replace_mac works reread user old_mac to label now r.db).1;
            set = (remove n old_mac r.set).1;
          })
          o ran in
      (ground (arith, moved, out), ground (arith, added), same ∙ last)

  -- A `Replace` without an error, whose removal of the old MAC succeeds too, keeps the set and the table
  -- together. (The code drops an error of that removal.)
  pub replace-IsSynced :
      (works reread : Bool) (user : ℕ) (old_mac to label : Text) (now : Time) (r : Router n.State)
      (o : Option Mac)
      → IsSynced n r
      → (remove n old_mac r.set).0 ≡ ok tt
      → (replace n works reread user old_mac to label now r).0 ≡ ok o
      → IsSynced n (replace n works reread user old_mac to label now r).1
  replace-IsSynced works reread user old_mac to label now r o y removed h =
      let (moved, added, result) = replace-result works reread user old_mac to label now r o h in
      subst (IsSynced n) (sym result) (record {
        valid = replace_mac-IsValid works reread user old_mac to label now r.db y.valid;
        same = λ k.
            let (good, here) = add-member n laws to (remove n old_mac r.set).1 k added in
            let (good_old, gone) = remove-member n laws old_mac r.set k removed in
            rw
              (
                here,
                gone,
                replace_mac-allowed works reread user old_mac to label now r.db o y.valid moved k,
                y.same k,
              )
              (elim (Bool-cases (text_eq to k)) [
                | inl e ↦
                    let goodk : valid_mac k ≡ true =
                      subst (λ j. valid_mac j ≡ true) (text_eq-eq to k e) good in
                    ground arith
                | inr e ↦ ground arith
              ]);
      })
