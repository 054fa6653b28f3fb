-- ===== src/Firewall/Members.antt =====
-- `Manager.Add`, `Remove` and `Sync`, by the members of the set afterwards.
use router_billing.Prelude.{
  ◌≡◌, ◌⊎◌, subst, refl, Bool, true, false, ◌&&◌, ◌||◌, not, List, [], ◌∷◌, Text, text_eq,
  text_eq-eq, text_eq_comm, arith, inl, inr, Bool-cases,
}
use router_billing.Prelude.Lists.{keep, any, List-cases}
use router_billing.Db.{ok, err, Error}
use router_billing.Firewall.{
  Nft, IsNft, Outcome, add_element, delete_element, flush_set, done, failed, among, valid_mac, add,
  remove, sync,
}

-- How a command can come back.
pub Outcome-cases :
    (o : Outcome) → (o ≡ done) ⊎ ((there : Bool) × (missing : Bool) × (o ≡ failed there missing))
Outcome-cases done = inl refl
Outcome-cases (failed there missing) = inr (there, missing, refl)

among_one : (k m : Text) → among k (m ∷ []) ≡ text_eq m k
unfolding any
among_one k m = rw (text_eq_comm k m) (ground arith)

-- What the code does not do, with a MAC that `validMAC` accepts or not, is put in the set.
module _ (n : Nft) (laws : IsNft n) (mac : Text) (s : n.State) where
  -- An `Add` without an error: the MAC is a member, and the others are those that were.
  pub add-member :
      (k : Text)
      → (add n mac s).0 ≡ ok tt
      → (valid_mac mac ≡ true) × (n.member k (add n mac s).1 ≡ (text_eq mac k || n.member k s))
  unfolding add
  add-member k h = elim (Bool-cases (valid_mac mac)) [
    | inr bad ↦ absurd (ground arith)
    | inl good ↦ (
      good,
      elim (Outcome-cases (n.exec (add_element (mac ∷ [])) s).0) [
        | inl fine ↦ ground (arith, laws.add_done (mac ∷ []) s k fine, among_one k mac)
        | inr (there, missing, stopped) ↦ elim (Bool-cases (text_eq mac k)) [
          | inl y ↦
              let here : n.member k s ≡ true =
                subst (λ j. n.member j s ≡ true) (text_eq-eq mac k y)
                  (laws.add_exists mac s missing (ground arith)) in
              ground (arith, laws.add_failed (mac ∷ []) s k there missing stopped)
          | inr other ↦ ground (arith, laws.add_failed (mac ∷ []) s k there missing stopped)
        ]
      ],
    )
  ]

  -- A `Remove` without an error: the MAC is no member, and the others are those that were.
  pub remove-member :
      (k : Text)
      → (remove n mac s).0 ≡ ok tt
      → (valid_mac mac ≡ true)
        × (n.member k (remove n mac s).1 ≡ (not (text_eq mac k) && n.member k s))
  unfolding remove
  remove-member k h = elim (Bool-cases (valid_mac mac)) [
    | inr bad ↦ absurd (ground arith)
    | inl good ↦ (
      good,
      elim (Outcome-cases (n.exec (delete_element (mac ∷ [])) s).0) [
        | inl fine ↦ ground (arith, laws.delete_done (mac ∷ []) s k fine, among_one k mac)
        | inr (there, missing, stopped) ↦ elim (Bool-cases (text_eq mac k)) [
          | inl y ↦
              let gone : n.member k s ≡ false =
                subst (λ j. n.member j s ≡ false) (text_eq-eq mac k y)
                  (laws.delete_missing mac s there missing stopped (ground arith)) in
              ground (arith, laws.delete_failed (mac ∷ []) s k there missing stopped)
          | inr other ↦ ground (arith, laws.delete_failed (mac ∷ []) s k there missing stopped)
        ]
      ],
    )
  ]

module _ (n : Nft) (laws : IsNft n) (mac : Text) (s : n.State) (e : Error) where
  -- An `Add` or `Remove` with an error leaves the members.
  pub add-fails : (k : Text) → (add n mac s).0 ≡ err e → n.member k (add n mac s).1 ≡ n.member k s
  unfolding add
  add-fails k h = elim (Outcome-cases (n.exec (add_element (mac ∷ [])) s).0) [
    | inl fine ↦ ground arith
    | inr (there, missing, stopped) ↦
        ground (arith, laws.add_failed (mac ∷ []) s k there missing stopped)
  ]

  pub remove-fails :
      (k : Text) → (remove n mac s).0 ≡ err e → n.member k (remove n mac s).1 ≡ n.member k s
  unfolding remove
  remove-fails k h = elim (Outcome-cases (n.exec (delete_element (mac ∷ [])) s).0) [
    | inl fine ↦ ground arith
    | inr (there, missing, stopped) ↦
        ground (arith, laws.delete_failed (mac ∷ []) s k there missing stopped)
  ]

-- A `Sync` without an error replaces the members, whatever they were, by the valid MACs of the list.
pub sync-member :
    (n : Nft) (laws : IsNft n) (macs : List Text) (s : n.State) (k : Text)
    → (sync n macs s).0 ≡ ok tt
    → n.member k (sync n macs s).1 ≡ among k (keep valid_mac macs)
unfolding sync any
sync-member n laws macs s k h = elim (Outcome-cases (n.exec flush_set s).0) [
  | inr (there, missing, stopped) ↦ absurd (ground arith)
  | inl flushed ↦ elim (List-cases (keep valid_mac macs)) [
    | inl nothing ↦ ground (arith, laws.flush_done s k flushed)
    | inr (m, ms, some_macs) ↦
        elim (Outcome-cases (n.exec (add_element (m ∷ ms)) (n.exec flush_set s).1).0) [
          | inr (there, missing, stopped) ↦ absurd (ground arith)
          | inl fine ↦ ground (
            arith,
            laws.flush_done s k flushed,
            laws.add_done (m ∷ ms) (n.exec flush_set s).1 k fine,
          )
        ]
  ]
]
