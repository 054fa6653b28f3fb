-- ===== src/Service/Schedules.antt =====
-- internal/service/mac.go, `enforceSchedulesOnce`: the hours of the week, applied to the firewall's set.
-- The decoding of JSON and the time zone are parameters.
use router_billing.Prelude.{
  ◌≡◌, ◌⊎◌, refl, ap, ◌∙◌, subst, Bool, true, false, not, ◌&&◌, ◌||◌, text_eq-eq, Option, none,
  some, List, [], ◌∷◌, Text, text_eq, is_empty, arith, inl, inr, Bool-cases, Option-cases,
  if◌then◌else◌,
}
use router_billing.Prelude.Lists.{keep}
use router_billing.Models.{Time, Mac}
use router_billing.Models.Schedule.{MacSchedule, Moment, is_scheduled, is_in_range}
use router_billing.Db.{ok, err, Error, Result-cases}
use router_billing.Prelude.Table.{get, find, IsUnique}
use router_billing.Db.Macs.{mac_key, find_mac, is_online, list_active_macs}
use router_billing.Firewall.{Nft, IsNft, add, remove}
use router_billing.Firewall.Members.{add-member, remove-member, add-fails, remove-fails}
use router_billing.Db.Invariant.{IsValid}
use router_billing.Service.{Router, Action, ◌>>=◌, db, fw, ignoring, return}

module _ (n : Nft) (decode : Text → Option MacSchedule) (clock : Time → Moment) where
  -- `ParseSchedule` on a text that is not empty.
  abbrev pub checked : Option MacSchedule → Option MacSchedule
  checked none = none
  checked (some s) = if is_in_range s then some s else none

  -- What the loop does for a row: a row without a schedule and one that does not parse are skipped.
  abbrev pub apply_schedule : Option MacSchedule → Mac → Time → Action n.State (Unit {0})
  apply_schedule none m now = return tt
  apply_schedule (some s) m now =
      if is_scheduled s (clock now)
      then ignoring (fw (add n m.mac))
      else ignoring (fw (remove n m.mac))

  abbrev pub enforce_row : Time → Mac → Action n.State (Unit {0})
  enforce_row now m =
      if is_empty m.schedule_json
      then return tt
      else apply_schedule (checked (decode m.schedule_json)) m now

  unfoldable pub enforce_all : List Mac → Time → Action n.State (Unit {0})
  enforce_all [] now r = (ok tt, r)
  enforce_all (m ∷ ms) now r = enforce_all ms now (enforce_row now m r).1

  -- `enforceSchedulesOnce`: an error of the query ends it.
  unfoldable pub enforce_schedules_once : Bool → Time → Action n.State (Unit {0})
  enforce_schedules_once works now = do macs ← db (list_active_macs works now); enforce_all macs now

  enforce_row-db : (now : Time) (m : Mac) (r : Router n.State) → (enforce_row now m r).1.db ≡ r.db
  enforce_row-db now m r = ground arith

  enforce_all-db :
      (ms : List Mac) (now : Time) (r : Router n.State) → (enforce_all ms now r).1.db ≡ r.db
  unfolding enforce_all
  enforce_all-db [] now r = refl
  enforce_all-db (m ∷ ms) now r =
      enforce_all-db ms now (enforce_row now m r).1 ∙ enforce_row-db now m r

  -- The schedule of a row lets it through now, or shuts it out; a row that has none, or one that does not
  -- parse, does neither.
  abbrev parsed : Mac → Option MacSchedule
  parsed m = if is_empty m.schedule_json then none else checked (decode m.schedule_json)

  abbrev runs : Time → Option MacSchedule → Bool
  runs now none = false
  runs now (some s) = is_scheduled s (clock now)

  abbrev pub opens : Time → Mac → Bool
  opens now m = runs now (parsed m)

  abbrev rests : Time → Option MacSchedule → Bool
  rests now none = false
  rests now (some s) = not (is_scheduled s (clock now))

  abbrev pub shuts : Time → Mac → Bool
  shuts now m = rests now (parsed m)

  -- Whether a device with that row is in the set after a pass, if it was so before.
  abbrev pub wanted : Time → Option Mac → Bool → Bool
  wanted now none before = before
  wanted now (some m) before =
      if is_online now m && opens now m
      then true
      else if is_online now m && shuts now m
      then false
      else before

  -- A command for the device fails, in some state of the set.
  abbrev pub IsFailing : Text → Type 0
  IsFailing k = (s : n.State) × (e : Error) × (((add n k s).0 ≡ err e) ⊎ ((remove n k s).0 ≡ err e))

  enforce_row-set :
      (now : Time) (m : Mac) (r : Router n.State)
      → let s = (enforce_row now m r).1.set in
        ((opens now m ≡ false) × (shuts now m ≡ false) × (s ≡ r.set))
        ⊎ (((opens now m ≡ true) × (s ≡ (add n m.mac r.set).1))
            ⊎ ((opens now m ≡ false) × (shuts now m ≡ true) × (s ≡ (remove n m.mac r.set).1)))
  enforce_row-set now m r = elim (Bool-cases (is_empty m.schedule_json)) [
    | inl y ↦ inl (rw y (refl, refl, refl))
    | inr y ↦ elim (Option-cases (checked (decode m.schedule_json))) [
      | inl nothing ↦ inl (rw (y, nothing) (refl, refl, refl))
      | inr (s, parsed) ↦ elim (Bool-cases (is_scheduled s (clock now))) [
        | inl running ↦ inr (inl (rw (y, parsed, running) (refl, refl)))
        | inr shut ↦ inr (inr (rw (y, parsed, shut) (refl, refl, refl)))
      ]
    ]
  ]

  module _ (laws : IsNft n) where
    add-cases :
        (m k : Text) (s : n.State)
        → (n.member k (add n m s).1 ≡ (text_eq m k || n.member k s))
          ⊎ (n.member k (add n m s).1 ≡ n.member k s) × ((text_eq m k ≡ false) ⊎ IsFailing k)
    add-cases m k s = elim (Result-cases (add n m s).0) [
      | inl (_, fine) ↦ inl (let (good, here) = add-member n laws m s k fine in here)
      | inr (e, failed) ↦ inr (
        add-fails n laws m s e k failed,
        elim (Bool-cases (text_eq m k)) [
          | inr other ↦ inl other
          | inl y ↦ inr (subst IsFailing (text_eq-eq m k y) (s, e, inl failed))
        ],
      )
    ]

    remove-cases :
        (m k : Text) (s : n.State)
        → (n.member k (remove n m s).1 ≡ (not (text_eq m k) && n.member k s))
          ⊎ (n.member k (remove n m s).1 ≡ n.member k s) × ((text_eq m k ≡ false) ⊎ IsFailing k)
    remove-cases m k s = elim (Result-cases (remove n m s).0) [
      | inl (_, fine) ↦ inl (let (good, here) = remove-member n laws m s k fine in here)
      | inr (e, failed) ↦ inr (
        remove-fails n laws m s e k failed,
        elim (Bool-cases (text_eq m k)) [
          | inr other ↦ inl other
          | inl y ↦ inr (subst IsFailing (text_eq-eq m k y) (s, e, inr failed))
        ],
      )
    ]

    -- What the loop does for an online row, seen by a device.
    enforce_row-cases :
        (now : Time) (m : Mac) (r : Router n.State) (k : Text)
        → is_online now m ≡ true
        → let after = n.member k (enforce_row now m r).1.set in
          (after ≡ (
            if text_eq m.mac k then wanted now (some m) (n.member k r.set) else n.member k r.set))
          ⊎ (IsFailing k × (after ≡ n.member k r.set))
    enforce_row-cases now m r k online = elim (enforce_row-set now m r) [
      | inl (quiet, calm, same) ↦ inl (rw same (ground arith))
      | inr (inl (open_now, same)) ↦ elim (add-cases m.mac k r.set) [
        | inl told ↦ inl (rw same (ground arith))
        | inr (told, inl other) ↦ inl (rw same (ground arith))
        | inr (told, inr failing) ↦ inr (failing, rw same told)
      ]
      | inr (inr (quiet, shut_now, same)) ↦ elim (remove-cases m.mac k r.set) [
        | inl told ↦ inl (rw same (ground arith))
        | inr (told, inl other) ↦ inl (rw same (ground arith))
        | inr (told, inr failing) ↦ inr (failing, rw same told)
      ]
    ]

    enforce_all-cases :
        (ms : List Mac) (now : Time) (r : Router n.State) (k : Text)
        → IsUnique mac_key ms
        → let after = n.member k (enforce_all (keep (is_online now) ms) now r).1.set in
          (after ≡ wanted now (get mac_key k ms) (n.member k r.set))
          ⊎ (IsFailing k × (after ≡ n.member k r.set))
    unfolding enforce_all keep get find
    enforce_all-cases [] now r k u = inl refl
    enforce_all-cases (m ∷ ms) now r k (fresh, u) = elim (Bool-cases (text_eq m.mac k)) [
      | inl y ↦
          let absent : get mac_key k ms ≡ none =
            subst (λ j. get mac_key j ms ≡ none) (text_eq-eq m.mac k y) fresh in
          elim (Bool-cases (is_online now m)) [
            | inr off ↦ elim (enforce_all-cases ms now r k u) [
              | inl told ↦
                  inl
                    (rw (off, y) (told ∙ ap (λ o. wanted now o (n.member k r.set)) absent ∙ rw off))
              | inr (failing, told) ↦ inr (failing, rw off told)
            ]
            | inl on ↦
                let first = enforce_row-cases now m r k on in
                let alone : n.member k
                      (enforce_all (keep (is_online now) ms) now (enforce_row now m r).1).1.set
                    ≡ n.member k (enforce_row now m r).1.set =
                  elim (enforce_all-cases ms now (enforce_row now m r).1 k u) [
                    | inl told ↦ told ∙ rw absent
                    | inr (_, told) ↦ told
                  ] in
                elim first [
                  | inl told ↦ inl (rw (on, y) (alone ∙ told ∙ rw (y, on)))
                  | inr (failing, told) ↦ inr (failing, rw on (alone ∙ told))
                ]
          ]
      | inr other ↦ elim (Bool-cases (is_online now m)) [
        | inr off ↦ rw (off, other) (enforce_all-cases ms now r k u)
        | inl on ↦
            let mid : n.member k (enforce_row now m r).1.set ≡ n.member k r.set =
              elim (enforce_row-cases now m r k on) [
                | inl told ↦ told ∙ rw other
                | inr (_, told) ↦ told
              ] in
            elim (enforce_all-cases ms now (enforce_row now m r).1 k u) [
              | inl told ↦ inl (rw (on, other) (told ∙ ap (wanted now (get mac_key k ms)) mid))
              | inr (failing, told) ↦ inr (failing, rw on (told ∙ mid))
            ]
      ]
    ]

    -- A pass over the schedules, whichever commands fail, does not write the tables. A device whose row is
    -- online and whose schedule lets it through now is in the set afterwards, one whose schedule shuts it
    -- out is not, and any other is exactly if it was before. Only a device for which a command fails, in some
    -- state of the set, may be as it was before instead. Where the query
    -- of the rows fails the set does not change.
    pub enforce_schedules_once_lem :
        (works : Bool) (now : Time) (r : Router n.State)
        → IsValid r.db
        → let r' = (enforce_schedules_once works now r).1 in
          (r'.db ≡ r.db)
          × ((k : Text)
              → (n.member k r'.set ≡ (
                  if works
                  then wanted now (find_mac k r.db) (n.member k r.set)
                  else n.member k r.set))
                ⊎ (IsFailing k × (n.member k r'.set ≡ n.member k r.set)))
    unfolding enforce_schedules_once list_active_macs
    enforce_schedules_once_lem false now r v = (refl, λ k. inl refl)
    enforce_schedules_once_lem true now r v = (
      enforce_all-db (keep (is_online now) r.db.macs) now r,
      λ k. enforce_all-cases r.db.macs now r k v.macs_unique,
    )
