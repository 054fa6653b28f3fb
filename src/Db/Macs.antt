-- ===== src/Db/Macs.antt =====
-- internal/db/db.go, the section "MAC": the device rows.
pub mod Upsert
pub mod Expire
pub mod Replace
use router_billing.Prelude.{
  ℕ, ◌+◌, ◌≡◌, Bool, true, false, ◌&&◌, ◌||◌, not, Option, none, some, List, [], ◌∷◌, ◌++◌, map,
  Text, text_eq, is_empty, ◌==◌, if◌then◌else◌, keep,
}
use router_billing.Prelude.Int.{leb_ℤ}
use router_billing.Prelude.Table.{get, update_where, delete_where, has_key}
use router_billing.Models.{Time, Mac, MacStatus, after, before, add_days, is_active}
use router_billing.Db.{
  Db, Query, Result, ok, err, Error, mac_not_owned, mac_over, mac_taken, pure, fail, reads, or_fail,
  ◌>>=◌, ◌>>◌, modify, fail_if, call,
}

abbrev pub mac_key : Mac → Text
mac_key m = m.mac

-- `SELECT … FROM macs WHERE mac = ?`
abbrev pub find_mac : Text → Db → Option Mac
find_mac mac d = get mac_key mac d.macs

-- `GetMAC`, and `getMACTx` inside a transaction; `none` is Go's nil.
unfoldable pub get_mac : Bool → Text → Query (Option Mac)
get_mac works mac = call works (reads (find_mac mac))

-- One `UPDATE macs SET … WHERE …`.
abbrev pub update_macs : (Mac → Bool) → (Mac → Mac) → Db → Db
update_macs p f d = record d { macs = update_where p f d.macs }

abbrev pub update_mac : Text → (Mac → Mac) → Db → Db
update_mac mac = update_macs (has_key mac_key mac)

-- `INSERT INTO macs (mac, label, status, expires_at, user_id, …) VALUES (?, ?, 'active', ?, ?, …)`;
-- the other columns take the schema's defaults.
abbrev pub new_mac : ℕ → Text → Text → Time → Option ℕ → Time → Mac
new_mac id mac label expiry owner now = record {
  id = id;
  mac = mac;
  label = label;
  status = MacStatus.active;
  expires_at = expiry;
  user_id = owner;
  schedule_json = [];
  notes = [];
  created_at = now;
  updated_at = now;
}

abbrev pub insert_mac : Text → Text → Time → Option ℕ → Time → Db → Db
insert_mac mac label expiry owner now d = record d {
  macs = d.macs ++ new_mac (d.mac_seq + 1) mac label expiry owner now ∷ [];
  mac_seq = d.mac_seq + 1;
}

-- The expiry that `UpsertMAC` computes.
unfoldable pub extended : Option Mac → ℕ → Time → Time
extended none days now = add_days now days
extended (some m) days now =
    if after m.expires_at now && is_active m.status
    then add_days m.expires_at days
    else add_days now days

-- The owner after an UPDATE: a nil `userID` keeps the old one.
abbrev pub new_owner : Option ℕ → Option ℕ → Option ℕ
new_owner old none = old
new_owner old (some u) = some u

-- The UPDATE of `UpsertMAC` on an existing row.
abbrev pub renewed : Text → Time → Option ℕ → Time → Mac → Mac
renewed label expiry owner now m = record m {
  label = if is_empty label then m.label else label;
  status = MacStatus.active;
  expires_at = expiry;
  user_id = new_owner m.user_id owner;
  updated_at = now;
}

-- The INSERT or UPDATE of `UpsertMAC`.
abbrev pub upsert_row : Option Mac → Text → Text → ℕ → Option ℕ → Time → Db → Db
upsert_row none mac label days owner now = insert_mac mac label (extended none days now) owner now
upsert_row (some m) mac label days owner now =
    update_mac mac (renewed label (extended (some m) days now) owner now)

-- `UpsertMAC`: the transaction, then `GetMAC`, which `reread` lets fail on its own.
unfoldable pub upsert_mac : Bool → Bool → Text → Text → ℕ → Option ℕ → Time → Query (Option Mac)
unfolding get_mac
upsert_mac works reread mac label days owner now =
    call works
      (do existing ← reads (find_mac mac); modify (upsert_row existing mac label days owner now))
    >> get_mac reread mac

unfoldable pub delete_mac : Bool → Text → Query (Unit {0})
delete_mac works mac =
    call works (modify λ d. record d { macs = delete_where (has_key mac_key mac) d.macs })

unfoldable pub set_mac_status : Bool → Text → MacStatus → Time → Query (Unit {0})
set_mac_status works mac status now =
    call works (modify (update_mac mac λ m. record m { status = status; updated_at = now }))

unfoldable pub set_mac_label : Bool → Text → Text → Time → Query (Unit {0})
set_mac_label works mac label now =
    call works (modify (update_mac mac λ m. record m { label = label; updated_at = now }))

unfoldable pub set_mac_notes : Bool → Text → Text → Time → Query (Unit {0})
set_mac_notes works mac notes now =
    call works (modify (update_mac mac λ m. record m { notes = notes; updated_at = now }))

unfoldable pub set_mac_schedule : Bool → Text → Text → Time → Query (Unit {0})
set_mac_schedule works mac schedule now =
    call works
      (modify (update_mac mac λ m. record m { schedule_json = schedule; updated_at = now }))

-- `old.UserID == nil || *old.UserID != userID`
abbrev pub owned_by : ℕ → Option ℕ → Bool
owned_by u none = false
owned_by u (some v) = v == u

abbrev pub or_old : Text → Text → Text
or_old label old = if is_empty label then old else label

-- The checks of `ReplaceMAC` on the row of the old MAC.
abbrev check_old : Option Mac → ℕ → Text → Time → Query Mac
check_old none user old_mac now = fail (mac_not_owned old_mac)
check_old (some old) user old_mac now = do
  fail_if (not (owned_by user old.user_id)) (mac_not_owned old_mac)
  fail_if (not (is_active old.status) || before old.expires_at now) (mac_over old_mac)
  pure old

-- `if conflict != nil`
abbrev check_free : Option Mac → Text → Query (Unit {0})
check_free none to = pure tt
check_free (some _) to = fail (mac_taken to)

unfoldable pub replace_mac : Bool → Bool → ℕ → Text → Text → Text → Time → Query (Option Mac)
unfolding get_mac
replace_mac works reread user old_mac to label now =
    call works (do
      old ← check_old (← reads (find_mac old_mac)) user old_mac now
      check_free (← reads (find_mac to)) to
      modify λ d. record d { macs = delete_where (has_key mac_key old_mac) d.macs }
      modify (insert_mac to (or_old label old.label) old.expires_at (some user) now))
    >> get_mac reread to

-- `status = 'active' AND expires_at <= CURRENT_TIMESTAMP`
abbrev pub is_due : Time → Mac → Bool
is_due now m = is_active m.status && leb_ℤ m.expires_at now

-- The UPDATE of `ExpireDueMACs`.
abbrev pub expire_row : Time → Mac → Mac
expire_row now m = record m { status = MacStatus.expired; updated_at = now }

-- `ExpireDueMACs`: it returns the MACs that it marked. With none due it sends no UPDATE.
unfoldable pub expire_due_macs : Bool → Bool → Time → Query (List Text)
expire_due_macs selects updates now =
    call selects (reads λ d. map mac_key (keep (is_due now) d.macs)) >>= λ macs. elim macs [
      | [] ↦ pure []
      | m ∷ ms ↦ call updates (modify (update_macs (is_due now) (expire_row now))) >> pure (m ∷ ms)
    ]

-- `status = 'active' AND expires_at > CURRENT_TIMESTAMP`
abbrev pub is_online : Time → Mac → Bool
is_online now m = is_active m.status && after m.expires_at now

unfoldable pub list_active_macs : Bool → Time → Query (List Mac)
list_active_macs works now = call works (reads λ d. keep (is_online now) d.macs)

-- `ORDER BY expires_at DESC`; rows with the same end stay in the order of the table.
unfoldable pub insert_by_end : Mac → List Mac → List Mac
insert_by_end m [] = m ∷ []
insert_by_end m (x ∷ xs) =
    let rest = insert_by_end m xs in
    if before m.expires_at x.expires_at then x ∷ rest else m ∷ x ∷ xs

unfoldable pub latest_end_first : List Mac → List Mac
unfolding insert_by_end
latest_end_first [] = []
latest_end_first (m ∷ ms) = insert_by_end m (latest_end_first ms)

abbrev pub is_owned_by : ℕ → Option ℕ → Bool
is_owned_by user none = false
is_owned_by user (some u) = u == user

unfoldable pub list_macs_for_user : Bool → ℕ → Query (List Mac)
unfolding latest_end_first
list_macs_for_user works user =
    call works (reads λ d. latest_end_first (keep (λ m. is_owned_by user m.user_id) d.macs))
