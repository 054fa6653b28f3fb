-- ===== src/Db/Plans.antt =====
-- internal/db/db.go, the sections "Plans" and "Sightings": two tables with a text as their primary key.
use router_billing.Prelude.{
  ℕ, ◌≡◌, refl, Bool, true, false, Option, none, some, List, [], ◌∷◌, ◌++◌, Text, text_eq, is_empty,
  arith, inl, inr, if◌then◌else◌, Option-cases, length,
}
use router_billing.Prelude.Int.{ℤ, ◌-ℤ◌}
use router_billing.Prelude.Table.{get, has_key, update_where, delete_where}
use router_billing.Prelude.Keyed.{get-insert, get-update_key}
use router_billing.Models.{Time, before}
use router_billing.Db.{Result, ok, err, sql_failed}

pub record Plan : Type 0 where
  pub key : Text
  pub label : Text
  pub days : ℕ
  pub price_cents : ℕ
  pub sort_order : ℕ
  pub enabled : Bool
  pub updated_at : Time

abbrev pub plan_key : Plan → Text
plan_key p = p.key

-- `INSERT … ON CONFLICT(key) DO UPDATE`
abbrev pub put : {A : Type 0} → (A → Text) → Option A → A → (A → A) → List A → List A
put key none new update t = t ++ new ∷ []
put key (some _) new update t = update_where (has_key key (key new)) update t

-- A call that changes one of these tables.
abbrev pub table_call :
    {A : Type 0} → Bool → (List A → List A) → List A → Result (Unit {0}) × List A
table_call true f t = (ok tt, f t)
table_call false f t = (err sql_failed, t)

unfoldable pub upsert_plan : Bool → Plan → Time → List Plan → Result (Unit {0}) × List Plan
upsert_plan works p now = table_call works (λ t.
    put plan_key (get plan_key p.key t) (record p { updated_at = now })
      (λ old. record p { key = old.key; updated_at = now }) t)

unfoldable pub delete_plan : Bool → Text → List Plan → Result (Unit {0}) × List Plan
delete_plan works key = table_call works (delete_where (has_key plan_key key))

unfoldable pub count_plans : Bool → List Plan → Result ℕ
count_plans works t = if works then ok (length t) else err sql_failed

pub record Sighting : Type 0 where
  pub mac : Text
  pub last_ip : Text
  pub hostname : Text
  pub first_seen : Time
  pub last_seen : Time

abbrev pub sighting_key : Sighting → Text
sighting_key s = s.mac

-- The UPDATE half of `UpsertSighting`: an empty host name keeps the old one.
abbrev pub seen_again : Text → Text → Time → Sighting → Sighting
seen_again ip hostname now s = record s {
  last_ip = ip;
  hostname = if is_empty hostname then s.hostname else hostname;
  last_seen = now;
}

unfoldable pub upsert_sighting :
    Bool → Text → Text → Text → Time → List Sighting → Result (Unit {0}) × List Sighting
upsert_sighting works mac ip hostname now = table_call works (λ t.
    put sighting_key (get sighting_key mac t)
      (record { mac = mac; last_ip = ip; hostname = hostname; first_seen = now; last_seen = now })
      (seen_again ip hostname now) t)

unfoldable pub get_sighting_for_mac : Bool → Text → List Sighting → Result (Option Sighting)
get_sighting_for_mac works mac t = if works then ok (get sighting_key mac t) else err sql_failed

unfoldable pub purge_old_sightings :
    Bool → ℤ → Time → List Sighting → Result (Unit {0}) × List Sighting
purge_old_sightings works older_than now =
    table_call works (delete_where (λ s. before s.last_seen (now -ℤ older_than)))

-- A sighting is read back: the address and time are the new ones, the first time and the host name are kept where
-- there was one and none came. Other devices are read as before.
pub upsert_sighting-get_sighting_for_mac :
    (mac ip hostname : Text) (now : Time) (t : List Sighting)
    → let t' = (upsert_sighting true mac ip hostname now t).1 in
      (s : Sighting) × (s.last_ip ≡ ip)
      × (s.last_seen ≡ now)
      × (s.first_seen ≡ elim (get sighting_key mac t) [ none ↦ now | some old ↦ old.first_seen ])
      × ((k : Text)
          → get_sighting_for_mac true k t'
            ≡ (if text_eq mac k then ok (some s) else get_sighting_for_mac true k t))
unfolding upsert_sighting get_sighting_for_mac
upsert_sighting-get_sighting_for_mac mac ip hostname now t =
    elim (Option-cases (get sighting_key mac t)) [
      | inl fresh ↦
          let new : Sighting = record {
            mac = mac;
            last_ip = ip;
            hostname = hostname;
            first_seen = now;
            last_seen = now;
          } in
          rw fresh
            (new, refl, refl, refl, λ k. ground (arith, get-insert sighting_key k t new fresh))
      | inr (old, found) ↦ rw found (
        seen_again ip hostname now old,
        refl,
        refl,
        refl,
        λ k. ground (
          arith,
          get-update_key sighting_key k mac (seen_again ip hostname now) t (λ x. refl) found,
        ),
      )
    ]
