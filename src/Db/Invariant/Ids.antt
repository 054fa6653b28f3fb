-- ===== src/Db/Invariant/Ids.antt =====
-- A device row is found again by its id: no two rows share one.
use router_billing.Prelude.{
  ℕ, ◌<◌, ◌≡◌, subst, some, List, [], ◌∷◌, Text, text_eq, text_eq-eq, text_eq_refl, arith, inl, inr,
  ◌==◌, if◌then◌else◌, Bool-cases, Option-cases,
}
use router_billing.Prelude.Table.{find, get, get-key, update_where, get-update_where}
use router_billing.Models.{Mac}
use router_billing.Db.Macs.{mac_key}
use router_billing.Db.Invariant.{Ascends}

above :
    (low high : ℕ) (k : Text) (ms : List Mac) {x : Mac}
    → Ascends low high ms
    → get mac_key k ms ≡ some x
    → low < x.id
unfolding get find
above low high k [] a e = cc
above low high k (m ∷ ms) {x} a e = ground (arith, above m.id high k ms {x = x} a.1)

same_id :
    (low high : ℕ) (j k : Text) (ms : List Mac) {x y : Mac}
    → Ascends low high ms
    → get mac_key j ms ≡ some x
    → get mac_key k ms ≡ some y
    → x.id ≡ y.id
    → x ≡ y
unfolding get find
same_id low high j k [] a ex ey h = cc
same_id low high j k (m ∷ ms) {x} {y} a ex ey h = ground (
  arith,
  same_id m.id high j k ms {x = x} {y = y} a.1,
  above m.id high j ms {x = x} a.1,
  above m.id high k ms {x = y} a.1,
)

-- `UPDATE macs … WHERE id = ?` with the id of a row that was read by its MAC.
pub get-update_id :
    (low high : ℕ) (k j : Text) (f : Mac → Mac) (ms : List Mac) {m : Mac}
    → Ascends low high ms
    → ((x : Mac) → mac_key (f x) ≡ mac_key x)
    → get mac_key j ms ≡ some m
    → get mac_key k (update_where (λ r. r.id == m.id) f ms)
      ≡ (if text_eq j k then some (f m) else get mac_key k ms)
get-update_id low high k j f ms {m} a same e =
    rw (get-update_where mac_key k (λ r. r.id == m.id) f ms same) (elim (Bool-cases (text_eq j k)) [
      | inl y ↦
          let here : get mac_key k ms ≡ some m =
            subst (λ i. get mac_key i ms ≡ some m) (text_eq-eq j k y) e in
          rw here (ground arith)
      | inr n ↦ elim (Option-cases (get mac_key k ms)) [
        | inl none_here ↦ ground arith
        | inr (x, s) ↦ ground (
          arith,
          same_id low high k j ms {x = x} {y = m} a s e,
          get-key mac_key k ms s,
          get-key mac_key j ms e,
          text_eq_refl j,
        )
      ]
    ])
