-- ===== src/Prelude/Keyed.antt =====
-- Statements on a table with a UNIQUE column, each by what a later SELECT of any key reads.
use mathlib.Core.Path.{◌≡◌, subst}
use mathlib.Core.Logic.{inl, inr}
use mathlib.Core.Option.{none, some}
use mathlib.Core.List.{List, [], ◌∷◌, ◌++◌}
use native.Mathlib.Omega.{arith}
use router_billing.Prelude.Tests.{if◌then◌else◌, Bool-cases, Option-cases}
use router_billing.Prelude.Lists.{Text, text_eq, text_eq-eq, text_eq_refl, text_eq_comm}
use router_billing.Prelude.Table.{
  update_where, delete_where, get, get-key, has_key, IsUnique, get-update_where, get-delete_where,
  get-append,
}

module _ {A : Type 0} (key : A → Text) where
  pub get-insert :
      (k : Text) (t : List A) (x : A)
      → get key (key x) t ≡ none
      → get key k (t ++ x ∷ []) ≡ (if text_eq (key x) k then some x else get key k t)
  get-insert k t x fresh = elim (Bool-cases (text_eq (key x) k)) [
    | inl e ↦
        let absent : get key k t ≡ none =
          subst (λ j. get key j t ≡ none) (text_eq-eq (key x) k e) fresh in
        ground (arith, get-append key k t x)
    | inr e ↦ ground (arith, get-append key k t x)
  ]

  -- An UPDATE of one row by its key.
  pub get-update_key :
      (k j : Text) (f : A → A) (t : List A) {x : A}
      → ((y : A) → key (f y) ≡ key y)
      → get key j t ≡ some x
      → get key k (update_where (has_key key j) f t)
        ≡ (if text_eq j k then some (f x) else get key k t)
  get-update_key k j f t {x} same found = elim (Bool-cases (text_eq j k)) [
    | inl e ↦
        let here : get key k t ≡ some x =
          subst (λ i. get key i t ≡ some x) (text_eq-eq j k e) found in
        rw (
          get-update_where key k (has_key key j) f t same,
          here,
          get-key key j t found,
          text_eq_refl j,
          e,
        )
    | inr e ↦
        rw (get-update_where key k (has_key key j) f t same, e)
          (elim (Option-cases (get key k t)) [
            | inl n ↦ rw n
            | inr (y, s) ↦ rw (s, get-key key k t s, text_eq_comm k j, e)
          ])
  ]

  pub get-delete_key :
      (k j : Text) (t : List A)
      → IsUnique key t
      → get key k (delete_where (has_key key j) t) ≡ (if text_eq j k then none else get key k t)
  get-delete_key k j t u =
      rw (get-delete_where key k (has_key key j) t u) (elim (Option-cases (get key k t)) [
        | inl n ↦ rw n (ground arith)
        | inr (y, s) ↦ rw (s, get-key key k t s, text_eq_comm k j)
      ])
