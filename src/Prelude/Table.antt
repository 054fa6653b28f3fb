-- ===== src/Prelude/Table.antt =====
-- A database table: its rows in insertion order, and the statements the code sends to it.
-- `find` is `SELECT … WHERE` for one row, `update_where`, `delete_where` and `count` the others.
use Prim.Native.Nat.{ℕ, suc}
use mathlib.Core.Path.{◌≡◌, refl, ap, subst}
use mathlib.Core.Logic.{inl, inr}
use mathlib.Core.Bool.{Bool, true, false}
use mathlib.Core.Option
use mathlib.Core.Option.{Option, none, some}
use mathlib.Core.List.{List, [], ◌∷◌, ◌++◌}
use native.Mathlib.Omega.{arith}
use router_billing.Prelude.Tests.{if◌then◌else◌, Bool-cases}
use router_billing.Prelude.Lists.{Text, text_eq, text_eq-eq, text_eq_comm, All, length}

module _ {ℓ} {A : Type ℓ} where
  unfoldable pub find : (A → Bool) → List A → Option A
  find p [] = none
  find p (x ∷ xs) = if p x then some x else find p xs

  unfoldable pub update_where : (A → Bool) → (A → A) → List A → List A
  update_where p f [] = []
  update_where p f (x ∷ xs) = (if p x then f x else x) ∷ update_where p f xs

  unfoldable pub delete_where : (A → Bool) → List A → List A
  delete_where p [] = []
  delete_where p (x ∷ xs) = let rest = delete_where p xs in if p x then rest else x ∷ rest

  -- `RowsAffected`, and `SELECT COUNT(*)`.
  unfoldable pub count : (A → Bool) → List A → ℕ
  count p [] = 0
  count p (x ∷ xs) = let rest = count p xs in if p x then suc rest else rest

  pub find-passes : (p : A → Bool) (xs : List A) {x : A} → find p xs ≡ some x → p x ≡ true
  unfolding find
  find-passes p [] h = cc
  find-passes p (y ∷ xs) {x} h = ground (arith, find-passes p xs {x = x})

  pub find-none-All : (p : A → Bool) (xs : List A) → find p xs ≡ none → All (λ x. p x ≡ false) xs
  unfolding find
  find-none-All p [] h = tt
  find-none-All p (y ∷ xs) h = ground (arith, find-none-All p xs)

  -- An update whose condition no row meets changes nothing.
  pub update_where-none :
      (p : A → Bool) (f : A → A) (xs : List A)
      → All (λ x. p x ≡ false) xs
      → update_where p f xs ≡ xs
  unfolding update_where
  update_where-none p f [] h = refl
  update_where-none p f (x ∷ xs) h = rw h.0 (ap (◌∷◌ x) (update_where-none p f xs h.1))

  pub length-update_where :
      (p : A → Bool) (f : A → A) (xs : List A) → length (update_where p f xs) ≡ length xs
  unfolding update_where
  length-update_where p f [] = refl
  length-update_where p f (x ∷ xs) = ap suc (length-update_where p f xs)

  pub find-append :
      (p : A → Bool) (xs ys : List A)
      → find p (xs ++ ys) ≡ elim (find p xs) [ none ↦ find p ys | some x ↦ some x ]
  unfolding find
  find-append p [] ys = refl
  find-append p (x ∷ xs) ys = ground (arith, find-append p xs ys)

  -- No row that passed the deleted condition is left.
  pub delete_where-All : (p : A → Bool) (xs : List A) → All (λ x. p x ≡ false) (delete_where p xs)
  unfolding delete_where
  delete_where-All p [] = tt
  delete_where-All p (x ∷ xs) = ground (arith, delete_where-All p xs)

  -- What is found after a deletion did not meet its condition.
  pub find-deleted :
      (p q : A → Bool) (xs : List A) {x : A} → find p (delete_where q xs) ≡ some x → q x ≡ false
  unfolding find delete_where
  find-deleted p q [] h = cc
  find-deleted p q (y ∷ xs) {x} h = ground (arith, find-deleted p q xs {x = x})

  -- A deletion leaves what is found, if that does not meet its condition.
  pub find-kept :
      (p q : A → Bool) (xs : List A) {x : A}
      → find p xs ≡ some x
      → q x ≡ false
      → find p (delete_where q xs) ≡ some x
  unfolding find delete_where
  find-kept p q [] h k = cc
  find-kept p q (y ∷ xs) {x} h k = ground (arith, find-kept p q xs {x = x})

  pub find-update_where :
      (p q : A → Bool) (f : A → A) (xs : List A)
      → ((x : A) → p (f x) ≡ p x)
      → find p (update_where q f xs) ≡ Option.map (λ x. if q x then f x else x) (find p xs)
  unfolding find update_where
  find-update_where p q f [] same = refl
  find-update_where p q f (x ∷ xs) same = ground (arith, same x, find-update_where p q f xs same)

-- Tables whose rows carry a UNIQUE text column.
module _ {A : Type 0} (key : A → Text) where
  -- `WHERE key = k`
  abbrev pub has_key : Text → A → Bool
  has_key k x = text_eq (key x) k

  unfoldable pub get : Text → List A → Option A
  get k = find (has_key k)

  pub get-key : (k : Text) (t : List A) {x : A} → get k t ≡ some x → key x ≡ k
  unfolding get
  get-key k t {x} h = text_eq-eq (key x) k (find-passes (has_key k) t h)

  -- The UNIQUE constraint.
  abbrev pub IsUnique : List A → Type 0
  IsUnique [] = Unit
  IsUnique (x ∷ t) = (get (key x) t ≡ none) × IsUnique t

  -- What a row reads after an update that leaves the key column alone.
  pub get-update_where :
      (k : Text) (p : A → Bool) (f : A → A) (t : List A)
      → ((x : A) → key (f x) ≡ key x)
      → get k (update_where p f t) ≡ Option.map (λ x. if p x then f x else x) (get k t)
  unfolding get find update_where
  get-update_where k p f [] same = refl
  get-update_where k p f (x ∷ t) same = ground (arith, same x, get-update_where k p f t same)

  pub update_where-IsUnique :
      (p : A → Bool) (f : A → A) (t : List A)
      → ((x : A) → key (f x) ≡ key x)
      → IsUnique t
      → IsUnique (update_where p f t)
  unfolding update_where
  update_where-IsUnique p f [] same u = tt
  update_where-IsUnique p f (x ∷ t) same (fresh, u) = (
    elim (Bool-cases (p x)) [
      | inl y ↦ rw (y, same x, get-update_where (key x) p f t same, fresh)
      | inr n ↦ rw (n, get-update_where (key x) p f t same, fresh)
    ],
    update_where-IsUnique p f t same u,
  )

  -- A deleted row is gone, where the condition fixes the key.
  pub get-delete_where_self : (k : Text) (t : List A) → get k (delete_where (has_key k) t) ≡ none
  unfolding get find delete_where
  get-delete_where_self k [] = refl
  get-delete_where_self k (x ∷ t) = ground (arith, get-delete_where_self k t)

  -- A deletion does not touch a row that fails its condition; needs the key to be unique.
  pub get-delete_where :
      (k : Text) (p : A → Bool) (t : List A)
      → IsUnique t
      → get k (delete_where p t)
        ≡ elim (get k t) [ none ↦ none | some x ↦ if p x then none else some x ]
  unfolding get find delete_where
  get-delete_where k p [] u = refl
  get-delete_where k p (x ∷ t) (fresh, u) = elim (Bool-cases (text_eq (key x) k)) [
    | inl e ↦
        let absent : get k t ≡ none = subst (λ j. get j t ≡ none) (text_eq-eq _ _ e) fresh in
        ground (arith, get-delete_where k p t u)
    | inr e ↦ ground (arith, get-delete_where k p t u)
  ]

  pub delete_where-absent :
      (k : Text) (p : A → Bool) (t : List A) → get k t ≡ none → get k (delete_where p t) ≡ none
  unfolding get find delete_where
  delete_where-absent k p [] h = refl
  delete_where-absent k p (x ∷ t) h = ground (arith, delete_where-absent k p t)

  pub delete_where-IsUnique : (p : A → Bool) (t : List A) → IsUnique t → IsUnique (delete_where p t)
  unfolding delete_where
  delete_where-IsUnique p [] u = tt
  delete_where-IsUnique p (x ∷ t) (fresh, u) =
      ground (arith, delete_where-absent (key x) p t fresh, delete_where-IsUnique p t u)

  -- A row read after an INSERT.
  pub get-append :
      (k : Text) (t : List A) (x : A)
      → get k (t ++ x ∷ [])
        ≡ elim (get k t) [ none ↦ (if has_key k x then some x else none) | some y ↦ some y ]
  unfolding get find
  get-append k [] x = refl
  get-append k (y ∷ t) x = ground (arith, get-append k t x)

  pub append-IsUnique :
      (t : List A) (x : A) → get (key x) t ≡ none → IsUnique t → IsUnique (t ++ x ∷ [])
  unfolding get find
  append-IsUnique [] x h u = (refl, tt)
  append-IsUnique (y ∷ t) x h (fresh, u) = (
    rw (get-append (key y) t x, fresh) (ground (arith, text_eq_comm (key x) (key y))),
    append-IsUnique t x (ground arith) u,
  )
